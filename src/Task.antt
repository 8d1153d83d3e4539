-- ===== src/Task.antt =====
-- kernel/task.c: the ring of process control blocks and the scheduler. A control block and a
-- memory descriptor are named by their addresses; what `kalloc` returns for them is an argument, and
-- its unchecked calls are taken to succeed. `none` is a panic, or a walk that does not end within
-- its bound. Functions run with interrupts off or inside one, so no other task runs in the middle.
pub mod Ring
pub mod Create
pub mod Removal
pub mod Exit
pub mod Schedule
pub mod Fair
pub mod Boot
pub mod Rop
mod Tests
use nar_os.Prelude.{
  ℕ, zero, suc, ◌+◌, ◌-◌, ◌*◌, ◌/◌, ◌%◌, ◌^◌, ◌<◌, Bool, true, false, not, ◌&&◌, Option, none, some,
  [], ◌∷◌, ltb, ◌==◌, if◌then◌else◌,
}
use nar_os.Prelude.Words.{update, add32, sub32}
use nar_os.Mem.{page_size}
use nar_os.Interrupt.{Output, send_eoi}

abbrev pub max_task_num : ℕ
max_task_num = 100

abbrev pub kernel_code_selector : ℕ
kernel_code_selector = 1 * 8

abbrev pub kernel_data_selector : ℕ
kernel_data_selector = 2 * 8

abbrev pub user_code_selector : ℕ
user_code_selector = 4 * 8 + 3

abbrev pub user_data_selector : ℕ
user_data_selector = 5 * 8 + 3

-- `pcb_t` without its table of files.
pub record Pcb : Type 0 where
  pub ebp : ℕ
  pub esp : ℕ
  pub next : ℕ
  pub pid : ℕ
  pub dpl : ℕ
  pub mm : ℕ

-- What the scheduler reads of a `struct mm_struct`: the page directory, and the address of
-- `kernel_stack_start`.
pub record Space : Type 0 where
  pub pde : ℕ
  pub kernel_stack_start : ℕ

-- `interrupt_stack_frame`, less the registers that are not set; `ds` stands for the four data
-- segments, which are set alike.
pub record Frame : Type 0 where
  pub ret : ℕ
  pub vector : ℕ
  pub ebp : ℕ
  pub eip : ℕ
  pub cs : ℕ
  pub ds : ℕ
  pub eflags : ℕ
  pub esp3 : ℕ
  pub ss3 : ℕ

abbrev pub frame_size : ℕ
frame_size = 80

-- The control blocks, descriptors and stack frames in memory, the globals, and the two registers
-- that a switch sets.
pub record Tasks : Type 0 where
  pub at : ℕ → Pcb
  pub spaces : ℕ → Space
  pub frames : ℕ → Frame
  pub running : ℕ
  pub process_num : ℕ
  pub pid_total : ℕ
  pub esp0 : ℕ
  pub cr3 : ℕ

-- The loop of `schedule`, with `n` rounds left.
unfoldable pub next_task : ℕ → ℕ → (ℕ → Pcb) → ℕ → Option ℕ
next_task zero process_num at running = none
next_task (suc n) process_num at running =
    let rest = next_task n process_num at (at running).next in
    if ltb 1 process_num && ((at (at running).next).pid == 0) then rest else some (at running).next

-- The registers that are set for the task that takes over.
unfoldable pub enter_task : ℕ → Tasks → Tasks
enter_task new t =
    let space = t.spaces (t.at new).mm in
    record t {
      running = new;
      esp0 = if (t.at new).dpl == 0 then t.esp0 else add32 space.kernel_stack_start page_size;
      cr3 = space.pde;
    }

-- The call of `context_switch`, if there is one, and the state it is called in. Setting `cr3` to
-- what it is makes no difference, so the test in front of it is not written.
unfoldable pub schedule : ℕ → Tasks → Option (Option (ℕ × ℕ) × Tasks)
unfolding next_task enter_task
schedule n t = elim (next_task n t.process_num t.at t.running) [
  | none ↦ none
  | some new ↦
      if t.running == new
      then some (none, record t { running = new })
      else some (some (t.running, new), enter_task new t)
]

-- What the interrupt controller gets, and the call of `schedule`.
unfoldable pub clock_int : ℕ → ℕ → Tasks → Option (Output × Option (ℕ × ℕ) × Tasks)
unfolding schedule
clock_int n vector t =
    if vector == 0x20
    then (elim (schedule n t) [
      | none ↦ none
      | some (switch, t') ↦ some (send_eoi vector, switch, t')
    ])
    else none

-- `rop` is what stands on the stack before; `interrupt_handler_ret_0x20` is the address of that
-- label.
unfoldable pub setup_rop_stack : ℕ → ℕ → ℕ → ℕ → Frame → Frame
setup_rop_stack interrupt_handler_ret_0x20 stack entry dpl rop =
    let common = record rop {
      ret = interrupt_handler_ret_0x20;
      vector = 0x20;
      ebp = add32 stack frame_size;
      eip = entry;
    } in
    if dpl == 0
    then record common { cs = kernel_code_selector; ds = kernel_data_selector; eflags = 582 }
    else record common {
      cs = user_code_selector;
      ds = user_data_selector;
      ss3 = user_data_selector;
      esp3 = add32 stack frame_size;
      eflags = 0b10 + 2 ^ 9;
    }

unfoldable pub setup_pcb : ℕ → ℕ → ℕ → Tasks → Tasks
setup_pcb pcb stack_top dpl t =
    let pid = add32 t.pid_total 1 in
    record t {
      at = update t.at pcb (record (t.at pcb) {
        pid = pid;
        next = (t.at t.running).next;
        esp = sub32 stack_top frame_size;
        ebp = stack_top;
        dpl = dpl;
      });
      pid_total = pid;
    }

unfoldable pub add_pcb_to_queue : ℕ → Tasks → Tasks
add_pcb_to_queue pcb t = record t {
  at = update t.at t.running (record (t.at t.running) { next = pcb });
  process_num = add32 t.process_num 1;
}

abbrev pub empty_pcb : Pcb
empty_pcb = record { ebp = 0; esp = 0; next = 0; pid = 0; dpl = 0; mm = 0 }

-- `pcb` and `stack` are what the two calls of `kalloc` return.
unfoldable pub task_create : ℕ → ℕ → ℕ → ℕ → ℕ → Tasks → Option (ℕ × Tasks)
unfolding setup_rop_stack setup_pcb add_pcb_to_queue
task_create interrupt_handler_ret_0x20 root pcb stack entry t =
    if ltb max_task_num t.process_num
    then none
    else (let stack_top = add32 stack page_size in
        let rop = sub32 stack_top frame_size in
        let fresh = record t {
          at = update t.at pcb (record empty_pcb { mm = (t.at root).mm });
          frames =
              update t.frames rop
                (setup_rop_stack interrupt_handler_ret_0x20 rop entry 0 (t.frames rop));
        } in
        some (pcb, add_pcb_to_queue pcb (setup_pcb pcb stack_top 0 fresh)))

-- The walk to the task in front of the running one, with `n` rounds left.
unfoldable pub find_back : ℕ → (ℕ → Pcb) → ℕ → ℕ → Option ℕ
find_back zero at running back = none
find_back (suc n) at running back =
    let rest = find_back n at running (at back).next in
    if (at back).next == running then some back else rest

-- `task_exit` in front of its `schedule`. `kfree` gives the block back and leaves what it holds.
unfoldable pub unlink_running : ℕ → ℕ → Tasks → Option Tasks
unfolding find_back
unlink_running n root t = elim (find_back n t.at t.running root) [
  | none ↦ none
  | some back ↦
      let at = update t.at back (record (t.at back) { next = (t.at t.running).next }) in
      some (record t {
        at = update at t.running (record (at t.running) { pid = 0 });
        process_num = sub32 t.process_num 1;
      })
]

-- The two bounds are those of the walk and of `schedule`.
unfoldable pub task_exit : ℕ → ℕ → ℕ → Tasks → Option (Option (ℕ × ℕ) × Tasks)
unfolding unlink_running schedule
task_exit n m root t = elim (unlink_running n root t) [ none ↦ none | some t' ↦ schedule m t' ]
