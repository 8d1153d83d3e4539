-- ===== src/Start/Life.antt =====
-- The run of the first user's task, from the clock interrupt that reaches it to its end.
use mathlib.Core.List.Memᴰ
use nar_os.Prelude.{ℕ, ◌≡◌, ◌≢◌, refl, true, false, some, [], ◌∷◌, ◌==◌, arith, ap, ◌∙◌}
use nar_os.Interrupt.{send_eoi}
use nar_os.Task.{Tasks, clock_int, schedule, enter_task, task_exit}
use nar_os.Task.Ring.{IsRing}
use nar_os.Task.Schedule.{turn, schedule-turn}
use nar_os.Task.Exit.{task_exit-IsRing, heir}
use nar_os.Exec.Enlist.{Enlisted}
use nar_os.Exec.{Kernel}
use nar_os.Exec.Spawn.{HasImage}
use nar_os.Prelude.{◌/◌, ◌+◌, ◌*◌, List}
use nar_os.Mem.Paging.{walk}
use nar_os.Mem.Paging.Copy.{set_cr3}
use nar_os.Mem.Paging.Lands.{Lies}
use nar_os.Mem.Paging.Room.{code_at}

-- The root task runs, and a task of sys_exec is the other one: the next clock interrupt switches to
-- it. Through the directory in cr3 its code is then at the start of the user's memory, and its saved
-- stack pointer leads to its first frame. When it ends, task_exit switches back to the root task,
-- which is alone again.
pub clock_int-exits :
    (k : Kernel) (root pcb mm pde pid code_frame stack_frame : ℕ) (image frame : List ℕ)
    → let t = k.tasks in
      IsRing t root (pcb ∷ [])
      → t.running ≡ root
      → Enlisted t pcb mm pde 0x40002000 pid
      → HasImage k mm image frame code_frame stack_frame
      → (t1 : Tasks) × (t2 : Tasks) × (clock_int 2 0x20 t
          ≡ some (send_eoi 0x20, some (root, pcb), t1))
        × (t1.running ≡ pcb)
        × (walk (set_cr3 (t1.cr3 / 4096) k.memory).machine code_at ≡ some (code_frame * 4096 + 0))
        × Lies image (code_frame * 4096 + 0) k.memory.bytes
        × (walk (set_cr3 (t1.cr3 / 4096) k.memory).machine (t1.at pcb).esp
            ≡ some (stack_frame * 4096 + 0xFB0))
        × Lies frame (stack_frame * 4096 + 0xFB0) k.memory.bytes
        × (task_exit 1 2 root t1 ≡ some (some (pcb, root), t2))
        × (t2.running ≡ root)
        × IsRing t2 root []
unfolding clock_int enter_task
clock_int-exits k root pcb mm pde pid code_frame stack_frame image frame ring runs e image_there =
    let t = k.tasks in
    let ne : pcb ≢ root = ring.distinct.0.0 in
    let root_here : (root == root) ≡ true = ground arith in
    let pcb_here : (pcb == pcb) ≡ true = ground arith in
    let other : (root == pcb) ≡ false = ground (arith, ne) in
    let other' : (pcb == root) ≡ false = ground (arith, ne) in
    let next : turn root (pcb ∷ []) root ≡ pcb = rw (root_here, other') refl in
    let back : heir root (pcb ∷ []) pcb ≡ root = rw (pcb_here, root_here) refl in
    let t1 = enter_task pcb t in
    let directory : t1.cr3 ≡ (k.users mm).pde = rw e.memory image_there.directory in
    let ring1 : IsRing t1 root (pcb ∷ []) = record {
      chain = ring.chain;
      distinct = ring.distinct;
      root_pid = ring.root_pid;
      numbered = ring.numbered;
      running_in = Memᴰ.tail (Memᴰ.head refl);
      counted = ring.counted;
    } in
    let (t2, exits, runs2, ring2) =
      task_exit-IsRing t1 root (pcb ∷ []) ring1 ne (omega (arith, ring.counted)) in
    let switched : schedule 2 t ≡ some (some (root, pcb), t1) =
      schedule-turn t root (pcb ∷ []) ring ∙ rw (runs, next, other) refl in
    (
      t1,
      t2,
      rw (switched, clock_int) refl,
      refl,
      rw directory image_there.code_mapped,
      image_there.code,
      rw (directory, e.saved) image_there.frame_mapped,
      image_there.frame,
      exits ∙ ap (λ r. some (some (pcb, r), t2)) back,
      runs2 ∙ back,
      rw pcb_here at ring2,
    )
