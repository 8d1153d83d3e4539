-- ===== src/Exec.antt =====
-- `sys_exec` of kernel/task.c: a task of user privilege, with its code and its first frame copied into
-- memory of its own. What the calls of kalloc return are arguments, and are taken to be no NULL.
-- `none` is a panic, or a fault inside the kernel's own accesses.
pub mod Load
pub mod Enlist
pub mod Spawn
mod Tests
use nar_os.Prelude.{
  ℕ, ◌+◌, ◌/◌, ◌%◌, ◌^◌, Option, none, some, List, [], ◌∷◌, ◌++◌, length, ltb, if◌then◌else◌, ◌>>=◌,
}
use nar_os.Prelude.Int.{pos}
use nar_os.Prelude.Words.{update, add32, sub32}
use nar_os.Mem.{FrameMap, MmStruct, page_size, sbrk}
use nar_os.Mem.Paging.{Machine, UserMemory}
use nar_os.Mem.Paging.User.{init_user_mm_struct}
use nar_os.Mem.Paging.Copy.{Memory, copy_to_mm_space}
use nar_os.Task.{
  Frame, Space, Tasks, empty_pcb, frame_size, setup_rop_stack, setup_pcb, add_pcb_to_queue,
}

-- The tasks, the descriptors of their memories by address, and the memory. `spaces` of the tasks
-- holds what the scheduler reads of the same descriptors.
pub record Kernel : Type 0 where
  pub tasks : Tasks
  pub users : ℕ → UserMemory
  pub memory : Memory

-- What stands in the frame's words that `setup_rop_stack` does not write.
pub record Unset : Type 0 where
  pub edi : ℕ
  pub esi : ℕ
  pub esp : ℕ
  pub ebx : ℕ
  pub edx : ℕ
  pub ecx : ℕ
  pub eax : ℕ
  pub error : ℕ

abbrev pub word_bytes : ℕ → List ℕ
word_bytes w = (w % 256) ∷ (w / 2 ^ 8 % 256) ∷ (w / 2 ^ 16 % 256) ∷ (w / 2 ^ 24 % 256) ∷ []

abbrev pub words_bytes : List ℕ → List ℕ
words_bytes [] = []
words_bytes (w ∷ ws) = word_bytes w ++ words_bytes ws

-- `interrupt_stack_frame` as it lies in memory.
abbrev pub frame_words : Unset → Frame → List ℕ
frame_words u f =
    f.ret ∷ f.vector ∷ u.edi ∷ u.esi ∷ f.ebp ∷ u.esp ∷ u.ebx ∷ u.edx ∷ u.ecx ∷ u.eax ∷ f.ds ∷ f.ds
    ∷ f.ds ∷ f.ds ∷ u.error ∷ f.eip ∷ f.cs ∷ f.eflags ∷ f.esp3 ∷ f.ss3 ∷ []

abbrev pub no_frame : Frame
no_frame = record {
  ret = 0;
  vector = 0;
  ebp = 0;
  eip = 0;
  cs = 0;
  ds = 0;
  eflags = 0;
  esp3 = 0;
  ss3 = 0;
}

-- The frame on the kernel's stack before it is copied.
unfoldable pub first_frame : (label stack_top code : ℕ) → Frame
first_frame label stack_top code =
    setup_rop_stack label (sub32 stack_top frame_size) code 3 no_frame

-- `sbrk(child_mm, PAGE_SIZE)`: the page's address.
unfoldable pub add_page : UserMemory → FrameMap → Option (ℕ × UserMemory × FrameMap)
add_page um frames = elim (sbrk (record { brk = um.brk; sbrk = um.sbrk }) (pos page_size) frames) [
  | none ↦ none
  | some (at, mm, frames') ↦ some (at, record um { brk = mm.brk; sbrk = mm.sbrk }, frames')
]

abbrev pub with_frames : FrameMap → Memory → Memory
with_frames frames mem = record mem { machine = record mem.machine { frames = frames } }

-- A page for the code; the assert is the test of the length.
unfoldable pub load_code :
    (running : UserMemory) → List ℕ → UserMemory → Memory → Option (ℕ × UserMemory × Memory)
load_code running code um mem = do
  (begin, um', frames) ← add_page um mem.machine.frames
  mem' ←
      (if ltb page_size (length code)
        then none
        else copy_to_mm_space um' running begin code (with_frames frames mem))
  some (begin, um', mem')

-- A page for the stack with the first frame; its top goes on.
unfoldable pub load_stack :
    (running : UserMemory) (label : ℕ) (u : Unset) (begin : ℕ)
    → UserMemory
    → Memory
    → Option (ℕ × UserMemory × Memory)
load_stack running label u begin um mem = do
  (at, um', frames) ← add_page um mem.machine.frames
  mem' ←
      copy_to_mm_space um' running (sub32 (add32 at page_size) frame_size)
        (words_bytes (frame_words u (first_frame label (add32 at page_size) begin)))
        (with_frames frames mem)
  some (add32 at page_size, um', mem')

-- The new control block in the ring. `kernel_stack_start` lies 12 bytes behind the descriptor.
unfoldable pub enlist : (pcb mm pde stack_top : ℕ) → Tasks → Tasks
enlist pcb mm pde stack_top t = add_pcb_to_queue pcb (
    setup_pcb pcb stack_top 3 (record t {
      at = update t.at pcb (record empty_pcb { mm = mm });
      spaces = update t.spaces mm (record { pde = pde; kernel_stack_start = add32 mm 12 });
    }))

-- `pcb`, `mm` and `block` are what the calls of kalloc return. The process number goes to the caller.
unfoldable pub sys_exec :
    (label root pcb mm block : ℕ) (u : Unset) → List ℕ → Kernel → Option (ℕ × Kernel)
sys_exec label root pcb mm block u code k =
    let running = k.users (k.tasks.at k.tasks.running).mm in
    do
      (um, m) ←
          init_user_mm_struct running block (k.users (k.tasks.at root).mm).pde k.memory.machine
      (begin, um1, mem1) ← load_code running code um (record k.memory { machine = m })
      (stack_top, um2, mem2) ← load_stack running label u begin um1 mem1
      let tasks = enlist pcb mm um2.pde stack_top k.tasks
      some (
        (tasks.at pcb).pid,
        record { tasks = tasks; users = update k.users mm um2; memory = mem2 },
      )
