-- ===== src/Exec/Spawn.antt =====
-- What sys_exec of kernel/task.c makes of a function: a task of its own.
use nar_os.Prelude.{
  ℕ, ◌+◌, ◌*◌, ◌≤◌, ◌<◌, ◌≡◌, ◌≢◌, ◌⊎◌, refl, some, List, ◌∷◌, length, arith, Bool-cases, ltb, ◌==◌,
  true, ap, ◌∙◌, inl, inr,
}
use nar_os.Prelude.Words.{update, add32}
use nar_os.Mem.{user_vma_start}
use nar_os.Mem.Paging.{Machine, walk}
use nar_os.Mem.Paging.User.{touch, page_above, init_user_mm_struct}
use nar_os.Mem.Paging.Walk.{IsSelfMapped}
use nar_os.Mem.Paging.Copy.{Memory}
use nar_os.Mem.Paging.Keep.{touch-cr3}
use nar_os.Mem.Paging.Seen.{IsBlock, SeesDirectory}
use nar_os.Mem.Paging.Share.{user_machine, init_user_mm_struct_lem}
use nar_os.Mem.Paging.Lands.{Lies, Lies-same, Copied, inside}
use nar_os.Mem.Paging.Room.{HasRoom, code_at, frame_at, with_code, with_stack}
use nar_os.Mem.Paging.Fresh.{with_stack-code, with_stack-frame}
use nar_os.Task.{max_task_num}
use nar_os.Task.Ring.{IsRing, Outside}
use nar_os.Task.Create.{others_after}
use nar_os.Exec.{
  Kernel, Unset, words_bytes, frame_words, first_frame, load_code, load_stack, enlist, sys_exec,
}
use nar_os.Exec.Load.{grown, seen_by, inside-grown, load_code_lem, load_stack_lem}
use nar_os.Exec.Enlist.{Enlisted, enlist-IsRing, enlist-Enlisted, enlist-running, enlist-directory}

-- A copy does not touch another frame.
Copied-apart :
    (mem mem' : Memory) (g h o : ℕ) (l : List ℕ)
    → Copied mem (h * 4096 + o) l mem'
    → g ≢ h
    → o + length l ≤ 4096
    → (q : ℕ) → g * 4096 ≤ q
    → q < g * 4096 + 4096
    → mem'.bytes q ≡ mem.bytes q
Copied-apart mem mem' g h o l c ne fits q low high =
    let side : (g < h) ⊎ (h < g) = elim (Bool-cases (ltb g h)) [
      | inl e ↦ inl (ground (arith, e))
      | inr e ↦ inr (ground (arith, e, ne))
    ] in
    elim side [
      | inl less ↦ c.below q (omega (arith, less, high))
      | inr more ↦ c.above q (omega (arith, more, low, fits))
    ]

-- The new task's memory: its directory maps the code and the first frame, and there they lie.
pub record HasImage (k : Kernel) (mm : ℕ) (image first : List ℕ) (code_frame stack_frame : ℕ)
    : Type 0 where
  pub code_mapped : walk (inside (k.users mm) k.memory) code_at ≡ some (code_frame * 4096 + 0)
  pub code : Lies image (code_frame * 4096 + 0) k.memory.bytes
  pub frame_mapped :
      walk (inside (k.users mm) k.memory) frame_at ≡ some (stack_frame * 4096 + 0xFB0)
  pub frame : Lies first (stack_frame * 4096 + 0xFB0) k.memory.bytes
  pub sbrk : (k.users mm).sbrk ≡ user_vma_start + 0x2000
  pub directory : (k.tasks.spaces mm).pde ≡ (k.users mm).pde

abbrev spawned : (pcb mm f : ℕ) → Kernel → Memory → Kernel
spawned pcb mm f k mem = record {
  tasks = enlist pcb mm (f * 4096) 0x40002000 k.tasks;
  users = update k.users mm (grown f 2);
  memory = mem;
}

sys_exec_steps :
    (label root pcb mm block f : ℕ) (u : Unset) (code : List ℕ) (k : Kernel) (m : Machine)
    (mem1 mem2 : Memory)
    → let running = k.users (k.tasks.at k.tasks.running).mm in
      init_user_mm_struct running block (k.users (k.tasks.at root).mm).pde k.memory.machine
        ≡ some (grown f 0, user_machine m.cr3 f m)
      → load_code running code (grown f 0) (record k.memory { machine = user_machine m.cr3 f m })
        ≡ some (code_at, grown f 1, mem1)
      → load_stack running label u code_at (grown f 1) mem1 ≡ some (0x40002000, grown f 2, mem2)
      → sys_exec label root pcb mm block u code k
        ≡ some (((enlist pcb mm (f * 4096) 0x40002000 k.tasks).at pcb).pid, spawned pcb mm f k mem2)
unfolding sys_exec
sys_exec_steps label root pcb mm block f u code k m mem1 mem2 started loaded stacked =
    rw (started, sys_exec, loaded, stacked) refl

spawned-HasImage :
    (m : Machine) (f : ℕ) (r : HasRoom m f) (pcb mm : ℕ) (code first : List ℕ) (k : Kernel)
    (mem mem1 mem2 : Memory)
    → length code ≤ 4096
    → 0xFB0 + length first ≤ 4096
    → Copied mem (r.code * 4096 + 0) code mem1
    → Copied
        (record mem1 { machine = seen_by m.cr3 (with_stack m f r) })
        (r.stack * 4096 + 0xFB0)
        first
        mem2
    → HasImage (spawned pcb mm f k mem2) mm code first r.code r.stack
spawned-HasImage m f r pcb mm code first k mem mem1 mem2 fits short c1 c2 =
    let here : (mm == mm) ≡ true = ground arith in
    let seen = inside-grown f 2 mem2 (seen_by m.cr3 (with_stack m f r)) c2.machine in
    record {
      code_mapped = rw here (ap (λ x. walk x code_at) seen ∙ with_stack-code m f r);
      code =
          Lies-same code (r.code * 4096 + 0) mem1.bytes mem2.bytes
            (λ q low high.
              Copied-apart (record mem1 { machine = seen_by m.cr3 (with_stack m f r) }) mem2 r.code
                r.stack 0xFB0 first c2 r.apart short q (omega (arith, low))
                (omega (arith, high, fits)))
            c1.there;
      frame_mapped = rw here (ap (λ x. walk x frame_at) seen ∙ with_stack-frame m f r);
      frame = c2.there;
      sbrk = rw here refl;
      directory = enlist-directory pcb mm (f * 4096) 0x40002000 k.tasks ∙ rw here refl;
    }

-- The root task's directory is in cr3. The write to the page inside the block of kalloc, or the page
-- fault on it, leaves the machine `m`, in which that page lies in frame `f` and there is room, and
-- the directory shows itself and is seen at the running task's `pde` through a table outside `f`. Then a
-- function of at most a page becomes a task: it gets the next process number, a user's privilege and
-- a directory of its own, which maps the code at the start of the user's memory and the first frame
-- at the top of the page behind it, where they lie byte for byte; the task stands behind the running
-- one in the ring, its saved stack pointer is the frame's address, and cr3 and the running task are
-- what they were.
pub sys_exec-HasImage :
    (label root pcb mm block f : ℕ) (u : Unset) (code : List ℕ) (k : Kernel) (m : Machine)
    (others : List ℕ)
    → IsRing k.tasks root others
    → Outside pcb (root ∷ others)
    → k.tasks.process_num ≤ max_task_num
    → add32 k.tasks.pid_total 1 ≢ 0
    → touch (k.users (k.tasks.at k.tasks.running).mm) (page_above block) k.memory.machine ≡ some m
    → IsBlock m (page_above block) f
    → IsSelfMapped m
    → SeesDirectory m (k.users (k.tasks.at k.tasks.running).mm).pde f
    → walk m (k.users (k.tasks.at root).mm).pde ≡ some (m.cr3 * 4096)
    → (r : HasRoom m f) → 0 < length code
    → length code ≤ 4096
    → (k' : Kernel) × (sys_exec label root pcb mm block u code k
        ≡ some (add32 k.tasks.pid_total 1, k'))
      × HasImage k' mm code
          (words_bytes (frame_words u (first_frame label 0x40002000 code_at)))
          r.code
          r.stack
      × Enlisted k'.tasks pcb mm (f * 4096) 0x40002000 (add32 k.tasks.pid_total 1)
      × IsRing k'.tasks root (others_after root k.tasks.running pcb others)
      × (k'.memory.machine.cr3 ≡ k.memory.machine.cr3)
      × (k'.tasks.running ≡ k.tasks.running)
sys_exec-HasImage label root pcb mm block f u code k m others ring out few pid touches block_at self
      sees rooted r some_bytes fits =
    let running = k.users (k.tasks.at k.tasks.running).mm in
    let started =
      init_user_mm_struct_lem running k.memory.machine m block (k.users (k.tasks.at root).mm).pde
        m.cr3 f touches block_at r.own self sees rooted in
    let (mem1, loaded, c1) = load_code_lem m f r running code k.memory.bytes some_bytes fits in
    let (mem2, stacked, c2) = load_stack_lem m f r running label u mem1 c1.machine in
    let enlisted = enlist-Enlisted root pcb mm (f * 4096) 0x40002000 k.tasks others ring out in
    (
      spawned pcb mm f k mem2,
      sys_exec_steps label root pcb mm block f u code k m mem1 mem2 started loaded stacked
          ∙ ap (λ x. some (x, spawned pcb mm f k mem2)) enlisted.process_number,
      spawned-HasImage m f r pcb mm code
          (words_bytes (frame_words u (first_frame label 0x40002000 code_at))) k
          (record { machine = seen_by m.cr3 (with_code m f r); bytes = k.memory.bytes }) mem1 mem2
          fits (omega arith) c1 c2,
      enlisted,
      enlist-IsRing root pcb mm (f * 4096) 0x40002000 k.tasks others ring out few pid,
      ap (λ x. x.cr3) c2.machine ∙ touch-cr3 running (page_above block) k.memory.machine m touches,
      enlist-running pcb mm (f * 4096) 0x40002000 k.tasks,
    )
