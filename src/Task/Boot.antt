-- ===== src/Task/Boot.antt =====
-- The start of the tasks: `task_init` of kernel/task.c, which makes the root task the only one.
use mathlib.Core.List.Memᴰ
use nar_os.Prelude.{ℕ, ◌/◌, ◌%◌, ◌≡◌, ◌<◌, refl, true, [], ◌∷◌, ◌==◌, if◌then◌else◌, arith}
use nar_os.Prelude.Words.{update, add32}
use nar_os.Prelude.Bits.{bit, bit-clear_bit}
use nar_os.Interrupt.{Output, Masks, set_interrupt_mask, interrupt_hardler_register}
use nar_os.Task.{Tasks}
use nar_os.Task.Ring.{IsRing}

abbrev pub clock_int_hz : ℕ
clock_int_hz = 1193182 / 19

-- The divisor of the clock: its low byte, then its high one.
abbrev pub clock_output : Output
clock_output =
    (0x43, 0b00110100) ∷ (0x40, clock_int_hz % 256) ∷ (0x40, clock_int_hz / 256 % 256) ∷ []

-- What `task_init` leaves: the tasks, the writes to ports, the handlers and the masks. `root` and
-- `root_mm` are the addresses of the two globals, and `clock_int_at` that of the handler.
pub record Started : Type 0 where
  pub tasks : Tasks
  pub out : Output
  pub handlers : ℕ → ℕ
  pub masks : Masks

unfoldable pub task_init : ℕ → ℕ → ℕ → (ℕ → ℕ) → Masks → Tasks → Started
task_init root root_mm clock_int_at handlers masks t = record {
  tasks = record t {
    at = update t.at root (record (t.at root) { pid = 0; next = root; dpl = 0; mm = root_mm });
    spaces = update t.spaces root_mm (record (t.spaces root_mm) { pde = t.cr3 });
    process_num = add32 t.process_num 1;
    running = root;
  };
  out = clock_output;
  handlers = interrupt_hardler_register 0x20 clock_int_at handlers;
  masks = set_interrupt_mask 0 true masks;
}

-- From no task on, `task_init` leaves a ring of the root task alone, which runs; the two bytes that
-- the clock gets make up its divisor, vector 0x20 goes to the clock's handler, and its line is let
-- through while the other lines stay as they were.
pub task_init-IsRing :
    (root root_mm clock_int_at line : ℕ) (handlers : ℕ → ℕ) (masks : Masks) (t : Tasks)
    → t.process_num ≡ 0
    → masks.master < 256
    → line < 8
    → let s = task_init root root_mm clock_int_at handlers masks t in
      IsRing s.tasks root []
      × (s.tasks.running ≡ root)
      × (s.out ≡ (0x43, 0b00110100) ∷ (0x40, 62799 % 256) ∷ (0x40, 62799 / 256) ∷ [])
      × (s.handlers 0x20 ≡ clock_int_at)
      × (bit s.masks.master line ≡ (if line == 0 then 0 else bit masks.master line))
      × (s.masks.slave ≡ masks.slave)
unfolding task_init set_interrupt_mask interrupt_hardler_register
task_init-IsRing root root_mm clock_int_at line handlers masks t none_yet byte small =
    let here : (root == root) ≡ true = ground arith in
    (
      record {
        chain = (rw here refl, tt);
        distinct = (tt, tt);
        root_pid = rw here refl;
        numbered = tt;
        running_in = Memᴰ.head refl;
        counted = omega (arith, none_yet);
      },
      refl,
      refl,
      refl,
      bit-clear_bit masks.master 0 line byte (omega arith) small,
      refl,
    )
