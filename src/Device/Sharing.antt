-- ===== src/Device/Sharing.antt =====
-- kernel/dev.c: one device used by several tasks. Interrupts are on in the three calls, so the steps
-- of different tasks come in any order: the test of `using` is one step, setting it is another.
use nar_os.Prelude.{ℕ, ◌≡◌, ◌≢◌, Bool, true, false, arith}
use nar_os.Prelude.Words.{update}

-- Where a task is in a call: in front of the loop, which it may run round while the device is in
-- use; behind the test that ended the loop; or in the driver's function.
pub data Phase : Type 0 where
  outside : Phase
  tested : Phase
  inside : Phase

pub record Shared : Type 0 where
  pub in_use : Bool
  pub phase : ℕ → Phase

-- The steps of task `i`.
pub data Step : Shared → Shared → Type 0 where
  waits : {s : Shared} (i : ℕ) → s.phase i ≡ outside → s.in_use ≡ true → Step s s
  tests :
      {s : Shared} (i : ℕ)
      → s.phase i ≡ outside
      → s.in_use ≡ false
      → Step s (record s { phase = update s.phase i tested })
  sets :
      {s : Shared} (i : ℕ)
      → s.phase i ≡ tested
      → Step s (record { in_use = true; phase = update s.phase i inside })
  leaves :
      {s : Shared} (i : ℕ)
      → s.phase i ≡ inside
      → Step s (record { in_use = false; phase = update s.phase i outside })

-- Any number of steps, the last one on the right.
pub data Steps (s : Shared) : Shared → Type 0 where
  start : Steps s s
  step : {t u : Shared} → Steps s t → Step t u → Steps s u

-- If the device is in use, some task is in the driver.
abbrev pub IsHeld : Shared → Type 0
IsHeld s = s.in_use ≡ true → (i : ℕ) × (s.phase i ≡ inside)

Step-IsHeld : {s t : Shared} → Step s t → IsHeld s → IsHeld t
Step-IsHeld (waits i out used) held = held
Step-IsHeld (tests {s} i out free) held = λ e. absurd (ground (arith, e, free))
Step-IsHeld (sets {s} i test) held = λ e. (i, ground arith)
Step-IsHeld (leaves {s} i here) held = λ e. absurd (ground (arith, e))

-- From a state in which a device in use is held, the steps of any tasks in any order lead only to
-- such states: no task waits for a device that no task is using.
pub Steps-IsHeld : {s t : Shared} → Steps s t → IsHeld s → IsHeld t
Steps-IsHeld start held = held
Steps-IsHeld (step steps last) held = Step-IsHeld last (Steps-IsHeld steps held)

-- Two tasks that come to an idle device at the same time can both be in the driver.
pub both_inside :
    (s : Shared) (i j : ℕ)
    → i ≢ j
    → s.in_use ≡ false
    → s.phase i ≡ outside
    → s.phase j ≡ outside
    → (t : Shared) × Steps s t × (t.phase i ≡ inside) × (t.phase j ≡ inside)
both_inside s i j ne idle out_i out_j = (
  _,
  step
      (step (step (step start (tests i out_i idle)) (tests j (ground arith) idle))
        (sets i (ground arith)))
      (sets j (ground arith)),
  ground arith,
  ground arith,
)
