-- ===== src/Start/Frames.antt =====
-- The page frames that get_page of kernel/mem.c gives one after the other behind memory_init.
use nar_os.Prelude.{
  ℕ, zero, suc, ◌+◌, ◌-◌, true, false, ◌≤◌, ◌<◌, ◌≡◌, ◌≢◌, refl, some, List, ◌==◌, arith, ap, ◌∙◌,
  Bool-cases, inl, inr,
}
use nar_os.Prelude.Words.{update}
use nar_os.Mem.{FrameMap, get_page, get_page_loop, idx, page}
use nar_os.Mem.Init.{MemoryMap, IsClear, memory_init}

-- The first frame of the range.
abbrev pub first : FrameMap → ℕ
first f = idx f.memory_base

-- `m` with `n` counts of 1 from `at` on.
unfoldable pub marked : ℕ → ℕ → (ℕ → ℕ) → ℕ → ℕ
marked zero at m = m
marked (suc n) at m = update (marked n at m) (at + n) 1

-- `f` with its first `n` frames in use.
abbrev pub used : ℕ → FrameMap → FrameMap
used n f = record f { page_map = marked n (first f) f.page_map }

-- The loop passes over what is in use.
get_page_loop-passes :
    (n rounds i : ℕ) (m : ℕ → ℕ)
    → n < rounds
    → ((j : ℕ) → i ≤ j → j < i + n → m j ≢ 0)
    → m (i + n) ≡ 0
    → get_page_loop rounds i m ≡ some (i + n)
unfolding get_page_loop
get_page_loop-passes n zero i m h taken free = absurd (omega (arith, h))
get_page_loop-passes zero (suc rounds) i m h taken free =
    let here : (m i == 0) ≡ true = ground (arith, free) in rw here (ap some (omega arith))
get_page_loop-passes (suc n) (suc rounds) i m h taken free =
    let here : (m i == 0) ≡ false = ground (arith, taken i (omega arith) (omega arith)) in
    rw here (
      get_page_loop-passes n rounds (i + 1) m (omega (arith, h))
        (λ j low high. taken j (omega (arith, low)) (omega (arith, high)))
        (ap m (omega arith) ∙ free)
      ∙ ap some (omega arith))

marked-taken : (n at : ℕ) (m : ℕ → ℕ) (j : ℕ) → at ≤ j → j < at + n → marked n at m j ≡ 1
unfolding marked
marked-taken zero at m j low high = absurd (omega (arith, low, high))
marked-taken (suc n) at m j low high = elim (Bool-cases (j == at + n)) [
  | inl here ↦ rw here refl
  | inr other ↦ rw other (marked-taken n at m j low (ground (arith, high, other)))
]

marked-free : (n at : ℕ) (m : ℕ → ℕ) (j : ℕ) → at + n ≤ j → marked n at m j ≡ m j
unfolding marked
marked-free zero at m j low = refl
marked-free (suc n) at m j low =
    let other : (j == at + n) ≡ false = ground (arith, low) in
    rw other (marked-free n at m j (omega (arith, low)))

-- With every count 0, the frames are given in their order.
pub get_page-used :
    (n : ℕ) (f : FrameMap)
    → IsClear f.total_page f.page_map
    → first f + n < f.total_page
    → get_page (used n f) ≡ (page (first f + n), used (suc n) f)
unfolding get_page marked
get_page-used n f clear room =
    let found =
      get_page_loop-passes n (f.total_page - first f) (first f) (marked n (first f) f.page_map)
        (omega (arith, room))
        (λ j low high e. omega (arith, marked-taken n (first f) f.page_map j low high, e))
        (marked-free n (first f) f.page_map (first f + n) (omega arith)
          ∙ clear (first f + n) room) in
    rw (get_page, found) refl

pub get_page-first :
    (f : FrameMap)
    → IsClear f.total_page f.page_map
    → first f < f.total_page
    → get_page f ≡ (page (first f), used 1 f)
unfolding marked
get_page-first f clear room =
    get_page-used 0 f clear (omega (arith, room)) ∙ ap (λ i. (page i, used 1 f)) (omega arith)

pub memory_init-IsClear :
    (old : ℕ → ℕ) (ms : List MemoryMap)
    → IsClear (memory_init old ms).1.total_page (memory_init old ms).1.page_map
unfolding memory_init
memory_init-IsClear old ms j h = ground (arith, h)
