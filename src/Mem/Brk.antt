-- ===== src/Mem/Brk.antt =====
-- The program breaks of kernel/mem.c: `kbrk` of the kernel's heap and `sbrk` of a task's.
use nar_os.Prelude.{
  ℕ, zero, suc, ◌+◌, ◌-◌, ◌^◌, ◌<◌, ◌≡◌, refl, ◌∙◌, inl, inr, false, Option, none, some, arith,
  Option-cases,
}
use nar_os.Prelude.Int.{pos, negsuc}
use nar_os.Prelude.Words.{add32, sub32}
use nar_os.Mem.{
  FrameMap, KernelMem, MmStruct, idx, page, put_page, get_paddr, release_page, release_loop,
  release_begin, release_rounds, kbrk, sbrk_refuses, sbrk,
}

-- A call that grows the heap returns the old break, and cannot panic.
pub kbrk-grow :
    (n : ℕ) (k : KernelMem) → kbrk (pos n) k ≡ some (k.ksbrk, record k { ksbrk = add32 k.ksbrk n })
unfolding kbrk
kbrk-grow n k = refl

release_page-ksbrk :
    (pg : ℕ) (k : KernelMem) {k' : KernelMem} → release_page pg k ≡ some k' → k'.ksbrk ≡ k.ksbrk
unfolding release_page
release_page-ksbrk pg k e = ground arith

release_loop-ksbrk :
    (n pg : ℕ) (k : KernelMem) {k' : KernelMem} → release_loop n pg k ≡ some k' → k'.ksbrk ≡ k.ksbrk
unfolding release_loop
release_loop-ksbrk zero pg k e = ground arith
release_loop-ksbrk (suc n) pg k {k'} e = elim (Option-cases (release_page pg k)) [
  | inl fault ↦ absurd (ground arith)
  | inr (mid, step) ↦
      release_loop-ksbrk n (add32 pg 1) mid (rw (step, release_loop) at e)
      ∙ release_page-ksbrk pg k step
]

abbrev finish : ℕ → Option KernelMem → Option (ℕ × KernelMem)
finish old none = none
finish old (some k) = some (old, k)

-- A call that shrinks the heap and does not panic returns the old break and lowers it.
pub kbrk-shrink :
    (n : ℕ) (k : KernelMem) {r : ℕ} {k' : KernelMem}
    → kbrk (negsuc n) k ≡ some (r, k')
    → (r ≡ k.ksbrk) × (k'.ksbrk ≡ sub32 k.ksbrk (n + 1))
unfolding kbrk
kbrk-shrink n k {r} {k'} e =
    go (release_loop (release_rounds new k.ksbrk) (release_begin new) (record k { ksbrk = new }))
      refl e
  where
    new : ℕ
    new = sub32 k.ksbrk (n + 1)

    go :
        (o : Option KernelMem)
        → release_loop (release_rounds new k.ksbrk) (release_begin new) (record k { ksbrk = new })
          ≡ o
        → finish k.ksbrk o ≡ some (r, k')
        → (r ≡ k.ksbrk) × (k'.ksbrk ≡ sub32 k.ksbrk (n + 1))
    go none ran e = cc
    go (some mid) ran e = (
      ground arith,
      ground (
        arith,
        release_loop-ksbrk (release_rounds new k.ksbrk) (release_begin new)
            (record k { ksbrk = new }) ran,
      ),
    )

kbrk-finish :
    (n : ℕ) (k : KernelMem)
    → kbrk (negsuc n) k
      ≡ finish k.ksbrk (
          release_loop
            (release_rounds (sub32 k.ksbrk (n + 1)) k.ksbrk)
            (release_begin (sub32 k.ksbrk (n + 1)))
            (record k { ksbrk = sub32 k.ksbrk (n + 1) }))
unfolding kbrk
kbrk-finish n k = ground arith

module _ (n : ℕ) (k : KernelMem) (in_space : k.ksbrk < 2 ^ 32) (less : n + 1 < k.ksbrk) where
  kbrk_unfold :
      kbrk (negsuc n) k
      ≡ finish k.ksbrk (
          release_loop
            (idx (k.ksbrk - 1) - idx (k.ksbrk - (n + 1) - 1))
            (idx (k.ksbrk - (n + 1) - 1))
            (record k { ksbrk = k.ksbrk - (n + 1) }))
  kbrk_unfold =
      let lower : sub32 k.ksbrk (n + 1) ≡ k.ksbrk - (n + 1) = omega arith in
      let first : sub32 (k.ksbrk - (n + 1)) 1 ≡ k.ksbrk - (n + 1) - 1 = omega arith in
      let last : sub32 k.ksbrk 1 ≡ k.ksbrk - 1 = omega arith in
      let rounds : sub32 (idx (k.ksbrk - 1)) (idx (k.ksbrk - (n + 1) - 1))
          ≡ idx (k.ksbrk - 1) - idx (k.ksbrk - (n + 1) - 1) =
        omega arith in
      kbrk-finish n k ∙ rw (lower, first, last, rounds)

  -- A call that shrinks the heap inside one page releases nothing, and cannot panic.
  pub kbrk-within_page :
      idx (k.ksbrk - 1) ≡ idx (k.ksbrk - (n + 1) - 1)
      → kbrk (negsuc n) k ≡ some (k.ksbrk, record k { ksbrk = k.ksbrk - (n + 1) })
  unfolding release_loop
  kbrk-within_page same =
      let none_left : idx (k.ksbrk - 1) - idx (k.ksbrk - (n + 1) - 1) ≡ 0 = omega arith in
      kbrk_unfold ∙ rw none_left

  -- A call that moves the break down over one page boundary puts the frame of the page that holds
  -- the last byte in front of the new break, which the heap still uses, if `get_paddr` finds the page
  -- and its frame can be put, and puts no other.
  pub kbrk_releases_live :
      idx (k.ksbrk - 1) ≡ idx (k.ksbrk - (n + 1) - 1) + 1
      → let new = k.ksbrk - (n + 1) in
        (p : ℕ) (f : FrameMap)
        → get_paddr k.tables (page (idx (new - 1))) ≡ some p
        → put_page p k.frames ≡ some f
        → kbrk (negsuc n) k ≡ some (k.ksbrk, record k { ksbrk = new; frames = f })
  unfolding release_loop
  kbrk_releases_live cross p f found put =
      let one : idx (k.ksbrk - 1) - idx (k.ksbrk - (n + 1) - 1) ≡ 1 = omega arith in
      kbrk_unfold ∙ rw one (ground (arith, found, put))

-- The test of the bounds in `sbrk` refuses no address.
sbrk_refuses-false : (p : ℕ) → sbrk_refuses p ≡ false
unfolding sbrk_refuses
sbrk_refuses-false p = ground arith

-- `sbrk` accepts every increase: a task's break moves up by any number of bytes, wrapping round at
-- 2 ^ 32, also past the end of the user space, and never to the error return.
pub sbrk-grow :
    (mm : MmStruct) (n : ℕ) (f : FrameMap)
    → sbrk mm (pos n) f ≡ some (mm.sbrk, record mm { sbrk = add32 mm.sbrk n }, f)
unfolding sbrk
sbrk-grow mm n f = rw (sbrk_refuses-false (add32 mm.sbrk n))
