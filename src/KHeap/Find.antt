-- ===== src/KHeap/Find.antt =====
-- `get_free_block` of kernel/heap.c.
use nar_os.Prelude.{
  ℕ, zero, suc, ◌+◌, ◌≤◌, ◌<◌, ◌≡◌, refl, ◌⊎◌, inl, inr, true, false, ◌&&◌, List, [], ◌∷◌, arith,
  length, some, Bool-cases, leb,
}
use nar_os.KHeap.{Header, get_free_block_loop}
use nar_os.KHeap.Layout.{Chain, In}

-- No block of the list is free and large enough.
abbrev pub NoneFits : (ℕ → Header) → ℕ → List ℕ → Type 0
NoneFits at size [] = Unit {0}
NoneFits at size (b ∷ bs) = ((at b).is_free && leb size (at b).size ≡ false) × NoneFits at size bs

-- A block of the list that is.
abbrev pub Fits : (ℕ → Header) → ℕ → List ℕ → ℕ → Type 0
Fits at size bs b = In b bs × ((at b).is_free ≡ true) × (size ≤ (at b).size)

-- What `get_free_block` answers.
abbrev pub Answer : (ℕ → Header) → ℕ → List ℕ → ℕ → Type 0
Answer at size bs r = ((r ≡ 0) × NoneFits at size bs) ⊎ Fits at size bs r

module _ (at : ℕ → Header) (size brk : ℕ) where
  Answer-cons :
      (b : ℕ) (bs : List ℕ) (r : ℕ)
      → (at b).is_free && leb size (at b).size ≡ false
      → Answer at size bs r
      → Answer at size (b ∷ bs) r
  Answer-cons b bs r busy (inl (e, rest)) = inl (e, (busy, rest))
  Answer-cons b bs r busy (inr (i, free, room)) = inr (inr i, free, room)

  pub get_free_block-Answer :
      (n p addr : ℕ) (bs : List ℕ)
      → Chain at p addr brk bs
      → 0 < addr
      → length bs < n
      → (r : ℕ) × (get_free_block_loop n at size p ≡ some r) × Answer at size bs r
  unfolding get_free_block_loop
  get_free_block-Answer zero p addr bs c low fuel = absurd (omega arith)
  get_free_block-Answer (suc n) p addr [] c low fuel = (0, ground arith, inl (refl, tt))
  get_free_block-Answer (suc n) p addr (b ∷ bs) c low fuel =
      elim (Bool-cases ((at b).is_free && leb size (at b).size)) [
        | inl fits ↦ (b, ground arith, inr (inl refl, ground arith, ground arith))
        | inr busy ↦
            let (r, e, rest) =
              get_free_block-Answer n (at b).next (b + 16 + (at b).size) bs c.2 (omega arith)
                (omega arith) in
            (r, ground (arith, e), Answer-cons b bs r busy rest)
      ]
