-- ===== src/KHeap/Realloc.antt =====
-- `realloc` of kernel/heap.c: the contents of a block move to a larger one.
use nar_os.Prelude.{
  ℕ, zero, suc, ◌+◌, ◌^◌, ◌≡◌, ◌≢◌, ◌≤◌, ◌<◌, ◌⊎◌, refl, true, false, ◌||◌, Option, none, some, leb,
  ◌==◌, if◌then◌else◌, List, [], ◌∷◌, ◌++◌, length, arith, ap, sym, ◌∙◌, inl, inr,
}
use nar_os.Prelude.Words.{update, sub32}
use nar_os.KHeap.{Header, Heap, header_size, malloc, free}
use nar_os.KHeap.Layout.{In, IsHeap, Chain, Chain-In, last_of}
use nar_os.KHeap.Link.{last_of-snoc}
use nar_os.KHeap.Malloc.{Allocates, malloc-Allocates}
use nar_os.KHeap.Free.{marked, free-marked}

-- `memcpy`, byte after byte.
unfoldable pub moved : (n from to : ℕ) → (ℕ → ℕ) → ℕ → ℕ
moved zero from to bytes = bytes
moved (suc n) from to bytes = moved n (from + 1) (to + 1) (update bytes to (bytes from))

-- The end of `realloc`, when `malloc` has returned.
unfoldable pub relocate : (n block : ℕ) → (ℕ → ℕ) → ℕ × Heap → Option (ℕ × Heap × (ℕ → ℕ))
relocate n block bytes (ret, h) = if ret == 0 then some (0, h, bytes) else (elim (free n block h) [
  | none ↦ none
  | some h' ↦ some (ret, h', moved (h.at (sub32 block header_size)).size block ret bytes)
])

-- `n` bounds the walks.
unfoldable pub realloc : (n block size : ℕ) → Heap → (ℕ → ℕ) → Option (ℕ × Heap × (ℕ → ℕ))
realloc n block size h bytes =
    if (block == 0) || (size == 0)
    then (elim (malloc n size h) [ none ↦ none | some (ret, h') ↦ some (ret, h', bytes) ])
    else if leb size (h.at (sub32 block header_size)).size
    then some (block, h, bytes)
    else (elim (malloc n size h) [ none ↦ none | some r ↦ relocate n block bytes r ])

moved-below : (n from to q : ℕ) (bytes : ℕ → ℕ) → q < to → moved n from to bytes q ≡ bytes q
unfolding moved
moved-below zero from to q bytes h = refl
moved-below (suc n) from to q bytes h =
    moved-below n (from + 1) (to + 1) q (update bytes to (bytes from)) (omega (arith, h))
    ∙ ground (arith, h)

-- From memory that is apart, every byte arrives.
moved-there :
    (n from to i : ℕ) (bytes : ℕ → ℕ)
    → (from + n ≤ to) ⊎ (to + n ≤ from)
    → i < n
    → moved n from to bytes (to + i) ≡ bytes (from + i)
unfolding moved
moved-there zero from to i bytes apart h = absurd (omega (arith, h))
moved-there (suc n) from to zero bytes apart h =
    ap (moved n (from + 1) (to + 1) (update bytes to (bytes from))) (omega arith)
    ∙ moved-below n (from + 1) (to + 1) to (update bytes to (bytes from)) (omega arith)
    ∙ (let self : (to == to) ≡ true = ground arith in rw self (ap bytes (omega arith)))
moved-there (suc n) from to (suc i) bytes apart h =
    ap (moved n (from + 1) (to + 1) (update bytes to (bytes from))) (omega arith)
    ∙ moved-there n (from + 1) (to + 1) i (update bytes to (bytes from)) (omega (arith, apart))
        (omega (arith, h))
    ∙ (let other : (from + 1 + i == to) ≡ false = ground (arith, apart, h) in
        rw other (ap bytes (omega arith)))

-- Two blocks of a chain do not overlap.
Chain-apart :
    (at : ℕ → Header) (brk p addr : ℕ) (bs : List ℕ) (b c : ℕ)
    → Chain at p addr brk bs
    → In b bs
    → In c bs
    → b ≢ c
    → (b + 16 + (at b).size ≤ c) ⊎ (c + 16 + (at c).size ≤ b)
Chain-apart at brk p addr [] b c chain i j ne = absurd i
Chain-apart at brk p addr (d ∷ bs) b c chain (inl e) (inl e') ne = absurd (ne (e ∙ sym e'))
Chain-apart at brk p addr (d ∷ bs) b c chain (inl e) (inr j) ne =
    let inside = Chain-In at brk (at d).next (d + 16 + (at d).size) bs c chain.2 j in
    inl (rw e (inside.0))
Chain-apart at brk p addr (d ∷ bs) b c chain (inr i) (inl e) ne =
    let inside = Chain-In at brk (at d).next (d + 16 + (at d).size) bs b chain.2 i in
    inr (rw e (inside.0))
Chain-apart at brk p addr (d ∷ bs) b c chain (inr i) (inr j) ne =
    Chain-apart at brk (at d).next (d + 16 + (at d).size) bs b c chain.2 i j ne

In-append : (b c : ℕ) (bs : List ℕ) → In b bs → In b (bs ++ c ∷ [])
In-append b c [] i = absurd i
In-append b c (d ∷ bs) (inl e) = inl e
In-append b c (d ∷ bs) (inr i) = inr (In-append b c bs i)

module _ (start : ℕ) (h g : Heap) (bs : List ℕ) (size p b : ℕ) (v : IsHeap start h bs)
    (listed : In b bs) (busy : (h.at b).is_free ≡ false) (inner : b ≢ last_of 0 bs)
    (larger : (h.at b).size < size) (a : Allocates start h bs size p g) where
  inside : (start ≤ b) × (b + 16 + (h.at b).size ≤ h.mem.ksbrk)
  inside = Chain-In h.at h.mem.ksbrk h.head start bs b v.chain listed

  other : b ≢ a.block
  other e = elim a.source [
    | inl old ↦
        let free : (h.at b).is_free ≡ true = ap (λ x. (h.at x).is_free) e ∙ old.1.1 in
        ground (arith, busy, free)
    | inr new ↦ omega (arith, inside, new.1, e)
  ]

  still_listed : In b a.blocks
  still_listed = elim a.source [
    | inl old ↦ rw old.0 listed
    | inr new ↦ rw new.0 (In-append b a.block bs listed)
  ]

  still_inner : b ≢ last_of 0 a.blocks
  still_inner e = elim a.source [
    | inl old ↦ inner (e ∙ ap (last_of 0) old.0)
    | inr new ↦ other (e ∙ ap (last_of 0) new.0 ∙ last_of-snoc 0 a.block bs)
  ]

  same_size : (g.at b).size ≡ (h.at b).size
  same_size = (a.others b listed other).1

  apart : (b + 16 + (h.at b).size ≤ p) ⊎ (p + (h.at b).size ≤ b + 16)
  apart =
      let sides =
        Chain-apart g.at g.mem.ksbrk g.head start a.blocks b a.block a.heap.chain still_listed
          a.listed other in
      omega (arith, sides, same_size, a.pointer, a.room, larger)

-- `realloc` of a block that is in use and not the last one to a larger size, in a well-formed heap
-- with room, returns another block of at least that size, with the old contents in front, and frees
-- the old block; the list stays well formed.
pub realloc-Moves :
    (n start b size : ℕ) (h : Heap) (bs : List ℕ) (bytes : ℕ → ℕ)
    → IsHeap start h bs
    → length bs < n
    → In b bs
    → (h.at b).is_free ≡ false
    → b ≢ last_of 0 bs
    → (h.at b).size < size
    → h.mem.ksbrk + 16 + size < 2 ^ 31
    → (block : ℕ) × (blocks : List ℕ) × (g : Heap) × (bytes' : ℕ → ℕ) × (realloc n
          (b + 16)
          size
          h
          bytes
        ≡ some (block + 16, g, bytes'))
      × ((i : ℕ) → i < (h.at b).size → bytes' (block + 16 + i) ≡ bytes (b + 16 + i))
      × (b ≢ block)
      × (size ≤ (g.at block).size)
      × ((g.at block).is_free ≡ false)
      × ((g.at b).is_free ≡ true)
      × IsHeap start g blocks
unfolding realloc relocate
realloc-Moves n start b size h bs bytes v fuel listed busy inner larger space =
    let (p, g, ran, a) = malloc-Allocates start h size bs n v fuel (omega (arith, larger)) space in
    let ne = other start h g bs size p b v listed busy inner larger a in
    let same = same_size start h g bs size p b v listed busy inner larger a in
    let sides = apart start h g bs size p b v listed busy inner larger a in
    let (freed, heap) =
      free-marked start g a.blocks n b a.heap
        (still_listed start h g bs size p b v listed busy inner larger a)
        (still_inner start h g bs size p b v listed busy inner larger a) in
    let within = inside start h g bs size p b v listed busy inner larger a in
    let header : sub32 (b + 16) header_size ≡ b = omega (arith, within, v.below_int) in
    let asked : ((b + 16 == 0) || (size == 0)) ≡ false = ground (arith, larger) in
    let grows : leb size (h.at b).size ≡ false = ground (arith, larger) in
    let set : (p == 0) ≡ false = ground (arith, a.pointer) in
    let diff : (a.block == b) ≡ false = ground (arith, ne) in
    let here : (b == b) ≡ true = ground arith in
    (
      a.block,
      a.blocks,
      marked g b,
      moved (g.at b).size (b + 16) p bytes,
      rw (asked, header, grows, realloc, ran, relocate, set, freed, header)
          (ap (λ x. some (x, marked g b, moved (g.at b).size (b + 16) p bytes)) a.pointer),
      λ i h.
          ap (moved (g.at b).size (b + 16) p bytes) (omega (arith, a.pointer))
          ∙ moved-there (g.at b).size (b + 16) p i bytes (omega (arith, sides, same))
              (omega (arith, h, same)),
      ne,
      rw diff a.room,
      rw diff a.used,
      rw here refl,
      heap,
    )
