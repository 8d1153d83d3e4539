-- ===== src/KHeap/Calloc.antt =====
-- `calloc` of kernel/heap.c: a block of zeros, with the product of its arguments tested. The bytes are
-- those of the blocks, apart from the headers.
use nar_os.Prelude.{
  ℕ, ◌+◌, ◌*◌, ◌/◌, ◌%◌, ◌^◌, ◌≡◌, ◌≤◌, ◌<◌, refl, true, false, ◌&&◌, ◌||◌, Option, none, some, ltb,
  leb, ◌==◌, if◌then◌else◌, List, length, arith, Bool-cases, inl, inr,
}
use native.Mathlib.Nat.{mul-div_right, mul-pos, mul_comm, div-lt_iff_lt-mul}
use nar_os.KHeap.{Heap, malloc}
use nar_os.KHeap.Layout.{IsHeap}
use nar_os.KHeap.Malloc.{Allocates, malloc-Allocates}

-- `memset` with 0.
abbrev pub memset : (block size : ℕ) → (ℕ → ℕ) → ℕ → ℕ
memset block size bytes q = if leb block q && ltb q (block + size) then 0 else bytes q

-- What is done with the answer of `malloc`.
unfoldable pub clear_block : (size : ℕ) → (ℕ → ℕ) → ℕ × Heap → ℕ × Heap × (ℕ → ℕ)
clear_block size bytes (block, h) =
    if block == 0 then (0, h, bytes) else (block, h, memset block size bytes)

-- `n` bounds the walk of `malloc`.
unfoldable pub calloc : ℕ → (num nsize : ℕ) → Heap → (ℕ → ℕ) → Option (ℕ × Heap × (ℕ → ℕ))
calloc n num nsize h bytes =
    let size = num * nsize % 2 ^ 32 in
    if (num == 0) || (nsize == 0)
    then some (0, h, bytes)
    else if nsize == size / num
    then (elim (malloc n size h) [ none ↦ none | some r ↦ some (clear_block size bytes r) ])
    else some (0, h, bytes)

-- A block of `size` zeros, and nothing else written.
pub record Zeroed (p size : ℕ) (bytes bytes' : ℕ → ℕ) : Type 0 where
  pub zeros : (i : ℕ) → i < size → bytes' (p + i) ≡ 0
  pub below : (q : ℕ) → q < p → bytes' q ≡ bytes q
  pub above : (q : ℕ) → p + size ≤ q → bytes' q ≡ bytes q

memset-Zeroed : (p size : ℕ) (bytes : ℕ → ℕ) → Zeroed p size bytes (memset p size bytes)
memset-Zeroed p size bytes = record {
  zeros = λ i h. ground (arith, h);
  below = λ q h. ground (arith, h);
  above = λ q h. ground (arith, h);
}

-- `calloc` of two numbers that are not 0, in a well-formed heap with room for their product, allocates
-- the product as `malloc` does, and the block holds zeros; no other byte changes.
pub calloc-Zeroed :
    (n num nsize start : ℕ) (h : Heap) (bs : List ℕ) (bytes : ℕ → ℕ)
    → IsHeap start h bs
    → length bs < n
    → 0 < num
    → 0 < nsize
    → h.mem.ksbrk + 16 + num * nsize < 2 ^ 31
    → (p : ℕ) × (g : Heap) × (bytes' : ℕ → ℕ) × (calloc n num nsize h bytes ≡ some (p, g, bytes'))
      × Allocates start h bs (num * nsize) p g
      × Zeroed p (num * nsize) bytes bytes'
unfolding calloc clear_block
calloc-Zeroed n num nsize start h bs bytes v fuel some_num some_size space =
    let size : num * nsize % 2 ^ 32 ≡ num * nsize = omega (arith, space) in
    let quotient : num * nsize / num ≡ nsize = mul-div_right nsize some_num in
    let fits : (nsize == nsize) ≡ true = ground arith in
    let some_bytes : 0 < num * nsize = mul-pos some_num some_size in
    let tested : ((num == 0) || (nsize == 0)) ≡ false = ground (arith, some_num, some_size) in
    let (p, g, ran, a) = malloc-Allocates start h (num * nsize) bs n v fuel some_bytes space in
    let set : (p == 0) ≡ false = ground (arith, a.pointer) in
    (
      p,
      g,
      memset p (num * nsize) bytes,
      rw (tested, calloc, size, quotient, fits, ran, clear_block, set, size) refl,
      a,
      memset-Zeroed p (num * nsize) bytes,
    )

-- `calloc` refuses a product of 2 ^ 32 or more, which would wrap around, and changes nothing.
pub calloc_overflow :
    (n num nsize : ℕ) (h : Heap) (bytes : ℕ → ℕ)
    → 2 ^ 32 ≤ num * nsize
    → calloc n num nsize h bytes ≡ some (0, h, bytes)
unfolding calloc
calloc_overflow n num nsize h bytes big = elim (Bool-cases ((num == 0) || (nsize == 0))) [
  | inl none_asked ↦ rw none_asked refl
  | inr asked ↦
      let some_num : 0 < num = ground (arith, asked) in
      let wrapped : num * nsize % 2 ^ 32 < nsize * num =
        rw (mul_comm nsize num) (omega (arith, big)) in
      let short = (div-lt_iff_lt-mul some_num).1 wrapped in
      let differs : (nsize == num * nsize % 2 ^ 32 / num) ≡ false = ground (arith, short) in
      rw (asked, differs) refl
]
