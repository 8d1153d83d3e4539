-- ===== src/KHeap/Malloc.antt =====
-- `malloc` of kernel/heap.c, which is `kalloc`.
use nar_os.Prelude.{
  ℕ, ◌+◌, ◌≤◌, ◌<◌, ◌^◌, ◌≡◌, refl, ◌≢◌, ◌⊎◌, inl, inr, false, List, [], ◌∷◌, ◌++◌, arith, length,
  some,
}
use nar_os.Prelude.Words.{add32, update}
use nar_os.KHeap.{Heap, header_size, get_free_block_loop, malloc}
use nar_os.KHeap.Layout.{In, IsHeap, Chain-In, Chain-mark}
use nar_os.KHeap.Find.{NoneFits, Fits, Answer, get_free_block-Answer}
use nar_os.KHeap.Link.{
  linked, extend-linked, linked-ksbrk, linked-new, linked-size, linked-is_free, tail-low,
  linked-IsHeap,
}

-- What a call of `malloc` that returns `p` has done.
pub record Allocates (start : ℕ) (h : Heap) (bs : List ℕ) (size : ℕ) (p : ℕ) (g : Heap)
    : Type 0 where
  pub block : ℕ
  pub blocks : List ℕ
  pub heap : IsHeap start g blocks
  pub pointer : p ≡ block + 16
  pub listed : In block blocks
  pub used : (g.at block).is_free ≡ false
  pub room : size ≤ (g.at block).size
  pub grows : g.mem.ksbrk ≤ h.mem.ksbrk + 16 + size
  pub source :
      ((blocks ≡ bs) × Fits h.at size bs block)
      ⊎ ((blocks ≡ bs ++ block ∷ []) × (block ≡ h.mem.ksbrk) × NoneFits h.at size bs)
  pub others :
      (b : ℕ)
      → In b bs
      → b ≢ block
      → ((g.at b).is_free ≡ (h.at b).is_free) × ((g.at b).size ≡ (h.at b).size)

reuse : Heap → ℕ → Heap
reuse h b = record h { at = update h.at b (record (h.at b) { is_free = false }) }

module _ (start : ℕ) (h : Heap) (bs : List ℕ) (size : ℕ) (v : IsHeap start h bs) where
  reuse-Allocates : (b : ℕ) → Fits h.at size bs b → Allocates start h bs size (b + 16) (reuse h b)
  unfolding reuse
  reuse-Allocates b fits = record {
    block = b;
    blocks = bs;
    heap = record {
      chain = Chain-mark h.at h.mem.ksbrk b false h.head start bs v.chain;
      tail = v.tail;
      above_null = v.above_null;
      below_int = v.below_int;
    };
    pointer = refl;
    listed = fits.0;
    used = ground arith;
    room = ground arith;
    grows = omega arith;
    source = inl (refl, fits);
    others = λ c i ne. (ground arith, ground arith);
  }

module _ (start : ℕ) (h : Heap) (size : ℕ) where
  In-snoc : (b : ℕ) (bs : List ℕ) → In b (bs ++ b ∷ [])
  In-snoc b [] = inl refl
  In-snoc b (c ∷ bs) = inr (In-snoc b bs)

  linked-Allocates :
      (bs : List ℕ)
      → IsHeap start h bs
      → h.mem.ksbrk + 16 + size < 2 ^ 31
      → NoneFits h.at size bs
      → Allocates start h bs size (h.mem.ksbrk + 16) (linked h size)
  linked-Allocates bs v space busy =
      let low = tail-low start h size bs v in
      let new = linked-new h size low in
      let inside = λ (b : ℕ) (i : In b bs). Chain-In h.at h.mem.ksbrk h.head start bs b v.chain i in
      record {
        block = h.mem.ksbrk;
        blocks = bs ++ h.mem.ksbrk ∷ [];
        heap = linked-IsHeap start h size bs v space;
        pointer = refl;
        listed = In-snoc h.mem.ksbrk bs;
        used = cc new;
        room = rw new (omega arith);
        grows = omega (arith, linked-ksbrk h size);
        source = inr (refl, refl, busy);
        others = λ b i ne. (
          linked-is_free h size b (omega (arith, inside b i)),
          linked-size h size b (omega (arith, inside b i)),
        );
      }

  finish :
      (bs : List ℕ) (n : ℕ)
      → IsHeap start h bs
      → 0 < size
      → h.mem.ksbrk + 16 + size < 2 ^ 31
      → (r : ℕ) → get_free_block_loop n h.at size h.head ≡ some r
      → Answer h.at size bs r
      → (p : ℕ) × (g : Heap) × (malloc n size h ≡ some (p, g)) × Allocates start h bs size p g
  unfolding malloc reuse
  finish bs n v some_size space r found (inl (null, busy)) = (
    h.mem.ksbrk + 16,
    linked h size,
    ground (arith, found, null, extend-linked h size space),
    linked-Allocates bs v space busy,
  )
  finish bs n v some_size space r found (inr fits) =
      let inside = Chain-In h.at h.mem.ksbrk h.head start bs r v.chain fits.0 in
      let result : add32 r header_size ≡ r + 16 = omega (arith, v.below_int) in
      (
        r + 16,
        reuse h r,
        ground (arith, found, result, v.above_null),
        reuse-Allocates start h bs size v r fits,
      )

  -- `malloc` of a size that is not 0, with room below 2 ^ 31, in a heap whose list is well formed,
  -- ends and returns a pointer behind a header that is now in use and at least that large. The block
  -- was free in the list, or, if no free block is large enough, it is new and lies at the old break.
  -- The list stays well formed, the break rises by no more than the header and the size, and no
  -- other block changes its size or mark.
  pub malloc-Allocates :
      (bs : List ℕ) (n : ℕ)
      → IsHeap start h bs
      → length bs < n
      → 0 < size
      → h.mem.ksbrk + 16 + size < 2 ^ 31
      → (p : ℕ) × (g : Heap) × (malloc n size h ≡ some (p, g)) × Allocates start h bs size p g
  malloc-Allocates bs n v fuel some_size space =
      let (r, found, answer) =
        get_free_block-Answer h.at size h.mem.ksbrk n h.head start bs v.chain v.above_null fuel in
      finish bs n v some_size space r found answer
