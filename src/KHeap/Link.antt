-- ===== src/KHeap/Link.antt =====
-- The block that `malloc` of kernel/heap.c takes from `kbrk`.
use nar_os.Prelude.{
  ℕ, ◌+◌, ◌-◌, ◌<◌, ◌^◌, ◌≡◌, refl, ◌≢◌, true, false, List, [], ◌∷◌, ◌++◌, arith, ◌==◌, sym, ◌∙◌,
  some, ltb,
}
use nar_os.Prelude.Words.{add32}
use nar_os.Mem.{KernelMem}
use nar_os.Mem.Brk.{kbrk-grow}
use nar_os.KHeap.{Heap, header_size, link_block, extend}
use nar_os.KHeap.Layout.{Chain, last_of, IsHeap, Chain-In, In-last_of, Chain-snoc}

pub last_of-snoc : (d b : ℕ) (bs : List ℕ) → last_of d (bs ++ b ∷ []) ≡ b
last_of-snoc d b [] = refl
last_of-snoc d b (c ∷ bs) = last_of-snoc c b bs

pub grown : Heap → ℕ → KernelMem
grown h size = record h.mem { ksbrk = h.mem.ksbrk + 16 + size }

pub linked : Heap → ℕ → Heap
linked h size = link_block h h.mem.ksbrk size (grown h size)

pub extend-linked :
    (h : Heap) (size : ℕ)
    → h.mem.ksbrk + 16 + size < 2 ^ 31
    → extend h size ≡ some (h.mem.ksbrk + 16, linked h size)
unfolding extend linked grown
extend-linked h size space =
    let request : add32 header_size size ≡ 16 + size = omega arith in
    let sign : ltb (16 + size) (2 ^ 31) ≡ true = ground arith in
    let top : add32 h.mem.ksbrk (16 + size) ≡ h.mem.ksbrk + 16 + size = omega arith in
    let low : (h.mem.ksbrk == 2 ^ 32 - 1) ≡ false = ground arith in
    let result : add32 h.mem.ksbrk header_size ≡ h.mem.ksbrk + 16 = omega arith in
    rw (extend, request, sign, kbrk-grow (16 + size) h.mem, top, low, result)

pub linked-ksbrk : (h : Heap) (size : ℕ) → (linked h size).mem.ksbrk ≡ h.mem.ksbrk + 16 + size
unfolding linked link_block grown
linked-ksbrk h size = refl

-- The headers after a new block: its own, that of the old tail, and the others.
module _ (h : Heap) (size : ℕ) where
  pub linked-new :
      h.tail < h.mem.ksbrk
      → (linked h size).at h.mem.ksbrk ≡ record { size = size; is_free = false; next = 0 }
  unfolding linked link_block
  linked-new low = ground arith

  pub linked-tail :
      h.tail ≢ 0
      → h.tail < h.mem.ksbrk
      → (linked h size).at h.tail ≡ record (h.at h.tail) { next = h.mem.ksbrk }
  unfolding linked link_block
  linked-tail set low = ground arith

  pub linked-other : (b : ℕ) → b < h.mem.ksbrk → b ≢ h.tail → (linked h size).at b ≡ h.at b
  unfolding linked link_block
  linked-other b low other = ground arith

  pub linked-head : h.head ≢ 0 → (linked h size).head ≡ h.head
  unfolding linked link_block
  linked-head set = ground arith

  pub linked-size : (b : ℕ) → b < h.mem.ksbrk → ((linked h size).at b).size ≡ (h.at b).size
  unfolding linked link_block
  linked-size b low = ground arith

  pub linked-is_free : (b : ℕ) → b < h.mem.ksbrk → ((linked h size).at b).is_free ≡ (h.at b).is_free
  unfolding linked link_block
  linked-is_free b low = ground arith

module _ (start : ℕ) (h : Heap) (size : ℕ) where
  pub tail-low : (bs : List ℕ) → IsHeap start h bs → h.tail < h.mem.ksbrk
  tail-low [] v = ground (arith, v.chain, v.tail, v.above_null)
  tail-low (b ∷ bs) v =
      let last =
        Chain-In h.at h.mem.ksbrk h.head start (b ∷ bs) (last_of b bs) v.chain (In-last_of b bs) in
      omega (arith, v.tail)

  pub linked-Chain :
      (bs : List ℕ)
      → IsHeap start h bs
      → Chain
          (linked h size).at
          (linked h size).head
          start
          (h.mem.ksbrk + 16 + size)
          (bs ++ h.mem.ksbrk ∷ [])
  unfolding linked link_block
  linked-Chain [] v = ground (arith, v.chain, v.tail)
  linked-Chain (b ∷ bs) v =
      let low = tail-low (b ∷ bs) v in
      let last =
        Chain-In h.at h.mem.ksbrk h.head start (b ∷ bs) (last_of b bs) v.chain (In-last_of b bs) in
      let set : h.tail ≢ 0 = omega (arith, v.tail, v.above_null) in
      let top : ((linked h size).at h.mem.ksbrk).size ≡ size = cc (linked-new h size low) in
      let first : (linked h size).head ≡ h.head =
        linked-head h size (omega (arith, v.chain, v.above_null)) in
      rw first (
        rw top at (
          Chain-snoc h.at h.mem.ksbrk (linked h size).at h.head start b bs v.chain
            (cc (linked-tail h size set low, v.tail)) (cc (linked-new h size low))
            (λ d lower other. cc (linked-other h size d lower (λ e. other (e ∙ v.tail))))
            (λ d lower. linked-size h size d lower)))

  pub linked-IsHeap :
      (bs : List ℕ)
      → IsHeap start h bs
      → h.mem.ksbrk + 16 + size < 2 ^ 31
      → IsHeap start (linked h size) (bs ++ h.mem.ksbrk ∷ [])
  unfolding linked link_block grown
  linked-IsHeap bs v space = record {
    chain = linked-Chain bs v;
    tail = sym (last_of-snoc 0 h.mem.ksbrk bs);
    above_null = v.above_null;
    below_int = space;
  }
