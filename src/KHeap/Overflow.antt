-- ===== src/KHeap/Overflow.antt =====
-- Requests that overflow the size computation of `malloc` of kernel/heap.c.
use nar_os.Prelude.{
  ℕ, ◌+◌, ◌-◌, ◌<◌, ◌^◌, ◌≡◌, inl, inr, true, false, List, some, arith, ◌==◌, length, ltb,
}
use nar_os.Prelude.Words.{add32}
use nar_os.Mem.Brk.{kbrk-grow}
use nar_os.KHeap.{Heap, header_size, get_free_block_loop, link_block, extend, malloc}
use nar_os.KHeap.Layout.{IsHeap, Chain-In}
use nar_os.KHeap.Find.{Answer, get_free_block-Answer}

module _ (start : ℕ) (h : Heap) (bs : List ℕ) (n k : ℕ) (v : IsHeap start h bs)
    (small : k < 16) where
  extend-wraps :
      extend h (2 ^ 32 - 16 + k)
      ≡ some (
        h.mem.ksbrk + 16,
        link_block h h.mem.ksbrk (2 ^ 32 - 16 + k) (record h.mem { ksbrk = h.mem.ksbrk + k }),
      )
  unfolding extend
  extend-wraps =
      let bound = v.below_int in
      let request : add32 header_size (2 ^ 32 - 16 + k) ≡ k = omega arith in
      let sign : ltb k (2 ^ 31) ≡ true = ground arith in
      let top : add32 h.mem.ksbrk k ≡ h.mem.ksbrk + k = omega arith in
      let low : (h.mem.ksbrk == 2 ^ 32 - 1) ≡ false = ground arith in
      let result : add32 h.mem.ksbrk header_size ≡ h.mem.ksbrk + 16 = omega arith in
      rw (extend, request, sign, kbrk-grow k h.mem, top, low, result)

  -- A request within 16 bytes of 2 ^ 32 is granted: `malloc` returns a block of that size at the
  -- break, and moves the break by the request's last `k` bytes only, which is less than a header.
  pub malloc_wraps :
      length bs < n
      → malloc n (2 ^ 32 - 16 + k) h
        ≡ some (
          h.mem.ksbrk + 16,
          link_block h h.mem.ksbrk (2 ^ 32 - 16 + k) (record h.mem { ksbrk = h.mem.ksbrk + k }),
        )
  unfolding malloc
  malloc_wraps fuel =
      let (r, found, answer) =
        get_free_block-Answer h.at (2 ^ 32 - 16 + k) h.mem.ksbrk n h.head start bs v.chain
          v.above_null fuel in
      go r found answer
    where
      go :
          (r : ℕ)
          → get_free_block_loop n h.at (2 ^ 32 - 16 + k) h.head ≡ some r
          → Answer h.at (2 ^ 32 - 16 + k) bs r
          → malloc n (2 ^ 32 - 16 + k) h
            ≡ some (
              h.mem.ksbrk + 16,
              link_block h h.mem.ksbrk (2 ^ 32 - 16 + k) (record h.mem { ksbrk = h.mem.ksbrk + k }),
            )
      go r found (inl (null, busy)) =
          let some_size : (2 ^ 32 - 16 + k == 0) ≡ false = ground arith in
          let test : (r == 0) ≡ true = ground arith in
          rw (some_size, malloc, found, test) extend-wraps
      go r found (inr fits) =
          let inside = Chain-In h.at h.mem.ksbrk h.head start bs r v.chain fits.0 in
          absurd (omega (arith, v.below_int, fits.2))
