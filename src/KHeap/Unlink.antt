-- ===== src/KHeap/Unlink.antt =====
-- The walk of `free` of kernel/heap.c to the node in front of the tail.
use nar_os.Prelude.{
  ℕ, zero, suc, ◌+◌, ◌<◌, ◌≡◌, refl, ◌≢◌, inl, inr, true, false, List, [], ◌∷◌, arith, ◌==◌, length,
  ap, sym, ◌∙◌, some,
}
use nar_os.Prelude.Words.{update}
use nar_os.KHeap.{Header, Heap, unlink_loop}
use nar_os.KHeap.Layout.{Chain, In, last_of, drop_last, Chain-In, In-last_of}

-- The heap whose list ends at the node `q`.
unfoldable pub cut_at : Heap → ℕ → Heap
cut_at h q = record h { at = update h.at q (record (h.at q) { next = 0 }); tail = q }

unlink_loop-null : (n : ℕ) (h : Heap) → unlink_loop (suc n) 0 h ≡ some h
unfolding unlink_loop
unlink_loop-null n h = refl

unlink_loop-hit :
    (n p : ℕ) (h : Heap)
    → p ≢ 0
    → (h.at p).next ≡ h.tail
    → unlink_loop (suc n) p h ≡ unlink_loop n 0 (cut_at h p)
unfolding unlink_loop cut_at
unlink_loop-hit n p h set hit =
    let not_null : (p == 0) ≡ false = ground arith in
    let test : ((h.at p).next == h.tail) ≡ true = ground arith in
    let here : (p == p) ≡ true = ground arith in rw (unlink_loop, not_null, test, here)

unlink_loop-miss :
    (n p : ℕ) (h : Heap)
    → p ≢ 0
    → (h.at p).next ≢ h.tail
    → unlink_loop (suc n) p h ≡ unlink_loop n (h.at p).next h
unfolding unlink_loop
unlink_loop-miss n p h set miss =
    let not_null : (p == 0) ≡ false = ground arith in
    let test : ((h.at p).next == h.tail) ≡ false = ground arith in rw (unlink_loop, not_null, test)

-- The walk of `free` cuts the list behind its last node but one.
pub unlink_loop-cut :
    (n : ℕ) (h : Heap) (brk p addr b d : ℕ) (bs : List ℕ)
    → Chain h.at p addr brk (b ∷ d ∷ bs)
    → 0 < addr
    → h.tail ≡ last_of d bs
    → length bs + 1 < n
    → unlink_loop n p h ≡ some (cut_at h (last_of 0 (drop_last (b ∷ d ∷ bs))))
unlink_loop-cut zero h brk p addr b d bs c low tail fuel = absurd (omega arith)
unlink_loop-cut (suc zero) h brk p addr b d bs c low tail fuel = absurd (omega arith)
unlink_loop-cut (suc (suc n)) h brk p addr b d [] c low tail fuel =
    unlink_loop-hit (suc n) p h (omega arith) (ap (λ q. (h.at q).next) c.0 ∙ (c.2.0 ∙ sym tail))
    ∙ (unlink_loop-null n (cut_at h p) ∙ ap (λ q. some (cut_at h q)) c.0)
unlink_loop-cut (suc (suc n)) h brk p addr b d (x ∷ bs) c low tail fuel =
    let inside =
      Chain-In h.at brk (h.at d).next (d + 16 + (h.at d).size) (x ∷ bs) (last_of x bs) c.2.2
        (In-last_of x bs) in
    unlink_loop-miss (suc n) p h (omega arith)
      (λ e. absurd (omega (arith, sym (ap (λ q. (h.at q).next) c.0), e, c.2.0, tail, inside)))
    ∙ (ap (λ q. unlink_loop (suc n) (h.at q).next h) c.0
        ∙ unlink_loop-cut (suc n) h brk (h.at b).next (b + 16 + (h.at b).size) d x bs c.2
            (omega arith) tail (omega arith))

-- A block that is not the last ends in front of the break.
inner-lt :
    (at : ℕ → Header) (brk p addr d : ℕ) (bs : List ℕ) (b : ℕ)
    → Chain at p addr brk (d ∷ bs)
    → In b (d ∷ bs)
    → b ≢ last_of d bs
    → b + 16 + (at b).size < brk
inner-lt at brk p addr d [] b c (inl e) ne = absurd (ne e)
inner-lt at brk p addr d [] b c (inr i) ne = absurd i
inner-lt at brk p addr d (x ∷ bs) b c (inl e) ne =
    let inside = Chain-In at brk (at d).next (d + 16 + (at d).size) (x ∷ bs) x c.2 (inl refl) in
    rw e (omega (arith, c.2.1))
inner-lt at brk p addr d (x ∷ bs) b c (inr i) ne =
    inner-lt at brk (at d).next (d + 16 + (at d).size) x bs b c.2 i ne

pub inner-ne :
    (at : ℕ → Header) (brk p addr : ℕ) (bs : List ℕ) (b : ℕ)
    → Chain at p addr brk bs
    → In b bs
    → b ≢ last_of 0 bs
    → b + 16 + (at b).size < brk
inner-ne at brk p addr [] b c i ne = absurd i
inner-ne at brk p addr (d ∷ bs) b c i ne = inner-lt at brk p addr d bs b c i ne
