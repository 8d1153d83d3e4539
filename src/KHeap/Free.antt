-- ===== src/KHeap/Free.antt =====
-- `free` of kernel/heap.c, which is `kfree`.
use nar_os.Prelude.{
  ℕ, ◌+◌, ◌-◌, ◌≤◌, ◌<◌, ◌^◌, ◌≡◌, refl, ◌≢◌, inr, true, false, List, [], ◌∷◌, arith, ◌==◌, length,
  ap, ◌∙◌, Option, some, none, ltb, if◌then◌else◌,
}
use mathlib.Core.Path.{ap₂}
use nar_os.Prelude.Int.{negsuc}
use nar_os.Prelude.Words.{add32, sub32, update}
use nar_os.Mem.{KernelMem, kbrk}
use nar_os.Mem.Brk.{kbrk-shrink}
use nar_os.KHeap.{Header, Heap, header_size, unlink_loop, shrink_by, free}
use nar_os.KHeap.Layout.{
  Chain, In, last_of, drop_last, IsHeap, Chain-In, In-last_of, last_of-end, Chain-mark, Chain-cut,
}
use nar_os.KHeap.Unlink.{cut_at, unlink_loop-cut, inner-ne}

-- The block at `b` with its mark set.
abbrev pub marked : Heap → ℕ → Heap
marked h b = record h { at = update h.at b (record (h.at b) { is_free = true }) }

-- What is done with the answer of `kbrk`.
abbrev settle : Heap → Option (ℕ × KernelMem) → Option Heap
settle h none = none
settle h (some (old, m)) = some (record h { mem = m })

-- The end of `free`: the break moves down over the last block.
abbrev give_back : Heap → ℕ → Option Heap
give_back h size = settle h (kbrk (shrink_by size) h.mem)

-- The list less its last block.
abbrev shortened : Heap → List ℕ → Heap
shortened h [] = h
shortened h (b ∷ []) = record h { head = 0; tail = 0 }
shortened h (b ∷ d ∷ bs) = cut_at h (last_of 0 (drop_last (b ∷ d ∷ bs)))

ends :
    (at : ℕ → Header) (brk p addr : ℕ) (bs : List ℕ) (b : ℕ)
    → Chain at p addr brk bs
    → bs ≢ []
    → b ≡ last_of 0 bs
    → b + 16 + (at b).size ≡ brk
ends at brk p addr [] b c ne e = absurd (ne refl)
ends at brk p addr (d ∷ bs) b c ne e = rw e (last_of-end at brk p addr d bs c)

unlink-shortened :
    (start : ℕ) (h : Heap) (bs : List ℕ) (n : ℕ)
    → IsHeap start h bs
    → bs ≢ []
    → length bs < n
    → (if h.head == h.tail then some (record h { head = 0; tail = 0 }) else unlink_loop n h.head h)
      ≡ some (shortened h bs)
unlink-shortened start h [] n v ne fuel = absurd (ne refl)
unlink-shortened start h (b ∷ []) n v ne fuel =
    let test : (h.head == h.tail) ≡ true = ground (arith, v.chain, v.tail) in rw test
unlink-shortened start h (b ∷ d ∷ bs) n v ne fuel =
    let inside =
      Chain-In h.at h.mem.ksbrk (h.at b).next (b + 16 + (h.at b).size) (d ∷ bs) (last_of d bs)
        v.chain.2 (In-last_of d bs) in
    let differ : h.head ≢ h.tail = omega (arith, v.chain.0, v.tail) in
    let test : (h.head == h.tail) ≡ false = ground arith in
    rw test (
      unlink_loop-cut n h h.mem.ksbrk h.head start b d bs v.chain v.above_null v.tail (omega arith))

-- Its blocks, and the break when the last is given back.
shortened-IsHeap :
    (start : ℕ) (h : Heap) (bs : List ℕ) (m : KernelMem)
    → IsHeap start h bs
    → bs ≢ []
    → m.ksbrk ≡ last_of 0 bs
    → IsHeap start (record (shortened h bs) { mem = m }) (drop_last bs)
unfolding cut_at
shortened-IsHeap start h [] m v ne e = absurd (ne refl)
shortened-IsHeap start h (b ∷ []) m v ne e = record {
  chain = (refl, ground (arith, v.chain, e));
  tail = refl;
  above_null = v.above_null;
  below_int = ground (arith, v.chain, v.below_int);
}
shortened-IsHeap start h (b ∷ d ∷ bs) m v ne e =
    let inside =
      Chain-In h.at h.mem.ksbrk h.head start (b ∷ d ∷ bs) (last_of d bs) v.chain
        (inr (In-last_of d bs)) in
    record {
      chain = rw e (
          Chain-cut h.at h.mem.ksbrk (cut_at h (last_of 0 (drop_last (b ∷ d ∷ bs)))).at h.head start
            b d bs v.chain (ground arith) (λ x other. ground arith) (λ x. ground arith));
      tail = refl;
      above_null = v.above_null;
      below_int = omega (arith, v.below_int);
    }

module _ (start : ℕ) (h : Heap) (bs : List ℕ) (n b : ℕ) (v : IsHeap start h bs)
    (listed : In b bs) where
  inside : (start ≤ b) × (b + 16 + (h.at b).size ≤ h.mem.ksbrk)
  inside = Chain-In h.at h.mem.ksbrk h.head start bs b v.chain listed

  -- `free` of a block that is not the last marks it free: it cannot fail, the list stays well
  -- formed, and nothing else changes.
  pub free-marked :
      b ≢ last_of 0 bs → (free n (b + 16) h ≡ some (marked h b)) × IsHeap start (marked h b) bs
  unfolding free
  free-marked inner =
      let below = inner-ne h.at h.mem.ksbrk h.head start bs b v.chain listed inner in
      let bound = v.below_int in
      let header : sub32 (b + 16) header_size ≡ b = omega (arith, inside) in
      let set : (b + 16 == 0) ≡ false = ground arith in
      let test : (add32 (b + 16) (h.at b).size == h.mem.ksbrk) ≡ false = ground arith in
      (
        rw (set, header, test),
        record {
          chain = Chain-mark h.at h.mem.ksbrk b true h.head start bs v.chain;
          tail = v.tail;
          above_null = v.above_null;
          below_int = v.below_int;
        },
      )

  last-ends : b ≡ last_of 0 bs → bs ≢ [] → b + 16 + (h.at b).size ≡ h.mem.ksbrk
  last-ends end ne = ends h.at h.mem.ksbrk h.head start bs b v.chain ne end

  free-give_back :
      b ≡ last_of 0 bs
      → bs ≢ []
      → length bs < n
      → free n (b + 16) h ≡ give_back (shortened h bs) (h.at b).size
  unfolding free
  free-give_back end ne fuel =
      let bound = v.below_int in
      let stop = last-ends end ne in
      let header : sub32 (b + 16) header_size ≡ b = omega (arith, inside) in
      let set : (b + 16 == 0) ≡ false = ground arith in
      let test : (add32 (b + 16) (h.at b).size == h.mem.ksbrk) ≡ true = ground arith in
      rw (set, header, test, unlink-shortened start h bs n v ne fuel)
        (ap (λ q. give_back (shortened h bs) (h.at q).size) header)

-- What `free` of the last block has done, given what `kbrk` did: where `kbrk` panics, so does it.
abbrev pub GivesBack : ℕ → List ℕ → ℕ → Option (ℕ × KernelMem) → Option Heap → Type 0
GivesBack start bs b none r = r ≡ none
GivesBack start bs b (some (old, m)) r =
    (g : Heap) × (r ≡ some g) × (g.mem ≡ m) × (g.mem.ksbrk ≡ b) × IsHeap start g (drop_last bs)

In-ne_nil : (b : ℕ) (bs : List ℕ) → In b bs → bs ≢ []
In-ne_nil b [] i e = i
In-ne_nil b (d ∷ bs) i e = cc

shortened-mem : (h : Heap) (bs : List ℕ) → (shortened h bs).mem ≡ h.mem
unfolding cut_at
shortened-mem h [] = refl
shortened-mem h (b ∷ []) = refl
shortened-mem h (b ∷ d ∷ bs) = refl

shrink_by-negsuc : (size : ℕ) → size + 16 ≤ 2 ^ 31 → shrink_by size ≡ negsuc (size + 15)
shrink_by-negsuc size small =
    let wrapped : sub32 (sub32 0 size) header_size ≡ 2 ^ 32 - (size + 16) = omega arith in
    let sign : ltb (2 ^ 32 - (size + 16)) (2 ^ 31) ≡ false = ground arith in
    rw (wrapped, sign) (ap negsuc (omega arith))

give_back-kbrk :
    (h : Heap) (bs : List ℕ) (size : ℕ) (o : Option (ℕ × KernelMem))
    → size + 16 ≤ 2 ^ 31
    → kbrk (negsuc (size + 15)) h.mem ≡ o
    → give_back (shortened h bs) size ≡ settle (shortened h bs) o
give_back-kbrk h bs size o small ran =
    ap (settle (shortened h bs)) (ap₂ kbrk (shrink_by-negsuc size small) (shortened-mem h bs) ∙ ran)

module _ (start : ℕ) (h : Heap) (bs : List ℕ) (n b : ℕ) (v : IsHeap start h bs)
    (listed : In b bs) where
  -- `free` of the last block ends, takes it off the list, and lowers the break to where it began by
  -- one call of `kbrk`; the list stays well formed. It panics exactly if that call panics.
  pub free-GivesBack :
      b ≡ last_of 0 bs
      → length bs < n
      → GivesBack start bs b (kbrk (negsuc ((h.at b).size + 15)) h.mem) (free n (b + 16) h)
  free-GivesBack end fuel = go (kbrk (negsuc ((h.at b).size + 15)) h.mem) refl
    where
      ne : bs ≢ []
      ne = In-ne_nil b bs listed

      stop : b + 16 + (h.at b).size ≡ h.mem.ksbrk
      stop = last-ends start h bs n b v listed end ne

      runs :
          (o : Option (ℕ × KernelMem))
          → kbrk (negsuc ((h.at b).size + 15)) h.mem ≡ o
          → free n (b + 16) h ≡ settle (shortened h bs) o
      runs o ran =
          free-give_back start h bs n b v listed end ne fuel
          ∙ give_back-kbrk h bs (h.at b).size o (omega (arith, v.below_int, stop)) ran

      go :
          (o : Option (ℕ × KernelMem))
          → kbrk (negsuc ((h.at b).size + 15)) h.mem ≡ o
          → GivesBack start bs b o (free n (b + 16) h)
      go none ran = runs none ran
      go (some (old, m)) ran =
          let lowered = kbrk-shrink ((h.at b).size + 15) h.mem ran in
          let down : m.ksbrk ≡ b = omega (arith, lowered, stop, v.below_int) in
          (
            record (shortened h bs) { mem = m },
            runs (some (old, m)) ran,
            refl,
            down,
            shortened-IsHeap start h bs m v ne (down ∙ end),
          )
