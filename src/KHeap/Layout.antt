-- ===== src/KHeap/Layout.antt =====
-- The layout of the heap of kernel/heap.c: the blocks of the list tile the memory up to the break.
use nar_os.Prelude.{
  ℕ, ◌+◌, ◌≤◌, ◌<◌, ◌^◌, ◌≡◌, refl, ◌≢◌, ◌⊎◌, inl, inr, Bool, List, [], ◌∷◌, ◌++◌, arith,
}
use nar_os.Prelude.Words.{update}
use nar_os.KHeap.{Header, Heap}

-- From the pointer `p` the list leads through the headers at `bs` to NULL. The first stands at
-- `addr`, each other behind the block of the one in front of it, and the last block ends at `brk`.
abbrev pub Chain : (ℕ → Header) → ℕ → ℕ → ℕ → List ℕ → Type 0
Chain at p addr brk [] = (p ≡ 0) × (addr ≡ brk)
Chain at p addr brk (b ∷ bs) =
    (p ≡ b) × (b ≡ addr) × Chain at (at b).next (b + 16 + (at b).size) brk bs

abbrev pub In : ℕ → List ℕ → Type 0
In b [] = ⊥
In b (c ∷ bs) = (b ≡ c) ⊎ In b bs

abbrev pub last_of : ℕ → List ℕ → ℕ
last_of d [] = d
last_of d (b ∷ bs) = last_of b bs

abbrev pub drop_last : List ℕ → List ℕ
drop_last [] = []
drop_last (b ∷ []) = []
drop_last (b ∷ c ∷ bs) = b ∷ drop_last (c ∷ bs)

-- The heap begins at `start`, and its blocks are those of `bs`. All addresses are below 2 ^ 31.
pub record IsHeap (start : ℕ) (h : Heap) (bs : List ℕ) : Type 0 where
  pub chain : Chain h.at h.head start h.mem.ksbrk bs
  pub tail : h.tail ≡ last_of 0 bs
  pub above_null : 0 < start
  pub below_int : h.mem.ksbrk < 2 ^ 31

pub In-last_of : (b : ℕ) (bs : List ℕ) → In (last_of b bs) (b ∷ bs)
In-last_of b [] = inl refl
In-last_of b (c ∷ bs) = inr (In-last_of c bs)

-- The last block but one.
pub In-prev : (b d : ℕ) (bs : List ℕ) → In (last_of 0 (drop_last (b ∷ d ∷ bs))) (b ∷ d ∷ bs)
In-prev b d [] = inl refl
In-prev b d (x ∷ bs) = inr (In-prev d x bs)

module _ (at : ℕ → Header) (brk : ℕ) where
  Chain-le : (p addr : ℕ) (bs : List ℕ) → Chain at p addr brk bs → addr ≤ brk
  Chain-le p addr [] c = omega arith
  Chain-le p addr (b ∷ bs) c = omega (arith, Chain-le (at b).next (b + 16 + (at b).size) bs c.2)

  -- A block lies inside the memory that the chain covers.
  pub Chain-In :
      (p addr : ℕ) (bs : List ℕ) (b : ℕ)
      → Chain at p addr brk bs
      → In b bs
      → (addr ≤ b) × (b + 16 + (at b).size ≤ brk)
  Chain-In p addr [] b c i = absurd i
  Chain-In p addr (d ∷ bs) b c (inl e) =
      rw e (omega arith, Chain-le (at d).next (d + 16 + (at d).size) bs c.2)
  Chain-In p addr (d ∷ bs) b c (inr i) =
      let h = Chain-In (at d).next (d + 16 + (at d).size) bs b c.2 i in (omega arith, h.1)

  -- The last block ends at the break.
  pub last_of-end :
      (p addr b : ℕ) (bs : List ℕ)
      → Chain at p addr brk (b ∷ bs)
      → last_of b bs + 16 + (at (last_of b bs)).size ≡ brk
  last_of-end p addr b [] c = omega arith
  last_of-end p addr b (d ∷ bs) c = last_of-end (at b).next (b + 16 + (at b).size) d bs c.2

  -- The headers of a chain matter only at its own addresses.
  pub Chain-same :
      (new : ℕ → Header) (p addr : ℕ) (bs : List ℕ)
      → ((b : ℕ) → In b bs → ((new b).next ≡ (at b).next) × ((new b).size ≡ (at b).size))
      → Chain at p addr brk bs
      → Chain new p addr brk bs
  Chain-same new p addr [] same c = c
  Chain-same new p addr (b ∷ bs) same c =
      let here = same b (inl refl) in
      (
        c.0,
        c.1,
        rw (here.0, here.1)
            (Chain-same new (at b).next (b + 16 + (at b).size) bs (λ d i. same d (inr i)) c.2),
      )

  -- Marking a block keeps the chain.
  pub Chain-mark :
      (b : ℕ) (free : Bool) (p addr : ℕ) (bs : List ℕ)
      → Chain at p addr brk bs
      → Chain (update at b (record (at b) { is_free = free })) p addr brk bs
  Chain-mark b free p addr bs c =
      Chain-same (update at b (record (at b) { is_free = free })) p addr bs
        (λ d i. (ground arith, ground arith)) c

  -- A block behind the last one lengthens the chain.
  pub Chain-snoc :
      (new : ℕ → Header) (p addr b : ℕ) (bs : List ℕ)
      → Chain at p addr brk (b ∷ bs)
      → (new (last_of b bs)).next ≡ brk
      → (new brk).next ≡ 0
      → ((d : ℕ) → d < brk → d ≢ last_of b bs → (new d).next ≡ (at d).next)
      → ((d : ℕ) → d < brk → (new d).size ≡ (at d).size)
      → Chain new p addr (brk + 16 + (new brk).size) (b ∷ (bs ++ brk ∷ []))
  Chain-snoc new p addr b [] c to_new end same sizes =
      let fits = last_of-end p addr b [] c in
      let size = sizes b (omega arith) in (c.0, c.1, (to_new, omega arith, (end, refl)))
  Chain-snoc new p addr b (d ∷ bs) c to_new end same sizes =
      let inside =
        Chain-In (at b).next (b + 16 + (at b).size) (d ∷ bs) (last_of d bs) c.2 (In-last_of d bs) in
      let size = sizes b (omega arith) in
      let next = same b (omega arith) (omega arith) in
      (
        c.0,
        c.1,
        rw (next, size)
            (Chain-snoc new (at b).next (b + 16 + (at b).size) d bs c.2 to_new end same sizes),
      )

  -- Cut behind the last but one block, the chain ends where the last block begins.
  pub Chain-cut :
      (new : ℕ → Header) (p addr b d : ℕ) (bs : List ℕ)
      → Chain at p addr brk (b ∷ d ∷ bs)
      → (new (last_of 0 (drop_last (b ∷ d ∷ bs)))).next ≡ 0
      → ((x : ℕ) → x ≢ last_of 0 (drop_last (b ∷ d ∷ bs)) → (new x).next ≡ (at x).next)
      → ((x : ℕ) → (new x).size ≡ (at x).size)
      → Chain new p addr (last_of d bs) (drop_last (b ∷ d ∷ bs))
  Chain-cut new p addr b d [] c end same sizes =
      let size = sizes b in (c.0, c.1, (end, omega arith))
  Chain-cut new p addr b d (x ∷ bs) c end same sizes =
      let inside =
        Chain-In (at b).next (b + 16 + (at b).size) (d ∷ x ∷ bs)
          (last_of 0 (drop_last (d ∷ x ∷ bs))) c.2 (In-prev d x bs) in
      let size = sizes b in
      let next = same b (omega arith) in
      (
        c.0,
        c.1,
        rw (next, size)
            (Chain-cut new (at b).next (b + 16 + (at b).size) d x bs c.2 end same sizes),
      )
