-- ===== src/Mem/Frames.antt =====
-- The frame allocator of kernel/mem.c: which frame `get_page` picks, and what `put_page` undoes.
use mathlib.Core.Path.{fun_ext}
use nar_os.Prelude.{
  ℕ, zero, suc, ◌+◌, ◌-◌, ◌*◌, ◌/◌, ◌∙◌, ap, ◌%◌, ◌^◌, ◌≤◌, ◌<◌, ◌≡◌, refl, ◌≢◌, ◌⊎◌, inl, inr,
  Option, none, some, arith, ◌==◌, Bool-cases,
}
use nar_os.Prelude.Words.{update}
use nar_os.Mem.{FrameMap, idx, page, get_page_loop, get_page, put_page}

-- The region starts on a page boundary behind the first page, ends inside the address space, and
-- no more pages are counted than it holds.
pub record IsValid (f : FrameMap) : Type 0 where
  pub aligned : f.memory_base % 4096 ≡ 0
  pub above_null : 4096 ≤ f.memory_base
  pub in_space : f.memory_base + f.memory_size < 2 ^ 32
  pub counted : f.total_page * 4096 ≤ f.memory_size

-- Every frame from `i` on, `n` of them, is in use.
abbrev pub AllUsed : (ℕ → ℕ) → ℕ → ℕ → Type 0
AllUsed m i zero = Unit {0}
AllUsed m i (suc n) = (m i ≢ 0) × AllUsed m (i + 1) n

-- `get_page` takes frame `i`: the first free one.
pub record Takes (f : FrameMap) (p : ℕ) (g : FrameMap) (i : ℕ) : Type 0 where
  pub from_base : idx f.memory_base ≤ i
  pub below_total : i < f.total_page
  pub was_free : f.page_map i ≡ 0
  pub first : AllUsed f.page_map (idx f.memory_base) (i - idx f.memory_base)
  pub address : p ≡ page i
  pub counted : g ≡ record f { page_map = update f.page_map i 1 }

-- `get_page` returns NULL and changes nothing: every frame in its range is in use.
pub record IsFull (f : FrameMap) (p : ℕ) (g : FrameMap) : Type 0 where
  pub all_used : AllUsed f.page_map (idx f.memory_base) (f.total_page - idx f.memory_base)
  pub null : p ≡ 0
  pub same : g ≡ f

-- What the loop finds, from frame `i` on with `n` rounds.
abbrev Found : (ℕ → ℕ) → ℕ → ℕ → Option ℕ → Type 0
Found m n i none = AllUsed m i n
Found m n i (some k) = (i ≤ k) × (k < i + n) × (m k ≡ 0) × AllUsed m i (k - i)

Found-next :
    (m : ℕ → ℕ) (n i : ℕ) (r : Option ℕ) → m i ≢ 0 → Found m n (i + 1) r → Found m (suc n) i r
Found-next m n i none used h = (used, h)
Found-next m n i (some k) used (lo, hi, free, first) =
    let step : k - i ≡ suc (k - (i + 1)) = omega arith in
    (omega arith, omega arith, free, rw step (used, first))

get_page_loop-Found : (n i : ℕ) (m : ℕ → ℕ) → Found m n i (get_page_loop n i m)
unfolding get_page_loop
get_page_loop-Found zero i m = tt
get_page_loop-Found (suc n) i m = elim (Bool-cases (m i == 0)) [
  | inl free ↦
      let here : i - i ≡ 0 = omega arith in
      rw free (omega arith, omega arith, ground arith, rw here tt)
  | inr used ↦ rw used (Found-next m n i _ (ground arith) (get_page_loop-Found n (i + 1) m))
]

-- Either `get_page` takes the first frame of its range whose count is 0, counts one user of it and
-- touches no other count, or every frame of the range is in use, and it returns NULL and changes
-- nothing.
pub get_page-Takes :
    (f : FrameMap) → let (p, g) = get_page f in ((i : ℕ) × Takes f p g i) ⊎ IsFull f p g
unfolding get_page
get_page-Takes f =
    let n : ℕ = f.total_page - idx f.memory_base in
    let b : ℕ = idx f.memory_base in
    go (get_page_loop n b f.page_map) (get_page_loop-Found n b f.page_map) refl
  where
    go :
        (r : Option ℕ)
        → Found f.page_map (f.total_page - idx f.memory_base) (idx f.memory_base) r
        → get_page_loop (f.total_page - idx f.memory_base) (idx f.memory_base) f.page_map ≡ r
        → ((i : ℕ) × Takes f (get_page f).0 (get_page f).1 i)
          ⊎ IsFull f (get_page f).0 (get_page f).1
    go none h e = inr (record { all_used = h; null = rw (e, get_page); same = rw (e, get_page) })
    go (some i) (lo, hi, free, first) e = inl (
      i,
      record {
        from_base = lo;
        below_total = omega arith;
        was_free = free;
        first = first;
        address = rw (e, get_page);
        counted = rw (e, get_page);
      },
    )

-- A frame that `get_page` takes lies whole inside the region, on a page boundary.
pub Takes-in_region :
    {f : FrameMap} {p : ℕ} {g : FrameMap} {i : ℕ}
    → IsValid f
    → Takes f p g i
    → (p ≡ i * 4096) × (f.memory_base ≤ p) × (p + 4096 ≤ f.memory_size)
Takes-in_region v t = (omega arith, omega arith, omega arith)

Takes-IsValid :
    {f : FrameMap} {p : ℕ} {g : FrameMap} {i : ℕ} → IsValid f → Takes f p g i → IsValid g
Takes-IsValid {f} v t = rw (t.counted) (record {
  aligned = v.aligned;
  above_null = v.above_null;
  in_space = v.in_space;
  counted = v.counted;
})

-- A call that does not return NULL takes a frame.
taken : (f : FrameMap) → (get_page f).0 ≢ 0 → (i : ℕ) × Takes f (get_page f).0 (get_page f).1 i
taken f np = elim (get_page-Takes f) [ inl t ↦ t | inr full ↦ absurd (np full.null) ]

Takes-ne :
    {f : FrameMap} {p q : ℕ} {g h : FrameMap} {i j : ℕ}
    → IsValid f
    → Takes f p g i
    → Takes g q h j
    → p ≢ q
Takes-ne {f} {p} {q} {g} {h} {i} {j} v t u e =
    let at_i = Takes-in_region v t in
    let at_j = Takes-in_region (Takes-IsValid v t) u in
    let same : j ≡ i = omega arith in ground (arith, t.counted, u.was_free)

-- No frame is handed out twice: the pages of two calls in a row differ, unless one is NULL.
pub get_page-ne :
    (f : FrameMap)
    → IsValid f
    → (get_page f).0 ≢ 0
    → (get_page (get_page f).1).0 ≢ 0
    → (get_page f).0 ≢ (get_page (get_page f).1).0
get_page-ne f v np nq =
    let (i, t) = taken f np in let (j, u) = taken (get_page f).1 nq in Takes-ne v t u

put_page-Takes :
    {f : FrameMap} {p : ℕ} {g : FrameMap} {i : ℕ}
    → IsValid f
    → Takes f p g i
    → put_page p g ≡ some (record g { page_map = update g.page_map i 0 })
unfolding put_page
put_page-Takes {f} {p} {g} {i} v t =
    let at_i = Takes-in_region v t in
    let here : p / 4096 ≡ i = omega arith in rw (t.counted, here) (ground arith)

-- `put_page` of the page just taken does not panic, and gives the allocator back as it was.
pub put_page-get_page :
    (f : FrameMap)
    → IsValid f
    → (get_page f).0 ≢ 0
    → put_page (get_page f).0 (get_page f).1 ≡ some f
put_page-get_page f v np =
    let (i, t) = taken f np in
    put_page-Takes v t
    ∙ ap some (
        rw t.counted
          (ap (λ m. record f { page_map = m }) (fun_ext λ j. ground (arith, t.was_free))))
