-- ===== src/Mem/Paging/Lands.antt =====
-- Where the bytes land that kernel/mem.c copies into the memory of another task.
use nar_os.Prelude.{
  ℕ, ◌+◌, ◌*◌, ◌/◌, ◌%◌, ◌^◌, ◌≤◌, ◌<◌, ◌≡◌, ◌⊎◌, refl, true, false, Option, none, some, List, [],
  ◌∷◌, length, arith, Bool-cases, inl, inr, ◌==◌, ◌&&◌, ap, ◌∙◌,
}
use nar_os.Prelude.Words.{update, add32}
use nar_os.Mem.{FrameMap, didx, tidx}
use nar_os.Mem.Paging.{Machine, UserMemory, resumes, walk, page_int}
use nar_os.Mem.Paging.Walk.{IsSelfMapped}
use nar_os.Mem.Paging.Fault.{Maps, TableThere, TableMissing, page_int-Maps}
use nar_os.Mem.Paging.Keep.{page_int-cr3}
use nar_os.Mem.Paging.Copy.{
  Memory, store_byte, retry, write_byte, memcpy, set_cr3, copy_to_mm_space,
}

abbrev mapped_to : ℕ → Option ℕ → ℕ
mapped_to d none = d
mapped_to d (some p) = p

abbrev is_mapped : Option ℕ → ℕ
is_mapped none = 0
is_mapped (some p) = 1

-- An address of the same page goes to the same frame.
walk-page :
    (m : Machine) (v w f : ℕ)
    → w / 4096 ≡ v / 4096
    → walk m v ≡ some (f * 4096 + v % 4096)
    → walk m w ≡ some (f * 4096 + w % 4096)
unfolding walk
walk-page m v w f same h =
    let e1 : didx w ≡ didx v = omega (arith, same) in
    let e2 : tidx w ≡ tidx v = omega (arith, same) in
    let d = m.entries (m.cr3 * 1024 + didx v) in
    let t = m.entries (d.index * 1024 + tidx v) in
    elim (Bool-cases (d.present && t.present)) [
      | inl there ↦
          let q : t.index * 4096 + v % 4096 ≡ f * 4096 + v % 4096 =
            rw (there) at (ap (mapped_to 0) h) in
          let e3 : t.index ≡ f = omega (arith, q) in rw (e1, e2, there, e3) refl
      | inr fails ↦ let q : 0 ≡ 1 = rw (fails) at (ap is_mapped h) in absurd (omega (arith, q))
    ]

-- The bytes lie in memory from `p` on.
abbrev pub Lies : List ℕ → ℕ → (ℕ → ℕ) → Type 0
Lies [] p bytes = Unit
Lies (b ∷ bs) p bytes = (bytes p ≡ b) × Lies bs (p + 1) bytes

-- The bytes are still there where memory has not changed.
pub Lies-same :
    (l : List ℕ) (p : ℕ) (bytes bytes' : ℕ → ℕ)
    → ((q : ℕ) → p ≤ q → q < p + length l → bytes' q ≡ bytes q)
    → Lies l p bytes
    → Lies l p bytes'
Lies-same [] p bytes bytes' same h = tt
Lies-same (b ∷ l) p bytes bytes' same h = (
  same p (omega arith) (omega arith) ∙ h.0,
  Lies-same l (p + 1) bytes bytes' (λ q low high. same q (omega (arith, low)) (omega (arith, high)))
      h.1,
)

-- The bytes lie where they should, and nothing else is touched.
pub record Copied (mem : Memory) (p : ℕ) (sou : List ℕ) (mem' : Memory) : Type 0 where
  pub machine : mem'.machine ≡ mem.machine
  pub there : Lies sou p mem'.bytes
  pub below : (q : ℕ) → q < p → mem'.bytes q ≡ mem.bytes q
  pub above : (q : ℕ) → p + length sou ≤ q → mem'.bytes q ≡ mem.bytes q

store_byte_lem :
    (mem : Memory) (vaddr p b : ℕ)
    → walk mem.machine vaddr ≡ some p
    → store_byte vaddr b mem ≡ some (record mem { bytes = update mem.bytes p b })
unfolding store_byte
store_byte_lem mem vaddr p b h = rw (h, store_byte) refl

write_byte_mapped :
    (mm running : UserMemory) (mem : Memory) (vaddr p b : ℕ)
    → walk mem.machine vaddr ≡ some p
    → write_byte mm running vaddr b mem ≡ some (record mem { bytes = update mem.bytes p b })
unfolding write_byte
write_byte_mapped mm running mem vaddr p b h = rw (h, write_byte) (store_byte_lem mem vaddr p b h)

write_byte_fault :
    (mm running : UserMemory) (mem : Memory) (m' : Machine) (vaddr p b : ℕ)
    → walk mem.machine vaddr ≡ none
    → page_int 0xe vaddr false true 8 (some mm) running mem.machine ≡ some (resumes m')
    → walk m' vaddr ≡ some p
    → write_byte mm running vaddr b mem
      ≡ some (record { machine = m'; bytes = update mem.bytes p b })
unfolding write_byte retry
write_byte_fault mm running mem m' vaddr p b unmapped ran h =
    rw (unmapped, write_byte, ran) (store_byte_lem (record mem { machine = m' }) vaddr p b h)

-- The first byte is written, and the others are copied.
Copied-cons :
    (mem mem' : Memory) (m : Machine) (p b : ℕ) (sou : List ℕ)
    → Copied (record { machine = m; bytes = update mem.bytes p b }) (p + 1) sou mem'
    → Copied (record mem { machine = m }) p (b ∷ sou) mem'
Copied-cons mem mem' m p b sou c =
    let here : (p == p) ≡ true = ground arith in
    record {
      machine = c.machine;
      there = (c.below p (omega arith) ∙ rw here refl, c.there);
      below = λ q h.
          let other : (q == p) ≡ false = ground (arith, h) in
          c.below q (omega (arith, h)) ∙ rw other refl;
      above = λ q h.
          let other : (q == p) ≡ false = ground (arith, h) in
          c.above q (omega (arith, h)) ∙ rw other refl;
    }

memcpy_step :
    (mm running : UserMemory) (mem mem1 : Memory) (v b : ℕ) (sou : List ℕ)
    → v + 1 < 2 ^ 32
    → write_byte mm running v b mem ≡ some mem1
    → memcpy mm running v (b ∷ sou) mem ≡ memcpy mm running (v + 1) sou mem1
unfolding memcpy
memcpy_step mm running mem mem1 v b sou lt h =
    let next : add32 v 1 ≡ v + 1 = omega (arith, lt) in rw (h, memcpy, next) refl

pub memcpy_mapped :
    (mm running : UserMemory) (mem : Memory) (v p : ℕ) (sou : List ℕ)
    → v + length sou < 2 ^ 32
    → ((i : ℕ) → i < length sou → walk mem.machine (v + i) ≡ some (p + i))
    → (mem' : Memory) × (memcpy mm running v sou mem ≡ some mem') × Copied mem p sou mem'
unfolding memcpy
memcpy_mapped mm running mem v p [] lt page =
    (mem, refl, record { machine = refl; there = tt; below = λ q h. refl; above = λ q h. refl })
memcpy_mapped mm running mem v p (b ∷ sou) lt page =
    let start : v + 0 ≡ v = omega arith in
    let start' : p + 0 ≡ p = omega arith in
    let first =
      write_byte_mapped mm running mem v p b (rw (start, start') at (page 0 (omega arith))) in
    let mem1 : Memory = record mem { bytes = update mem.bytes p b } in
    let (mem', ran, c) =
      memcpy_mapped mm running (record mem { bytes = update mem.bytes p b }) (v + 1) (p + 1) sou
        (omega (arith, lt))
        (λ i h.
          let e : v + (i + 1) ≡ v + 1 + i = omega arith in
          let e' : p + (i + 1) ≡ p + 1 + i = omega arith in
          rw (e, e') at (page (i + 1) (omega (arith, h)))) in
    (
      mem',
      memcpy_step mm running mem mem1 v b sou (omega (arith, lt)) first ∙ ran,
      Copied-cons mem mem' mem.machine p b sou c,
    )

abbrev with_cr3 : ℕ → Machine → Machine
with_cr3 old m = record m { cr3 = old }

-- The switch of the directory around the copy.
copy_to_mm_space_lem :
    (mm running : UserMemory) (mem mem' : Memory) (v : ℕ) (sou : List ℕ)
    → memcpy mm running v sou (set_cr3 (mm.pde / 4096) mem) ≡ some mem'
    → copy_to_mm_space mm running v sou mem ≡ some (set_cr3 mem.machine.cr3 mem')
unfolding copy_to_mm_space
copy_to_mm_space_lem mm running mem mem' v sou h = rw (h, copy_to_mm_space) refl

Copied-set_cr3 :
    (mem mem' : Memory) (m : Machine) (p cr3 old : ℕ) (sou : List ℕ)
    → Copied (record (set_cr3 cr3 mem) { machine = m }) p sou mem'
    → Copied (record mem { machine = record m { cr3 = old } }) p sou (set_cr3 old mem')
Copied-set_cr3 mem mem' m p cr3 old sou c = record {
  machine = ap (with_cr3 old) c.machine;
  there = c.there;
  below = c.below;
  above = c.above;
}

-- The machine with the other task's directory.
abbrev pub inside : UserMemory → Memory → Machine
inside mm mem = (set_cr3 (mm.pde / 4096) mem).machine

-- What is mapped in a machine with the other task's directory is mapped through that directory when
-- only cr3 has changed.
walk-inside :
    (mm : UserMemory) (mem : Memory) (m : Machine) (v p old : ℕ)
    → m.cr3 ≡ mm.pde / 4096
    → mem.machine ≡ record m { cr3 = old }
    → walk m v ≡ some p
    → walk (inside mm mem) v ≡ some p
unfolding walk
walk-inside mm mem m v p old at_cr3 same h = rw (same, ← at_cr3) h

-- A copy that is not empty, within a page of the other task, whose first byte takes the page fault
-- that maps the page.
pub copy_to_mm_space_fault :
    (mm running : UserMemory) (mem : Memory) (m' : Machine) (v f b : ℕ) (sou : List ℕ)
    → walk (inside mm mem) v ≡ none
    → page_int 0xe v false true 8 (some mm) running (inside mm mem) ≡ some (resumes m')
    → walk m' v ≡ some (f * 4096 + v % 4096)
    → v + length (b ∷ sou) < 2 ^ 32
    → v % 4096 + length (b ∷ sou) ≤ 4096
    → (mem' : Memory) × (copy_to_mm_space mm running v (b ∷ sou) mem ≡ some mem')
      × Copied
          (record mem { machine = record m' { cr3 = mem.machine.cr3 } })
          (f * 4096 + v % 4096)
          (b ∷ sou)
          mem'
copy_to_mm_space_fault mm running mem m' v f b sou unmapped ran mapped lt fits =
    let mem0 : Memory = set_cr3 (mm.pde / 4096) mem in
    let p = f * 4096 + v % 4096 in
    let first = write_byte_fault mm running mem0 m' v p b unmapped ran mapped in
    let mem1 : Memory = record { machine = m'; bytes = update mem0.bytes p b } in
    let (mem2, rest, c) =
      memcpy_mapped mm running mem1 (v + 1) (p + 1) sou (omega (arith, lt)) (λ i h.
        let same : (v + 1 + i) / 4096 ≡ v / 4096 = omega (arith, h, fits) in
        let e : f * 4096 + (v + 1 + i) % 4096 ≡ p + 1 + i = omega (arith, h, fits) in
        rw (e) at (walk-page m' v (v + 1 + i) f same mapped)) in
    let all = memcpy_step mm running mem0 mem1 v b sou (omega (arith, lt)) first ∙ rest in
    (
      set_cr3 mem.machine.cr3 mem2,
      copy_to_mm_space_lem mm running mem mem2 v (b ∷ sou) all,
      Copied-set_cr3 mem mem2 m' p (mm.pde / 4096) mem.machine.cr3 (b ∷ sou)
          (Copied-cons mem0 mem2 m' p b sou c),
    )

-- A copy that is not empty, within a page of the other task that has no frame yet, where the page
-- fault finds the directory and its frames: the fault gives the page frame `f`; the bytes lie in the
-- frame at the same offset and no other byte changes; the running task's directory is back in cr3;
-- and through the other task's directory the processor now finds the address in the frame.
pub copy_to_mm_space-Lands :
    (mm running : UserMemory) (mem : Memory) (v f b : ℕ) (sou : List ℕ) (frames : FrameMap)
    → IsSelfMapped (inside mm mem)
    → 0 < f
    → f < 2 ^ 20
    → walk (inside mm mem) v ≡ none
    → walk (inside mm mem) (mm.pde + didx v * 4) ≡ some (mm.pde / 4096 * 4096 + didx v * 4)
    → TableThere (inside mm mem) v f frames ⊎ TableMissing (inside mm mem) mm v f frames
    → v + length (b ∷ sou) < 2 ^ 32
    → v % 4096 + length (b ∷ sou) ≤ 4096
    → (mem' : Memory) × (m' : Machine) × (copy_to_mm_space mm running v (b ∷ sou) mem ≡ some mem')
      × Copied
          (record mem { machine = record m' { cr3 = mem.machine.cr3 } })
          (f * 4096 + v % 4096)
          (b ∷ sou)
          mem'
      × Maps v f frames m'
      × (m'.cr3 ≡ mm.pde / 4096)
      × (walk (inside mm mem') v ≡ some (f * 4096 + v % 4096))
copy_to_mm_space-Lands mm running mem v f b sou frames self pos small unmapped directory table lt
      fits =
    let (m', ran, maps) =
      page_int-Maps (inside mm mem) (some mm) running v 8 f true frames self pos small refl
        directory table in
    let (mem', copy, c) =
      copy_to_mm_space_fault mm running mem m' v f b sou unmapped ran maps.mapped lt fits in
    let in_other = page_int-cr3 0xe v 8 false true (some mm) running (inside mm mem) m' ran in
    (
      mem',
      m',
      copy,
      c,
      maps,
      in_other,
      walk-inside mm mem' m' v (f * 4096 + v % 4096) mem.machine.cr3 in_other c.machine maps.mapped,
    )
