-- ===== src/Mem/Init.antt =====
-- `memory_init` of kernel/mem.c: the choice of a memory region and the layout of the frame map.
-- The log calls, the check of the boot flags and `kernel_pte_init` are left out.
use nar_os.Prelude.{
  ℕ, ◌+◌, ◌*◌, ◌/◌, ◌%◌, ◌^◌, ◌≤◌, ◌<◌, ◌≡◌, refl, ap, Bool, true, false, ◌&&◌, List, [], ◌∷◌,
  arith, ltb, ◌==◌, if◌then◌else◌, Bool-cases, ◌⊎◌, inl, inr,
}
use nar_os.Prelude.Words.{add32, sub32}
use nar_os.Mem.{FrameMap, idx, page_size, kernel_mem_space}
use nar_os.Mem.Frames.{IsValid}

-- `multiboot_memory_map_t`: 64-bit address and length, and the type; 1 is usable memory.
pub record MemoryMap : Type 0 where
  pub addr : ℕ
  pub len : ℕ
  pub type : ℕ

-- The pair `memory_base`, `memory_size`.
abbrev pub Region : Type 0
Region = ℕ × ℕ

abbrev pub usable : ℕ → MemoryMap → Bool
usable memory_size m = ltb memory_size (m.len % 2 ^ 32) && (m.type == 1)

-- The loop over the boot loader's map.
unfoldable pub scan_map : Region → List MemoryMap → Region
scan_map r [] = r
scan_map r (m ∷ ms) = scan_map (if usable r.1 m then (m.addr % 2 ^ 32, m.len % 2 ^ 32) else r) ms

-- The pages that the frame map itself takes.
abbrev pub map_pages : ℕ → ℕ
map_pages total = total / page_size + 1

-- The address of `page_map`, and the allocator. `old` is what the memory of the map held before:
-- the loop clears its first `total_page` bytes.
unfoldable pub layout : (ℕ → ℕ) → Region → ℕ × FrameMap
layout old (base, size) =
    let memory_base = add32 base kernel_mem_space in
    let memory_size = sub32 size kernel_mem_space in
    let total_page = idx memory_size in
    (
      memory_base,
      record {
        memory_base = add32 memory_base (map_pages total_page * page_size);
        memory_size = sub32 memory_size (map_pages total_page * page_size);
        total_page = sub32 total_page (map_pages total_page);
        page_map = λ i. if ltb i (sub32 total_page (map_pages total_page)) then 0 else old i;
      },
    )

unfoldable pub memory_init : (ℕ → ℕ) → List MemoryMap → ℕ × FrameMap
unfolding scan_map layout
memory_init old ms = layout old (scan_map (0, 0) ms)

-- `r` is the region of an entry of usable memory.
abbrev pub IsRegionOf : Region → MemoryMap → Type 0
IsRegionOf (base, size) m = (m.type ≡ 1) × (base ≡ m.addr % 2 ^ 32) × (size ≡ m.len % 2 ^ 32)

abbrev pub SomeRegion : Region → List MemoryMap → Type 0
SomeRegion r [] = ⊥
SomeRegion r (m ∷ ms) = IsRegionOf r m ⊎ SomeRegion r ms

-- No usable entry is longer.
abbrev pub IsLongest : ℕ → List MemoryMap → Type 0
IsLongest size [] = Unit {0}
IsLongest size (m ∷ ms) = (m.type ≡ 1 → m.len % 2 ^ 32 ≤ size) × IsLongest size ms

-- What the loop leaves, from `r` on.
record Scanned (r : Region) (ms : List MemoryMap) (out : Region) : Type 0 where
  grows : r.1 ≤ out.1
  longest : IsLongest out.1 ms
  origin : (out ≡ r) ⊎ SomeRegion out ms

Scanned-take :
    {r : Region} {m : MemoryMap} {ms : List MemoryMap} {out : Region}
    → usable r.1 m ≡ true
    → Scanned (m.addr % 2 ^ 32, m.len % 2 ^ 32) ms out
    → Scanned r (m ∷ ms) out
Scanned-take taken s = record {
  grows = ground (arith, s.grows);
  longest = (λ e. s.grows, s.longest);
  origin = elim s.origin [
    | inl e ↦ inr (inl (ground arith, ap (λ o. o.0) e, ap (λ o. o.1) e))
    | inr h ↦ inr (inr h)
  ];
}

Scanned-leave :
    {r : Region} {m : MemoryMap} {ms : List MemoryMap} {out : Region}
    → usable r.1 m ≡ false
    → Scanned r ms out
    → Scanned r (m ∷ ms) out
Scanned-leave left s = record {
  grows = s.grows;
  longest = (λ e. ground (arith, s.grows), s.longest);
  origin = elim s.origin [ inl e ↦ inl e | inr h ↦ inr (inr h) ];
}

scan_map-Scanned : (r : Region) (ms : List MemoryMap) → Scanned r ms (scan_map r ms)
unfolding scan_map
scan_map-Scanned r [] = record { grows = omega arith; longest = tt; origin = inl refl }
scan_map-Scanned r (m ∷ ms) = elim (Bool-cases (usable r.1 m)) [
  | inl taken ↦
      rw taken
        (Scanned-take {r = r} {m = m} taken (scan_map-Scanned (m.addr % 2 ^ 32, m.len % 2 ^ 32) ms))
  | inr left ↦ rw left (Scanned-leave {r = r} {m = m} left (scan_map-Scanned r ms))
]

-- The scan keeps the region of a usable entry, unless it keeps the empty region it began with, and
-- no usable entry has a longer one.
pub scan_map-IsLongest :
    (ms : List MemoryMap)
    → let out = scan_map (0, 0) ms in ((out ≡ (0, 0)) ⊎ SomeRegion out ms) × IsLongest out.1 ms
scan_map-IsLongest ms = let s = scan_map-Scanned (0, 0) ms in (s.origin, s.longest)

-- The first `n` counts are 0.
abbrev pub IsClear : ℕ → (ℕ → ℕ) → Type 0
IsClear n m = (i : ℕ) → i < n → m i ≡ 0

-- A region on a page boundary that holds the kernel's space and a page more is laid out so that the
-- allocator is valid, the frame map lies between the kernel's space and the first frame and has a
-- byte for each page, the frames end where the region ends, and every count is 0.
pub layout-IsValid :
    (old : ℕ → ℕ) (base size : ℕ)
    → base % 4096 ≡ 0
    → base + size < 2 ^ 32
    → kernel_mem_space + 4096 ≤ size
    → let (map, f) = layout old (base, size) in
      IsValid f
      × (base + kernel_mem_space ≤ map)
      × (map + f.total_page ≤ f.memory_base)
      × (f.memory_base + f.memory_size ≡ base + size)
      × IsClear f.total_page f.page_map
unfolding layout
layout-IsValid old base size aligned space room =
    (omega arith, omega arith, omega arith, omega arith, λ i h. ground arith)
