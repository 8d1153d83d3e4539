-- ===== src/Start/HeapWrites.antt =====
-- The writes to the kernel's heap that init of kernel/main.c makes in a row.
use nar_os.Prelude.{
  ℕ, suc, ◌+◌, ◌*◌, ◌<◌, ◌≤◌, ◌≡◌, refl, some, List, [], ◌∷◌, arith, ◌∙◌, length, Option-cases, inl,
  inr,
}
use nar_os.Mem.{FrameMap, user_vma_start}
use nar_os.Mem.Init.{IsClear}
use nar_os.Mem.Paging.{Machine, UserMemory, walk}
use nar_os.Mem.Paging.Kernel.{IsPlaced}
use nar_os.Mem.Paging.User.{touch}
use nar_os.Start.{touch_all}
use nar_os.Start.Frames.{first}
use nar_os.Start.Heap.{Apart, HasTables}
use nar_os.Start.Touch.{touched, touched-HasTables, touch-unmapped}

-- The addresses lie in the kernel's heap.
abbrev pub InHeap : List ℕ → Type 0
InHeap [] = Unit {0}
InHeap (v ∷ vs) = (0x2000000 ≤ v) × (v < user_vma_start) × InHeap vs

-- A list of written addresses behind another one.
abbrev pub added : List ℕ → List ℕ → List ℕ
added [] pages = pages
added (v ∷ vs) pages = added vs (v ∷ pages)

pub Apart-added :
    (v : ℕ) (vs pages : List ℕ) → Apart v vs → Apart v pages → Apart v (added vs pages)
Apart-added v [] pages h h' = h'
Apart-added v (w ∷ vs) pages h h' = Apart-added v vs (w ∷ pages) h.1 (h.0, h')

HasTables-more :
    (page_dic page_tables a : ℕ) (f : FrameMap) (pages : List ℕ) (k v : ℕ) (m : Machine)
    → HasTables page_dic page_tables a f pages k m
    → HasTables page_dic page_tables a f (v ∷ pages) k m
HasTables-more page_dic page_tables a f pages k v m t = record {
  cr3 = t.cr3;
  frames = t.frames;
  self = t.self;
  slot = t.slot;
  direct = t.direct;
  no_users = t.no_users;
  empty = λ w low high apart. t.empty w low high apart.1;
  apic_table = t.apic_table;
  register = t.register;
}

touch_mapped : (mm : UserMemory) (v q : ℕ) (m : Machine) → walk m v ≡ some q → touch mm v m ≡ some m
unfolding touch
touch_mapped mm v q m h = rw (h, touch) refl

touch_all-cons :
    (mm : UserMemory) (v : ℕ) (vs : List ℕ) (m m' : Machine)
    → touch mm v m ≡ some m'
    → touch_all mm (v ∷ vs) m ≡ touch_all mm vs m'
unfolding touch_all
touch_all-cons mm v vs m m' h = rw (h, touch_all) refl

module _ (page_dic page_tables : ℕ) (f : FrameMap) (p : IsPlaced page_dic page_tables (first f))
    (clear : IsClear f.total_page f.page_map) (mm : UserMemory)
    (at : mm.pde ≡ page_dic * 4096) where
  -- A write takes at most one frame.
  touch-HasTables :
      (pages : List ℕ) (k v : ℕ) (m : Machine)
      → HasTables page_dic page_tables (first f) f pages k m
      → 0x2000000 ≤ v
      → v < user_vma_start
      → first f + k < f.total_page
      → first f + k < 8192
      → (k' : ℕ) × (m' : Machine) × (touch mm v m ≡ some m')
        × (k ≤ k')
        × (k' ≤ k + 1)
        × HasTables page_dic page_tables (first f) f (v ∷ pages) k' m'
  touch-HasTables pages k v m t heap kernel room low = elim (Option-cases (walk m v)) [
    | inl unmapped ↦ (
      suc k,
      touched page_dic page_tables f p pages k m t v heap kernel,
      touch-unmapped page_dic page_tables f p pages k m t v heap kernel mm at unmapped clear room
          low,
      omega arith,
      omega arith,
      touched-HasTables page_dic page_tables f p pages k m t v heap kernel,
    )
    | inr (q, mapped) ↦ (
      k,
      m,
      touch_mapped mm v q m mapped,
      omega arith,
      omega arith,
      HasTables-more page_dic page_tables (first f) f pages k v m t,
    )
  ]

  pub touch_all-HasTables :
      (vs pages : List ℕ) (k : ℕ) (m : Machine)
      → HasTables page_dic page_tables (first f) f pages k m
      → InHeap vs
      → first f + k + length vs ≤ f.total_page
      → first f + k + length vs ≤ 8192
      → (k' : ℕ) × (m' : Machine) × (touch_all mm vs m ≡ some m')
        × (k ≤ k')
        × (k' ≤ k + length vs)
        × HasTables page_dic page_tables (first f) f (added vs pages) k' m'
  unfolding touch_all
  touch_all-HasTables [] pages k m t heap room low = (k, m, refl, omega arith, omega arith, t)
  touch_all-HasTables (v ∷ vs) pages k m t heap room low =
      let (k1, m1, ran, more, few, t1) =
        touch-HasTables pages k v m t heap.0 heap.1 (omega (arith, room)) (omega (arith, low)) in
      let (k2, m2, ran2, more2, few2, t2) =
        touch_all-HasTables vs (v ∷ pages) k1 m1 t1 heap.2 (omega (arith, room, few))
          (omega (arith, low, few)) in
      (
        k2,
        m2,
        touch_all-cons mm v vs m m1 ran ∙ ran2,
        omega (arith, more, more2),
        omega (arith, few, few2),
        t2,
      )
