-- ===== src/Mem/Paging/Keep.antt =====
-- The page fault of kernel/mem.c leaves the directory in cr3 as it is.
use nar_os.Prelude.{
  ℕ, ◌+◌, ◌*◌, ◌≡◌, refl, Bool, true, false, Option, none, some, arith, Bool-cases, inl, inr, ltb,
  ◌∙◌, ◌==◌, ◌>>=◌,
}
use nar_os.Mem.{user_vma_start, PageEntry, get_page, entry_init, idx, didx, get_entry}
use nar_os.Mem.Paging.{
  Machine, UserMemory, resumes, store, clear_page, dpl_of, map_page, add_table, demand_page,
  page_int, dpl_at,
}
use nar_os.Mem.Paging.User.{touch}

store-cr3 :
    (vaddr : ℕ) (e : PageEntry) (m m' : Machine) → store vaddr e m ≡ some m' → m'.cr3 ≡ m.cr3
unfolding store
store-cr3 vaddr e m m' h = ground arith

clear_page-cr3 : (vaddr : ℕ) (m m' : Machine) → clear_page vaddr m ≡ some m' → m'.cr3 ≡ m.cr3
unfolding clear_page
clear_page-cr3 vaddr m m' h = ground arith

map_page-cr3 :
    (vaddr dpl : ℕ) (m m' : Machine) → map_page vaddr dpl m ≡ some (resumes m') → m'.cr3 ≡ m.cr3
unfolding map_page
map_page-cr3 vaddr dpl m m' h = ground (
  arith,
  store-cr3 (get_entry vaddr) (entry_init (idx (get_page m.frames).0) (dpl_of vaddr))
      (record m { frames = (get_page m.frames).1 }) m',
)

store_clear-cr3 :
    (vaddr table : ℕ) (e : PageEntry) (m m' : Machine)
    → (store vaddr e m >>= clear_page table) ≡ some m'
    → m'.cr3 ≡ m.cr3
unfolding store clear_page
store_clear-cr3 vaddr table e m m' h = ground arith

-- What a directory entry's table has been put in, the page is mapped through.
then_map-cr3 :
    (vaddr dpl : ℕ) (o : Option Machine) (m m' : Machine)
    → ((x : Machine) → o ≡ some x → x.cr3 ≡ m.cr3)
    → (elim o [ none ↦ none | some x ↦ map_page vaddr dpl x ]) ≡ some (resumes m')
    → m'.cr3 ≡ m.cr3
then_map-cr3 vaddr dpl none m m' keeps h = ground arith
then_map-cr3 vaddr dpl (some x) m m' keeps h = map_page-cr3 vaddr dpl x m' h ∙ keeps x refl

add_table-cr3 :
    (vaddr dpl : ℕ) (mm : UserMemory) (m m' : Machine)
    → add_table vaddr dpl mm m ≡ some (resumes m')
    → m'.cr3 ≡ m.cr3
unfolding add_table
add_table-cr3 vaddr dpl mm m m' h =
    let table = (get_page m.frames).0 in
    let e = entry_init (idx table) (dpl_of vaddr) in
    let with_frames : Machine = record m { frames = (get_page m.frames).1 } in
    elim (Bool-cases (ltb vaddr user_vma_start)) [
      | inl low ↦ let q = rw (add_table, low) at h in ground (arith, q)
      | inr high ↦ elim (Bool-cases (table == 0)) [
        | inl full ↦ let q = rw (add_table, high, full) at h in ground (arith, q)
        | inr set ↦
            then_map-cr3 vaddr dpl
              (store (mm.pde + didx vaddr * 4) e with_frames >>= clear_page table) m m'
              (store_clear-cr3 (mm.pde + didx vaddr * 4) table e with_frames)
              (rw (add_table, high, set) at h)
      ]
    ]

demand_page-cr3 :
    (vaddr dpl : ℕ) (mm : UserMemory) (m m' : Machine)
    → demand_page vaddr dpl mm m ≡ some (resumes m')
    → m'.cr3 ≡ m.cr3
unfolding demand_page
demand_page-cr3 vaddr dpl mm m m' h =
    ground (arith, map_page-cr3 vaddr dpl m m', add_table-cr3 vaddr dpl mm m m')

pub page_int-cr3 :
    (vector vaddr cs : ℕ) (present write : Bool) (proxy : Option UserMemory) (running : UserMemory)
    (m m' : Machine)
    → page_int vector vaddr present write cs proxy running m ≡ some (resumes m')
    → m'.cr3 ≡ m.cr3
unfolding page_int
page_int-cr3 vector vaddr cs present write none running m m' h =
    ground (arith, demand_page-cr3 vaddr (dpl_at cs) running m m')
page_int-cr3 vector vaddr cs present write (some p) running m m' h =
    ground (arith, demand_page-cr3 vaddr (dpl_at cs) p m m')

-- Neither does the write to a page of the kernel's heap that the page fault may interrupt.
pub touch-cr3 :
    (running : UserMemory) (vaddr : ℕ) (m m' : Machine)
    → touch running vaddr m ≡ some m'
    → m'.cr3 ≡ m.cr3
unfolding touch
touch-cr3 running vaddr m m' h =
    ground (arith, page_int-cr3 0xe vaddr 8 false true none running m m')
