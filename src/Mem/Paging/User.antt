-- ===== src/Mem/Paging/User.antt =====
-- The page directory of a user's task in kernel/mem.c: `init_user_mm_struct`, with the block that
-- kalloc gives as an input. `none` is a fault inside the kernel's own accesses.
use nar_os.Prelude.{
  ℕ, true, false, ◌>>=◌, ◌+◌, ◌-◌, ◌*◌, ◌/◌, ◌%◌, Option, none, some, ◌==◌, if◌then◌else◌,
}
use nar_os.Prelude.Words.{add32}
use nar_os.Mem.{PageEntry, entry_init, get_paddr, didx, idx, user_vma_start, pde_mask}
use nar_os.Mem.Paging.{
  Machine, UserMemory, FaultOutcome, resumes, exits, panics, walk, store, page_int, kernel_dpl,
}
use nar_os.Mem.Paging.Walk.{tables_of}

-- `(block + PAGE_SIZE) & ~0xfff`.
abbrev pub page_above : ℕ → ℕ
page_above block = add32 block 4096 - add32 block 4096 % 4096

abbrev pub copied : (from to : ℕ) → (ℕ → PageEntry) → ℕ → PageEntry
copied from to entries w = if w / 1024 == to then entries (from * 1024 + w % 1024) else entries w

-- What the first write to a page of the kernel's heap finds: the page, or a page fault that maps it.
abbrev pub resumed : FaultOutcome → Option Machine
resumed (resumes m) = some m
resumed exits = none
resumed panics = none

unfoldable pub touch : (running : UserMemory) (vaddr : ℕ) → Machine → Option Machine
touch running vaddr m = elim (walk m vaddr) [
  | some p ↦ some m
  | none ↦ elim (page_int 0xe vaddr false true 8 none running m) [
    | none ↦ none
    | some outcome ↦ resumed outcome
  ]
]

-- `memcpy` of a page of entries between addresses that start a page.
unfoldable pub copy_page : (des sou : ℕ) → Machine → Option Machine
copy_page des sou m = elim (walk m des) [
  | none ↦ none
  | some to ↦ elim (walk m sou) [
    | none ↦ none
    | some from ↦ some (record m { entries = copied (from / 4096) (to / 4096) m.entries })
  ]
]

-- The link of the directory to itself, written at its physical address, and an empty heap.
unfoldable pub link_self : ℕ → Machine → Option (UserMemory × Machine)
link_self pde m = elim (store (pde + didx pde_mask * 4) (entry_init (idx pde) kernel_dpl) m) [
  | none ↦ none
  | some m' ↦ some (record { pde = pde; brk = user_vma_start; sbrk = user_vma_start }, m')
]

-- `running` is the memory of the task that runs.
unfoldable pub init_user_mm_struct :
    (running : UserMemory) (block root_pde : ℕ) → Machine → Option (UserMemory × Machine)
init_user_mm_struct running block root_pde m = do
  touched ← touch running (page_above block) m
  m' ← copy_page (page_above block) root_pde touched
  pde ← get_paddr (tables_of running.pde m') (page_above block)
  link_self pde m'
