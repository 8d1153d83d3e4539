-- ===== src/Mem/Paging.antt =====
-- kernel/mem.c: the page tables and the page fault. The memory that holds tables is a function from
-- the number of a word, the address divided by 4, to the entry in it; the code reaches it through
-- virtual addresses, which the processor translates by `walk`. `none` is a fault inside the kernel's
-- own accesses. The buffers of translations, which the code flushes, are left out.
pub mod Walk
pub mod Fault
pub mod Kernel
pub mod Boot
pub mod Refuse
pub mod User
pub mod Seen
pub mod Share
pub mod Copy
pub mod Lands
pub mod Keep
pub mod Room
pub mod Fresh
mod Tests
use nar_os.Prelude.{
  ℕ, zero, suc, ◌+◌, ◌-◌, ◌*◌, ◌/◌, ◌%◌, ◌^◌, Bool, true, false, ◌&&◌, ◌||◌, not, Option, none,
  some, ltb, leb, ◌==◌, if◌then◌else◌, ◌>>=◌,
}
use nar_os.Prelude.Words.{update}
use nar_os.Mem.{
  PageEntry, FrameMap, entry_init, get_page, didx, tidx, idx, page, user_vma_start,
  kernel_mem_space, pde_mask, get_entry,
}

-- The page directory in cr3, by the number of its frame, the memory, and the frames.
pub record Machine : Type 0 where
  pub cr3 : ℕ
  pub entries : ℕ → PageEntry
  pub frames : FrameMap

-- What the processor makes of a virtual address.
unfoldable pub walk : Machine → ℕ → Option ℕ
walk m vaddr =
    let d = m.entries (m.cr3 * 1024 + didx vaddr) in
    let t = m.entries (d.index * 1024 + tidx vaddr) in
    if d.present && t.present then some (t.index * 4096 + vaddr % 4096) else none

-- A read and a write of an entry at a virtual address, and `memset` of a page with 0.
unfoldable pub load : Machine → ℕ → Option PageEntry
load m vaddr = elim (walk m vaddr) [ none ↦ none | some p ↦ some (m.entries (p / 4)) ]

unfoldable pub store : ℕ → PageEntry → Machine → Option Machine
store vaddr e m = elim (walk m vaddr) [
  | none ↦ none
  | some p ↦ some (record m { entries = update m.entries (p / 4) e })
]

abbrev pub no_entry : PageEntry
no_entry = record {
  present = false;
  write = false;
  user = false;
  pwt = false;
  pcd = false;
  accessed = false;
  dirty = false;
  pat = false;
  global = false;
  ignored = 0;
  index = 0;
}

abbrev pub cleared : ℕ → (ℕ → PageEntry) → ℕ → PageEntry
cleared frame entries w = if w / 1024 == frame then no_entry else entries w

unfoldable pub clear_page : ℕ → Machine → Option Machine
clear_page vaddr m = elim (walk m vaddr) [
  | none ↦ none
  | some p ↦ some (record m { entries = cleared (p / 4096) m.entries })
]

abbrev pub kernel_dpl : ℕ
kernel_dpl = 0

abbrev pub user_dpl : ℕ
user_dpl = 3

abbrev pub apic_mask : ℕ
apic_mask = 0xFEE00000

-- `struct mm_struct` as the page fault reads it; `pde` is a virtual address.
pub record UserMemory : Type 0 where
  pub pde : ℕ
  pub brk : ℕ
  pub sbrk : ℕ

-- `mm->pde = get_cr3()` and the entry of the directory for itself.
unfoldable pub init_mm_struct : Machine → Option (UserMemory × Machine)
init_mm_struct m = do
  m' ← store (m.cr3 * 4096 + didx pde_mask * 4) (entry_init m.cr3 kernel_dpl) m
  some (record { pde = m.cr3 * 4096; brk = user_vma_start; sbrk = user_vma_start }, m')

-- How the page fault ends: the program goes on, its task ends, or the kernel panics.
pub data FaultOutcome : Type 0 where
  resumes : Machine → FaultOutcome
  exits : FaultOutcome
  panics : FaultOutcome

unfoldable pub dpl_of : ℕ → ℕ
dpl_of vaddr = if ltb vaddr user_vma_start then kernel_dpl else user_dpl

abbrev pub fault : ℕ → FaultOutcome
fault dpl = if dpl == 0 then panics else exits

-- From the page table on, which is there.
unfoldable pub map_page : ℕ → ℕ → Machine → Option FaultOutcome
map_page vaddr dpl m =
    let (pm, frames) = get_page m.frames in
    if pm == 0
    then some (fault dpl)
    else (elim (store (get_entry vaddr) (entry_init (idx pm) (dpl_of vaddr))
        (record m { frames = frames })) [ none ↦ none | some m' ↦ some (resumes m') ])

-- A new page table. The `assert` is the test of the address.
unfoldable pub add_table : ℕ → ℕ → UserMemory → Machine → Option FaultOutcome
add_table vaddr dpl mm m =
    if ltb vaddr user_vma_start
    then some panics
    else (let (table, frames) = get_page m.frames in
        if table == 0
        then some (fault dpl)
        else (elim (store (mm.pde + didx vaddr * 4) (entry_init (idx table) (dpl_of vaddr))
              (record m { frames = frames })
            >>= clear_page table) [ none ↦ none | some m' ↦ map_page vaddr dpl m' ]))

-- The address is not mapped, and the task may use it.
unfoldable pub demand_page : ℕ → ℕ → UserMemory → Machine → Option FaultOutcome
demand_page vaddr dpl mm m = elim (load m (mm.pde + didx vaddr * 4)) [
  | none ↦ none
  | some e ↦ if e.present then map_page vaddr dpl m else add_table vaddr dpl mm m
]

abbrev pub dpl_at : ℕ → ℕ
dpl_at cs = if cs == 8 then 0 else 3

-- The two tests on the address: below the user's memory, and outside the heap.
abbrev pub check_passed : ℕ → ℕ → UserMemory → Bool
check_passed vaddr cs mm =
    if (dpl_at cs == 3) && ltb vaddr user_vma_start
    then false
    else (dpl_at cs == 0) || (leb mm.brk vaddr && ltb vaddr mm.sbrk)

-- `present` and `write` are bits of the error code; `proxy_mm` stands in for the task's memory.
unfoldable pub page_int :
    ℕ → ℕ → Bool → Bool → ℕ → Option UserMemory → UserMemory → Machine → Option FaultOutcome
page_int vector vaddr present write cs proxy_mm running_mm m =
    let mm : UserMemory = elim proxy_mm [ none ↦ running_mm | some p ↦ p ] in
    if not (vector == 0xe)
    then some panics
    else if not (check_passed vaddr cs mm)
    then some (fault (dpl_at cs))
    else if not present
    then demand_page vaddr (dpl_at cs) mm m
    else if write
    then some panics
    else some (fault (dpl_at cs))
