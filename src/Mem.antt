-- ===== src/Mem.antt =====
-- kernel/mem.c: addresses, page table entries, and the frame allocator's state.
-- An address is a number below 2 ^ 32.
pub mod Init
pub mod Frames
pub mod Brk
pub mod Paging
mod Tests
use nar_os.Prelude.{
  ℕ, zero, suc, ◌+◌, ◌-◌, ◌*◌, ◌/◌, ◌%◌, ◌^◌, Bool, true, false, ◌&&◌, Option, none, some, List, [],
  ◌∷◌, ltb, leb, ◌==◌, if◌then◌else◌, not,
}
use nar_os.Prelude.Int.{ℤ, pos, negsuc}
use nar_os.Prelude.Words.{add32, sub32, move32, update}

abbrev pub page_size : ℕ
page_size = 4096

-- The macros DIDX, TIDX, IDX and PAGE.
abbrev pub didx : ℕ → ℕ
didx addr = addr / 2 ^ 22 % 1024

abbrev pub tidx : ℕ → ℕ
tidx addr = addr / 2 ^ 12 % 1024

abbrev pub idx : ℕ → ℕ
idx addr = addr / 4096

abbrev pub page : ℕ → ℕ
page i = i * 4096 % 2 ^ 32

abbrev pub kernel_mem_space : ℕ
kernel_mem_space = 0x1000000

abbrev pub kernel_heap_vma_start : ℕ
kernel_heap_vma_start = 0x2000000

abbrev pub user_vma_start : ℕ
user_vma_start = 0x40000000

-- `BITMAP_MASK << 10`, in 32 bits
abbrev pub user_vma_end : ℕ
user_vma_end = 0xFFB00000 * 2 ^ 10 % 2 ^ 32

-- `page_entry_t`
pub record PageEntry : Type 0 where
  pub present : Bool
  pub write : Bool
  pub user : Bool
  pub pwt : Bool
  pub pcd : Bool
  pub accessed : Bool
  pub dirty : Bool
  pub pat : Bool
  pub global : Bool
  pub ignored : ℕ
  pub index : ℕ

-- The index field has 20 bits.
unfoldable pub entry_init : ℕ → ℕ → PageEntry
entry_init i dpl = record {
  present = true;
  write = true;
  user = not (dpl == 0);
  pwt = false;
  pcd = false;
  accessed = false;
  dirty = false;
  pat = false;
  global = false;
  ignored = 0;
  index = i % 2 ^ 20;
}

-- The frame allocator: `page_map[i]` counts the users of frame `i`.
pub record FrameMap : Type 0 where
  pub memory_base : ℕ
  pub memory_size : ℕ
  pub total_page : ℕ
  pub page_map : ℕ → ℕ

-- The loop of `get_page` with `n` rounds left.
unfoldable pub get_page_loop : ℕ → ℕ → (ℕ → ℕ) → Option ℕ
get_page_loop zero i m = none
get_page_loop (suc n) i m =
    let rest = get_page_loop n (i + 1) m in if m i == 0 then some i else rest

-- NULL is 0.
unfoldable pub get_page : FrameMap → ℕ × FrameMap
unfolding get_page_loop
get_page f =
    elim (get_page_loop (f.total_page - idx f.memory_base) (idx f.memory_base) f.page_map) [
      | none ↦ (0, f)
      | some i ↦ (page i, record f { page_map = update f.page_map i 1 })
    ]

-- `none` is a failed `assert`, which panics.
unfoldable pub put_page : ℕ → FrameMap → Option FrameMap
put_page addr f =
    if leb f.memory_base addr && ltb addr (add32 f.memory_base f.memory_size)
    then (if ltb (idx addr) f.total_page
        then (if f.page_map (idx addr) == 0
            then none
            else some
                (record f { page_map = update f.page_map (idx addr) (f.page_map (idx addr) - 1) }))
        else none)
    else none

abbrev pub pde_mask : ℕ
pde_mask = 0xFFC00000

-- The address of the table that the last slot of the directory shows for `vaddr`. `|` joins disjoint
-- bits.
abbrev pub get_pte : ℕ → ℕ
get_pte vaddr = pde_mask + didx vaddr * 2 ^ 12

abbrev pub get_entry : ℕ → ℕ
get_entry vaddr = get_pte vaddr + tidx vaddr * 4

-- What the kernel reads page tables through: the address `running->mm->pde`, and the entry that it
-- finds at a virtual address, `none` where the read is a fault.
pub record Tables : Type 0 where
  pub pde : ℕ
  pub entry_at : ℕ → Option PageEntry

-- 0 where no page is mapped; `none` is a fault of the reads.
unfoldable pub get_paddr : Tables → ℕ → Option ℕ
get_paddr t vaddr = elim (t.entry_at (t.pde + didx vaddr * 4)) [
  | none ↦ none
  | some d ↦ elim d.present [
    | false ↦ some 0
    | true ↦ elim (t.entry_at (get_entry vaddr)) [
      | none ↦ none
      | some e ↦ if e.present then some (page e.index + vaddr % 4096) else some 0
    ]
  ]
]

-- The kernel's memory: the break `ksbrk`, the frames and the tables.
pub record KernelMem : Type 0 where
  pub ksbrk : ℕ
  pub frames : FrameMap
  pub tables : Tables

-- One round of the loop of `kbrk`: `put_page(get_paddr(PAGE(pg)))`.
unfoldable pub release_page : ℕ → KernelMem → Option KernelMem
unfolding get_paddr put_page
release_page pg k = elim (get_paddr k.tables (page pg)) [
  | none ↦ none
  | some p ↦ elim (put_page p k.frames) [ none ↦ none | some f ↦ some (record k { frames = f }) ]
]

-- `for (pg; pg != end; pg++)` with `n` rounds left.
unfoldable pub release_loop : ℕ → ℕ → KernelMem → Option KernelMem
unfolding release_page
release_loop zero pg k = some k
release_loop (suc n) pg k = elim (release_page pg k) [
  | none ↦ none
  | some k' ↦ release_loop n (add32 pg 1) k'
]

-- The pages that `kbrk` releases run from that of the last byte in front of the new break up to,
-- and without, that of the last byte in front of the old one.
abbrev pub release_begin : ℕ → ℕ
release_begin new = idx (sub32 new 1)

abbrev pub release_rounds : ℕ → ℕ → ℕ
release_rounds new old = sub32 (idx (sub32 old 1)) (release_begin new)

-- The old break, or `none` for a panic in `put_page`.
unfoldable pub kbrk : ℤ → KernelMem → Option (ℕ × KernelMem)
unfolding release_loop
kbrk (pos n) k = some (k.ksbrk, record k { ksbrk = move32 k.ksbrk (pos n) })
kbrk (negsuc n) k =
    let new = move32 k.ksbrk (negsuc n) in
    elim (release_loop (release_rounds new k.ksbrk) (release_begin new)
      (record k { ksbrk = new })) [ none ↦ none | some k' ↦ some (k.ksbrk, k') ]

-- `struct mm_struct`: the heap of a task.
pub record MmStruct : Type 0 where
  pub brk : ℕ
  pub sbrk : ℕ

-- The loop of `sbrk` with `n` rounds left.
unfoldable pub sbrk_loop : ℕ → ℕ → FrameMap → Option FrameMap
unfolding put_page
sbrk_loop zero free_page f = some f
sbrk_loop (suc n) free_page f = elim (put_page (free_page * page_size % 2 ^ 32) f) [
  | none ↦ none
  | some f' ↦ sbrk_loop n (add32 free_page 1) f'
]

-- The test of the bounds in `sbrk`.
unfoldable pub sbrk_refuses : ℕ → Bool
sbrk_refuses next_ptr = ltb next_ptr user_vma_start && leb user_vma_end next_ptr

-- `next_ptr / PAGE_SIZE + next_ptr % PAGE_SIZE`
abbrev pub sbrk_page : ℕ → ℕ
sbrk_page ptr = ptr / page_size + ptr % page_size

unfoldable pub sbrk : MmStruct → ℤ → FrameMap → Option (ℕ × MmStruct × FrameMap)
unfolding sbrk_loop sbrk_refuses
sbrk mm increase f =
    let next_ptr = move32 mm.sbrk increase in
    if sbrk_refuses next_ptr then some (2 ^ 32 - 1, mm, f) else (elim increase [
      | pos n ↦ some (mm.sbrk, record mm { sbrk = next_ptr }, f)
      | negsuc n ↦
          elim (sbrk_loop (sub32 (sbrk_page mm.sbrk) (sbrk_page next_ptr)) (sbrk_page next_ptr) f) [
            | none ↦ none
            | some f' ↦ some (mm.sbrk, record mm { sbrk = next_ptr }, f')
          ]
    ])
