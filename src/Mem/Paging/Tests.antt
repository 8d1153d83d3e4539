-- ===== src/Mem/Paging/Tests.antt =====
-- Runs of the page tables of kernel/mem.c and instances of the theorems.
use nar_os.Prelude.{
  [], ◌∷◌, ℕ, ◌+◌, ◌*◌, ◌/◌, ◌%◌, ◌≡◌, refl, true, false, ◌&&◌, Option, none, some, ◌==◌, ltb, leb,
  if◌then◌else◌, arith, inl, inr,
}
use nar_os.Prelude.Words.{update}
use nar_os.Mem.{FrameMap, entry_init, get_page, get_paddr, user_vma_start}
use nar_os.Mem.Paging.{
  Machine, UserMemory, FaultOutcome, resumes, exits, panics, walk, load, store, clear_page,
  no_entry, kernel_dpl, user_dpl, dpl_of, map_page, add_table, demand_page, page_int,
}
use nar_os.Mem.Paging.Walk.{IsSelfMapped, tables_of, get_paddr-walk}
use nar_os.Mem.Paging.Fault.{Maps, IsReachable, TableMissing, page_int-Maps}
use nar_os.Mem.Paging.Refuse.{page_int-exits}
use nar_os.Mem.Paging.Kernel.{IsPlaced, kernel_pte_init}
use nar_os.Mem.Paging.Copy.{Memory, copy_to_mm_space}
use nar_os.Mem.Paging.Lands.{Copied, inside, copy_to_mm_space-Lands}
use nar_os.Mem.Paging.Boot.{kernel_pte_init-walk}

abbrev frames_from : ℕ → FrameMap
frames_from used = record {
  memory_base = 0x100000;
  memory_size = 0x10000;
  total_page = 272;
  page_map = λ i. if leb 256 i && ltb i (256 + used) then 1 else 0;
}

-- A directory in frame 1 with itself in the last slot, and a table in frame 2 that maps the first
-- 4 MB to themselves.
abbrev small : Machine
small = record {
  cr3 = 1;
  entries = λ w.
      if w == 2047
      then entry_init 1 kernel_dpl
      else if w == 1024
      then entry_init 2 user_dpl
      else if w / 1024 == 2
      then entry_init (w % 1024) user_dpl
      else no_entry;
  frames = frames_from 0;
}

abbrev task : UserMemory
task = record { pde = 0x1000; brk = user_vma_start; sbrk = user_vma_start + 0x1000 }

abbrev result : Option FaultOutcome → ℕ → ℕ
result (some (resumes m)) v = elim (walk m v) [ none ↦ 0 | some p ↦ p ]
result (some exits) v = 1
result (some panics) v = 2
result none v = 3

faults :
    (result (page_int 0xe 0x40000abc false true 0x23 none task small) 0x40000def ≡ 0x101def)
    × (result (page_int 0xe 0x40001abc false true 0x23 none task small) 0 ≡ 1)
    × (result (page_int 0xe 0x2000000 false true 8 none task small) 0 ≡ 2)
    × (result (page_int 0xe 0x40000abc true true 0x23 none task small) 0 ≡ 2)
    × (result
          (page_int 0xe 0x40000abc false true 0x23 none task
            (record small { frames = frames_from 15 }))
          0
        ≡ 1)
unfolding page_int demand_page add_table map_page load store clear_page walk get_page dpl_of
    entry_init
faults = (refl, refl, refl, refl, refl)

small-IsSelfMapped : IsSelfMapped small
unfolding entry_init
small-IsSelfMapped = record { present = refl; self = refl }

reachable : IsReachable small task 0x40000abc 256
unfolding walk entry_init
reachable = record {
  directory = refl;
  table_slot = refl;
  table_frame = λ e. omega (arith, e);
  table_present = refl;
  table_identity = refl;
  other_slot = λ e. omega (arith, e);
}

abbrev after_two : FrameMap
after_two = record (frames_from 0) {
  page_map = update (update (frames_from 0).page_map 256 1) 257 1;
}

missing : TableMissing small task 0x40000abc 257 after_two
unfolding get_page entry_init
missing = record {
  missing = refl;
  in_user = omega arith;
  in_front = λ e. omega (arith, e);
  table = 256;
  after = record (frames_from 0) { page_map = update (frames_from 0).page_map 256 1 };
  got_table = refl;
  got = refl;
  reachable = reachable;
  set = omega arith;
  small = omega arith;
  apart = λ e. omega (arith, e);
}

page_int-Maps_example :
    (m' : Machine) × (page_int 0xe 0x40000abc false true 0x23 none task small ≡ some (resumes m'))
    × Maps 0x40000abc 257 after_two m'
page_int-Maps_example =
    page_int-Maps small none task 0x40000abc 0x23 257 true after_two small-IsSelfMapped
      (omega arith) (omega arith) refl reachable.directory (inr missing)

abbrev memory : Memory
memory = record { machine = record small { cr3 = 7 }; bytes = λ q. 0 }

no_page : walk (inside task memory) 0x40000abc ≡ none
unfolding walk entry_init
no_page = refl

copy_to_mm_space-Lands_example :
    (mem' : Memory) × (m' : Machine) × (copy_to_mm_space task task 0x40000abc (11 ∷ 22 ∷ []) memory
      ≡ some mem')
    × Copied
        (record memory { machine = record m' { cr3 = 7 } })
        (257 * 4096 + 0xabc)
        (11 ∷ 22 ∷ [])
        mem'
    × Maps 0x40000abc 257 after_two m'
    × (m'.cr3 ≡ 1)
    × (walk (inside task mem') 0x40000abc ≡ some (257 * 4096 + 0xabc))
copy_to_mm_space-Lands_example =
    copy_to_mm_space-Lands task task memory 0x40000abc 257 11 (22 ∷ []) after_two small-IsSelfMapped
      (omega arith) (omega arith) no_page reachable.directory (inr missing) (omega arith)
      (omega arith)

page_int-exits_example : page_int 0xe 0x40001000 false true 0x23 none task small ≡ some exits
page_int-exits_example =
    page_int-exits small none task 0x40001000 0x23 false true (λ e. omega (arith, e))
      (inr (inr (omega arith)))

get_paddr-walk_example :
    get_paddr (tables_of 0x1000 small) 0x3123
    ≡ some (elim (walk small 0x3123) [ none ↦ 0 | some p ↦ p ])
unfolding entry_init walk
get_paddr-walk_example = get_paddr-walk small 0x1000 0x3123 small-IsSelfMapped refl (omega arith)

abbrev boot_frames : FrameMap
boot_frames = record {
  memory_base = 0x1001000;
  memory_size = 0x100000;
  total_page = 0x1100;
  page_map = λ i. 0;
}

abbrev boot : Machine
boot = record { cr3 = 0; entries = λ w. no_entry; frames = boot_frames }

abbrev boot_after : FrameMap
boot_after = record boot_frames { page_map = update boot_frames.page_map 0x1001 1 }

placed : IsPlaced 0x200 0x201 0x1001
placed = record {
  directory_low = omega arith;
  tables_low = omega arith;
  disjoint = inl (omega arith);
  above = omega arith;
  small = omega arith;
}

kernel_pte_init-walk_example :
    (k : Machine) × (kernel_pte_init 0x200 0x201 boot ≡ some k)
    × (walk k 0xFEE00300 ≡ some 0xFF000300)
    × ((k.entries (0x200 * 1024 + 4)).user ≡ true)
    × ((k.entries (0x201 * 1024 + 4096)).user ≡ true)
unfolding get_page
kernel_pte_init-walk_example =
    kernel_pte_init-walk 0x200 0x201 0x1001 placed boot boot_after 0xFEE00300 4 4096 refl
      (omega arith) (omega arith) (omega arith)
