-- ===== src/Mem/Paging/Copy.antt =====
-- `copy_to_mm_space` of kernel/mem.c: a copy into the memory of another task, whose pages come by
-- page faults on the way. The bytes are those of the frames that hold no tables. `none` is a panic,
-- or a fault inside the kernel's own accesses.
use nar_os.Prelude.{ℕ, ◌/◌, true, false, Option, none, some, List, [], ◌∷◌}
use nar_os.Prelude.Words.{update, add32}
use nar_os.Mem.Paging.{Machine, UserMemory, FaultOutcome, resumes, exits, panics, walk, page_int}

pub record Memory : Type 0 where
  pub machine : Machine
  pub bytes : ℕ → ℕ

-- A write at an address that is mapped.
unfoldable pub store_byte : (vaddr b : ℕ) → Memory → Option Memory
store_byte vaddr b mem = elim (walk mem.machine vaddr) [
  | none ↦ none
  | some p ↦ some (record mem { bytes = update mem.bytes p b })
]

-- The write is tried again behind the fault.
unfoldable pub retry : (vaddr b : ℕ) → FaultOutcome → Memory → Option Memory
retry vaddr b (resumes m) mem = store_byte vaddr b (record mem { machine = m })
retry vaddr b exits mem = none
retry vaddr b panics mem = none

-- One byte of `memcpy` by the kernel, whose code segment is 8, with `proxy_mm` set.
unfoldable pub write_byte : (mm running : UserMemory) (vaddr b : ℕ) → Memory → Option Memory
write_byte mm running vaddr b mem = elim (walk mem.machine vaddr) [
  | some p ↦ store_byte vaddr b mem
  | none ↦ elim (page_int 0xe vaddr false true 8 (some mm) running mem.machine) [
    | none ↦ none
    | some outcome ↦ retry vaddr b outcome mem
  ]
]

unfoldable pub memcpy : (mm running : UserMemory) (des : ℕ) → List ℕ → Memory → Option Memory
memcpy mm running des [] mem = some mem
memcpy mm running des (b ∷ bs) mem = elim (write_byte mm running des b mem) [
  | none ↦ none
  | some mem' ↦ memcpy mm running (add32 des 1) bs mem'
]

abbrev pub set_cr3 : ℕ → Memory → Memory
set_cr3 frame mem = record mem { machine = record mem.machine { cr3 = frame } }

-- `pde` is a physical address.
unfoldable pub copy_to_mm_space :
    (mm running : UserMemory) (des : ℕ) → List ℕ → Memory → Option Memory
copy_to_mm_space mm running des sou mem =
    elim (memcpy mm running des sou (set_cr3 (mm.pde / 4096) mem)) [
      | none ↦ none
      | some mem' ↦ some (set_cr3 mem.machine.cr3 mem')
    ]
