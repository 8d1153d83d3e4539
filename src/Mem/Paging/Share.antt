-- ===== src/Mem/Paging/Share.antt =====
-- What the page directory that kernel/mem.c makes for a user's task shares with the root task's.
use nar_os.Prelude.{ℕ, ◌+◌, ◌*◌, ◌/◌, ◌%◌, ◌^◌, ◌≡◌, ◌≢◌, ◌<◌, refl, true, false, some, ◌==◌, arith}
use nar_os.Prelude.Words.{update}
use nar_os.Mem.{PageEntry, entry_init, didx, tidx, user_vma_start}
use nar_os.Mem.Paging.{Machine, UserMemory, walk, store, kernel_dpl}
use nar_os.Mem.Paging.Walk.{IsSelfMapped}
use nar_os.Mem.Paging.User.{touch, page_above, copied, copy_page, link_self, init_user_mm_struct}
use nar_os.Mem.Paging.Seen.{
  IsDirect, IsBlock, SeesDirectory, walk-IsDirect, walk-IsBlock, copied-outside, copied-IsDirect,
  copied-IsBlock, copied-SeesDirectory, copied-IsSelfMapped, get_paddr-IsBlock,
}

-- The memory when frame `f` has become a copy of the directory in frame `r`, with itself in its last
-- slot; and the same with `f` in cr3.
abbrev pub user_machine : (r f : ℕ) → Machine → Machine
user_machine r f m = record m {
  entries = update (copied r f m.entries) (f * 1024 + 1023) (entry_init f kernel_dpl);
}

abbrev pub user_space : (r f : ℕ) → Machine → Machine
user_space r f m = record (user_machine r f m) { cr3 = f }

copy_page_lem :
    (m : Machine) (r v f root_pde : ℕ)
    → IsBlock m v f
    → walk m root_pde ≡ some (r * 4096)
    → copy_page v root_pde m ≡ some (record m { entries = copied r f m.entries })
unfolding copy_page
copy_page_lem m r v f root_pde b root =
    let here = walk-IsBlock m v f b in
    let f' : f * 4096 / 4096 ≡ f = omega arith in
    let r' : r * 4096 / 4096 ≡ r = omega arith in rw (here, root, copy_page, f', r') refl

store-IsDirect :
    (m : Machine) (f : ℕ) (e : PageEntry)
    → IsDirect m f
    → store (f * 4096 + 4092) e m
      ≡ some (record m { entries = update m.entries (f * 1024 + 1023) e })
unfolding store
store-IsDirect m f e d =
    let w : (f * 4096 + 4092) / 4 ≡ f * 1024 + 1023 = omega arith in
    rw (walk-IsDirect m f 4092 d (omega arith), store, w) refl

link_self_lem :
    (m : Machine) (f : ℕ)
    → IsDirect m f
    → link_self (f * 4096) m
      ≡ some (
        record { pde = f * 4096; brk = user_vma_start; sbrk = user_vma_start },
        record m { entries = update m.entries (f * 1024 + 1023) (entry_init f kernel_dpl) },
      )
unfolding link_self
link_self_lem m f d =
    let f' : f * 4096 / 4096 ≡ f = omega arith in
    rw (f', store-IsDirect m f (entry_init f kernel_dpl) d, link_self) refl

pub user_space-directory :
    (m : Machine) (r f d : ℕ)
    → d < 1023
    → (user_space r f m).entries (f * 1024 + d) ≡ m.entries (r * 1024 + d)
user_space-directory m r f d h =
    let e1 : (f * 1024 + d == f * 1024 + 1023) ≡ false = ground (arith, h) in
    let e2 : ((f * 1024 + d) / 1024 == f) ≡ true = ground (arith, h) in
    let e3 : (f * 1024 + d) % 1024 ≡ d = omega (arith, h) in rw (e1, e2, e3) refl

pub user_space-table :
    (m : Machine) (r f g o : ℕ)
    → g ≢ f
    → o < 1024
    → (user_space r f m).entries (g * 1024 + o) ≡ m.entries (g * 1024 + o)
user_space-table m r f g o ne h =
    let e1 : (g * 1024 + o == f * 1024 + 1023) ≡ false = ground (arith, ne, h) in
    rw e1 (copied-outside r f g o m.entries ne h)

pub user_space-walk :
    (m : Machine) (r f vaddr : ℕ)
    → didx vaddr < 1023
    → (m.entries (r * 1024 + didx vaddr)).index ≢ f
    → walk (user_space r f m) vaddr ≡ walk (record m { cr3 = r }) vaddr
unfolding walk
user_space-walk m r f vaddr h ne =
    let e1 = user_space-directory m r f (didx vaddr) h in
    let e2 =
      user_space-table m r f (m.entries (r * 1024 + didx vaddr)).index (tidx vaddr) ne
        (omega arith) in
    rw (e1, e2) refl

pub user_space-IsSelfMapped : (m : Machine) (r f : ℕ) → f < 2 ^ 20 → IsSelfMapped (user_space r f m)
unfolding entry_init
user_space-IsSelfMapped m r f h =
    let here : (f * 1024 + 1023 == f * 1024 + 1023) ≡ true = ground arith in
    record { present = rw here refl; self = rw here (omega (arith, h)) }

-- `touched` is the machine when the block's page has been written to.
pub init_user_mm_struct_lem :
    (running : UserMemory) (m touched : Machine) (block root_pde r f : ℕ)
    → touch running (page_above block) m ≡ some touched
    → IsBlock touched (page_above block) f
    → IsDirect touched f
    → IsSelfMapped touched
    → SeesDirectory touched running.pde f
    → walk touched root_pde ≡ some (r * 4096)
    → init_user_mm_struct running block root_pde m
      ≡ some (
        record { pde = f * 4096; brk = user_vma_start; sbrk = user_vma_start },
        user_machine r f touched,
      )
unfolding init_user_mm_struct
init_user_mm_struct_lem running m touched block root_pde r f touches b d self sees root =
    let m' : Machine = record touched { entries = copied r f touched.entries } in
    rw
      (
        touches,
        init_user_mm_struct,
        copy_page_lem touched r (page_above block) f root_pde b root,
        get_paddr-IsBlock m' running.pde (page_above block) f d.small
            (copied-IsSelfMapped touched r f d.no_directory self)
            (copied-SeesDirectory touched r running.pde f sees)
            (copied-IsBlock touched r (page_above block) f d b),
      )
      (link_self_lem m' f (copied-IsDirect touched r f d))

-- If the write to the block's page, or the page fault on it, leaves the page in frame `f`, which is
-- seen at its own address, and the running task's directory shows itself and is seen through a table
-- outside `f`, the call leaves an empty heap at the start of the user's memory and a
-- directory in `f` that shows itself in its last slot and translates every address below that slot
-- as the root task's directory does, unless a table of the latter lies in `f`.
pub init_user_mm_struct-Shares :
    (running : UserMemory) (m touched : Machine) (block root_pde r f vaddr : ℕ)
    → touch running (page_above block) m ≡ some touched
    → IsBlock touched (page_above block) f
    → IsDirect touched f
    → IsSelfMapped touched
    → SeesDirectory touched running.pde f
    → walk touched root_pde ≡ some (r * 4096)
    → didx vaddr < 1023
    → (touched.entries (r * 1024 + didx vaddr)).index ≢ f
    → (init_user_mm_struct running block root_pde m
        ≡ some (
          record { pde = f * 4096; brk = user_vma_start; sbrk = user_vma_start },
          user_machine r f touched,
        ))
      × IsSelfMapped (user_space r f touched)
      × (walk (user_space r f touched) vaddr ≡ walk (record touched { cr3 = r }) vaddr)
init_user_mm_struct-Shares running m touched block root_pde r f vaddr touches b d self sees root h
      ne =
    (
      init_user_mm_struct_lem running m touched block root_pde r f touches b d self sees root,
      user_space-IsSelfMapped touched r f d.small,
      user_space-walk touched r f vaddr h ne,
    )
