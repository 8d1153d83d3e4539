-- ===== src/Mem/Paging/Refuse.antt =====
-- The faults that kernel/mem.c does not answer with a page.
use nar_os.Prelude.{ℕ, ◌≡◌, ◌≢◌, ◌<◌, ◌≤◌, refl, Bool, false, Option, none, some, ◌==◌, arith, ◌⊎◌}
use nar_os.Mem.{user_vma_start}
use nar_os.Mem.Paging.{Machine, UserMemory, exits, check_passed, page_int}
use nar_os.Mem.Paging.Fault.{chosen}

check_passed-outside :
    (vaddr cs : ℕ) (mm : UserMemory)
    → cs ≢ 8
    → (vaddr < user_vma_start) ⊎ ((vaddr < mm.brk) ⊎ (mm.sbrk ≤ vaddr))
    → check_passed vaddr cs mm ≡ false
check_passed-outside vaddr cs mm user outside = ground (arith, user, outside)

-- Whatever the error code says, a fault of user code below the user's memory or outside the heap of
-- the memory in force ends the task.
pub page_int-exits :
    (m : Machine) (proxy : Option UserMemory) (running : UserMemory) (vaddr cs : ℕ)
    (present write : Bool)
    → cs ≢ 8
    → let mm = chosen proxy running in
      (vaddr < user_vma_start) ⊎ ((vaddr < mm.brk) ⊎ (mm.sbrk ≤ vaddr))
      → page_int 0xe vaddr present write cs proxy running m ≡ some exits
unfolding page_int
page_int-exits m none running vaddr cs present write user outside =
    let dpl : (cs == 8) ≡ false = ground (arith, user) in
    rw (check_passed-outside vaddr cs running user outside, dpl) refl
page_int-exits m (some p) running vaddr cs present write user outside =
    let dpl : (cs == 8) ≡ false = ground (arith, user) in
    rw (check_passed-outside vaddr cs p user outside, dpl) refl
