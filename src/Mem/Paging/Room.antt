-- ===== src/Mem/Paging/Room.antt =====
-- The room that a user's task of kernel/task.c takes: its directory, which kernel/mem.c has just
-- made, and the frames for a table and two pages.
use nar_os.Prelude.{
  ℕ, ◌+◌, ◌*◌, ◌/◌, ◌%◌, ◌^◌, ◌<◌, ◌≡◌, ◌≢◌, refl, false, none, some, arith, ap, ◌∙◌,
}
use nar_os.Mem.{FrameMap, get_page, didx, tidx, page, user_vma_start}
use nar_os.Mem.Paging.{Machine, UserMemory, walk}
use nar_os.Mem.Paging.Walk.{IsSelfMapped}
use nar_os.Mem.Paging.Fault.{IsReachable, mapped_at, with_table}
use nar_os.Mem.Paging.Seen.{IsDirect, walk-IsDirect}
use nar_os.Mem.Paging.Share.{
  user_space, user_space-directory, user_space-table, user_space-IsSelfMapped, user_space-walk,
}

-- Frame `f`, which the directory gets, and three free frames: one for the table of the user's memory,
-- seen at its own address, and one for each of the two pages.
pub record HasRoom (m : Machine) (f : ℕ) : Type 0 where
  pub own : IsDirect m f
  pub low : f < 2 ^ 18
  pub no_users : (m.entries (m.cr3 * 1024 + 256)).present ≡ false
  pub table : ℕ
  pub table_own : IsDirect m table
  pub table_low : table < 2 ^ 18
  pub table_set : 0 < table
  pub table_apart : table ≢ f
  pub shown_apart : table_own.table ≢ f
  pub own_apart : own.table ≢ table
  pub code : ℕ
  pub code_set : 0 < code
  pub code_small : code < 2 ^ 20
  pub stack : ℕ
  pub stack_set : 0 < stack
  pub stack_small : stack < 2 ^ 20
  pub apart : code ≢ stack
  pub after_table : FrameMap
  pub after_code : FrameMap
  pub after_stack : FrameMap
  pub got_table : get_page m.frames ≡ (page table, after_table)
  pub got_code : get_page after_table ≡ (page code, after_code)
  pub got_stack : get_page after_code ≡ (page stack, after_stack)

-- The page of the code, and the address of the first frame below the top of the stack's page.
abbrev pub code_at : ℕ
code_at = 0x40000000

abbrev pub frame_at : ℕ
frame_at = 0x40001FB0

module _ (m : Machine) (f : ℕ) (r : HasRoom m f) where
  -- The machine with the new directory, with the code's page, and with the stack's.
  abbrev pub space : Machine
  space = user_space m.cr3 f m

  abbrev pub with_code : Machine
  with_code = mapped_at (with_table space code_at r.table r.after_table) code_at r.code r.after_code

  abbrev pub with_stack : Machine
  with_stack = mapped_at with_code frame_at r.stack r.after_stack

  pub space-IsSelfMapped : IsSelfMapped space
  space-IsSelfMapped = user_space-IsSelfMapped m m.cr3 f r.own.small

  pub directory-slot : (space.entries (f * 1024 + 256)).present ≡ false
  directory-slot =
      ap (λ e. e.present) (user_space-directory m m.cr3 f 256 (omega arith)) ∙ r.no_users

  pub space-directory : walk space (f * 4096 + 1024) ≡ some (f * 4096 + 1024)
  space-directory =
      let slot : didx (f * 4096 + 1024) ≡ f / 1024 = omega (arith, r.low) in
      user_space-walk m m.cr3 f (f * 4096 + 1024) (omega (arith, r.low))
        (rw (slot, r.own.directory) r.own.no_table)
      ∙ walk-IsDirect m f 1024 r.own (omega arith)

  pub space-unmapped : walk space code_at ≡ none
  unfolding walk
  space-unmapped = rw directory-slot refl

  abbrev pub mm : UserMemory
  mm = record { pde = f * 4096; brk = user_vma_start; sbrk = user_vma_start }

  pub space-IsReachable :
      (um : UserMemory) → um.pde ≡ f * 4096 → IsReachable space um code_at r.table
  space-IsReachable um at =
      let slot : didx (page r.table) ≡ r.table / 1024 = omega (arith, r.table_low) in
      let place : tidx (page r.table) ≡ r.table % 1024 = omega (arith, r.table_low) in
      let first = user_space-directory m m.cr3 f (r.table / 1024) (omega (arith, r.table_low)) in
      let second =
        user_space-table m m.cr3 f r.table_own.table (r.table % 1024) r.shown_apart (omega arith) in
      record {
        directory = rw at space-directory;
        table_slot = rw (slot, first) r.table_own.table_there;
        table_frame = rw (slot, first, r.table_own.directory) r.shown_apart;
        table_present = rw (slot, first, place, r.table_own.directory, second) r.table_own.there;
        table_identity = rw (slot, first, place, r.table_own.directory, second) r.table_own.direct;
        other_slot = omega (arith, r.table_low, slot);
      }
