-- ===== src/Mem/Paging/Fresh.antt =====
-- The first two pages of a user's task that kernel/task.c fills: what the page faults of the copies
-- leave in the tables.
use nar_os.Prelude.{
  ℕ, ◌+◌, ◌*◌, ◌/◌, ◌%◌, ◌<◌, ◌≡◌, ◌≢◌, refl, true, false, none, some, ◌==◌, arith, if◌then◌else◌,
  ap, ◌∙◌, sym,
}
use nar_os.Mem.{entry_init, didx, tidx}
use nar_os.Mem.Paging.{page_int, resumes, Machine, UserMemory, walk, no_entry, dpl_of}
use nar_os.Mem.Paging.Walk.{IsSelfMapped}
use nar_os.Mem.Paging.Fault.{
  TableMissing, demand_page-missing, demand_page-there, add_table-Maps, map_page-Maps, TableThere,
  with_table, with_table-entry,
}
use nar_os.Mem.Paging.Share.{user_space-directory, user_space-table}
use nar_os.Mem.Paging.Room.{
  HasRoom, code_at, frame_at, space, with_code, with_stack, space-IsReachable, space-directory,
  directory-slot, space-IsSelfMapped, mm,
}

-- The translation, when the two entries are known.
walk_entries :
    (m : Machine) (v t g : ℕ)
    → (m.entries (m.cr3 * 1024 + didx v)).present ≡ true
    → (m.entries (m.cr3 * 1024 + didx v)).index ≡ t
    → (m.entries (t * 1024 + tidx v)).present ≡ true
    → (m.entries (t * 1024 + tidx v)).index ≡ g
    → walk m v ≡ some (g * 4096 + v % 4096)
unfolding walk
walk_entries m v t g there index there' index' = rw (there, index, there', index') refl

module _ (m : Machine) (f : ℕ) (r : HasRoom m f) where
  -- What the first fault leaves in the words of the tables.
  table_entry :
      (with_table (space m f r) code_at r.table r.after_table).entries (f * 1024 + 256)
      ≡ entry_init r.table (dpl_of code_at)
  table_entry =
      with_table-entry (space m f r) (mm m f r) code_at r.table r.after_table
        ((space-IsReachable m f r) (mm m f r) refl) r.table_own.small r.table_apart

  table_index :
      ((with_table (space m f r) code_at r.table r.after_table).entries (f * 1024 + 256)).index
      ≡ r.table
  unfolding entry_init
  table_index = rw table_entry (omega (arith, r.table_own.small))

  with_code-word :
      (w : ℕ)
      → (with_code m f r).entries w ≡ (
          if w == r.table * 1024 + 0
          then entry_init r.code (dpl_of code_at)
          else (with_table (space m f r) code_at r.table r.after_table).entries w)
  with_code-word w = rw table_index refl

  -- A word outside the new table that is not the directory's slot for it.
  with_code-outside :
      (g o : ℕ)
      → g ≢ r.table
      → o < 1024
      → (g * 1024 + o == f * 1024 + 256) ≡ false
      → (with_code m f r).entries (g * 1024 + o) ≡ (space m f r).entries (g * 1024 + o)
  with_code-outside g o ne h slot =
      let e1 : (g * 1024 + o == r.table * 1024 + 0) ≡ false = ground (arith, ne, h) in
      let e2 : ((g * 1024 + o) / 1024 == r.table) ≡ false = ground (arith, ne, h) in
      with_code-word (g * 1024 + o) ∙ rw (e1, e2, slot) refl

  with_code-slot : (with_code m f r).entries (f * 1024 + 256) ≡ entry_init r.table (dpl_of code_at)
  with_code-slot =
      let e : (f * 1024 + 256 == r.table * 1024 + 0) ≡ false = ground (arith, r.table_apart) in
      with_code-word (f * 1024 + 256) ∙ rw e table_entry

  with_code-first :
      (with_code m f r).entries (r.table * 1024 + 0) ≡ entry_init r.code (dpl_of code_at)
  with_code-first =
      let e : (r.table * 1024 + 0 == r.table * 1024 + 0) ≡ true = ground arith in
      with_code-word (r.table * 1024 + 0) ∙ rw e refl

  with_code-second : (with_code m f r).entries (r.table * 1024 + 1) ≡ no_entry
  with_code-second =
      let e : (r.table * 1024 + 1 == r.table * 1024 + 0) ≡ false = ground arith in
      let e' : ((r.table * 1024 + 1) / 1024 == r.table) ≡ true = ground arith in
      with_code-word (r.table * 1024 + 1) ∙ rw (e, e') refl

  pub with_code-IsSelfMapped : IsSelfMapped (with_code m f r)
  with_code-IsSelfMapped =
      let apart : f ≢ r.table = λ e. r.table_apart (sym e) in
      let same = with_code-outside f 1023 apart (omega arith) (ground arith) in
      record {
        present = ap (λ e. e.present) same ∙ (space-IsSelfMapped m f r).present;
        self = ap (λ e. e.index) same ∙ (space-IsSelfMapped m f r).self;
      }

  slot_index : ((with_code m f r).entries (f * 1024 + 256)).index ≡ r.table
  unfolding entry_init
  slot_index = rw with_code-slot (omega (arith, r.table_own.small))

  slot_present : ((with_code m f r).entries (f * 1024 + 256)).present ≡ true
  unfolding entry_init
  slot_present = rw with_code-slot refl

  pub with_code-TableThere : TableThere (with_code m f r) frame_at r.stack r.after_stack
  with_code-TableThere = record {
    there = slot_present;
    frame = λ e. r.table_apart (sym slot_index ∙ e);
    got = r.got_stack;
  }

  pub with_code-unmapped : walk (with_code m f r) frame_at ≡ none
  unfolding walk
  with_code-unmapped = rw (slot_index, slot_present, with_code-second) refl

  pub with_code-directory : walk (with_code m f r) (f * 4096 + 1024) ≡ some (f * 4096 + 1024)
  unfolding walk
  with_code-directory =
      let slot : didx (f * 4096 + 1024) ≡ f / 1024 = omega (arith, r.low) in
      let place : tidx (f * 4096 + 1024) ≡ f % 1024 = omega (arith, r.low) in
      let apart : f ≢ r.table = λ e. r.table_apart (sym e) in
      let first =
        with_code-outside f (f / 1024) apart (omega (arith, r.low)) (ground (arith, r.low))
        ∙ user_space-directory m m.cr3 f (f / 1024) (omega (arith, r.low)) in
      let second =
        with_code-outside r.own.table (f % 1024) r.own_apart (omega arith)
          (ground (arith, r.own.no_table))
        ∙ user_space-table m m.cr3 f r.own.table (f % 1024) r.own.no_table (omega arith) in
      let rest : (f * 4096 + 1024) % 4096 ≡ 1024 = omega arith in
      rw
        (
          slot, place, first, r.own.directory, r.own.table_there, second, r.own.there, r.own.direct,
          rest,
        )
        refl

  with_stack-word :
      (w : ℕ)
      → (with_stack m f r).entries w ≡ (
          if w == r.table * 1024 + 1
          then entry_init r.stack (dpl_of frame_at)
          else (with_code m f r).entries w)
  with_stack-word w = rw slot_index refl

  with_stack-other :
      (w : ℕ)
      → (w == r.table * 1024 + 1) ≡ false
      → (with_stack m f r).entries w ≡ (with_code m f r).entries w
  with_stack-other w e = with_stack-word w ∙ rw e refl

  with_stack-second :
      (with_stack m f r).entries (r.table * 1024 + 1) ≡ entry_init r.stack (dpl_of frame_at)
  with_stack-second =
      let e : (r.table * 1024 + 1 == r.table * 1024 + 1) ≡ true = ground arith in
      with_stack-word (r.table * 1024 + 1) ∙ rw e refl

  stack_slot :
      (with_stack m f r).entries (f * 1024 + 256) ≡ (with_code m f r).entries (f * 1024 + 256)
  stack_slot = with_stack-other (f * 1024 + 256) (ground (arith, r.table_apart))

  -- Both pages are mapped in the end.
  pub with_stack-code : walk (with_stack m f r) code_at ≡ some (r.code * 4096 + 0)
  unfolding entry_init
  with_stack-code =
      let second = with_stack-other (r.table * 1024 + 0) (ground arith) ∙ with_code-first in
      walk_entries (with_stack m f r) code_at r.table r.code
        (ap (λ e. e.present) stack_slot ∙ slot_present) (ap (λ e. e.index) stack_slot ∙ slot_index)
        (ap (λ e. e.present) second) (ap (λ e. e.index) second ∙ omega (arith, r.code_small))

  pub with_stack-frame : walk (with_stack m f r) frame_at ≡ some (r.stack * 4096 + 0xFB0)
  unfolding entry_init
  with_stack-frame =
      walk_entries (with_stack m f r) frame_at r.table r.stack
        (ap (λ e. e.present) stack_slot ∙ slot_present) (ap (λ e. e.index) stack_slot ∙ slot_index)
        (ap (λ e. e.present) with_stack-second)
        (ap (λ e. e.index) with_stack-second ∙ omega (arith, r.stack_small))

  -- The two faults.
  pub page_int-code :
      (um running : UserMemory)
      → um.pde ≡ f * 4096
      → page_int 0xe code_at false true 8 (some um) running (space m f r)
        ≡ some (resumes (with_code m f r))
  unfolding page_int
  page_int-code um running at =
      let h : TableMissing (space m f r) um code_at r.code r.after_code = record {
        missing = directory-slot m f r;
        in_user = omega arith;
        in_front = λ e. omega (arith, e);
        table = r.table;
        after = r.after_table;
        got_table = r.got_table;
        got = r.got_code;
        reachable = space-IsReachable m f r um at;
        set = r.table_set;
        small = r.table_own.small;
        apart = r.table_apart;
      } in
      demand_page-missing (space m f r) um code_at 0 r.code r.after_code (space-IsSelfMapped m f r)
        r.code_set r.code_small (rw at (space-directory m f r)) h.missing
      ∙ (add_table-Maps (space m f r) um code_at 0 r.code r.after_code (space-IsSelfMapped m f r)
          r.code_set r.code_small h).0

  pub page_int-frame :
      (um running : UserMemory)
      → um.pde ≡ f * 4096
      → page_int 0xe frame_at false true 8 (some um) running (with_code m f r)
        ≡ some (resumes (with_stack m f r))
  unfolding page_int
  page_int-frame um running at =
      demand_page-there (with_code m f r) um frame_at 0 r.stack r.after_stack with_code-IsSelfMapped
        r.stack_set r.stack_small (rw at with_code-directory) slot_present
      ∙ (map_page-Maps (with_code m f r) frame_at 0 r.stack r.after_stack with_code-IsSelfMapped
          slot_present with_code-TableThere.frame r.got_stack r.stack_set r.stack_small).0

  -- The code's page behind the first fault.
  pub with_code-walk : walk (with_code m f r) code_at ≡ some (r.code * 4096 + 0)
  unfolding entry_init
  with_code-walk =
      walk_entries (with_code m f r) code_at r.table r.code slot_present slot_index
        (ap (λ e. e.present) with_code-first)
        (ap (λ e. e.index) with_code-first ∙ omega (arith, r.code_small))
