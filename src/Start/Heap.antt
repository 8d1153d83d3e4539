-- ===== src/Start/Heap.antt =====
-- The tables behind the parts that init of kernel/main.c starts, whatever pages of the kernel's heap
-- have frames by then.
use nar_os.Prelude.{
  ℕ, ◌+◌, ◌*◌, ◌/◌, ◌%◌, ◌^◌, ◌<◌, ◌≤◌, ◌≡◌, ◌≢◌, refl, false, some, none, List, [], ◌∷◌, arith, ap,
}
use nar_os.Mem.{FrameMap, entry_init, didx, tidx, user_vma_start}
use nar_os.Mem.Paging.{Machine, walk, user_dpl}
use nar_os.Mem.Paging.Walk.{IsSelfMapped, dir_word, table_word}
use nar_os.Mem.Paging.Kernel.{IsPlaced}
use nar_os.Mem.Paging.Seen.{IsDirect, SeesDirectory}
use nar_os.Apic.Wake.{icr_low}
use nar_os.Start.Frames.{used}

-- The address lies in no page of the list.
abbrev pub Apart : ℕ → List ℕ → Type 0
Apart v [] = Unit {0}
Apart v (w ∷ ws) = (v / 4096 ≢ w / 4096) × Apart v ws

-- The root task's tables when the pages of the addresses `pages` may have frames, and the first `k`
-- frames of `f` are in use: the directory in its own last slot, the 256 tables of the kernel, the
-- first 32 MB at their own addresses, the page of the registers of the interrupt controller, and
-- nothing else.
pub record HasTables (page_dic page_tables a : ℕ) (f : FrameMap) (pages : List ℕ) (k : ℕ)
    (m : Machine) : Type 0 where
  pub cr3 : m.cr3 ≡ page_dic
  pub frames : m.frames ≡ used k f
  pub self : IsSelfMapped m
  pub slot :
      (d : ℕ) → d < 256 → m.entries (page_dic * 1024 + d) ≡ entry_init (page_tables + d) user_dpl
  pub direct : (i : ℕ) → i < 8192 → m.entries (page_tables * 1024 + i) ≡ entry_init i user_dpl
  pub no_users : (m.entries (m.cr3 * 1024 + 256)).present ≡ false
  pub empty :
      (v : ℕ)
      → 0x2000000 ≤ v
      → v < user_vma_start
      → Apart v pages
      → (m.entries (page_tables * 1024 + v / 4096)).present ≡ false
  pub apic_table : (m.entries (dir_word m icr_low)).index ≡ a
  pub register : walk m icr_low ≡ some 0xFF000300

module _ (page_dic page_tables a : ℕ) (p : IsPlaced page_dic page_tables a) (f : FrameMap)
    (pages : List ℕ) (k : ℕ) (m : Machine) (t : HasTables page_dic page_tables a f pages k m) where
  module _ (v : ℕ) (kernel : v < user_vma_start) where
    pub table_of : m.entries (dir_word m v) ≡ entry_init (page_tables + didx v) user_dpl
    table_of = rw (t.cr3) (t.slot (didx v) (omega (arith, kernel)))

    pub word_of_page : table_word m v ≡ page_tables * 1024 + v / 4096
    unfolding entry_init
    word_of_page = rw table_of (omega (arith, p.tables_low, kernel))

  -- A frame above the kernel's 16 MB and in the 32 MB is seen at its own address.
  pub tables-IsDirect : (h : ℕ) → 4096 ≤ h → h < 8192 → IsDirect m h
  unfolding entry_init
  tables-IsDirect h above below =
      let slot = t.slot (h / 1024) (omega (arith, below)) in
      let word : (page_tables + h / 1024) * 1024 + h % 1024 ≡ page_tables * 1024 + h =
        omega arith in
      let there = t.direct h below in
      record {
        small = omega (arith, below);
        no_directory = λ e. omega (arith, p.directory_low, above, t.cr3, e);
        table = page_tables + h / 1024;
        directory = rw (t.cr3, slot) (omega (arith, p.tables_low, below));
        table_there = rw (t.cr3, slot) refl;
        no_table = λ e. omega (arith, p.tables_low, above, below, e);
        there = rw (word, there) refl;
        direct = rw (word, there) (omega (arith, below));
      }

  pub IsDirect-table : (h : ℕ) → h < 8192 → (d : IsDirect m h) → d.table < 4096
  unfolding entry_init
  IsDirect-table h below d =
      let slot = t.slot (h / 1024) (omega (arith, below)) in
      let index : (m.entries (m.cr3 * 1024 + h / 1024)).index ≡ (page_tables + h / 1024) % 2 ^ 20 =
        rw (t.cr3, slot) refl in
      omega (arith, d.directory, index, p.tables_low, below)

  -- The first 32 MB are where they were.
  pub tables-walk : (vaddr : ℕ) → vaddr < 0x2000000 → walk m vaddr ≡ some vaddr
  unfolding walk entry_init
  tables-walk vaddr small =
      let slot = t.slot (didx vaddr) (omega (arith, small)) in
      let frame : (page_tables + didx vaddr) % 2 ^ 20 ≡ page_tables + didx vaddr =
        omega (arith, p.tables_low, small) in
      let word : (page_tables + didx vaddr) * 1024 + tidx vaddr
          ≡ page_tables * 1024 + vaddr / 4096 =
        omega (arith, small) in
      let there = t.direct (vaddr / 4096) (omega (arith, small)) in
      rw (t.cr3, slot, frame, word, there) (ap some (omega (arith, small)))

  -- The directory is seen at its own address.
  pub tables-SeesDirectory : (h : ℕ) → 4096 ≤ h → SeesDirectory m (page_dic * 4096) h
  unfolding entry_init
  tables-SeesDirectory h above =
      let slot = t.slot (didx (page_dic * 4096)) (omega (arith, p.directory_low)) in
      let word : (page_tables + page_dic / 1024) * 1024 + tidx (page_dic * 4096)
          ≡ page_tables * 1024 + page_dic =
        omega (arith, p.directory_low) in
      let there = t.direct page_dic (omega (arith, p.directory_low)) in
      record {
        start = omega arith;
        no_directory = λ e. omega (arith, p.directory_low, above, t.cr3, e);
        table = page_tables + page_dic / 1024;
        directory = rw (t.cr3, slot) (omega (arith, p.tables_low, p.directory_low));
        table_there = rw (t.cr3, slot) refl;
        no_table = λ e. omega (arith, p.tables_low, p.directory_low, above, e);
        there = rw (word, there) refl;
        frame = rw (word, there, t.cr3) (omega (arith, p.directory_low));
      }

  -- A page of the kernel's heap that no address of the list lies in has no frame.
  pub tables-unmapped :
      (v : ℕ) → 0x2000000 ≤ v → v < user_vma_start → Apart v pages → walk m v ≡ none
  unfolding walk entry_init
  tables-unmapped v heap kernel apart =
      let word : (page_tables + didx v) * 1024 + tidx v ≡ page_tables * 1024 + v / 4096 =
        omega (arith, kernel) in
      let frame : (page_tables + didx v) % 2 ^ 20 ≡ page_tables + didx v =
        omega (arith, p.tables_low, kernel) in
      rw (table_of v kernel, frame, word, t.empty v heap kernel apart) refl
