-- ===== src/Start/Touch.antt =====
-- The page faults of kernel/mem.c on the pages of the kernel's heap that init of kernel/main.c is the
-- first to write to.
use nar_os.Prelude.{
  ℕ, suc, ◌+◌, ◌*◌, ◌/◌, ◌%◌, ◌<◌, ◌≤◌, ◌≡◌, ◌≢◌, refl, true, false, some, none, List, ◌∷◌, ◌==◌,
  ltb, arith, ap, ◌∙◌,
}
use nar_os.Mem.{FrameMap, entry_init, get_page, didx, tidx, page, user_vma_start}
use nar_os.Mem.Init.{IsClear}
use nar_os.Mem.Paging.{Machine, UserMemory, walk, page_int, kernel_dpl, dpl_of}
use nar_os.Mem.Paging.Walk.{dir_word, table_word}
use nar_os.Mem.Paging.Fault.{mapped_at, map_page-Maps, demand_page-there}
use nar_os.Mem.Paging.Kernel.{IsPlaced}
use nar_os.Mem.Paging.Seen.{IsBlock}
use nar_os.Mem.Paging.User.{touch}
use nar_os.Apic.Wake.{icr_low}
use nar_os.Start.Frames.{first, used, get_page-used}
use nar_os.Start.Heap.{HasTables, table_of, word_of_page, tables-walk}
use nar_os.Start.Words.{walk-update}

module _ (page_dic page_tables : ℕ) (f : FrameMap) (p : IsPlaced page_dic page_tables (first f))
    (pages : List ℕ) (k : ℕ) (m : Machine)
    (t : HasTables page_dic page_tables (first f) f pages k m) (v : ℕ) (heap : 0x2000000 ≤ v)
    (kernel : v < user_vma_start) where
  -- The next frame is at the heap's page `v`.
  abbrev pub touched : Machine
  touched = mapped_at m v (first f + k) (used (suc k) f)

  word : table_word m v ≡ page_tables * 1024 + v / 4096
  word = word_of_page page_dic page_tables (first f) p f pages k m t v kernel

  other : (w : ℕ) → w ≢ page_tables * 1024 + v / 4096 → touched.entries w ≡ m.entries w
  other w ne =
      let apart : (w == table_word m v) ≡ false = rw word (ground (arith, ne)) in rw apart refl

  directory_other :
      (d : ℕ) → d < 1024 → touched.entries (page_dic * 1024 + d) ≡ m.entries (page_dic * 1024 + d)
  directory_other d small =
      other (page_dic * 1024 + d) (λ e. omega (arith, p.disjoint, small, kernel, e))

  directory_at :
      (d : ℕ) → d < 1024 → touched.entries (m.cr3 * 1024 + d) ≡ m.entries (m.cr3 * 1024 + d)
  directory_at d small =
      other (m.cr3 * 1024 + d) (λ e. omega (arith, p.disjoint, small, kernel, t.cr3, e))

  touched_page :
      touched.entries (page_tables * 1024 + v / 4096) ≡ entry_init (first f + k) kernel_dpl
  unfolding dpl_of
  touched_page =
      let here : (page_tables * 1024 + v / 4096 == table_word m v) ≡ true =
        rw word (ground arith) in
      let below : ltb v user_vma_start ≡ true = ground (arith, kernel) in
      rw (here, dpl_of, below) refl

  touched-register : walk touched icr_low ≡ some 0xFF000300
  unfolding walk
  touched-register =
      let first_word : (dir_word m icr_low == table_word m v) ≡ false =
        rw (word, t.cr3) (ground (arith, p.disjoint, kernel)) in
      let second_word : (table_word m icr_low == table_word m v) ≡ false =
        rw (word, t.apic_table) (ground (arith, p.tables_low, p.above, kernel)) in
      walk-update m icr_low (table_word m v) (entry_init (first f + k) (dpl_of v)) first_word
        second_word
      ∙ t.register

  pub touched-HasTables : HasTables page_dic page_tables (first f) f (v ∷ pages) (suc k) touched
  touched-HasTables =
      let last = directory_at 1023 (omega arith) in
      let apic = directory_at 1019 (omega arith) in
      record {
        cr3 = t.cr3;
        frames = refl;
        self = record {
          present = ap (λ e. e.present) last ∙ t.self.present;
          self = ap (λ e. e.index) last ∙ t.self.self;
        };
        slot = λ d small. directory_other d (omega (arith, small)) ∙ t.slot d small;
        direct = λ i small.
            other (page_tables * 1024 + i) (λ e. omega (arith, small, heap, e)) ∙ t.direct i small;
        no_users = ap (λ e. e.present) (directory_at 256 (omega arith)) ∙ t.no_users;
        empty = λ w low high apart.
            ap (λ e. e.present)
              (other (page_tables * 1024 + w / 4096) (λ e. apart.0 (omega (arith, e))))
            ∙ t.empty w low high apart.1;
        apic_table = ap (λ e. e.index) apic ∙ t.apic_table;
        register = touched-register;
      }

  pub touched-IsBlock :
      4096 ≤ first f + k → first f + k < 8192 → v % 4096 ≡ 0 → IsBlock touched v (first f + k)
  unfolding entry_init
  touched-IsBlock high low start =
      let slot =
        directory_at (didx v) (omega arith)
        ∙ table_of page_dic page_tables (first f) p f pages k m t v kernel in
      let place : (page_tables + didx v) * 1024 + tidx v ≡ page_tables * 1024 + v / 4096 =
        omega (arith, kernel) in
      record {
        start = start;
        table = page_tables + didx v;
        directory = ap (λ e. e.index) slot ∙ omega (arith, p.tables_low, kernel);
        table_there = ap (λ e. e.present) slot;
        no_table = λ e. omega (arith, p.tables_low, high, kernel, e);
        there = ap (λ w. (touched.entries w).present) place ∙ ap (λ e. e.present) touched_page;
        frame =
            ap (λ w. (touched.entries w).index) place
            ∙ ap (λ e. e.index) touched_page
            ∙ omega (arith, low);
      }

  -- The first write to a page without a frame is a page fault that maps it.
  pub touch-unmapped :
      (mm : UserMemory)
      → mm.pde ≡ page_dic * 4096
      → walk m v ≡ none
      → IsClear f.total_page f.page_map
      → first f + k < f.total_page
      → first f + k < 8192
      → touch mm v m ≡ some touched
  unfolding touch page_int entry_init
  touch-unmapped mm at unmapped clear room low =
      let table = table_of page_dic page_tables (first f) p f pages k m t v kernel in
      let there : (m.entries (dir_word m v)).present ≡ true = rw table refl in
      let apart : (m.entries (dir_word m v)).index ≢ m.cr3 =
        λ e. omega (arith, p.disjoint, p.tables_low, kernel, t.cr3, ap (λ x. x.index) table, e) in
      let got : get_page m.frames ≡ (page (first f + k), used (suc k) f) =
        ap get_page t.frames ∙ get_page-used k f clear room in
      let maps =
        map_page-Maps m v 0 (first f + k) (used (suc k) f) t.self there apart got
          (omega (arith, p.above)) (omega (arith, low)) in
      let seen : walk m (mm.pde + didx v * 4) ≡ some (m.cr3 * 4096 + didx v * 4) = rw at (
        tables-walk page_dic page_tables (first f) p f pages k m t (page_dic * 4096 + didx v * 4)
          (omega (arith, p.directory_low))
        ∙ ap some (omega (arith, t.cr3))) in
      rw
        (
          touch,
          unmapped,
          page_int,
          demand_page-there m mm v 0 (first f + k) (used (suc k) f) t.self (omega (arith, p.above))
              (omega (arith, low)) seen there,
          maps.0,
        )
        refl
