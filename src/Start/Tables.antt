-- ===== src/Start/Tables.antt =====
-- The tables that init of kernel/main.c leaves for the root task.
use nar_os.Prelude.{
  ℕ, ◌+◌, ◌*◌, ◌/◌, ◌%◌, ◌^◌, ◌<◌, ◌≡◌, ◌≢◌, refl, true, false, some, [], ◌==◌, arith, ap, ◌∙◌,
}
use nar_os.Prelude.Words.{update}
use nar_os.Mem.{FrameMap, entry_init, didx, user_vma_start}
use nar_os.Mem.Paging.{Machine, walk, store, init_mm_struct, kernel_dpl}
use nar_os.Mem.Paging.Walk.{IsSelfMapped, dir_word, table_word}
use nar_os.Mem.Paging.Kernel.{IsPlaced, kernel_machine}
use nar_os.Mem.Paging.Boot.{
  walk-direct, kernel_slot, cr3_page_dic, walk-apic, apic_slot, empty_slot, direct_word, empty_word,
}
use nar_os.Apic.Wake.{icr_low}
use nar_os.Start.Words.{walk-update}
use nar_os.Start.Frames.{used}
use nar_os.Start.Heap.{HasTables}

module _ (page_dic page_tables a : ℕ) (p : IsPlaced page_dic page_tables a) (m : Machine)
    (g : FrameMap) where
  abbrev k : Machine
  k = kernel_machine page_dic page_tables a p m g

  -- The kernel's tables with the directory in its own last slot.
  abbrev pub root_machine : Machine
  root_machine = record k {
    entries = update k.entries (page_dic * 1024 + 1023) (entry_init page_dic kernel_dpl);
  }

  pub init_mm_struct_lem :
      init_mm_struct k
      ≡ some (
        record { pde = page_dic * 4096; brk = user_vma_start; sbrk = user_vma_start },
        root_machine,
      )
  unfolding init_mm_struct store walk entry_init kernel_machine
  init_mm_struct_lem =
      let here =
        walk-direct page_dic page_tables a p m g (page_dic * 4096 + 4092)
          (omega (arith, p.directory_low)) in
      let w : (page_dic * 4096 + 4092) / 4 ≡ page_dic * 1024 + 1023 = omega arith in
      rw (cr3_page_dic page_dic page_tables a p m g, here, store, w) refl

  pub root_machine-IsSelfMapped : IsSelfMapped root_machine
  unfolding entry_init
  root_machine-IsSelfMapped =
      let here : (page_dic * 1024 + 1023 == page_dic * 1024 + 1023) ≡ true = ground arith in
      let cr3 = cr3_page_dic page_dic page_tables a p m g in
      record {
        present = rw (cr3, here) refl;
        self = rw (cr3, here) (omega (arith, p.directory_low));
      }

  pub root_machine-walk : (vaddr : ℕ) → vaddr < 0x2000000 → walk root_machine vaddr ≡ some vaddr
  unfolding entry_init
  root_machine-walk vaddr low =
      let slot = kernel_slot page_dic page_tables a p m g (didx vaddr) (omega (arith, low)) in
      let cr3 = cr3_page_dic page_dic page_tables a p m g in
      let frame : (page_tables + didx vaddr) % 2 ^ 20 ≡ page_tables + didx vaddr =
        omega (arith, p.tables_low, low) in
      let first : (dir_word k vaddr == page_dic * 1024 + 1023) ≡ false =
        rw cr3 (ground (arith, low)) in
      let second : (table_word k vaddr == page_dic * 1024 + 1023) ≡ false =
        rw (cr3, slot, frame) (ground (arith, p.disjoint, low)) in
      walk-update k vaddr (page_dic * 1024 + 1023) (entry_init page_dic kernel_dpl) first second
      ∙ walk-direct page_dic page_tables a p m g vaddr low

  -- The register that starts other processors.
  pub root_machine-icr_low : walk root_machine icr_low ≡ some 0xFF000300
  unfolding entry_init
  root_machine-icr_low =
      let slot = apic_slot page_dic page_tables a p m g in
      let cr3 = cr3_page_dic page_dic page_tables a p m g in
      let frame : a % 2 ^ 20 ≡ a = omega (arith, p.small) in
      let first : (dir_word k icr_low == page_dic * 1024 + 1023) ≡ false = rw cr3 (ground arith) in
      let second : (table_word k icr_low == page_dic * 1024 + 1023) ≡ false =
        rw (cr3, slot, frame) (ground (arith, p.directory_low, p.above)) in
      walk-update k icr_low (page_dic * 1024 + 1023) (entry_init page_dic kernel_dpl) first second
      ∙ walk-apic page_dic page_tables a p m g icr_low (omega arith) refl

  root_other : (w : ℕ) → w ≢ page_dic * 1024 + 1023 → root_machine.entries w ≡ k.entries w
  root_other w ne =
      let other : (w == page_dic * 1024 + 1023) ≡ false = ground (arith, ne) in rw other refl

  root_tables :
      (i : ℕ)
      → i < 262144
      → root_machine.entries (page_tables * 1024 + i) ≡ k.entries (page_tables * 1024 + i)
  root_tables i small =
      root_other (page_tables * 1024 + i) (λ e. omega (arith, small, e, p.disjoint))

  -- No page of the kernel's heap has a frame, and the first frame is in use.
  pub root_machine-HasTables :
      (f : FrameMap) → g ≡ used 1 f → HasTables page_dic page_tables a f [] 1 root_machine
  unfolding entry_init kernel_machine
  root_machine-HasTables f same =
      let cr3 = cr3_page_dic page_dic page_tables a p m g in
      record {
        cr3 = cr3;
        frames = same;
        self = root_machine-IsSelfMapped;
        slot = λ d small.
            root_other (page_dic * 1024 + d) (λ e. omega (arith, small, e))
            ∙ kernel_slot page_dic page_tables a p m g d small;
        direct = λ i small.
            root_tables i (omega (arith, small)) ∙ direct_word page_dic page_tables a p m g i small;
        no_users =
            ap (λ e. e.present)
              (root_other (page_dic * 1024 + 256) (λ e. omega (arith, e))
                ∙ empty_slot page_dic page_tables a p m g 256 (omega arith) (omega arith)
                    (λ e. omega (arith, e)));
        empty = λ v low high apart.
            ap (λ e. e.present)
              (root_tables (v / 4096) (omega (arith, high))
                ∙ empty_word page_dic page_tables a p m g (v / 4096) (omega (arith, low))
                    (omega (arith, high)));
        apic_table =
            ap (λ e. e.index)
              (root_other (page_dic * 1024 + 1019) (λ e. omega (arith, e))
                ∙ apic_slot page_dic page_tables a p m g)
            ∙ omega (arith, p.small);
        register = root_machine-icr_low;
      }
