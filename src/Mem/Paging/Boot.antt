-- ===== src/Mem/Paging/Boot.antt =====
-- What the processor's translation makes of addresses with the kernel's tables of kernel/mem.c.
use nar_os.Prelude.{
  if◌then◌else◌, ==_iff, ℕ, ◌+◌, ◌*◌, ◌/◌, ◌%◌, ◌^◌, ◌≡◌, ◌≢◌, ◌<◌, ◌≤◌, refl, true, false, ◌&&◌,
  none, some, ◌==◌, ltb, leb, arith, ap, ◌∙◌, Bool-cases, inl, inr,
}
use nar_os.Mem.{FrameMap, entry_init, get_page, didx, tidx, idx, page}
use nar_os.Mem.Paging.{Machine, no_entry, kernel_dpl, user_dpl, apic_mask, walk}
use nar_os.Mem.Paging.Kernel.{
  uncached, kernel_pte_init, fill_inside, fill_outside, IsPlaced, zeroed, shared, direct, apic,
  kernel_machine, kernel_pte_init_lem, directory_word, tables_word,
}

module _ (page_dic page_tables a : ℕ) (v : IsPlaced page_dic page_tables a) (m : Machine)
    (g : FrameMap) where
  abbrev k : Machine
  k = kernel_machine page_dic page_tables a v m g

  pub kernel_slot :
      (d : ℕ) → d < 256 → k.entries (page_dic * 1024 + d) ≡ entry_init (page_tables + d) user_dpl
  unfolding shared
  kernel_slot d small =
      directory_word page_dic page_tables a v m g d (omega (arith, small))
        (λ e. omega (arith, small, e))
      ∙ fill_inside 256 (page_dic * 1024) 0 d _ (zeroed page_dic page_tables a v m g) (omega arith)
          (omega (arith, small))

  pub empty_slot :
      (d : ℕ) → 256 ≤ d → d < 1024 → d ≢ 1019 → k.entries (page_dic * 1024 + d) ≡ no_entry
  unfolding shared zeroed
  empty_slot d low small ne =
      let here : ((page_dic * 1024 + d) / 1024 == page_dic) ≡ true = ground (arith, small) in
      directory_word page_dic page_tables a v m g d small ne
      ∙ fill_outside 256 (page_dic * 1024) 0 (page_dic * 1024 + d) _
          (zeroed page_dic page_tables a v m g) (inr (omega (arith, low)))
      ∙ rw here refl

  pub direct_word : (i : ℕ) → i < 8192 → k.entries (page_tables * 1024 + i) ≡ entry_init i user_dpl
  unfolding direct
  direct_word i small =
      tables_word page_dic page_tables a v m g i (omega (arith, small))
      ∙ fill_inside 8192 (page_tables * 1024) 0 i _ (shared page_dic page_tables a v m g)
          (omega arith) (omega (arith, small))

  pub empty_word : (i : ℕ) → 8192 ≤ i → i < 262144 → k.entries (page_tables * 1024 + i) ≡ no_entry
  unfolding direct shared zeroed
  empty_word i low small =
      let within : (leb page_tables ((page_tables * 1024 + i) / 1024)
            && ltb ((page_tables * 1024 + i) / 1024) (page_tables + 256))
          ≡ true =
        ground (arith, small) in
      let other : ((page_tables * 1024 + i) / 1024 == page_dic) ≡ false =
        ground (arith, v.disjoint, small) in
      tables_word page_dic page_tables a v m g i small
      ∙ fill_outside 8192 (page_tables * 1024) 0 (page_tables * 1024 + i) _
          (shared page_dic page_tables a v m g) (inr (omega (arith, low)))
      ∙ fill_outside 256 (page_dic * 1024) 0 (page_tables * 1024 + i) _
          (zeroed page_dic page_tables a v m g) (omega (arith, v.disjoint, small))
      ∙ rw (other, within) refl

  pub apic_slot : k.entries (page_dic * 1024 + 1019) ≡ uncached (entry_init a kernel_dpl)
  unfolding kernel_machine
  apic_slot =
      let here : (page_dic * 1024 + 1019 == page_dic * 1024 + 1019) ≡ true = ground arith in
      rw here refl

  apic_word :
      (i : ℕ)
      → i < 1024
      → k.entries (a * 1024 + i) ≡ uncached (entry_init (idx apic_mask + i) kernel_dpl)
  unfolding kernel_machine apic
  apic_word i small =
      let slot : (a * 1024 + i == page_dic * 1024 + 1019) ≡ false =
        ground (arith, v.directory_low, v.above, small) in
      rw slot (
        fill_inside 1024 (a * 1024) 0 i _ (direct page_dic page_tables a v m g) (omega arith)
          (omega (arith, small)))

  join : (d t : ℕ) → (page_tables + d) * 1024 + t ≡ page_tables * 1024 + (d * 1024 + t)
  join d t = omega arith

  pub walk-direct : (vaddr : ℕ) → vaddr < 0x2000000 → walk k vaddr ≡ some vaddr
  unfolding walk entry_init kernel_machine
  walk-direct vaddr low =
      let slot = kernel_slot (didx vaddr) (omega (arith, low)) in
      let frame : (page_tables + didx vaddr) % 2 ^ 20 ≡ page_tables + didx vaddr =
        omega (arith, v.tables_low, low) in
      let word = direct_word (didx vaddr * 1024 + tidx vaddr) (omega (arith, low)) in
      rw (slot, frame, join, word) (ap some (omega (arith, low)))

  pub cr3_page_dic : k.cr3 ≡ page_dic
  unfolding kernel_machine
  cr3_page_dic = refl

  pub walk-apic :
      (vaddr : ℕ) → vaddr < 2 ^ 32 → didx vaddr ≡ 1019 → walk k vaddr ≡ some (vaddr + 0x200000)
  unfolding walk entry_init
  walk-apic vaddr low at =
      let frame : a % 2 ^ 20 ≡ a = omega (arith, v.small) in
      let word = apic_word (tidx vaddr) (omega arith) in
      rw (cr3_page_dic, at, apic_slot, frame, word) (ap some (omega (arith, low, at)))

  walk-kernel_heap :
      (vaddr : ℕ) → 0x2000000 ≤ vaddr → didx vaddr < 256 → vaddr < 2 ^ 32 → walk k vaddr ≡ none
  unfolding walk entry_init kernel_machine
  walk-kernel_heap vaddr low slots small =
      let slot = kernel_slot (didx vaddr) slots in
      let frame : (page_tables + didx vaddr) % 2 ^ 20 ≡ page_tables + didx vaddr =
        omega (arith, v.tables_low, slots) in
      let word =
        empty_word (didx vaddr * 1024 + tidx vaddr) (omega (arith, low, small))
          (omega (arith, slots)) in
      rw (slot, frame, join, word) refl

  walk-user : (vaddr : ℕ) → 256 ≤ didx vaddr → didx vaddr ≢ 1019 → walk k vaddr ≡ none
  unfolding walk kernel_machine
  walk-user vaddr high ne = rw (empty_slot (didx vaddr) high (omega arith) ne) refl

  -- With the kernel's image in its 16 MB and a frame for the table of the interrupt controller above
  -- them, `kernel_pte_init` maps the first 32 MB to themselves, maps the 4 MB around the registers of
  -- the controller 2 MB too high, and maps no other address. User code may use the first 32 MB.
  pub kernel_pte_init-walk :
      (vaddr d i : ℕ)
      → get_page m.frames ≡ (page a, g)
      → vaddr < 2 ^ 32
      → d < 256
      → i < 8192
      → (k : Machine) × (kernel_pte_init page_dic page_tables m ≡ some k)
        × (walk k vaddr ≡ (
            if ltb vaddr 0x2000000
            then some vaddr
            else if didx vaddr == 1019
            then some (vaddr + 0x200000)
            else none))
        × ((k.entries (page_dic * 1024 + d)).user ≡ true)
        × ((k.entries (page_tables * 1024 + i)).user ≡ true)
  unfolding entry_init
  kernel_pte_init-walk vaddr d i got small slot word = (
    k,
    kernel_pte_init_lem page_dic page_tables a v m g got,
    elim (Bool-cases (ltb vaddr 0x2000000)) [
      | inl low ↦ rw low (walk-direct vaddr (ground (arith, low)))
      | inr high ↦ elim (Bool-cases (didx vaddr == 1019)) [
        | inl at ↦ rw (high, at) (walk-apic vaddr small ((==_iff _ _).0 at))
        | inr ne ↦
            rw (high, ne)
              (elim (Bool-cases (ltb (didx vaddr) 256)) [
                | inl heap ↦
                    walk-kernel_heap vaddr (ground (arith, high)) (ground (arith, heap)) small
                | inr user ↦ walk-user vaddr (ground (arith, user)) (ground (arith, ne))
              ])
      ]
    ],
    ap (λ e. e.user) (kernel_slot d slot),
    ap (λ e. e.user) (direct_word i word),
  )
