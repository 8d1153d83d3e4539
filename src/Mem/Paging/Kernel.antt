-- ===== src/Mem/Paging/Kernel.antt =====
-- The tables that kernel/mem.c builds before it turns paging on.
use nar_os.Prelude.{
  ℕ, zero, suc, ◌+◌, ◌*◌, ◌/◌, ◌^◌, ◌≡◌, ◌≢◌, ◌<◌, ◌≤◌, refl, true, false, ◌&&◌, ◌||◌, ==_iff,
  Option, none, some, ◌==◌, ltb, leb, if◌then◌else◌, arith, ◌∙◌, Bool-cases, inl, inr, ◌⊎◌,
}
use nar_os.Prelude.Words.{update}
use nar_os.Mem.{PageEntry, FrameMap, entry_init, get_page, didx, idx, page}
use nar_os.Mem.Paging.{Machine, no_entry, kernel_dpl, user_dpl, apic_mask}

-- A loop over consecutive entries with `n` rounds left: entry `i` at the word `at + i`.
unfoldable pub fill : ℕ → ℕ → (ℕ → PageEntry) → ℕ → (ℕ → PageEntry) → ℕ → PageEntry
fill zero at value i entries = entries
fill (suc n) at value i entries = fill n at value (i + 1) (update entries (at + i) (value i))

-- `pwt` and `pcd` set.
abbrev pub uncached : PageEntry → PageEntry
uncached e = record e { pwt = true; pcd = true }

-- `page_dic` is the frame of the directory and `page_tables` the first of the 256 frames of the
-- kernel's tables. The two nested loops run over the 8 * 1024 entries in order. Paging is off, so the
-- addresses are physical; `none` is NULL from `get_page`, which is not tested. The handler of the
-- page fault is registered besides.
unfoldable pub kernel_pte_init : ℕ → ℕ → Machine → Option Machine
kernel_pte_init page_dic page_tables m =
    let zeroed = λ (w : ℕ).
      if (w / 1024 == page_dic)
        || (leb page_tables (w / 1024) && ltb (w / 1024) (page_tables + 256))
      then no_entry
      else m.entries w in
    let shared = fill 256 (page_dic * 1024) (λ i. entry_init (page_tables + i) user_dpl) 0 zeroed in
    let direct = fill 8192 (page_tables * 1024) (λ i. entry_init i user_dpl) 0 shared in
    let (apic_pte, frames) = get_page m.frames in
    if apic_pte == 0
    then none
    else (let apic =
          fill 1024 (idx apic_pte * 1024)
            (λ i. uncached (entry_init (idx apic_mask + i) kernel_dpl)) 0 direct in
        some (record {
          cr3 = page_dic;
          entries =
              update apic (page_dic * 1024 + didx apic_mask)
                (uncached (entry_init (idx apic_pte) kernel_dpl));
          frames = frames;
        }))

pub fill_outside :
    (n at i w : ℕ) (value entries : ℕ → PageEntry)
    → (w < at + i) ⊎ (at + i + n ≤ w)
    → fill n at value i entries w ≡ entries w
unfolding fill
fill_outside zero at i w value entries h = refl
fill_outside (suc n) at i w value entries h =
    fill_outside n at (i + 1) w value (update entries (at + i) (value i)) (omega (arith, h))
    ∙ ground (arith, h)

pub fill_inside :
    (n at i k : ℕ) (value entries : ℕ → PageEntry)
    → i ≤ k
    → k < i + n
    → fill n at value i entries (at + k) ≡ value k
unfolding fill
fill_inside zero at i k value entries lo hi = absurd (omega (arith, lo, hi))
fill_inside (suc n) at i k value entries lo hi = elim (Bool-cases (k == i)) [
  | inl here ↦
      let e : k ≡ i = (==_iff k i).0 here in
      fill_outside n at (i + 1) (at + k) value (update entries (at + i) (value i))
        (inl (omega (arith, e)))
      ∙ rw e (ground arith)
  | inr later ↦
      fill_inside n at (i + 1) k value (update entries (at + i) (value i))
        (ground (arith, lo, later)) (omega (arith, hi))
]

-- Where the kernel's image and the page for the registers of the interrupt controller lie: the
-- directory and the tables below the kernel's 16 MB and apart, and frame `a` above.
pub record IsPlaced (page_dic page_tables a : ℕ) : Type 0 where
  pub directory_low : page_dic < 4096
  pub tables_low : page_tables + 256 ≤ 4096
  pub disjoint : (page_dic < page_tables) ⊎ (page_tables + 256 ≤ page_dic)
  pub above : 4096 ≤ a
  pub small : a < 2 ^ 20

module _ (page_dic page_tables a : ℕ) (v : IsPlaced page_dic page_tables a) (m : Machine)
    (g : FrameMap) where
  unfoldable pub zeroed : ℕ → PageEntry
  zeroed w =
      if (w / 1024 == page_dic)
        || (leb page_tables (w / 1024) && ltb (w / 1024) (page_tables + 256))
      then no_entry
      else m.entries w

  unfoldable pub shared : ℕ → PageEntry
  shared = fill 256 (page_dic * 1024) (λ i. entry_init (page_tables + i) user_dpl) 0 zeroed

  unfoldable pub direct : ℕ → PageEntry
  direct = fill 8192 (page_tables * 1024) (λ i. entry_init i user_dpl) 0 shared

  unfoldable pub apic : ℕ → PageEntry
  apic = fill 1024 (a * 1024) (λ i. uncached (entry_init (idx apic_mask + i) kernel_dpl)) 0 direct

  -- The machine that `kernel_pte_init` leaves.
  unfoldable pub kernel_machine : Machine
  kernel_machine = record {
    cr3 = page_dic;
    entries = update apic (page_dic * 1024 + didx apic_mask) (uncached (entry_init a kernel_dpl));
    frames = g;
  }

  pub kernel_pte_init_lem :
      get_page m.frames ≡ (page a, g) → kernel_pte_init page_dic page_tables m ≡ some kernel_machine
  unfolding kernel_pte_init kernel_machine apic direct shared zeroed
  kernel_pte_init_lem got =
      let set : (page a == 0) ≡ false = ground (arith, v.above, v.small) in
      let frame : idx (page a) ≡ a = omega (arith, v.small) in rw (got, set, frame) refl

  -- A word of the directory, but that for the interrupt controller.
  pub directory_word :
      (d : ℕ)
      → d < 1024
      → d ≢ 1019
      → kernel_machine.entries (page_dic * 1024 + d) ≡ shared (page_dic * 1024 + d)
  unfolding kernel_machine apic direct
  directory_word d small ne =
      let slot : (page_dic * 1024 + d == page_dic * 1024 + didx apic_mask) ≡ false =
        ground (arith, ne) in
      rw slot (
        fill_outside 1024 (a * 1024) 0 (page_dic * 1024 + d) _ direct
          (omega (arith, v.directory_low, v.above))
        ∙ fill_outside 8192 (page_tables * 1024) 0 (page_dic * 1024 + d) _ shared
            (omega (arith, v.disjoint)))

  -- A word of the kernel's tables.
  pub tables_word :
      (i : ℕ)
      → i < 262144
      → kernel_machine.entries (page_tables * 1024 + i) ≡ direct (page_tables * 1024 + i)
  unfolding kernel_machine apic
  tables_word i small =
      let slot : (page_tables * 1024 + i == page_dic * 1024 + didx apic_mask) ≡ false =
        ground (arith, v.disjoint, small) in
      rw slot (
        fill_outside 1024 (a * 1024) 0 (page_tables * 1024 + i) _ direct
          (omega (arith, v.tables_low, v.above, small)))
