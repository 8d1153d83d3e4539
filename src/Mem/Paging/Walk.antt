-- ===== src/Mem/Paging/Walk.antt =====
-- The recursive window of kernel/mem.c: the last slot of the page directory leads to itself.
use nar_os.Prelude.{
  ℕ, ◌+◌, ◌*◌, ◌/◌, ◌%◌, ◌^◌, ◌≡◌, ◌<◌, refl, true, none, some, arith, Bool-cases, inl, inr, ap,
}
use nar_os.Prelude.Words.{update}
use nar_os.Mem.{PageEntry, Tables, get_paddr, get_entry, didx, tidx}
use nar_os.Mem.Paging.{Machine, walk, load, store}

-- The entry of a directory for an address, and that of a table.
abbrev pub dir_word : Machine → ℕ → ℕ
dir_word m vaddr = m.cr3 * 1024 + didx vaddr

abbrev pub table_word : Machine → ℕ → ℕ
table_word m vaddr = (m.entries (dir_word m vaddr)).index * 1024 + tidx vaddr

pub record IsSelfMapped (m : Machine) : Type 0 where
  pub present : (m.entries (m.cr3 * 1024 + 1023)).present ≡ true
  pub self : (m.entries (m.cr3 * 1024 + 1023)).index ≡ m.cr3

module _ (vaddr : ℕ) where
  didx-get_entry : didx (get_entry vaddr) ≡ 1023
  didx-get_entry = omega arith

  tidx-get_entry : tidx (get_entry vaddr) ≡ didx vaddr
  tidx-get_entry = omega arith

  offset-get_entry : get_entry vaddr % 4096 ≡ tidx vaddr * 4
  offset-get_entry = omega arith

-- The address of an entry in the window leads to the entry, if the directory has its table.
pub walk-get_entry :
    (m : Machine) (vaddr : ℕ)
    → IsSelfMapped m
    → (m.entries (dir_word m vaddr)).present ≡ true
    → walk m (get_entry vaddr) ≡ some ((m.entries (dir_word m vaddr)).index * 4096 + tidx vaddr * 4)
unfolding walk
walk-get_entry m vaddr s there =
    rw
      (didx-get_entry vaddr, tidx-get_entry vaddr, offset-get_entry vaddr, s.self, s.present, there)
      refl

pub word_of : (index slot : ℕ) → slot < 1024 → (index * 4096 + slot * 4) / 4 ≡ index * 1024 + slot
word_of index slot h = omega arith

pub store-get_entry :
    (m : Machine) (vaddr : ℕ) (e : PageEntry)
    → IsSelfMapped m
    → (m.entries (dir_word m vaddr)).present ≡ true
    → store (get_entry vaddr) e m
      ≡ some (record m { entries = update m.entries (table_word m vaddr) e })
unfolding store
store-get_entry m vaddr e s there =
    rw
      (
        walk-get_entry m vaddr s there,
        store,
        word_of (m.entries (dir_word m vaddr)).index (tidx vaddr) (omega arith),
      )
      refl

-- What `get_paddr` reads of a machine, with the running task's directory at the address `pde`.
abbrev pub tables_of : ℕ → Machine → Tables
tables_of pde m = record { pde = pde; entry_at = load m }

pub load-word :
    (m : Machine) (vaddr index slot : ℕ)
    → slot < 1024
    → walk m vaddr ≡ some (index * 4096 + slot * 4)
    → load m vaddr ≡ some (m.entries (index * 1024 + slot))
unfolding load
load-word m vaddr index slot h seen = rw (seen, load, word_of index slot h) refl

-- Where the directory in cr3 shows itself in its last slot and is seen at `pde`, `get_paddr` does not
-- fault: through the address of the entry in the window it finds what the processor's translation
-- finds, and 0 for nothing.
pub get_paddr-walk :
    (m : Machine) (pde vaddr : ℕ)
    → IsSelfMapped m
    → walk m (pde + didx vaddr * 4) ≡ some (m.cr3 * 4096 + didx vaddr * 4)
    → (m.entries (table_word m vaddr)).index < 2 ^ 20
    → get_paddr (tables_of pde m) vaddr ≡ some (elim (walk m vaddr) [ none ↦ 0 | some p ↦ p ])
unfolding get_paddr walk
get_paddr-walk m pde vaddr s seen h =
    let directory = load-word m (pde + didx vaddr * 4) m.cr3 (didx vaddr) (omega arith) seen in
    elim (Bool-cases (m.entries (dir_word m vaddr)).present) [
      | inr e ↦ rw (directory, get_paddr, e) refl
      | inl e ↦
          let d = m.entries (dir_word m vaddr) in
          let entry =
            load-word m (get_entry vaddr) d.index (tidx vaddr) (omega arith)
              (walk-get_entry m vaddr s e) in
          elim (Bool-cases (m.entries (table_word m vaddr)).present) [
            | inr e' ↦ rw (directory, get_paddr, e, entry, e') refl
            | inl e' ↦ rw (directory, get_paddr, e, entry, e') (ap some (omega (arith, h)))
          ]
    ]
