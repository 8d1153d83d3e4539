-- ===== src/Mem/Paging/Seen.antt =====
-- Pages of kernel/mem.c that the running task's directory shows, and that stay where they are when a
-- frame becomes a copy of another.
use nar_os.Prelude.{
  ℕ, ◌+◌, ◌*◌, ◌/◌, ◌%◌, ◌^◌, ◌≡◌, ◌≢◌, ◌<◌, refl, true, false, some, ◌==◌, arith, ap,
}
use nar_os.Mem.{PageEntry, get_paddr, didx, tidx}
use nar_os.Mem.Paging.{Machine, walk}
use nar_os.Mem.Paging.Walk.{IsSelfMapped, tables_of, get_paddr-walk}
use nar_os.Mem.Paging.User.{copied}

-- Frame `f` is seen at its own address, and is neither the directory nor the table that shows it.
pub record IsDirect (m : Machine) (f : ℕ) : Type 0 where
  pub small : f < 2 ^ 20
  pub no_directory : m.cr3 ≢ f
  pub table : ℕ
  pub directory : (m.entries (m.cr3 * 1024 + f / 1024)).index ≡ table
  pub table_there : (m.entries (m.cr3 * 1024 + f / 1024)).present ≡ true
  pub no_table : table ≢ f
  pub there : (m.entries (table * 1024 + f % 1024)).present ≡ true
  pub direct : (m.entries (table * 1024 + f % 1024)).index ≡ f

pub walk-IsDirect :
    (m : Machine) (f o : ℕ) → IsDirect m f → o < 4096 → walk m (f * 4096 + o) ≡ some (f * 4096 + o)
unfolding walk
walk-IsDirect m f o d h =
    let e1 : didx (f * 4096 + o) ≡ f / 1024 = omega (arith, h, d.small) in
    let e2 : tidx (f * 4096 + o) ≡ f % 1024 = omega (arith, h, d.small) in
    let e3 : (f * 4096 + o) % 4096 ≡ o = omega (arith, h) in
    rw (e1, e2, e3, d.directory, d.table_there, d.there, d.direct) refl

-- The page at `v` lies in frame `f`, which is no table on the way to it.
pub record IsBlock (m : Machine) (v f : ℕ) : Type 0 where
  pub start : v % 4096 ≡ 0
  pub table : ℕ
  pub directory : (m.entries (m.cr3 * 1024 + didx v)).index ≡ table
  pub table_there : (m.entries (m.cr3 * 1024 + didx v)).present ≡ true
  pub no_table : table ≢ f
  pub there : (m.entries (table * 1024 + tidx v)).present ≡ true
  pub frame : (m.entries (table * 1024 + tidx v)).index ≡ f

pub walk-IsBlock : (m : Machine) (v f : ℕ) → IsBlock m v f → walk m v ≡ some (f * 4096)
unfolding walk
walk-IsBlock m v f d =
    rw (d.directory, d.table_there, d.there, d.frame, d.start) (ap some (omega arith))

-- The directory in cr3 is seen at `pde`, the start of a page, through a table that is not in frame
-- `f`.
pub record SeesDirectory (m : Machine) (pde f : ℕ) : Type 0 where
  pub start : pde % 4096 ≡ 0
  pub no_directory : m.cr3 ≢ f
  pub table : ℕ
  pub directory : (m.entries (m.cr3 * 1024 + didx pde)).index ≡ table
  pub table_there : (m.entries (m.cr3 * 1024 + didx pde)).present ≡ true
  pub no_table : table ≢ f
  pub there : (m.entries (table * 1024 + tidx pde)).present ≡ true
  pub frame : (m.entries (table * 1024 + tidx pde)).index ≡ m.cr3

pub walk-SeesDirectory :
    (m : Machine) (pde f slot : ℕ)
    → SeesDirectory m pde f
    → slot < 1024
    → walk m (pde + slot * 4) ≡ some (m.cr3 * 4096 + slot * 4)
unfolding walk
walk-SeesDirectory m pde f slot d h =
    let e1 : didx (pde + slot * 4) ≡ didx pde = omega (arith, h, d.start) in
    let e2 : tidx (pde + slot * 4) ≡ tidx pde = omega (arith, h, d.start) in
    let e3 : (pde + slot * 4) % 4096 ≡ slot * 4 = omega (arith, h, d.start) in
    rw (e1, e2, e3, d.directory, d.table_there, d.there, d.frame) refl

-- A word outside the copy.
pub copied-outside :
    (r f g o : ℕ) (entries : ℕ → PageEntry)
    → g ≢ f
    → o < 1024
    → copied r f entries (g * 1024 + o) ≡ entries (g * 1024 + o)
copied-outside r f g o entries ne h =
    let other : ((g * 1024 + o) / 1024 == f) ≡ false = ground (arith, ne, h) in rw other refl

pub copied-IsDirect :
    (m : Machine) (r f : ℕ)
    → IsDirect m f
    → IsDirect (record m { entries = copied r f m.entries }) f
copied-IsDirect m r f d =
    let first =
      copied-outside r f m.cr3 (f / 1024) m.entries d.no_directory (omega (arith, d.small)) in
    let second = copied-outside r f d.table (f % 1024) m.entries d.no_table (omega arith) in
    record {
      small = d.small;
      no_directory = d.no_directory;
      table = d.table;
      directory = rw first d.directory;
      table_there = rw first d.table_there;
      no_table = d.no_table;
      there = rw second d.there;
      direct = rw second d.direct;
    }

pub copied-IsBlock :
    (m : Machine) (r v f : ℕ)
    → IsDirect m f
    → IsBlock m v f
    → IsBlock (record m { entries = copied r f m.entries }) v f
copied-IsBlock m r v f d b =
    let first = copied-outside r f m.cr3 (didx v) m.entries d.no_directory (omega arith) in
    let second = copied-outside r f b.table (tidx v) m.entries b.no_table (omega arith) in
    record {
      start = b.start;
      table = b.table;
      directory = rw first b.directory;
      table_there = rw first b.table_there;
      no_table = b.no_table;
      there = rw second b.there;
      frame = rw second b.frame;
    }

pub copied-SeesDirectory :
    (m : Machine) (r pde f : ℕ)
    → SeesDirectory m pde f
    → SeesDirectory (record m { entries = copied r f m.entries }) pde f
copied-SeesDirectory m r pde f d =
    let first = copied-outside r f m.cr3 (didx pde) m.entries d.no_directory (omega arith) in
    let second = copied-outside r f d.table (tidx pde) m.entries d.no_table (omega arith) in
    record {
      start = d.start;
      no_directory = d.no_directory;
      table = d.table;
      directory = rw first d.directory;
      table_there = rw first d.table_there;
      no_table = d.no_table;
      there = rw second d.there;
      frame = rw second d.frame;
    }

pub copied-IsSelfMapped :
    (m : Machine) (r f : ℕ)
    → m.cr3 ≢ f
    → IsSelfMapped m
    → IsSelfMapped (record m { entries = copied r f m.entries })
copied-IsSelfMapped m r f ne s =
    let same = copied-outside r f m.cr3 1023 m.entries ne (omega arith) in
    record { present = rw same s.present; self = rw same s.self }

pub get_paddr-IsBlock :
    (m : Machine) (pde v f : ℕ)
    → f < 2 ^ 20
    → IsSelfMapped m
    → SeesDirectory m pde f
    → IsBlock m v f
    → get_paddr (tables_of pde m) v ≡ some (f * 4096)
get_paddr-IsBlock m pde v f h self sees b =
    let small : (m.entries ((m.entries (m.cr3 * 1024 + didx v)).index * 1024 + tidx v)).index
        < 2 ^ 20 =
      rw (b.directory, b.frame) h in
    rw
      (
        get_paddr-walk m pde v self (walk-SeesDirectory m pde f (didx v) sees (omega arith)) small,
        walk-IsBlock m v f b,
      )
      refl
