-- ===== src/Start/Words.antt =====
-- Words of the page tables of kernel/mem.c that the translation of an address does not read.
use nar_os.Prelude.{ℕ, ◌≡◌, refl, false, ◌==◌}
use nar_os.Prelude.Words.{update}
use nar_os.Mem.{PageEntry}
use nar_os.Mem.Paging.{Machine, walk}
use nar_os.Mem.Paging.Walk.{dir_word, table_word}

pub walk-update :
    (m : Machine) (v w : ℕ) (e : PageEntry)
    → (dir_word m v == w) ≡ false
    → (table_word m v == w) ≡ false
    → walk (record m { entries = update m.entries w e }) v ≡ walk m v
unfolding walk
walk-update m v w e first second = rw (first, second) refl
