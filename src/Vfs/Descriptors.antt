-- ===== src/Vfs/Descriptors.antt =====
-- Descriptors: which one `sys_open` takes and what the transfers on it do.
use nar_os.Prelude.{
  ℕ, zero, suc, ◌+◌, ◌≤◌, ◌<◌, ◌≡◌, ◌≢◌, refl, true, false, Option, none, some, arith, ltb, leb,
  Bool-cases, inl, inr, ◌==◌,
}
use nar_os.Prelude.Int.{ℤ, pos, negsuc}
use nar_os.Prelude.Words.{update}
use nar_os.CString.{CStr}
use nar_os.Vfs.{
  SuperOperations, InodeOperations, vfs_open, free_fd, sys_open, sys_read, sys_write, fd_nr,
  file_at,
}

module _ {I : Type 0} where
  -- The lowest free descriptor, or the number behind the table.
  pub record IsLowest (list : ℕ → Option I) (from size fd : ℕ) : Type 0 where
    pub low : from ≤ fd
    pub high : fd ≤ size
    pub free : fd < size → list fd ≡ none
    pub taken : (j : ℕ) → from ≤ j → j < fd → list j ≢ none

  free_fd-IsLowest :
      (n from size : ℕ) (list : ℕ → Option I)
      → from + n ≡ size
      → IsLowest list from size (free_fd n from list)
  unfolding free_fd
  free_fd-IsLowest zero from size list e = record {
    low = omega arith;
    high = omega arith;
    free = λ h. absurd (omega arith);
    taken = λ j l h. absurd (omega arith);
  }
  free_fd-IsLowest (suc n) from size list e =
      go (free_fd-IsLowest n (from + 1) size list (omega arith)) (list from) refl
    where
      go :
          IsLowest list (from + 1) size (free_fd n (from + 1) list)
          → (o : Option I) → list from ≡ o
          → IsLowest list from size (elim o [ none ↦ from | some i ↦ free_fd n (from + 1) list ])
      go later none here = record {
        low = omega arith;
        high = omega arith;
        free = λ h. here;
        taken = λ j l h. absurd (omega arith);
      }
      go later (some i) here = record {
        low = omega (arith, later.low);
        high = later.high;
        free = later.free;
        taken = λ j l h. elim (Bool-cases (j == from)) [
          | inl first ↦ ground (arith, here)
          | inr behind ↦ later.taken j (ground arith) h
        ];
      }

  -- With a free descriptor in the table, the lowest one is found.
  free_fd_found :
      (list : ℕ → Option I) (k : ℕ)
      → k < fd_nr
      → list k ≡ none
      → (free_fd fd_nr 0 list ≤ k) × IsLowest list 0 fd_nr (free_fd fd_nr 0 list)
  free_fd_found list k h free =
      let lowest = free_fd-IsLowest fd_nr 0 fd_nr list refl in
      elim (Bool-cases (ltb k (free_fd fd_nr 0 list))) [
        | inl passed ↦ absurd (lowest.taken k (omega arith) (ground arith) free)
        | inr reached ↦ (ground arith, lowest)
      ]

  -- A table without a free descriptor.
  free_fd_full :
      (list : ℕ → Option I) → ((k : ℕ) → k < fd_nr → list k ≢ none) → free_fd fd_nr 0 list ≡ fd_nr
  free_fd_full list all =
      let lowest = free_fd-IsLowest fd_nr 0 fd_nr list refl in
      elim (Bool-cases (ltb (free_fd fd_nr 0 list) fd_nr)) [
        | inl inside ↦ absurd (all _ (ground arith) (lowest.free (ground arith)))
        | inr outside ↦ let h = lowest.high in ground arith
      ]

module _ {I W : Type 0} (super : Option (SuperOperations I W)) (ops : InodeOperations I W) where
  -- A transfer through an inode's pointer, -1 if that is NULL.
  abbrev pub through : Option (W → Option (ℤ × W)) → W → Option (ℤ × W)
  through none w = some (negsuc 0, w)
  through (some f) w = f w

  -- What the two transfers do on a descriptor of an open file.
  through-read :
      (fd : ℤ) (list : ℕ → Option I) (file : I) (w : W)
      → file_at fd list ≡ some (some file)
      → sys_read ops fd list w ≡ through (ops.read file) w
  unfolding sys_read
  through-read fd list file w there = rw (there, sys_read) (settle (ops.read file))
    where
      settle :
          (o : Option (W → Option (ℤ × W)))
          → elim o [ none ↦ some (negsuc 0, w) | some f ↦ f w ] ≡ through o w
      settle none = refl
      settle (some f) = refl

  through-write :
      (fd : ℤ) (list : ℕ → Option I) (file : I) (w : W)
      → file_at fd list ≡ some (some file)
      → sys_write ops fd list w ≡ through (ops.write file) w
  unfolding sys_write
  through-write fd list file w there = rw (there, sys_write) (settle (ops.write file))
    where
      settle :
          (o : Option (W → Option (ℤ × W)))
          → elim o [ none ↦ some (negsuc 0, w) | some f ↦ f w ] ≡ through o w
      settle none = refl
      settle (some f) = refl

  -- If the file system opens the path and the table has a free descriptor, `sys_open` returns the
  -- lowest one and puts the file there; reading and writing on it are those of the file.
  pub sys_open-transfers :
      (path : CStr) (mode k : ℕ) (list : ℕ → Option I) (w after : W) (file : I)
      → k < fd_nr
      → list k ≡ none
      → vfs_open super path mode w ≡ some (some file, after)
      → let fd = free_fd fd_nr 0 list in
        let list' = update list fd (some file) in
        IsLowest list 0 fd_nr fd
        × (fd < fd_nr)
        × (sys_open super path mode list w ≡ some (pos fd, list', after))
        × (sys_read ops (pos fd) list' after ≡ through (ops.read file) after)
        × (sys_write ops (pos fd) list' after ≡ through (ops.write file) after)
  unfolding sys_open sys_read sys_write
  sys_open-transfers path mode k list w after file h free opens =
      let (at_most, lowest) = free_fd_found list k h free in
      let list' = update list (free_fd fd_nr 0 list) (some file) in
      let there : file_at (pos (free_fd fd_nr 0 list)) list' ≡ some (some file) =
        ground (arith, at_most) in
      let small : leb fd_nr (free_fd fd_nr 0 list) ≡ false = ground (arith, at_most) in
      (
        lowest,
        omega (arith, at_most),
        rw (small, opens, sys_open) refl,
        through-read (pos (free_fd fd_nr 0 list)) list' file after there,
        through-write (pos (free_fd fd_nr 0 list)) list' file after there,
      )

module _ {I W : Type 0} (super : Option (SuperOperations I W)) where
  -- With every descriptor in use `sys_open` returns -1 and changes nothing: the file system is not
  -- asked.
  pub sys_open-full :
      (path : CStr) (mode : ℕ) (list : ℕ → Option I) (w : W)
      → ((k : ℕ) → k < fd_nr → list k ≢ none)
      → sys_open super path mode list w ≡ some (negsuc 0, list, w)
  unfolding sys_open
  sys_open-full path mode list w all =
      let full : leb fd_nr (free_fd fd_nr 0 list) ≡ true = rw (free_fd_full list all) refl in
      rw (full, sys_open) refl
