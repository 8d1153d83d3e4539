-- ===== src/Rootfs/Nodes.antt =====
-- What the operations that add a node do.
use nar_os.Prelude.{
  ℕ, zero, suc, ◌+◌, ◌-◌, ◌<◌, ◌≡◌, refl, true, false, not, ◌&&◌, Option, none, some, List, [], ◌∷◌,
  ◌++◌, arith, ◌==◌, if◌then◌else◌, Bool-cases, inl, inr, ◌∙◌, ltb, leb, get_or, drop, ap,
}
use nar_os.Prelude.Int.{pos, negsuc}
use nar_os.Prelude.Words.{update}
use nar_os.CString.{CStr, strlen, strcmp, strncmp, strrsep}
use nar_os.CString.Compare.{strcmp_self}
use nar_os.Rootfs.{
  RootInode, PathToInode, Rootfs, matches, find_inode_by_path, new_inode, is_zero, path_exists,
  mkdir, mknod, mount, add_new_inode, dir_inode, dev_inode, mount_inode, name_size, rootfs_mount,
}
use nar_os.Rootfs.Lookup.{IsValid, AllGiven-append, is_found, find_added}

-- The state with a node more and an entry for it.
abbrev pub added : RootInode → CStr → Rootfs → Rootfs
added x path fs = record (new_inode x fs) {
  maps = fs.maps ++ record { path = path; file = some fs.next_inode } ∷ [];
}

path_exists-append_self :
    (path : CStr) (ms : List PathToInode) (file : Option ℕ)
    → path_exists path (ms ++ record { path = path; file = file } ∷ []) ≡ true
unfolding path_exists
path_exists-append_self path [] file = rw (strcmp_self path) refl
path_exists-append_self path (m ∷ ms) file = elim (Bool-cases (is_zero (strcmp path m.path))) [
  | inl hit ↦ rw hit refl
  | inr miss ↦ rw miss (path_exists-append_self path ms file)
]

-- What `mkdir` answers to a path that is not empty and fits in an entry.
pub mkdir_lem :
    (path : CStr) (fs : Rootfs)
    → (strlen path == 0) ≡ false
    → ltb (strlen path) name_size ≡ true
    → mkdir path fs
      ≡ some (
          if (get_or path (strlen path - 1) 0 == b'/') && not (path_exists path fs.maps)
          then (pos 0, added dir_inode path fs)
          else (negsuc 0, fs))
unfolding mkdir
mkdir_lem path fs nonempty fits = elim (Bool-cases (get_or path (strlen path - 1) 0 == b'/')) [
  | inl slash ↦ elim (Bool-cases (path_exists path fs.maps)) [
    | inl old ↦ rw (nonempty, slash, old) refl
    | inr new ↦ rw (nonempty, slash, new, fits) refl
  ]
  | inr no_slash ↦ rw (nonempty, no_slash) refl
]

added-IsValid : (x : RootInode) (path : CStr) (fs : Rootfs) → IsValid fs → IsValid (added x path fs)
added-IsValid x path fs v =
    AllGiven-append fs.next_inode fs.maps (record { path = path; file = some fs.next_inode }) v
      (omega arith)

-- An entry for a node that is no mount matches its own path only.
matches_unmounted :
    (null_type next : ℕ) (inodes : ℕ → RootInode) (x : RootInode) (path other : CStr)
    → (x.type == rootfs_mount) ≡ false
    → matches null_type (update inodes next x) (record { path = path; file = some next }) other
      ≡ is_zero (strcmp path other)
unfolding matches
matches_unmounted null_type next inodes x path other h =
    elim (Bool-cases (is_zero (strcmp path other))) [
      | inl hit ↦ ground (arith, hit)
      | inr miss ↦ elim (Bool-cases (is_zero (strncmp path other (strlen path)))) [
        | inl prefix ↦ ground (arith, h, miss, prefix)
        | inr other_prefix ↦ ground (arith, miss, other_prefix)
      ]
    ]

pub find_added-unmounted :
    (null_type : ℕ) (x : RootInode) (path other : CStr) (fs : Rootfs)
    → IsValid fs
    → (x.type == rootfs_mount) ≡ false
    → find_inode_by_path null_type other (added x path fs) ≡ (
        if is_found null_type other fs
        then find_inode_by_path null_type other fs
        else if is_zero (strcmp path other)
        then some fs.next_inode
        else none)
find_added-unmounted null_type x path other fs v h =
    find_added null_type x path other fs v
    ∙ ap
        (λ b.
          if is_found null_type other fs
          then find_inode_by_path null_type other fs
          else if b
          then some fs.next_inode
          else none)
        (matches_unmounted null_type fs.next_inode fs.inodes x path other h)

-- `mkdir` of a path that ends in a slash, fits in an entry and has no entry yet returns 0 and gives
-- a directory. Afterwards every path that led to a node leads to the same one, the new path too if it
-- did, as below a mounted file system; of the paths that led to none, the new path leads to the
-- directory and every other one still to none. A second `mkdir` of the path returns -1 and changes
-- nothing.
pub mkdir-Adds :
    (null_type : ℕ) (path other : CStr) (fs : Rootfs)
    → IsValid fs
    → (strlen path == 0) ≡ false
    → ltb (strlen path) name_size ≡ true
    → (get_or path (strlen path - 1) 0 == b'/') ≡ true
    → path_exists path fs.maps ≡ false
    → let after = added dir_inode path fs in
      (mkdir path fs ≡ some (pos 0, after))
      × IsValid after
      × (find_inode_by_path null_type other after ≡ (
          if is_found null_type other fs
          then find_inode_by_path null_type other fs
          else if is_zero (strcmp path other)
          then some fs.next_inode
          else none))
      × (mkdir path after ≡ some (negsuc 0, after))
mkdir-Adds null_type path other fs v nonempty fits slash new =
    let again = path_exists-append_self path fs.maps (some fs.next_inode) in
    (
      mkdir_lem path fs nonempty fits ∙ ap some (rw (slash, new) refl),
      added-IsValid dir_inode path fs v,
      find_added-unmounted null_type dir_inode path other fs v refl,
      mkdir_lem path (added dir_inode path fs) nonempty fits ∙ ap some (rw (slash, again) refl),
    )

strlen-drop : (n : ℕ) (s : CStr) → strlen (drop n s) ≡ strlen s - n
unfolding strlen
strlen-drop zero s = omega arith
strlen-drop (suc n) [] = omega arith
strlen-drop (suc n) (c ∷ s) = omega (arith, strlen-drop n s)

-- What `mknod` answers to a path with a separator that fits in an entry, if the entry is given.
pub mknod_lem :
    (path : CStr) (subtype nr sep : ℕ) (fs : Rootfs)
    → strrsep path ≡ some sep
    → strlen path < name_size
    → mknod true path subtype nr fs
      ≡ some (
          if strlen (drop (sep + 1) path) == 0
          then (negsuc 0, fs)
          else (pos 0, added (dev_inode subtype nr) path fs))
unfolding add_new_inode mknod
mknod_lem path subtype nr sep fs found fits =
    elim (Bool-cases (strlen (drop (sep + 1) path) == 0)) [
      | inl unnamed ↦ rw (found, mknod, unnamed) refl
      | inr named ↦
          let name_length = strlen-drop (sep + 1) path in
          let name_fits : ltb (strlen (drop (sep + 1) path)) name_size ≡ true =
            ground (arith, name_length) in
          let dir_fits : leb (sep + 1) name_size ≡ true = ground (arith, name_length) in
          let path_fits : ltb (strlen path) name_size ≡ true = ground arith in
          rw (found, mknod, named, name_fits, dir_fits, path_fits) refl
    ]

-- What `mount` answers to a path that fits in an entry, if the entry is given.
pub mount_lem :
    (sb : ℕ) (path : CStr) (fs : Rootfs)
    → ltb (strlen path) name_size ≡ true
    → mount true sb path fs
      ≡ some
          (pos 0, record (added (mount_inode sb path) path fs) { mounted = fs.mounted ++ sb ∷ [] })
unfolding mount add_new_inode
mount_lem sb path fs fits = rw fits refl
