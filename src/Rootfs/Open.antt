-- ===== src/Rootfs/Open.antt =====
-- What `open` answers for the nodes that the root file system gives out.
use nar_os.Prelude.{
  ℕ, ◌+◌, ◌-◌, ◌<◌, ◌≡◌, refl, true, false, none, some, List, [], ◌∷◌, ◌++◌, arith, ◌==◌,
  Bool-cases, inl, inr, ◌∙◌, ltb, drop, ap,
}
use nar_os.Prelude.Int.{pos}
use nar_os.Prelude.Words.{update}
use nar_os.CString.{CStr, strlen, strcmp, strncmp, strrsep}
use nar_os.CString.Compare.{strcmp_self, strncmp-append}
use nar_os.Rootfs.{
  RootInode, PathToInode, Rootfs, matches, find_loop, find_inode_by_path, is_zero, mknod, mount,
  dev_inode, mount_inode, name_size, rootfs_mount, rootfs_open, open_node, mount_node,
  rootfs_get_sb, local, forwards,
}
use nar_os.Rootfs.Lookup.{IsValid, is_found, find_added}
use nar_os.Rootfs.Nodes.{added, mknod_lem, mount_lem, find_added-unmounted}

-- `mknod` of a path with a separator and a name behind it, one that fits in an entry and was not
-- found before, returns 0; then `open` of the path answers with a node of the root file system,
-- which is the one for the device of that subtype and number.
pub rootfs_open-mknod :
    (null_type : ℕ) (path : CStr) (subtype nr sep mode : ℕ) (fs : Rootfs)
    → IsValid fs
    → strrsep path ≡ some sep
    → strlen path < name_size
    → (strlen (drop (sep + 1) path) == 0) ≡ false
    → is_found null_type path fs ≡ false
    → let after = added (dev_inode subtype nr) path fs in
      (mknod true path subtype nr fs ≡ some (pos 0, after))
      × (rootfs_open null_type path mode after ≡ some (local fs.next_inode))
      × (after.inodes fs.next_inode ≡ dev_inode subtype nr)
unfolding rootfs_open
rootfs_open-mknod null_type path subtype nr sep mode fs v found fits named new =
    let x = dev_inode subtype nr in
    let look : find_inode_by_path null_type path (added x path fs) ≡ some fs.next_inode =
      find_added-unmounted null_type x path path fs v refl ∙ rw (new, strcmp_self path) refl in
    let node : update fs.inodes fs.next_inode x fs.next_inode ≡ x = ground arith in
    (
      mknod_lem path subtype nr sep fs found fits ∙ ap some (rw named refl),
      rw (look, rootfs_open, node) refl,
      node,
    )

strlen-snoc : (p : CStr) (c : ℕ) → strlen (p ++ c ∷ []) ≡ strlen p + 1
unfolding strlen
strlen-snoc [] c = refl
strlen-snoc (a ∷ p) c = omega (arith, strlen-snoc p c)

drop-strlen : (p r : CStr) (c : ℕ) → drop (strlen p) ((p ++ c ∷ []) ++ r) ≡ c ∷ r
unfolding strlen
drop-strlen [] r c = refl
drop-strlen (a ∷ p) r c = drop-strlen p r c

-- The entry of a mount matches every path below it.
matches_mounted :
    (null_type next sb : ℕ) (inodes : ℕ → RootInode) (prefix rest : CStr)
    → matches null_type
        (update inodes next (mount_inode sb prefix))
        (record { path = prefix; file = some next })
        (prefix ++ rest)
      ≡ true
unfolding matches
matches_mounted null_type next sb inodes prefix rest =
    let below = strncmp-append prefix rest in
    elim (Bool-cases (is_zero (strcmp prefix (prefix ++ rest)))) [
      | inl same ↦ ground (arith, same)
      | inr deeper ↦ ground (arith, below, deeper)
    ]

open_node-mount :
    (sb i mode : ℕ) (dir rest : CStr)
    → open_node (mount_node sb (dir ++ b'/' ∷ [])) i ((dir ++ b'/' ∷ []) ++ rest) mode
      ≡ some (forwards sb (b'/' ∷ rest) mode)
unfolding open_node
open_node-mount sb i mode dir rest =
    let tail : strlen (dir ++ b'/' ∷ []) - 1 ≡ strlen dir = omega (arith, strlen-snoc dir b'/') in
    let nonempty : (strlen (dir ++ b'/' ∷ []) == 0) ≡ false =
      ground (arith, strlen-snoc dir b'/') in
    rw (nonempty, tail, drop-strlen dir rest b'/') refl

-- `mount` at a path that ends in a slash and fits in an entry returns 0; then `open` of a path below
-- it, one that was not found before, calls `open` of the mounted file system with the rest of the
-- path behind a slash.
pub rootfs_open-mount :
    (null_type sb mode : ℕ) (dir rest : CStr) (fs : Rootfs)
    → IsValid fs
    → ltb (strlen (dir ++ b'/' ∷ [])) name_size ≡ true
    → is_found null_type ((dir ++ b'/' ∷ []) ++ rest) fs ≡ false
    → let prefix = dir ++ b'/' ∷ [] in
      let after = record (added (mount_inode sb prefix) prefix fs) {
        mounted = fs.mounted ++ sb ∷ [];
      } in
      (mount true sb prefix fs ≡ some (pos 0, after))
      × (rootfs_open null_type (prefix ++ rest) mode after ≡ some (forwards sb (b'/' ∷ rest) mode))
unfolding rootfs_open find_inode_by_path
rootfs_open-mount null_type sb mode dir rest fs v fits new =
    let prefix = dir ++ b'/' ∷ [] in
    let x = mount_inode sb prefix in
    let hit = matches_mounted null_type fs.next_inode sb fs.inodes prefix rest in
    let look : find_inode_by_path null_type (prefix ++ rest) (added x prefix fs)
        ≡ some fs.next_inode =
      find_added null_type x prefix (prefix ++ rest) fs v ∙ rw (new, hit) refl in
    let node : update fs.inodes fs.next_inode x fs.next_inode ≡ x = ground arith in
    (
      mount_lem sb prefix fs fits,
      rw (look, rootfs_open, node) (open_node-mount sb fs.next_inode mode dir rest),
    )

first_entry :
    (inodes : ℕ → RootInode) (path : CStr)
    → matches rootfs_mount inodes (record { path = []; file = none }) path ≡ true
unfolding matches strncmp strlen
first_entry inodes path = elim (Bool-cases (is_zero (strcmp [] path))) [
  | inl same ↦ rw same refl
  | inr longer ↦ rw longer refl
]

-- If the byte at the address where NULL's type is read holds 3, the number of a mount, then `find`
-- stops at the first entry of the root file system for every path and answers NULL, whatever was
-- added behind that entry.
pub find_inode_by_path_null :
    (path : CStr) (ms : List PathToInode) (fs : Rootfs)
    → fs.maps ≡ rootfs_get_sb.maps ++ ms
    → find_inode_by_path rootfs_mount path fs ≡ none
unfolding find_inode_by_path find_loop rootfs_get_sb
find_inode_by_path_null path ms fs e = rw (e, first_entry fs.inodes path) refl
