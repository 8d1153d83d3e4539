-- ===== src/Rootfs/Lookup.antt =====
-- Which node `find_inode_by_path` finds once an entry is added behind the others.
use nar_os.Prelude.{
  ap, ◌&&◌, ℕ, ◌+◌, ◌<◌, ◌≡◌, refl, Bool, false, ◌||◌, Option, none, some, List, [], ◌∷◌, ◌++◌,
  arith, ◌==◌, if◌then◌else◌, Bool-cases, inl, inr, ◌∙◌,
}
use nar_os.Prelude.Words.{update}
use nar_os.CString.{CStr, strlen, strcmp, strncmp}
use nar_os.Rootfs.{
  RootInode, PathToInode, Rootfs, matches, find_loop, find_inode_by_path, new_inode, is_zero,
  rootfs_mount,
}

-- The entry's node was given out.
abbrev pub IsGiven : ℕ → Option ℕ → Type 0
IsGiven next none = Unit {0}
IsGiven next (some i) = i < next

abbrev pub AllGiven : ℕ → List PathToInode → Type 0
AllGiven next [] = Unit {0}
AllGiven next (m ∷ ms) = IsGiven next m.file × AllGiven next ms

-- Every entry leads to a node that was given out, or to none.
abbrev pub IsValid : Rootfs → Type 0
IsValid fs = AllGiven fs.next_inode fs.maps

-- Some entry matches.
abbrev pub any_matches : ℕ → (ℕ → RootInode) → CStr → List PathToInode → Bool
any_matches null_type inodes path [] = false
any_matches null_type inodes path (m ∷ ms) =
    matches null_type inodes m path || any_matches null_type inodes path ms

abbrev pub is_found : ℕ → CStr → Rootfs → Bool
is_found null_type path fs = any_matches null_type fs.inodes path fs.maps

pub AllGiven-append :
    (next : ℕ) (ms : List PathToInode) (m : PathToInode)
    → AllGiven next ms
    → IsGiven (next + 1) m.file
    → AllGiven (next + 1) (ms ++ m ∷ [])
AllGiven-append next [] m h g = (g, tt)
AllGiven-append next (x ∷ ms) m h g = (weaken x.file h.0, AllGiven-append next ms m h.1 g)
  where
    weaken : (f : Option ℕ) → IsGiven next f → IsGiven (next + 1) f
    weaken none h = tt
    weaken (some i) h = omega arith

-- A node that was not given out is not read.
matches-update :
    (null_type : ℕ) (inodes : ℕ → RootInode) (next : ℕ) (x : RootInode) (path : CStr)
    → (name : CStr) (file : Option ℕ) → IsGiven next file
    → matches null_type (update inodes next x) (record { path = name; file = file }) path
      ≡ matches null_type inodes (record { path = name; file = file }) path
unfolding matches
matches-update null_type inodes next x path name none h = refl
matches-update null_type inodes next x path name (some i) h =
    ap
      (λ t.
        is_zero (strcmp name path)
        || (is_zero (strncmp name path (strlen name)) && (t.type == rootfs_mount)))
      (update_other next i (omega arith))
  where
    update_other : (next i : ℕ) → i < next → update inodes next x i ≡ inodes i
    update_other next i h = ground arith

find_loop-append :
    (null_type : ℕ) (inodes : ℕ → RootInode) (next : ℕ) (x : RootInode) (path : CStr)
    → (ms : List PathToInode) (m : PathToInode) → AllGiven next ms
    → find_loop null_type (update inodes next x) path (ms ++ m ∷ []) ≡ (
        if any_matches null_type inodes path ms
        then find_loop null_type inodes path ms
        else if matches null_type (update inodes next x) m path
        then m.file
        else none)
unfolding find_loop
find_loop-append null_type inodes next x path [] m h = refl
find_loop-append null_type inodes next x path (y ∷ ms) m h =
    let kept = matches-update null_type inodes next x path y.path y.file h.0 in
    elim (Bool-cases (matches null_type inodes y path)) [
      | inl hit ↦ rw (kept ∙ hit, hit)
      | inr miss ↦ rw (kept ∙ miss, miss) (find_loop-append null_type inodes next x path ms m h.1)
    ]

-- A path that was found before is found as before, and one that was not leads to the new node if
-- the new entry matches it.
pub find_added :
    (null_type : ℕ) (x : RootInode) (path other : CStr) (fs : Rootfs)
    → IsValid fs
    → let m : PathToInode = record { path = path; file = some fs.next_inode } in
      let after = new_inode x fs in
      find_inode_by_path null_type other (record after { maps = fs.maps ++ m ∷ [] }) ≡ (
        if is_found null_type other fs
        then find_inode_by_path null_type other fs
        else if matches null_type after.inodes m other
        then some fs.next_inode
        else none)
unfolding find_inode_by_path
find_added null_type x path other fs v =
    find_loop-append null_type fs.inodes fs.next_inode x other fs.maps
      (record { path = path; file = some fs.next_inode }) v
