-- ===== src/Rootfs.antt =====
-- kernel/fs/rootfs.c: the root file system, a list from paths to nodes. Nodes are numbered as
-- `kalloc` gives them out; its unchecked calls are taken to succeed. `none` stands for what C leaves
-- undefined: a string that overruns its array, an index in front of a string, a read through NULL
-- that is not the one that `null_type` describes, and for a panic.
pub mod Lookup
pub mod Nodes
pub mod Open
pub mod Transfer
mod Tests
use nar_os.Prelude.{
  ℕ, zero, suc, ◌+◌, ◌-◌, ◌≤◌, ◌<◌, Bool, true, false, not, ◌&&◌, ◌||◌, Option, none, some, List,
  [], ◌∷◌, ◌++◌, ltb, leb, ◌==◌, if◌then◌else◌, drop, get_or,
}
use nar_os.Prelude.Int.{ℤ, pos, negsuc}
use nar_os.Prelude.Words.{update}
use nar_os.CString.{CStr, strlen, strcmp, strncmp, strrsep}
use nar_os.Device.{
  DeviceList, Outcome, returns, panics, device_find, device_id_get, device_read, device_write,
}

abbrev pub rootfs_file : ℕ
rootfs_file = 0

abbrev pub rootfs_dir : ℕ
rootfs_dir = 1

abbrev pub rootfs_dev : ℕ
rootfs_dev = 2

abbrev pub rootfs_mount : ℕ
rootfs_mount = 3

-- What a node's `data` points to: `rootfs_dir_node`, `rootfs_dev_node` or `rootfs_mount_node`. A
-- super block is named by its address, and a directory node holds the name "." only.
pub data NodeData : Type 0 where
  dir_node : NodeData
  dev_node : (subtype nr dev : ℕ) → NodeData
  mount_node : (mount_sb : ℕ) → (prefix : CStr) → NodeData

-- `struct rootfs_inode`
pub record RootInode : Type 0 where
  pub file_size : ℕ
  pub type : ℕ
  pub content : NodeData

-- `struct path_to_inode`; no file is NULL.
pub record PathToInode : Type 0 where
  pub path : CStr
  pub file : Option ℕ

-- The map behind `sb->data`, the nodes and how many were given out, and the super blocks behind the
-- root's own.
pub record Rootfs : Type 0 where
  pub maps : List PathToInode
  pub inodes : ℕ → RootInode
  pub next_inode : ℕ
  pub mounted : List ℕ

abbrev pub name_size : ℕ
name_size = 64

abbrev pub is_zero : ℤ → Bool
is_zero (pos n) = n == 0
is_zero (negsuc n) = false

-- `file->type`. The byte that stands where NULL has its `type` is `null_type`.
abbrev pub file_type : ℕ → (ℕ → RootInode) → Option ℕ → ℕ
file_type null_type inodes none = null_type
file_type null_type inodes (some i) = (inodes i).type

-- An entry is taken for a path if it has that path, or if it is a mount whose path is a prefix.
unfoldable pub matches : ℕ → (ℕ → RootInode) → PathToInode → CStr → Bool
matches null_type inodes m path =
    is_zero (strcmp m.path path)
    || (is_zero (strncmp m.path path (strlen m.path))
        && (file_type null_type inodes m.file == rootfs_mount))

unfoldable pub find_loop : ℕ → (ℕ → RootInode) → CStr → List PathToInode → Option ℕ
find_loop null_type inodes path [] = none
find_loop null_type inodes path (m ∷ ms) =
    if matches null_type inodes m path then m.file else find_loop null_type inodes path ms

unfoldable pub find_inode_by_path : ℕ → CStr → Rootfs → Option ℕ
unfolding find_loop
find_inode_by_path null_type path fs = find_loop null_type fs.inodes path fs.maps

-- `kalloc` of a node.
abbrev pub new_inode : RootInode → Rootfs → Rootfs
new_inode i fs = record fs {
  inodes = update fs.inodes fs.next_inode i;
  next_inode = fs.next_inode + 1;
}

-- `alloc` says whether the checked `kalloc` of the entry succeeds.
unfoldable pub add_new_inode : Bool → CStr → ℕ → Rootfs → Option (ℤ × Rootfs)
add_new_inode alloc path inode fs =
    if not alloc
    then some (negsuc 0, fs)
    else if ltb (strlen path) name_size
    then some
        (pos 0, record fs { maps = fs.maps ++ record { path = path; file = some inode } ∷ [] })
    else none

-- The loop that looks for the path itself.
unfoldable pub path_exists : CStr → List PathToInode → Bool
path_exists path [] = false
path_exists path (m ∷ ms) = is_zero (strcmp path m.path) || path_exists path ms

abbrev pub dir_inode : RootInode
dir_inode = record { file_size = 68; type = rootfs_dir; content = dir_node }

unfoldable pub mkdir : CStr → Rootfs → Option (ℤ × Rootfs)
unfolding path_exists
mkdir path fs =
    if strlen path == 0
    then none
    else if not (get_or path (strlen path - 1) 0 == b'/')
    then some (negsuc 0, fs)
    else if path_exists path fs.maps
    then some (negsuc 0, fs)
    else if ltb (strlen path) name_size
    then some (
      pos 0,
      record (new_inode dir_inode fs) {
        maps = fs.maps ++ record { path = path; file = some fs.next_inode } ∷ [];
      },
    )
    else none

abbrev pub dev_inode : ℕ → ℕ → RootInode
dev_inode subtype nr = record { file_size = 12; type = rootfs_dev; content = dev_node subtype nr 0 }

-- `name` gets what follows the separator, `dir` what ends with it.
unfoldable pub mknod : Bool → CStr → ℕ → ℕ → Rootfs → Option (ℤ × Rootfs)
unfolding add_new_inode
mknod alloc path subtype nr fs = elim (strrsep path) [
  | none ↦ none
  | some sep ↦
      if strlen (drop (sep + 1) path) == 0
      then some (negsuc 0, fs)
      else if ltb (strlen (drop (sep + 1) path)) name_size && leb (sep + 1) name_size
      then add_new_inode alloc path fs.next_inode (new_inode (dev_inode subtype nr) fs)
      else none
]

abbrev pub mount_inode : ℕ → CStr → RootInode
mount_inode sb prefix = record {
  file_size = 68;
  type = rootfs_mount;
  content = mount_node sb prefix;
}

-- `new_fs_sb` is what the file system's `get_sb` returns.
unfoldable pub mount : Bool → ℕ → CStr → Rootfs → Option (ℤ × Rootfs)
unfolding add_new_inode
mount alloc new_fs_sb mount_path fs =
    if ltb (strlen mount_path) name_size
    then add_new_inode alloc mount_path fs.next_inode
        (record (new_inode (mount_inode new_fs_sb mount_path) fs) {
          mounted = fs.mounted ++ new_fs_sb ∷ [];
        })
    else none

-- The answer of `open`: NULL, an inode of this file system, or the call of a mounted one's `open`.
pub data Opened : Type 0 where
  null_inode : Opened
  local : ℕ → Opened
  forwards : (mount_sb : ℕ) → CStr → (mode : ℕ) → Opened

-- `path + prefix_o`, with `prefix_o` one less than the length of the prefix.
unfoldable pub open_node : NodeData → ℕ → CStr → ℕ → Option Opened
open_node (mount_node sb prefix) i path mode =
    if strlen prefix == 0 then none else some (forwards sb (drop (strlen prefix - 1) path) mode)
open_node other i path mode = none

unfoldable pub rootfs_open : ℕ → CStr → ℕ → Rootfs → Option Opened
unfolding open_node
rootfs_open null_type path mode fs = elim (find_inode_by_path null_type path fs) [
  | none ↦ some null_inode
  | some i ↦
      if (fs.inodes i).type == rootfs_mount
      then open_node (fs.inodes i).content i path mode
      else some (local i)
]

-- A device node looks up its device's number when it is first used; a device that is not there has
-- no valid number, and the call with that panics.
unfoldable pub resolve_dev : ℕ → ℕ → ℕ → DeviceList → Option ℕ
resolve_dev subtype nr dev l =
    if dev == 0
    then elim (device_find subtype nr l) [ none ↦ none | some i ↦ some (device_id_get i) ]
    else some dev

module _ {W : Type 0} (call : ℕ → ℕ → W → ℤ × W) where
  -- The two transfers differ in the device's call, `transfer`.
  unfoldable pub node_transfer :
      (ℕ → DeviceList → W → Outcome W) → ℕ → NodeData → DeviceList → W → Rootfs → Outcome W × Rootfs
  unfolding resolve_dev
  node_transfer transfer i (dev_node subtype nr dev) l w fs = elim (resolve_dev subtype nr dev l) [
    | none ↦ (panics, fs)
    | some d ↦ (
      transfer d l w,
      record fs {
        inodes = update fs.inodes i (record (fs.inodes i) { content = dev_node subtype nr d });
      },
    )
  ]
  node_transfer transfer i other l w fs = (panics, fs)

  unfoldable pub rootfs_read : ℕ → DeviceList → W → Rootfs → Outcome W × Rootfs
  unfolding node_transfer
  rootfs_read i l w fs =
      if not ((fs.inodes i).type == rootfs_dev)
      then (returns (negsuc 0) l w, fs)
      else node_transfer (device_read call) i (fs.inodes i).content l w fs

  unfoldable pub rootfs_write : ℕ → DeviceList → W → Rootfs → Outcome W × Rootfs
  unfolding node_transfer
  rootfs_write i l w fs =
      if not ((fs.inodes i).type == rootfs_dev)
      then (returns (negsuc 0) l w, fs)
      else node_transfer (device_write call) i (fs.inodes i).content l w fs

-- `get_sb`: one entry, of the empty path, with no file.
abbrev pub blank_inode : RootInode
blank_inode = record { file_size = 0; type = 0; content = dir_node }

unfoldable pub rootfs_get_sb : Rootfs
rootfs_get_sb = record {
  maps = record { path = []; file = none } ∷ [];
  inodes = λ i. blank_inode;
  next_inode = 0;
  mounted = [];
}
