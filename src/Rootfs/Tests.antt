-- ===== src/Rootfs/Tests.antt =====
-- Runs of kernel/fs/rootfs.c and instances of its theorems.
use nar_os.Prelude.{
  ℕ, ◌≡◌, refl, true, false, Option, none, some, [], ◌∷◌, ◌++◌, ◌==◌, if◌then◌else◌, arith,
}
use nar_os.Prelude.Int.{ℤ, pos, negsuc}
use nar_os.CString.{CStr, strlen, strcmp, strncmp, strrsep, strrsep_loop}
use nar_os.Device.{Device, DeviceList}
use nar_os.Device.Access.{IsReady}
use nar_os.Rootfs.{
  Rootfs, rootfs_get_sb, mkdir, mknod, mount, rootfs_open, find_inode_by_path, find_loop, matches,
  is_zero, null_inode, forwards, dir_inode, dev_inode, mount_inode, path_exists,
}
use nar_os.Rootfs.Lookup.{IsValid, is_found}
use nar_os.Rootfs.Nodes.{added, mkdir-Adds}
use nar_os.Rootfs.Open.{rootfs_open-mount}

-- "/dev/"
abbrev dev_dir : CStr
dev_dir = b'/' ∷ b'd' ∷ b'e' ∷ b'v' ∷ b'/' ∷ []

-- "/dev/out"
abbrev out : CStr
out = b'/' ∷ b'd' ∷ b'e' ∷ b'v' ∷ b'/' ∷ b'o' ∷ b'u' ∷ b't' ∷ []

-- "/mnt"
abbrev mnt : CStr
mnt = b'/' ∷ b'm' ∷ b'n' ∷ b't' ∷ []

-- "a"
abbrev a : CStr
a = b'a' ∷ []

root-IsValid : IsValid rootfs_get_sb
unfolding rootfs_get_sb
root-IsValid = (tt, tt)

root_maps : rootfs_get_sb.maps ≡ record { path = []; file = none } ∷ []
unfolding rootfs_get_sb
root_maps = refl

root_new :
    (is_found 0 out rootfs_get_sb ≡ false)
    × (is_found 0 ((mnt ++ b'/' ∷ []) ++ a) rootfs_get_sb ≡ false)
unfolding rootfs_get_sb matches strcmp strncmp strlen
root_new = (refl, refl)

-- The state after the first calls on an empty file system.
abbrev started : Option (ℤ × Rootfs) → CStr → Option (ℤ × Rootfs)
started none path = none
started (some (r, fs)) path = mkdir path fs

runs :
    (mkdir a rootfs_get_sb ≡ some (negsuc 0, rootfs_get_sb))
    × (mkdir [] rootfs_get_sb ≡ none)
    × (started (mkdir dev_dir rootfs_get_sb) dev_dir
        ≡ some (negsuc 0, added dir_inode dev_dir rootfs_get_sb))
    × (mknod true dev_dir 2 0 rootfs_get_sb ≡ some (negsuc 0, rootfs_get_sb))
    × (mknod true a 2 0 rootfs_get_sb ≡ none)
    × (rootfs_open 0 a 0 rootfs_get_sb ≡ some null_inode)
unfolding mkdir mknod rootfs_open rootfs_get_sb strlen path_exists strcmp strrsep strrsep_loop
    find_inode_by_path find_loop matches strncmp
runs = (refl, refl, refl, refl, refl, refl)

mkdir-Adds_example :
    let after = added dir_inode dev_dir rootfs_get_sb in
    (mkdir dev_dir rootfs_get_sb ≡ some (pos 0, after))
    × IsValid after
    × (find_inode_by_path 0 dev_dir after ≡ (
        if is_found 0 dev_dir rootfs_get_sb
        then find_inode_by_path 0 dev_dir rootfs_get_sb
        else if is_zero (strcmp dev_dir dev_dir)
        then some rootfs_get_sb.next_inode
        else none))
    × (mkdir dev_dir after ≡ some (negsuc 0, after))
mkdir-Adds_example =
    mkdir-Adds 0 dev_dir dev_dir rootfs_get_sb root-IsValid (unfold strlen in refl)
      (unfold strlen in refl) (unfold strlen in refl)
      (unfold path_exists rootfs_get_sb strcmp in refl)

rootfs_open-mount_example :
    let prefix = mnt ++ b'/' ∷ [] in
    let after = record (added (mount_inode 9 prefix) prefix rootfs_get_sb) {
      mounted = rootfs_get_sb.mounted ++ 9 ∷ [];
    } in
    (mount true 9 prefix rootfs_get_sb ≡ some (pos 0, after))
    × (rootfs_open 0 (prefix ++ a) 1 after ≡ some (forwards 9 (b'/' ∷ a) 1))
rootfs_open-mount_example =
    rootfs_open-mount 0 9 1 mnt a rootfs_get_sb root-IsValid (unfold strlen in refl) root_new.1

-- A screen at number 1, with its writing function at address 0x1000.
abbrev screen : Device
screen = record {
  name = [];
  type = 1;
  subtype = 2;
  dev = 1;
  in_use = false;
  this_device = 1;
  ioctl = 0;
  read = 0;
  write = 0x1000;
}

abbrev table : DeviceList
table i = if i == 1 then screen else record screen { type = 0; subtype = 0 }

screen-IsReady : IsReady table 1
screen-IsReady = record {
  positive = omega arith;
  in_table = omega arith;
  installed = omega arith;
  idle = refl;
}

abbrev driver : ℕ → ℕ → ℕ → ℤ × ℕ
driver f this w = (pos f, w)

abbrev with_out : Rootfs
with_out = record {
  maps = record { path = out; file = some 0 } ∷ [];
  inodes = λ i. dev_inode 2 0;
  next_inode = 1;
  mounted = [];
}
