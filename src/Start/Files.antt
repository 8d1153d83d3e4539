-- ===== src/Start/Files.antt =====
-- The device files that exist when init of kernel/main.c has started the keyboard.
use nar_os.Prelude.{ℕ, ◌≡◌, refl, true, some}
use nar_os.Prelude.Int.{pos}
use nar_os.CString.{strlen, strcmp, strncmp, strrsep, strrsep_loop}
use nar_os.Device.{dev_tty, dev_keyboard}
use nar_os.Rootfs.{
  Rootfs, mkdir, mknod, mount, add_new_inode, path_exists, rootfs_get_sb, dev_inode, rootfs_open,
  find_inode_by_path, find_loop, matches, local,
}
use nar_os.Vfs.{vfs_init, root_entries}
use nar_os.Vfs.Boot.{stdout}
use nar_os.Start.{input}

-- Both paths open as nodes, for the first terminal and the first keyboard.
pub record HasFiles (mode : ℕ) (fs : Rootfs) : Type 0 where
  pub stdout_opens : rootfs_open 0 stdout mode fs ≡ some (local 2)
  pub stdout_node : fs.inodes 2 ≡ dev_inode dev_tty 0
  pub input_opens : rootfs_open 0 input mode fs ≡ some (local 4)
  pub input_node : fs.inodes 4 ≡ dev_inode dev_keyboard 0

pub vfs_init-HasFiles :
    (sb mode : ℕ)
    → (r : Rootfs) × (fs : Rootfs) × (vfs_init true sb ≡ some r)
      × (mknod true input dev_keyboard 0 r ≡ some (pos 0, fs))
      × HasFiles mode fs
unfolding vfs_init root_entries mkdir mknod mount add_new_inode path_exists rootfs_get_sb strlen
    strcmp strncmp strrsep strrsep_loop rootfs_open find_inode_by_path find_loop matches
vfs_init-HasFiles sb mode = (
  _,
  _,
  refl,
  refl,
  record { stdout_opens = refl; stdout_node = refl; input_opens = refl; input_node = refl },
)
