-- ===== src/Vfs/Boot.antt =====
-- The files that exist after `vfs_init`.
use nar_os.Prelude.{
  ℕ, ◌<◌, ◌≡◌, refl, true, false, Option, none, some, arith, [], ◌∷◌, ◌∙◌, ap, ◌++◌,
}
use nar_os.Prelude.Int.{ℤ, pos}
use nar_os.Prelude.Words.{update}
use nar_os.CString.{CStr, strlen, strcmp, strncmp, strrsep, strrsep_loop}
use nar_os.Device.{DeviceList, device_find, dev_tty}
use nar_os.Device.Access.{IsReady, answer}
use nar_os.Rootfs.{
  Rootfs, mkdir, mknod, mount, add_new_inode, path_exists, rootfs_get_sb, dev_inode, rootfs_open,
  find_inode_by_path, find_loop, matches, local, forwards,
}
use nar_os.Rootfs.Lookup.{IsValid, is_found}
use nar_os.Rootfs.Open.{rootfs_open-mount}
use nar_os.Rootfs.Transfer.{resolved, rootfs_transfers}
use nar_os.Vfs.{
  InodeOperations, RootFile, node, RootWorld, rootfs_op, i_op, opened, transferred, vfs_init,
  root_entries, free_fd, vfs_open, sys_open, sys_write, fd_nr,
}
use nar_os.Vfs.Descriptors.{IsLowest, sys_open-transfers}

-- "/dev/stdout"
abbrev pub stdout : CStr
stdout = b'/' ∷ b'd' ∷ b'e' ∷ b'v' ∷ b'/' ∷ b's' ∷ b't' ∷ b'd' ∷ b'o' ∷ b'u' ∷ b't' ∷ []

-- "/home/"
abbrev pub home : CStr
home = b'/' ∷ b'h' ∷ b'o' ∷ b'm' ∷ b'e' ∷ b'/' ∷ []

-- The root file system in front of the mount.
entries :
    (rest : CStr)
    → (e : Rootfs) × (root_entries true ≡ some e)
      × IsValid e
      × (is_found 0 (home ++ rest) e ≡ false)
unfolding root_entries mkdir mknod add_new_inode path_exists rootfs_get_sb strlen strcmp strncmp
    strrsep strrsep_loop matches
entries rest = (_, refl, (tt, (omega arith, (omega arith, (omega arith, tt)))), refl)

-- What `vfs_init` leaves if its allocations succeed, and the byte that NULL's type is read from is
-- 0: "/dev/stdout" opens as a device node for the first terminal, and any path below "/home/" is
-- handed to the mounted file system.
pub vfs_init-Boots :
    (sb mode : ℕ) (rest : CStr)
    → (r : Rootfs) × (vfs_init true sb ≡ some r)
      × (rootfs_open 0 stdout mode r ≡ some (local 2))
      × (r.inodes 2 ≡ dev_inode dev_tty 0)
      × (rootfs_open 0 (home ++ rest) mode r ≡ some (forwards sb (b'/' ∷ rest) mode))
unfolding entries vfs_init root_entries mkdir mknod mount add_new_inode path_exists rootfs_get_sb
    strlen strcmp strncmp strrsep strrsep_loop rootfs_open find_inode_by_path find_loop matches
vfs_init-Boots sb mode rest =
    let (e, made, valid, new) = entries rest in
    let mounts =
      rootfs_open-mount 0 sb mode (b'/' ∷ b'h' ∷ b'o' ∷ b'm' ∷ b'e' ∷ []) rest e valid refl new in
    (_, refl, refl, refl, mounts.1)

module _ {J V : Type 0} (call : ℕ → ℕ → V → ℤ × V)
    (mounted_open : ℕ → CStr → ℕ → RootWorld V → Option (Option J × RootWorld V))
    (mounted : InodeOperations J (RootWorld V)) where
  -- From `vfs_init` to the driver: with a free descriptor and a terminal that is ready, `sys_open`
  -- of "/dev/stdout" gives the lowest free descriptor, and `sys_write` on it returns what the
  -- terminal's driver returns, or -1 if it has no writing function.
  pub sys_write-stdout :
      (sb mode k dev : ℕ) (devices : DeviceList) (v : V) (list : ℕ → Option (RootFile J))
      → k < fd_nr
      → list k ≡ none
      → device_find dev_tty 0 devices ≡ some dev
      → IsReady devices dev
      → (r : Rootfs) × (vfs_init true sb ≡ some r)
        × (let fd = free_fd fd_nr 0 list in
            let list' = update list fd (some (node 2)) in
            let w : RootWorld V = record { fs = r; devices = devices; rest = v } in
            let d = devices dev in
            let (ret, v') = answer call d.write d.this_device v in
            IsLowest list 0 fd_nr fd
            × (sys_open (some (rootfs_op 0 mounted_open true)) stdout mode list w
                ≡ some (pos fd, list', w))
            × (sys_write (i_op call mounted) (pos fd) list' w
                ≡ some (
                  ret,
                  record { fs = resolved 2 dev_tty 0 dev r; devices = devices; rest = v' },
                )))
  unfolding rootfs_op i_op vfs_open
  sys_write-stdout sb mode k dev devices v list h free found ready =
      let (r, made, opens, is_dev, _) = vfs_init-Boots sb mode [] in
      let w : RootWorld V = record { fs = r; devices = devices; rest = v } in
      let file_ops = i_op call mounted in
      let super = some (rootfs_op 0 mounted_open true) in
      let (lowest, small, opened_fd, _, writes) =
        sys_open-transfers super file_ops stdout mode k list w w (node 2) h free
          (ap (opened 0 mounted_open w) opens) in
      let transfers =
        rootfs_transfers call 2 dev_tty 0 dev devices devices v r is_dev found ready in
      (r, made, (lowest, opened_fd, writes ∙ ap transferred transfers.1))
