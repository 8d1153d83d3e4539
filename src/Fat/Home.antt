-- ===== src/Fat/Home.antt =====
-- The files below "/home/", from `vfs_init` of kernel/fs/vfs.c through the root file system to FatFs.
use nar_os.Prelude.{
  ℕ, suc, ◌+◌, ◌^◌, ◌≡◌, ◌≢◌, ◌<◌, refl, true, false, Option, none, some, List, ◌∷◌, ◌++◌, ◌==◌,
  arith, length, ◌∙◌, ap,
}
use nar_os.Prelude.Int.{ℤ, pos, negsuc}
use nar_os.Prelude.Words.{update}
use nar_os.CString.{CStr}
use nar_os.Device.{DeviceList}
use nar_os.KHeap.Layout.{IsHeap}
use nar_os.Rootfs.{Rootfs, forwards}
use nar_os.Vfs.{
  RootFile, mounted_file, RootWorld, rootfs_op, i_op, opened, vfs_init, vfs_open, free_fd, sys_open,
  sys_read, sys_write, fd_nr,
}
use nar_os.Vfs.Descriptors.{IsLowest, sys_open-transfers}
use nar_os.Vfs.Boot.{home, vfs_init-Boots}
use nar_os.Fat.{FatFs, FatWorld, fat_mode, fat_open, fat_read, mounted_open, mounted_ops}
use nar_os.Fat.Open.{Opens, fat_open-Opens}

module _ {V : Type 0} (call : ℕ → ℕ → FatWorld V → ℤ × FatWorld V) (fs : FatFs V)
    (n start : ℕ) where
  abbrev world : Rootfs → DeviceList → FatWorld V → RootWorld (FatWorld V)
  world r devices w = record { fs = r; devices = devices; rest = w }

  forwards-fat_open :
      (sb mode inode : ℕ) (path : CStr) (r : Rootfs) (devices : DeviceList) (w w' : FatWorld V)
      → fat_open fs n path mode w ≡ some (inode, w')
      → (inode == 0) ≡ false
      → (sb == 0) ≡ false
      → opened 0 (mounted_open fs n) (world r devices w) (some (forwards sb path mode))
        ≡ some (some (mounted_file inode), world r devices w')
  forwards-fat_open sb mode inode path r devices w w' ran set mounted =
      rw (opened, mounted, ran, set, mounted_open) refl

  -- From `vfs_init` to FatFs, where the mount of "/home/" gave a super block, for a path below it that
  -- FatFs opens, with a free descriptor and a well-formed heap with room: `sys_open` gives the lowest free descriptor for the inode that
  -- `open` of the FAT file system makes of the rest of the path behind a slash; `sys_read` on it
  -- returns what `f_read` reads; `sys_write` returns -1.
  pub sys_open-home :
      (sb mode k : ℕ) (rest : CStr) (devices : DeviceList) (list : ℕ → Option (RootFile ℕ))
      (w : FatWorld V) (bs : List ℕ)
      → sb ≢ 0
      → k < fd_nr
      → list k ≡ none
      → IsHeap start w.heap bs
      → suc (length bs) < n
      → 0 < fs.fil_size
      → w.heap.mem.ksbrk + 44 + fs.fil_size < 2 ^ 31
      → ((file : ℕ) → (fs.f_open file (b'/' ∷ rest) (fat_mode mode) w.lib).0 ≡ 0)
      → (r : Rootfs) × (inode : ℕ) × (w' : FatWorld V) × (vfs_init true sb ≡ some r)
        × Opens fs start (b'/' ∷ rest) mode w inode w'
        × (let fd = free_fd fd_nr 0 list in
            let list' = update list fd (some (mounted_file inode)) in
            let before : RootWorld (FatWorld V) = record { fs = r; devices = devices; rest = w } in
            let after : RootWorld (FatWorld V) = record { fs = r; devices = devices; rest = w' } in
            let (ret, read) = fat_read fs n inode w' in
            IsLowest list 0 fd_nr fd
            × (sys_open
                  (some (rootfs_op 0 (mounted_open fs n) true))
                  (home ++ rest)
                  mode
                  list
                  before
                ≡ some (pos fd, list', after))
            × (sys_read (i_op call (mounted_ops fs n)) (pos fd) list' after
                ≡ some (ret, record { fs = r; devices = devices; rest = read }))
            × (sys_write (i_op call (mounted_ops fs n)) (pos fd) list' after
                ≡ some (negsuc 0, after)))
  unfolding rootfs_op i_op vfs_open
  sys_open-home sb mode k rest devices list w bs set_sb h free v fuel some_size space ok =
      let super_block : (sb == 0) ≡ false = ground (arith, set_sb) in
      let (r, made, _, _, forwarded) = vfs_init-Boots sb mode rest in
      let (inode, w', ran, opens) =
        fat_open-Opens fs n start (b'/' ∷ rest) mode w bs v fuel some_size space ok in
      let before : RootWorld (FatWorld V) = record { fs = r; devices = devices; rest = w } in
      let after : RootWorld (FatWorld V) = record { fs = r; devices = devices; rest = w' } in
      let file_ops = i_op call (mounted_ops fs n) in
      let super = some (rootfs_op 0 (mounted_open fs n) true) in
      let set : (inode == 0) ≡ false = ground (arith, opens.fd_pointer) in
      let (lowest, small, opened_fd, reads, writes) =
        sys_open-transfers super file_ops (home ++ rest) mode k list before after
          (mounted_file inode) h free
          (ap (opened 0 (mounted_open fs n) before) forwarded
            ∙ forwards-fat_open sb mode inode (b'/' ∷ rest) r devices w w' ran set super_block) in
      (r, inode, w', made, opens, (lowest, opened_fd, reads, writes))
