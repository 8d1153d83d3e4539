-- ===== src/Rootfs/Transfer.antt =====
-- Reading and writing through a device node.
use nar_os.Prelude.{ℕ, ◌<◌, ◌≡◌, refl, true, false, some, ◌==◌, arith, ◌∙◌, ap, not, if◌then◌else◌}
use nar_os.Prelude.Int.{ℤ, negsuc}
use nar_os.Prelude.Words.{update}
use nar_os.Device.{DeviceList, Outcome, returns, device_find, device_read, device_write}
use nar_os.Device.Access.{IsReady, answer, device_calls}
use nar_os.Rootfs.{
  RootInode, Rootfs, dev_node, rootfs_dev, dev_inode, resolve_dev, node_transfer, rootfs_read,
  rootfs_write,
}

-- The nodes once the device number of node `i` is looked up.
abbrev pub resolved : ℕ → ℕ → ℕ → ℕ → Rootfs → Rootfs
resolved i subtype nr dev fs = record fs {
  inodes = update fs.inodes i (record (dev_inode subtype nr) { content = dev_node subtype nr dev });
}

resolve_dev_lem :
    (subtype nr dev : ℕ) (l : DeviceList)
    → device_find subtype nr l ≡ some dev
    → resolve_dev subtype nr 0 l ≡ some dev
unfolding resolve_dev
resolve_dev_lem subtype nr dev l found = rw (found, resolve_dev) refl

module _ {W : Type 0} (call : ℕ → ℕ → W → ℤ × W) where
  -- The two transfers, by the device's call.
  guarded :
      (ℕ → DeviceList → W → Outcome W)
      → ℕ
      → RootInode
      → DeviceList
      → W
      → Rootfs
      → Outcome W × Rootfs
  unfolding node_transfer
  guarded transfer i x l w fs =
      if not (x.type == rootfs_dev)
      then (returns (negsuc 0) l w, fs)
      else node_transfer call transfer i x.content l w fs

  guarded-first :
      (transfer : ℕ → DeviceList → W → Outcome W) (i subtype nr dev : ℕ)
      → (l : DeviceList) (w : W) (fs : Rootfs) → fs.inodes i ≡ dev_inode subtype nr
      → device_find subtype nr l ≡ some dev
      → guarded transfer i (fs.inodes i) l w fs ≡ (transfer dev l w, resolved i subtype nr dev fs)
  unfolding guarded node_transfer
  guarded-first transfer i subtype nr dev l w fs made found =
      ap (λ x. guarded transfer i x l w fs) made
      ∙ rw (resolve_dev_lem subtype nr dev l found, node_transfer)
          (ap
            (λ x. (
              transfer dev l w,
              record fs {
                inodes = update fs.inodes i (record x { content = dev_node subtype nr dev });
              },
            ))
            made)

  guarded-later :
      (transfer : ℕ → DeviceList → W → Outcome W) (i subtype nr dev : ℕ)
      → (l : DeviceList) (w : W) (fs : Rootfs) → 0 < dev
      → (guarded transfer i
          ((resolved i subtype nr dev fs).inodes i)
          l
          w
          (resolved i subtype nr dev fs)).0
        ≡ transfer dev l w
  unfolding guarded node_transfer resolve_dev
  guarded-later transfer i subtype nr dev l w fs positive =
      let here : (i == i) ≡ true = ground arith in
      rw here (known_dev (resolved i subtype nr dev fs))
    where
      known_dev :
          (after : Rootfs)
          → (node_transfer call transfer i (dev_node subtype nr dev) l w after).0 ≡ transfer dev l w
      known_dev after =
          let nonzero : (dev == 0) ≡ false = ground (arith, positive) in
          rw (nonzero, resolve_dev, node_transfer) refl

  -- A node that `mknod` made, of a device that the table holds ready: reading and writing return
  -- what the driver's function returns, or -1 if the driver has none, and the node keeps the
  -- device's number. Every later transfer takes that number, whatever the table holds then.
  pub rootfs_transfers :
      (i subtype nr dev : ℕ) (l later : DeviceList) (w : W) (fs : Rootfs)
      → fs.inodes i ≡ dev_inode subtype nr
      → device_find subtype nr l ≡ some dev
      → IsReady l dev
      → let d = l dev in
        let after = resolved i subtype nr dev fs in
        (rootfs_read call i l w fs ≡ (
          returns (answer call d.read d.this_device w).0 l (answer call d.read d.this_device w).1,
          after,
        ))
        × (rootfs_write call i l w fs ≡ (
          returns (answer call d.write d.this_device w).0 l (answer call d.write d.this_device w).1,
          after,
        ))
        × ((rootfs_read call i later w after).0 ≡ device_read call dev later w)
        × ((rootfs_write call i later w after).0 ≡ device_write call dev later w)
  unfolding rootfs_read rootfs_write guarded
  rootfs_transfers i subtype nr dev l later w fs made found ready =
      let calls = device_calls call dev l w ready in
      let after = resolved i subtype nr dev fs in
      (
        guarded-first (device_read call) i subtype nr dev l w fs made found
            ∙ ap (λ o. (o, after)) calls.0,
        guarded-first (device_write call) i subtype nr dev l w fs made found
            ∙ ap (λ o. (o, after)) calls.1,
        guarded-later (device_read call) i subtype nr dev later w fs ready.positive,
        guarded-later (device_write call) i subtype nr dev later w fs ready.positive,
      )
