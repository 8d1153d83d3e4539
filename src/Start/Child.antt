-- ===== src/Start/Child.antt =====
-- The files that the first user's task, `child` of kernel/main.c, opens, from the state that init leaves.
use nar_os.Prelude.{ℕ, ◌≡◌, refl, true, Option, none, some, ap, ◌∙◌}
use nar_os.Prelude.Int.{ℤ, pos}
use nar_os.Prelude.Words.{update}
use nar_os.CString.{CStr}
use nar_os.Device.{DeviceList, dev_tty, dev_keyboard}
use nar_os.Device.Access.{answer}
use nar_os.Rootfs.{Rootfs}
use nar_os.Rootfs.Transfer.{resolved, rootfs_transfers}
use nar_os.Vfs.{
  InodeOperations, RootFile, node, RootWorld, rootfs_op, i_op, transferred, free_fd, vfs_open,
  sys_open, sys_read, sys_write,
}
use nar_os.Vfs.Boot.{stdout}
use nar_os.Start.{Symbols, input}
use nar_os.Start.Files.{HasFiles}
use nar_os.Start.Steps.{HasDevices}

-- The table of a task that has opened no file, and the two files behind it.
abbrev pub no_files : {J : Type 0} → ℕ → Option (RootFile J)
no_files fd = none

abbrev pub with_stdout : {J : Type 0} → ℕ → Option (RootFile J)
with_stdout = update no_files 0 (some (node 2))

abbrev pub with_input : {J : Type 0} → ℕ → Option (RootFile J)
with_input = update with_stdout 1 (some (node 4))

module _ {J V : Type 0} (call : ℕ → ℕ → V → ℤ × V)
    (mounted_open : ℕ → CStr → ℕ → RootWorld V → Option (Option J × RootWorld V))
    (mounted : InodeOperations J (RootWorld V)) where
  -- With the devices and the files that init leaves, the first file of a new task, "/dev/stdout",
  -- gets descriptor 0 and the second, "/dev/input", gets 1. Writing on 0 returns what the function
  -- returns that the terminal's driver installed, reading on 1 what the keyboard's returns, or -1 if
  -- the driver installed NULL.
  pub child-Opens :
      (y : Symbols) (devices : DeviceList) (fs : Rootfs) (mode : ℕ) (v : V)
      → HasDevices y devices
      → HasFiles mode fs
      → let super = some (rootfs_op 0 mounted_open true) in
        let w : RootWorld V = record { fs = fs; devices = devices; rest = v } in
        let (written, v1) = answer call y.tty_write (devices 1).this_device v in
        let (got, v2) = answer call y.keyboard_read (devices 2).this_device v in
        (sys_open super stdout mode no_files w ≡ some (pos 0, with_stdout, w))
        × (sys_open super input mode with_stdout w ≡ some (pos 1, with_input, w))
        × (sys_write (i_op call mounted) (pos 0) with_input w
            ≡ some (written, record w { fs = resolved 2 dev_tty 0 1 fs; rest = v1 }))
        × (sys_read (i_op call mounted) (pos 1) with_input w
            ≡ some (got, record w { fs = resolved 4 dev_keyboard 0 2 fs; rest = v2 }))
  unfolding sys_open vfs_open rootfs_op sys_read sys_write i_op free_fd
  child-Opens y devices fs mode v d f =
      let tty =
        rootfs_transfers call 2 dev_tty 0 1 devices devices v fs f.stdout_node d.terminal
          d.terminal_ready in
      let keyboard =
        rootfs_transfers call 4 dev_keyboard 0 2 devices devices v fs f.input_node d.keyboard
          d.keyboard_ready in
      (
        rw f.stdout_opens refl,
        rw f.input_opens refl,
        ap transferred tty.1 ∙ rw d.terminal_write refl,
        ap transferred keyboard.0 ∙ rw d.keyboard_read refl,
      )
