-- ===== src/Vfs.antt =====
-- kernel/fs/vfs.c: the calls on files, over the operations that a file system puts in its tables.
-- `none` as a result stands for a call that does not return or that C leaves undefined; a NULL
-- pointer in a table, and the answer NULL of `open`, are `none` in the place they stand in.
pub mod Descriptors
pub mod Boot
mod Tests
use nar_os.Prelude.{
  ℕ, zero, suc, ◌+◌, ◌≤◌, ◌<◌, Bool, true, false, Option, none, some, List, [], ◌∷◌, ltb, leb,
  if◌then◌else◌, ◌>>=◌, ◌==◌,
}
use nar_os.Prelude.Int.{ℤ, pos, negsuc}
use nar_os.Prelude.Words.{update}
use nar_os.CString.{CStr}
use nar_os.Rootfs.{
  Rootfs, Opened, null_inode, local, forwards, rootfs_get_sb, mkdir, mknod, mount, rootfs_open,
  rootfs_read, rootfs_write,
}
use nar_os.Device.{DeviceList, Outcome, returns, waits, panics, dev_tty}

abbrev pub fd_nr : ℕ
fd_nr = 31

-- `struct super_operations`, applied to the first super block: `I` are the inodes, `W` what the
-- calls change.
pub record SuperOperations (I W : Type 0) : Type 0 where
  pub open_inode : Option (CStr → ℕ → W → Option (Option I × W))
  pub make_dir : CStr → W → Option (ℤ × W)
  pub make_node : CStr → ℕ → ℕ → W → Option (ℤ × W)

-- `struct inode_operations` of each inode, applied to the buffer and its length.
pub record InodeOperations (I W : Type 0) : Type 0 where
  pub read : I → Option (W → Option (ℤ × W))
  pub write : I → Option (W → Option (ℤ × W))

-- `struct file_system_type* file_system_list`: a file system goes behind the others, which must be
-- there.
unfoldable pub file_system_register : Option ℕ → List ℕ → Option (ℤ × List ℕ)
file_system_register none list = some (negsuc 0, list)
file_system_register (some f) [] = none
file_system_register (some f) (x ∷ list) = some (pos 0, x ∷ link list)
  where
    link : List ℕ → List ℕ
    link [] = f ∷ []
    link (y ∷ ys) = y ∷ link ys

module _ {I : Type 0} where
  -- The loop for a free descriptor, with `n` rounds left.
  unfoldable pub free_fd : ℕ → ℕ → (ℕ → Option I) → ℕ
  free_fd zero fd list = fd
  free_fd (suc n) fd list =
      let rest = free_fd n (fd + 1) list in elim (list fd) [ none ↦ fd | some i ↦ rest ]

  -- `running->fd[fd]`, for a number that is not checked.
  abbrev pub file_at : ℤ → (ℕ → Option I) → Option (Option I)
  file_at (pos fd) list = if ltb fd fd_nr then some (list fd) else none
  file_at (negsuc fd) list = none

module _ {I W : Type 0} (super : Option (SuperOperations I W)) where
  -- The static `open`.
  unfoldable pub vfs_open : CStr → ℕ → W → Option (Option I × W)
  vfs_open path mode w = elim super [
    | none ↦ some (none, w)
    | some s ↦ elim s.open_inode [ none ↦ some (none, w) | some f ↦ f path mode w ]
  ]

  unfoldable pub sys_mkdir : CStr → W → Option (ℤ × W)
  sys_mkdir path w = elim super [ none ↦ none | some s ↦ s.make_dir path w ]

  unfoldable pub sys_mknod : CStr → ℕ → ℕ → W → Option (ℤ × W)
  sys_mknod path subtype nr w = elim super [ none ↦ none | some s ↦ s.make_node path subtype nr w ]

  -- `list` is the running task's table of open files.
  unfoldable pub sys_open : CStr → ℕ → (ℕ → Option I) → W → Option (ℤ × (ℕ → Option I) × W)
  unfolding free_fd vfs_open
  sys_open path mode list w =
      let fd = free_fd fd_nr 0 list in
      if leb fd_nr fd then some (negsuc 0, list, w) else elim (vfs_open path mode w) [
        | none ↦ none
        | some (none, w') ↦ some (negsuc 0, update list fd none, w')
        | some (some i, w') ↦ some (pos fd, update list fd (some i), w')
      ]

module _ {I W : Type 0} (ops : InodeOperations I W) where
  unfoldable pub sys_read : ℤ → (ℕ → Option I) → W → Option (ℤ × W)
  sys_read fd list w = elim (file_at fd list) [
    | none ↦ none
    | some none ↦ some (negsuc 0, w)
    | some (some file) ↦ elim (ops.read file) [ none ↦ some (negsuc 0, w) | some f ↦ f w ]
  ]

  unfoldable pub sys_write : ℤ → (ℕ → Option I) → W → Option (ℤ × W)
  sys_write fd list w = elim (file_at fd list) [
    | none ↦ none
    | some none ↦ some (negsuc 0, w)
    | some (some file) ↦ elim (ops.write file) [ none ↦ some (negsuc 0, w) | some f ↦ f w ]
  ]

-- The root and its two entries. `alloc` says whether the checked `kalloc` calls succeed.
unfoldable pub root_entries : Bool → Option Rootfs
root_entries alloc = do
  (r0, fs0) ← mkdir (b'/' ∷ []) rootfs_get_sb
  (r1, fs1) ← mkdir (b'/' ∷ b'd' ∷ b'e' ∷ b'v' ∷ b'/' ∷ []) fs0
  (r2, fs2) ←
      mknod alloc (b'/' ∷ b'd' ∷ b'e' ∷ b'v' ∷ b'/' ∷ b's' ∷ b't' ∷ b'd' ∷ b'o' ∷ b'u' ∷ b't' ∷ [])
        dev_tty 0 fs1
  some fs2

-- `super_block_lists` after `vfs_init`; `home_sb` is what the mounted file system's `get_sb` returns.
unfoldable pub vfs_init : Bool → ℕ → Option Rootfs
vfs_init alloc home_sb = do
  fs ← root_entries alloc
  (r, mounted) ← mount alloc home_sb (b'/' ∷ b'h' ∷ b'o' ∷ b'm' ∷ b'e' ∷ b'/' ∷ []) fs
  some mounted

-- The root file system as what the tables of operations point to. A file is a node of it or one of
-- a mounted file system, whose operations are parameters.
pub data RootFile (J : Type 0) : Type 0 where
  node : ℕ → RootFile J
  mounted_file : J → RootFile J

pub record RootWorld (V : Type 0) : Type 0 where
  pub fs : Rootfs
  pub devices : DeviceList
  pub rest : V

module _ {V : Type 0} where
  -- A transfer that returns.
  abbrev pub transferred : Outcome V × Rootfs → Option (ℤ × RootWorld V)
  transferred (returns r l v, fs) = some (r, record { fs = fs; devices = l; rest = v })
  transferred (waits, fs) = none
  transferred (panics, fs) = none

  abbrev pub with_fs : RootWorld V → Option (ℤ × Rootfs) → Option (ℤ × RootWorld V)
  with_fs w none = none
  with_fs w (some (r, fs)) = some (r, record w { fs = fs })

module _ {J V : Type 0} (null_type : ℕ)
    (mounted_open : ℕ → CStr → ℕ → RootWorld V → Option (Option J × RootWorld V)) where
  -- The super block that a call is passed on to is read, and a mount that failed left NULL there.
  abbrev pub opened : RootWorld V → Option Opened → Option (Option (RootFile J) × RootWorld V)
  opened w none = none
  opened w (some null_inode) = some (none, w)
  opened w (some (local i)) = some (some (node i), w)
  opened w (some (forwards sb path mode)) = elim (sb == 0) [
    | true ↦ none
    | false ↦ elim (mounted_open sb path mode w) [
      | none ↦ none
      | some (none, w') ↦ some (none, w')
      | some (some j, w') ↦ some (some (mounted_file j), w')
    ]
  ]

  unfoldable pub rootfs_op : Bool → SuperOperations (RootFile J) (RootWorld V)
  rootfs_op alloc = record {
    open_inode = some (λ path mode w. opened w (rootfs_open null_type path mode w.fs));
    make_dir = λ path w. with_fs w (mkdir path w.fs);
    make_node = λ path subtype nr w. with_fs w (mknod alloc path subtype nr w.fs);
  }

module _ {J V : Type 0} (call : ℕ → ℕ → V → ℤ × V) (mounted : InodeOperations J (RootWorld V)) where
  unfoldable pub i_op : InodeOperations (RootFile J) (RootWorld V)
  i_op = record {
    read = λ file. elim file [
      | node i ↦ some (λ w. transferred (rootfs_read call i w.devices w.rest w.fs))
      | mounted_file j ↦ mounted.read j
    ];
    write = λ file. elim file [
      | node i ↦ some (λ w. transferred (rootfs_write call i w.devices w.rest w.fs))
      | mounted_file j ↦ mounted.write j
    ];
  }
