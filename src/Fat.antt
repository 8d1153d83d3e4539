-- ===== src/Fat.antt =====
-- kernel/fs/fat.c: the FatFs library as a file system of the VFS. The library is a parameter. An
-- inode and a file are the addresses that `kalloc` returns; `none` is a panic in the heap, or a walk
-- of it that its bound cuts off.
pub mod Open
pub mod Home
mod Tests
use Prim.Native.Nat.{bit_or}
use nar_os.Prelude.{ℕ, ◌+◌, Bool, Option, none, some, ◌==◌, if◌then◌else◌, ◌>>=◌}
use nar_os.Prelude.Int.{ℤ, pos, negsuc}
use nar_os.Prelude.Bits.{bit}
use nar_os.Prelude.Words.{update}
use nar_os.CString.{CStr}
use nar_os.KHeap.{Heap, malloc, free, to_int}
use nar_os.Vfs.{SuperOperations, InodeOperations, RootWorld}

-- What the code calls of FatFs, over the state `V` of the library and of the buffers. A file is the
-- address of its `FIL`; the answers are `FRESULT` numbers, that of `f_read` with the length read.
pub record FatFs (V : Type 0) : Type 0 where
  pub fil_size : ℕ
  pub fatfs_size : ℕ
  pub f_open : ℕ → CStr → ℕ → V → ℕ × V
  pub f_read : ℕ → V → ℕ × ℕ × V
  pub f_mount : ℕ → V → ℕ × V

-- `data` of the inode at an address, and of the super block at an address.
pub record FatWorld (V : Type 0) : Type 0 where
  pub heap : Heap
  pub inode_data : ℕ → ℕ
  pub sb_data : ℕ → ℕ
  pub lib : V

-- The flags of `open` as those of `f_open`: FA_READ, FA_WRITE, FA_OPEN_APPEND, FA_OPEN_ALWAYS and
-- FA_CREATE_ALWAYS.
abbrev pub fat_flag : ℕ → ℕ → ℕ → ℕ
fat_flag mode k value = if bit mode k == 1 then value else 0

unfoldable pub fat_mode : ℕ → ℕ
fat_mode mode =
    bit_or
      (bit_or (bit_or (bit_or (fat_flag mode 1 0x01) (fat_flag mode 2 0x02)) (fat_flag mode 0 0x30))
        (fat_flag mode 3 0x10))
      (fat_flag mode 4 0x08)

abbrev pub inode_size : ℕ
inode_size = 12

abbrev pub super_block_size : ℕ
super_block_size = 20

module _ {V : Type 0} (fs : FatFs V) (n : ℕ) where
  -- The result is `read_len` as an `ssize_t`.
  unfoldable pub fat_read : ℕ → FatWorld V → ℤ × FatWorld V
  fat_read i w =
      let (code, read_len, v) = fs.f_read (w.inode_data i) w.lib in
      (to_int read_len, record w { lib = v })

  -- The inode's address, 0 for NULL.
  unfoldable pub fat_open : CStr → ℕ → FatWorld V → Option (ℕ × FatWorld V)
  fat_open path mode w = do
    (file, h) ← malloc n fs.fil_size w.heap
    let (ret, v) = fs.f_open file path (fat_mode mode) w.lib in
        if ret == 0
        then (do
          (fd, h') ← malloc n inode_size h
          some (fd, record w { heap = h'; inode_data = update w.inode_data fd file; lib = v }))
        else (do h' ← free n file h; some (0, record w { heap = h'; lib = v }))

  -- The super block's address, 0 for NULL.
  unfoldable pub fat_get_sb : FatWorld V → Option (ℕ × FatWorld V)
  fat_get_sb w = do
    (sb, h) ← malloc n super_block_size w.heap
    (fatfs, h') ← malloc n fs.fatfs_size h
    let (ret, v) = fs.f_mount fatfs w.lib in
        if ret == 0
        then some (sb, record w { heap = h'; sb_data = update w.sb_data sb fatfs; lib = v })
        else (do h1 ← free n sb h'; h2 ← free n fatfs h1; some (0, record w { heap = h2; lib = v }))

  -- `fat_s_op`; a call of what is NULL in it is undefined.
  abbrev pub fat_s_op : SuperOperations ℕ (FatWorld V)
  fat_s_op = record {
    open_inode = some (λ path mode w. do
      (fd, w') ← fat_open path mode w
      some (if fd == 0 then none else some fd, w'));
    make_dir = λ path w. none;
    make_node = λ path subtype nr w. none;
  }

  -- `fat_i_op`
  abbrev pub fat_i_op : InodeOperations ℕ (FatWorld V)
  fat_i_op = record { read = λ i. some (λ w. some (fat_read i w)); write = λ i. none }

  -- The same below a mount in the root file system.
  abbrev pub mounted_open :
      ℕ → CStr → ℕ → RootWorld (FatWorld V) → Option (Option ℕ × RootWorld (FatWorld V))
  mounted_open sb path mode w = do
    (fd, w') ← fat_open path mode w.rest
    some (if fd == 0 then none else some fd, record w { rest = w' })

  abbrev pub mounted_ops : InodeOperations ℕ (RootWorld (FatWorld V))
  mounted_ops = record {
    read = λ i. some (λ w. let (r, w') = fat_read i w.rest in some (r, record w { rest = w' }));
    write = λ i. none;
  }
