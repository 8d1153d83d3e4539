-- ===== src/Fat/Tests.antt =====
-- Runs of kernel/fs/fat.c with a small library in the place of FatFs, and instances of the theorems.
use nar_os.Prelude.{
  ℕ, ◌+◌, ◌≡◌, refl, true, false, Option, none, some, List, [], ◌∷◌, ◌++◌, ◌==◌, if◌then◌else◌,
  arith, length,
}
use nar_os.Prelude.Int.{ℤ, pos, negsuc}
use nar_os.Prelude.Words.{update}
use nar_os.Device.{DeviceList}
use nar_os.Mem.{kernel_heap_vma_start, put_page, kbrk}
use nar_os.KHeap.{Heap, malloc, free}
use nar_os.KHeap.Layout.{IsHeap}
use nar_os.Rootfs.{Rootfs}
use nar_os.Vfs.{
  RootFile, mounted_file, RootWorld, rootfs_op, i_op, vfs_init, free_fd, sys_open, sys_read,
  sys_write, fd_nr,
}
use nar_os.Vfs.Descriptors.{IsLowest}
use nar_os.Vfs.Boot.{home}
use nar_os.Fat.{
  FatFs, FatWorld, fat_mode, fat_open, fat_read, fat_get_sb, mounted_open, mounted_ops,
}
use nar_os.Fat.Open.{Opens}
use nar_os.Fat.Home.{sys_open-home}

-- Opens every path but the empty one; its state counts the calls, and each read is of 5 bytes.
abbrev small : FatFs ℕ
small = record {
  fil_size = 600;
  fatfs_size = 580;
  f_open = λ file path mode v. (if length path == 0 then 4 else 0, v + 1);
  f_read = λ file v. (0, 5, v + 1);
  f_mount = λ fatfs v. (if v == 0 then 0 else 13, v + 1);
}

-- One block in use.
abbrev heap : Heap
heap = record {
  at = λ a. record { size = 100; is_free = false; next = 0 };
  head = kernel_heap_vma_start;
  tail = kernel_heap_vma_start;
  mem = record {
    ksbrk = 0x2000074;
    frames = record {
      memory_base = 0x1001000;
      memory_size = 0x4000000;
      total_page = 0x3000;
      page_map = λ i. 0;
    };
    tables = record { pde = 0; entry_at = λ a. none };
  };
}

abbrev blocks : List ℕ
blocks = kernel_heap_vma_start ∷ []

heap-IsHeap : IsHeap kernel_heap_vma_start heap blocks
heap-IsHeap = record {
  chain = (refl, refl, (refl, refl));
  tail = refl;
  above_null = omega arith;
  below_int = omega arith;
}

abbrev start : FatWorld ℕ
start = record { heap = heap; inode_data = λ a. 0; sb_data = λ a. 0; lib = 0 }

abbrev break_of : Option (ℕ × FatWorld ℕ) → Option (ℕ × ℕ × ℕ)
break_of none = none
break_of (some (p, w)) = some (p, w.heap.mem.ksbrk, w.lib)

modes : (fat_mode 2 ≡ 0x01) × (fat_mode 6 ≡ 0x03) × (fat_mode 5 ≡ 0x32) × (fat_mode 24 ≡ 0x18)
unfolding fat_mode
modes = (refl, refl, refl, refl)

-- A failing open gives the memory of the file back.
opens_and_fails :
    (break_of (fat_open small 9 (b'/' ∷ []) 2 start) ≡ some (0x20002ec, 0x20002f8, 1))
    × (break_of (fat_open small 9 [] 2 start) ≡ some (0, 0x2000074, 1))
    × (break_of (fat_get_sb small 9 start) ≡ some (0x2000084, 0x20002ec, 1))
unfolding fat_open fat_get_sb malloc free kbrk put_page
opens_and_fails = (refl, refl, refl)

no_calls : ℕ → ℕ → FatWorld ℕ → ℤ × FatWorld ℕ
no_calls f d w = (negsuc 0, w)

abbrev no_files : ℕ → Option (RootFile ℕ)
no_files fd = none

abbrev no_devices : DeviceList
no_devices d = record {
  name = [];
  type = 0;
  subtype = 0;
  dev = 0;
  in_use = false;
  this_device = 0;
  ioctl = 0;
  read = 0;
  write = 0;
}

sys_open-home_example :
    (r : Rootfs) × (inode : ℕ) × (w' : FatWorld ℕ) × (vfs_init true 9 ≡ some r)
    × Opens small kernel_heap_vma_start (b'/' ∷ 97 ∷ []) 2 start inode w'
    × (let fd = free_fd fd_nr 0 no_files in
        let list' = update no_files fd (some (mounted_file inode)) in
        let before : RootWorld (FatWorld ℕ) = record {
          fs = r;
          devices = no_devices;
          rest = start;
        } in
        let after : RootWorld (FatWorld ℕ) = record { fs = r; devices = no_devices; rest = w' } in
        let (ret, read) = fat_read small 9 inode w' in
        IsLowest no_files 0 fd_nr fd
        × (sys_open
              (some (rootfs_op 0 (mounted_open small 9) true))
              (home ++ 97 ∷ [])
              2
              no_files
              before
            ≡ some (pos fd, list', after))
        × (sys_read (i_op no_calls (mounted_ops small 9)) (pos fd) list' after
            ≡ some (ret, record { fs = r; devices = no_devices; rest = read }))
        × (sys_write (i_op no_calls (mounted_ops small 9)) (pos fd) list' after
            ≡ some (negsuc 0, after)))
sys_open-home_example =
    sys_open-home no_calls small 9 kernel_heap_vma_start 9 2 0 (97 ∷ []) no_devices no_files start
      blocks (λ e. omega (arith, e)) (omega arith) refl heap-IsHeap (omega arith) (omega arith)
      (omega arith) (λ file. refl)
