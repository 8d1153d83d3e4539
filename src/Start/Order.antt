-- ===== src/Start/Order.antt =====
-- What the parts of the kernel find of one another when init of kernel/main.c has started them.
use nar_os.Prelude.{ℕ, ◌*◌, ◌<◌, ◌≡◌, refl, true, some, [], ◌==◌, arith, if◌then◌else◌}
use nar_os.Prelude.Bits.{bit}
use nar_os.Interrupt.{set_interrupt_mask, interrupt_hardler_register}
use nar_os.Device.{device_init}
use nar_os.Mem.{user_vma_start, FrameMap, get_page, page}
use nar_os.Mem.Init.{memory_init}
use nar_os.Mem.Paging.{Machine, UserMemory, walk}
use nar_os.Mem.Paging.Walk.{IsSelfMapped}
use nar_os.Mem.Paging.Boot.{cr3_page_dic}
use nar_os.Mem.Paging.Kernel.{IsPlaced, kernel_pte_init_lem, kernel_machine}
use nar_os.Rootfs.{Rootfs, mknod}
use nar_os.Device.{dev_keyboard}
use nar_os.Vfs.{vfs_init}
use nar_os.Tty.{tty_init}
use nar_os.Globa.{globa_init}
use nar_os.Prelude.Int.{pos}
use nar_os.Task.Ring.{IsRing}
use nar_os.Task.Boot.{task_init, task_init-IsRing}
use nar_os.Start.{
  Symbols, System, Loaded, multiboot_bootloader_magic, check_grub, interrupt_init, start, input,
}
use nar_os.Start.Files.{HasFiles, vfs_init-HasFiles}
use nar_os.Start.Tables.{
  root_machine, init_mm_struct_lem, root_machine-IsSelfMapped, root_machine-walk,
}
use nar_os.Start.Steps.{
  HasDevices, register_all-inside, with_terminal, with_keyboard, keyboard_installs,
  installed-HasDevices, with_memory, with_tasks, with_keyboard_on, start_memory_lem,
  start_tasks_lem, keyboard_init_lem, start_steps,
}

-- The handler of each vector in the end.
abbrev pub handler_of : Symbols → ℕ → ℕ
handler_of y v =
    if v == 0x21
    then y.keyboard_handler
    else if v == 0x20
    then y.clock_int
    else if v == 0xe
    then y.page_int
    else y.exception_handler

-- What the kernel is when the first user's task is about to start.
pub record Booted (y : Symbols) (l : Loaded) (mode : ℕ) (s : System) : Type 0 where
  pub handlers : (v : ℕ) → v < 256 → s.handlers v ≡ handler_of y v
  pub lines : s.masks ≡ record { master = 0b11111100; slave = 0b11111111 }
  pub devices : HasDevices y s.devices
  pub files : HasFiles mode s.fs
  pub ring : IsRing s.kernel.tasks y.root_task_pcb []
  pub self : IsSelfMapped s.kernel.memory.machine
  pub directory : s.kernel.memory.machine.cr3 ≡ y.page_dic
  pub direct : (vaddr : ℕ) → vaddr < 0x2000000 → walk s.kernel.memory.machine vaddr ≡ some vaddr
  pub root_pde : (s.kernel.users y.root_mm).pde ≡ y.page_dic * 4096

-- The last state, from the memory's tables and the files.
unfoldable pub final : Symbols → UserMemory → Machine → Machine → Rootfs → Rootfs → System → System
unfolding with_memory with_tasks with_keyboard_on
final y mm m m' r fs s =
    with_keyboard_on y
      (with_keyboard y.keyboard_read (with_terminal y.tty_write (device_init s.devices))) fs
      (record (with_tasks y mm m' (
        with_memory y m (
          interrupt_init y (record s {
            devices = with_terminal y.tty_write (device_init s.devices);
            tty = tty_init s.tty;
            gdt = globa_init y.tss;
          })))) { fs = r })

final-handlers :
    (y : Symbols) (mm : UserMemory) (m m' : Machine) (r fs : Rootfs) (s : System) (v : ℕ)
    → v < 256
    → (final y mm m m' r fs s).handlers v ≡ handler_of y v
unfolding final interrupt_init task_init interrupt_hardler_register
final-handlers y mm m m' r fs s v h =
    rw (register_all-inside 256 y.exception_handler 0 v s.handlers (omega arith) (omega (arith, h)))
      refl

pub final-Booted :
    (y : Symbols) (l : Loaded) (s : System) (mode a : ℕ) (g : FrameMap)
    (placed : IsPlaced y.page_dic y.page_tables a) (r fs : Rootfs)
    → s.kernel.tasks.process_num ≡ 0
    → HasFiles mode fs
    → let k = record s.kernel.memory.machine { frames = (memory_init l.old l.mmap).1 } in
      Booted y l mode (
        final y
          (record { pde = y.page_dic * 4096; brk = user_vma_start; sbrk = user_vma_start })
          (kernel_machine y.page_dic y.page_tables a placed k g)
          (root_machine y.page_dic y.page_tables a placed k g)
          r
          fs
          s)
unfolding final interrupt_init task_init set_interrupt_mask
final-Booted y l s mode a g placed r fs none_yet files =
    let k : Machine = record s.kernel.memory.machine { frames = (memory_init l.old l.mmap).1 } in
    let mm : UserMemory = record {
      pde = y.page_dic * 4096;
      brk = user_vma_start;
      sbrk = user_vma_start;
    } in
    let m = kernel_machine y.page_dic y.page_tables a placed k g in
    let m' = root_machine y.page_dic y.page_tables a placed k g in
    let here : (y.root_mm == y.root_mm) ≡ true = ground arith in
    record {
      handlers = λ v h. final-handlers y mm m m' r fs s v h;
      lines = refl;
      devices = installed-HasDevices y s.devices;
      files = files;
      ring =
          (task_init-IsRing y.root_task_pcb y.root_mm y.clock_int 0 s.handlers
            (record { master = 255; slave = 255 }) (record s.kernel.tasks { cr3 = m.cr3 * 4096 })
            none_yet (omega arith) (omega arith)).0;
      self = root_machine-IsSelfMapped y.page_dic y.page_tables a placed k g;
      directory = cr3_page_dic y.page_dic y.page_tables a placed k g;
      direct = root_machine-walk y.page_dic y.page_tables a placed k g;
      root_pde = rw here refl;
    }

pub start_runs :
    (y : Symbols) (l : Loaded) (s : System) (a : ℕ) (g : FrameMap)
    (placed : IsPlaced y.page_dic y.page_tables a) (r fs : Rootfs)
    → l.magic ≡ multiboot_bootloader_magic
    → bit l.flags 6 ≡ 1
    → l.alloc ≡ true
    → get_page (memory_init l.old l.mmap).1 ≡ (page a, g)
    → vfs_init true l.home_sb ≡ some r
    → mknod true input dev_keyboard 0 r ≡ some (pos 0, fs)
    → let k = record s.kernel.memory.machine { frames = (memory_init l.old l.mmap).1 } in
      start y l s
      ≡ some (
          final y
            (record { pde = y.page_dic * 4096; brk = user_vma_start; sbrk = user_vma_start })
            (kernel_machine y.page_dic y.page_tables a placed k g)
            (root_machine y.page_dic y.page_tables a placed k g)
            r
            fs
            s)
unfolding final interrupt_init with_memory with_tasks check_grub
start_runs y l s a g placed r fs magic flags alloc got vfs node =
    let k : Machine = record s.kernel.memory.machine { frames = (memory_init l.old l.mmap).1 } in
    let mm : UserMemory = record {
      pde = y.page_dic * 4096;
      brk = user_vma_start;
      sbrk = user_vma_start;
    } in
    let m = kernel_machine y.page_dic y.page_tables a placed k g in
    let m' = root_machine y.page_dic y.page_tables a placed k g in
    let terminal = with_terminal y.tty_write (device_init s.devices) in
    let s1 : System =
      interrupt_init y
        (record s { devices = terminal; tty = tty_init s.tty; gdt = globa_init y.tss }) in
    let s2 = with_memory y m s1 in
    let s3 = with_tasks y mm m' s2 in
    let magic_right : check_grub l.magic ≡ some tt = rw magic refl in
    start_steps y l s s2 s3 (final y mm m m' r fs s) r magic_right
      (start_memory_lem y l s1 m flags
        (kernel_pte_init_lem y.page_dic y.page_tables a placed k g got))
      (start_tasks_lem y s2 mm m' (init_mm_struct_lem y.page_dic y.page_tables a placed k g))
      (rw alloc vfs)
      (keyboard_init_lem y l.alloc (record s3 { fs = r }) 2 (with_keyboard y.keyboard_read terminal)
        (pos 0) fs (keyboard_installs y.tty_write y.keyboard_read s.devices) (rw alloc node))

-- With GRUB's magic number, a map of memory, no task yet, the kernel's image in its 16 MB and a free
-- frame above it, the parts start: every vector has its handler and every other the exception
-- handler; the lines of the clock and the keyboard are let through and no other; the terminal and
-- the keyboard are found, ready, with their drivers, and as files; the root task alone is in the
-- ring, and its directory, which shows itself in its last slot, maps the first 32 MB to themselves.
pub start-Booted :
    (y : Symbols) (l : Loaded) (s : System) (mode a : ℕ) (g : FrameMap)
    → l.magic ≡ multiboot_bootloader_magic
    → bit l.flags 6 ≡ 1
    → l.alloc ≡ true
    → s.kernel.tasks.process_num ≡ 0
    → IsPlaced y.page_dic y.page_tables a
    → get_page (memory_init l.old l.mmap).1 ≡ (page a, g)
    → (s' : System) × (start y l s ≡ some s') × Booted y l mode s'
start-Booted y l s mode a g magic flags alloc none_yet placed got =
    let (r, fs, vfs, node, files) = vfs_init-HasFiles l.home_sb mode in
    (
      _,
      start_runs y l s a g placed r fs magic flags alloc got vfs node,
      final-Booted y l s mode a g placed r fs none_yet files,
    )
