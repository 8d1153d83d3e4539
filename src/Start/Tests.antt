-- ===== src/Start/Tests.antt =====
-- Runs of init of kernel/main.c and instances of its theorems.
use nar_os.Apic.{Writes}
use nar_os.Prelude.{
  replicate, ℕ, List, ◌+◌, ◌<◌, ◌≡◌, refl, true, false, Option, none, some, [], ◌∷◌, arith, inl,
}
use nar_os.Prelude.Int.{ℤ, pos}
use nar_os.Prelude.Words.{update}
use nar_os.CString.{CStr}
use nar_os.Device.{
  device_install, get_null_device, get_null_device_loop, device_init, dev_tty, dev_keyboard,
}
use nar_os.Rootfs.{dev_inode}
use nar_os.Rootfs.Transfer.{resolved}
use nar_os.Mem.{FrameMap, get_page}
use nar_os.Mem.Init.{memory_init}
use nar_os.Mem.Paging.{no_entry}
use nar_os.Mem.Paging.Kernel.{IsPlaced}
use nar_os.Interrupt.{send_eoi}
use nar_os.Start.Life.{clock_int-exits}
use nar_os.Task.{Tasks, clock_int, task_exit, empty_pcb}
use nar_os.Vfs.{InodeOperations, RootWorld, rootfs_op, i_op, sys_open, sys_read, sys_write}
use nar_os.Vfs.Boot.{stdout}
use nar_os.Exec.{no_frame}
use nar_os.Start.{
  Symbols, System, Loaded, check_grub, check_map, start_memory, multiboot_bootloader_magic, start,
  input,
}
use nar_os.Exec.{Unset, words_bytes, frame_words, first_frame}
use nar_os.Exec.Spawn.{HasImage}
use nar_os.Exec.Enlist.{Enlisted}
use nar_os.Task.Ring.{IsRing}
use nar_os.Mem.Paging.Room.{code_at}
use nar_os.Start.{init}
use nar_os.Start.Steps.{HasDevices}
use nar_os.Start.Files.{HasFiles}
use nar_os.Start.First.{init-Spawns}
use nar_os.Start.Heap.{Apart}
use nar_os.Start.HeapWrites.{InHeap}
use nar_os.Apic.Wake.{ap_init, Prepared, ap_init-Prepared}
use nar_os.Mem.Paging.Copy.{Memory}
use nar_os.Start.Tables.{root_machine, root_machine-walk, root_machine-icr_low}
use nar_os.Prelude.{◌/◌, ◌*◌}
use nar_os.Mem.Paging.{walk}
use nar_os.Mem.Paging.Copy.{set_cr3}
use nar_os.Mem.Paging.Lands.{Lies}
use nar_os.Start.Order.{Booted, start-Booted}
use nar_os.Start.Child.{no_files, with_stdout, with_input, child-Opens}

abbrev symbols : Symbols
symbols = record {
  exception_handler = 0x101000;
  page_int = 0x102000;
  clock_int = 0x103000;
  keyboard_handler = 0x104000;
  tty_write = 0x105000;
  keyboard_read = 0x106000;
  handler_entry_table = λ i. 0x107000 + i;
  default_int_hardler = 0x108000;
  syscall_handler = 0x109000;
  tss = 0x110000;
  root_task_pcb = 0x111000;
  root_mm = 0x112000;
  page_dic = 0x200;
  page_tables = 0x201;
}

-- 126 MB behind the first one, 16 of them for the kernel
abbrev loaded : Loaded
loaded = record {
  magic = multiboot_bootloader_magic;
  flags = 0x40;
  mmap =
      record { addr = 0; len = 0x9fc00; type = 1 }
      ∷ record { addr = 0x100000; len = 0x7ee0000; type = 1 }
      ∷ [];
  old = λ i. 7;
  alloc = true;
  home_sb = 1;
  apup = replicate 512 0x90;
  gdt_ptr = replicate 6 0x11;
  idt_48 = replicate 6 0x22;
}

abbrev before : System
before = record {
  devices = λ i. record {
    name = [];
    type = 0;
    subtype = 0;
    dev = 0;
    in_use = false;
    this_device = 0;
    ioctl = 0;
    read = 0;
    write = 0;
  };
  tty = record { screen = λ i. record { ch = 0; flag = 0 }; high = 0; width = 0 };
  gdt = λ i. record {
    limit_low = 0;
    base_low = 0;
    type = 0;
    segment = 0;
    dpl = 0;
    present = 0;
    limit_high = 0;
    available = 0;
    long_mode = 0;
    big = 0;
    granularity = 0;
    base_high = 0;
  };
  idt = λ i. record {
    offset0 = 0;
    selector = 0;
    reserved = 0;
    type = 0;
    segment = 0;
    dpl = 0;
    present = 0;
    offset1 = 0;
  };
  handlers = λ i. 0;
  masks = record { master = 0; slave = 0 };
  out = [];
  kernel = record {
    tasks = record {
      at = λ j. empty_pcb;
      spaces = λ j. record { pde = 0; kernel_stack_start = 0 };
      frames = λ j. no_frame;
      running = 0;
      process_num = 0;
      pid_total = 0;
      esp0 = 0;
      cr3 = 0;
    };
    users = λ j. record { pde = 0; brk = 0; sbrk = 0 };
    memory = record {
      machine = record {
        cr3 = 0;
        entries = λ w. no_entry;
        frames = record { memory_base = 0; memory_size = 0; total_page = 0; page_map = λ i. 0 };
      };
      bytes = λ q. 0;
    };
  };
  fs = record { maps = []; inodes = λ i. dev_inode 0 0; next_inode = 0; mounted = [] };
}

-- Without GRUB's magic number, or without a map of memory, the kernel stops.
stops :
    (start symbols (record loaded { magic = 0 }) before ≡ none)
    × (start symbols (record loaded { flags = 0x200 }) before ≡ none)
unfolding start check_grub start_memory check_map device_install get_null_device
    get_null_device_loop device_init
stops = (refl, refl)

placed : IsPlaced symbols.page_dic symbols.page_tables 0x1107
placed = record {
  directory_low = omega arith;
  tables_low = omega arith;
  disjoint = inl (omega arith);
  above = omega arith;
  small = omega arith;
}

abbrev frames : FrameMap
frames = (memory_init loaded.old loaded.mmap).1

abbrev frames_after : FrameMap
frames_after = record frames { page_map = update frames.page_map 0x1107 1 }

takes_first : get_page frames ≡ (0x1107000, frames_after)
unfolding get_page memory_init
takes_first = refl

start-Booted_example :
    (s : System) × (start symbols loaded before ≡ some s) × Booted symbols loaded 0 s
start-Booted_example =
    start-Booted symbols loaded before 0 0x1107 frames_after refl refl refl refl placed takes_first

-- The functions of the drivers return their addresses; the calls are counted.
abbrev call : ℕ → ℕ → ℕ → ℤ × ℕ
call f dev v = (pos f, v + 1)

abbrev no_mounted_open : ℕ → CStr → ℕ → RootWorld ℕ → Option (Option ℕ × RootWorld ℕ)
no_mounted_open sb path mode w = some (none, w)

abbrev no_mounted : InodeOperations ℕ (RootWorld ℕ)
no_mounted = record { read = λ j. none; write = λ j. none }

abbrev world : System → RootWorld ℕ
world s = record { fs = s.fs; devices = s.devices; rest = 0 }

child-Opens_example :
    (s : System) × (start symbols loaded before ≡ some s)
    × (sys_open (some (rootfs_op 0 no_mounted_open true)) stdout 0 no_files (world s)
        ≡ some (pos 0, with_stdout, world s))
    × (sys_open (some (rootfs_op 0 no_mounted_open true)) input 0 with_stdout (world s)
        ≡ some (pos 1, with_input, world s))
    × (sys_write (i_op call no_mounted) (pos 0) with_input (world s)
        ≡ some (pos 0x105000, record (world s) { fs = resolved 2 dev_tty 0 1 s.fs; rest = 1 }))
    × (sys_read (i_op call no_mounted) (pos 1) with_input (world s)
        ≡ some (pos 0x106000, record (world s) { fs = resolved 4 dev_keyboard 0 2 s.fs; rest = 1 }))
child-Opens_example =
    let b =
      start-Booted symbols loaded before 0 0x1107 frames_after refl refl refl refl placed
        takes_first in
    let c =
      child-Opens call no_mounted_open no_mounted symbols (b.0).devices (b.0).fs 0 0 b.2.devices
        b.2.files in
    (b.0, b.1, c.0, c.1, c.2, c.3)

abbrev unset : Unset
unset = record { edi = 0; esi = 0; esp = 0; ebx = 0; edx = 0; ecx = 0; eax = 0; error = 0 }

-- push ebp; mov ebp, esp; jmp back
abbrev code : List ℕ
code = 0x55 ∷ 0x89 ∷ 0xe5 ∷ 0xeb ∷ 0xfb ∷ []

abbrev frame : List ℕ
frame = words_bytes (frame_words unset (first_frame 0x120000 0x40002000 code_at))

abbrev wakes : Writes
wakes = (0xFF000300, 0xc4500) ∷ (0xFF000300, 0xc4600) ∷ (0xFF000300, 0xc4600) ∷ []

-- The blocks of kalloc are in the first two pages of the kernel's heap, and the directory in the third.
abbrev heap : List ℕ
heap = 0x2000000 ∷ 0x2000400 ∷ []

abbrev blocks : List ℕ
blocks = 0x2000900 ∷ 0x20009c0 ∷ 0x2001a0c ∷ []

heap-InHeap : InHeap heap
heap-InHeap = (omega arith, omega arith, (omega arith, omega arith, tt))

blocks-InHeap : InHeap blocks
blocks-InHeap =
    (omega arith, omega arith, (omega arith, omega arith, (omega arith, omega arith, tt)))

heap-Apart : Apart 0x2002000 heap
heap-Apart = (λ e. omega (arith, e), (λ e. omega (arith, e), tt))

blocks-Apart : Apart 0x2002000 blocks
blocks-Apart = (λ e. omega (arith, e), (λ e. omega (arith, e), (λ e. omega (arith, e), tt)))

abbrev Spawned : System → Type 0
Spawned s =
    init symbols loaded heap blocks 0x120000 0x2000910 0x20009d0 0x2001a24 unset code before
    ≡ some (1, wakes, s)

init-Spawns_example :
    (directory_frame : ℕ) × (code_frame : ℕ) × (stack_frame : ℕ) × (s : System) × Spawned s
    × (0x1107 < directory_frame)
    × (directory_frame < code_frame)
    × (code_frame < stack_frame)
    × HasImage s.kernel 0x20009d0 code frame code_frame stack_frame
    × Enlisted s.kernel.tasks 0x2000910 0x20009d0 (directory_frame * 4096) 0x40002000 1
    × IsRing s.kernel.tasks 0x111000 (0x2000910 ∷ [])
    × (s.kernel.tasks.running ≡ 0x111000)
    × HasDevices symbols s.devices
    × HasFiles 0 s.fs
unfolding memory_init
init-Spawns_example =
    init-Spawns symbols loaded before heap blocks 0x120000 0x2000910 0x20009d0 0x2001a24 0 unset
      code refl refl refl refl refl placed (omega arith) (omega arith) heap-InHeap blocks-InHeap
      (omega arith) (omega arith) heap-Apart blocks-Apart (λ e. omega (arith, e)) refl refl refl
      (omega arith) (omega arith)

clock_int-exits_example :
    (directory_frame : ℕ) × (code_frame : ℕ) × (stack_frame : ℕ) × (s : System) × Spawned s
    × (t1 : Tasks) × (t2 : Tasks) × (clock_int 2 0x20 s.kernel.tasks
        ≡ some (send_eoi 0x20, some (0x111000, 0x2000910), t1))
    × (t1.running ≡ 0x2000910)
    × (walk (set_cr3 (t1.cr3 / 4096) s.kernel.memory).machine code_at
        ≡ some (code_frame * 4096 + 0))
    × Lies code (code_frame * 4096 + 0) s.kernel.memory.bytes
    × (walk (set_cr3 (t1.cr3 / 4096) s.kernel.memory).machine (t1.at 0x2000910).esp
        ≡ some (stack_frame * 4096 + 0xFB0))
    × Lies frame (stack_frame * 4096 + 0xFB0) s.kernel.memory.bytes
    × (task_exit 1 2 0x111000 t1 ≡ some (some (0x2000910, 0x111000), t2))
    × (t2.running ≡ 0x111000)
    × IsRing t2 0x111000 []
unfolding memory_init
clock_int-exits_example =
    let b =
      init-Spawns symbols loaded before heap blocks 0x120000 0x2000910 0x20009d0 0x2001a24 0 unset
        code refl refl refl refl refl placed (omega arith) (omega arith) heap-InHeap blocks-InHeap
        (omega arith) (omega arith) heap-Apart blocks-Apart (λ e. omega (arith, e)) refl refl refl
        (omega arith) (omega arith) in
    let c =
      clock_int-exits (b.3).kernel 0x111000 0x2000910 0x20009d0 (b.0 * 4096) 1 b.1 b.2 code frame
        b.10 b.11 b.9 b.8 in
    (b.0, b.1, b.2, b.3, b.4, c.0, c.1, c.2, c.3, c.4, c.5, c.6, c.7, c.8, c.9, c.10)

ap_init-Prepared_example :
    let machine =
      root_machine 0x200 0x201 0x1107 placed before.kernel.memory.machine frames_after in
    let mem : Memory = record { machine = machine; bytes = λ q. 0 } in
    (mem' : Memory) × (ap_init
        (record { pde = 0x200000; brk = 0; sbrk = 0 })
        loaded.apup
        loaded.gdt_ptr
        loaded.idt_48
        mem
      ≡ some (wakes, mem'))
    × Prepared loaded.apup loaded.gdt_ptr loaded.idt_48 mem mem'
ap_init-Prepared_example =
    let m = before.kernel.memory.machine in
    let machine = root_machine 0x200 0x201 0x1107 placed m frames_after in
    ap_init-Prepared (record { pde = 0x200000; brk = 0; sbrk = 0 }) loaded.apup loaded.gdt_ptr
      loaded.idt_48 (record { machine = machine; bytes = λ q. 0 }) 0xFF000300 refl refl refl
      (root_machine-walk 0x200 0x201 0x1107 placed m frames_after)
      (root_machine-icr_low 0x200 0x201 0x1107 placed m frames_after)
