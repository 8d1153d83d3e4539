-- ===== src/Start.antt =====
-- `init` of kernel/main.c: the parts of the kernel in the order in which it starts them. What is
-- printed and the loads of the processor's registers are left out; `heap_init` only prints.
-- `none` is a panic, or a fault inside the kernel's own accesses.
pub mod Files
pub mod Frames
pub mod Heap
pub mod Words
pub mod Touch
pub mod HeapWrites
pub mod Tables
pub mod Steps
pub mod Order
pub mod Spawn
pub mod First
pub mod Life
pub mod Child
mod Tests
use nar_os.Prelude.{
  ℕ, zero, suc, ◌+◌, ◌*◌, Bool, true, Option, none, some, List, [], ◌∷◌, ◌++◌, ◌==◌, if◌then◌else◌,
  ◌>>=◌,
}
use nar_os.Prelude.Words.{update}
use nar_os.Prelude.Bits.{bit}
use nar_os.CString.{CStr}
use nar_os.Interrupt.{Output, Masks, pic_init, set_interrupt_mask, interrupt_hardler_register}
use nar_os.Globa.{Descriptor, Gate, globa_init, idt_init}
use nar_os.Device.{DeviceList, device_init, device_install, dev_char, dev_tty, dev_keyboard}
use nar_os.Tty.{Tty, tty_init}
use nar_os.Rootfs.{Rootfs, mknod}
use nar_os.Vfs.{vfs_init}
use nar_os.Mem.Init.{MemoryMap, memory_init}
use nar_os.Mem.Paging.{Machine, UserMemory, init_mm_struct}
use nar_os.Mem.Paging.Kernel.{kernel_pte_init}
use nar_os.Mem.Paging.User.{touch}
use nar_os.Mem.Paging.Copy.{Memory}
use nar_os.Task.Boot.{Started, task_init}
use nar_os.Apic.{Writes}
use nar_os.Apic.Wake.{ap_init}
use nar_os.Exec.{Kernel, Unset, sys_exec}

abbrev pub multiboot_bootloader_magic : ℕ
multiboot_bootloader_magic = 0x2BADB002

-- Addresses of functions and globals, and the frames of the kernel's directory and of its first table.
pub record Symbols : Type 0 where
  pub exception_handler : ℕ
  pub page_int : ℕ
  pub clock_int : ℕ
  pub keyboard_handler : ℕ
  pub tty_write : ℕ
  pub keyboard_read : ℕ
  pub handler_entry_table : ℕ → ℕ
  pub default_int_hardler : ℕ
  pub syscall_handler : ℕ
  pub tss : ℕ
  pub root_task_pcb : ℕ
  pub root_mm : ℕ
  pub page_dic : ℕ
  pub page_tables : ℕ

-- The globals of the parts; `kernel` has the tasks and the memory.
pub record System : Type 0 where
  pub devices : DeviceList
  pub tty : Tty
  pub gdt : ℕ → Descriptor
  pub idt : ℕ → Gate
  pub handlers : ℕ → ℕ
  pub masks : Masks
  pub out : Output
  pub kernel : Kernel
  pub fs : Rootfs

-- What the boot loader and kalloc give: the magic number, the flags, the map of memory, what the memory of the
-- frame map held, whether the checked allocations succeed, the super block of the disk, and the bytes that
-- `ap_init` copies.
pub record Loaded : Type 0 where
  pub magic : ℕ
  pub flags : ℕ
  pub mmap : List MemoryMap
  pub old : ℕ → ℕ
  pub alloc : Bool
  pub home_sb : ℕ
  pub apup : List ℕ
  pub gdt_ptr : List ℕ
  pub idt_48 : List ℕ

unfoldable pub check_grub : ℕ → Option (Unit {0})
check_grub magic = if magic == multiboot_bootloader_magic then some tt else none

-- The loop of `interrupt_init` over the handlers, with `n` rounds left.
unfoldable pub register_all : ℕ → ℕ → ℕ → (ℕ → ℕ) → ℕ → ℕ
register_all zero handler i list = list
register_all (suc n) handler i list =
    register_all n handler (i + 1) (interrupt_hardler_register i handler list)

-- `interrupt_init`, which closes every line.
unfoldable pub interrupt_init : Symbols → System → System
interrupt_init y s = record s {
  out = s.out ++ pic_init;
  masks = record { master = 255; slave = 255 };
  idt = idt_init y.handler_entry_table y.default_int_hardler y.syscall_handler s.idt;
  handlers = register_all 256 y.exception_handler 0 s.handlers;
}

-- Bit 6 of the flags says that there is a map.
unfoldable pub check_map : ℕ → Option (Unit {0})
check_map flags = if bit flags 6 == 1 then some tt else none

-- `memory_init`, with paging on in the end.
unfoldable pub start_memory : Symbols → Loaded → System → Option System
start_memory y l s = do
  checked ← check_map l.flags
  let (page_map, frames) = memory_init l.old l.mmap
  m ← kernel_pte_init y.page_dic y.page_tables (record s.kernel.memory.machine { frames = frames })
  some (record s {
    handlers = interrupt_hardler_register 0xe y.page_int s.handlers;
    kernel = record s.kernel {
      tasks = record s.kernel.tasks { cr3 = m.cr3 * 4096 };
      memory = record s.kernel.memory { machine = m };
    };
  })

-- `task_init` with `init_mm_struct`.
unfoldable pub start_tasks : Symbols → System → Option System
start_tasks y s = do
  (mm, m) ← init_mm_struct s.kernel.memory.machine
  let started = task_init y.root_task_pcb y.root_mm y.clock_int s.handlers s.masks s.kernel.tasks
  some (record s {
    out = s.out ++ started.out;
    handlers = started.handlers;
    masks = started.masks;
    kernel = record {
      tasks = started.tasks;
      users = update s.kernel.users y.root_mm mm;
      memory = record s.kernel.memory { machine = m };
    };
  })

-- "main screen", "main keyboard" and "/dev/input"
abbrev pub main_screen : CStr
main_screen = b'm' ∷ b'a' ∷ b'i' ∷ b'n' ∷ b' ' ∷ b's' ∷ b'c' ∷ b'r' ∷ b'e' ∷ b'e' ∷ b'n' ∷ []

abbrev pub main_keyboard : CStr
main_keyboard =
    b'm' ∷ b'a' ∷ b'i' ∷ b'n' ∷ b' ' ∷ b'k' ∷ b'e' ∷ b'y' ∷ b'b' ∷ b'o' ∷ b'a' ∷ b'r' ∷ b'd' ∷ []

abbrev pub input : CStr
input = b'/' ∷ b'd' ∷ b'e' ∷ b'v' ∷ b'/' ∷ b'i' ∷ b'n' ∷ b'p' ∷ b'u' ∷ b't' ∷ []

-- `keyboard_init`
unfoldable pub keyboard_init : Symbols → Bool → System → Option System
keyboard_init y alloc s = do
  (dev, devices) ← device_install dev_char dev_keyboard main_keyboard 0 y.keyboard_read 0 s.devices
  (ret, fs) ← mknod alloc input dev_keyboard 0 s.fs
  some (record s {
    handlers = interrupt_hardler_register 0x21 y.keyboard_handler s.handlers;
    masks = set_interrupt_mask 1 true s.masks;
    devices = devices;
    fs = fs;
  })

-- `init` in front of `ap_init`. The page faults of its first writes to the kernel's heap follow in
-- `init`: they change nothing but the page tables and the frames, which the parts behind
-- `task_init` do not read.
unfoldable pub start : Symbols → Loaded → System → Option System
start y l s = do
  (dev, devices) ←
      device_install dev_char dev_tty main_screen 0 0 y.tty_write (device_init s.devices)
  checked ← check_grub l.magic
  memory ← start_memory y l (
      interrupt_init y
        (record s { devices = devices; tty = tty_init s.tty; gdt = globa_init y.tss }))
  tasks ← start_tasks y memory
  fs ← vfs_init l.alloc l.home_sb
  keyboard_init y l.alloc (record tasks { fs = fs })

-- Writes to the kernel's heap at the addresses of a list, in order: the first one to a page is a page
-- fault, which takes a frame.
unfoldable pub touch_all : (running : UserMemory) → List ℕ → Machine → Option Machine
touch_all running [] m = some m
touch_all running (v ∷ vs) m = do m' ← touch running v m; touch_all running vs m'

-- `init` with `ap_init` and `sys_exec(child, PAGE_SIZE)`; `child` are the bytes there, and the numbers
-- are those that `sys_exec` takes. `heap` are the addresses in the kernel's heap that `vfs_init` and
-- `keyboard_init` write to, the headers of the blocks included, and `blocks` those that `sys_exec` writes
-- to outside the page of the new directory; a page that it first writes to behind that page has its
-- fault in front of it here. The process number is printed; the words are those that `ap_init`
-- writes to the interrupt controller.
unfoldable pub init :
    Symbols
    → Loaded
    → (heap blocks : List ℕ) → (label pcb mm block : ℕ) → Unset
    → List ℕ
    → System
    → Option (ℕ × Writes × System)
init y l heap blocks label pcb mm block u child s = do
  started ← start y l s
  let running = started.kernel.users (started.kernel.tasks.at started.kernel.tasks.running).mm
  m ← touch_all running heap started.kernel.memory.machine
  (wakes, memory) ←
      ap_init running l.apup l.gdt_ptr l.idt_48 (record started.kernel.memory { machine = m })
  m' ← touch_all running blocks memory.machine
  (pid, kernel) ←
      sys_exec label y.root_task_pcb pcb mm block u child
        (record started.kernel { memory = record memory { machine = m' } })
  some (pid, wakes, record started { kernel = kernel })
