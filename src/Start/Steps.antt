-- ===== src/Start/Steps.antt =====
-- The steps of init of kernel/main.c, one part after the other.
use nar_os.Prelude.{
  ℕ, zero, suc, ◌+◌, ◌*◌, ◌≤◌, ◌<◌, ◌≡◌, refl, true, false, some, ◌==◌, arith, ◌∙◌, Bool-cases, inl,
  inr,
}
use nar_os.Prelude.Bits.{bit}
use nar_os.Prelude.Words.{update}
use nar_os.Interrupt.{set_interrupt_mask, interrupt_hardler_register}
use nar_os.Device.{
  DeviceList, device_init, device_install, device_find, device_find_loop, get_null_device,
  get_null_device_loop, dev_char, dev_tty, dev_keyboard,
}
use nar_os.Device.Access.{IsReady}
use nar_os.Mem.Init.{memory_init}
use nar_os.Mem.Paging.{Machine, UserMemory, init_mm_struct}
use nar_os.Mem.Paging.Kernel.{kernel_pte_init}
use nar_os.Rootfs.{Rootfs, mknod}
use nar_os.Tty.{tty_init}
use nar_os.Globa.{globa_init}
use nar_os.Prelude.{Bool, ◌++◌}
use nar_os.Prelude.Int.{ℤ}
use nar_os.Vfs.{vfs_init}
use nar_os.Task.Boot.{task_init}
use nar_os.Start.{
  Symbols, System, Loaded, register_all, main_screen, main_keyboard, input, check_grub, check_map,
  interrupt_init, start_memory, start_tasks, keyboard_init, start,
}

register_all-outside :
    (n handler i v : ℕ) (list : ℕ → ℕ) → v < i → register_all n handler i list v ≡ list v
unfolding register_all interrupt_hardler_register
register_all-outside zero handler i v list h = refl
register_all-outside (suc n) handler i v list h =
    let other : (v == i) ≡ false = ground (arith, h) in
    register_all-outside n handler (i + 1) v (update list i handler) (omega (arith, h))
    ∙ rw other refl

-- After the loop every vector in its range has the handler.
pub register_all-inside :
    (n handler i v : ℕ) (list : ℕ → ℕ)
    → i ≤ v
    → v < i + n
    → register_all n handler i list v ≡ handler
unfolding register_all interrupt_hardler_register
register_all-inside zero handler i v list low high = absurd (omega (arith, low, high))
register_all-inside (suc n) handler i v list low high = elim (Bool-cases (v == i)) [
  | inl here ↦
      register_all-outside n handler (i + 1) v (update list i handler) (ground (arith, here))
      ∙ rw here refl
  | inr later ↦
      register_all-inside n handler (i + 1) v (update list i handler) (ground (arith, low, later))
        (omega (arith, high))
]

-- The two devices in the table.
unfoldable pub with_terminal : ℕ → DeviceList → DeviceList
with_terminal write l = update l 1 (record (l 1) {
  type = dev_char;
  subtype = dev_tty;
  name = main_screen;
  ioctl = 0;
  read = 0;
  write = write;
})

unfoldable pub with_keyboard : ℕ → DeviceList → DeviceList
with_keyboard read l = update l 2 (record (l 2) {
  type = dev_char;
  subtype = dev_keyboard;
  name = main_keyboard;
  ioctl = 0;
  read = read;
  write = 0;
})

pub terminal_installs :
    (write : ℕ) (l : DeviceList)
    → device_install dev_char dev_tty main_screen 0 0 write (device_init l)
      ≡ some (1, with_terminal write (device_init l))
unfolding device_install device_init get_null_device get_null_device_loop with_terminal
terminal_installs write l = refl

pub keyboard_installs :
    (write read : ℕ) (l : DeviceList)
    → device_install dev_char dev_keyboard main_keyboard 0 read 0
        (with_terminal write (device_init l))
      ≡ some (2, with_keyboard read (with_terminal write (device_init l)))
unfolding device_install device_init get_null_device get_null_device_loop with_terminal
    with_keyboard
keyboard_installs write read l = refl

-- The terminal and the keyboard are found and ready, with their drivers' functions.
pub record HasDevices (y : Symbols) (l : DeviceList) : Type 0 where
  pub terminal : device_find dev_tty 0 l ≡ some 1
  pub keyboard : device_find dev_keyboard 0 l ≡ some 2
  pub terminal_ready : IsReady l 1
  pub keyboard_ready : IsReady l 2
  pub terminal_write : (l 1).write ≡ y.tty_write
  pub keyboard_read : (l 2).read ≡ y.keyboard_read

pub installed-HasDevices :
    (y : Symbols) (l : DeviceList)
    → HasDevices y (with_keyboard y.keyboard_read (with_terminal y.tty_write (device_init l)))
unfolding device_find device_find_loop device_init with_terminal with_keyboard
installed-HasDevices y l = record {
  terminal = refl;
  keyboard = refl;
  terminal_ready = record {
    positive = omega arith;
    in_table = omega arith;
    installed = λ e. omega (arith, e);
    idle = refl;
  };
  keyboard_ready = record {
    positive = omega arith;
    in_table = omega arith;
    installed = λ e. omega (arith, e);
    idle = refl;
  };
  terminal_write = refl;
  keyboard_read = refl;
}

-- The states between the parts.
unfoldable pub with_memory : Symbols → Machine → System → System
with_memory y m s = record s {
  handlers = interrupt_hardler_register 0xe y.page_int s.handlers;
  kernel = record s.kernel {
    tasks = record s.kernel.tasks { cr3 = m.cr3 * 4096 };
    memory = record s.kernel.memory { machine = m };
  };
}

unfoldable pub with_tasks : Symbols → UserMemory → Machine → System → System
with_tasks y mm m s =
    let started =
      task_init y.root_task_pcb y.root_mm y.clock_int s.handlers s.masks s.kernel.tasks in
    record s {
      out = s.out ++ started.out;
      handlers = started.handlers;
      masks = started.masks;
      kernel = record {
        tasks = started.tasks;
        users = update s.kernel.users y.root_mm mm;
        memory = record s.kernel.memory { machine = m };
      };
    }

unfoldable pub with_keyboard_on : Symbols → DeviceList → Rootfs → System → System
with_keyboard_on y devices fs s = record s {
  handlers = interrupt_hardler_register 0x21 y.keyboard_handler s.handlers;
  masks = set_interrupt_mask 1 true s.masks;
  devices = devices;
  fs = fs;
}

pub start_memory_lem :
    (y : Symbols) (l : Loaded) (s : System) (m : Machine)
    → bit l.flags 6 ≡ 1
    → kernel_pte_init y.page_dic y.page_tables
        (record s.kernel.memory.machine { frames = (memory_init l.old l.mmap).1 })
      ≡ some m
    → start_memory y l s ≡ some (with_memory y m s)
unfolding start_memory check_map with_memory
start_memory_lem y l s m flag tables = rw (flag, start_memory, tables) refl

pub start_tasks_lem :
    (y : Symbols) (s : System) (mm : UserMemory) (m : Machine)
    → init_mm_struct s.kernel.memory.machine ≡ some (mm, m)
    → start_tasks y s ≡ some (with_tasks y mm m s)
unfolding start_tasks with_tasks
start_tasks_lem y s mm m linked = rw (linked, start_tasks) refl

pub keyboard_init_lem :
    (y : Symbols) (alloc : Bool) (s : System) (dev : ℕ) (devices : DeviceList) (ret : ℤ)
    (fs : Rootfs)
    → device_install dev_char dev_keyboard main_keyboard 0 y.keyboard_read 0 s.devices
      ≡ some (dev, devices)
    → mknod alloc input dev_keyboard 0 s.fs ≡ some (ret, fs)
    → keyboard_init y alloc s ≡ some (with_keyboard_on y devices fs s)
unfolding keyboard_init with_keyboard_on
keyboard_init_lem y alloc s dev devices ret fs installs node =
    rw (installs, keyboard_init, node) refl

pub start_steps :
    (y : Symbols) (l : Loaded) (s s2 s3 s4 : System) (r : Rootfs)
    → check_grub l.magic ≡ some tt
    → start_memory y l (
        interrupt_init y (record s {
          devices = with_terminal y.tty_write (device_init s.devices);
          tty = tty_init s.tty;
          gdt = globa_init y.tss;
        }))
      ≡ some s2
    → start_tasks y s2 ≡ some s3
    → vfs_init l.alloc l.home_sb ≡ some r
    → keyboard_init y l.alloc (record s3 { fs = r }) ≡ some s4
    → start y l s ≡ some s4
unfolding start
start_steps y l s s2 s3 s4 r checked memory tasks vfs keyboard =
    rw (terminal_installs y.tty_write s.devices, start, checked, memory, tasks, vfs, keyboard) refl
