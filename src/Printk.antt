-- ===== src/Printk.antt =====
-- kernel/printk.c: formatted output on the first terminal, by the device table; and lib/stdio.c, the
-- same for programs. Where `n` conversions write is not kept. `none` is a panic, a read through NULL
-- and what the formats leave undefined.
pub mod Shows
mod Tests
use nar_os.Prelude.{ℕ, ◌+◌, Option, none, some, List, ◌++◌, ◌==◌, if◌then◌else◌, ◌>>=◌}
use nar_os.Prelude.Int.{ℤ, pos, negsuc}
use nar_os.CString.{CStr}
use nar_os.Interrupt.{Output}
use nar_os.Device.{DeviceList, Outcome, returns, waits, panics, device_find, device_write, dev_tty}
use nar_os.Syscall.{Handler, Registers, syscall3, trap}
use nar_os.Tty.{Tty, tty_write}
use nar_os.Vsprintf.{Flags}
use nar_os.Vsprintf.Spec.{Arg}
use nar_os.Vsprintf.Format.{vsprintf}

-- The buffer that a call hands over, and what the terminal's driver changes.
pub record Console : Type 0 where
  pub buf : CStr
  pub out : Output
  pub tty : Tty

-- The driver's functions by their addresses: only that of `tty_write` is one.
abbrev pub tty_call : ℕ → ℕ → ℕ → Console → ℤ × Console
tty_call write_at f this_device c =
    if f == write_at
    then (let (ret, out, tty) = tty_write c.buf c.tty in
        (ret, record c { out = c.out ++ out; tty = tty }))
    else (negsuc 0, c)

-- The static `dev`, where `none` is -1, and the rest.
pub record Printk : Type 0 where
  pub dev : Option ℕ
  pub devices : DeviceList
  pub console : Console

-- `device_find(DEV_TTY,0)->dev`, looked up once.
abbrev pub find_dev : Printk → Option ℕ
find_dev p = elim p.dev [
  | none ↦ elim (device_find dev_tty 0 p.devices) [ none ↦ none | some i ↦ some (p.devices i).dev ]
  | some d ↦ some d
]

abbrev pub store_written : Printk → ℕ → Outcome Console → Option Printk
store_written p d (returns ret l c) = some (record { dev = some d; devices = l; console = c })
store_written p d waits = none
store_written p d panics = none

module _ {D : Type 0} (format_double : D → ℤ → ℤ → Flags → Option CStr) where
  unfoldable pub printk : ℕ → CStr → List (Arg D) → Printk → Option Printk
  printk write_at fmt args p = do
    (i, buf, cells) ← vsprintf format_double fmt args
    d ← find_dev p
    store_written p d
        (device_write (tty_call write_at) d p.devices (record p.console { buf = buf }))

  -- `buf_at` is the address of the buffer. The length goes to the caller, 0 to the system call.
  unfoldable pub printf :
      {W : Type 0}
      → (Handler → ℕ → ℕ → ℕ → ℕ → ℕ → W → Option (ℕ × W))
      → ℕ
      → CStr
      → List (Arg D)
      → Registers
      → W
      → Option (ℕ × CStr × W)
  printf handle buf_at fmt args r w = do
    (i, buf, cells) ← vsprintf format_double fmt args
    (ret, w') ← trap handle (syscall3 3 0 buf_at 0 r) w
    some (i, buf, w')
