-- ===== src/Printk/Tests.antt =====
-- Runs of kernel/printk.c and lib/stdio.c, and an instance of the theorem.
use Prim.Native.Char.{code}
use Prim.Native.String.{String}
use nar_os.Prelude.{
  ℕ, ◌^◌, ◌-◌, ◌≡◌, refl, false, Option, none, some, List, [], ◌∷◌, ◌++◌, ◌==◌, if◌then◌else◌,
  arith,
}
use nar_os.Prelude.Int.{ℤ}
use nar_os.CString.{CStr, strlen}
use nar_os.Device.{Device, DeviceList, device_find, device_find_loop, dev_tty}
use nar_os.Device.Access.{IsReady}
use nar_os.Syscall.{Handler, at_sys_write, Registers, system_call_handle}
use nar_os.Vsprintf.{Flags}
use nar_os.Vsprintf.Spec.{word}
use nar_os.Vsprintf.Format.{vsprintf}
use nar_os.Vsprintf.Text.{signed_text}
use nar_os.Printk.{Printk, printk, printf, find_dev}
use nar_os.Printk.Shows.{shown, printk-shows}

abbrev ascii : String → CStr
ascii String.[] = []
ascii (String.◌∷◌ c s) = code c ∷ ascii s

abbrev no_doubles : Unit {0} → ℤ → ℤ → Flags → Option CStr
no_doubles d width precision f = none

-- The terminal at number 1 with its writing function at address 0x1000.
abbrev screen : Device
screen = record {
  name = [];
  type = 1;
  subtype = dev_tty;
  dev = 1;
  in_use = false;
  this_device = 1;
  ioctl = 0;
  read = 0;
  write = 0x1000;
}

abbrev devices : DeviceList
devices i = if i == 1 then screen else record screen { type = 0; subtype = 0 }

abbrev boot : Printk
boot = record {
  dev = none;
  devices = devices;
  console = record {
    buf = [];
    out = [];
    tty = record { screen = λ i. record { ch = 0; flag = 7 }; high = 0; width = 0 };
  };
}

found : find_dev boot ≡ some 1
unfolding device_find device_find_loop
found = refl

ready : IsReady devices 1
ready = record {
  positive = omega arith;
  in_table = omega arith;
  installed = λ e. omega (arith, e);
  idle = refl;
}

printk-shows_example :
    printk no_doubles 0x1000
      (ascii "pid " ++ b'%' ∷ b'd' ∷ ascii "!")
      (word (2 ^ 32 - 42) ∷ [])
      boot
    ≡ some (record {
      dev = some 1;
      devices = devices;
      console = shown (ascii "pid " ++ (signed_text (2 ^ 32 - 42) ++ ascii "!")) boot.console;
    })
printk-shows_example =
    printk-shows no_doubles 0x1000 1 (2 ^ 32 - 42) (ascii "pid ") (ascii "!") [] boot
      (refl, (refl, (refl, (refl, tt)))) (refl, tt) (omega arith) (omega arith) found ready refl
      (omega arith)

-- The system call gets the address of the buffer and the length 0.
abbrev writes : Handler → ℕ → ℕ → ℕ → ℕ → ℕ → List ℕ → Option (ℕ × List ℕ)
writes at_sys_write fd buf len d e w = some (0, fd ∷ buf ∷ len ∷ w)
writes f a b c d e w = none

abbrev regs : Registers
regs = record { edi = 1; esi = 2; ebp = 3; esp = 4; ebx = 5; edx = 6; ecx = 7; eax = 8 }

prints :
    printf no_doubles writes 0x500 (ascii "ab") [] regs []
    ≡ some (2, ascii "ab", 0 ∷ 0x500 ∷ 0 ∷ [])
unfolding printf vsprintf strlen system_call_handle
prints = refl
