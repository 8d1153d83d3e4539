-- ===== src/Vfs/Tests.antt =====
-- Runs of kernel/fs/vfs.c and instances of its theorems.
use nar_os.Prelude.{
  ◌+◌, ℕ, ◌≡◌, refl, false, Option, none, some, arith, [], ◌∷◌, ◌==◌, if◌then◌else◌,
}
use nar_os.Prelude.Int.{ℤ, pos, negsuc}
use nar_os.CString.{CStr}
use nar_os.Device.{Device, DeviceList}
use nar_os.Device.Access.{IsReady}
use nar_os.Vfs.{SuperOperations, InodeOperations, RootFile, RootWorld, file_system_register}

-- A file system whose files are numbers, one for each length of the path, and which counts the
-- calls; the empty path has no file. Its files can be read only.
abbrev numbers : SuperOperations ℕ ℕ
numbers = record {
  open_inode =
      some (λ path mode w. elim path [ [] ↦ some (none, w + 1) | c ∷ cs ↦ some (some c, w + 1) ]);
  make_dir = λ path w. some (pos 0, w + 1);
  make_node = λ path subtype nr w. some (pos 0, w + 1);
}

abbrev number_ops : InodeOperations ℕ ℕ
number_ops = record { read = λ i. some (λ w. some (pos i, w)); write = λ i. none }

-- Descriptors 0 and 1 in use.
abbrev two_open : ℕ → Option ℕ
two_open fd = if fd == 0 then some 7 else if fd == 1 then some 8 else none

abbrev all_open : ℕ → Option ℕ
all_open fd = some fd

registers :
    (file_system_register (some 2) (1 ∷ []) ≡ some (pos 0, 1 ∷ 2 ∷ []))
    × (file_system_register none (1 ∷ []) ≡ some (negsuc 0, 1 ∷ []))
unfolding file_system_register
registers = (refl, refl)

-- A screen at number 1, with its writing function at address 0x1000.
abbrev screen : Device
screen = record {
  name = [];
  type = 1;
  subtype = 2;
  dev = 1;
  in_use = false;
  this_device = 1;
  ioctl = 0;
  read = 0;
  write = 0x1000;
}

abbrev table : DeviceList
table i = if i == 1 then screen else record screen { type = 0; subtype = 0 }

screen-IsReady : IsReady table 1
screen-IsReady = record {
  positive = omega arith;
  in_table = omega arith;
  installed = omega arith;
  idle = refl;
}

abbrev driver : ℕ → ℕ → ℕ → ℤ × ℕ
driver f this w = (pos f, w + 1)

abbrev no_mount : ℕ → CStr → ℕ → RootWorld ℕ → Option (Option ℕ × RootWorld ℕ)
no_mount sb path mode w = some (none, w)

abbrev no_ops : InodeOperations ℕ (RootWorld ℕ)
no_ops = record { read = λ j. none; write = λ j. none }

abbrev no_files : ℕ → Option (RootFile ℕ)
no_files fd = none
