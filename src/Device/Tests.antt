-- ===== src/Device/Tests.antt =====
-- Runs of kernel/dev.c and instances of its theorems.
use nar_os.Prelude.{ℕ, ◌≡◌, refl, true, false, none, some, [], ◌==◌, if◌then◌else◌, arith}
use nar_os.Prelude.Words.{update}
use nar_os.Prelude.Int.{ℤ, pos}
use nar_os.Device.{
  Device, DeviceList, returns, waits, panics, device_find, device_find_loop, device_get,
  device_write,
}
use nar_os.Device.Install.{IsNumbered}
use nar_os.Device.Sharing.{
  outside, tested, inside, Shared, tests, sets, Steps, start, step, IsHeld, Steps-IsHeld,
}
use nar_os.Device.Access.{IsReady, device_calls}

abbrev blank : Device
blank = record {
  name = [];
  type = 0;
  subtype = 0;
  dev = 0;
  in_use = false;
  this_device = 0;
  ioctl = 0;
  read = 0;
  write = 0;
}

-- The screen at number 1, with its writing function at address 0x1000.
abbrev screen : Device
screen = record blank { type = 1; subtype = 2; dev = 1; this_device = 1; write = 0x1000 }

abbrev table : DeviceList
table i = if i == 1 then screen else record blank { dev = i; this_device = i }

table-IsNumbered : IsNumbered table
table-IsNumbered i h = ground arith

screen-IsReady : IsReady table 1
screen-IsReady = record {
  positive = omega arith;
  in_table = omega arith;
  installed = omega arith;
  idle = refl;
}

-- A driver that answers with the address it is called at.
abbrev driver : ℕ → ℕ → ℕ → ℤ × ℕ
driver f this w = (pos f, w)

finds : (device_find 2 0 table ≡ some 1) × (device_find 2 1 table ≡ none)
unfolding device_find device_find_loop
finds = (refl, refl)

calls :
    (device_write driver 1 table 5 ≡ returns (pos 0x1000) table 5)
    × (device_write driver 0 table 5 ≡ panics)
    × (device_write driver 2 table 5 ≡ panics)
    × (device_write driver 1 (λ i. record screen { in_use = true }) 5 ≡ waits)
unfolding device_write device_get
calls = ((device_calls driver 1 table 5 screen-IsReady).1, refl, refl, refl)

-- No task in a call.
abbrev unused : Shared
unused = record { in_use = false; phase = λ i. outside }

abbrev task_one_inside : Shared
task_one_inside = record { in_use = true; phase = update (update unused.phase 1 tested) 1 inside }

one_enters : Steps unused task_one_inside
one_enters = step (step start (tests 1 refl refl)) (sets 1 refl)

Steps-IsHeld_example : IsHeld task_one_inside
Steps-IsHeld_example = Steps-IsHeld one_enters (λ e. absurd (ground (arith, e)))
