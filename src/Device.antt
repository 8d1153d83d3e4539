-- ===== src/Device.antt =====
-- kernel/dev.c: the table of devices. A device is named by its position in `device_list`, a function
-- pointer by its address, NULL is 0. Device numbers are not negative.
pub mod Install
pub mod Find
pub mod Access
pub mod Sharing
mod Tests
use nar_os.Prelude.{
  ℕ, zero, suc, ◌+◌, ◌-◌, ◌≤◌, ◌<◌, Bool, true, false, not, ◌&&◌, Option, none, some, List, [], ◌∷◌,
  ltb, leb, ◌==◌, if◌then◌else◌,
}
use nar_os.Prelude.Int.{ℤ, pos, negsuc}
use nar_os.Prelude.Words.{update}
use nar_os.CString.{CStr}

abbrev pub dev_nr : ℕ
dev_nr = 32

abbrev pub dev_null : ℕ
dev_null = 0

abbrev pub dev_char : ℕ
dev_char = 1

-- `device_subtype_t`
abbrev pub dev_keyboard : ℕ
dev_keyboard = 1

abbrev pub dev_tty : ℕ
dev_tty = 2

-- `device_t`; `using` is `in_use`. The name's array has room for 63 bytes.
pub record Device : Type 0 where
  pub name : CStr
  pub type : ℕ
  pub subtype : ℕ
  pub dev : ℕ
  pub in_use : Bool
  pub this_device : ℕ
  pub ioctl : ℕ
  pub read : ℕ
  pub write : ℕ

abbrev pub DeviceList : Type 0
DeviceList = ℕ → Device

-- `none` is a failed assert.
unfoldable pub device_get : ℕ → DeviceList → Option ℕ
device_get dev l =
    if ltb 0 dev && ltb dev dev_nr
    then (if (l dev).type == dev_null then none else some dev)
    else none

abbrev pub device_id_get : ℕ → ℕ
device_id_get device = device

-- The loop with `n` rounds left: `i` is the position, `nr` counts the devices of the subtype so far.
unfoldable pub device_find_loop : ℕ → ℕ → ℕ → ℕ → ℕ → DeviceList → Option ℕ
device_find_loop zero i nr subtype wanted l = none
device_find_loop (suc n) i nr subtype wanted l =
    let skip = device_find_loop n (i + 1) nr subtype wanted l in
    let next = device_find_loop n (i + 1) (nr + 1) subtype wanted l in
    if not ((l i).subtype == subtype) then skip else if nr == wanted then some i else next

-- `none` is NULL.
unfoldable pub device_find : ℕ → ℕ → DeviceList → Option ℕ
device_find subtype wanted l = device_find_loop dev_nr 0 0 subtype wanted l

unfoldable pub device_init : DeviceList → DeviceList
device_init l i =
    if ltb i dev_nr
    then record (l i) {
      type = dev_null;
      subtype = dev_null;
      dev = i;
      ioctl = 0;
      read = 0;
      write = 0;
      this_device = i;
      in_use = false;
    }
    else l i

unfoldable pub get_null_device_loop : ℕ → ℕ → DeviceList → Option ℕ
get_null_device_loop zero i l = none
get_null_device_loop (suc n) i l =
    let rest = get_null_device_loop n (i + 1) l in if (l i).type == dev_null then some i else rest

-- There is no device 0.
unfoldable pub get_null_device : DeviceList → Option ℕ
get_null_device l = get_null_device_loop (dev_nr - 1) 1 l

-- The number of the new device; `none` is a failed assert.
unfoldable pub device_install : ℕ → ℕ → CStr → ℕ → ℕ → ℕ → DeviceList → Option (ℕ × DeviceList)
device_install type subtype name ioctl read write l = elim (get_null_device l) [
  | none ↦ none
  | some i ↦ some (
    (l i).dev,
    update l i (record (l i) {
      type = type;
      subtype = subtype;
      name = name;
      ioctl = ioctl;
      read = read;
      write = write;
    }),
  )
]

-- What a call on a device comes to: a return, a wait in `schedule` for a device in use, or a panic.
pub data Outcome (W : Type 0) : Type 0 where
  returns : ℤ → DeviceList → W → Outcome W
  waits : Outcome W
  panics : Outcome W

-- The driver's function at an address, called with `this_device`, is a parameter; `W` is what it
-- reads and writes, the arguments of the call included.
module _ {W : Type 0} (call : ℕ → ℕ → W → ℤ × W) where
  -- The common part of the three calls, for the function pointer `f` of device `i`.
  unfoldable pub device_call : ℕ → ℕ → DeviceList → W → Outcome W
  device_call f i l w =
      if f == 0
      then returns (negsuc 0) l w
      else if (l i).in_use
      then waits
      else let (ret, w') = call f (l i).this_device w in
        returns ret (update l i (record (l i) { in_use = false })) w'

  unfoldable pub device_ioctl : ℕ → DeviceList → W → Outcome W
  unfolding device_call
  device_ioctl dev l w = elim (device_get dev l) [
    | none ↦ panics
    | some i ↦ device_call (l i).ioctl i l w
  ]

  unfoldable pub device_read : ℕ → DeviceList → W → Outcome W
  unfolding device_call
  device_read dev l w = elim (device_get dev l) [
    | none ↦ panics
    | some i ↦ device_call (l i).read i l w
  ]

  unfoldable pub device_write : ℕ → DeviceList → W → Outcome W
  unfolding device_call
  device_write dev l w = elim (device_get dev l) [
    | none ↦ panics
    | some i ↦ device_call (l i).write i l w
  ]
