-- ===== src/Device/Access.antt =====
-- Calls on devices.
use mathlib.Core.Path.{fun_ext}
use nar_os.Prelude.{
  ap, Bool-cases, inl, inr, ℕ, ◌<◌, ◌≡◌, ◌≢◌, false, some, arith, ◌==◌, if◌then◌else◌,
}
use nar_os.Prelude.Int.{ℤ, negsuc}
use nar_os.Prelude.Words.{update}
use nar_os.Device.{
  DeviceList, returns, device_get, device_call, device_ioctl, device_read, device_write,
}

-- The device exists and is not in use.
pub record IsReady (l : DeviceList) (dev : ℕ) : Type 0 where
  pub positive : 0 < dev
  pub in_table : dev < 32
  pub installed : (l dev).type ≢ 0
  pub idle : (l dev).in_use ≡ false

module _ {W : Type 0} (call : ℕ → ℕ → W → ℤ × W) where
  -- What a call through the function pointer `f` returns: -1 if the driver has no such function,
  -- or else what the driver's function returns.
  abbrev pub answer : ℕ → ℕ → W → ℤ × W
  answer f this w = if f == 0 then (negsuc 0, w) else call f this w

  device_call-idle :
      (f dev : ℕ) (l : DeviceList) (w : W)
      → (l dev).in_use ≡ false
      → device_call call f dev l w
        ≡ returns (answer f (l dev).this_device w).0 l (answer f (l dev).this_device w).1
  unfolding device_call
  device_call-idle f dev l w idle = elim (Bool-cases (f == 0)) [
    | inl missing ↦ rw missing
    | inr there ↦
        rw (there, device_call, idle)
          (ap (λ m. returns (call f (l dev).this_device w).0 m (call f (l dev).this_device w).1)
            (fun_ext same))
  ]
    where
      same : (j : ℕ) → update l dev (record (l dev) { in_use = false }) j ≡ l j
      same j = ground (arith, idle)

  device_get-ready : (dev : ℕ) (l : DeviceList) → IsReady l dev → device_get dev l ≡ some dev
  unfolding device_get
  device_get-ready dev l r = ground (arith, r.positive, r.in_table, r.installed)

  -- On an installed device that is not in use, the three calls return what the driver's function
  -- returns, or -1 if the driver has none, and leave the table as it was: no device in use.
  pub device_calls :
      (dev : ℕ) (l : DeviceList) (w : W)
      → IsReady l dev
      → let d = l dev in
        (device_read call dev l w
          ≡ returns (answer d.read d.this_device w).0 l (answer d.read d.this_device w).1)
        × (device_write call dev l w
            ≡ returns (answer d.write d.this_device w).0 l (answer d.write d.this_device w).1)
        × (device_ioctl call dev l w
            ≡ returns (answer d.ioctl d.this_device w).0 l (answer d.ioctl d.this_device w).1)
  unfolding device_read device_write device_ioctl
  device_calls dev l w r =
      let ready = device_get-ready dev l r in
      (
        rw (ready, device_read) (device_call-idle (l dev).read dev l w r.idle),
        rw (ready, device_write) (device_call-idle (l dev).write dev l w r.idle),
        rw (ready, device_ioctl) (device_call-idle (l dev).ioctl dev l w r.idle),
      )
