-- ===== src/Device/Install.antt =====
-- Which number a new device gets.
use nar_os.Prelude.{
  ℕ, zero, suc, ◌+◌, ◌-◌, ◌≤◌, ◌<◌, ◌≡◌, ◌≢◌, refl, inl, inr, Option, none, some, arith, ◌==◌,
  Bool-cases,
}
use nar_os.Device.{
  Device, DeviceList, get_null_device_loop, get_null_device, device_install, device_init,
}

-- Each device knows its number.
abbrev pub IsNumbered : DeviceList → Type 0
IsNumbered l = (i : ℕ) → i < 32 → (l i).dev ≡ i

-- The places from `i` on, `n` of them, are taken.
abbrev pub Taken : DeviceList → ℕ → ℕ → Type 0
Taken l i n = (j : ℕ) → i ≤ j → j < i + n → (l j).type ≢ 0

abbrev Found : DeviceList → ℕ → ℕ → Option ℕ → Type 0
Found l n i none = Taken l i n
Found l n i (some k) = (i ≤ k) × (k < i + n) × ((l k).type ≡ 0) × Taken l i (k - i)

Taken-next : (l : DeviceList) (i n : ℕ) → (l i).type ≢ 0 → Taken l (i + 1) n → Taken l i (suc n)
Taken-next l i n used rest j lo hi = elim (Bool-cases (j == i)) [
  | inl here ↦ let e : j ≡ i = ground arith in rw e used
  | inr later ↦ rest j (ground arith) (omega arith)
]

Found-next :
    (l : DeviceList) (n i : ℕ) (r : Option ℕ)
    → (l i).type ≢ 0
    → Found l n (i + 1) r
    → Found l (suc n) i r
Found-next l n i none used h = Taken-next l i n used h
Found-next l n i (some k) used (lo, hi, free, first) =
    let step : k - i ≡ suc (k - (i + 1)) = omega arith in
    (omega arith, omega arith, free, rw step (Taken-next l i (k - (i + 1)) used first))

loop-Found : (n i : ℕ) (l : DeviceList) → Found l n i (get_null_device_loop n i l)
unfolding get_null_device_loop
loop-Found zero i l = λ j lo hi. absurd (omega arith)
loop-Found (suc n) i l = elim (Bool-cases ((l i).type == 0)) [
  | inl free ↦ rw free (omega arith, omega arith, ground arith, λ j lo hi. absurd (omega arith))
  | inr used ↦ rw used (Found-next l n i _ (ground arith) (loop-Found n (i + 1) l))
]

-- The place of a new device: the first free one behind 0.
pub record Places (l : DeviceList) (i : ℕ) : Type 0 where
  pub positive : 0 < i
  pub in_table : i < 32
  pub was_null : (l i).type ≡ 0
  pub first : Taken l 1 (i - 1)

-- What an installation has done, or that the table is full and it panics.
abbrev pub Installs : DeviceList → Device → Option (ℕ × DeviceList) → Type 0
Installs l d none = Taken l 1 31
Installs l d (some (i, m)) =
    Places l i
    × (m i ≡ record d { dev = i; in_use = (l i).in_use; this_device = (l i).this_device })
    × ((j : ℕ) → j ≢ i → m j ≡ l j)

-- In a numbered table `device_install` puts the device at the first place behind 0 that holds none,
-- returns that place as the number, and touches no other device; it panics only if all 31 places
-- are taken.
pub device_install-Installs :
    (l : DeviceList) (d : Device)
    → IsNumbered l
    → Installs l d (device_install d.type d.subtype d.name d.ioctl d.read d.write l)
unfolding device_install get_null_device
device_install-Installs l d numbered = go (get_null_device_loop 31 1 l) (loop-Found 31 1 l) refl
  where
    go :
        (r : Option ℕ)
        → Found l 31 1 r
        → get_null_device_loop 31 1 l ≡ r
        → Installs l d (device_install d.type d.subtype d.name d.ioctl d.read d.write l)
    go none h e = rw (e, device_install) h
    go (some i) (lo, hi, free, first) e =
        rw (e, device_install, numbered i hi)
          (
            record { positive = lo; in_table = hi; was_null = free; first = first },
            ground (arith, numbered i hi),
            λ j ne. ground arith,
          )

-- `device_init` numbers the table, and no place is taken.
pub device_init-IsNumbered : (l : DeviceList) → IsNumbered (device_init l)
unfolding device_init
device_init-IsNumbered l i h = ground arith
