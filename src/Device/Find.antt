-- ===== src/Device/Find.antt =====
-- Which device `device_find` names.
use native.Mathlib.Numerals.{add-one}
use nar_os.Prelude.{
  refl, ℕ, zero, suc, ◌+◌, ◌≤◌, ◌<◌, ◌≡◌, inl, inr, Option, none, some, arith, ◌==◌, Bool-cases,
  if◌then◌else◌,
}
use nar_os.Device.{DeviceList, device_find_loop, device_find}

-- How many devices in front of `n` have the subtype.
pub count : DeviceList → ℕ → ℕ → ℕ
count l subtype zero = 0
count l subtype (suc n) = count l subtype n + (if (l n).subtype == subtype then 1 else 0)

-- The answer for the device number `wanted` of a subtype, in a table of `size` places.
abbrev pub IsNth : DeviceList → ℕ → ℕ → ℕ → Option ℕ → Type 0
IsNth l subtype wanted size none = count l subtype size ≤ wanted
IsNth l subtype wanted size (some i) =
    (i < size) × ((l i).subtype ≡ subtype) × (count l subtype i ≡ wanted)

device_find_loop-IsNth :
    (n i nr subtype wanted size : ℕ) (l : DeviceList)
    → i + n ≡ size
    → nr ≡ count l subtype i
    → nr ≤ wanted
    → IsNth l subtype wanted size (device_find_loop n i nr subtype wanted l)
unfolding device_find_loop count
device_find_loop-IsNth zero i nr subtype wanted size l e c h =
    let all : i ≡ size = omega arith in rw (← all) (omega arith)
device_find_loop-IsNth (suc n) i nr subtype wanted size l e c h =
    elim (Bool-cases ((l i).subtype == subtype)) [
      | inl hit ↦ rw hit (elim (Bool-cases (nr == wanted)) [
        | inl here ↦ rw here (omega arith, ground arith, ground arith)
        | inr later ↦ rw later (
            device_find_loop-IsNth n (i + 1) (nr + 1) subtype wanted size l (omega arith)
              (rw add-one (ground arith)) (ground arith))
      ])
      | inr miss ↦ rw miss (
          device_find_loop-IsNth n (i + 1) nr subtype wanted size l (omega arith)
            (rw add-one (ground arith)) h)
    ]

-- `device_find` returns the device of the subtype that has exactly `wanted` devices of the subtype
-- in front of it, and NULL exactly if the table holds no more than `wanted` of them.
pub device_find-IsNth :
    (subtype wanted : ℕ) (l : DeviceList) → IsNth l subtype wanted 32 (device_find subtype wanted l)
unfolding device_find
device_find-IsNth subtype wanted l =
    device_find_loop-IsNth 32 0 0 subtype wanted 32 l refl (unfold count in refl) (omega arith)
