-- ===== src/Interrupt/Pic.antt =====
-- The masks of the interrupt controllers.
use nar_os.Prelude.{
  ℕ, ◌-◌, ◌<◌, ◌≡◌, Bool, true, false, arith, ◌==◌, if◌then◌else◌, ltb, Bool-cases, inl, inr,
}
use nar_os.Prelude.Bits.{bit, bit-clear_bit, bit-or_bit_one}
use nar_os.Interrupt.{Masks, set_interrupt_mask}

-- Whether a line is masked: its bit in the register of its controller.
abbrev pub is_masked : Masks → ℕ → ℕ
is_masked m irq = if ltb irq 8 then bit m.master irq else bit m.slave (irq - 8)

-- Enabling one of the 16 lines clears its mask bit, disabling it sets it, and no other line's mask
-- changes.
pub is_masked-set_interrupt_mask :
    (m : Masks) (irq other : ℕ) (enable : Bool)
    → m.master < 256
    → m.slave < 256
    → irq < 16
    → other < 16
    → is_masked (set_interrupt_mask irq enable m) other
      ≡ (if other == irq then (if enable then 0 else 1) else is_masked m other)
unfolding set_interrupt_mask
is_masked-set_interrupt_mask m irq other true hm hs hi ho = elim (Bool-cases (ltb irq 8)) [
  | inl low ↦ elim (Bool-cases (ltb other 8)) [
    | inl low' ↦ ground (arith, bit-clear_bit m.master irq other hm)
    | inr high' ↦ ground arith
  ]
  | inr high ↦ elim (Bool-cases (ltb other 8)) [
    | inl low' ↦ ground arith
    | inr high' ↦ ground (arith, bit-clear_bit m.slave (irq - 8) (other - 8) hs)
  ]
]
is_masked-set_interrupt_mask m irq other false hm hs hi ho = elim (Bool-cases (ltb irq 8)) [
  | inl low ↦ elim (Bool-cases (ltb other 8)) [
    | inl low' ↦ ground (arith, bit-or_bit_one m.master irq other hm)
    | inr high' ↦ ground arith
  ]
  | inr high ↦ elim (Bool-cases (ltb other 8)) [
    | inl low' ↦ ground arith
    | inr high' ↦ ground (arith, bit-or_bit_one m.slave (irq - 8) (other - 8) hs)
  ]
]
