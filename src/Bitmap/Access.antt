-- ===== src/Bitmap/Access.antt =====
-- Reading a bit after writing one.
use nar_os.Prelude.{
  ==_iff, sym, ◌^◌, ℕ, ◌/◌, ◌%◌, ◌<◌, ◌≡◌, ap, ◌∙◌, inl, inr, true, false, arith, ◌==◌,
  if◌then◌else◌, Bool-cases,
}
use nar_os.Prelude.Bits.{
  bit, clear_bit, or_bit, bit-clear_bit, bit-or_bit_one, bit-or_bit_zero, clear_bit-lt,
}
use nar_os.Bitmap.{bitmap_get, bitmap_set}

-- Bit `j` of a byte whose bit `k` is written.
written :
    (x v k j : ℕ)
    → x < 256
    → v < 2
    → k < 8
    → j < 8
    → bit (or_bit (clear_bit x k) v k) j ≡ (if j == k then v else bit x j)
written x v k j hx hv hk hj = elim (Bool-cases (v == 0)) [
  | inl zero_bit ↦
      let is_zero : v ≡ 0 = ground arith in
      let low = clear_bit-lt x k j hx hk hj in
      rw is_zero (bit-or_bit_zero (clear_bit x k) k j low hk hj ∙ bit-clear_bit x k j hx hk hj)
  | inr one_bit ↦
      let is_one : v ≡ 1 = ground arith in
      let low = clear_bit-lt x k j hx hk hj in
      rw is_one
        (bit-or_bit_one (clear_bit x k) k j low hk hj ∙ if_miss j k (bit-clear_bit x k j hx hk hj))
]
  where
    if_miss :
        (j k : ℕ)
        → bit (clear_bit x k) j ≡ (if j == k then 0 else bit x j)
        → (if j == k then 1 else bit (clear_bit x k) j) ≡ (if j == k then 1 else bit x j)
    if_miss j k e = ground (arith, e)

-- After a bit is written with 0 or 1, it reads as that value, and every other bit of the array
-- reads as before.
pub bitmap_get-bitmap_set :
    (m : ℕ → ℕ) (i j v : ℕ)
    → ((a : ℕ) → m a < 256)
    → v < 2
    → bitmap_get (bitmap_set m i v) j ≡ (if j == i then v else bitmap_get m j)
unfolding bitmap_get bitmap_set
bitmap_get-bitmap_set m i j v bytes hv = elim (Bool-cases (j / 8 == i / 8)) [
  | inl same ↦
      let at_byte : j / 8 ≡ i / 8 = (==_iff _ _).0 same in
      let read =
        written (m (i / 8)) v (i % 8) (j % 8) (bytes (i / 8)) hv (omega arith) (omega arith) in
      rw same (
        read ∙ elim (Bool-cases (j == i)) [
          | inl hit ↦ let e : (j % 8 == i % 8) ≡ true = ground arith in rw (hit, e)
          | inr miss ↦
              let e : (j % 8 == i % 8) ≡ false = ground arith in
              rw (miss, e) (ap (λ b. m b / 2 ^ (j % 8) % 2) (sym at_byte))
        ])
  | inr other ↦ let e : (j == i) ≡ false = ground arith in rw (other, e)
]
