-- ===== src/Prelude/Bits.antt =====
-- Single bits of a byte, by checking every byte.
use Prim.Native.Nat.{bit_and, bit_or}
use nar_os.Prelude.{
  ℕ, zero, suc, ◌-◌, ◌*◌, ◌/◌, ◌%◌, ◌^◌, ◌<◌, ◌+◌, ◌≤◌, ◌≡◌, refl, Bool, true, false, inl, inr,
  Bool-cases, arith, ◌==◌, ==_iff, if◌then◌else◌,
}

-- Bit `k` of `x`.
abbrev pub bit : ℕ → ℕ → ℕ
bit x k = x / 2 ^ k % 2

-- `x & ~(1 << k)` and `x | (v << k)`, as a byte.
abbrev pub clear_bit : ℕ → ℕ → ℕ
clear_bit x k = bit_and x (255 - 2 ^ k)

abbrev pub or_bit : ℕ → ℕ → ℕ → ℕ
or_bit x v k = bit_or x (v * 2 ^ k) % 256

-- Whether `test` holds of the numbers from `from` on, `rounds` of them.
every : (rounds from : ℕ) → (ℕ → Bool) → Bool
every zero from test = true
every (suc rounds) from test = if test from then every rounds (from + 1) test else false

every-at :
    (rounds from : ℕ) (test : ℕ → Bool) {i : ℕ}
    → every rounds from test ≡ true
    → from ≤ i
    → i < from + rounds
    → test i ≡ true
unfolding every
every-at zero from test all low high = absurd (omega arith)
every-at (suc rounds) from test {i} all low high = elim (Bool-cases (test from)) [
  | inl first ↦
      let rest : every rounds (from + 1) test ≡ true = ground (arith, all, first) in
      elim (Bool-cases (i == from)) [
        | inl here ↦ let e : i ≡ from = (==_iff i from).0 here in rw e first
        | inr later ↦ every-at rounds (from + 1) test rest (ground arith) (omega arith)
      ]
  | inr fails ↦ absurd (ground (arith, all, fails))
]

-- A check of all bytes and two places.
abbrev check : (ℕ → ℕ → ℕ → Bool) → Bool
check p = every 8 0 (λ j. every 8 0 (λ k. every 256 0 (p j k)))

check_sound :
    (p : ℕ → ℕ → ℕ → Bool) (x k j : ℕ) → check p ≡ true → x < 256 → k < 8 → j < 8 → p j k x ≡ true
check_sound p x k j h hx hk hj =
    let row : every 8 0 (λ l. every 256 0 (p j l)) ≡ true =
      every-at 8 0 (λ i. every 8 0 (λ l. every 256 0 (p i l))) {i = j} h (omega arith)
        (omega arith) in
    let column : every 256 0 (p j k) ≡ true =
      every-at 8 0 (λ l. every 256 0 (p j l)) {i = k} row (omega arith) (omega arith) in
    every-at 256 0 (p j k) column (omega arith) (omega arith)

clear_table : check (λ j k x. bit (clear_bit x k) j == (if j == k then 0 else bit x j)) ≡ true
unfolding every
clear_table = refl

clear_byte : check (λ j k x. clear_bit x k / 256 == 0) ≡ true
unfolding every
clear_byte = refl

set_table : check (λ j k x. bit (or_bit x 1 k) j == (if j == k then 1 else bit x j)) ≡ true
unfolding every
set_table = refl

keep_table : check (λ j k x. bit (or_bit x 0 k) j == bit x j) ≡ true
unfolding every
keep_table = refl

module _ (x k j : ℕ) (hx : x < 256) (hk : k < 8) (hj : j < 8) where
  pub bit-clear_bit : bit (clear_bit x k) j ≡ (if j == k then 0 else bit x j)
  bit-clear_bit = (==_iff _ _).0 (check_sound _ x k j clear_table hx hk hj)

  pub bit-or_bit_one : bit (or_bit x 1 k) j ≡ (if j == k then 1 else bit x j)
  bit-or_bit_one = (==_iff _ _).0 (check_sound _ x k j set_table hx hk hj)

  pub bit-or_bit_zero : bit (or_bit x 0 k) j ≡ bit x j
  bit-or_bit_zero = (==_iff _ _).0 (check_sound _ x k j keep_table hx hk hj)

  pub clear_bit-lt : clear_bit x k < 256
  clear_bit-lt =
      let e : clear_bit x k / 256 ≡ 0 = (==_iff _ _).0 (check_sound _ x k j clear_byte hx hk hj) in
      omega arith
