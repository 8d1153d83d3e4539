-- ===== src/Vsprintf/Digits.antt =====
-- The digits of a number.
use native.Mathlib.Nat.{div-lt_iff_lt-mul, mul-le-mul_left, div-add-mod', mod-lt}
use nar_os.Prelude.{
  ℕ, zero, suc, ◌+◌, ◌-◌, ◌*◌, ◌/◌, ◌%◌, ◌^◌, ◌<◌, ◌≤◌, ◌≡◌, ◌≢◌, refl, Bool, true, false, [], ◌∷◌,
  ◌++◌, arith, leb, ◌==◌, ==_iff, if◌then◌else◌, length, Bool-cases, ◌⊎◌, inl, inr, ◌∙◌, ap, sym,
}
use nar_os.CString.{CStr}
use nar_os.Vsprintf.{is_digit, skip_atoi, digit_char, digits_loop, digits_of}

-- The value of a digit in any base.
abbrev pub digit_value : ℕ → ℕ
digit_value c = if leb c b'9' then c - b'0' else if leb c b'Z' then c - b'A' + 10 else c - b'a' + 10

-- The value of a text of digits behind the value `i`.
abbrev pub value : ℕ → ℕ → CStr → ℕ
value base i [] = i
value base i (c ∷ s) = value base (i * base + digit_value c) s

digit_value-digit_char : (small : Bool) (d : ℕ) → d < 36 → digit_value (digit_char small d) ≡ d
digit_value-digit_char true d h = ground arith
digit_value-digit_char false d h = ground arith

-- A round leaves a number of one binary digit less.
quotient-lt : (n base num : ℕ) → 2 ≤ base → num < 2 ^ suc n → num / base < 2 ^ n
quotient-lt n base num hb h =
    (div-lt_iff_lt-mul (omega arith)).1 (omega (arith, h, mul-le-mul_left (2 ^ n) hb))

value-digits_loop :
    (n base num : ℕ) (small : Bool) (out : CStr)
    → 2 ≤ base
    → base ≤ 36
    → num < 2 ^ n
    → value base 0 (digits_loop n small base num out) ≡ value base num out
unfolding digits_loop
value-digits_loop zero base num small out lo hi h = let e : num ≡ 0 = omega (arith, h) in rw e refl
value-digits_loop (suc n) base num small out lo hi h = elim (Bool-cases (num == 0)) [
  | inl none_left ↦
      let e : num ≡ 0 = (==_iff num 0).0 none_left in rw (none_left, digits_loop, e) refl
  | inr more ↦
      let ih =
        value-digits_loop n base (num / base) small (digit_char small (num % base) ∷ out) lo hi
          (quotient-lt n base num lo h) in
      let d =
        digit_value-digit_char small (num % base)
          (omega (arith, mod-lt num {m = base} (omega arith))) in
      rw (more, digits_loop) (ih ∙ ap (λ v. value base v out) (rw d (div-add-mod' num base)))
]

digits_loop-zero :
    (n : ℕ) (small : Bool) (base : ℕ) (out : CStr) → digits_loop n small base 0 out ≡ out
unfolding digits_loop
digits_loop-zero zero small base out = refl
digits_loop-zero (suc n) small base out = refl

abbrev pub AllBelow : ℕ → CStr → Type 0
AllBelow base [] = Unit {0}
AllBelow base (c ∷ s) = (digit_value c < base) × AllBelow base s

-- The first digit is not 0.
abbrev pub IsLed : CStr → Type 0
IsLed [] = ⊥
IsLed (c ∷ s) = digit_value c ≢ 0

-- The numeral of a word: its digits are those of the base and stand for the word, they fit in
-- `tmp`, and the first is not 0 unless it is the only one.
pub record IsNumeral (base num : ℕ) (s : CStr) : Type 0 where
  pub stands : value base 0 s ≡ num
  pub in_base : AllBelow base s
  pub fits : length s ≤ 32
  pub led : (s ≡ b'0' ∷ []) ⊎ IsLed s

module _ (base : ℕ) (small : Bool) (lo : 2 ≤ base) (hi : base ≤ 36) where
  digits_loop-AllBelow :
      (n num : ℕ) (out : CStr)
      → AllBelow base out
      → AllBelow base (digits_loop n small base num out)
  unfolding digits_loop
  digits_loop-AllBelow zero num out all = all
  digits_loop-AllBelow (suc n) num out all = elim (Bool-cases (num == 0)) [
    | inl none_left ↦ rw (none_left, digits_loop) all
    | inr more ↦
        let below = mod-lt num {m = base} (omega arith) in
        let d = digit_value-digit_char small (num % base) (omega (arith, below)) in
        rw (more, digits_loop)
          (digits_loop-AllBelow n (num / base) (digit_char small (num % base) ∷ out)
            (rw d below, all))
  ]

  length-digits_loop :
      (n num : ℕ) (out : CStr) → length (digits_loop n small base num out) ≤ n + length out
  unfolding digits_loop
  length-digits_loop zero num out = omega arith
  length-digits_loop (suc n) num out = elim (Bool-cases (num == 0)) [
    | inl none_left ↦ rw (none_left, digits_loop) (omega arith)
    | inr more ↦
        rw (more, digits_loop)
          (omega (arith, length-digits_loop n (num / base) (digit_char small (num % base) ∷ out)))
  ]

  digits_loop-IsLed :
      (n num : ℕ) (out : CStr) → num ≢ 0 → num < 2 ^ n → IsLed (digits_loop n small base num out)
  unfolding digits_loop
  digits_loop-IsLed zero num out ne h = absurd (ne (omega (arith, h)))
  digits_loop-IsLed (suc n) num out ne h =
      let more : (num == 0) ≡ false = ground arith in
      let below = mod-lt num {m = base} (omega arith) in
      let d = digit_value-digit_char small (num % base) (omega (arith, below)) in
      rw (more, digits_loop)
        (elim (Bool-cases (num / base == 0)) [
          | inl last ↦
              let gone : num / base ≡ 0 = (==_iff _ _).0 last in
              let whole = div-add-mod' num base in
              let rest : num % base ≡ num = omega (arith, whole, ap (λ q. q * base) gone) in
              rw (gone, digits_loop-zero n small base) (λ z. ne (sym rest ∙ sym d ∙ z))
          | inr others ↦
              digits_loop-IsLed n (num / base) (digit_char small (num % base) ∷ out)
                (ground (arith, others)) (quotient-lt n base num lo h)
        ])

  -- The digits that `number` makes of a word are its numeral in the base.
  pub digits_of-IsNumeral : (num : ℕ) → num < 2 ^ 32 → IsNumeral base num (digits_of small base num)
  unfolding digits_of
  digits_of-IsNumeral num h = elim (Bool-cases (num == 0)) [
    | inl is_zero ↦
        let e : num ≡ 0 = (==_iff num 0).0 is_zero in
        rw is_zero (record {
          stands = omega (arith, e);
          in_base = (omega (arith, lo), tt);
          fits = omega arith;
          led = inl refl;
        })
    | inr nonzero ↦ rw nonzero (record {
      stands = value-digits_loop 32 base num small [] lo hi h;
      in_base = digits_loop-AllBelow 32 num [] tt;
      fits = length-digits_loop 32 num [];
      led = inr (digits_loop-IsLed 32 num [] (ground (arith, nonzero)) h);
    })
  ]

-- Reading a number in base 10 with `skip_atoi`.
skip_atoi-digits_loop :
    (n num : ℕ) (small : Bool) (out : CStr)
    → num < 2 ^ n
    → num < 2 ^ 32
    → skip_atoi 0 (digits_loop n small 10 num out) ≡ skip_atoi num out
unfolding skip_atoi digits_loop
skip_atoi-digits_loop zero num small out h fits = let e : num ≡ 0 = omega (arith, h) in rw e refl
skip_atoi-digits_loop (suc n) num small out h fits = elim (Bool-cases (num == 0)) [
  | inl none_left ↦
      let e : num ≡ 0 = (==_iff num 0).0 none_left in rw (none_left, digits_loop, e) refl
  | inr more ↦
      let next =
        skip_atoi-digits_loop n (num / 10) small (digit_char small (num % 10) ∷ out)
          (quotient-lt n 10 num (omega arith) h) (omega (arith, fits)) in
      let c = digit_char small (num % 10) in
      let digit : is_digit c ≡ true = ground arith in
      let shown : num / 10 * 10 + (c - b'0') ≡ num = ground arith in
      let same : (num / 10 * 10 + (c - b'0')) % 2 ^ 32 ≡ num = omega (arith, shown, fits) in
      rw (more, digits_loop) (next ∙ rw (digit, skip_atoi) (ap (λ v. skip_atoi v out) same))
]

-- A text that does not go on with a digit.
abbrev pub IsEnd : CStr → Type 0
IsEnd [] = Unit {0}
IsEnd (c ∷ s) = is_digit c ≡ false

skip_atoi_end : (i : ℕ) (s : CStr) → IsEnd s → skip_atoi i s ≡ (i, s)
unfolding skip_atoi
skip_atoi_end i [] h = refl
skip_atoi_end i (c ∷ s) h = rw (h, skip_atoi) refl

digits_loop-append :
    (n num base : ℕ) (small : Bool) (out rest : CStr)
    → digits_loop n small base num out ++ rest ≡ digits_loop n small base num (out ++ rest)
unfolding digits_loop
digits_loop-append zero num base small out rest = refl
digits_loop-append (suc n) num base small out rest = elim (Bool-cases (num == 0)) [
  | inl none_left ↦ rw (none_left, digits_loop) refl
  | inr more ↦
      rw (more, digits_loop)
        (digits_loop-append n (num / base) base small (digit_char small (num % base) ∷ out) rest)
]

-- `skip_atoi` reads the decimal digits that `number` makes of a value below 2 ^ 31, which fits in an
-- `int`, back as that value, and stops behind them, where the text does not go on with a digit.
pub skip_atoi-digits_of :
    (num : ℕ) (small : Bool) (rest : CStr)
    → num < 2 ^ 31
    → IsEnd rest
    → skip_atoi 0 (digits_of small 10 num ++ rest) ≡ (num, rest)
unfolding skip_atoi digits_of
skip_atoi-digits_of num small rest h end = elim (Bool-cases (num == 0)) [
  | inl is_zero ↦
      let e : num ≡ 0 = (==_iff num 0).0 is_zero in rw (is_zero, e) (skip_atoi_end 0 rest end)
  | inr nonzero ↦
      rw (nonzero, digits_loop-append 32 num 10 small [] rest)
        (skip_atoi-digits_loop 32 num small rest (omega (arith, h)) (omega (arith, h))
          ∙ skip_atoi_end num rest end)
]
