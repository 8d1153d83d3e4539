-- ===== src/Vsprintf/Rounds.antt =====
-- How far a conversion of lib/vsprintf.c reads, and why its loop over the format ends.
use nar_os.Prelude.{
  ℕ, zero, suc, ◌+◌, ◌-◌, ◌*◌, ◌%◌, ◌^◌, ◌≤◌, ◌≡◌, refl, true, false, not, ◌||◌, Option, none, some,
  List, [], ◌∷◌, ◌++◌, arith, ◌==◌, ◌>>=◌, length, Bool-cases, Option-cases, if_either, inl, inr,
  ap,
}
use nar_os.Prelude.Int.{ℤ, pos, negsuc, pos_part}
use nar_os.CString.{CStr, strlen, first_char}
use nar_os.Vsprintf.{Flags, skip_atoi, is_digit}
use nar_os.Vsprintf.Spec.{
  Arg, Spec, no_flags, flag_of, parse_flags, parse_width, parse_precision, skip_qualifier, tail,
  next_int, width_of, to_signed,
}
use nar_os.Vsprintf.Format.{Out, convert, conversion, format_loop}

pub strlen-length : (s : CStr) → strlen s ≡ length s
unfolding strlen
strlen-length [] = refl
strlen-length (c ∷ s) = ap suc (strlen-length s)

length-tail : (s : CStr) → length (tail s) ≤ length s
length-tail [] = omega arith
length-tail (c ∷ s) = omega arith

length-skip_qualifier : (s : CStr) → length (skip_qualifier s) ≤ length s
length-skip_qualifier s =
    if_either (λ t. length t ≤ length s)
      (first_char s == b'h' || (first_char s == b'l') || (first_char s == b'L')) (length-tail s)
      (omega arith)

length-skip_atoi : (i : ℕ) (s : CStr) → length (skip_atoi i s).1 ≤ length s
unfolding skip_atoi
length-skip_atoi i [] = omega arith
length-skip_atoi i (c ∷ s) = elim (Bool-cases (is_digit c)) [
  | inl digit ↦
      rw (digit, skip_atoi) (omega (arith, length-skip_atoi ((i * 10 + (c - b'0')) % 2 ^ 32) s))
  | inr other ↦ rw (other, skip_atoi) (omega arith)
]

length-parse_flags : (f : Flags) (s : CStr) → length (parse_flags f s).1 ≤ length s
unfolding parse_flags
length-parse_flags f [] = omega arith
length-parse_flags f (c ∷ s) = elim (Option-cases (flag_of c f)) [
  | inl other ↦ rw (other, parse_flags) (omega arith)
  | inr (f', flag) ↦ rw (flag, parse_flags) (omega (arith, length-parse_flags f' s))
]

-- What a result that may be missing is to have.
abbrev Within : {A : Type 0} → (A → ℕ) → ℕ → Option A → Type 0
Within size n none = Unit {0}
Within size n (some a) = size a ≤ n

module _ {D : Type 0} where
  parse_width-Within :
      (f : Flags) (args : List (Arg D)) (s : CStr)
      → Within {A = Spec D} (λ p. length p.rest) (length s) (parse_width f args s)
  unfolding parse_width
  parse_width-Within f args s =
      if_either (Within {A = Spec D} (λ p. length p.rest) (length s)) (is_digit (first_char s))
        (length-skip_atoi 0 s)
        (if_either (Within {A = Spec D} (λ p. length p.rest) (length s)) (first_char s == b'*')
          (starred (next_int args)) (omega arith))
    where
      starred :
          (o : Option (ℕ × List (Arg D)))
          → Within {A = Spec D}
              (λ p. length p.rest)
              (length s)
              (elim o [
                | none ↦ none
                | some (n, args') ↦
                    let (w, f') = width_of (to_signed n) f in
                    some (record {
                      flags = f';
                      field_width = w;
                      precision = negsuc 0;
                      args = args';
                      rest = tail s;
                    })
              ])
      starred none = tt
      starred (some (n, args')) = length-tail s

  parse_precision-Within :
      (p : Spec D) → Within {A = Spec D} (λ p'. length p'.rest) (length p.rest) (parse_precision p)
  unfolding parse_precision
  parse_precision-Within p =
      let shorter = length-tail p.rest in
      let read = length-skip_atoi 0 (tail p.rest) in
      if_either (Within {A = Spec D} (λ p'. length p'.rest) (length p.rest))
        (not (first_char p.rest == b'.')) (omega arith)
        (if_either (Within {A = Spec D} (λ p'. length p'.rest) (length p.rest))
          (is_digit (first_char (tail p.rest))) (omega (arith, shorter, read))
          (if_either (Within {A = Spec D} (λ p'. length p'.rest) (length p.rest))
            (first_char (tail p.rest) == b'*') (starred (next_int p.args)) shorter))
    where
      starred :
          (o : Option (ℕ × List (Arg D)))
          → Within {A = Spec D}
              (λ p'. length p'.rest)
              (length p.rest)
              (elim o [
                | none ↦ none
                | some (n, args') ↦ some (record p {
                  precision = pos (pos_part (to_signed n));
                  args = args';
                  rest = tail p.rest;
                })
              ])
      starred none = tt
      starred (some (n, args')) = length-tail p.rest

-- A step that may fail, behind one that may.
bind-Within :
    {A B : Type 0} (size : A → ℕ) (size' : B → ℕ) (n : ℕ) (o : Option A) (f : A → Option B)
    → Within size n o
    → ((a : A) → size a ≤ n → Within size' n (f a))
    → Within size' n (o >>= f)
bind-Within size size' n none f h k = tt
bind-Within size size' n (some a) f h k = k a h

Within-mono :
    {A : Type 0} (size : A → ℕ) (m n : ℕ) (o : Option A) → m ≤ n → Within size m o → Within size n o
Within-mono size m n none le h = tt
Within-mono size m n (some a) le h = omega (arith, le, h)

module _ {D : Type 0} (format_double : D → ℤ → ℤ → Flags → Option CStr) where
  -- A conversion leaves no more of the format than it found.
  conversion-Within :
      (s : CStr) (o : Out D) → Within (λ r. length r.0) (length s) (conversion format_double s o)
  unfolding conversion
  conversion-Within s o =
      let flags = parse_flags no_flags s in
      bind-Within (λ p. length p.rest) (λ r. length r.0) (length s)
        (parse_width flags.0 o.args flags.1) _
        (Within-mono (λ p. length p.rest) (length flags.1) (length s)
          (parse_width flags.0 o.args flags.1) (length-parse_flags no_flags s)
          (parse_width-Within flags.0 o.args flags.1))
        (λ p le.
          bind-Within (λ p'. length p'.rest) (λ r. length r.0) (length s) (parse_precision p) _
            (Within-mono (λ p'. length p'.rest) (length p.rest) (length s) (parse_precision p) le
              (parse_precision-Within p))
            (λ p' le'.
              converted p' le' (convert format_double (first_char (skip_qualifier p'.rest)) p' o)))
    where
      converted :
          (p' : Spec D)
          → length p'.rest ≤ length s
          → (r : Option (Out D))
          → Within {A = CStr × Out D}
              (λ r. length r.0)
              (length s)
              (r >>= λ o'. some (tail (skip_qualifier p'.rest), o'))
      converted p' le none = tt
      converted p' le (some o') =
          omega (arith, le, length-tail (skip_qualifier p'.rest), length-skip_qualifier p'.rest)

  -- The runs of the C loop over the format that end, with no bound on their rounds, and how they end:
  -- with the text, or in a conversion that C leaves undefined.
  pub data Ends : CStr → Out D → Option (Out D) → Type 0 where
    at_end : {o : Out D} → Ends [] o (some o)
    plain :
        {c : ℕ} {fmt : CStr} {o : Out D} {r : Option (Out D)}
        → (c == b'%') ≡ false
        → Ends fmt (record o { str = o.str ++ c ∷ [] }) r
        → Ends (c ∷ fmt) o r
    undefined_conversion :
        {c : ℕ} {fmt : CStr} {o : Out D}
        → (c == b'%') ≡ true
        → conversion format_double fmt o ≡ none
        → Ends (c ∷ fmt) o none
    converted :
        {c : ℕ} {fmt rest : CStr} {o o' : Out D} {r : Option (Out D)}
        → (c == b'%') ≡ true
        → conversion format_double fmt o ≡ some (rest, o')
        → Ends rest o' r
        → Ends (c ∷ fmt) o r

  -- The loop over any format ends, whatever the arguments are: with at least as many rounds as the
  -- format has characters, `format_loop` gives the result of a run of the C loop that ends. So a
  -- result `none` of it is a conversion that C leaves undefined, and never a want of rounds.
  pub format_loop-Ends :
      (n : ℕ) (fmt : CStr) (o : Out D)
      → strlen fmt ≤ n
      → Ends fmt o (format_loop format_double n fmt o)
  unfolding format_loop strlen
  format_loop-Ends zero [] o h = at_end
  format_loop-Ends (suc n) [] o h = at_end
  format_loop-Ends zero (c ∷ fmt) o h = absurd (omega (arith, h))
  format_loop-Ends (suc n) (c ∷ fmt) o h = elim (Bool-cases (c == b'%')) [
    | inr other ↦
        let rest = format_loop-Ends n fmt (record o { str = o.str ++ c ∷ [] }) (omega (arith, h)) in
        rw (other, format_loop) (plain other rest)
    | inl percent ↦ elim (Option-cases (conversion format_double fmt o)) [
      | inl fails ↦ rw (percent, fails, format_loop) (undefined_conversion percent fails)
      | inr (r, found) ↦
          let le = within found in
          let rest = format_loop-Ends n r.0 r.1 (omega (arith, h, le)) in
          rw (percent, found, format_loop) (converted percent found rest)
    ]
  ]
    where
      within :
          {r : CStr × Out D} → conversion format_double fmt o ≡ some r → strlen r.0 ≤ strlen fmt
      within {r} found =
          let le = rw found at (conversion-Within fmt o) in
          omega (arith, le, strlen-length r.0, strlen-length fmt)
