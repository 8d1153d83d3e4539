-- ===== src/Vsprintf/Text.antt =====
-- Formats of plain text around a conversion.
use mathlib.Core.List.{append-nil, append_assoc}
use nar_os.Prelude.{
  ℕ, zero, suc, ◌+◌, ◌-◌, ◌^◌, ◌<◌, ◌≤◌, ◌≡◌, refl, true, false, Option, some, List, [], ◌∷◌, ◌++◌,
  arith, ltb, leb, ◌>>=◌, ◌%◌, ◌==◌, if◌then◌else◌, length, length-append, if_either, Bool-cases,
  inl, inr, ◌∙◌, ap, lt→ltb,
}
use nar_os.Prelude.Int.{ℤ, negsuc}
use nar_os.CString.{CStr, strlen}
use nar_os.Vsprintf.{Flags, number, digits_of}
use nar_os.Vsprintf.Spec.{Arg, word, no_flags}
use nar_os.Vsprintf.Digits.{digits_of-IsNumeral}
use nar_os.Vsprintf.Rounds.{strlen-length}
use nar_os.Vsprintf.Layout.{number_bare}
use nar_os.Vsprintf.Format.{put, Out, conversion, format_loop, vsprintf}

-- No character of a text is a %.
abbrev pub IsPlain : CStr → Type 0
IsPlain [] = Unit {0}
IsPlain (c ∷ s) = ((c == b'%') ≡ false) × IsPlain s

-- A word as a signed number in base 10.
abbrev pub signed_text : ℕ → CStr
signed_text num =
    if leb (2 ^ 31) num
    then b'-' ∷ digits_of false 10 ((2 ^ 32 - num) % 2 ^ 32)
    else digits_of false 10 num

number_signed :
    (num : ℕ)
    → number num 10 (negsuc 0) (negsuc 0) (record no_flags { sign = true }) ≡ some (signed_text num)
number_signed num =
    number_bare num 10 (record no_flags { sign = true }) (omega arith) (omega arith)
    ∙ ap some (elim (Bool-cases (leb (2 ^ 31) num)) [ inl e ↦ rw e refl | inr e ↦ rw e refl ])

length-signed_text : (num : ℕ) → num < 2 ^ 32 → length (signed_text num) ≤ 33
length-signed_text num lt =
    let digits : (n : ℕ) → n < 2 ^ 32 → length (digits_of false 10 n) ≤ 32 =
      λ n h. (digits_of-IsNumeral 10 false (omega arith) (omega arith) n h).fits in
    if_either (λ s. length s ≤ 33) (leb (2 ^ 31) num)
      (omega (arith, digits ((2 ^ 32 - num) % 2 ^ 32) (omega arith))) (omega (arith, digits num lt))

module _ {D : Type 0} (format_double : D → ℤ → ℤ → Flags → Option CStr) where
  -- Plain text in front of a format is copied.
  format_loop_plain :
      (m n : ℕ) (pre fmt : CStr) (o : Out D)
      → m ≡ length pre + n
      → IsPlain pre
      → format_loop format_double m (pre ++ fmt) o
        ≡ format_loop format_double n fmt (record o { str = o.str ++ pre })
  unfolding format_loop
  format_loop_plain m n [] fmt o e h =
      rw (append-nil o.str, e) (ap (λ k. format_loop format_double k fmt o) (omega arith))
  format_loop_plain zero n (c ∷ pre) fmt o e h = absurd (omega (arith, e))
  format_loop_plain (suc m) n (c ∷ pre) fmt o e (h, hs) =
      let o' : Out D = record o { str = o.str ++ c ∷ [] } in
      rw (h, format_loop)
        (rw (append_assoc o.str (c ∷ []) pre) at
          (format_loop_plain m n pre fmt o' (omega (arith, e)) hs))

  -- A conversion in plain text: the text is copied, and between its parts stands what the
  -- conversion writes.
  format_loop_around :
      (m n : ℕ) (pre fmt post s : CStr) (args left : List (Arg D))
      → ((o : Out D)
          → o.args ≡ args
          → conversion format_double (fmt ++ post) o
            ≡ some (post, record o { str = o.str ++ s; args = left }))
      → IsPlain pre
      → IsPlain post
      → m ≡ length pre + suc n
      → length post ≤ n
      → format_loop format_double m
          (pre ++ b'%' ∷ (fmt ++ post))
          (record { str = []; cells = []; args = args })
        ≡ some (record { str = pre ++ (s ++ post); cells = []; args = left })
  unfolding format_loop
  format_loop_around m n pre fmt post s args left conv h h' e le =
      let o1 : Out D = record { str = pre; cells = []; args = args } in
      let o2 : Out D = record { str = pre ++ s; cells = []; args = left } in
      format_loop_plain m (suc n) pre (b'%' ∷ (fmt ++ post))
        (record { str = []; cells = []; args = args }) e h
      ∙ rw (conv o1 refl, format_loop) refl
      ∙ rw (append-nil post, append_assoc pre s post) at
          (format_loop_plain n (n - length post) post [] o2 (omega (arith, le)) h')

  -- `%d` and `%u` without width and precision.
  conversion_d :
      (num : ℕ) (post : CStr) (left : List (Arg D)) (o : Out D)
      → o.args ≡ word num ∷ left
      → conversion format_double (b'd' ∷ post) o
        ≡ some (post, record o { str = o.str ++ signed_text num; args = left })
  unfolding conversion
  conversion_d num post left o e =
      rw e (ap (λ r. put format_double o r left >>= λ o'. some (post, o')) (number_signed num))

  conversion_u :
      (num : ℕ) (post : CStr) (left : List (Arg D)) (o : Out D)
      → o.args ≡ word num ∷ left
      → conversion format_double (b'u' ∷ post) o
        ≡ some (post, record o { str = o.str ++ digits_of false 10 num; args = left })
  unfolding conversion
  conversion_u num post left o e = rw e (
      ap (λ r. put format_double o r left >>= λ o'. some (post, o'))
        (number_bare num 10 no_flags (omega arith) (omega arith)))

  -- A text with one %d in it.
  pub vsprintf_d :
      (pre post : CStr) (num : ℕ) (left : List (Arg D))
      → IsPlain pre
      → IsPlain post
      → num < 2 ^ 32
      → length pre + length post < 991
      → vsprintf format_double (pre ++ b'%' ∷ b'd' ∷ post) (word num ∷ left)
        ≡ some (
          length pre + length (signed_text num) + length post,
          pre ++ (signed_text num ++ post),
          [],
        )
  unfolding vsprintf
  vsprintf_d pre post num left h h' lt fits =
      let fmt = pre ++ b'%' ∷ b'd' ∷ post in
      let size : strlen fmt ≡ length pre + suc (suc (length post)) =
        strlen-length fmt ∙ length-append pre (b'%' ∷ b'd' ∷ post) in
      let run =
        format_loop_around (strlen fmt) (suc (length post)) pre (b'd' ∷ []) post (signed_text num)
          (word num ∷ left) left (conversion_d num post left) h h' size (omega arith) in
      let total : length (pre ++ (signed_text num ++ post))
          ≡ length pre + length (signed_text num) + length post =
        rw (length-append, length-append) (omega arith) in
      let small : ltb (length (pre ++ (signed_text num ++ post))) 1024 ≡ true =
        lt→ltb _ _ (omega (arith, total, fits, length-signed_text num lt)) in
      rw run (rw (small, total) refl)
