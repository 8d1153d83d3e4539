-- ===== src/Vsprintf/Format.antt =====
-- lib/vsprintf.c: the conversions and the loop over the format. `none` stands for an argument of
-- another kind, for a read behind an array, and for the failed assert on the length. The size of the
-- buffer is the caller's.
use nar_os.Prelude.{
  ℕ, zero, suc, ◌-◌, ◌%◌, true, false, ◌||◌, Option, none, some, List, [], ◌∷◌, ◌++◌, ltb, ◌==◌,
  if◌then◌else◌, ◌>>=◌, length, replicate, take,
}
use nar_os.Prelude.Int.{ℤ, pos, negsuc, pos_part}
use nar_os.CString.{CStr, strlen, first_char}
use nar_os.Vsprintf.{Flags, number}
use nar_os.Vsprintf.Spec.{
  Arg, word, text, bytes, cell, double, Spec, no_flags, parse_flags, parse_width, parse_precision,
  skip_qualifier, tail,
}

-- `while (--field_width > 0)`
abbrev pub count_before : ℤ → ℕ
count_before width = pos_part width - 1

unfoldable pub format_char : Flags → ℤ → ℕ → CStr
format_char f width n =
    if f.left
    then n % 256 ∷ replicate (count_before width) b' '
    else replicate (count_before width) b' ' ++ n % 256 ∷ []

unfoldable pub format_text : Flags → ℤ → ℤ → CStr → CStr
format_text f width precision s =
    let limit : ℤ → ℕ =
      λ p. elim p [ pos n ↦ if ltb n (strlen s) then n else strlen s | negsuc n ↦ strlen s ] in
    let len = limit precision in
    if f.left
    then take len s ++ replicate (pos_part width - len) b' '
    else replicate (pos_part width - len) b' ' ++ take len s

-- The numbers of the bytes with separators between them; the loop ends with one more and takes it
-- back.
unfoldable pub format_bytes : ℕ → ℕ → ℤ → ℤ → Flags → ℕ → List ℕ → Option CStr
unfolding number
format_bytes zero base width precision f separator bs = some []
format_bytes (suc n) base width precision f separator [] = none
format_bytes (suc n) base width precision f separator (b ∷ bs) = do
  first ← number b base width precision f
  more ← format_bytes n base width precision f separator bs
  some (if n == 0 then first else first ++ separator ∷ more)

-- What is written and where `n` wrote.
pub record Out (D : Type 0) : Type 0 where
  pub str : CStr
  pub cells : List (ℕ × ℕ)
  pub args : List (Arg D)

module _ {D : Type 0} (format_double : D → ℤ → ℤ → Flags → Option CStr) where
  abbrev pub put : Out D → Option CStr → List (Arg D) → Option (Out D)
  put o none args = none
  put o (some s) args = some (record o { str = o.str ++ s; args = args })

  abbrev pub put_number : Out D → ℕ → ℤ → ℤ → Flags → List (Arg D) → Option (Out D)
  put_number o base width precision f (word n ∷ args) = put o (number n base width precision f) args
  put_number o base width precision f other = none

  abbrev pub put_bytes : Out D → ℕ → ℕ → ℤ → ℤ → Flags → ℕ → List (Arg D) → Option (Out D)
  put_bytes o count base width precision f separator (bytes bs ∷ args) =
      put o (format_bytes count base width precision f separator bs) args
  put_bytes o count base width precision f separator other = none

  abbrev pub put_byte : Out D → ℤ → Flags → List (Arg D) → Option (Out D)
  put_byte o width f (word n ∷ args) = put o (some (format_char f width n)) args
  put_byte o width f other = none

  abbrev pub put_text : Out D → ℤ → ℤ → Flags → List (Arg D) → Option (Out D)
  put_text o width precision f (text s ∷ args) = put o (some (format_text f width precision s)) args
  put_text o width precision f other = none

  abbrev pub put_cell : Out D → List (Arg D) → Option (Out D)
  put_cell o (cell a ∷ args) =
      some (record o { cells = o.cells ++ (a, length o.str) ∷ []; args = args })
  put_cell o other = none

  abbrev pub put_double : Out D → ℤ → ℤ → Flags → List (Arg D) → Option (Out D)
  put_double o width precision f (double d ∷ args) = put o (format_double d width precision f) args
  put_double o width precision f other = none

  -- The pointer's default width is 8, and -1 stands for no width.
  abbrev pub put_pointer : Out D → ℤ → ℤ → Flags → List (Arg D) → Option (Out D)
  put_pointer o (negsuc zero) precision f args =
      put_number o 16 (pos 8) precision (record f { zeropad = true }) args
  put_pointer o width precision f args = put_number o 16 width precision f args

  -- The switch on the conversion's character; 0 is the end of the format.
  unfoldable pub convert : ℕ → Spec D → Out D → Option (Out D)
  unfolding number format_char format_text format_bytes
  convert c p o =
      let w = p.field_width in
      let q = p.precision in
      let f = p.flags in
      if c == b'c'
      then put_byte o w f p.args
      else if c == b's'
      then put_text o w q f p.args
      else if c == b'o'
      then put_number o 8 w q f p.args
      else if c == b'p'
      then put_pointer o w q f p.args
      else if c == b'x'
      then put_number o 16 w q (record f { small = true }) p.args
      else if c == b'X'
      then put_number o 16 w q f p.args
      else if (c == b'd') || (c == b'i')
      then put_number o 10 w q (record f { sign = true }) p.args
      else if c == b'u'
      then put_number o 10 w q f p.args
      else if c == b'n'
      then put_cell o p.args
      else if c == b'f'
      then put_double o w q (record f { sign = true }) p.args
      else if c == b'b'
      then put_number o 2 w q f p.args
      else if c == b'm'
      then put_bytes o 6 16 (pos 2) q (record f { small = true; zeropad = true }) b':' p.args
      else if c == b'r'
      then put_bytes o 4 10 w q (record f { small = true }) b'.' p.args
      else put o (some ((if c == b'%' then [] else b'%' ∷ []) ++ (if c == 0 then [] else c ∷ [])))
          p.args

  -- The format from the character behind a % on: what follows it, and the output.
  unfoldable pub conversion : CStr → Out D → Option (CStr × Out D)
  unfolding parse_flags parse_width parse_precision convert
  conversion s o = do
    p ← parse_width (parse_flags no_flags s).0 o.args (parse_flags no_flags s).1
    p' ← parse_precision p
    o' ← convert (first_char (skip_qualifier p'.rest)) p' o
    some (tail (skip_qualifier p'.rest), o')

  -- The loop over the format, with a bound on its rounds.
  unfoldable pub format_loop : ℕ → CStr → Out D → Option (Out D)
  unfolding conversion
  format_loop n [] o = some o
  format_loop zero (c ∷ fmt) o = none
  format_loop (suc n) (c ∷ fmt) o = elim (c == b'%') [
    | true ↦ elim (conversion fmt o) [ none ↦ none | some (rest, o') ↦ format_loop n rest o' ]
    | false ↦ format_loop n fmt (record o { str = o.str ++ c ∷ [] })
  ]

  -- The text, its length, and what `n` wrote.
  unfoldable pub vsprintf : CStr → List (Arg D) → Option (ℕ × CStr × List (ℕ × ℕ))
  unfolding format_loop
  vsprintf fmt args = do
    o ← format_loop (strlen fmt) fmt (record { str = []; cells = []; args = args })
    if ltb (length o.str) 1024 then some (length o.str, o.str, o.cells) else none
