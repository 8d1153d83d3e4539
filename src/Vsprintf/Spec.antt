-- ===== src/Vsprintf/Spec.antt =====
-- lib/vsprintf.c: what stands between the % of a format and its conversion. The list of arguments
-- holds what `va_arg` gives one after another; `none` is an argument of another kind, which C leaves
-- undefined.
use nar_os.Prelude.{
  ℕ, ◌+◌, ◌-◌, ◌^◌, true, false, not, ◌||◌, Option, none, some, List, [], ◌∷◌, ltb, ◌==◌,
  if◌then◌else◌,
}
use nar_os.Prelude.Int.{ℤ, pos, negsuc, pos_part}
use nar_os.CString.{CStr, first_char}
use nar_os.Vsprintf.{Flags, is_digit, skip_atoi}

-- `double` stands for the argument of `f`, `cell` for the pointer of `n`, by the address it holds.
pub data Arg (D : Type 0) : Type 0 where
  word : ℕ → Arg D
  text : CStr → Arg D
  bytes : List ℕ → Arg D
  cell : ℕ → Arg D
  double : D → Arg D

abbrev pub no_flags : Flags
no_flags = record {
  zeropad = false;
  sign = false;
  plus = false;
  space = false;
  left = false;
  special = false;
  small = false;
}

-- The flag of a character, set.
abbrev pub flag_of : ℕ → Flags → Option Flags
flag_of c f =
    if c == b'-'
    then some (record f { left = true })
    else if c == b'+'
    then some (record f { plus = true })
    else if c == b' '
    then some (record f { space = true })
    else if c == b'#'
    then some (record f { special = true })
    else if c == b'0'
    then some (record f { zeropad = true })
    else none

-- The loop by `repeat`, from the character behind the % on.
unfoldable pub parse_flags : Flags → CStr → Flags × CStr
parse_flags f [] = (f, [])
parse_flags f (c ∷ s) = elim (flag_of c f) [ none ↦ (f, c ∷ s) | some f' ↦ parse_flags f' s ]

abbrev pub to_signed : ℕ → ℤ
to_signed n = if ltb n (2 ^ 31) then pos n else negsuc (2 ^ 32 - n - 1)

-- What the characters between the % and the conversion say.
pub record Spec (D : Type 0) : Type 0 where
  pub flags : Flags
  pub field_width : ℤ
  pub precision : ℤ
  pub args : List (Arg D)
  pub rest : CStr

abbrev pub tail : CStr → CStr
tail [] = []
tail (c ∷ s) = s

-- A width below 0 in an argument is its absolute value and the flag for left.
abbrev pub width_of : ℤ → Flags → ℤ × Flags
width_of (pos n) f = (pos n, f)
width_of (negsuc n) f = (pos (n + 1), record f { left = true })

abbrev pub skip_qualifier : CStr → CStr
skip_qualifier s =
    if first_char s == b'h' || (first_char s == b'l') || (first_char s == b'L') then tail s else s

module _ {D : Type 0} where
  abbrev pub next_int : List (Arg D) → Option (ℕ × List (Arg D))
  next_int (word n ∷ args) = some (n, args)
  next_int other = none

  unfoldable pub parse_width : Flags → List (Arg D) → CStr → Option (Spec D)
  unfolding skip_atoi
  parse_width f args s =
      if is_digit (first_char s)
      then (let (i, s') = skip_atoi 0 s in
          some (record {
            flags = f;
            field_width = to_signed i;
            precision = negsuc 0;
            args = args;
            rest = s';
          }))
      else if first_char s == b'*'
      then (elim (next_int args) [
        | none ↦ none
        | some (n, args') ↦
            let (w, f') = width_of (to_signed n) f in
            some (record {
              flags = f';
              field_width = w;
              precision = negsuc 0;
              args = args';
              rest = tail s;
            })
      ])
      else some (record {
        flags = f;
        field_width = negsuc 0;
        precision = negsuc 0;
        args = args;
        rest = s;
      })

  unfoldable pub parse_precision : Spec D → Option (Spec D)
  unfolding skip_atoi
  parse_precision p =
      let s = tail p.rest in
      if not (first_char p.rest == b'.')
      then some p
      else if is_digit (first_char s)
      then (let (i, s') = skip_atoi 0 s in
          some (record p { precision = pos (pos_part (to_signed i)); rest = s' }))
      else if first_char s == b'*'
      then (elim (next_int p.args) [
        | none ↦ none
        | some (n, args') ↦
            some (record p { precision = pos (pos_part (to_signed n)); args = args'; rest = s })
      ])
      else some (record p { precision = pos 0; rest = s })
