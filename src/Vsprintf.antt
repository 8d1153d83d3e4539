-- ===== src/Vsprintf.antt =====
-- lib/vsprintf.c: the conversion of numbers. What a function writes is the list of its bytes, so the
-- advance of `str` is the list's length. The branch for floating point numbers is left out.
pub mod Spec
pub mod Format
pub mod Digits
pub mod Layout
pub mod Rounds
pub mod Text
mod Tests
use nar_os.Prelude.{
  ℕ, zero, suc, ◌+◌, ◌-◌, ◌*◌, ◌/◌, ◌%◌, ◌^◌, ◌<◌, ◌≤◌, Bool, true, false, not, ◌&&◌, ◌||◌, Option,
  none, some, [], ◌∷◌, ◌++◌, ltb, leb, ◌==◌, if◌then◌else◌, length, replicate,
}
use nar_os.Prelude.Int.{ℤ, pos, negsuc, pos_part, ◌-ℤ◌}
use nar_os.CString.{CStr}

-- The bits of `flags`, without DOUBLE.
pub record Flags : Type 0 where
  pub zeropad : Bool
  pub sign : Bool
  pub plus : Bool
  pub space : Bool
  pub left : Bool
  pub special : Bool
  pub small : Bool

-- `is_digit`
abbrev pub is_digit : ℕ → Bool
is_digit c = leb b'0' c && leb c b'9'

-- `i` is the value so far, the bits of an `int`, and the answer holds where the pointer is left. A
-- value that does not fit wraps around here; in C it is undefined.
unfoldable pub skip_atoi : ℕ → CStr → ℕ × CStr
skip_atoi i [] = (i, [])
skip_atoi i (c ∷ s) = elim (is_digit c) [
  | true ↦ skip_atoi ((i * 10 + (c - b'0')) % 2 ^ 32) s
  | false ↦ (i, c ∷ s)
]

-- `digits[index]`
abbrev pub digit_char : Bool → ℕ → ℕ
digit_char small index =
    if ltb index 10 then b'0' + index else (if small then b'a' else b'A') + (index - 10)

-- The loop over the digits with `n` rounds left. They are put into `tmp` from the last one on and
-- written backwards; `out` is what is written of them.
unfoldable pub digits_loop : ℕ → Bool → ℕ → ℕ → CStr → CStr
digits_loop zero small base num out = out
digits_loop (suc n) small base num out = elim (num == 0) [
  | true ↦ out
  | false ↦ digits_loop n small base (num / base) (digit_char small (num % base) ∷ out)
]

-- A word has at most 32 digits, so the loop ends in 32 rounds.
unfoldable pub digits_of : Bool → ℕ → ℕ → CStr
unfolding digits_loop
digits_of small base num = if num == 0 then b'0' ∷ [] else digits_loop 32 small base num []

abbrev pub is_negative : Flags → ℕ → Bool
is_negative flags num = flags.sign && leb (2 ^ 31) num

-- The variable `sign`; 0 is none.
abbrev pub sign_char : Flags → ℕ → ℕ
sign_char flags num =
    if is_negative flags num
    then b'-'
    else if flags.plus
    then b'+'
    else if flags.space
    then b' '
    else 0

-- `-(int)(*num)`, as a word.
abbrev pub magnitude : Flags → ℕ → ℕ
magnitude flags num = if is_negative flags num then (2 ^ 32 - num) % 2 ^ 32 else num

abbrev pub sign_text : ℕ → CStr
sign_text sign = if sign == 0 then [] else sign ∷ []

abbrev pub prefix_text : Flags → ℕ → CStr
prefix_text flags base =
    if flags.special
    then (if base == 8
        then b'0' ∷ []
        else if base == 16
        then b'0' ∷ digit_char flags.small 33 ∷ []
        else [])
    else []

-- `while (size-- > 0)`: how many rounds, and what is left in `size`.
abbrev pub count_down : ℤ → ℕ × ℤ
count_down (pos n) = (n, negsuc 0)
count_down (negsuc n) = (0, negsuc (n + 1))

-- What is written when the sign and the prefix, `lead`, and the digits, `body`, are known: blanks in
-- front, `pad` between the two and blanks behind, as `size` and what the loops leave of it say.
unfoldable pub lay_out : Bool → Bool → ℤ → CStr → CStr → CStr
lay_out zeropad left size lead body =
    let (spaces, size1) = if not (zeropad || left) then count_down size else (0, size) in
    let (pads, size2) = if not left then count_down size1 else (0, size1) in
    let (blanks, size3) = count_down size2 in
    replicate spaces b' '
    ++ (lead
        ++ (replicate pads (if zeropad then b'0' else b' ') ++ (body ++ replicate blanks b' ')))

-- `none` is the return of NULL.
unfoldable pub number : ℕ → ℕ → ℤ → ℤ → Flags → Option CStr
unfolding digits_of lay_out
number num base size precision flags =
    let sign = sign_char flags num in
    let size1 = if sign == 0 then size else size -ℤ pos 1 in
    let size2 =
      if flags.special
      then (if base == 16 then size1 -ℤ pos 2 else if base == 8 then size1 -ℤ pos 1 else size1)
      else size1 in
    let tmp = digits_of flags.small base (magnitude flags num) in
    let i = length tmp in
    let precision' = if ltb (pos_part precision) i then i else pos_part precision in
    if ltb base 2 || ltb 36 base
    then none
    else some (
        lay_out (flags.zeropad && not flags.left) flags.left (size2 -ℤ pos precision')
          (sign_text sign ++ prefix_text flags base) (replicate (precision' - i) b'0' ++ tmp))
