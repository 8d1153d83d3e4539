-- ===== src/Vsprintf/Layout.antt =====
-- How a number is laid out in its field.
use mathlib.Core.List.{append-nil}
use nar_os.Prelude.{
  ℕ, ◌+◌, ◌-◌, ◌≤◌, ◌≡◌, refl, Bool, true, false, not, ◌&&◌, some, ◌++◌, arith, ltb, ◌==◌,
  if◌then◌else◌, length, length-append, replicate, length-replicate, Bool-cases, inl, inr, ◌∙◌, ap,
}
use nar_os.Prelude.Int.{ℤ, pos, negsuc, pos_part, ◌-ℤ◌}
use nar_os.CString.{CStr}
use nar_os.Vsprintf.{
  Flags, digits_of, sign_char, magnitude, sign_text, prefix_text, count_down, lay_out, number,
}

-- The least number of digits, filled up with zeros.
abbrev pub padded : ℕ → CStr → CStr
padded least s = replicate (least - length s) b'0' ++ s

-- A field of a least width: blanks behind it, zeros behind the lead, or blanks in front.
abbrev pub field : Flags → ℕ → CStr → CStr → CStr
field flags width lead body =
    let fill = width - length (lead ++ body) in
    if flags.left
    then lead ++ (body ++ replicate fill b' ')
    else if flags.zeropad
    then lead ++ (replicate fill b'0' ++ body)
    else replicate fill b' ' ++ (lead ++ body)

-- What `number` is to write.
abbrev pub reference : ℕ → ℕ → ℕ → ℕ → Flags → CStr
reference num base width least flags =
    field flags width (sign_text (sign_char flags num) ++ prefix_text flags base)
      (padded least (digits_of flags.small base (magnitude flags num)))

pos_part_sub : (z : ℤ) (k : ℕ) → pos_part (z -ℤ pos k) ≡ pos_part z - k
unfolding ◌-ℤ◌
pos_part_sub (pos n) k = ground arith
pos_part_sub (negsuc n) k = ground arith

count_down_lem : (z : ℤ) → ((count_down z).0 ≡ pos_part z) × (pos_part (count_down z).1 ≡ 0)
count_down_lem (pos n) = (refl, refl)
count_down_lem (negsuc n) = (refl, refl)

lay_out_lem :
    (zeropad left : Bool) (size : ℤ) (lead body : CStr)
    → lay_out zeropad left size lead body ≡ (
        if left
        then lead ++ (body ++ replicate (pos_part size) b' ')
        else if zeropad
        then lead ++ (replicate (pos_part size) b'0' ++ body)
        else replicate (pos_part size) b' ' ++ (lead ++ body))
unfolding lay_out
lay_out_lem true true (pos n) lead body = refl
lay_out_lem true true (negsuc n) lead body = refl
lay_out_lem false true (pos n) lead body = refl
lay_out_lem false true (negsuc n) lead body = refl
lay_out_lem true false (pos n) lead body = rw (append-nil body) refl
lay_out_lem true false (negsuc n) lead body = rw (append-nil body) refl
lay_out_lem false false (pos n) lead body = rw (append-nil body) refl
lay_out_lem false false (negsuc n) lead body = rw (append-nil body) refl

sign_width :
    (sign : ℕ) (size : ℤ)
    → pos_part (if sign == 0 then size else size -ℤ pos 1) ≡ pos_part size - length (sign_text sign)
sign_width sign size = elim (Bool-cases (sign == 0)) [
  | inl e ↦ rw e (omega arith)
  | inr e ↦ rw (e, pos_part_sub) (omega arith)
]

prefix_width :
    (flags : Flags) (base : ℕ) (size : ℤ)
    → pos_part (
        if flags.special
        then (if base == 16 then size -ℤ pos 2 else if base == 8 then size -ℤ pos 1 else size)
        else size)
      ≡ pos_part size - length (prefix_text flags base)
prefix_width flags base size = elim (Bool-cases flags.special) [
  | inr e ↦ rw e (omega arith)
  | inl e ↦ elim (Bool-cases (base == 16)) [
    | inl hex ↦
        let octal : (base == 8) ≡ false = ground arith in
        rw (e, hex, octal, pos_part_sub) (omega arith)
    | inr other ↦ elim (Bool-cases (base == 8)) [
      | inl octal ↦ rw (e, other, octal, pos_part_sub) (omega arith)
      | inr decimal ↦ rw (e, other, decimal) (omega arith)
    ]
  ]
]

length-padded : (least : ℕ) (s : CStr) → length (padded least s) ≡ (least - length s) + length s
length-padded least s = rw (length-append, length-replicate) refl

-- The width that the sign, the prefix and the digits leave.
field_fill :
    (least : ℕ) (size size1 size2 : ℤ) (sign prefix digits : CStr)
    → pos_part size1 ≡ pos_part size - length sign
    → pos_part size2 ≡ pos_part size1 - length prefix
    → pos_part (size2 -ℤ pos (if ltb least (length digits) then length digits else least))
      ≡ pos_part size - length ((sign ++ prefix) ++ padded least digits)
field_fill least size size1 size2 sign prefix digits h1 h2 =
    rw (pos_part_sub, length-append, length-append, length-padded) (ground (arith, h1, h2))

least_fill : (least i : ℕ) → (if ltb least i then i else least) - i ≡ least - i
least_fill least i = ground arith

-- How the tests of `number` on its flags choose the fill.
field_choice :
    (flags : Flags) (size : ℤ) (width : ℕ) (lead body : CStr)
    → pos_part size ≡ width - length (lead ++ body)
    → lay_out (flags.zeropad && not flags.left) flags.left size lead body
      ≡ field flags width lead body
field_choice flags size width lead body h = elim (Bool-cases flags.left) [
  | inl e ↦ rw (e, lay_out_lem, h) refl
  | inr e ↦ elim (Bool-cases flags.zeropad) [
    | inl z ↦ rw (e, z, lay_out_lem, h) refl
    | inr z ↦ rw (e, z, lay_out_lem, h) refl
  ]
]

-- `number` writes the field that the flags, the width and the precision describe.
pub number_layout :
    (num base : ℕ) (size precision : ℤ) (flags : Flags)
    → 2 ≤ base
    → base ≤ 36
    → number num base size precision flags
      ≡ some (reference num base (pos_part size) (pos_part precision) flags)
unfolding number
number_layout num base size precision flags lo hi =
    let not_low : ltb base 2 ≡ false = ground arith in
    let not_high : ltb 36 base ≡ false = ground arith in
    let sign = sign_char flags num in
    let digits = digits_of flags.small base (magnitude flags num) in
    let least = pos_part precision in
    let size1 = if sign == 0 then size else size -ℤ pos 1 in
    let size2 =
      if flags.special
      then (if base == 16 then size1 -ℤ pos 2 else if base == 8 then size1 -ℤ pos 1 else size1)
      else size1 in
    let size3 = size2 -ℤ pos (if ltb least (length digits) then length digits else least) in
    let fill =
      field_fill least size size1 size2 (sign_text sign) (prefix_text flags base) digits
        (sign_width sign size) (prefix_width flags base size1) in
    rw (not_low, not_high, least_fill)
      (ap some (
        field_choice flags size3 (pos_part size) (sign_text sign ++ prefix_text flags base)
          (padded least digits) fill))

no_fill : (n : ℕ) → 0 - n ≡ 0
no_fill n = omega arith

-- With neither width nor precision there is nothing to fill.
pub number_bare :
    (num base : ℕ) (flags : Flags)
    → 2 ≤ base
    → base ≤ 36
    → number num base (negsuc 0) (negsuc 0) flags
      ≡ some (
          (sign_text (sign_char flags num) ++ prefix_text flags base)
          ++ digits_of flags.small base (magnitude flags num))
number_bare num base flags lo hi =
    number_layout num base (negsuc 0) (negsuc 0) flags lo hi ∙ ap some bare
  where
    lead : CStr
    lead = sign_text (sign_char flags num) ++ prefix_text flags base

    digits : CStr
    digits = digits_of flags.small base (magnitude flags num)

    bare : reference num base 0 0 flags ≡ lead ++ digits
    bare = rw (no_fill (length digits)) (
        rw (no_fill (length (lead ++ digits))) (elim (Bool-cases flags.left) [
          | inl e ↦ rw (e, append-nil digits) refl
          | inr e ↦ elim (Bool-cases flags.zeropad) [
            | inl z ↦ rw (e, z) refl
            | inr z ↦ rw (e, z) refl
          ]
        ]))
