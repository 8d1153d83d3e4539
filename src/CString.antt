-- ===== src/CString.antt =====
-- lib/string.c. A C string is the list of the bytes in front of its terminator, so a read at the
-- end of the list is the terminator, 0. A pointer into a string is an index, `none` is NULL.
pub mod Compare
pub mod Search
mod Tests
use nar_os.Prelude.{
  ℕ, zero, suc, ◌+◌, ◌%◌, ◌≤◌, ◌<◌, ◌≡◌, Bool, ◌||◌, Option, none, some, List, [], ◌∷◌, ltb, ◌==◌,
  if◌then◌else◌,
}
use nar_os.Prelude.Int.{ℤ, pos, negsuc}

abbrev pub CStr : Type 0
CStr = List ℕ

-- The bytes of a string are not 0 and fit in a `char`.
abbrev pub IsCStr : CStr → Type 0
IsCStr [] = Unit {0}
IsCStr (c ∷ s) = (0 < c) × (c < 256) × IsCStr s

-- `*p` at the end of a walk.
abbrev pub first_char : CStr → ℕ
first_char [] = 0
first_char (c ∷ s) = c

-- `char` is signed on i386: the order of the bytes with their sign bit turned over.
abbrev pub char_ltb : ℕ → ℕ → Bool
char_ltb a b = ltb ((a + 128) % 256) ((b + 128) % 256)

unfoldable pub strlen : CStr → ℕ
strlen [] = 0
strlen (c ∷ s) = suc (strlen s)

-- `*lhs < *rhs ? -1 : *lhs > *rhs`
unfoldable pub char_order : ℕ → ℕ → ℤ
char_order a b = if char_ltb a b then negsuc 0 else if char_ltb b a then pos 1 else pos 0

unfoldable pub strcmp : CStr → CStr → ℤ
unfolding char_order
strcmp [] t = char_order 0 (first_char t)
strcmp (a ∷ s) [] = char_order a 0
strcmp (a ∷ s) (b ∷ t) = if a == b then strcmp s t else char_order a b

-- The return of `strncmp`, with what the loop left in `n`.
unfoldable pub strncmp_end : ℕ → ℕ → ℕ → ℤ
strncmp_end a b zero = pos 0
strncmp_end a b (suc n) = if char_ltb a b then negsuc 0 else pos 1

-- `n--` in the loop's test takes an `n` of 0 to -1, so the walk that stops there ends as one with
-- `n` not 0.
unfoldable pub strncmp : CStr → CStr → ℕ → ℤ
unfolding strncmp_end
strncmp [] t n = strncmp_end 0 (first_char t) n
strncmp (a ∷ s) [] n = strncmp_end a 0 n
strncmp (a ∷ s) (b ∷ t) zero = if a == b then strncmp_end a b 1 else strncmp_end a b 0
strncmp (a ∷ s) (b ∷ t) (suc n) = if a == b then strncmp s t n else strncmp_end a b (suc n)

-- `IS_SEPARATOR`
abbrev pub is_separator : ℕ → Bool
is_separator c = (c == b'/') || (c == 92)

-- `i` is the index of the walk's `ptr`.
unfoldable pub strsep_loop : ℕ → CStr → Option ℕ
strsep_loop i [] = none
strsep_loop i (c ∷ s) = if is_separator c then some i else strsep_loop (i + 1) s

unfoldable pub strsep : CStr → Option ℕ
unfolding strsep_loop
strsep s = strsep_loop 0 s

unfoldable pub strrsep_loop : Option ℕ → ℕ → CStr → Option ℕ
strrsep_loop last i [] = last
strrsep_loop last i (c ∷ s) = strrsep_loop (if is_separator c then some i else last) (i + 1) s

unfoldable pub strrsep : CStr → Option ℕ
unfolding strrsep_loop
strrsep s = strrsep_loop none 0 s

-- The result for the terminator itself is the index behind the last byte.
unfoldable pub strchr_loop : ℕ → ℕ → CStr → Option ℕ
strchr_loop ch i [] = if 0 == ch % 256 then some i else none
strchr_loop ch i (c ∷ s) = if c == ch % 256 then some i else strchr_loop ch (i + 1) s

unfoldable pub strchr : CStr → ℕ → Option ℕ
unfolding strchr_loop
strchr s ch = strchr_loop ch 0 s
