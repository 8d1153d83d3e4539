-- ===== src/Vsprintf/Tests.antt =====
-- Runs of lib/vsprintf.c and instances of its theorems.
use Prim.Native.Char.{code}
use Prim.Native.String.{String}
use nar_os.Prelude.{
  ℕ, ◌^◌, ◌-◌, ◌≡◌, refl, true, false, Option, none, some, List, [], ◌∷◌, ◌++◌, ◌+◌, length, arith,
}
use nar_os.Prelude.Int.{ℤ, pos, negsuc, ◌-ℤ◌}
use nar_os.CString.{CStr, strlen}
use nar_os.Vsprintf.{Flags, number, digits_of, skip_atoi}
use nar_os.Vsprintf.Spec.{Arg, no_flags, word, text, bytes, cell}
use nar_os.Vsprintf.Digits.{IsNumeral, digits_of-IsNumeral, skip_atoi-digits_of}
use nar_os.Vsprintf.Layout.{reference, number_layout}
use nar_os.Vsprintf.Rounds.{Ends, format_loop-Ends}
use nar_os.Vsprintf.Text.{signed_text, vsprintf_d}
use nar_os.Vsprintf.Format.{Out, vsprintf, format_loop}

-- The bytes of an ASCII text.
abbrev ascii : String → CStr
ascii String.[] = []
ascii (String.◌∷◌ c s) = code c ∷ ascii s

abbrev no_doubles : Unit {0} → ℤ → ℤ → Flags → Option CStr
no_doubles d width precision f = none

abbrev print : String → List (Arg (Unit {0})) → Option (ℕ × CStr × List (ℕ × ℕ))
print fmt args = vsprintf no_doubles (ascii fmt) args

runs :
    (print "pid %d!" (word 42 ∷ []) ≡ some (7, ascii "pid 42!", []))
    × (print "%5d|%-5d|%05d" (word 42 ∷ word (2 ^ 32 - 42) ∷ word 42 ∷ [])
        ≡ some (17, ascii "   42|-42  |00042", []))
    × (print "0x%08X %#x" (word 0xbeef ∷ word 0xff ∷ []) ≡ some (15, ascii "0x0000BEEF 0xff", []))
    × (print "%s%n%5.2s|%c%%" (text (ascii "ab") ∷ cell 9 ∷ text (ascii "xyz") ∷ word b'!' ∷ [])
        ≡ some (10, ascii "ab   xy|!%", (9, 2) ∷ []))
    × (print "%m %r" (bytes (1 ∷ 2 ∷ 3 ∷ 4 ∷ 5 ∷ 0xab ∷ []) ∷ bytes (10 ∷ 0 ∷ 2 ∷ 15 ∷ []) ∷ [])
        ≡ some (27, ascii "01:02:03:04:05:ab 10.0.2.15", []))
    × (print "%p%" (word 0xfe ∷ []) ≡ some (9, ascii "000000FE%", []))
    × (print "%+*d % d" (word 4 ∷ word 7 ∷ word 7 ∷ []) ≡ some (7, ascii "  +7  7", []))
    × (print "%d" [] ≡ none)
unfolding vsprintf strlen ◌-ℤ◌
runs = (refl, refl, refl, refl, refl, refl, refl, refl)

digits_of-IsNumeral_example : IsNumeral 16 0xbeef (digits_of true 16 0xbeef)
digits_of-IsNumeral_example =
    digits_of-IsNumeral 16 true (omega arith) (omega arith) 0xbeef (omega arith)

skip_atoi-digits_of_example : skip_atoi 0 (digits_of false 10 1024 ++ ascii "d") ≡ (1024, ascii "d")
skip_atoi-digits_of_example = skip_atoi-digits_of 1024 false (ascii "d") (omega arith) refl

abbrev hex_flags : Flags
hex_flags = record no_flags { zeropad = true; special = true; small = true }

number_layout_example :
    number 0xbeef 16 (pos 8) (negsuc 0) hex_flags ≡ some (reference 0xbeef 16 8 0 hex_flags)
number_layout_example =
    number_layout 0xbeef 16 (pos 8) (negsuc 0) hex_flags (omega arith) (omega arith)

abbrev print_one : Out (Unit {0})
print_one = record { str = []; cells = []; args = word 42 ∷ [] }

format_loop-Ends_example :
    Ends no_doubles (ascii "n=%3d!") print_one (format_loop no_doubles 6 (ascii "n=%3d!") print_one)
unfolding strlen
format_loop-Ends_example = format_loop-Ends no_doubles 6 (ascii "n=%3d!") print_one (omega arith)

vsprintf_d_example :
    print "pid %d!" (word (2 ^ 32 - 42) ∷ [])
    ≡ some (
      4 + length (signed_text (2 ^ 32 - 42)) + 1,
      ascii "pid " ++ (signed_text (2 ^ 32 - 42) ++ ascii "!"),
      [],
    )
vsprintf_d_example =
    vsprintf_d no_doubles (ascii "pid ") (ascii "!") (2 ^ 32 - 42) []
      (refl, (refl, (refl, (refl, tt)))) (refl, tt) (omega arith) (omega arith)
