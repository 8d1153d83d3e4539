-- ===== src/Tty/Tests.antt =====
-- Runs of device/tty.c and instances of its theorems.
use nar_os.Prelude.{◌≡◌, refl, [], ◌∷◌, arith}
use nar_os.CString.{CStr}
use nar_os.Tty.{
  Tty, tty_print, print_char, tty_clear, tty_init, sync_cursor, control_char, put_visible,
  wrap_line, scroll,
}
use nar_os.Tty.Print.{IsInside, KeepsBehind, tty_print-IsInside}

abbrev blank : Tty
blank = record { screen = λ i. record { ch = 0; flag = 7 }; high = 0; width = 0 }

-- The cursor on the last row.
abbrev at_bottom : Tty
at_bottom = record blank { high = 24; width = 3 }

-- "ok"
abbrev ok : CStr
ok = b'o' ∷ b'k' ∷ []

runs :
    ((tty_print (b'a' ∷ 10 ∷ b'b' ∷ []) blank).1.high ≡ 1)
    × ((tty_print (b'a' ∷ 8 ∷ []) blank).1.width ≡ 0)
    × (((tty_print (b'a' ∷ 10 ∷ []) at_bottom).1.screen 1923).ch ≡ b' ')
    × (((tty_print (b'a' ∷ 10 ∷ []) at_bottom).1.screen 1843).ch ≡ b'a')
    × ((tty_print (10 ∷ []) at_bottom).1.high ≡ 24)
    × ((tty_print (b'a' ∷ []) blank).0 ≡ (0x3d4, 0xf) ∷ (0x3d5, 1) ∷ (0x3d4, 0xe) ∷ (0x3d5, 0) ∷ [])
unfolding tty_print print_char sync_cursor control_char put_visible wrap_line scroll
runs = (refl, refl, refl, refl, refl, refl)

clears : (((tty_clear at_bottom).1.screen 7).flag ≡ 0) × (((tty_init at_bottom).screen 7).flag ≡ 7)
unfolding tty_clear tty_init
clears = (refl, refl)

bottom-IsInside : IsInside at_bottom
bottom-IsInside = record { row = omega arith; column = omega arith }

tty_print-IsInside_example :
    IsInside (tty_print (9 ∷ 10 ∷ ok) at_bottom).1
    × KeepsBehind at_bottom (tty_print (9 ∷ 10 ∷ ok) at_bottom).1
tty_print-IsInside_example = tty_print-IsInside (9 ∷ 10 ∷ ok) at_bottom bottom-IsInside
