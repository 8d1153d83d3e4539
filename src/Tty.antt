-- ===== src/Tty.antt =====
-- device/tty.c: the text screen, 25 rows of 80 cells in the video memory, with the cursor. The
-- memory is the function from the position of a cell to the cell, behind the screen as well.
pub mod Print
mod Tests
use nar_os.Prelude.{
  ℕ, ◌+◌, ◌-◌, ◌*◌, ◌/◌, ◌%◌, ◌^◌, ◌<◌, ◌≤◌, Bool, true, false, ◌&&◌, ◌||◌, List, [], ◌∷◌, ◌++◌,
  ltb, leb, ◌==◌, if◌then◌else◌,
}
use nar_os.Prelude.Words.{update, add32}
use nar_os.Prelude.Int.{ℤ, pos}
use nar_os.CString.{CStr}
use nar_os.Interrupt.{Output}

-- `pix`
pub record Pix : Type 0 where
  pub ch : ℕ
  pub flag : ℕ

pub record Tty : Type 0 where
  pub screen : ℕ → Pix
  pub high : ℕ
  pub width : ℕ

-- The values that `outb` sends, bytes.
unfoldable pub sync_cursor : Tty → Output
sync_cursor t =
    let pos = (t.high * 80 + t.width) % 2 ^ 16 in
    (0x3d4, 0xf) ∷ (0x3d5, pos % 256) ∷ (0x3d4, 0xe) ∷ (0x3d5, pos / 256) ∷ []

-- `screen[high][width].ch = ch`
abbrev pub set_ch : ℕ → ℕ → ℕ → (ℕ → Pix) → ℕ → Pix
set_ch high width ch screen =
    update screen (high * 80 + width) (record (screen (high * 80 + width)) { ch = ch })

-- A byte from 128 on is a negative `char`, a control character that does nothing.
unfoldable pub control_char : ℕ → Tty → Tty
control_char c t =
    if c == 10
    then record t { high = add32 t.high 1; width = 0 }
    else if c == b' '
    then record t { width = add32 t.width 1 }
    else if c == 8
    then (if t.width == 0
        then t
        else record t { screen = set_ch t.high (t.width - 1) b' ' t.screen; width = t.width - 1 })
    else if c == 9
    then record t { width = add32 t.width 8 }
    else t

unfoldable pub put_visible : ℕ → Tty → Tty
put_visible c t = record t { screen = set_ch t.high t.width c t.screen; width = add32 t.width 1 }

abbrev pub is_control : ℕ → Bool
is_control c = ltb c b'!' || ltb b'~' c

unfoldable pub wrap_line : Tty → Tty
wrap_line t = if leb 80 t.width then record t { high = add32 t.high 1; width = 0 } else t

-- `memmove` of the rows 1 to 24 to the rows 0 to 23, and the last row's characters.
unfoldable pub scroll : Tty → Tty
scroll t =
    if leb 25 t.high
    then record {
      screen = λ i.
          if ltb i 1920
          then t.screen (i + 80)
          else if ltb i 2000
          then record (t.screen i) { ch = b' ' }
          else t.screen i;
      high = 24;
      width = 0;
    }
    else t

-- One round of the loop of `tty_print`.
unfoldable pub print_char : ℕ → Tty → Tty
unfolding control_char put_visible wrap_line scroll
print_char c t = scroll (wrap_line (if is_control c then control_char c t else put_visible c t))

unfoldable pub tty_print : CStr → Tty → Output × Tty
unfolding print_char sync_cursor
tty_print [] t = ([], t)
tty_print (c ∷ str) t =
    let t' = print_char c t in let (out, end) = tty_print str t' in (sync_cursor t' ++ out, end)

-- The writing function that the device table calls; what it prints ends with a 0, whatever `count` is.
unfoldable pub tty_write : CStr → Tty → ℤ × Output × Tty
unfolding tty_print
tty_write buf t = let (out, end) = tty_print buf t in (pos 0, out, end)

unfoldable pub tty_clear : Tty → Output × Tty
unfolding sync_cursor
tty_clear t =
    let home = record t { high = 0; width = 0 } in
    (
      sync_cursor home,
      record home { screen = λ i. if ltb i 2000 then record { ch = 0; flag = 0 } else t.screen i },
    )

-- `tty_init` in front of its call of `device_install`.
unfoldable pub tty_init : Tty → Tty
tty_init t = record {
  screen = λ i. if ltb i 2000 then record { ch = 0; flag = 7 } else t.screen i;
  high = 0;
  width = 0;
}
