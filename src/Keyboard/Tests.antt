-- ===== src/Keyboard/Tests.antt =====
-- Runs of device/keyboard.c and instances of its theorems.
use nar_os.Prelude.{ℕ, ◌≡◌, refl, true, false, arith}
use nar_os.Prelude.Words.{update}
use nar_os.Keyboard.{Keyboard, initial_keymap, handle_key, pressed_char, put_char, keyboard_handler}
use nar_os.Keyboard.Events.{IsValid, mark, mark-IsValid, keyboard_handler-IsValid}

abbrev fresh : Keyboard
fresh = record {
  keymap = initial_keymap;
  capslock_state = false;
  extcode_state = false;
  buffer = 0;
  buf_ful = false;
}

-- Left shift held.
abbrev shifting : Keyboard
shifting = record fresh {
  keymap = update initial_keymap 0x2a (record (initial_keymap 0x2a) { held = true });
}

-- "q" not read yet.
abbrev full : Keyboard
full = record fresh { buffer = b'q'; buf_ful = true }

fresh-IsValid : IsValid fresh
fresh-IsValid = record {
  plain = λ i. refl;
  shifted = λ i. refl;
  outside = λ i h. refl;
  no_capslock = refl;
  visible = λ e. absurd (ground arith);
}

shifting-IsValid : IsValid shifting
unfolding mark
shifting-IsValid = mark-IsValid 0x2a false true (omega arith) fresh-IsValid

press : Keyboard → ℕ → Keyboard
unfolding keyboard_handler handle_key pressed_char put_char
press kb scancode = (keyboard_handler 0x21 scancode kb).1

-- Left shift and q give Q, an extended slash gives /, an extended 8 of the pad nothing, a code
-- behind the table nothing.
typed :
    ((press (press fresh 0x2a) 0x10).buffer ≡ b'Q')
    × ((press (press fresh 0xe0) 0x35).buffer ≡ b'/')
    × ((press (press fresh 0xe0) 0x48).buf_ful ≡ false)
    × ((press fresh 0x70).buf_ful ≡ false)
    × ((press (press (press (press fresh 0x2a) 0xaa) 0x90) 0x10).buffer ≡ b'q')
unfolding press
typed = (refl, refl, refl, refl, refl)

keyboard_handler-IsValid_example : IsValid (keyboard_handler 0x21 0x10 fresh).1
keyboard_handler-IsValid_example = keyboard_handler-IsValid 0x21 0x10 fresh-IsValid
