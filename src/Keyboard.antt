-- ===== src/Keyboard.antt =====
-- device/keyboard.c: the keyboard's interrupt handler and its one-character buffer.
pub mod Events
mod Tests
use nar_os.Prelude.{
  ℕ, ◌+◌, ◌-◌, ◌*◌, ◌/◌, ◌%◌, ◌^◌, ◌≤◌, ◌<◌, Bool, true, false, not, ◌&&◌, ◌||◌, List, [], ◌∷◌,
  ◌++◌, ltb, leb, ◌==◌, if◌then◌else◌, get_or, Option, none, some,
}
use nar_os.Prelude.Words.{update}
use nar_os.Interrupt.{Output, send_eoi}

-- The characters of each key, without and with shift; 0 is INV.
abbrev pub keymap_chars : List (ℕ × ℕ)
keymap_chars =
    (0, 0)
    ∷ (0x1b, 0x1b)
    ∷ (b'1', b'!')
    ∷ (b'2', b'@')
    ∷ (b'3', b'#')
    ∷ (b'4', b'$')
    ∷ (b'5', b'%')
    ∷ (b'6', b'^')
    ∷ (b'7', b'&')
    ∷ (b'8', b'*')
    ∷ (b'9', b'(')
    ∷ (b'0', b')')
    ∷ (b'-', b'_')
    ∷ (b'=', b'+')
    ∷ (8, 8)
    ∷ (9, 9)
    ∷ (b'q', b'Q')
    ∷ (b'w', b'W')
    ∷ (b'e', b'E')
    ∷ (b'r', b'R')
    ∷ (b't', b'T')
    ∷ (b'y', b'Y')
    ∷ (b'u', b'U')
    ∷ (b'i', b'I')
    ∷ (b'o', b'O')
    ∷ (b'p', b'P')
    ∷ (b'[', b'{')
    ∷ (b']', b'}')
    ∷ (0xa, 0xa)
    ∷ (0, 0)
    ∷ (b'a', b'A')
    ∷ (b's', b'S')
    ∷ (b'd', b'D')
    ∷ (b'f', b'F')
    ∷ (b'g', b'G')
    ∷ (b'h', b'H')
    ∷ (b'j', b'J')
    ∷ (b'k', b'K')
    ∷ (b'l', b'L')
    ∷ (b';', b':')
    ∷ (0x27, 0x22)
    ∷ (0x60, b'~')
    ∷ (0, 0)
    ∷ (0x5c, b'|')
    ∷ (b'z', b'Z')
    ∷ (b'x', b'X')
    ∷ (b'c', b'C')
    ∷ (b'v', b'V')
    ∷ (b'b', b'B')
    ∷ (b'n', b'N')
    ∷ (b'm', b'M')
    ∷ (b',', b'<')
    ∷ (b'.', b'>')
    ∷ (b'/', b'?')
    ∷ (0, 0)
    ∷ (b'*', b'*')
    ∷ (0, 0)
    ∷ (0x20, 0x20)
    ∷ (0, 0)
    ∷ (0, 0)
    ∷ (0, 0)
    ∷ (0, 0)
    ∷ (0, 0)
    ∷ (0, 0)
    ∷ (0, 0)
    ∷ (0, 0)
    ∷ (0, 0)
    ∷ (0, 0)
    ∷ (0, 0)
    ∷ (0, 0)
    ∷ (0, 0)
    ∷ (b'7', 0)
    ∷ (b'8', 0)
    ∷ (b'9', 0)
    ∷ (b'-', b'-')
    ∷ (b'4', 0)
    ∷ (b'5', 0)
    ∷ (b'6', 0)
    ∷ (b'+', b'+')
    ∷ (b'1', 0)
    ∷ (b'2', 0)
    ∷ (b'3', 0)
    ∷ (b'0', 0)
    ∷ (b'.', 0x7f)
    ∷ (0, 0)
    ∷ (0, 0)
    ∷ (0, 0)
    ∷ (0, 0)
    ∷ (0, 0)
    ∷ (0, 0)
    ∷ (0, 0)
    ∷ (0, 0)
    ∷ (0, 0)
    ∷ (0, 0)
    ∷ (0, 0)
    ∷ (0, 0)
    ∷ []

-- A row of `keymap`: the characters, and whether the key is held, after a plain code and after an
-- extended one.
pub record Key : Type 0 where
  pub plain : ℕ
  pub shifted : ℕ
  pub held : Bool
  pub held_ext : Bool

abbrev pub initial_keymap : ℕ → Key
initial_keymap i =
    let (c, d) = get_or keymap_chars i (0, 0) in
    record { plain = c; shifted = d; held = false; held_ext = false }

abbrev pub key_slash : ℕ
key_slash = 0x35

abbrev pub key_shift_l : ℕ
key_shift_l = 0x2a

abbrev pub key_shift_r : ℕ
key_shift_r = 0x36

abbrev pub key_print_screen : ℕ
key_print_screen = 0x5f

pub record Keyboard : Type 0 where
  pub keymap : ℕ → Key
  pub capslock_state : Bool
  pub extcode_state : Bool
  pub buffer : ℕ
  pub buf_ful : Bool

-- `shift_state`
abbrev pub shift_state : (ℕ → Key) → Bool
shift_state m = (m key_shift_l).held || (m key_shift_r).held

-- `keymap[makecode][ext] = value`, for an `ext` of 2 or 3.
abbrev pub set_held : Bool → Bool → Key → Key
set_held ext value k = if ext then record k { held_ext = value } else record k { held = value }

-- The index of the key: `scancode & 0x7f`.
abbrev pub makecode_of : ℕ → ℕ
makecode_of scancode =
    let makecode = scancode % 128 in if makecode == 0xb7 then key_print_screen else makecode

-- `scancode & 0x0080`
abbrev pub is_break : ℕ → Bool
is_break scancode = scancode / 128 % 2 == 1

abbrev pub flip_if : Bool → Bool → Bool
flip_if test shift = if test then not shift else shift

-- The character of a key that has gone down.
unfoldable pub pressed_char : Keyboard → ℕ → Bool → ℕ
pressed_char kb makecode ext =
    let key = kb.keymap makecode in
    let caps = kb.capslock_state && leb b'a' key.plain && leb key.plain b'z' in
    let shift = flip_if (shift_state kb.keymap) (flip_if caps false) in
    if ext && not (makecode == key_slash)
    then key.shifted
    else if shift
    then key.shifted
    else key.plain

-- A character goes into the buffer if that is empty; a further one is dropped.
unfoldable pub put_char : ℕ → Keyboard → Keyboard
put_char ch kb =
    if ch == 0 then kb else if not kb.buf_ful then record kb { buffer = ch; buf_ful = true } else kb

-- The handler behind the test for 0xe0; `scancode` has the prefix 0xe000 of an extended code.
unfoldable pub handle_key : ℕ → Bool → Keyboard → Keyboard
handle_key scancode ext kb =
    let makecode = makecode_of scancode in
    if ltb key_print_screen makecode
    then kb
    else if is_break scancode
    then record kb { keymap = update kb.keymap makecode (set_held ext false (kb.keymap makecode)) }
    else let down = record kb {
      keymap = update kb.keymap makecode (set_held ext true (kb.keymap makecode));
    } in
      put_char (pressed_char down makecode ext) down

-- `scancode` is the byte that `inb` read.
unfoldable pub keyboard_handler : ℕ → ℕ → Keyboard → Output × Keyboard
keyboard_handler vector scancode kb = (
  send_eoi vector,
  if scancode == 0xe0
      then record kb { extcode_state = true }
      else if kb.extcode_state
      then handle_key (scancode + 0xe000) true (record kb { extcode_state = false })
      else handle_key scancode false kb,
)

-- The count returned, what is written to the caller's buffer, and the state after.
unfoldable pub keyboard_read : Keyboard → ℕ × Option ℕ × Keyboard
keyboard_read kb =
    if not kb.buf_ful then (0, none, kb) else (1, some kb.buffer, record kb { buf_ful = false })
