-- ===== src/Keyboard/Events.antt =====
-- What key events do.
use nar_os.Prelude.{
  ℕ, ◌+◌, ◌%◌, ◌≤◌, ◌<◌, ◌≡◌, refl, ap, ◌∙◌, ◌≢◌, inl, inr, Bool, true, false, some, arith, ◌==◌,
  ltb, if◌then◌else◌, Bool-cases, if_either,
}
use nar_os.Prelude.Words.{update}
use nar_os.Keyboard.{
  Keyboard, initial_keymap, shift_state, set_held, makecode_of, is_break, pressed_char, put_char,
  handle_key, keyboard_handler, keyboard_read, key_shift_l, key_shift_r,
}

-- The characters of the keys are those of the source's table, the rows behind the table are as
-- they were, capslock is off, and a full buffer holds a character.
pub record IsValid (kb : Keyboard) : Type 0 where
  pub plain : (i : ℕ) → (kb.keymap i).plain ≡ (initial_keymap i).plain
  pub shifted : (i : ℕ) → (kb.keymap i).shifted ≡ (initial_keymap i).shifted
  pub outside : (i : ℕ) → 96 ≤ i → kb.keymap i ≡ initial_keymap i
  pub no_capslock : kb.capslock_state ≡ false
  pub visible : kb.buf_ful ≡ true → kb.buffer ≢ 0

pub makecode_of_lem : (scancode : ℕ) → makecode_of scancode ≡ scancode % 128
makecode_of_lem scancode = ground arith

-- A key marked held or not.
unfoldable pub mark : ℕ → Bool → Bool → Keyboard → Keyboard
mark k ext down kb = record kb { keymap = update kb.keymap k (set_held ext down (kb.keymap k)) }

pub mark-IsValid :
    (k : ℕ) (ext down : Bool) {kb : Keyboard} → k < 96 → IsValid kb → IsValid (mark k ext down kb)
unfolding mark
mark-IsValid k ext down {kb} low v = record {
  plain = λ i. ground (arith, v.plain i);
  shifted = λ i. ground (arith, v.shifted i);
  outside = λ i h. ground (arith, v.outside i);
  no_capslock = v.no_capslock;
  visible = v.visible;
}

put_char-IsValid : (ch : ℕ) {kb : Keyboard} → IsValid kb → IsValid (put_char ch kb)
unfolding put_char
put_char-IsValid ch {kb} v = record {
  plain = λ i. ground (arith, v.plain i);
  shifted = λ i. ground (arith, v.shifted i);
  outside = λ i h. ground (arith, v.outside i);
  no_capslock = ground (arith, v.no_capslock);
  visible = ground (arith, v.visible);
}

-- The four ways through the handler's second part.
handle_key-mark :
    (scancode : ℕ) (ext : Bool) (kb : Keyboard)
    → handle_key scancode ext kb ≡ (
        if ltb 95 (scancode % 128)
        then kb
        else if is_break scancode
        then mark (scancode % 128) ext false kb
        else put_char
            (pressed_char (mark (scancode % 128) ext true kb) (scancode % 128) ext)
            (mark (scancode % 128) ext true kb))
unfolding handle_key mark
handle_key-mark scancode ext kb = rw (handle_key, makecode_of_lem scancode)

handle_key-IsValid :
    (scancode : ℕ) (ext : Bool) {kb : Keyboard} → IsValid kb → IsValid (handle_key scancode ext kb)
handle_key-IsValid scancode ext {kb} v =
    rw (handle_key-mark scancode ext kb) (elim (Bool-cases (ltb 95 (scancode % 128))) [
      | inl high ↦ rw high v
      | inr low ↦ rw low (elim (Bool-cases (is_break scancode)) [
        | inl up ↦ rw up (mark-IsValid (scancode % 128) ext false (ground arith) v)
        | inr down ↦
            rw down (put_char-IsValid _ (mark-IsValid (scancode % 128) ext true (ground arith) v))
      ])
    ])

extended : (ext : Bool) {kb : Keyboard} → IsValid kb → IsValid (record kb { extcode_state = ext })
extended ext v = record {
  plain = v.plain;
  shifted = v.shifted;
  outside = v.outside;
  no_capslock = v.no_capslock;
  visible = v.visible;
}

-- Every interrupt keeps the keyboard valid: the table's characters and what lies behind the table
-- never change, capslock never goes on, and a full buffer holds a visible character.
pub keyboard_handler-IsValid :
    (vector scancode : ℕ) {kb : Keyboard}
    → IsValid kb
    → IsValid (keyboard_handler vector scancode kb).1
unfolding keyboard_handler
keyboard_handler-IsValid vector scancode {kb} v =
    if_either IsValid (scancode == 0xe0) (extended true v) (
      if_either IsValid kb.extcode_state
        (handle_key-IsValid (scancode + 0xe000) true (extended false v))
        (handle_key-IsValid scancode false v))

-- The character in the source's table.
abbrev pub table_char : Bool → ℕ → ℕ
table_char shift k = if shift then (initial_keymap k).shifted else (initial_keymap k).plain

pressed_plain :
    (k : ℕ) {kb : Keyboard}
    → IsValid kb
    → k ≢ key_shift_l
    → k ≢ key_shift_r
    → pressed_char (mark k false true kb) k false ≡ table_char (shift_state kb.keymap) k
unfolding pressed_char mark
pressed_plain k {kb} v nl nr = ground (arith, v.plain k, v.shifted k, v.no_capslock)

put_char-read :
    (ch : ℕ) (kb : Keyboard)
    → ch ≢ 0
    → kb.buf_ful ≡ false
    → keyboard_read (put_char ch kb) ≡ (1, some ch, record kb { buffer = ch })
unfolding put_char keyboard_read
put_char-read ch kb set empty = ground arith

keyboard_handler-normal :
    (vector scancode : ℕ) (kb : Keyboard)
    → scancode ≢ 0xe0
    → kb.extcode_state ≡ false
    → (keyboard_handler vector scancode kb).1 ≡ handle_key scancode false kb
unfolding keyboard_handler
keyboard_handler-normal vector scancode kb ne normal = ground arith

pressed :
    (k : ℕ) (kb : Keyboard)
    → IsValid kb
    → k < 96
    → k ≢ key_shift_l
    → k ≢ key_shift_r
    → handle_key k false kb ≡ put_char (table_char (shift_state kb.keymap) k) (mark k false true kb)
pressed k kb v low nl nr =
    let code : k % 128 ≡ k = omega arith in
    let known : ltb 95 k ≡ false = ground arith in
    let make : is_break k ≡ false = ground arith in
    handle_key-mark k false kb ∙ rw (code, known, make, pressed_plain k v nl nr)

-- A key other than shift that goes down, with no extended prefix pending and the buffer empty, is
-- read back as its character in the table, the shifted one exactly if a shift key is held; the read
-- empties the buffer and leaves the key held.
pub keyboard_handler-read :
    (vector k : ℕ) (kb : Keyboard)
    → IsValid kb
    → kb.extcode_state ≡ false
    → kb.buf_ful ≡ false
    → k < 96
    → k ≢ key_shift_l
    → k ≢ key_shift_r
    → table_char (shift_state kb.keymap) k ≢ 0
    → keyboard_read (keyboard_handler vector k kb).1 ≡ (
      1,
      some (table_char (shift_state kb.keymap) k),
      record kb {
        keymap = update kb.keymap k (record (kb.keymap k) { held = true });
        buffer = table_char (shift_state kb.keymap) k;
      },
    )
unfolding mark
keyboard_handler-read vector k kb v normal empty low nl nr visible =
    ap keyboard_read
      (keyboard_handler-normal vector k kb (ground arith) normal ∙ pressed k kb v low nl nr)
    ∙ put_char-read (table_char (shift_state kb.keymap) k) (mark k false true kb) visible empty

abbrev Keeps : Keyboard → Keyboard → Type 0
Keeps kb after = (after.buffer ≡ kb.buffer) × (after.buf_ful ≡ true)

handle_key-Keeps :
    (scancode : ℕ) (ext : Bool) (kb : Keyboard)
    → kb.buf_ful ≡ true
    → Keeps kb (handle_key scancode ext kb)
unfolding put_char mark
handle_key-Keeps scancode ext kb full = rw (handle_key-mark scancode ext kb) (
    if_either (Keeps kb) (ltb 95 (scancode % 128)) (refl, full)
      (if_either (Keeps kb) (is_break scancode) (refl, full) (ground arith)))

-- While the buffer is full, no interrupt changes what is in it.
pub keyboard_handler-full :
    (vector scancode : ℕ) (kb : Keyboard)
    → kb.buf_ful ≡ true
    → ((keyboard_handler vector scancode kb).1.buffer ≡ kb.buffer)
      × ((keyboard_handler vector scancode kb).1.buf_ful ≡ true)
unfolding keyboard_handler
keyboard_handler-full vector scancode kb full =
    if_either (Keeps kb) (scancode == 0xe0) (refl, full)
      (if_either (Keeps kb) kb.extcode_state
        (handle_key-Keeps (scancode + 0xe000) true (record kb { extcode_state = false }) full)
        (handle_key-Keeps scancode false kb full))
