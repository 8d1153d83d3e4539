-- ===== src/Tty/Print.antt =====
-- Where printing writes, and where the cursor goes.
use nar_os.Prelude.{
  ℕ, zero, suc, ◌&&◌, ◌+◌, ◌-◌, ◌*◌, ◌<◌, ◌≤◌, ◌≡◌, refl, true, false, [], ◌∷◌, ltb, leb, ◌==◌,
  arith, if◌then◌else◌, if_either, Bool-cases, inl, inr, ◌∙◌, length, get_or,
}
use nar_os.Prelude.Words.{add32}
use nar_os.CString.{CStr}
use nar_os.Tty.{
  Pix, Tty, print_char, tty_print, control_char, put_visible, wrap_line, scroll, set_ch, is_control,
}

-- The cursor is on the screen.
pub record IsInside (t : Tty) : Type 0 where
  pub row : t.high < 25
  pub column : t.width < 80

-- The memory behind the screen is that of `s`.
abbrev pub KeepsBehind : Tty → Tty → Type 0
KeepsBehind s t = (i : ℕ) → 2000 ≤ i → t.screen i ≡ s.screen i

-- In front of the wrap: the cursor may be behind its row, or one row below the screen.
record IsNear (s t : Tty) : Type 0 where
  low : t.high < 26
  inner : 80 ≤ t.width → t.high < 25
  keeps : KeepsBehind s t

-- A cell on the screen is written.
set_ch-KeepsBehind :
    (t : Tty) (ch high width i : ℕ)
    → high < 25
    → width < 80
    → 2000 ≤ i
    → set_ch high width ch t.screen i ≡ t.screen i
set_ch-KeepsBehind t ch high width i h w l = ground arith

near :
    (t : Tty) (screen : ℕ → Pix) (width : ℕ)
    → t.high < 25
    → ((i : ℕ) → 2000 ≤ i → screen i ≡ t.screen i)
    → IsNear t (record { screen = screen; high = t.high; width = width })
near t screen width h k = record { low = omega (arith, h); inner = λ w. h; keeps = k }

control_char-IsNear : (c : ℕ) (t : Tty) → IsInside t → IsNear t (control_char c t)
unfolding control_char
control_char-IsNear c t v =
    let h = v.row in
    let same = near t t.screen in
    if_either (IsNear t) (c == 10)
      (record { low = omega (arith, h); inner = λ w. absurd (omega arith); keeps = λ i l. refl })
      (if_either (IsNear t) (c == b' ') (same _ h (λ i l. refl)) (
        if_either (IsNear t) (c == 8)
          (if_either (IsNear t) (t.width == 0) (same _ h (λ i l. refl)) (
            near t _ _ h (λ i l.
              set_ch-KeepsBehind t b' ' t.high (t.width - 1) i h (omega (arith, v.column)) l)))
          (if_either (IsNear t) (c == 9) (same _ h (λ i l. refl)) (same _ h (λ i l. refl)))))

put_visible-IsNear : (c : ℕ) (t : Tty) → IsInside t → IsNear t (put_visible c t)
unfolding put_visible
put_visible-IsNear c t v =
    near t _ _ v.row (λ i l. set_ch-KeepsBehind t c t.high t.width i v.row v.column l)

-- In front of the scroll.
record IsWrapped (s t : Tty) : Type 0 where
  low : t.high < 26
  column : t.width < 80
  keeps : KeepsBehind s t

wrap_line-IsWrapped : (s t : Tty) → IsNear s t → IsWrapped s (wrap_line t)
unfolding wrap_line
wrap_line-IsWrapped s t n = elim (Bool-cases (leb 80 t.width)) [
  | inl long ↦
      let inner = n.inner (ground arith) in
      rw long (record { low = omega (arith, inner); column = omega arith; keeps = n.keeps })
  | inr short ↦ rw short (record { low = n.low; column = ground arith; keeps = n.keeps })
]

scroll-IsInside : (s t : Tty) → IsWrapped s t → IsInside (scroll t) × KeepsBehind s (scroll t)
unfolding scroll
scroll-IsInside s t w = elim (Bool-cases (leb 25 t.high)) [
  | inl below ↦
      rw below
        (record { row = omega arith; column = omega arith }, λ i l. ground (arith, w.keeps i l))
  | inr on ↦ rw on (record { row = ground arith; column = w.column }, w.keeps)
]

print_char-IsInside :
    (c : ℕ) (t : Tty) → IsInside t → IsInside (print_char c t) × KeepsBehind t (print_char c t)
unfolding print_char
print_char-IsInside c t v = scroll-IsInside t _ (
    wrap_line-IsWrapped t _
      (if_either (IsNear t) (is_control c) (control_char-IsNear c t v) (put_visible-IsNear c t v)))

-- With the cursor on the screen, printing any string leaves it on the screen and writes no memory
-- behind the screen.
pub tty_print-IsInside :
    (str : CStr) (t : Tty)
    → IsInside t
    → IsInside (tty_print str t).1 × KeepsBehind t (tty_print str t).1
unfolding tty_print
tty_print-IsInside [] t v = (v, λ i l. refl)
tty_print-IsInside (c ∷ str) t v =
    let (inside, keeps) = print_char-IsInside c t v in
    let (inside', keeps') = tty_print-IsInside str (print_char c t) inside in
    (inside', λ i l. keeps' i l ∙ keeps i l)

-- Characters that are seen.
abbrev pub AllVisible : CStr → Type 0
AllVisible [] = Unit {0}
AllVisible (c ∷ str) = (b'!' ≤ c) × (c ≤ b'~') × AllVisible str

print_char-visible :
    (c : ℕ) (t : Tty)
    → IsInside t
    → t.width + 1 < 80
    → b'!' ≤ c
    → c ≤ b'~'
    → print_char c t
      ≡ record { screen = set_ch t.high t.width c t.screen; high = t.high; width = t.width + 1 }
unfolding print_char wrap_line scroll put_visible
print_char-visible c t v room lo hi =
    let seen : is_control c ≡ false = ground arith in
    let step : add32 t.width 1 ≡ t.width + 1 = omega arith in
    let short : leb 80 (t.width + 1) ≡ false = ground arith in
    let on : leb 25 t.high ≡ false = let r = v.row in ground (arith, r) in
    rw (seen, step, short, on) refl

get_or-suc : (c k d : ℕ) (str : CStr) → 0 < k → get_or (c ∷ str) k d ≡ get_or str (k - 1) d
get_or-suc c zero d str h = absurd (omega arith)
get_or-suc c (suc k) d str h = let e : suc k - 1 ≡ k = omega arith in rw e refl

-- The first cell, and those of the rest of the string.
first_cell :
    (c start start' i : ℕ) (str : CStr) (old there : Pix)
    → start' ≡ start + 1
    → (if leb start' i && ltb i (start' + length str)
        then get_or str (i - start') 0
        else (if i == start then record there { ch = c } else old).ch)
      ≡ (if leb start i && ltb i (start + suc (length str))
          then get_or (c ∷ str) (i - start) 0
          else old.ch)
first_cell c start start' i str old there e = elim (Bool-cases (i == start)) [
  | inl here ↦
      let at : i - start ≡ 0 = ground arith in
      let a : leb start' i ≡ false = ground arith in
      let b : leb start i ≡ true = ground arith in
      let d : ltb i (start + suc (length str)) ≡ true = ground arith in rw (a, here, b, d, at) refl
  | inr other ↦ elim (Bool-cases (leb start i)) [
    | inl behind ↦
        let a : leb start' i ≡ true = ground arith in
        let same : ltb i (start + suc (length str)) ≡ ltb i (start' + length str) = ground arith in
        let k : i - start' ≡ i - start - 1 = omega arith in
        let tail = get_or-suc c (i - start) 0 str (ground arith) in
        rw (a, other, behind, same, k, tail) refl
    | inr front ↦ let a : leb start' i ≡ false = ground arith in rw (a, other, front) refl
  ]
]

-- A string of visible characters that ends in front of the row's last cell: the cursor moves behind
-- it in its row, the cells show its characters in order, and no other cell's character changes.
pub tty_print-visible :
    (str : CStr) (t : Tty) (i : ℕ)
    → IsInside t
    → AllVisible str
    → t.width + length str < 80
    → let start = t.high * 80 + t.width in
      let end = (tty_print str t).1 in
      (end.high ≡ t.high)
      × (end.width ≡ t.width + length str)
      × ((end.screen i).ch ≡ (
          if leb start i && ltb i (start + length str)
          then get_or str (i - start) 0
          else (t.screen i).ch))
unfolding tty_print
tty_print-visible [] t i v seen room = (refl, omega arith, ground arith)
tty_print-visible (c ∷ str) t i v seen room =
    let t' : Tty = record {
      screen = set_ch t.high t.width c t.screen;
      high = t.high;
      width = t.width + 1;
    } in
    let first : print_char c t ≡ t' = print_char-visible c t v (omega arith) seen.0 seen.1 in
    let inside : IsInside t' = record { row = v.row; column = omega arith } in
    let (row, column, cells) = tty_print-visible str t' i inside seen.2 (omega arith) in
    rw first (
      row,
      omega (arith, column),
      cells
          ∙ first_cell c (t.high * 80 + t.width) (t.high * 80 + (t.width + 1)) i str (t.screen i)
              (t.screen (t.high * 80 + t.width)) (omega arith),
    )
