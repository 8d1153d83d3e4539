-- ===== src/CString/Search.antt =====
-- Where the searches of lib/string.c stop.
use nar_os.Prelude.{
  ℕ, suc, ◌+◌, ◌≡◌, refl, ap, ◌∙◌, ◌⊎◌, inl, inr, true, false, Option, none, some, [], ◌∷◌, ◌++◌,
  arith, length, if◌then◌else◌, Bool-cases,
}
use native.Mathlib.Nat.{zero-add}
use nar_os.CString.{CStr, is_separator, strsep_loop, strsep, strrsep_loop, strrsep}

-- No byte of the string separates.
abbrev pub NoSeparator : CStr → Type 0
NoSeparator [] = Unit {0}
NoSeparator (c ∷ s) = (is_separator c ≡ false) × NoSeparator s

-- A separator stands at an index `k`, `before` in front of it and `after` behind.
pub record Separates (s : CStr) (k : ℕ) : Type 0 where
  pub before : CStr
  pub separator : ℕ
  pub after : CStr
  pub split : s ≡ before ++ separator ∷ after
  pub position : k ≡ length before
  pub separates : is_separator separator ≡ true

-- The first separator.
pub record IsFirst (s : CStr) (k : ℕ) : Type 0 where
  pub at : Separates s k
  pub clear : NoSeparator at.before

-- The last one.
pub record IsLast (s : CStr) (k : ℕ) : Type 0 where
  pub at : Separates s k
  pub clear : NoSeparator at.after

-- What a search for a separator answers: where it is, or that there is none.
abbrev pub Answers : (CStr → ℕ → Type 0) → CStr → Option ℕ → Type 0
Answers P s none = NoSeparator s
Answers P s (some k) = P s k

abbrev Later : (CStr → ℕ → Type 0) → ℕ → CStr → Option ℕ → Type 0
Later P i s none = NoSeparator s
Later P i s (some k) = (j : ℕ) × (k ≡ i + j) × P s j

IsFirst-cons :
    (c : ℕ) (s : CStr) {k : ℕ} → is_separator c ≡ false → IsFirst s k → IsFirst (c ∷ s) (suc k)
IsFirst-cons c s miss first = record {
  at = record {
    before = c ∷ first.at.before;
    separator = first.at.separator;
    after = first.at.after;
    split = ground arith;
    position = ground arith;
    separates = first.at.separates;
  };
  clear = (miss, first.clear);
}

IsFirst-Later :
    (i c : ℕ) (s : CStr) (r : Option ℕ)
    → is_separator c ≡ false
    → Later IsFirst (i + 1) s r
    → Later IsFirst i (c ∷ s) r
IsFirst-Later i c s none miss h = (miss, h)
IsFirst-Later i c s (some k) miss (j, e, first) = (suc j, omega arith, IsFirst-cons c s miss first)

strsep_loop-IsFirst : (i : ℕ) (s : CStr) → Later IsFirst i s (strsep_loop i s)
unfolding strsep_loop
strsep_loop-IsFirst i [] = tt
strsep_loop-IsFirst i (c ∷ s) = elim (Bool-cases (is_separator c)) [
  | inl hit ↦ rw hit (
    0,
    omega arith,
    record {
      at = record {
        before = [];
        separator = c;
        after = s;
        split = refl;
        position = refl;
        separates = hit;
      };
      clear = tt;
    },
  )
  | inr miss ↦ rw miss (IsFirst-Later i c s _ miss (strsep_loop-IsFirst (i + 1) s))
]

Later-Answers : (P : CStr → ℕ → Type 0) (s : CStr) (r : Option ℕ) → Later P 0 s r → Answers P s r
Later-Answers P s none h = h
Later-Answers P s (some k) (j, e, p) = let same : k ≡ j = omega arith in rw same p

-- `strsep` returns the position of the first separator, and NULL exactly if there is none.
pub strsep-IsFirst : (s : CStr) → Answers IsFirst s (strsep s)
unfolding strsep
strsep-IsFirst s = Later-Answers IsFirst s _ (strsep_loop-IsFirst 0 s)

abbrev Updates : Option ℕ → ℕ → CStr → Option ℕ → Type 0
Updates last i s r = (NoSeparator s × (r ≡ last)) ⊎ ((j : ℕ) × (r ≡ some (i + j)) × IsLast s j)

IsLast-cons : (c : ℕ) (s : CStr) {j : ℕ} → IsLast s j → IsLast (c ∷ s) (suc j)
IsLast-cons c s {j} final = record {
  at = record {
    before = c ∷ final.at.before;
    separator = final.at.separator;
    after = final.at.after;
    split = ground arith;
    position = ground arith;
    separates = final.at.separates;
  };
  clear = final.clear;
}

IsLast-here : (c : ℕ) (s : CStr) → is_separator c ≡ true → NoSeparator s → IsLast (c ∷ s) 0
IsLast-here c s hit free = record {
  at = record {
    before = [];
    separator = c;
    after = s;
    split = refl;
    position = refl;
    separates = hit;
  };
  clear = free;
}

Updates-cons :
    (last : Option ℕ) (i c : ℕ) (s : CStr) (r : Option ℕ)
    → Updates (if is_separator c then some i else last) (i + 1) s r
    → Updates last i (c ∷ s) r
Updates-cons last i c s r (inr (j, e, final)) =
    inr (suc j, e ∙ ap some (omega arith), IsLast-cons c s final)
Updates-cons last i c s r (inl (free, e)) = elim (Bool-cases (is_separator c)) [
  | inl hit ↦ inr (0, rw hit at e ∙ ap some (omega arith), IsLast-here c s hit free)
  | inr miss ↦ inl ((miss, free), rw miss at e)
]

strrsep_loop-Updates :
    (last : Option ℕ) (i : ℕ) (s : CStr) → Updates last i s (strrsep_loop last i s)
unfolding strrsep_loop
strrsep_loop-Updates last i [] = inl (tt, refl)
strrsep_loop-Updates last i (c ∷ s) =
    Updates-cons last i c s _
      (strrsep_loop-Updates (if is_separator c then some i else last) (i + 1) s)

Updates-Answers : (s : CStr) (r : Option ℕ) → Updates none 0 s r → Answers IsLast s r
Updates-Answers s r (inl (free, e)) = rw e free
Updates-Answers s r (inr (j, e, final)) = rw (e, zero-add j) final

-- `strrsep` returns the position of the last separator, and NULL exactly if there is none.
pub strrsep-IsLast : (s : CStr) → Answers IsLast s (strrsep s)
unfolding strrsep
strrsep-IsLast s = Updates-Answers s _ (strrsep_loop-Updates none 0 s)
