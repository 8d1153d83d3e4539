-- ===== src/CString/Compare.antt =====
-- What the two comparisons of lib/string.c tell.
use nar_os.Prelude.{ℕ, ◌≡◌, refl, ◌↔◌, inl, inr, [], ◌∷◌, ◌++◌, arith, ◌==◌, Bool-cases}
use nar_os.Prelude.Int.{pos}
use nar_os.CString.{CStr, IsCStr, strlen, strcmp, strncmp}

strcmp-eq : (s t : CStr) → IsCStr s → IsCStr t → strcmp s t ≡ pos 0 → s ≡ t
unfolding strcmp
strcmp-eq [] [] p q e = refl
strcmp-eq [] (b ∷ t) p q e = ground arith
strcmp-eq (a ∷ s) [] p q e = ground arith
strcmp-eq (a ∷ s) (b ∷ t) p q e = ground (arith, strcmp-eq s t p.2 q.2)

pub strcmp_self : (s : CStr) → strcmp s s ≡ pos 0
unfolding strcmp
strcmp_self [] = ground arith
strcmp_self (a ∷ s) = ground (arith, strcmp_self s)

-- `strcmp` returns 0 exactly on equal strings.
pub strcmp-eq_iff : (s t : CStr) → IsCStr s → IsCStr t → (strcmp s t ≡ pos 0) ↔ (s ≡ t)
strcmp-eq_iff s t p q = (strcmp-eq s t p q, λ e. rw e (strcmp_self t))

-- `p` is a prefix of `t`.
abbrev pub StartsWith : CStr → CStr → Type 0
StartsWith p t = (r : CStr) × (t ≡ p ++ r)

strncmp-StartsWith :
    (p t : CStr) → IsCStr p → IsCStr t → strncmp p t (strlen p) ≡ pos 0 → StartsWith p t
unfolding strncmp strlen
strncmp-StartsWith [] t hp ht e = (t, refl)
strncmp-StartsWith (a ∷ p) [] hp ht e = absurd (ground arith)
strncmp-StartsWith (a ∷ p) (b ∷ t) hp ht e = elim (Bool-cases (a == b)) [
  | inl same ↦ let (r, t_eq) = strncmp-StartsWith p t hp.2 ht.2 (ground arith) in (r, ground arith)
  | inr differ ↦ absurd (ground arith)
]

pub strncmp-append : (p r : CStr) → strncmp p (p ++ r) (strlen p) ≡ pos 0
unfolding strncmp strlen
strncmp-append [] r = refl
strncmp-append (a ∷ p) r = ground (arith, strncmp-append p r)

-- With the length of its first argument, as rootfs calls it, `strncmp` returns 0 exactly if the
-- first string is a prefix of the second.
pub strncmp-strlen_iff :
    (p t : CStr) → IsCStr p → IsCStr t → (strncmp p t (strlen p) ≡ pos 0) ↔ StartsWith p t
strncmp-strlen_iff p t hp ht = (strncmp-StartsWith p t hp ht, λ (r, e). rw e (strncmp-append p r))

-- Two strings that agree on the first n bytes and on one more are told apart under the bound n:
-- `strncmp` answers 1.
pub strncmp_agree : (p s t : CStr) (c : ℕ) → strncmp (p ++ c ∷ s) (p ++ c ∷ t) (strlen p) ≡ pos 1
unfolding strncmp strlen
strncmp_agree [] s t c = ground arith
strncmp_agree (a ∷ p) s t c = ground (arith, strncmp_agree p s t c)
