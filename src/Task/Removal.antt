-- ===== src/Task/Removal.antt =====
-- The end of a task: the ring without one of its tasks.
use mathlib.Core.List.{Memᴰ}
use mathlib.Core.List.Memᴰ
use nar_os.Prelude.{
  ℕ, zero, suc, ◌+◌, ◌≤◌, ◌≡◌, ◌≢◌, refl, some, List, [], ◌∷◌, ◌==◌, arith, Bool-cases, inl, inr,
  if◌then◌else◌, length, sym, ◌∙◌, ==_iff, if_either,
}
use nar_os.Task.{Pcb, find_back}
use nar_os.Task.Ring.{
  AllNumbered, Chain, Outside, Distinct, head_or, head_or-Memᴰ, follower, Chain-keep,
}
use nar_os.Task.Create.{Outside-ne}

-- The task in front of `r`, in a list that begins with `x`.
abbrev pub leader : ℕ → ℕ → List ℕ → ℕ
leader r x [] = x
leader r x (y ∷ ys) = if y == r then x else leader r y ys

abbrev pub remove : ℕ → List ℕ → List ℕ
remove r [] = []
remove r (x ∷ xs) = if x == r then xs else x ∷ remove r xs

pub find_back-leader :
    (n : ℕ) (at : ℕ → Pcb) (r x : ℕ) (xs : List ℕ) (last : ℕ)
    → length xs ≤ n
    → Chain at (x ∷ xs) last
    → Memᴰ r xs
    → find_back n at r x ≡ some (leader r x xs)
unfolding find_back
find_back-leader n at r x [] last h c m = absurd (Memᴰ.not-nil m)
find_back-leader zero at r x (y ∷ ys) last h c m = absurd (omega arith)
find_back-leader (suc n) at r x (y ∷ ys) last h c m = elim (Bool-cases (y == r)) [
  | inl hit ↦ rw (c.0, hit) refl
  | inr miss ↦
      rw (c.0, miss)
        (find_back-leader n at r y ys last (omega arith) c.1
          (elim (Memᴰ.cases_cons m) [ inl e ↦ absurd (ground (arith, e)) | inr later ↦ later ]))
]

pub leader-Memᴰ : (r x : ℕ) (xs : List ℕ) → Memᴰ (leader r x xs) (x ∷ xs)
leader-Memᴰ r x [] = Memᴰ.head refl
leader-Memᴰ r x (y ∷ ys) =
    if_either (λ v. Memᴰ v (x ∷ y ∷ ys)) (y == r) (Memᴰ.head refl) (Memᴰ.tail (leader-Memᴰ r y ys))

-- With the task taken out, the one in front of it leads to the one behind it.
pub Chain-remove :
    (at after : ℕ → Pcb) (r x : ℕ) (xs : List ℕ) (last : ℕ)
    → ((j : ℕ) → j ≢ leader r x xs → (after j).next ≡ (at j).next)
    → (after (leader r x xs)).next ≡ (at r).next
    → Distinct (x ∷ xs)
    → Memᴰ r xs
    → Chain at (x ∷ xs) last
    → Chain after (x ∷ remove r xs) last
Chain-remove at after r x [] last same skip d m c = absurd (Memᴰ.not-nil m)
Chain-remove at after r x (y ∷ ys) last same skip d m c = elim (Bool-cases (y == r)) [
  | inl hit ↦
      let e : y ≡ r = (==_iff y r).0 hit in
      let leads : leader r x (y ∷ ys) ≡ x = rw hit refl in
      let behind : (at r).next ≡ head_or ys last = rw (← e) c.1.0 in
      let kept =
        Chain-keep at after x x ys last (λ j ne ne'. same j (rw leads ne)) d.0.1 d.0.1 c.1.1 in
      rw hit (rw (← leads) (skip ∙ behind), kept)
  | inr miss ↦
      let leads : leader r x (y ∷ ys) ≡ leader r y ys = rw miss refl in
      let in_rest : Memᴰ r ys = elim (Memᴰ.cases_cons m) [
        | inl e ↦ absurd (ground (arith, e))
        | inr later ↦ later
      ] in
      let ne : leader r y ys ≢ x = Outside-ne x _ (y ∷ ys) d.0 (leader-Memᴰ r y ys) in
      let rest =
        Chain-remove at after r y ys last (λ j h. same j (rw leads h)) (rw (← leads) skip) d.1
          in_rest c.1 in
      rw miss (same x (rw leads (λ e. ne (sym e))) ∙ c.0, rest)
]

pub Outside-remove : (a r : ℕ) (xs : List ℕ) → Outside a xs → Outside a (remove r xs)
Outside-remove a r [] out = tt
Outside-remove a r (x ∷ xs) out =
    if_either (Outside a) (x == r) out.1 (out.0, Outside-remove a r xs out.1)

pub Distinct-remove : (r : ℕ) (xs : List ℕ) → Distinct xs → Distinct (remove r xs)
Distinct-remove r [] d = tt
Distinct-remove r (x ∷ xs) d =
    if_either Distinct (x == r) d.1 (Outside-remove x r xs d.0, Distinct-remove r xs d.1)

pub length-remove : (r : ℕ) (xs : List ℕ) → Memᴰ r xs → length (remove r xs) + 1 ≡ length xs
length-remove r [] m = absurd (Memᴰ.not-nil m)
length-remove r (x ∷ xs) m = elim (Bool-cases (x == r)) [
  | inl hit ↦ rw hit (omega arith)
  | inr miss ↦ rw miss (elim (Memᴰ.cases_cons m) [
    | inl e ↦ absurd (ground (arith, e))
    | inr later ↦ omega (arith, length-remove r xs later)
  ])
]

-- No entry but the one of the removed task changes its number.
Numbered-keep :
    (at after : ℕ → Pcb) (r : ℕ) (xs : List ℕ)
    → ((j : ℕ) → j ≢ r → (after j).pid ≡ (at j).pid)
    → Outside r xs
    → AllNumbered at xs
    → AllNumbered after xs
Numbered-keep at after r [] same out all = tt
Numbered-keep at after r (x ∷ xs) same out all =
    (rw (same x out.0) all.0, Numbered-keep at after r xs same out.1 all.1)

pub Numbered-remove :
    (at after : ℕ → Pcb) (r : ℕ) (xs : List ℕ)
    → ((j : ℕ) → j ≢ r → (after j).pid ≡ (at j).pid)
    → Distinct xs
    → AllNumbered at xs
    → AllNumbered after (remove r xs)
Numbered-remove at after r [] same d all = tt
Numbered-remove at after r (x ∷ xs) same d all = elim (Bool-cases (x == r)) [
  | inl hit ↦
      let e : x ≡ r = (==_iff x r).0 hit in
      rw hit (Numbered-keep at after r xs same (rw (← e) d.0) all.1)
  | inr miss ↦
      rw miss (rw (same x (ground arith)) all.0, Numbered-remove at after r xs same d.1 all.1)
]

-- What stands behind a task stays in the list when the task is taken out.
pub follower-remove :
    (r : ℕ) (xs : List ℕ) (last : ℕ)
    → follower r xs last ≢ last
    → Memᴰ (follower r xs last) (remove r xs)
follower-remove r [] last ne = absurd (ne refl)
follower-remove r (x ∷ xs) last ne = elim (Bool-cases (x == r)) [
  | inl hit ↦
      let f : follower r (x ∷ xs) last ≡ head_or xs last = rw hit refl in
      rw (f, hit) (head_or-Memᴰ xs last (rw (← f) ne))
  | inr miss ↦
      let f : follower r (x ∷ xs) last ≡ follower r xs last = rw miss refl in
      rw (f, miss) (Memᴰ.tail (follower-remove r xs last (rw (← f) ne)))
]

pub leader-ne : (r x : ℕ) (xs : List ℕ) → Distinct (x ∷ xs) → Memᴰ r xs → leader r x xs ≢ r
leader-ne r x [] d m = absurd (Memᴰ.not-nil m)
leader-ne r x (y ∷ ys) d m = elim (Bool-cases (y == r)) [
  | inl hit ↦ let e : y ≡ r = (==_iff y r).0 hit in rw hit (λ e'. d.0.0 (e ∙ sym e'))
  | inr miss ↦ rw miss (elim (Memᴰ.cases_cons m) [
    | inl e ↦ absurd (ground (arith, e))
    | inr later ↦ leader-ne r y ys d.1 later
  ])
]
