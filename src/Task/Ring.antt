-- ===== src/Task/Ring.antt =====
-- The ring of tasks: the root task, then the others in the order in which they run.
use mathlib.Core.List.{Memᴰ}
use mathlib.Core.List.Memᴰ
use nar_os.Prelude.{
  ℕ, ◌+◌, ◌≡◌, ◌≢◌, refl, List, [], ◌∷◌, ◌==◌, arith, Bool-cases, inl, inr, if◌then◌else◌,
  if_either, length, sym, ◌∙◌, ==_iff,
}
use nar_os.Task.{Pcb, Tasks}

abbrev pub head_or : List ℕ → ℕ → ℕ
head_or [] last = last
head_or (x ∷ xs) last = x

-- Each block leads to the one behind it, the last one to `last`.
abbrev pub Chain : (ℕ → Pcb) → List ℕ → ℕ → Type 0
Chain at [] last = Unit {0}
Chain at (x ∷ xs) last = ((at x).next ≡ head_or xs last) × Chain at xs last

-- What stands behind a task in a list, `last` behind the last one.
abbrev pub follower : ℕ → List ℕ → ℕ → ℕ
follower r [] last = last
follower r (x ∷ xs) last = if x == r then head_or xs last else follower r xs last

abbrev pub Outside : ℕ → List ℕ → Type 0
Outside a [] = Unit {0}
Outside a (x ∷ xs) = (x ≢ a) × Outside a xs

abbrev pub Distinct : List ℕ → Type 0
Distinct [] = Unit {0}
Distinct (x ∷ xs) = Outside x xs × Distinct xs

abbrev pub AllNumbered : (ℕ → Pcb) → List ℕ → Type 0
AllNumbered at [] = Unit {0}
AllNumbered at (x ∷ xs) = ((at x).pid ≢ 0) × AllNumbered at xs

-- The ring holds the root task, which has number 0, and the others, which do not; the running task
-- is in it, and all are counted.
pub record IsRing (t : Tasks) (root : ℕ) (others : List ℕ) : Type 0 where
  pub chain : Chain t.at (root ∷ others) root
  pub distinct : Distinct (root ∷ others)
  pub root_pid : (t.at root).pid ≡ 0
  pub numbered : AllNumbered t.at others
  pub running_in : Memᴰ t.running (root ∷ others)
  pub counted : t.process_num ≡ length others + 1

pub next-follower :
    (at : ℕ → Pcb) (xs : List ℕ) (last r : ℕ)
    → Chain at xs last
    → Memᴰ r xs
    → (at r).next ≡ follower r xs last
next-follower at [] last r c m = absurd (Memᴰ.not-nil m)
next-follower at (x ∷ xs) last r c m = elim (Bool-cases (x == r)) [
  | inl hit ↦ let e : x ≡ r = (==_iff x r).0 hit in rw (hit, ← e) c.0
  | inr miss ↦ rw miss (
      next-follower at xs last r c.1
        (elim (Memᴰ.cases_cons m) [ inl e ↦ absurd (ground (arith, e)) | inr later ↦ later ]))
]

pub Numbered-Memᴰ :
    (at : ℕ → Pcb) (xs : List ℕ) (r : ℕ) → AllNumbered at xs → Memᴰ r xs → (at r).pid ≢ 0
Numbered-Memᴰ at [] r all m = absurd (Memᴰ.not-nil m)
Numbered-Memᴰ at (x ∷ xs) r all m = elim (Memᴰ.cases_cons m) [
  | inl e ↦ rw e all.0
  | inr later ↦ Numbered-Memᴰ at xs r all.1 later
]

pub head_or-Memᴰ : (xs : List ℕ) (last : ℕ) → head_or xs last ≢ last → Memᴰ (head_or xs last) xs
head_or-Memᴰ [] last ne = absurd (ne refl)
head_or-Memᴰ (x ∷ xs) last ne = Memᴰ.head refl

pub follower-Memᴰ :
    (r : ℕ) (xs : List ℕ) (last : ℕ) → follower r xs last ≢ last → Memᴰ (follower r xs last) xs
follower-Memᴰ r [] last ne = absurd (ne refl)
follower-Memᴰ r (x ∷ xs) last ne =
    if_either (λ v. v ≢ last → Memᴰ v (x ∷ xs)) (x == r) (λ h. Memᴰ.tail (head_or-Memᴰ xs last h))
      (λ h. Memᴰ.tail (follower-Memᴰ r xs last h)) ne

-- A task more behind `r`.
abbrev pub insert_after : ℕ → ℕ → List ℕ → List ℕ
insert_after r new [] = []
insert_after r new (x ∷ xs) = if x == r then x ∷ new ∷ xs else x ∷ insert_after r new xs

head_or-insert_after :
    (r new : ℕ) (xs : List ℕ) (last : ℕ) → head_or (insert_after r new xs) last ≡ head_or xs last
head_or-insert_after r new [] last = refl
head_or-insert_after r new (x ∷ xs) last = ground arith

pub Chain-keep :
    (at after : ℕ → Pcb) (r new : ℕ) (xs : List ℕ) (last : ℕ)
    → ((j : ℕ) → j ≢ r → j ≢ new → (after j).next ≡ (at j).next)
    → Outside r xs
    → Outside new xs
    → Chain at xs last
    → Chain after xs last
Chain-keep at after r new [] last same out out' c = tt
Chain-keep at after r new (x ∷ xs) last same out out' c =
    (same x out.0 out'.0 ∙ c.0, Chain-keep at after r new xs last same out.1 out'.1 c.1)

pub Chain-insert_after :
    (at after : ℕ → Pcb) (r new : ℕ) (xs : List ℕ) (last : ℕ)
    → ((j : ℕ) → j ≢ r → j ≢ new → (after j).next ≡ (at j).next)
    → (after r).next ≡ new
    → (after new).next ≡ (at r).next
    → Distinct xs
    → Outside new xs
    → Chain at xs last
    → Chain after (insert_after r new xs) last
Chain-insert_after at after r new [] last same to_new from_new d out c = tt
Chain-insert_after at after r new (x ∷ xs) last same to_new from_new d out c =
    elim (Bool-cases (x == r)) [
      | inl hit ↦
          let e : x ≡ r = (==_iff x r).0 hit in
          rw (hit, e)
            (
              to_new,
              (
                from_new ∙ rw (← e) c.0,
                Chain-keep at after r new xs last same (rw (← e) d.0) out.1 c.1,
              ),
            )
      | inr miss ↦
          let ne : x ≢ r = ground arith in
          rw miss (
            same x ne out.0 ∙ c.0 ∙ sym (head_or-insert_after r new xs last),
            Chain-insert_after at after r new xs last same to_new from_new d.1 out.1 c.1,
          )
    ]
