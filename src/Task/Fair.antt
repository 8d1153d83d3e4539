-- ===== src/Task/Fair.antt =====
-- Every task gets its turn: runs of clock interrupts over the ring.
use mathlib.Core.List.{Memᴰ, append_assoc}
use mathlib.Core.List.Memᴰ
use mathlib.Core.Path.{subst}
use nar_os.Prelude.{
  ℕ, zero, suc, ◌+◌, ◌*◌, ◌≡◌, ◌≢◌, ◌≤◌, refl, true, false, Option, none, some, List, [], ◌∷◌, ◌++◌,
  ◌==◌, arith, Bool-cases, inl, inr, length, length-append, ap, sym, ◌∙◌, ==_iff, ◌>>=◌,
}
use nar_os.Task.{Tasks, schedule, enter_task, clock_int}
use nar_os.Task.Ring.{IsRing, Distinct, Outside, head_or, follower, follower-Memᴰ}
use nar_os.Task.Schedule.{turn, schedule-turn}

-- The state behind a clock interrupt, and behind `n` of them. The tasks do not end or start others
-- in between.
pub tick : Tasks → Option Tasks
tick t = elim (clock_int 2 0x20 t) [ none ↦ none | some (out, switch, t') ↦ some t' ]

pub ticks : ℕ → Tasks → Option Tasks
ticks zero t = some t
ticks (suc n) t = tick t >>= ticks n

head_or-in : (root : ℕ) (others : List ℕ) → Memᴰ (head_or others root) (root ∷ others)
head_or-in root [] = Memᴰ.head refl
head_or-in root (o ∷ os) = Memᴰ.tail (Memᴰ.head refl)

turn-Memᴰ : (root : ℕ) (others : List ℕ) (r : ℕ) → Memᴰ (turn root others r) (root ∷ others)
turn-Memᴰ root others r = elim (Bool-cases (follower r (root ∷ others) root == root)) [
  | inl last ↦ rw last (head_or-in root others)
  | inr inside ↦ rw inside (follower-Memᴰ r (root ∷ others) root (ground (arith, inside)))
]

tick-schedule :
    (t : Tasks) (switch : Option (ℕ × ℕ)) (t' : Tasks)
    → schedule 2 t ≡ some (switch, t')
    → tick t ≡ some t'
unfolding tick clock_int
tick-schedule t switch t' h = rw (h, tick, clock_int) refl

tick-turn :
    (t : Tasks) (root : ℕ) (others : List ℕ)
    → IsRing t root others
    → (t' : Tasks) × (tick t ≡ some t')
      × (t'.running ≡ turn root others t.running)
      × IsRing t' root others
unfolding enter_task
tick-turn t root others ring = elim (Bool-cases (t.running == turn root others t.running)) [
  | inl same ↦
      let e = (==_iff _ _).0 same in
      (t, tick-schedule t none t (schedule-turn t root others ring ∙ rw same refl), e, ring)
  | inr other ↦ (
    enter_task (turn root others t.running) t,
    tick-schedule t (some (t.running, turn root others t.running))
        (enter_task (turn root others t.running) t)
        (schedule-turn t root others ring ∙ rw other refl),
    refl,
    record {
      chain = ring.chain;
      distinct = ring.distinct;
      root_pid = ring.root_pid;
      numbered = ring.numbered;
      running_in = turn-Memᴰ root others t.running;
      counted = ring.counted;
    },
  )
]

-- Within `b` clock interrupts the task `x` runs.
pub record Reaches (t : Tasks) (b x : ℕ) : Type 0 where
  pub count : ℕ
  pub bound : count ≤ b
  pub after : Tasks
  pub runs : ticks count t ≡ some after
  pub turn_of : after.running ≡ x

now : (t : Tasks) (b x : ℕ) → t.running ≡ x → Reaches t b x
unfolding ticks
now t b x e = record { count = 0; bound = omega arith; after = t; runs = refl; turn_of = e }

later : (t t' : Tasks) (k b x : ℕ) → tick t ≡ some t' → suc k ≤ b → Reaches t' k x → Reaches t b x
unfolding ticks
later t t' k b x step le r = record {
  count = suc r.count;
  bound = omega (arith, le, r.bound);
  after = r.after;
  runs = rw (step, ticks) r.runs;
  turn_of = r.turn_of;
}

Distinct-front : (pre : List ℕ) (r : ℕ) (post : List ℕ) → Distinct (pre ++ r ∷ post) → Outside r pre
Distinct-front [] r post d = tt
Distinct-front (x ∷ pre) r post (out, d) = (apart pre r post out, Distinct-front pre r post d)
  where
    apart : {x : ℕ} (pre : List ℕ) (r : ℕ) (post : List ℕ) → Outside x (pre ++ r ∷ post) → x ≢ r
    apart [] r post out e = out.0 (sym e)
    apart (y ∷ pre) r post out e = apart pre r post out.1 e

Outside-mid :
    (pre : List ℕ) (a r : ℕ) (post : List ℕ)
    → Outside a (pre ++ r ∷ post)
    → (r ≢ a) × Outside a post
Outside-mid [] a r post out = out
Outside-mid (x ∷ pre) a r post out = Outside-mid pre a r post out.1

follower-mid :
    (pre : List ℕ) (r : ℕ) (post : List ℕ) (last : ℕ)
    → Outside r pre
    → follower r (pre ++ r ∷ post) last ≡ head_or post last
follower-mid [] r post last out = let here : (r == r) ≡ true = ground arith in rw here refl
follower-mid (x ∷ pre) r post last out =
    let other : (x == r) ≡ false = ground (arith, out.0) in
    rw other (follower-mid pre r post last out.1)

module _ (root : ℕ) where
  -- The turn behind a task that has another one behind it, and behind the last one.
  turn-mid :
      (pre : List ℕ) (r y : ℕ) (post : List ℕ)
      → Distinct (root ∷ (pre ++ r ∷ y ∷ post))
      → turn root (pre ++ r ∷ y ∷ post) r ≡ y
  turn-mid pre r y post (out, d) =
      let (r_ne, out') = Outside-mid pre root r (y ∷ post) out in
      let other : (root == r) ≡ false = ground (arith, r_ne) in
      let mid = follower-mid pre r (y ∷ post) root (Distinct-front pre r (y ∷ post) d) in
      let inside : (y == root) ≡ false = ground (arith, out'.0) in rw (other, mid, inside) refl

  turn-end :
      (pre : List ℕ) (r : ℕ)
      → Distinct (root ∷ (pre ++ r ∷ []))
      → turn root (pre ++ r ∷ []) r ≡ head_or (pre ++ r ∷ []) root
  turn-end pre r (out, d) =
      let (r_ne, none_left) = Outside-mid pre root r [] out in
      let other : (root == r) ≡ false = ground (arith, r_ne) in
      let mid = follower-mid pre r [] root (Distinct-front pre r [] d) in
      let here : (root == root) ≡ true = ground arith in rw (other, mid, here) refl

  turn-root : (o : ℕ) (os : List ℕ) → Distinct (root ∷ o ∷ os) → turn root (o ∷ os) root ≡ o
  turn-root o os (out, d) =
      let here : (root == root) ≡ true = ground arith in
      let inside : (o == root) ≡ false = ground (arith, out.0) in rw (here, inside) refl

module _ (root : ℕ) (others : List ℕ) where
  -- From a task on to one behind it.
  forward :
      (between pre post : List ℕ) (r x : ℕ) (t : Tasks) (b : ℕ)
      → IsRing t root others
      → others ≡ pre ++ r ∷ (between ++ x ∷ post)
      → t.running ≡ r
      → suc (length between) ≤ b
      → Reaches t b x
  forward [] pre post r x t b ring e at le =
      let (t', step, next, ring') = tick-turn t root others ring in
      let turns =
        subst (λ l. Distinct (root ∷ l) → turn root l r ≡ x) (sym e) (turn-mid root pre r x post)
          ring.distinct in
      later t t' 0 b x step le (now t' 0 x (next ∙ ap (turn root others) at ∙ turns))
  forward (y ∷ between) pre post r x t b ring e at le =
      let (t', step, next, ring') = tick-turn t root others ring in
      let turns =
        subst (λ l. Distinct (root ∷ l) → turn root l r ≡ y) (sym e)
          (turn-mid root pre r y (between ++ x ∷ post)) ring.distinct in
      let e' = e ∙ sym (append_assoc pre (r ∷ []) (y ∷ (between ++ x ∷ post))) in
      later t t' (suc (length between)) b x step (omega (arith, le)) (
        forward between (pre ++ r ∷ []) post y x t' (suc (length between)) ring' e'
          (next ∙ ap (turn root others) at ∙ turns) (omega arith))

  -- From a task on to the end of the ring and to the first one behind the root task.
  around :
      (rest pre : List ℕ) (r x : ℕ) (t : Tasks) (k b : ℕ)
      → IsRing t root others
      → others ≡ pre ++ r ∷ rest
      → t.running ≡ r
      → suc (length rest) + k ≤ b
      → ((t' : Tasks) → IsRing t' root others → t'.running ≡ head_or others root → Reaches t' k x)
      → Reaches t b x
  around [] pre r x t k b ring e at le go_on =
      let (t', step, next, ring') = tick-turn t root others ring in
      let turns =
        subst (λ l. Distinct (root ∷ l) → turn root l r ≡ head_or l root) (sym e)
          (turn-end root pre r) ring.distinct in
      later t t' k b x step (omega (arith, le))
        (go_on t' ring' (next ∙ ap (turn root others) at ∙ turns))
  around (y ∷ rest) pre r x t k b ring e at le go_on =
      let (t', step, next, ring') = tick-turn t root others ring in
      let turns =
        subst (λ l. Distinct (root ∷ l) → turn root l r ≡ y) (sym e) (turn-mid root pre r y rest)
          ring.distinct in
      let e' = e ∙ sym (append_assoc pre (r ∷ []) (y ∷ rest)) in
      later t t' (suc (length rest) + k) b x step (omega (arith, le)) (
        around rest (pre ++ r ∷ []) y x t' k (suc (length rest) + k) ring' e'
          (next ∙ ap (turn root others) at ∙ turns) (omega arith) go_on)

split :
    (x : ℕ) (xs : List ℕ) → Memᴰ x xs → (pre : List ℕ) × (post : List ℕ) × (xs ≡ pre ++ x ∷ post)
split x [] m = absurd (Memᴰ.not-nil m)
split x (y ∷ ys) m = elim (Memᴰ.cases_cons m) [
  | inl e ↦ ([], ys, ap (λ z. z ∷ ys) (sym e))
  | inr later ↦ let (pre, post, e) = split x ys later in (y ∷ pre, post, ap (λ l. y ∷ l) e)
]

from_head :
    (root : ℕ) (others pre post : List ℕ) (x : ℕ) (t : Tasks)
    → IsRing t root others
    → others ≡ pre ++ x ∷ post
    → t.running ≡ head_or others root
    → Reaches t (length others) x
from_head root others [] post x t ring e at =
    now t (length others) x (at ∙ ap (λ l. head_or l root) e)
from_head root others (h ∷ pre) post x t ring e at =
    let size = ap length e in
    forward root others pre [] post h x t (length others) ring e (at ∙ ap (λ l. head_or l root) e)
      (omega (arith, size, length-append pre (x ∷ post)))

turn-first :
    (root : ℕ) (others : List ℕ) (x : ℕ)
    → Distinct (root ∷ others)
    → Memᴰ x others
    → turn root others root ≡ head_or others root
turn-first root [] x d m = absurd (Memᴰ.not-nil m)
turn-first root (o ∷ os) x d m = turn-root root o os d

-- Whichever task of a ring runs, every task but the root task has run within twice as many clock
-- interrupts as there are such tasks.
pub clock_int-Reaches :
    (t : Tasks) (root : ℕ) (others : List ℕ) (x : ℕ)
    → IsRing t root others
    → Memᴰ x others
    → Reaches t (2 * length others) x
clock_int-Reaches t root others x ring m =
    let (pre, post, e) = split x others m in
    let size = ap length e ∙ length-append pre (x ∷ post) in
    elim (Memᴰ.cases_cons ring.running_in) [
      | inl at ↦
          let (t', step, next, ring') = tick-turn t root others ring in
          let first = next ∙ ap (turn root others) at ∙ turn-first root others x ring.distinct m in
          later t t' (length others) (2 * length others) x step (omega (arith, size))
            (from_head root others pre post x t' ring' e first)
      | inr inside ↦
          let (p, q, e') = split t.running others inside in
          let size' = ap length e' ∙ length-append p (t.running ∷ q) in
          around root others q p t.running x t (length others) (2 * length others) ring e' refl
            (omega (arith, size'))
            (λ t' ring' head. from_head root others pre post x t' ring' e head)
    ]
