-- ===== src/Task/Schedule.antt =====
-- Whose turn is next.
use mathlib.Core.List.{Memᴰ}
use mathlib.Core.List.Memᴰ
use nar_os.Prelude.{
  ℕ, suc, ◌+◌, ◌≡◌, ◌≢◌, refl, true, false, none, some, List, [], ◌∷◌, ◌==◌, arith, ltb, Bool-cases,
  inl, inr, if◌then◌else◌, length, ap, sym, ◌∙◌, ==_iff,
}
use nar_os.Task.{Pcb, Tasks, next_task, schedule, enter_task}
use nar_os.Task.Ring.{
  IsRing, AllNumbered, head_or, follower, next-follower, Numbered-Memᴰ, follower-Memᴰ,
}

-- The task after `r`: the one behind it in the ring, the root task left out unless it is alone.
abbrev pub turn : ℕ → List ℕ → ℕ → ℕ
turn root others r =
    let behind = follower r (root ∷ others) root in
    if behind == root then head_or others root else behind

pub next_task-stop :
    (n num : ℕ) (at : ℕ → Pcb) (r : ℕ)
    → (at (at r).next).pid ≢ 0
    → next_task (suc n) num at r ≡ some (at r).next
unfolding next_task
next_task-stop n num at r h =
    let e : ((at (at r).next).pid == 0) ≡ false = ground (arith, h) in ground (arith, e)

-- The root task is passed over if there are others.
pub next_task-wrap :
    (num : ℕ) (at : ℕ → Pcb) (r root : ℕ) (others : List ℕ)
    → num ≡ length others + 1
    → (at r).next ≡ root
    → (at root).pid ≡ 0
    → (at root).next ≡ head_or others root
    → AllNumbered at others
    → next_task 2 num at r ≡ some (head_or others root)
unfolding next_task
next_task-wrap num at r root [] counted to_root pid next numbered =
    let e : ltb 1 num ≡ false = ground arith in rw (e, to_root) refl
next_task-wrap num at r root (o ∷ os) counted to_root pid next numbered =
    let e : ltb 1 num ≡ true = ground arith in
    let z : ((at root).pid == 0) ≡ true = ground (arith, pid) in
    let nz : ((at o).pid == 0) ≡ false = ground (arith, numbered.0) in
    rw (e, to_root, z, next, nz) refl

-- Two rounds of the loop find the next task.
next_task-turn :
    (t : Tasks) (root : ℕ) (others : List ℕ)
    → IsRing t root others
    → next_task 2 t.process_num t.at t.running ≡ some (turn root others t.running)
next_task-turn t root others ring =
    let next = next-follower t.at (root ∷ others) root t.running ring.chain ring.running_in in
    elim (Bool-cases (follower t.running (root ∷ others) root == root)) [
      | inl last ↦
          let to_root = next ∙ (==_iff _ _).0 last in
          rw last (
            next_task-wrap t.process_num t.at t.running root others ring.counted to_root
              ring.root_pid ring.chain.0 ring.numbered)
      | inr inside ↦
          let ne : follower t.running (root ∷ others) root ≢ root = ground (arith, inside) in
          let member =
            in_others root others _ ne (follower-Memᴰ t.running (root ∷ others) root ne) in
          let numbered = Numbered-Memᴰ t.at others _ ring.numbered member in
          rw inside
            (next_task-stop 1 t.process_num t.at t.running (rw next numbered) ∙ ap some next)
    ]
  where
    in_others :
        (root : ℕ) (others : List ℕ) (x : ℕ) → x ≢ root → Memᴰ x (root ∷ others) → Memᴰ x others
    in_others root others x ne m = elim (Memᴰ.cases_cons m) [
      | inl e ↦ absurd (ne e)
      | inr later ↦ later
    ]

-- In a ring `schedule` ends and makes the next task run: it switches from the running task to it,
-- unless that is the running task itself, when nothing changes.
pub schedule-turn :
    (t : Tasks) (root : ℕ) (others : List ℕ)
    → IsRing t root others
    → let new = turn root others t.running in
      schedule 2 t
      ≡ some (if t.running == new then (none, t) else (some (t.running, new), enter_task new t))
unfolding schedule
schedule-turn t root others ring = elim (Bool-cases (t.running == turn root others t.running)) [
  | inl alone ↦
      let same : turn root others t.running ≡ t.running = sym ((==_iff _ _).0 alone) in
      rw (next_task-turn t root others ring, schedule, alone)
        (ap (λ k. some (none, record t { running = k })) same)
  | inr other ↦ rw (next_task-turn t root others ring, schedule, other) refl
]
