-- ===== src/Task/Exit.antt =====
-- The end of a task.
use mathlib.Core.List.{Memᴰ}
use mathlib.Core.List.Memᴰ
use nar_os.Prelude.{
  ℕ, ◌^◌, ◌<◌, ◌≡◌, ◌≢◌, refl, false, some, List, [], ◌∷◌, ◌==◌, arith, Bool-cases, inl, inr,
  if◌then◌else◌, length, ap, sym, ◌∙◌, ==_iff,
}
use nar_os.Prelude.Words.{update, sub32}
use nar_os.Task.{Tasks, unlink_running, task_exit, schedule, enter_task, next_task}
use nar_os.Task.Ring.{IsRing, Outside, Distinct, head_or, follower, next-follower, Numbered-Memᴰ}
use nar_os.Task.Schedule.{next_task-wrap, next_task-stop}
use nar_os.Task.Create.{Outside-ne}
use nar_os.Task.Removal.{
  leader, remove, find_back-leader, Chain-remove, Distinct-remove, Outside-remove, length-remove,
  Numbered-remove, follower-remove, leader-ne,
}

-- The state in front of the `schedule` of `task_exit`.
abbrev unlinked : ℕ → Tasks → Tasks
unlinked back t =
    let at = update t.at back (record (t.at back) { next = (t.at t.running).next }) in
    record t {
      at = update at t.running (record (at t.running) { pid = 0 });
      process_num = sub32 t.process_num 1;
    }

module _ (back : ℕ) (t : Tasks) (ne : back ≢ t.running) where
  back-next : ((unlinked back t).at back).next ≡ (t.at t.running).next
  back-next = ground (arith, ne)

  other-next : (j : ℕ) → j ≢ back → ((unlinked back t).at j).next ≡ (t.at j).next
  other-next j h = ground (arith, ne, h)

  other-pid : (j : ℕ) → j ≢ t.running → ((unlinked back t).at j).pid ≡ (t.at j).pid
  other-pid j h = ground (arith, ne, h)

-- The task that gets the turn when `r` ends.
abbrev pub heir : ℕ → List ℕ → ℕ → ℕ
heir root others r =
    let behind = follower r others root in
    if behind == root then head_or (remove r others) root else behind

in_others : (root : ℕ) (others : List ℕ) (x : ℕ) → x ≢ root → Memᴰ x (root ∷ others) → Memᴰ x others
in_others root others x ne m = elim (Memᴰ.cases_cons m) [
  | inl e ↦ absurd (ne e)
  | inr later ↦ later
]

heir-Memᴰ :
    (root : ℕ) (others : List ℕ) (r : ℕ) → Memᴰ (heir root others r) (root ∷ remove r others)
heir-Memᴰ root others r = elim (Bool-cases (follower r others root == root)) [
  | inl wraps ↦ rw wraps (first (remove r others))
  | inr inside ↦ rw inside (Memᴰ.tail (follower-remove r others root (ground (arith, inside))))
]
  where
    first : (xs : List ℕ) → Memᴰ (head_or xs root) (root ∷ xs)
    first [] = Memᴰ.head refl
    first (x ∷ xs) = Memᴰ.tail (Memᴰ.head refl)

-- The ring without the task.
exited-IsRing :
    (t : Tasks) (root : ℕ) (others : List ℕ)
    → IsRing t root others
    → t.running ≢ root
    → t.process_num < 2 ^ 32
    → IsRing
        (enter_task (heir root others t.running) (unlinked (leader t.running root others) t))
        root
        (remove t.running others)
unfolding enter_task
exited-IsRing t root others ring ne small =
    let r = t.running in
    let back = leader r root others in
    let u = unlinked back t in
    let m = in_others root others r ne ring.running_in in
    let back_ne = leader-ne r root others ring.distinct m in
    record {
      chain =
          Chain-remove t.at u.at r root others root (other-next back t back_ne)
            (back-next back t back_ne) ring.distinct m ring.chain;
      distinct =
          (Outside-remove root r others ring.distinct.0, Distinct-remove r others ring.distinct.1);
      root_pid = other-pid back t back_ne root (λ e. ne (sym e)) ∙ ring.root_pid;
      numbered =
          Numbered-remove t.at u.at r others (other-pid back t back_ne) ring.distinct.1
            ring.numbered;
      running_in = heir-Memᴰ root others r;
      counted = omega (arith, ring.counted, length-remove r others m);
    }

Outside-remove_self : (r : ℕ) (xs : List ℕ) → Distinct xs → Outside r (remove r xs)
Outside-remove_self r [] d = tt
Outside-remove_self r (x ∷ xs) d = elim (Bool-cases (x == r)) [
  | inl hit ↦ let e : x ≡ r = (==_iff x r).0 hit in rw hit (rw (← e) d.0)
  | inr miss ↦ rw miss (ground arith, Outside-remove_self r xs d.1)
]

-- The scheduler goes on from the block of the task that ended.
exited-next :
    (t : Tasks) (root : ℕ) (others : List ℕ)
    → IsRing t root others
    → t.running ≢ root
    → t.process_num < 2 ^ 32
    → let u = unlinked (leader t.running root others) t in
      next_task 2 u.process_num u.at t.running ≡ some (heir root others t.running)
unfolding enter_task
exited-next t root others ring ne small =
    let r = t.running in
    let back = leader r root others in
    let u = unlinked back t in
    let m = in_others root others r ne ring.running_in in
    let back_ne = leader-ne r root others ring.distinct m in
    let ring' = exited-IsRing t root others ring ne small in
    let other : (root == r) ≡ false = ground (arith, ne) in
    let next : (u.at r).next ≡ follower r others root =
      other-next back t back_ne r (λ e. back_ne (sym e))
      ∙ next-follower t.at (root ∷ others) root r ring.chain ring.running_in
      ∙ rw other refl in
    elim (Bool-cases (follower r others root == root)) [
      | inl wraps ↦
          let to_root = next ∙ (==_iff _ _).0 wraps in
          rw wraps (
            next_task-wrap u.process_num u.at r root (remove r others) ring'.counted to_root
              ring'.root_pid ring'.chain.0 ring'.numbered)
      | inr inside ↦
          let stays = follower-remove r others root (ground (arith, inside)) in
          let numbered = Numbered-Memᴰ u.at (remove r others) _ ring'.numbered stays in
          rw inside (next_task-stop 1 u.process_num u.at r (rw next numbered) ∙ ap some next)
    ]

-- When a task that is not the root task ends, `task_exit` finds it in the ring, takes it out and
-- switches to the task behind it, the root task left out unless it is alone; the ring of the others
-- stays whole.
pub task_exit-IsRing :
    (t : Tasks) (root : ℕ) (others : List ℕ)
    → IsRing t root others
    → t.running ≢ root
    → t.process_num < 2 ^ 32
    → (t' : Tasks) × (task_exit (length others) 2 root t
        ≡ some (some (t.running, heir root others t.running), t'))
      × (t'.running ≡ heir root others t.running)
      × IsRing t' root (remove t.running others)
unfolding task_exit unlink_running schedule enter_task
task_exit-IsRing t root others ring ne small =
    let r = t.running in
    let m = in_others root others r ne ring.running_in in
    let found =
      find_back-leader (length others) t.at r root others root (omega arith) ring.chain m in
    let next = exited-next t root others ring ne small in
    let gone : Outside r (root ∷ remove r others) =
      (λ e. ne (sym e), Outside-remove_self r others ring.distinct.1) in
    let differs : (r == heir root others r) ≡ false =
      ground (arith, Outside-ne r _ _ gone (heir-Memᴰ root others r)) in
    (
      _,
      rw (found, task_exit, unlink_running, next, schedule, differs) refl,
      refl,
      exited-IsRing t root others ring ne small,
    )
