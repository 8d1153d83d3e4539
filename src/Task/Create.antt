-- ===== src/Task/Create.antt =====
-- A new task in the ring.
use mathlib.Core.Path.{subst}
use mathlib.Core.List.{Memᴰ}
use mathlib.Core.List.Memᴰ
use nar_os.Prelude.{
  ℕ, ◌+◌, ◌≤◌, ◌≡◌, ◌≢◌, refl, false, some, List, [], ◌∷◌, ◌==◌, arith, ltb, Bool-cases, inl, inr,
  if◌then◌else◌, length, ap, sym, ◌∙◌, if_either,
}
use nar_os.Prelude.Words.{update, add32, sub32}
use nar_os.Mem.{page_size}
use nar_os.Task.{
  Pcb, Tasks, max_task_num, frame_size, task_create, setup_pcb, setup_rop_stack, add_pcb_to_queue,
  empty_pcb,
}
use nar_os.Task.Ring.{
  IsRing, AllNumbered, Chain, Outside, Distinct, head_or, follower, insert_after,
  Chain-insert_after,
}
use nar_os.Task.Schedule.{turn}

-- The other tasks once `new` is put behind `r` in the ring.
abbrev pub others_after : ℕ → ℕ → ℕ → List ℕ → List ℕ
others_after root r new others = if root == r then new ∷ others else insert_after r new others

insert_after-others :
    (root r new : ℕ) (others : List ℕ)
    → insert_after r new (root ∷ others) ≡ root ∷ others_after root r new others
insert_after-others root r new others = ground arith

Outside-insert_after :
    (a r new : ℕ) (xs : List ℕ) → new ≢ a → Outside a xs → Outside a (insert_after r new xs)
Outside-insert_after a r new [] ne out = tt
Outside-insert_after a r new (x ∷ xs) ne out =
    if_either (Outside a) (x == r) (out.0, (ne, out.1))
      (out.0, Outside-insert_after a r new xs ne out.1)

Distinct-insert_after :
    (r new : ℕ) (xs : List ℕ) → Outside new xs → Distinct xs → Distinct (insert_after r new xs)
Distinct-insert_after r new [] out d = tt
Distinct-insert_after r new (x ∷ xs) out d =
    if_either Distinct (x == r) ((λ e. out.0 (sym e), d.0), (out.1, d.1))
      (
        Outside-insert_after x r new xs (λ e. out.0 (sym e)) d.0,
        Distinct-insert_after r new xs out.1 d.1,
      )

length-insert_after :
    (r new : ℕ) (xs : List ℕ) → Memᴰ r xs → length (insert_after r new xs) ≡ length xs + 1
length-insert_after r new [] m = absurd (Memᴰ.not-nil m)
length-insert_after r new (x ∷ xs) m = elim (Bool-cases (x == r)) [
  | inl hit ↦ rw hit (omega arith)
  | inr miss ↦ rw miss (elim (Memᴰ.cases_cons m) [
    | inl e ↦ absurd (ground (arith, e))
    | inr later ↦ omega (arith, length-insert_after r new xs later)
  ])
]

Numbered-insert_after :
    (at after : ℕ → Pcb) (r new : ℕ) (xs : List ℕ)
    → ((j : ℕ) → j ≢ new → (after j).pid ≡ (at j).pid)
    → (after new).pid ≢ 0
    → Outside new xs
    → AllNumbered at xs
    → AllNumbered after xs × AllNumbered after (insert_after r new xs)
Numbered-insert_after at after r new [] same pid out all = (tt, tt)
Numbered-insert_after at after r new (x ∷ xs) same pid out all =
    let (kept, inserted) = Numbered-insert_after at after r new xs same pid out.1 all.1 in
    let first : (after x).pid ≢ 0 = rw (same x out.0) all.0 in
    ((first, kept), if_either (AllNumbered after) (x == r) (first, (pid, kept)) (first, inserted))

Memᴰ-insert_after : (a r new : ℕ) (xs : List ℕ) → Memᴰ a xs → Memᴰ a (insert_after r new xs)
Memᴰ-insert_after a r new [] m = absurd (Memᴰ.not-nil m)
Memᴰ-insert_after a r new (x ∷ xs) m = elim (Memᴰ.cases_cons m) [
  | inl e ↦ if_either (Memᴰ a) (x == r) (Memᴰ.head e) (Memᴰ.head e)
  | inr later ↦
      if_either (Memᴰ a) (x == r) (Memᴰ.tail (Memᴰ.tail later))
        (Memᴰ.tail (Memᴰ-insert_after a r new xs later))
]

follower-insert_after :
    (r new : ℕ) (xs : List ℕ) (last : ℕ) → Memᴰ r xs → follower r (insert_after r new xs) last ≡ new
follower-insert_after r new [] last m = absurd (Memᴰ.not-nil m)
follower-insert_after r new (x ∷ xs) last m = elim (Bool-cases (x == r)) [
  | inl hit ↦ rw (hit, hit) refl
  | inr miss ↦
      rw (miss, miss)
        (elim (Memᴰ.cases_cons m) [
          | inl e ↦ absurd (ground (arith, e))
          | inr later ↦ follower-insert_after r new xs last later
        ])
]

-- The state that `task_create` leaves.
unfoldable pub created : ℕ → ℕ → ℕ → ℕ → ℕ → Tasks → Tasks
unfolding setup_pcb setup_rop_stack add_pcb_to_queue
created label root pcb stack entry t =
    let stack_top = add32 stack page_size in
    let rop = sub32 stack_top frame_size in
    add_pcb_to_queue pcb (
      setup_pcb pcb stack_top 0 (record t {
        at = update t.at pcb (record empty_pcb { mm = (t.at root).mm });
        frames = update t.frames rop (setup_rop_stack label rop entry 0 (t.frames rop));
      }))

module _ (label root pcb stack entry : ℕ) (t : Tasks) (other : t.running ≢ pcb) where
  abbrev after : Tasks
  after = created label root pcb stack entry t

  running-next : (after.at t.running).next ≡ pcb
  unfolding created setup_pcb add_pcb_to_queue
  running-next = ground arith

  pcb-next : (after.at pcb).next ≡ (t.at t.running).next
  unfolding created setup_pcb add_pcb_to_queue
  pcb-next = ground (arith, other)

  pcb-pid : (after.at pcb).pid ≡ add32 t.pid_total 1
  unfolding created setup_pcb add_pcb_to_queue
  pcb-pid = ground (arith, other)

  other-next : (j : ℕ) → j ≢ t.running → j ≢ pcb → (after.at j).next ≡ (t.at j).next
  unfolding created setup_pcb add_pcb_to_queue
  other-next j ne ne' = ground (arith, ne, ne')

  other-pid : (j : ℕ) → j ≢ pcb → (after.at j).pid ≡ (t.at j).pid
  unfolding created setup_pcb add_pcb_to_queue
  other-pid j ne = ground (arith, ne)

pub Outside-ne : (a x : ℕ) (xs : List ℕ) → Outside a xs → Memᴰ x xs → x ≢ a
Outside-ne a x [] out m = absurd (Memᴰ.not-nil m)
Outside-ne a x (y ∷ ys) out m = elim (Memᴰ.cases_cons m) [
  | inl e ↦ rw e out.0
  | inr later ↦ Outside-ne a x ys out.1 later
]

pub created-IsRing :
    (label root pcb stack entry : ℕ) (t : Tasks) (others : List ℕ)
    → IsRing t root others
    → Outside pcb (root ∷ others)
    → t.process_num ≤ max_task_num
    → add32 t.pid_total 1 ≢ 0
    → (other : t.running ≢ pcb)
    → IsRing (created label root pcb stack entry t) root (others_after root t.running pcb others)
unfolding created setup_pcb add_pcb_to_queue
created-IsRing label root pcb stack entry t others ring out few pid other =
    let r = t.running in
    let t' = created label root pcb stack entry t in
    let whole = insert_after-others root r pcb others in
    let chain =
      Chain-insert_after t.at t'.at r pcb (root ∷ others) root
        (other-next label root pcb stack entry t other)
        (running-next label root pcb stack entry t other)
        (pcb-next label root pcb stack entry t other) ring.distinct out ring.chain in
    let same = other-pid label root pcb stack entry t other in
    let new_pid : (t'.at pcb).pid ≢ 0 = rw (pcb-pid label root pcb stack entry t other) pid in
    let numbered = Numbered-insert_after t.at t'.at r pcb others same new_pid out.1 ring.numbered in
    let count : length (root ∷ others_after root r pcb others) ≡ length (root ∷ others) + 1 =
      ap length (sym whole) ∙ length-insert_after r pcb (root ∷ others) ring.running_in in
    record {
      chain = subst (λ l. Chain t'.at l root) whole chain;
      distinct =
          subst Distinct whole (Distinct-insert_after r pcb (root ∷ others) out ring.distinct);
      root_pid = same root out.0 ∙ ring.root_pid;
      numbered = if_either (AllNumbered t'.at) (root == r) (new_pid, numbered.0) numbered.1;
      running_in = subst (Memᴰ r) whole (Memᴰ-insert_after r r pcb (root ∷ others) ring.running_in);
      counted = omega (arith, ring.counted, count);
    }

-- With at most 100 tasks and a process number left, `task_create` puts its new task into the ring
-- behind the running one, which goes on running, and the new task has the next turn.
pub task_create-IsRing :
    (label root pcb stack entry : ℕ) (t : Tasks) (others : List ℕ)
    → IsRing t root others
    → Outside pcb (root ∷ others)
    → t.process_num ≤ max_task_num
    → add32 t.pid_total 1 ≢ 0
    → (t' : Tasks) × (task_create label root pcb stack entry t ≡ some (pcb, t'))
      × (t'.running ≡ t.running)
      × IsRing t' root (others_after root t.running pcb others)
      × (turn root (others_after root t.running pcb others) t'.running ≡ pcb)
unfolding task_create created
task_create-IsRing label root pcb stack entry t others ring out few pid =
    let other = Outside-ne pcb t.running (root ∷ others) out ring.running_in in
    let small : ltb max_task_num t.process_num ≡ false = ground arith in
    let next = follower-insert_after t.running pcb (root ∷ others) root ring.running_in in
    let next' =
      subst (λ l. follower t.running l root ≡ pcb) (insert_after-others root t.running pcb others)
        next in
    let ne : (pcb == root) ≡ false = ground (arith, out.0) in
    (
      created label root pcb stack entry t,
      rw small refl,
      refl,
      created-IsRing label root pcb stack entry t others ring out few pid other,
      ap (λ b. if b == root then head_or (others_after root t.running pcb others) root else b) next'
          ∙ rw ne refl,
    )
