-- ===== src/Exec/Enlist.antt =====
-- The control block that sys_exec of kernel/task.c puts into the ring.
use nar_os.Prelude.{ℕ, ◌≤◌, ◌≡◌, ◌≢◌, refl, List, [], ◌∷◌, ◌==◌, arith, true, false, sym, ◌∙◌}
use nar_os.Prelude.Words.{add32, sub32}
use nar_os.Task.{Tasks, max_task_num, setup_pcb, add_pcb_to_queue, frame_size}
use nar_os.Task.Ring.{IsRing, AllNumbered, Chain, Outside}
use nar_os.Task.Create.{created, created-IsRing, others_after, Outside-ne}
use nar_os.Exec.{enlist}

-- The ring reads no more of the blocks than the next one and the number.
record IsSame (t t' : Tasks) : Type 0 where
  pub next : (j : ℕ) → (t'.at j).next ≡ (t.at j).next
  pub pid : (j : ℕ) → (t'.at j).pid ≡ (t.at j).pid
  pub running : t'.running ≡ t.running
  pub process_num : t'.process_num ≡ t.process_num

Chain-IsSame :
    (t t' : Tasks) (xs : List ℕ) (last : ℕ) → IsSame t t' → Chain t.at xs last → Chain t'.at xs last
Chain-IsSame t t' [] last s c = tt
Chain-IsSame t t' (x ∷ xs) last s c = (s.next x ∙ c.0, Chain-IsSame t t' xs last s c.1)

AllNumbered-IsSame :
    (t t' : Tasks) (xs : List ℕ) → IsSame t t' → AllNumbered t.at xs → AllNumbered t'.at xs
AllNumbered-IsSame t t' [] s a = tt
AllNumbered-IsSame t t' (x ∷ xs) s a =
    ((λ e. a.0 (sym (s.pid x) ∙ e)), AllNumbered-IsSame t t' xs s a.1)

IsRing-IsSame :
    (t t' : Tasks) (root : ℕ) (others : List ℕ)
    → IsSame t t'
    → IsRing t root others
    → IsRing t' root others
IsRing-IsSame t t' root others s ring = record {
  chain = Chain-IsSame t t' (root ∷ others) root s ring.chain;
  distinct = ring.distinct;
  root_pid = s.pid root ∙ ring.root_pid;
  numbered = AllNumbered-IsSame t t' others s ring.numbered;
  running_in = rw s.running ring.running_in;
  counted = s.process_num ∙ ring.counted;
}

enlist-IsSame :
    (label root pcb mm pde stack stack_top entry : ℕ) (t : Tasks)
    → IsSame (created label root pcb stack entry t) (enlist pcb mm pde stack_top t)
unfolding created enlist setup_pcb add_pcb_to_queue
enlist-IsSame label root pcb mm pde stack stack_top entry t = record {
  next = λ j. ground arith;
  pid = λ j. ground arith;
  running = refl;
  process_num = refl;
}

-- The new task stands behind the running one in the ring.
pub enlist-IsRing :
    (root pcb mm pde stack_top : ℕ) (t : Tasks) (others : List ℕ)
    → IsRing t root others
    → Outside pcb (root ∷ others)
    → t.process_num ≤ max_task_num
    → add32 t.pid_total 1 ≢ 0
    → IsRing (enlist pcb mm pde stack_top t) root (others_after root t.running pcb others)
enlist-IsRing root pcb mm pde stack_top t others ring out few pid =
    IsRing-IsSame (created 0 root pcb 0 0 t) (enlist pcb mm pde stack_top t) root
      (others_after root t.running pcb others) (enlist-IsSame 0 root pcb mm pde 0 stack_top 0 t)
      (created-IsRing 0 root pcb 0 0 t others ring out few pid
        (Outside-ne pcb t.running (root ∷ others) out ring.running_in))

-- What the block and the descriptor hold.
pub record Enlisted (t : Tasks) (pcb mm pde stack_top pid : ℕ) : Type 0 where
  pub saved : (t.at pcb).esp ≡ sub32 stack_top frame_size
  pub top : (t.at pcb).ebp ≡ stack_top
  pub user : (t.at pcb).dpl ≡ 3
  pub memory : (t.at pcb).mm ≡ mm
  pub directory : (t.spaces mm).pde ≡ pde
  pub process_number : (t.at pcb).pid ≡ pid

pub enlist-Enlisted :
    (root pcb mm pde stack_top : ℕ) (t : Tasks) (others : List ℕ)
    → IsRing t root others
    → Outside pcb (root ∷ others)
    → Enlisted (enlist pcb mm pde stack_top t) pcb mm pde stack_top (add32 t.pid_total 1)
unfolding enlist setup_pcb add_pcb_to_queue
enlist-Enlisted root pcb mm pde stack_top t others ring out =
    let other : (pcb == t.running) ≡ false =
      ground (arith, Outside-ne pcb t.running (root ∷ others) out ring.running_in) in
    let here : (pcb == pcb) ≡ true = ground arith in
    let here' : (mm == mm) ≡ true = ground arith in
    record {
      saved = rw (other, here) refl;
      top = rw (other, here) refl;
      user = rw (other, here) refl;
      memory = rw (other, here) refl;
      directory = rw here' refl;
      process_number = rw (other, here) refl;
    }

pub enlist-running :
    (pcb mm pde stack_top : ℕ) (t : Tasks) → (enlist pcb mm pde stack_top t).running ≡ t.running
unfolding enlist setup_pcb add_pcb_to_queue
enlist-running pcb mm pde stack_top t = refl

pub enlist-directory :
    (pcb mm pde stack_top : ℕ) (t : Tasks) → ((enlist pcb mm pde stack_top t).spaces mm).pde ≡ pde
unfolding enlist setup_pcb add_pcb_to_queue
enlist-directory pcb mm pde stack_top t =
    let here : (mm == mm) ≡ true = ground arith in rw here refl
