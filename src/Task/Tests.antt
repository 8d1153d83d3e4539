-- ===== src/Task/Tests.antt =====
-- Runs of kernel/task.c and instances of its theorems.
use mathlib.Core.List.Memᴰ
use nar_os.Prelude.{ℕ, ◌+◌, ◌≡◌, refl, Option, none, some, [], ◌∷◌, ◌==◌, if◌then◌else◌, arith}
use nar_os.Task.{
  Frame, Pcb, Tasks, empty_pcb, schedule, next_task, enter_task, clock_int, task_create, task_exit,
  unlink_running, find_back,
}
use nar_os.Task.Fair.{Reaches, clock_int-Reaches}
use nar_os.Task.Ring.{IsRing}
use nar_os.Task.Schedule.{turn, schedule-turn}
use nar_os.Task.Create.{others_after, task_create-IsRing}
use nar_os.Task.Removal.{remove}
use nar_os.Task.Exit.{heir, task_exit-IsRing}

-- The root task at 10, and two more at 20 and 30; the last one runs.
abbrev blocks : ℕ → Pcb
blocks a =
    if a == 10
    then record empty_pcb { next = 20 }
    else if a == 20
    then record empty_pcb { next = 30; pid = 1; dpl = 3; mm = 5 }
    else record empty_pcb { next = 10; pid = 2 }

abbrev three : Tasks
three = record {
  at = blocks;
  spaces = λ a. record { pde = 0x1000 + a; kernel_stack_start = 0x8000 };
  frames = λ a. record {
    ret = 0;
    vector = 0;
    ebp = 0;
    eip = 0;
    cs = 0;
    ds = 0;
    eflags = 0;
    esp3 = 0;
    ss3 = 0;
  };
  running = 30;
  process_num = 3;
  pid_total = 2;
  esp0 = 0;
  cr3 = 0x1000;
}

three-IsRing : IsRing three 10 (20 ∷ 30 ∷ [])
three-IsRing = record {
  chain = (refl, (refl, (refl, tt)));
  distinct = ((omega arith, (omega arith, tt)), ((omega arith, tt), (tt, tt)));
  root_pid = refl;
  numbered = (omega arith, (omega arith, tt));
  running_in = Memᴰ.tail (Memᴰ.tail (Memᴰ.head refl));
  counted = refl;
}

-- Task 20 exits, and 30 gets the turn.
abbrev switch_of : Option (Option (ℕ × ℕ) × Tasks) → Option (ℕ × ℕ)
switch_of none = none
switch_of (some (switch, t)) = switch

runs :
    (switch_of (schedule 2 three) ≡ some (30, 20))
    × (switch_of (task_exit 3 2 10 (record three { running = 20 })) ≡ some (20, 30))
    × (clock_int 2 0x21 three ≡ none)
unfolding schedule next_task enter_task task_exit unlink_running find_back clock_int
runs = (refl, refl, refl)

schedule-turn_example :
    schedule 2 three
    ≡ some (
        if 30 == turn 10 (20 ∷ 30 ∷ []) 30
        then (none, three)
        else (some (30, turn 10 (20 ∷ 30 ∷ []) 30), enter_task (turn 10 (20 ∷ 30 ∷ []) 30) three))
schedule-turn_example = schedule-turn three 10 (20 ∷ 30 ∷ []) three-IsRing

task_create-IsRing_example :
    (t' : Tasks) × (task_create 0x100 10 40 0x9000 0x200 three ≡ some (40, t'))
    × (t'.running ≡ 30)
    × IsRing t' 10 (others_after 10 30 40 (20 ∷ 30 ∷ []))
    × (turn 10 (others_after 10 30 40 (20 ∷ 30 ∷ [])) t'.running ≡ 40)
task_create-IsRing_example =
    task_create-IsRing 0x100 10 40 0x9000 0x200 three (20 ∷ 30 ∷ []) three-IsRing
      (omega arith, (omega arith, (omega arith, tt))) (omega arith) (omega arith)

task_exit-IsRing_example :
    (t' : Tasks) × (task_exit 2 2 10 three ≡ some (some (30, heir 10 (20 ∷ 30 ∷ []) 30), t'))
    × (t'.running ≡ heir 10 (20 ∷ 30 ∷ []) 30)
    × IsRing t' 10 (remove 30 (20 ∷ 30 ∷ []))
task_exit-IsRing_example =
    task_exit-IsRing three 10 (20 ∷ 30 ∷ []) three-IsRing (omega arith) (omega arith)

clock_int-Reaches_example : Reaches three 4 20
clock_int-Reaches_example =
    clock_int-Reaches three 10 (20 ∷ 30 ∷ []) 20 three-IsRing (Memᴰ.head refl)

abbrev no_task : Tasks
no_task = record three { running = 0; process_num = 0 }

abbrev no_frame : Frame
no_frame = record {
  ret = 0;
  vector = 0;
  ebp = 0;
  eip = 0;
  cs = 0;
  ds = 0;
  eflags = 0;
  esp3 = 0;
  ss3 = 0;
}
