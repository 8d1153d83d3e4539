-- ===== src/Start/Spawn.antt =====
-- The room that init of kernel/main.c leaves for the first user's task, which sys_exec makes of it.
use nar_os.Prelude.{
  ℕ, suc, ◌+◌, ◌*◌, ◌%◌, ◌<◌, ◌≤◌, ◌≡◌, ◌≢◌, refl, true, some, List, [], ◌∷◌, length, ◌==◌, arith,
  ap, sym, ◌∙◌,
}
use nar_os.Prelude.Words.{add32}
use nar_os.Mem.{FrameMap, user_vma_start}
use nar_os.Mem.Init.{IsClear}
use nar_os.Mem.Paging.{Machine}
use nar_os.Mem.Paging.User.{page_above}
use nar_os.Mem.Paging.Seen.{IsDirect}
use nar_os.Mem.Paging.Room.{HasRoom, code_at}
use nar_os.Mem.Paging.Kernel.{IsPlaced}
use nar_os.Task.Ring.{IsRing}
use nar_os.Exec.{Kernel, Unset, words_bytes, frame_words, first_frame, sys_exec}
use nar_os.Exec.Spawn.{HasImage, sys_exec-HasImage}
use nar_os.Exec.Enlist.{Enlisted}
use nar_os.Start.Frames.{first, get_page-used, used}
use nar_os.Start.Heap.{
  Apart, HasTables, IsDirect-table, tables-IsDirect, tables-SeesDirectory, tables-walk,
  tables-unmapped,
}
use nar_os.Start.Touch.{touched, touched-HasTables, touched-IsBlock, touch-unmapped}

module _ (page_dic page_tables : ℕ) (f : FrameMap) (p : IsPlaced page_dic page_tables (first f))
    (pages : List ℕ) (k : ℕ) (m : Machine)
    (t : HasTables page_dic page_tables (first f) f pages k m) (v : ℕ) (heap : 0x2000000 ≤ v)
    (kernel : v < user_vma_start) (low : first f + k + 4 ≤ 8192) where
  -- The machine when the block's page is in the next frame.
  abbrev block_machine : Machine
  block_machine = touched page_dic page_tables f p pages k m t v heap kernel

  block-HasTables : HasTables page_dic page_tables (first f) f (v ∷ pages) (suc k) block_machine
  block-HasTables = touched-HasTables page_dic page_tables f p pages k m t v heap kernel

  block-IsDirect : (h : ℕ) → 4096 ≤ h → h < 8192 → IsDirect block_machine h
  block-IsDirect =
      tables-IsDirect page_dic page_tables (first f) p f (v ∷ pages) (suc k) block_machine
        block-HasTables

  shown : (h : ℕ) → h < 8192 → (d : IsDirect block_machine h) → d.table < 4096
  shown =
      IsDirect-table page_dic page_tables (first f) p f (v ∷ pages) (suc k) block_machine
        block-HasTables

  block-HasRoom :
      IsClear f.total_page f.page_map
      → first f + k + 4 ≤ f.total_page
      → (r : HasRoom block_machine (first f + k)) × (r.code ≡ first f + k + 2)
        × (r.stack ≡ first f + k + 3)
  block-HasRoom clear room =
      let own = block-IsDirect (first f + k) (omega (arith, p.above)) (omega (arith, low)) in
      let table = block-IsDirect (first f + suc k) (omega (arith, p.above)) (omega (arith, low)) in
      (
        record {
          own = own;
          low = omega (arith, low);
          no_users = block-HasTables.no_users;
          table = first f + suc k;
          table_own = table;
          table_low = omega (arith, low);
          table_set = omega arith;
          table_apart = λ e. omega (arith, e);
          shown_apart =
              λ e. omega (arith, p.above, shown (first f + suc k) (omega (arith, low)) table, e);
          own_apart = λ e. omega (arith, p.above, shown (first f + k) (omega (arith, low)) own, e);
          code = first f + suc (suc k);
          code_set = omega arith;
          code_small = omega (arith, low);
          stack = first f + suc (suc (suc k));
          stack_set = omega arith;
          stack_small = omega (arith, low);
          apart = λ e. omega (arith, e);
          after_table = used (suc (suc k)) f;
          after_code = used (suc (suc (suc k))) f;
          after_stack = used (suc (suc (suc (suc k)))) f;
          got_table = get_page-used (suc k) f clear (omega (arith, room));
          got_code = get_page-used (suc (suc k)) f clear (omega (arith, room));
          got_stack = get_page-used (suc (suc (suc k))) f clear (omega (arith, room));
        },
        omega arith,
        omega arith,
      )

  -- From these tables sys_exec makes the first task.
  pub root-Spawns :
      (label root pcb mm block : ℕ) (u : Unset) (code : List ℕ) (kernel_state : Kernel)
      → page_above block ≡ v
      → Apart v pages
      → IsClear f.total_page f.page_map
      → first f + k + 4 ≤ f.total_page
      → kernel_state.memory.machine ≡ m
      → kernel_state.tasks.running ≡ root
      → (kernel_state.users (kernel_state.tasks.at root).mm).pde ≡ page_dic * 4096
      → IsRing kernel_state.tasks root []
      → root ≢ pcb
      → kernel_state.tasks.pid_total ≡ 0
      → 0 < length code
      → length code ≤ 4096
      → (r : HasRoom block_machine (first f + k)) × (k' : Kernel) × (sys_exec label root pcb mm
            block u code kernel_state
          ≡ some (1, k'))
        × HasImage k' mm code
            (words_bytes (frame_words u (first_frame label 0x40002000 code_at)))
            r.code
            r.stack
        × Enlisted k'.tasks pcb mm ((first f + k) * 4096) 0x40002000 1
        × IsRing k'.tasks root (pcb ∷ [])
        × (k'.tasks.running ≡ root)
        × (r.code ≡ first f + k + 2)
        × (r.stack ≡ first f + k + 3)
  root-Spawns label root pcb mm block u code s at apart clear room machine runs pde ring new no_pid
        some_bytes fits =
      let (space, at_code, at_stack) = block-HasRoom clear room in
      let here : (root == root) ≡ true = ground arith in
      let high : 4096 ≤ first f + k = omega (arith, p.above) in
      let below : first f + k < 8192 = omega (arith, low) in
      let number : add32 s.tasks.pid_total 1 ≡ 1 = rw no_pid refl in
      let start : v % 4096 ≡ 0 = omega (arith, at) in
      let unmapped =
        tables-unmapped page_dic page_tables (first f) p f pages k m t v heap kernel apart in
      let made =
        sys_exec-HasImage label root pcb mm block (first f + k) u code s block_machine [] ring
          (new, tt) (omega (arith, ring.counted)) (λ e. omega (arith, number, e))
          (rw (at, machine, runs)
            (touch-unmapped page_dic page_tables f p pages k m t v heap kernel
              (s.users (s.tasks.at root).mm) pde unmapped clear (omega (arith, room)) below))
          (rw at
            (touched-IsBlock page_dic page_tables f p pages k m t v heap kernel high below start))
          block-HasTables.self
          (rw (runs, pde)
            (tables-SeesDirectory page_dic page_tables (first f) p f (v ∷ pages) (suc k)
              block_machine block-HasTables (first f + k) high))
          (rw pde (
            tables-walk page_dic page_tables (first f) p f (v ∷ pages) (suc k) block_machine
              block-HasTables (page_dic * 4096) (omega (arith, p.directory_low))
            ∙ ap (λ c. some (c * 4096)) (sym block-HasTables.cr3)))
          space some_bytes fits in
      (
        space,
        made.0,
        made.1 ∙ ap (λ n. some (n, made.0)) number,
        made.2,
        rw number at made.3,
        rw (runs, here) at made.4,
        made.6 ∙ runs,
        at_code,
        at_stack,
      )
