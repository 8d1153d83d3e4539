-- ===== src/Start/First.antt =====
-- The first user's task: init of kernel/main.c from the boot to the return of sys_exec.
use nar_os.Prelude.{
  ℕ, ◌+◌, ◌*◌, ◌<◌, ◌≤◌, ◌≡◌, ◌≢◌, refl, true, some, List, [], ◌∷◌, length, ◌==◌, arith, ap, ◌∙◌,
}
use nar_os.Prelude.Bits.{bit}
use nar_os.Mem.{user_vma_start}
use nar_os.Mem.Init.{memory_init}
use nar_os.Mem.Paging.{Machine, UserMemory}
use nar_os.Mem.Paging.User.{page_above}
use nar_os.Mem.Paging.Room.{code_at}
use nar_os.Mem.Paging.Kernel.{IsPlaced, kernel_machine}
use nar_os.Mem.Paging.Copy.{Memory}
use nar_os.Task.Ring.{IsRing}
use nar_os.Task.Boot.{task_init}
use nar_os.Exec.{Kernel, Unset, words_bytes, frame_words, first_frame, sys_exec}
use nar_os.Exec.Spawn.{HasImage}
use nar_os.Exec.Enlist.{Enlisted}
use nar_os.Apic.Wake.{ap_init, ap_init-Prepared}
use nar_os.Start.{
  Symbols, System, Loaded, multiboot_bootloader_magic, interrupt_init, start, touch_all, init,
}
use nar_os.Start.Files.{HasFiles, vfs_init-HasFiles}
use nar_os.Start.Frames.{first, used, get_page-first, memory_init-IsClear}
use nar_os.Start.Heap.{Apart, tables-walk}
use nar_os.Start.HeapWrites.{InHeap, added, Apart-added, touch_all-HasTables}
use nar_os.Start.Tables.{root_machine, root_machine-HasTables}
use nar_os.Start.Steps.{HasDevices, with_memory, with_tasks, with_keyboard_on}
use nar_os.Start.Order.{final, final-Booted, start_runs}
use nar_os.Start.Spawn.{root-Spawns}

behind_first : (a k k' : ℕ) → 1 ≤ k → k ≤ k' → a < a + k'
behind_first a k k' h h' = omega (arith, h, h')

behind : (a c n : ℕ) → c ≡ a + (n + 1) → a < c
behind a c n h = omega (arith, h)

in_order : (a c e : ℕ) → c ≡ a + 2 → e ≡ a + 3 → c < e
in_order a c e h h' = omega (arith, h, h')

init_steps :
    (y : Symbols) (l : Loaded) (heap blocks : List ℕ) (label pcb mm block pid : ℕ) (u : Unset)
    (child : List ℕ) (s started : System) (m1 m2 : Machine) (wakes : List (ℕ × ℕ)) (memory : Memory)
    (made : Kernel)
    → let running =
        started.kernel.users (started.kernel.tasks.at started.kernel.tasks.running).mm in
      start y l s ≡ some started
      → touch_all running heap started.kernel.memory.machine ≡ some m1
      → ap_init running l.apup l.gdt_ptr l.idt_48 (record started.kernel.memory { machine = m1 })
        ≡ some (wakes, memory)
      → touch_all running blocks memory.machine ≡ some m2
      → sys_exec label y.root_task_pcb pcb mm block u child
          (record started.kernel { memory = record memory { machine = m2 } })
        ≡ some (pid, made)
      → init y l heap blocks label pcb mm block u child s
        ≡ some (pid, wakes, record started { kernel = made })
unfolding init
init_steps y l heap blocks label pcb mm block pid u child s started m1 m2 wakes memory made e1 e2 e3
      e4 e5 =
    rw (e1, init, e2, e3, e4, e5) refl

-- With GRUB's magic number, a map of memory, no task yet and the kernel's image in its 16 MB, if
-- enough frames behind them are free, in the first 32 MB, for the pages of the kernel's heap that the
-- parts and sys_exec write to, and the page of the block of kalloc is another one of the heap: init
-- starts the parts, writes the words that should start the other processors to 0xFF000300, where
-- their register is not, and makes the first user's task, of a function of at most a page, and returns
-- its process number, 1. The task has its directory, its code and its first frame in three frames
-- behind the first one, in this order, where the code and the first frame lie byte for byte; it stands
-- behind the root task, which still runs, in the ring; and the devices and the files are there.
pub init-Spawns :
    (y : Symbols) (l : Loaded) (s : System) (heap blocks : List ℕ) (label pcb mm block mode : ℕ)
    (u : Unset) (child : List ℕ)
    → let f = (memory_init l.old l.mmap).1 in
      l.magic ≡ multiboot_bootloader_magic
      → bit l.flags 6 ≡ 1
      → l.alloc ≡ true
      → s.kernel.tasks.process_num ≡ 0
      → s.kernel.tasks.pid_total ≡ 0
      → IsPlaced y.page_dic y.page_tables (first f)
      → first f + length heap + length blocks + 5 ≤ f.total_page
      → first f + length heap + length blocks + 5 ≤ 8192
      → InHeap heap
      → InHeap blocks
      → 0x2000000 ≤ page_above block
      → page_above block < user_vma_start
      → Apart (page_above block) heap
      → Apart (page_above block) blocks
      → y.root_task_pcb ≢ pcb
      → length l.apup ≡ 512
      → length l.gdt_ptr ≡ 6
      → length l.idt_48 ≡ 6
      → 0 < length child
      → length child ≤ 4096
      → (directory_frame : ℕ) × (code_frame : ℕ) × (stack_frame : ℕ) × (s' : System) × (init y l
            heap blocks label pcb mm block u child s
          ≡ some
              (1, (0xFF000300, 0xc4500) ∷ (0xFF000300, 0xc4600) ∷ (0xFF000300, 0xc4600) ∷ [], s'))
        × (first f < directory_frame)
        × (directory_frame < code_frame)
        × (code_frame < stack_frame)
        × HasImage s'.kernel mm child
            (words_bytes (frame_words u (first_frame label 0x40002000 code_at)))
            code_frame
            stack_frame
        × Enlisted s'.kernel.tasks pcb mm (directory_frame * 4096) 0x40002000 1
        × IsRing s'.kernel.tasks y.root_task_pcb (pcb ∷ [])
        × (s'.kernel.tasks.running ≡ y.root_task_pcb)
        × HasDevices y s'.devices
        × HasFiles mode s'.fs
unfolding final interrupt_init with_memory with_tasks with_keyboard_on task_init
init-Spawns y l s heap blocks label pcb mm block mode u child magic flags alloc none_yet no_pid
      placed room low in_heap in_heap' above below apart apart' new size gdt_size idt_size
      some_bytes fits =
    let f = (memory_init l.old l.mmap).1 in
    let k : Machine = record s.kernel.memory.machine { frames = f } in
    let clear = memory_init-IsClear l.old l.mmap in
    let (r, fs, vfs, node, files) = vfs_init-HasFiles l.home_sb mode in
    let started =
      start_runs y l s (first f) (used 1 f) placed r fs magic flags alloc
        (get_page-first f clear (omega (arith, room))) vfs node in
    let mm0 : UserMemory = record {
      pde = y.page_dic * 4096;
      brk = user_vma_start;
      sbrk = user_vma_start;
    } in
    let root : Machine = root_machine y.page_dic y.page_tables (first f) placed k (used 1 f) in
    let s1 : System =
      final y mm0 (kernel_machine y.page_dic y.page_tables (first f) placed k (used 1 f)) root r fs
        s in
    let booted = final-Booted y l s mode (first f) (used 1 f) placed r fs none_yet files in
    let pcb_here : (y.root_task_pcb == y.root_task_pcb) ≡ true = ground arith in
    let mm_here : (y.root_mm == y.root_mm) ≡ true = ground arith in
    let running : UserMemory = s1.kernel.users (s1.kernel.tasks.at s1.kernel.tasks.running).mm in
    let at : running.pde ≡ y.page_dic * 4096 = rw (pcb_here, mm_here) refl in
    let (k1, m1, ran1, more1, few1, t1) =
      touch_all-HasTables y.page_dic y.page_tables f placed clear running at heap [] 1 root
        (root_machine-HasTables y.page_dic y.page_tables (first f) placed k (used 1 f) f refl)
        in_heap (omega (arith, room)) (omega (arith, low)) in
    let (memory, wakes, prepared) =
      ap_init-Prepared running l.apup l.gdt_ptr l.idt_48 (record s1.kernel.memory { machine = m1 })
        0xFF000300 size gdt_size idt_size
        (tables-walk y.page_dic y.page_tables (first f) placed f (added heap []) k1 m1 t1)
        t1.register in
    let (k2, m2, ran2, more2, few2, t2) =
      touch_all-HasTables y.page_dic y.page_tables f placed clear running at blocks (added heap [])
        k1 m1 t1 in_heap' (omega (arith, room, few1)) (omega (arith, low, few1)) in
    let made =
      root-Spawns y.page_dic y.page_tables f placed (added blocks (added heap [])) k2 m2 t2
        (page_above block) above below (omega (arith, low, few1, few2)) label y.root_task_pcb pcb mm
        block u child (record s1.kernel { memory = record memory { machine = m2 } }) refl
        (Apart-added (page_above block) blocks (added heap []) apart'
          (Apart-added (page_above block) heap [] apart tt))
        clear (omega (arith, room, few1, few2)) refl refl at booted.ring new no_pid some_bytes
        fits in
    (
      first f + k2,
      made.0.code,
      made.0.stack,
      record s1 { kernel = made.1 },
      init_steps y l heap blocks label pcb mm block 1 u child s s1 m1 m2
          ((0xFF000300, 0xc4500) ∷ (0xFF000300, 0xc4600) ∷ (0xFF000300, 0xc4600) ∷ []) memory made.1
          started ran1 wakes (ap (touch_all running blocks) prepared.machine ∙ ran2) made.2,
      behind_first (first f) k1 k2 more1 more2,
      behind (first f + k2) made.0.code 1 made.7,
      in_order (first f + k2) made.0.code made.0.stack made.7 made.8,
      made.3,
      made.4,
      made.5,
      made.6,
      booted.devices,
      files,
    )
