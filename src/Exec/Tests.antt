-- ===== src/Exec/Tests.antt =====
-- Runs of sys_exec of kernel/task.c and an instance of its theorem.
use mathlib.Core.List.Memᴰ
use nar_os.Prelude.{
  ℕ, ◌+◌, ◌*◌, ◌/◌, ◌%◌, ◌≡◌, refl, Option, none, some, [], ◌∷◌, ◌==◌, if◌then◌else◌, arith,
}
use nar_os.Prelude.Words.{update}
use nar_os.Mem.{
  FrameMap, entry_init, get_page, get_page_loop, get_paddr, sbrk, sbrk_refuses, user_vma_start,
}
use nar_os.Mem.Paging.{
  UserMemory, page_int, demand_page, add_table, map_page, load, store, clear_page, dpl_of, Machine,
  walk, no_entry, kernel_dpl, user_dpl,
}
use nar_os.Mem.Paging.Walk.{IsSelfMapped}
use nar_os.Mem.Paging.Seen.{IsBlock, SeesDirectory}
use nar_os.Mem.Paging.Room.{HasRoom, code_at}
use nar_os.Mem.Paging.Copy.{copy_to_mm_space, memcpy, write_byte, retry, store_byte}
use nar_os.Mem.Paging.User.{touch, init_user_mm_struct, copy_page, link_self}
use nar_os.Task.{setup_pcb, setup_rop_stack, add_pcb_to_queue, empty_pcb}
use nar_os.Task.Ring.{IsRing}
use nar_os.Task.Create.{others_after}
use nar_os.Exec.{
  Kernel, Unset, words_bytes, frame_words, first_frame, sys_exec, load_code, load_stack, enlist,
  add_page,
}
use nar_os.Exec.Spawn.{HasImage, sys_exec-HasImage}
use nar_os.Exec.Enlist.{Enlisted}

abbrev free_frames : FrameMap
free_frames = record {
  memory_base = 0x100000;
  memory_size = 0x10000;
  total_page = 272;
  page_map = λ i. 0;
}

-- A directory in frame 1 with itself in the last slot, a table in frame 2 that maps the first 4 MB to
-- themselves, and an empty one in frame 3 for the kernel's heap.
abbrev machine : Machine
machine = record {
  cr3 = 1;
  entries = λ w.
      if w == 2047
      then entry_init 1 kernel_dpl
      else if w == 1024
      then entry_init 2 user_dpl
      else if w == 1032
      then entry_init 3 user_dpl
      else if w / 1024 == 2
      then entry_init (w % 1024) user_dpl
      else no_entry;
  frames = free_frames;
}

-- The root task alone, at 10, with the descriptor at 90.
abbrev kernel : Kernel
kernel = record {
  tasks = record {
    at = λ j. if j == 10 then record empty_pcb { next = 10; mm = 90 } else empty_pcb;
    spaces = λ j. record { pde = 0x1000; kernel_stack_start = 102 };
    frames = λ j. record {
      ret = 0;
      vector = 0;
      ebp = 0;
      eip = 0;
      cs = 0;
      ds = 0;
      eflags = 0;
      esp3 = 0;
      ss3 = 0;
    };
    running = 10;
    process_num = 1;
    pid_total = 0;
    esp0 = 0;
    cr3 = 0x1000;
  };
  users = λ j. record { pde = 0x1000; brk = user_vma_start; sbrk = user_vma_start };
  memory = record { machine = machine; bytes = λ q. 0 };
}

abbrev unset : Unset
unset = record { edi = 0; esi = 0; esp = 0; ebx = 0; edx = 0; ecx = 0; eax = 0; error = 0 }

-- The block is at 0x2000010; the fault on its page gets frame 256.
abbrev touched : Machine
touched = record {
  cr3 = 1;
  entries = update machine.entries (3 * 1024 + 1) (entry_init 256 kernel_dpl);
  frames = record free_frames { page_map = update (λ i. 0) 256 1 };
}

abbrev root_user : UserMemory
root_user = record { pde = 0x1000; brk = user_vma_start; sbrk = user_vma_start }

touches : touch root_user 0x2001000 machine ≡ some touched
unfolding touch page_int demand_page map_page load store walk dpl_of get_page get_page_loop
    entry_init
touches = refl

touched-IsBlock : IsBlock touched 0x2001000 256
unfolding entry_init
touched-IsBlock = record {
  start = refl;
  table = 3;
  directory = refl;
  table_there = refl;
  no_table = λ e. omega (arith, e);
  there = refl;
  frame = refl;
}

touched-IsSelfMapped : IsSelfMapped touched
unfolding entry_init
touched-IsSelfMapped = record { present = refl; self = refl }

touched-SeesDirectory : SeesDirectory touched 0x1000 256
unfolding entry_init
touched-SeesDirectory = record {
  start = refl;
  no_directory = λ e. omega (arith, e);
  table = 2;
  directory = refl;
  table_there = refl;
  no_table = λ e. omega (arith, e);
  there = refl;
  frame = refl;
}

room : HasRoom touched 256
unfolding entry_init get_page
room = record {
  own = record {
    small = omega arith;
    no_directory = λ e. omega (arith, e);
    table = 2;
    directory = refl;
    table_there = refl;
    no_table = λ e. omega (arith, e);
    there = refl;
    direct = refl;
  };
  low = omega arith;
  no_users = refl;
  table = 257;
  table_own = record {
    small = omega arith;
    no_directory = λ e. omega (arith, e);
    table = 2;
    directory = refl;
    table_there = refl;
    no_table = λ e. omega (arith, e);
    there = refl;
    direct = refl;
  };
  table_low = omega arith;
  table_set = omega arith;
  table_apart = λ e. omega (arith, e);
  shown_apart = λ e. omega (arith, e);
  own_apart = λ e. omega (arith, e);
  code = 258;
  code_set = omega arith;
  code_small = omega arith;
  stack = 259;
  stack_set = omega arith;
  stack_small = omega arith;
  apart = λ e. omega (arith, e);
  after_table = record free_frames { page_map = update (update (λ i. 0) 256 1) 257 1 };
  after_code = record free_frames {
    page_map = update (update (update (λ i. 0) 256 1) 257 1) 258 1;
  };
  after_stack = record free_frames {
    page_map = update (update (update (update (λ i. 0) 256 1) 257 1) 258 1) 259 1;
  };
  got_table = refl;
  got_code = refl;
  got_stack = refl;
}

root_mapped : walk touched 0x1000 ≡ some (1 * 4096)
unfolding walk entry_init
root_mapped = refl

alone : IsRing kernel.tasks 10 []
alone = record {
  chain = (refl, tt);
  distinct = (tt, tt);
  root_pid = refl;
  numbered = tt;
  running_in = Memᴰ.head refl;
  counted = refl;
}

sys_exec-HasImage_example :
    (k' : Kernel) × (sys_exec 0x9000 10 20 80 0x2000010 unset (0xeb ∷ 0xfe ∷ []) kernel
      ≡ some (1, k'))
    × HasImage k' 80
        (0xeb ∷ 0xfe ∷ [])
        (words_bytes (frame_words unset (first_frame 0x9000 0x40002000 code_at)))
        room.code
        room.stack
    × Enlisted k'.tasks 20 80 (256 * 4096) 0x40002000 1
    × IsRing k'.tasks 10 (others_after 10 10 20 [])
    × (k'.memory.machine.cr3 ≡ 1)
    × (k'.tasks.running ≡ 10)
sys_exec-HasImage_example =
    sys_exec-HasImage 0x9000 10 20 80 0x2000010 256 unset (0xeb ∷ 0xfe ∷ []) kernel touched [] alone
      ((λ e. omega (arith, e)), tt) (omega arith) (λ e. omega (arith, e)) touches touched-IsBlock
      touched-IsSelfMapped touched-SeesDirectory root_mapped room (omega arith) (omega arith)

-- The process number, the second byte of the code and the entry in the frame.
abbrev result : Option (ℕ × Kernel) → ℕ × ℕ × ℕ
result none = (0, 0, 0)
result (some (pid, k)) =
    (pid, k.memory.bytes (258 * 4096 + 1), k.memory.bytes (259 * 4096 + 0xFB0 + 60 + 3))

runs : result (sys_exec 0x9000 10 20 80 0x2000010 unset (0xeb ∷ 0xfe ∷ []) kernel) ≡ (1, 0xfe, 0x40)
unfolding sys_exec touch load_code load_stack enlist first_frame add_page init_user_mm_struct
    copy_page link_self copy_to_mm_space memcpy write_byte retry store_byte page_int demand_page
    add_table map_page load store clear_page walk dpl_of get_page get_page_loop get_paddr entry_init
    sbrk sbrk_refuses setup_pcb setup_rop_stack add_pcb_to_queue
runs = refl
