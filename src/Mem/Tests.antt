-- ===== src/Mem/Tests.antt =====
-- Runs of kernel/mem.c and instances of its theorems.
use nar_os.Prelude.{
  ℕ, ◌+◌, ◌*◌, ◌≡◌, refl, ◌⊎◌, some, none, List, [], ◌∷◌, ◌==◌, if◌then◌else◌, arith, ◌≤◌,
}
use nar_os.Prelude.Int.{negsuc}
use nar_os.Prelude.Words.{update}
use nar_os.Mem.{
  FrameMap, Tables, KernelMem, entry_init, get_page, put_page, get_paddr, get_entry, didx, kbrk,
}
use nar_os.Mem.Init.{MemoryMap, memory_init, layout, layout-IsValid, IsClear}
use nar_os.Mem.Frames.{IsValid, Takes, IsFull, get_page-Takes}
use nar_os.Mem.Brk.{kbrk_releases_live}

-- 64 MB at 16 MB, frame 4097 in use
abbrev frames : FrameMap
frames = record {
  memory_base = 0x1001000;
  memory_size = 0x4000000;
  total_page = 0x3000;
  page_map = λ i. if i == 0x1001 then 1 else 0;
}

abbrev frames_after : FrameMap
frames_after = record frames { page_map = update frames.page_map 0x1002 1 }

frames-IsValid : IsValid frames
frames-IsValid = omega arith

takes_second : get_page frames ≡ (0x1002000, frames_after)
unfolding get_page
takes_second = refl

puts_back : (put_page 0x1003000 frames ≡ none) × (put_page 0x1000000 frames ≡ none)
unfolding put_page
puts_back = (refl, refl)

abbrev boot_map : List MemoryMap
boot_map =
    record { addr = 0; len = 0x9fc00; type = 1 }
    ∷ record { addr = 0x100000; len = 0x7ee0000; type = 1 }
    ∷ record { addr = 0xfffc0000; len = 0x40000; type = 2 }
    ∷ []

abbrev booted : ℕ × FrameMap
booted = memory_init (λ i. 7) boot_map

boots :
    (booted.0 ≡ 0x1100000)
    × (booted.1.memory_base ≡ 0x1107000)
    × (booted.1.memory_size ≡ 0x6ed9000)
    × (booted.1.total_page ≡ 0x6ed9)
    × (booted.1.page_map 5 ≡ 0)
unfolding memory_init
boots = (refl, refl, refl, refl, refl)

get_page-Takes_example :
    ((i : ℕ) × Takes frames (get_page frames).0 (get_page frames).1 i)
    ⊎ IsFull frames (get_page frames).0 (get_page frames).1
get_page-Takes_example = get_page-Takes frames

layout-IsValid_example :
    let (map, f) = layout (λ i. 7) (0x100000, 0x7ee0000) in
    IsValid f
    × (0x1100000 ≤ map)
    × (map + f.total_page ≤ f.memory_base)
    × (f.memory_base + f.memory_size ≡ 0x7fe0000)
    × IsClear f.total_page f.page_map
layout-IsValid_example =
    layout-IsValid (λ i. 7) 0x100000 0x7ee0000 (omega arith) (omega arith) (omega arith)

-- Frame 4097 is mapped at the first page of the kernel's heap.
abbrev tables : Tables
tables = record {
  pde = 0x200000;
  entry_at = λ a.
      if a == get_entry 0x2000000
      then some (entry_init 0x1001 3)
      else if a == 0x200000 + didx 0x2000000 * 4
      then some (entry_init 9 3)
      else none;
}

abbrev heap_mem : KernelMem
heap_mem = record { ksbrk = 0x2001800; frames = frames; tables = tables }

abbrev frames_none : FrameMap
frames_none = record frames { page_map = update frames.page_map 0x1001 0 }

-- The break moves from 0x2001800 to 0x2000800, and the frame of page 0x2000 is put.
kbrk_releases_live_example :
    kbrk (negsuc 0xfff) heap_mem
    ≡ some (0x2001800, record heap_mem { ksbrk = 0x2000800; frames = frames_none })
unfolding get_paddr put_page entry_init
kbrk_releases_live_example =
    kbrk_releases_live 0xfff heap_mem (omega arith) (omega arith) refl 0x1001000 frames_none refl
      refl
