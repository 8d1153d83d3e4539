-- ===== src/KHeap/Tests.antt =====
-- Runs of kernel/heap.c and instances of its theorems.
use nar_os.Prelude.{
  ℕ, ◌≡◌, refl, inl, inr, true, false, Option, some, none, List, [], ◌∷◌, ◌==◌, if◌then◌else◌,
  arith,
}
use nar_os.Prelude.Int.{negsuc}
use nar_os.Mem.{FrameMap, Tables, kernel_heap_vma_start, kbrk}
use nar_os.Prelude.{◌<◌, ◌≤◌, ◌≢◌, ◌+◌, false, true, List}
use nar_os.Prelude.Words.{update}
use nar_os.KHeap.Calloc.{calloc, Zeroed, calloc-Zeroed, calloc_overflow}
use nar_os.KHeap.Realloc.{realloc, realloc-Moves}
use nar_os.KHeap.{Heap, link_block, malloc, free}
use nar_os.KHeap.Layout.{IsHeap}
use nar_os.KHeap.Malloc.{Allocates, malloc-Allocates}
use nar_os.KHeap.Free.{GivesBack, free-GivesBack}
use nar_os.KHeap.Overflow.{malloc_wraps}

abbrev frames : FrameMap
frames = record {
  memory_base = 0x1001000;
  memory_size = 0x4000000;
  total_page = 0x3000;
  page_map = λ i. 0;
}

abbrev tables : Tables
tables = record { pde = 0; entry_at = λ a. none }

-- As the kernel starts.
abbrev empty : Heap
empty = record {
  at = λ a. record { size = 0; is_free = false; next = 0 };
  head = 0;
  tail = 0;
  mem = record { ksbrk = kernel_heap_vma_start; frames = frames; tables = tables };
}

-- Two blocks of 100 and 24 bytes, the first one free.
abbrev two : Heap
two = record {
  at = λ a.
      if a == 0x2000000
      then record { size = 100; is_free = true; next = 0x2000074 }
      else record { size = 24; is_free = false; next = 0 };
  head = 0x2000000;
  tail = 0x2000074;
  mem = record { ksbrk = 0x200009c; frames = frames; tables = tables };
}

abbrev blocks : List ℕ
blocks = 0x2000000 ∷ 0x2000074 ∷ []

empty-IsHeap : IsHeap kernel_heap_vma_start empty []
empty-IsHeap = record {
  chain = (refl, refl);
  tail = refl;
  above_null = omega arith;
  below_int = omega arith;
}

two-IsHeap : IsHeap kernel_heap_vma_start two blocks
two-IsHeap = record {
  chain = (refl, refl, (refl, refl, (refl, refl)));
  tail = refl;
  above_null = omega arith;
  below_int = omega arith;
}

abbrev pointer : Option (ℕ × Heap) → ℕ
pointer none = 0
pointer (some (p, h)) = p

reuses : pointer (malloc 3 64 two) ≡ 0x2000010
unfolding malloc
reuses = refl

grows : pointer (malloc 3 101 two) ≡ 0x20000ac
unfolding malloc kbrk
grows = refl

malloc-Allocates_example :
    (p : ℕ) × (g : Heap) × (malloc 3 64 two ≡ some (p, g))
    × Allocates kernel_heap_vma_start two blocks 64 p g
malloc-Allocates_example =
    malloc-Allocates kernel_heap_vma_start two 64 blocks 3 two-IsHeap (omega arith) (omega arith)
      (omega arith)

free-GivesBack_example :
    GivesBack kernel_heap_vma_start blocks 0x2000074
      (kbrk (negsuc 39) two.mem)
      (free 3 0x2000084 two)
free-GivesBack_example =
    free-GivesBack kernel_heap_vma_start two blocks 3 0x2000074 two-IsHeap (inr (inl refl)) refl
      (omega arith)

-- A request for 2 ^ 32 - 12 bytes moves the break by 4 bytes.
malloc_wraps_example :
    malloc 1 0xfffffff4 empty
    ≡ some
        (0x2000010, link_block empty 0x2000000 0xfffffff4 (record empty.mem { ksbrk = 0x2000004 }))
malloc_wraps_example =
    malloc_wraps kernel_heap_vma_start empty [] 1 4 empty-IsHeap (omega arith) (omega arith)

calloc-Zeroed_example :
    (p : ℕ) × (g : Heap) × (bytes' : ℕ → ℕ) × (calloc 3 8 8 two (λ q. 7) ≡ some (p, g, bytes'))
    × Allocates kernel_heap_vma_start two blocks 64 p g
    × Zeroed p 64 (λ q. 7) bytes'
calloc-Zeroed_example =
    calloc-Zeroed 3 8 8 kernel_heap_vma_start two blocks (λ q. 7) two-IsHeap (omega arith)
      (omega arith) (omega arith) (omega arith)

calloc_overflow_example : calloc 3 0x10000 0x10001 two (λ q. 7) ≡ some (0, two, λ q. 7)
calloc_overflow_example = calloc_overflow 3 0x10000 0x10001 two (λ q. 7) (omega arith)

-- The first block is in use.
abbrev busy : Heap
busy = record two { at = update two.at 0x2000000 (record (two.at 0x2000000) { is_free = false }) }

busy-IsHeap : IsHeap kernel_heap_vma_start busy blocks
busy-IsHeap = record {
  chain = (refl, refl, (refl, refl, (refl, refl)));
  tail = refl;
  above_null = omega arith;
  below_int = omega arith;
}

realloc-Moves_example :
    (block : ℕ) × (blocks' : List ℕ) × (g : Heap) × (bytes' : ℕ → ℕ) × (realloc 3 0x2000010 200 busy
        (λ q. q)
      ≡ some (block + 16, g, bytes'))
    × ((i : ℕ) → i < 100 → bytes' (block + 16 + i) ≡ 0x2000000 + 16 + i)
    × (0x2000000 ≢ block)
    × (200 ≤ (g.at block).size)
    × ((g.at block).is_free ≡ false)
    × ((g.at 0x2000000).is_free ≡ true)
    × IsHeap kernel_heap_vma_start g blocks'
realloc-Moves_example =
    realloc-Moves 3 kernel_heap_vma_start 0x2000000 200 busy blocks (λ q. q) busy-IsHeap
      (omega arith) (inl refl) refl (λ e. omega (arith, e)) (omega arith) (omega arith)

-- A block that is large enough stays.
stays : realloc 3 0x2000010 80 busy (λ q. q) ≡ some (0x2000010, busy, λ q. q)
unfolding realloc
stays = refl
