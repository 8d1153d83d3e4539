-- ===== src/KHeap.antt =====
-- kernel/heap.c: the kernel's heap, a linked list of headers in memory over the break of `kbrk`.
-- A pointer to a header is its address, NULL is 0.
pub mod Layout
pub mod Find
pub mod Link
pub mod Malloc
pub mod Calloc
pub mod Realloc
pub mod Unlink
pub mod Free
pub mod Overflow
mod Tests
use nar_os.Prelude.{
  ℕ, zero, suc, ◌+◌, ◌-◌, ◌*◌, ◌/◌, ◌%◌, ◌^◌, Bool, true, false, ◌&&◌, Option, none, some, ltb, leb,
  ◌==◌, if◌then◌else◌, not, length,
}
use nar_os.Prelude.Int.{ℤ, pos, negsuc}
use nar_os.Prelude.Words.{add32, sub32, update}
use nar_os.Mem.{KernelMem, kbrk}

-- `header_t`, 16 bytes
pub record Header : Type 0 where
  pub size : ℕ
  pub is_free : Bool
  pub next : ℕ

abbrev pub header_size : ℕ
header_size = 16

-- The headers in memory, the two ends of the list, and the memory below.
pub record Heap : Type 0 where
  pub at : ℕ → Header
  pub head : ℕ
  pub tail : ℕ
  pub mem : KernelMem

-- The walk has a bound on its rounds; `none` is a walk that the bound cut off.
unfoldable pub get_free_block_loop : ℕ → (ℕ → Header) → ℕ → ℕ → Option ℕ
get_free_block_loop zero at size curr = none
get_free_block_loop (suc n) at size curr =
    let rest = get_free_block_loop n at size (at curr).next in
    if curr == 0
    then some 0
    else if (at curr).is_free && leb size (at curr).size
    then some curr
    else rest

-- What `kbrk` reads as its argument, an `int`.
abbrev pub to_int : ℕ → ℤ
to_int n = if ltb n (2 ^ 31) then pos n else negsuc (2 ^ 32 - n - 1)

-- The new header at the old break becomes the last of the list.
unfoldable pub link_block : Heap → ℕ → ℕ → KernelMem → Heap
link_block h block size m =
    let at = update h.at block (record { size = size; is_free = false; next = 0 }) in
    record {
      at = if h.tail == 0 then at else update at h.tail (record (at h.tail) { next = block });
      head = if h.head == 0 then block else h.head;
      tail = block;
      mem = m;
    }

-- What `malloc` does when no block is free.
unfoldable pub extend : Heap → ℕ → Option (ℕ × Heap)
unfolding link_block
extend h size = elim (kbrk (to_int (add32 header_size size)) h.mem) [
  | none ↦ none
  | some (block, m) ↦
      if block == 2 ^ 32 - 1
      then some (0, record h { mem = m })
      else some (add32 block header_size, link_block h block size m)
]

-- `n` bounds the walk; `none` is a walk cut off, or a panic below.
unfoldable pub malloc : ℕ → ℕ → Heap → Option (ℕ × Heap)
unfolding get_free_block_loop extend
malloc n size h =
    if size == 0 then some (0, h) else (elim (get_free_block_loop n h.at size h.head) [
      | none ↦ none
      | some header ↦
          if header == 0
          then extend h size
          else some (
            add32 header header_size,
            record h { at = update h.at header (record (h.at header) { is_free = false }) },
          )
    ])

-- The loop of `free`: the last node before the tail becomes the tail.
unfoldable pub unlink_loop : ℕ → ℕ → Heap → Option Heap
unlink_loop zero tmp h = none
unlink_loop (suc n) tmp h = if tmp == 0 then some h else (elim ((h.at tmp).next == h.tail) [
  | true ↦
      let cut = record h { at = update h.at tmp (record (h.at tmp) { next = 0 }); tail = tmp } in
      unlink_loop n (cut.at tmp).next cut
  | false ↦ unlink_loop n (h.at tmp).next h
])

-- `0 - (int)size - (int)sizeof(header_t)`, an `int`.
abbrev pub shrink_by : ℕ → ℤ
shrink_by size = to_int (sub32 (sub32 0 size) header_size)

unfoldable pub free : ℕ → ℕ → Heap → Option Heap
unfolding unlink_loop
free n block h =
    if block == 0
    then some h
    else (let header = sub32 block header_size in
        if add32 block (h.at header).size == h.mem.ksbrk
        then (elim (if h.head == h.tail
            then some (record h { head = 0; tail = 0 })
            else unlink_loop n h.head h) [
              | none ↦ none
              | some h' ↦ elim (kbrk (shrink_by (h.at header).size) h'.mem) [
                | none ↦ none
                | some (_, m) ↦ some (record h' { mem = m })
              ]
            ])
        else some (record h { at = update h.at header (record (h.at header) { is_free = true }) }))
