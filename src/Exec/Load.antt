-- ===== src/Exec/Load.antt =====
-- The memory that sys_exec of kernel/task.c gives its task: the code in one page, the first frame at
-- the top of the next.
use nar_os.Prelude.{
  ℕ, ◌+◌, ◌*◌, ◌/◌, ◌%◌, ◌^◌, ◌≤◌, ◌<◌, ◌≡◌, refl, true, false, none, some, List, [], ◌∷◌, length,
  ltb, arith, ap, ◌∙◌,
}
use mathlib.Core.Path.{subst}
use nar_os.Mem.{FrameMap, user_vma_start, sbrk, page_size}
use nar_os.Mem.Paging.{Machine, UserMemory, walk, page_int, resumes}
use nar_os.Mem.Paging.Copy.{Memory, copy_to_mm_space}
use nar_os.Mem.Paging.Share.{user_machine}
use nar_os.Mem.Paging.Lands.{Copied, inside, copy_to_mm_space_fault}
use nar_os.Mem.Paging.Room.{
  HasRoom, code_at, frame_at, space, with_code, with_stack, space-unmapped,
}
use nar_os.Mem.Paging.Fresh.{
  with_code-unmapped, with_stack-frame, with_code-walk, page_int-code, page_int-frame,
}
use nar_os.Exec.{Unset, words_bytes, frame_words, first_frame, add_page, load_code, load_stack}

-- The descriptor with `pages` pages in the heap.
abbrev pub grown : (f pages : ℕ) → UserMemory
grown f pages = record {
  pde = f * 4096;
  brk = user_vma_start;
  sbrk = user_vma_start + pages * 4096;
}

add_page-first :
    (f : ℕ) (frames : FrameMap) → add_page (grown f 0) frames ≡ some (code_at, grown f 1, frames)
unfolding add_page sbrk
add_page-first f frames = refl

add_page-second :
    (f : ℕ) (frames : FrameMap) → add_page (grown f 1) frames ≡ some (0x40001000, grown f 2, frames)
unfolding add_page sbrk
add_page-second f frames = refl

-- A copy of a list that is not empty into a page that takes its fault.
copy-fault :
    (um running : UserMemory) (mem : Memory) (m m' : Machine) (v g : ℕ) (l : List ℕ)
    → inside um mem ≡ m
    → walk m v ≡ none
    → page_int 0xe v false true 8 (some um) running m ≡ some (resumes m')
    → walk m' v ≡ some (g * 4096 + v % 4096)
    → 0 < length l
    → v + 4096 < 2 ^ 32
    → v % 4096 + length l ≤ 4096
    → (mem' : Memory) × (copy_to_mm_space um running v l mem ≡ some mem')
      × Copied
          (record mem { machine = record m' { cr3 = mem.machine.cr3 } })
          (g * 4096 + v % 4096)
          l
          mem'
copy-fault um running mem m m' v g [] e unmapped ran mapped some_bytes lt fits =
    absurd (omega (arith, some_bytes))
copy-fault um running mem m m' v g (b ∷ sou) e unmapped ran mapped some_bytes lt fits =
    copy_to_mm_space_fault um running mem m' v g b sou (ap (λ x. walk x v) e ∙ unmapped)
      (ap (λ x. page_int 0xe v false true 8 (some um) running x) e ∙ ran) mapped
      (omega (arith, lt, fits)) fits

abbrev pub seen_by : ℕ → Machine → Machine
seen_by c m = record m { cr3 = c }

-- What a machine is with directory `f`, whose address the descriptor has.
pub inside-grown :
    (f pages : ℕ) (mem : Memory) (m : Machine)
    → mem.machine ≡ m
    → inside (grown f pages) mem ≡ seen_by f m
inside-grown f pages mem m e =
    let here : f * 4096 / 4096 ≡ f = omega arith in
    ap (λ c. seen_by c mem.machine) here ∙ ap (seen_by f) e

module _ (m : Machine) (f : ℕ) (r : HasRoom m f) (running : UserMemory) where
  pub load_code_lem :
      (code : List ℕ) (bytes : ℕ → ℕ)
      → 0 < length code
      → length code ≤ 4096
      → let mem : Memory = record { machine = user_machine m.cr3 f m; bytes = bytes } in
        (mem' : Memory) × (load_code running code (grown f 0) mem ≡ some (code_at, grown f 1, mem'))
        × Copied
            (record mem { machine = seen_by m.cr3 (with_code m f r) })
            (r.code * 4096 + 0)
            code
            mem'
  unfolding load_code
  load_code_lem code bytes some_bytes fits =
      let mem : Memory = record { machine = user_machine m.cr3 f m; bytes = bytes } in
      let short : ltb page_size (length code) ≡ false = ground (arith, fits) in
      let (mem', copy, c) =
        copy-fault (grown f 1) running mem (space m f r) (with_code m f r) code_at r.code code
          (inside-grown f 1 mem (user_machine m.cr3 f m) refl) (space-unmapped m f r)
          (page_int-code m f r (grown f 1) running refl) (with_code-walk m f r) some_bytes
          (omega arith) (omega (arith, fits)) in
      (mem', rw (add_page-first f m.frames, load_code, short, copy) refl, c)

  load_stack_copy :
      (label : ℕ) (u : Unset) (mem mem' : Memory)
      → copy_to_mm_space
          (grown f 2)
          running
          frame_at
          (words_bytes (frame_words u (first_frame label 0x40002000 code_at)))
          mem
        ≡ some mem'
      → load_stack running label u code_at (grown f 1) mem ≡ some (0x40002000, grown f 2, mem')
  unfolding load_stack
  load_stack_copy label u mem mem' copy =
      rw (add_page-second f mem.machine.frames, load_stack, copy) refl

  pub load_stack_lem :
      (label : ℕ) (u : Unset) (mem : Memory)
      → mem.machine ≡ seen_by m.cr3 (with_code m f r)
      → let l = words_bytes (frame_words u (first_frame label 0x40002000 code_at)) in
        (mem' : Memory) × (load_stack running label u code_at (grown f 1) mem
          ≡ some (0x40002000, grown f 2, mem'))
        × Copied
            (record mem { machine = seen_by m.cr3 (with_stack m f r) })
            (r.stack * 4096 + 0xFB0)
            l
            mem'
  load_stack_lem label u mem at =
      let l = words_bytes (frame_words u (first_frame label 0x40002000 code_at)) in
      let (mem', copy, c) =
        copy-fault (grown f 2) running mem (with_code m f r) (with_stack m f r) frame_at r.stack l
          (inside-grown f 2 mem (seen_by m.cr3 (with_code m f r)) at) (with_code-unmapped m f r)
          (page_int-frame m f r (grown f 2) running refl) (with_stack-frame m f r) (omega arith)
          (omega arith) (omega arith) in
      (
        mem',
        load_stack_copy label u mem mem' copy,
        subst
            (λ x.
              Copied (record mem { machine = seen_by x (with_stack m f r) })
                (r.stack * 4096 + 0xFB0) l mem')
            (ap (λ x. x.cr3) at) c,
      )
