-- ===== src/Mem/Paging/Fault.antt =====
-- What the page fault of kernel/mem.c maps.
use nar_os.Prelude.{
  ℕ, ◌+◌, ◌*◌, ◌/◌, ◌%◌, ◌^◌, ◌≡◌, ◌≢◌, ◌<◌, ◌≤◌, refl, Bool, true, false, Option, none, some, ◌==◌,
  ltb, arith, ap, ◌∙◌, inl, inr, ◌⊎◌,
}
use nar_os.Prelude.Words.{update}
use nar_os.Mem.{FrameMap, entry_init, get_page, didx, idx, page, user_vma_start}
use nar_os.Mem.Paging.{
  Machine, UserMemory, resumes, walk, load, store, clear_page, cleared, dpl_of, dpl_at, map_page,
  add_table, demand_page, check_passed, page_int,
}
use nar_os.Mem.Paging.Walk.{dir_word, table_word, IsSelfMapped, store-get_entry, word_of}

-- The machine behind a fault that took the page of frame `f`.
pub record Maps (vaddr f : ℕ) (frames : FrameMap) (m' : Machine) : Type 0 where
  pub mapped : walk m' vaddr ≡ some (f * 4096 + vaddr % 4096)
  pub counted : m'.frames ≡ frames

idx-page : (f : ℕ) → f < 2 ^ 20 → idx (page f) ≡ f
idx-page f h = omega arith

abbrev pub mapped_at : Machine → ℕ → ℕ → FrameMap → Machine
mapped_at m vaddr f frames = record m {
  frames = frames;
  entries = update m.entries (table_word m vaddr) (entry_init f (dpl_of vaddr));
}

-- The table is there, and it is not the directory.
pub map_page-Maps :
    (m : Machine) (vaddr dpl f : ℕ) (frames : FrameMap)
    → IsSelfMapped m
    → (m.entries (dir_word m vaddr)).present ≡ true
    → (m.entries (dir_word m vaddr)).index ≢ m.cr3
    → get_page m.frames ≡ (page f, frames)
    → 0 < f
    → f < 2 ^ 20
    → (map_page vaddr dpl m ≡ some (resumes (mapped_at m vaddr f frames)))
      × Maps vaddr f frames (mapped_at m vaddr f frames)
unfolding map_page walk entry_init
map_page-Maps m vaddr dpl f frames s there other got pos small =
    let with_frames : Machine = record m { frames = frames } in
    let stored =
      store-get_entry with_frames vaddr (entry_init f (dpl_of vaddr))
        (record { present = s.present; self = s.self }) there in
    let set : (page f == 0) ≡ false = ground arith in
    let apart : (dir_word m vaddr == table_word m vaddr) ≡ false = ground (arith, other) in
    let here : (table_word m vaddr == table_word m vaddr) ≡ true = ground arith in
    let same : f % 2 ^ 20 ≡ f = omega (arith, small) in
    (
      rw (got, set, idx-page f small, stored, map_page) refl,
      record { mapped = rw (apart, there, here, same) refl; counted = refl },
    )

-- The machine with the new table, in frame `t`, in its directory slot and emptied.
abbrev pub with_table : Machine → ℕ → ℕ → FrameMap → Machine
with_table m vaddr t frames = record m {
  frames = frames;
  entries = cleared t (update m.entries (dir_word m vaddr) (entry_init t (dpl_of vaddr)));
}

-- What the code for a missing table relies on: the directory can be written at `pde`, and the frame
-- of the new table is mapped at its own address, by a table that is not the directory.
pub record IsReachable (m : Machine) (mm : UserMemory) (vaddr t : ℕ) : Type 0 where
  pub directory : walk m (mm.pde + didx vaddr * 4) ≡ some (m.cr3 * 4096 + didx vaddr * 4)
  pub table_slot : (m.entries (dir_word m (page t))).present ≡ true
  pub table_frame : (m.entries (dir_word m (page t))).index ≢ m.cr3
  pub table_present : (m.entries (table_word m (page t))).present ≡ true
  pub table_identity : (m.entries (table_word m (page t))).index ≡ t
  pub other_slot : didx (page t) ≢ didx vaddr

module _ (m : Machine) (mm : UserMemory) (vaddr t : ℕ) (frames : FrameMap)
    (r : IsReachable m mm vaddr t) (small : t < 2 ^ 20) (apart : t ≢ m.cr3) where
  abbrev new_entry : Machine
  new_entry = record m {
    frames = frames;
    entries = update m.entries (dir_word m vaddr) (entry_init t (dpl_of vaddr));
  }

  store-directory :
      store (mm.pde + didx vaddr * 4) (entry_init t (dpl_of vaddr)) (record m { frames = frames })
      ≡ some new_entry
  unfolding walk store entry_init
  store-directory = rw (r.directory, store, word_of m.cr3 (didx vaddr) (omega arith)) refl

  clear-table : clear_page (page t) new_entry ≡ some (with_table m vaddr t frames)
  unfolding walk clear_page entry_init
  clear-table =
      let slot : (dir_word m (page t) == dir_word m vaddr) ≡ false = ground (arith, r.other_slot) in
      let word : (table_word m (page t) == dir_word m vaddr) ≡ false =
        ground (arith, r.table_frame) in
      let frame : (t * 4096 + page t % 4096) / 4096 ≡ t = omega (arith, small) in
      rw (clear_page, slot, r.table_slot, word, r.table_present, r.table_identity, frame) refl

  with_table-IsSelfMapped :
      IsSelfMapped m → didx vaddr ≢ 1023 → IsSelfMapped (with_table m vaddr t frames)
  with_table-IsSelfMapped s ne =
      let frame : ((m.cr3 * 1024 + 1023) / 1024 == t) ≡ false = ground (arith, apart) in
      let slot : (m.cr3 * 1024 + 1023 == dir_word m vaddr) ≡ false = ground (arith, ne) in
      record { present = rw (frame, slot) s.present; self = rw (frame, slot) s.self }

  pub with_table-entry :
      (with_table m vaddr t frames).entries (dir_word m vaddr) ≡ entry_init t (dpl_of vaddr)
  with_table-entry =
      let frame : (dir_word m vaddr / 1024 == t) ≡ false = ground (arith, apart) in
      let here : (dir_word m vaddr == dir_word m vaddr) ≡ true = ground arith in
      rw (frame, here) refl

  with_table-there : ((with_table m vaddr t frames).entries (dir_word m vaddr)).present ≡ true
  unfolding entry_init
  with_table-there = ap (λ e. e.present) with_table-entry

  with_table-frame : ((with_table m vaddr t frames).entries (dir_word m vaddr)).index ≢ m.cr3
  unfolding entry_init
  with_table-frame q = apart (omega (arith, small, ap (λ e. e.index) with_table-entry, q))

-- The directory has a table for the address, and a frame is free for the page.
pub record TableThere (m : Machine) (vaddr f : ℕ) (frames : FrameMap) : Type 0 where
  pub there : (m.entries (dir_word m vaddr)).present ≡ true
  pub frame : (m.entries (dir_word m vaddr)).index ≢ m.cr3
  pub got : get_page m.frames ≡ (page f, frames)

-- It has none, and two frames are free, the first for the table.
pub record TableMissing (m : Machine) (mm : UserMemory) (vaddr f : ℕ) (frames : FrameMap)
    : Type 0 where
  pub missing : (m.entries (dir_word m vaddr)).present ≡ false
  pub in_user : user_vma_start ≤ vaddr
  pub in_front : didx vaddr ≢ 1023
  pub table : ℕ
  pub after : FrameMap
  pub got_table : get_page m.frames ≡ (page table, after)
  pub got : get_page after ≡ (page f, frames)
  pub reachable : IsReachable m mm vaddr table
  pub set : 0 < table
  pub small : table < 2 ^ 20
  pub apart : table ≢ m.cr3

module _ (m : Machine) (mm : UserMemory) (vaddr dpl f : ℕ) (frames : FrameMap) (s : IsSelfMapped m)
    (pos : 0 < f) (small : f < 2 ^ 20) where
  pub add_table-Maps :
      (h : TableMissing m mm vaddr f frames)
      → let m' = mapped_at (with_table m vaddr h.table h.after) vaddr f frames in
        (add_table vaddr dpl mm m ≡ some (resumes m')) × Maps vaddr f frames m'
  unfolding add_table
  add_table-Maps h =
      let made = with_table m vaddr h.table h.after in
      let user : ltb vaddr user_vma_start ≡ false = ground (arith, h.in_user) in
      let set : (page h.table == 0) ≡ false = ground (arith, h.set, h.small) in
      let maps =
        map_page-Maps made vaddr dpl f frames
          (with_table-IsSelfMapped m mm vaddr h.table h.after h.reachable h.small h.apart s
            h.in_front)
          (with_table-there m mm vaddr h.table h.after h.reachable h.small h.apart)
          (with_table-frame m mm vaddr h.table h.after h.reachable h.small h.apart) h.got pos
          small in
      (
        rw
            (
              user,
              h.got_table,
              set,
              idx-page h.table h.small,
              store-directory m mm vaddr h.table h.after h.reachable h.small h.apart,
              clear-table m mm vaddr h.table h.after h.reachable h.small h.apart,
            )
            maps.0,
        maps.1,
      )

  load-directory :
      walk m (mm.pde + didx vaddr * 4) ≡ some (m.cr3 * 4096 + didx vaddr * 4)
      → load m (mm.pde + didx vaddr * 4) ≡ some (m.entries (dir_word m vaddr))
  unfolding load
  load-directory directory = rw (directory, load, word_of m.cr3 (didx vaddr) (omega arith)) refl

  pub demand_page-missing :
      walk m (mm.pde + didx vaddr * 4) ≡ some (m.cr3 * 4096 + didx vaddr * 4)
      → (m.entries (dir_word m vaddr)).present ≡ false
      → demand_page vaddr dpl mm m ≡ add_table vaddr dpl mm m
  unfolding demand_page
  demand_page-missing directory missing = rw (load-directory directory, demand_page, missing) refl

  pub demand_page-there :
      walk m (mm.pde + didx vaddr * 4) ≡ some (m.cr3 * 4096 + didx vaddr * 4)
      → (m.entries (dir_word m vaddr)).present ≡ true
      → demand_page vaddr dpl mm m ≡ map_page vaddr dpl m
  unfolding demand_page
  demand_page-there directory there = rw (load-directory directory, demand_page, there) refl

  demand_page-Maps :
      walk m (mm.pde + didx vaddr * 4) ≡ some (m.cr3 * 4096 + didx vaddr * 4)
      → TableThere m vaddr f frames ⊎ TableMissing m mm vaddr f frames
      → (m' : Machine) × (demand_page vaddr dpl mm m ≡ some (resumes m')) × Maps vaddr f frames m'
  demand_page-Maps directory (inl h) =
      let maps = map_page-Maps m vaddr dpl f frames s h.there h.frame h.got pos small in
      (mapped_at m vaddr f frames, demand_page-there directory h.there ∙ maps.0, maps.1)
  demand_page-Maps directory (inr h) =
      let maps = add_table-Maps h in
      (
        mapped_at (with_table m vaddr h.table h.after) vaddr f frames,
        demand_page-missing directory h.missing ∙ maps.0,
        maps.1,
      )

-- The memory of the task that runs, or the one that `copy_to_mm_space` sets in front of it.
abbrev pub chosen : Option UserMemory → UserMemory → UserMemory
chosen none mm = mm
chosen (some p) mm = p

-- A fault on an address that is not mapped and that the tests let pass: if the directory has a table
-- for it and a frame is free, or it has none, the address is a user's and two frames are free, the
-- program goes on with the address mapped to the frame that `get_page` gave. The recursive window
-- and the access to the directory and to the new table are as the hypotheses say.
pub page_int-Maps :
    (m : Machine) (proxy : Option UserMemory) (running : UserMemory) (vaddr cs f : ℕ) (write : Bool)
    (frames : FrameMap)
    → IsSelfMapped m
    → 0 < f
    → f < 2 ^ 20
    → check_passed vaddr cs (chosen proxy running) ≡ true
    → walk m ((chosen proxy running).pde + didx vaddr * 4) ≡ some (m.cr3 * 4096 + didx vaddr * 4)
    → TableThere m vaddr f frames ⊎ TableMissing m (chosen proxy running) vaddr f frames
    → (m' : Machine) × (page_int 0xe vaddr false write cs proxy running m ≡ some (resumes m'))
      × Maps vaddr f frames m'
unfolding page_int
page_int-Maps m none running vaddr cs f write frames s pos small passed directory table =
    let (m', ran, maps) =
      demand_page-Maps m running vaddr (dpl_at cs) f frames s pos small directory table in
    (m', rw passed ran, maps)
page_int-Maps m (some p) running vaddr cs f write frames s pos small passed directory table =
    let (m', ran, maps) =
      demand_page-Maps m p vaddr (dpl_at cs) f frames s pos small directory table in
    (m', rw passed ran, maps)
