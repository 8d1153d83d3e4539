-- ===== src/Task/Rop.antt =====
-- The first frame of a task in kernel/task.c, with the segments of kernel/globa.c.
use nar_os.Prelude.{
  ℕ, ◌/◌, ◌%◌, ◌^◌, ◌≡◌, refl, ◌==◌, if◌then◌else◌, arith, Bool-cases, inl, inr, ◌<◌,
}
use nar_os.Prelude.Bits.{bit}
use nar_os.Prelude.Words.{add32}
use nar_os.Globa.{globa_init}
use nar_os.Globa.Segments.{IsFlat, globa_init-segments}
use nar_os.Task.{Frame, frame_size, setup_rop_stack}

-- A selector of privilege `dpl` that names a segment over all of memory of that privilege.
pub record Selects (selector tss_at dpl type : ℕ) : Type 0 where
  pub requested : selector % 4 ≡ dpl
  pub segment : IsFlat (globa_init tss_at (selector / 8)) dpl type

-- The frame of a new task of either privilege returns to its entry with interrupts on, and its
-- selectors name the code and the data segment of its privilege in the table of `globa_init`.
pub setup_rop_stack-Selects :
    (label stack entry dpl tss_at : ℕ) (rop : Frame)
    → tss_at < 2 ^ 32
    → let privilege : ℕ = if dpl == 0 then 0 else 3 in
      let frame = setup_rop_stack label stack entry dpl rop in
      (frame.ret ≡ label)
      × (frame.eip ≡ entry)
      × (frame.ebp ≡ add32 stack frame_size)
      × (bit frame.eflags 9 ≡ 1)
      × Selects frame.cs tss_at privilege 0b1010
      × Selects frame.ds tss_at privilege 0b0010
unfolding setup_rop_stack
setup_rop_stack-Selects label stack entry dpl tss_at rop h =
    let (kernel_code, kernel_data, user_code, user_data, _, _, _, _) =
      globa_init-segments tss_at 6 h (omega arith) in
    elim (Bool-cases (dpl == 0)) [
      | inl kernel ↦ rw kernel (
        refl,
        refl,
        refl,
        refl,
        record { requested = refl; segment = kernel_code },
        record { requested = refl; segment = kernel_data },
      )
      | inr user ↦ rw user (
        refl,
        refl,
        refl,
        refl,
        record { requested = refl; segment = user_code },
        record { requested = refl; segment = user_data },
      )
    ]
