-- ===== src/Globa/Segments.antt =====
-- What the processor reads in the segment descriptors of kernel/globa.c.
use nar_os.Prelude.{ℕ, ◌+◌, ◌*◌, ◌^◌, ◌-◌, ◌≡◌, ◌<◌, refl, arith, ◌==◌, if◌then◌else◌}
use nar_os.Globa.{
  Descriptor, descriptor_init, null_descriptor, globa_init, flat_segment, tss_size, kernel_code_idx,
  kernel_data_idx, kernel_tss_idx, user_code_idx, user_data_idx,
}

-- The first byte of a segment, and the offset of its last one, which counts in pages if the
-- granularity is set.
abbrev pub base_of : Descriptor → ℕ
base_of d = d.base_low + d.base_high * 2 ^ 24

abbrev pub last_of : Descriptor → ℕ
last_of d =
    let limit = d.limit_low + d.limit_high * 2 ^ 16 in
    if d.granularity == 1 then limit * 4096 + 4095 else limit

-- A descriptor gives the base and the limit back that were split up in it.
pub descriptor_init-parts :
    (base limit : ℕ) (d : Descriptor)
    → base < 2 ^ 32
    → limit < 2 ^ 20
    → let e = descriptor_init base limit d in
      (base_of e ≡ base) × (e.limit_low + e.limit_high * 2 ^ 16 ≡ limit)
unfolding descriptor_init
descriptor_init-parts base limit d hb hl = (omega (arith, hb), omega (arith, hl))

-- A segment of code or data that is all of memory, for code of privilege `dpl`.
pub record IsFlat (d : Descriptor) (dpl type : ℕ) : Type 0 where
  pub from_zero : base_of d ≡ 0
  pub to_end : last_of d ≡ 2 ^ 32 - 1
  pub there : d.present ≡ 1
  pub privilege : d.dpl ≡ dpl
  pub kind : d.type ≡ type
  pub no_system : d.segment ≡ 1

flat_segment-IsFlat : (dpl type : ℕ) → IsFlat (flat_segment dpl type) dpl type
unfolding descriptor_init
flat_segment-IsFlat dpl type = record {
  from_zero = refl;
  to_end = refl;
  there = refl;
  privilege = refl;
  kind = refl;
  no_system = refl;
}

-- The table of `globa_init`: code and data segments over all of memory for the kernel and for users,
-- the kernel's own of privilege 0 and the users' of privilege 3, a descriptor that covers the task
-- state segment to its last byte, and nothing else.
pub globa_init-segments :
    (tss_at i : ℕ)
    → tss_at < 2 ^ 32
    → 5 < i
    → let gdt = globa_init tss_at in
      IsFlat (gdt kernel_code_idx) 0 0b1010
      × IsFlat (gdt kernel_data_idx) 0 0b0010
      × IsFlat (gdt user_code_idx) 3 0b1010
      × IsFlat (gdt user_data_idx) 3 0b0010
      × (base_of (gdt kernel_tss_idx) ≡ tss_at)
      × (last_of (gdt kernel_tss_idx) ≡ tss_size - 1)
      × (gdt 0 ≡ null_descriptor)
      × (gdt i ≡ null_descriptor)
unfolding globa_init
globa_init-segments tss_at i h out =
    let (base, limit) =
      descriptor_init-parts tss_at (tss_size - 1) null_descriptor h (omega arith) in
    (
      flat_segment-IsFlat 0 0b1010,
      flat_segment-IsFlat 0 0b0010,
      flat_segment-IsFlat 3 0b1010,
      flat_segment-IsFlat 3 0b0010,
      base,
      limit,
      refl,
      ground (arith, out),
    )
