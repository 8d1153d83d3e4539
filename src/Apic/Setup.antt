-- ===== src/Apic/Setup.antt =====
-- What kernel/cpu.c leaves in the words of the local interrupt controller.
use nar_os.Prelude.{
  ℕ, ◌+◌, ◌/◌, ◌%◌, ◌^◌, ◌≡◌, refl, Option, none, some, [], ◌∷◌, ◌==◌, if◌then◌else◌, arith,
  Bool-cases, inl, inr,
}
use nar_os.Prelude.Bits.{bit}
use nar_os.Apic.{
  Cpu, Writes, cpu_init, set_flag, clear_low, or_spurious, apic_base, apic_spiv, apic_taskpri,
  apic_lvt0, apic_lvt1, apic_dm_extint, apic_dm_nmi, lapic_is_integrated, init_bsp_apic,
  setup_local_apic, apic_read, apic_write,
}

-- The value that was written last to an address.
unfoldable pub last_written : ℕ → Writes → Option ℕ
last_written addr [] = none
last_written addr ((a, v) ∷ rest) = elim (last_written addr rest) [
  | none ↦ (if a == addr then some v else none)
  | some w ↦ some w
]

-- What a processor's controller needs: spurious interrupts have the vector 255 and the controller is
-- on, priorities above those of exceptions pass, the first line carries the old controllers'
-- interrupts and the second one is masked.
pub record IsSetUp (w : Writes) : Type 0 where
  pub spiv : ℕ
  pub spiv_written : last_written (apic_base + apic_spiv) w ≡ some spiv
  pub vector : spiv % 256 ≡ 255
  pub enabled : bit spiv 8 ≡ 1
  pub no_focus : bit spiv 9 ≡ 1
  pub priority : ℕ
  pub priority_written : last_written (apic_base + apic_taskpri) w ≡ some priority
  pub above_exceptions : priority % 256 ≡ 16
  pub line : last_written (apic_base + apic_lvt0) w ≡ some apic_dm_extint
  pub second : ℕ
  pub second_written : last_written (apic_base + apic_lvt1) w ≡ some second
  pub nmi : second / 2 ^ 8 % 8 ≡ 4
  pub masked : bit second 16 ≡ 1

-- What the processor has at 0xFEE000F0, the documented address of the register of spurious
-- interrupts.
abbrev pub documented_spiv : ℕ
documented_spiv = 0xFEE000F0

spurious_bits :
    (x : ℕ)
    → let v = or_spurious (set_flag (set_flag (clear_low x) 8) 9) in
      (v % 256 ≡ 255) × (bit v 8 ≡ 1) × (bit v 9 ≡ 1)
spurious_bits x = (omega arith, omega arith, omega arith)

priority_bits : (x : ℕ) → set_flag (clear_low x) 4 % 256 ≡ 16
priority_bits x = omega arith

-- The values that are written last are what is needed.
set_up :
    (first second : ℕ) (w : Writes)
    → last_written (apic_base + apic_spiv) w
      ≡ some (or_spurious (set_flag (set_flag (clear_low (apic_read first apic_spiv)) 8) 9))
    → last_written (apic_base + apic_taskpri) w
      ≡ some (set_flag (clear_low (apic_read first apic_taskpri)) 4)
    → last_written (apic_base + apic_lvt0) w ≡ some apic_dm_extint
    → last_written (apic_base + apic_lvt1) w ≡ some second
    → second / 2 ^ 8 % 8 ≡ 4
    → bit second 16 ≡ 1
    → IsSetUp w
set_up first second w spiv priority line line1 nmi masked =
    let (vector, enabled, no_focus) = spurious_bits (apic_read first apic_spiv) in
    record {
      spiv = _;
      spiv_written = spiv;
      vector = vector;
      enabled = enabled;
      no_focus = no_focus;
      priority = _;
      priority_written = priority;
      above_exceptions = priority_bits (apic_read first apic_taskpri);
      line = line;
      second = second;
      second_written = line1;
      nmi = nmi;
      masked = masked;
    }

-- After `cpu_init`, whatever the processor answers, the words that the code takes for the registers
-- of the local controller hold what it needs; but they lie 0x20 too high, and the documented address
-- of the register of spurious interrupts was not written.
pub cpu_init-IsSetUp :
    (ecx first : ℕ) (c : Cpu)
    → c.writes ≡ []
    → IsSetUp (cpu_init ecx first c).writes
      × (last_written documented_spiv (cpu_init ecx first c).writes ≡ none)
unfolding last_written cpu_init init_bsp_apic setup_local_apic apic_read apic_write
cpu_init-IsSetUp ecx first c fresh = elim (Bool-cases (lapic_is_integrated first == 0)) [
  | inl old ↦
      rw (fresh, old)
        (set_up first (set_flag (set_flag apic_dm_nmi 15) 16) _ refl refl refl refl refl refl, refl)
  | inr integrated ↦
      rw (fresh, integrated)
        (set_up first (set_flag apic_dm_nmi 16) _ refl refl refl refl refl refl, refl)
]
