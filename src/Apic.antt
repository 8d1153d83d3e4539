-- ===== src/Apic.antt =====
-- kernel/cpu.c: the switch to the local interrupt controller of the first processor. What is printed,
-- and the barriers of memory, are left out. CONFIG_X86_32 and CONFIG_X86_MCE_INTEL are not defined.
pub mod Setup
pub mod Wake
mod Tests
use nar_os.Prelude.{ℕ, ◌+◌, ◌-◌, ◌*◌, ◌/◌, ◌%◌, ◌^◌, List, [], ◌∷◌, ◌++◌, ◌==◌, if◌then◌else◌}
use nar_os.Prelude.Words.{add32}
use nar_os.Prelude.Bits.{bit}
use nar_os.Interrupt.{Output}

abbrev pub apic_base : ℕ
apic_base = 0xFEE00020

abbrev pub apic_lvr : ℕ
apic_lvr = 0x30

abbrev pub apic_taskpri : ℕ
apic_taskpri = 0x80

abbrev pub apic_spiv : ℕ
apic_spiv = 0xF0

abbrev pub apic_esr : ℕ
apic_esr = 0x280

abbrev pub apic_lvt0 : ℕ
apic_lvt0 = 0x350

abbrev pub apic_lvt1 : ℕ
apic_lvt1 = 0x360

abbrev pub apic_dm_nmi : ℕ
apic_dm_nmi = 0x400

abbrev pub apic_dm_extint : ℕ
apic_dm_extint = 0x700

-- `x | (1 << k)` and `x & ~(1 << k)`.
abbrev pub set_flag : ℕ → ℕ → ℕ
set_flag x k = x + (1 - bit x k) * 2 ^ k

abbrev pub clear_flag : ℕ → ℕ → ℕ
clear_flag x k = x - bit x k * 2 ^ k

-- `x & ~0xff` and `x | 0xff`: the latter is the vector of spurious interrupts.
abbrev pub clear_low : ℕ → ℕ
clear_low x = x - x % 256

abbrev pub spurious_apic_vector : ℕ
spurious_apic_vector = 0xff

abbrev pub or_spurious : ℕ → ℕ
or_spurious x = x - x % 256 + spurious_apic_vector

-- Words of memory in the order in which they are written: addresses with values.
abbrev pub Writes : Type 0
Writes = List (ℕ × ℕ)

-- The cast and the dereference bind before the sum. `first` is the word at APIC_BASE, which is no
-- word that the code writes.
unfoldable pub apic_read : (first reg : ℕ) → ℕ
apic_read first reg = add32 first reg

unfoldable pub apic_write : (reg value : ℕ) → Writes
apic_write reg value = (add32 apic_base reg, value) ∷ []

abbrev pub lapic_get_version : ℕ → ℕ
lapic_get_version first = apic_read first apic_lvr % 256

-- `version & 0xf0`.
abbrev pub lapic_is_integrated : ℕ → ℕ
lapic_is_integrated first = lapic_get_version first / 16 % 16 * 16

-- The entry of the second line: without an integrated controller it is triggered by the level.
abbrev pub nmi_line : ℕ → ℕ
nmi_line first = if lapic_is_integrated first == 0 then set_flag apic_dm_nmi 15 else apic_dm_nmi

unfoldable pub init_bsp_apic : ℕ → Writes
init_bsp_apic first =
    apic_write apic_spiv
      (or_spurious (set_flag (set_flag (clear_low (apic_read first apic_spiv)) 8) 9))
    ++ apic_write apic_lvt0 apic_dm_extint
    ++ apic_write apic_lvt1 (set_flag (nmi_line first) 16)

abbrev pub clear_errors : ℕ → Writes
clear_errors first =
    if lapic_is_integrated first == 0
    then []
    else apic_write apic_esr 0
      ++ apic_write apic_esr 0
      ++ apic_write apic_esr 0
      ++ apic_write apic_esr 0

unfoldable pub setup_local_apic : ℕ → Writes
setup_local_apic first =
    apic_write apic_spiv (clear_flag (apic_read first apic_spiv) 8)
    ++ clear_errors first
    ++ apic_write apic_taskpri (set_flag (clear_low (apic_read first apic_taskpri)) 4)
    ++ apic_write apic_spiv (or_spurious (set_flag (clear_low (apic_read first apic_spiv)) 8))
    ++ apic_write apic_lvt0 apic_dm_extint
    ++ apic_write apic_lvt1 (nmi_line first)

-- `outb` takes the port first, so the register's number and the byte are the ports.
abbrev pub pc_conf_set : (reg value : ℕ) → Output
pc_conf_set reg value = (reg, 0x22) ∷ (value, 0x23) ∷ []

abbrev pub imcr_pic_to_apic : Output
imcr_pic_to_apic = pc_conf_set 0x70 0x01

-- The model-specific register 0x1b, the writes to ports and those to the controller.
pub record Cpu : Type 0 where
  pub msr : ℕ
  pub ports : Output
  pub writes : Writes

-- `ecx` is what `cpuid` answers.
unfoldable pub cpu_init : (ecx first : ℕ) → Cpu → Cpu
cpu_init ecx first c = record {
  msr = if bit ecx 21 == 1 then set_flag c.msr 10 else c.msr;
  ports = c.ports ++ imcr_pic_to_apic;
  writes = c.writes ++ setup_local_apic first ++ init_bsp_apic first;
}
