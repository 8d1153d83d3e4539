-- ===== src/Apic/Tests.antt =====
-- Runs of kernel/cpu.c on concrete inputs.
use nar_os.Prelude.{◌^◌, ◌≡◌, refl, none, some, []}
use nar_os.Apic.{Cpu, cpu_init}
use nar_os.Apic.Setup.{IsSetUp, last_written, documented_spiv, cpu_init-IsSetUp}

abbrev fresh : Cpu
fresh = record { msr = 0xFEE00900; ports = []; writes = [] }

x2apic_on : (cpu_init (2 ^ 21) 0 fresh).msr ≡ 0xFEE00D00
unfolding cpu_init
x2apic_on = refl

spurious_word : last_written 0xFEE00110 (cpu_init 0 0x50014 fresh).writes ≡ some 0x503FF
unfolding cpu_init last_written nar_os.Apic.setup_local_apic nar_os.Apic.apic_write
    nar_os.Apic.apic_read nar_os.Apic.init_bsp_apic
spurious_word = refl

cpu_init-IsSetUp_example :
    IsSetUp (cpu_init 0 0x50014 fresh).writes
    × (last_written documented_spiv (cpu_init 0 0x50014 fresh).writes ≡ none)
cpu_init-IsSetUp_example = cpu_init-IsSetUp 0 0x50014 fresh refl
