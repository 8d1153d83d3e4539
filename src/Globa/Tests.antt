-- ===== src/Globa/Tests.antt =====
-- Runs of kernel/globa.c and of the gates, and instances of their theorems.
use nar_os.Prelude.{ℕ, ◌≡◌, refl, arith}
use nar_os.Globa.{Gate, gate_to, descriptor_init, globa_init, idt_init}
use nar_os.Globa.Gates.{LeadsTo, idt_init-LeadsTo}

tss_parts :
    ((globa_init 0x12345678 3).base_low ≡ 0x345678)
    × ((globa_init 0x12345678 3).base_high ≡ 0x12)
    × ((globa_init 0x12345678 4).dpl ≡ 3)
unfolding globa_init descriptor_init
tss_parts = (refl, refl, refl)

abbrev no_gates : ℕ → Gate
no_gates i = gate_to 0 0

idt_init-LeadsTo_example : LeadsTo (idt_init (λ i. 0x1000) 0x2000 0x3000 no_gates 0x80) 0x3000 3
idt_init-LeadsTo_example =
    idt_init-LeadsTo (λ i. 0x1000) 0x2000 0x3000 0x80 no_gates (λ i. omega arith) (omega arith)
      (omega arith) (omega arith)
