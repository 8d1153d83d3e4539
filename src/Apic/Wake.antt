-- ===== src/Apic/Wake.antt =====
-- `ap_init` of kernel/cpu.c: the start of the other processors, through the page tables of the one
-- that runs. What is printed, and the barriers of memory, are left out.
use nar_os.Prelude.{
  ℕ, ◌+◌, ◌<◌, ◌≤◌, ◌≡◌, refl, Option, none, some, List, [], ◌∷◌, ◌++◌, length, ◌>>=◌, arith, sym,
  ◌∙◌,
}
use nar_os.Mem.Paging.{Machine, UserMemory, walk}
use nar_os.Mem.Paging.Copy.{Memory, memcpy}
use nar_os.Mem.Paging.Lands.{Lies, Lies-same, memcpy_mapped}
use nar_os.Apic.{Writes}

abbrev pub icr_low : ℕ
icr_low = 0xFEE00300

-- A word, and the physical address that it goes to.
unfoldable pub write_word : Machine → (vaddr value : ℕ) → Option (ℕ × ℕ)
write_word m vaddr value = elim (walk m vaddr) [ none ↦ none | some p ↦ some (p, value) ]

-- `apup` are the 512 bytes of the code that the other processors start in, `gdt_ptr` and `idt_48` the
-- 6 bytes of the two registers, and `running` is the memory of the task that runs.
unfoldable pub ap_init :
    (running : UserMemory) (apup gdt_ptr idt_48 : List ℕ) → Memory → Option (Writes × Memory)
ap_init running apup gdt_ptr idt_48 mem = do
  mem1 ← memcpy running running 0x0 apup mem
  mem2 ← memcpy running running 0x1f0 gdt_ptr mem1
  mem3 ← memcpy running running 0x200 idt_48 mem2
  reset ← write_word mem3.machine icr_low 0xc4500
  first ← write_word mem3.machine icr_low 0xc4600
  second ← write_word mem3.machine icr_low 0xc4600
  some (reset ∷ first ∷ second ∷ [], mem3)

Lies-front :
    (front back : List ℕ) (p : ℕ) (bytes : ℕ → ℕ)
    → Lies (front ++ back) p bytes
    → Lies front p bytes
Lies-front [] back p bytes h = tt
Lies-front (b ∷ front) back p bytes h = (h.0, Lies-front front back (p + 1) bytes h.1)

-- The low memory behind `ap_init`: the front of the code, and the two registers over and behind its
-- end.
pub record Prepared (apup gdt_ptr idt_48 : List ℕ) (mem mem' : Memory) : Type 0 where
  pub machine : mem'.machine ≡ mem.machine
  pub code :
      (front back : List ℕ) → apup ≡ front ++ back → length front ≡ 0x1f0 → Lies front 0 mem'.bytes
  pub gdt : Lies gdt_ptr 0x1f0 mem'.bytes
  pub idt : Lies idt_48 0x200 mem'.bytes
  pub rest : (q : ℕ) → 0x206 ≤ q → mem'.bytes q ≡ mem.bytes q

ap_init_steps :
    (running : UserMemory) (apup gdt_ptr idt_48 : List ℕ) (mem mem1 mem2 mem3 : Memory) (w : ℕ)
    → memcpy running running 0x0 apup mem ≡ some mem1
    → memcpy running running 0x1f0 gdt_ptr mem1 ≡ some mem2
    → memcpy running running 0x200 idt_48 mem2 ≡ some mem3
    → walk mem3.machine icr_low ≡ some w
    → ap_init running apup gdt_ptr idt_48 mem
      ≡ some ((w, 0xc4500) ∷ (w, 0xc4600) ∷ (w, 0xc4600) ∷ [], mem3)
unfolding ap_init write_word
ap_init_steps running apup gdt_ptr idt_48 mem mem1 mem2 mem3 w first second third seen =
    rw (first, ap_init, second, third, write_word, seen) refl

-- Where the first 32 MB are mapped to themselves and the register that starts other processors to
-- `w`, `ap_init` writes its three words to `w`. In the low memory lie the front of the code, the
-- register of the segments over the 6 bytes from 0x1f0 on, and that of the gates behind its end;
-- nothing behind them changes.
pub ap_init-Prepared :
    (running : UserMemory) (apup gdt_ptr idt_48 : List ℕ) (mem : Memory) (w : ℕ)
    → length apup ≡ 512
    → length gdt_ptr ≡ 6
    → length idt_48 ≡ 6
    → ((v : ℕ) → v < 0x2000000 → walk mem.machine v ≡ some v)
    → walk mem.machine icr_low ≡ some w
    → (mem' : Memory) × (ap_init running apup gdt_ptr idt_48 mem
        ≡ some ((w, 0xc4500) ∷ (w, 0xc4600) ∷ (w, 0xc4600) ∷ [], mem'))
      × Prepared apup gdt_ptr idt_48 mem mem'
ap_init-Prepared running apup gdt_ptr idt_48 mem w size gdt_size idt_size low seen =
    let (mem1, first, c1) =
      memcpy_mapped running running mem 0x0 0x0 apup (omega (arith, size))
        (λ i h. low (0 + i) (omega (arith, h, size))) in
    let (mem2, second, c2) =
      memcpy_mapped running running mem1 0x1f0 0x1f0 gdt_ptr (omega (arith, gdt_size))
        (λ i h. rw c1.machine (low (0x1f0 + i) (omega (arith, h, gdt_size)))) in
    let (mem3, third, c3) =
      memcpy_mapped running running mem2 0x200 0x200 idt_48 (omega (arith, idt_size))
        (λ i h. rw (c2.machine, c1.machine) (low (0x200 + i) (omega (arith, h, idt_size)))) in
    (
      mem3,
      ap_init_steps running apup gdt_ptr idt_48 mem mem1 mem2 mem3 w first second third
          (rw (c3.machine, c2.machine, c1.machine) seen),
      record {
        machine = c3.machine ∙ c2.machine ∙ c1.machine;
        code = λ front back parts front_size.
            Lies-same front 0 mem1.bytes mem3.bytes
              (λ q from to.
                c3.below q (omega (arith, to, front_size))
                ∙ c2.below q (omega (arith, to, front_size)))
              (Lies-front front back 0 mem1.bytes (rw (sym parts) c1.there));
        gdt =
            Lies-same gdt_ptr 0x1f0 mem2.bytes mem3.bytes
              (λ q from to. c3.below q (omega (arith, to, gdt_size))) c2.there;
        idt = c3.there;
        rest = λ q from.
            c3.above q (omega (arith, from, idt_size))
            ∙ c2.above q (omega (arith, from, gdt_size))
            ∙ c1.above q (omega (arith, from, size));
      },
    )
