-- ===== src/Globa/Gates.antt =====
-- Where the gates of kernel/interrupt.c lead.
use nar_os.Prelude.{
  ℕ, zero, suc, ◌+◌, ◌*◌, ◌^◌, ◌≡◌, ◌<◌, ◌≤◌, ◌⊎◌, inl, inr, refl, arith, ◌==◌, ltb, if◌then◌else◌,
  Bool-cases, ==_iff, ◌∙◌,
}
use nar_os.Prelude.Words.{update}
use nar_os.Globa.{Gate, gate_to, set_gates, idt_init}

-- The address that a gate leads to.
abbrev pub target : Gate → ℕ
target g = g.offset0 + g.offset1 * 2 ^ 16

set_gates_outside :
    (n i w : ℕ) (handler : ℕ → ℕ) (idt : ℕ → Gate)
    → (w < i) ⊎ (i + n ≤ w)
    → set_gates n handler i idt w ≡ idt w
unfolding set_gates
set_gates_outside zero i w handler idt h = refl
set_gates_outside (suc n) i w handler idt h =
    set_gates_outside n (i + 1) w handler (update idt i (gate_to 0 (handler i))) (omega (arith, h))
    ∙ ground (arith, h)

set_gates_inside :
    (n i k : ℕ) (handler : ℕ → ℕ) (idt : ℕ → Gate)
    → i ≤ k
    → k < i + n
    → set_gates n handler i idt k ≡ gate_to 0 (handler k)
unfolding set_gates
set_gates_inside zero i k handler idt lo hi = absurd (omega (arith, lo, hi))
set_gates_inside (suc n) i k handler idt lo hi = elim (Bool-cases (k == i)) [
  | inl here ↦
      let e : k ≡ i = (==_iff k i).0 here in
      set_gates_outside n (i + 1) k handler (update idt i (gate_to 0 (handler i)))
        (inl (omega (arith, e)))
      ∙ rw e (ground arith)
  | inr later ↦
      set_gates_inside n (i + 1) k handler (update idt i (gate_to 0 (handler i)))
        (ground (arith, lo, later)) (omega (arith, hi))
]

-- The gate of a vector leads to `handler` for code of privilege `dpl`, through the kernel's code segment.
pub record LeadsTo (g : Gate) (handler dpl : ℕ) : Type 0 where
  pub address : target g ≡ handler
  pub privilege : g.dpl ≡ dpl
  pub there : g.present ≡ 1
  pub code : g.selector ≡ 8

gate_to-LeadsTo : (dpl handler : ℕ) → handler < 2 ^ 32 → LeadsTo (gate_to dpl handler) handler dpl
gate_to-LeadsTo dpl handler h = record {
  address = omega (arith, h);
  privilege = refl;
  there = refl;
  code = refl;
}

-- The gates behind `interrupt_init`: each vector below 0x30 leads to its own entry, 0x80 to the
-- system calls, every other to the default handler, and user code may use 0x80 only.
pub idt_init-LeadsTo :
    (entry : ℕ → ℕ) (default_int_hardler syscall_handler vector : ℕ) (idt : ℕ → Gate)
    → ((i : ℕ) → entry i < 2 ^ 32)
    → default_int_hardler < 2 ^ 32
    → syscall_handler < 2 ^ 32
    → vector < 256
    → let gate = idt_init entry default_int_hardler syscall_handler idt vector in
      if vector == 0x80
      then LeadsTo gate syscall_handler 3
      else if ltb vector 0x30
      then LeadsTo gate (entry vector) 0
      else LeadsTo gate default_int_hardler 0
unfolding idt_init
idt_init-LeadsTo entry default_int_hardler syscall_handler vector idt he hd hs hv =
    elim (Bool-cases (vector == 0x80)) [
      | inl call ↦ rw call (gate_to-LeadsTo 3 syscall_handler hs)
      | inr other ↦ elim (Bool-cases (ltb vector 0x30)) [
        | inl low ↦
            let own =
              set_gates_outside 208 0x30 vector (λ i. default_int_hardler)
                (set_gates 0x30 entry 0 idt) (inl (ground (arith, low)))
              ∙ set_gates_inside 0x30 0 vector entry idt (omega arith) (ground (arith, low)) in
            rw (other, low, own) (gate_to-LeadsTo 0 (entry vector) (he vector))
        | inr high ↦
            let rest =
              set_gates_inside 208 0x30 vector (λ i. default_int_hardler)
                (set_gates 0x30 entry 0 idt) (ground (arith, high)) (omega (arith, hv)) in
            rw (other, high, rest) (gate_to-LeadsTo 0 default_int_hardler hd)
      ]
    ]
