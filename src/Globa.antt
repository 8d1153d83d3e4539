-- ===== src/Globa.antt =====
-- kernel/globa.c and the gates of kernel/interrupt.c: the tables that the processor reads. A table is
-- a function from index to entry; the loads of the table registers are left out.
pub mod Segments
pub mod Gates
mod Tests
use nar_os.Prelude.{ℕ, zero, suc, ◌+◌, ◌*◌, ◌/◌, ◌%◌, ◌^◌, ◌-◌}
use nar_os.Prelude.Words.{update}

abbrev pub kernel_code_idx : ℕ
kernel_code_idx = 1

abbrev pub kernel_data_idx : ℕ
kernel_data_idx = 2

abbrev pub kernel_tss_idx : ℕ
kernel_tss_idx = 3

abbrev pub user_code_idx : ℕ
user_code_idx = 4

abbrev pub user_data_idx : ℕ
user_data_idx = 5

-- `descriptor_t`; the fields are numbers of as many bits as their width says.
pub record Descriptor : Type 0 where
  pub limit_low : ℕ
  pub base_low : ℕ
  pub type : ℕ
  pub segment : ℕ
  pub dpl : ℕ
  pub present : ℕ
  pub limit_high : ℕ
  pub available : ℕ
  pub long_mode : ℕ
  pub big : ℕ
  pub granularity : ℕ
  pub base_high : ℕ

abbrev pub null_descriptor : Descriptor
null_descriptor = record {
  limit_low = 0;
  base_low = 0;
  type = 0;
  segment = 0;
  dpl = 0;
  present = 0;
  limit_high = 0;
  available = 0;
  long_mode = 0;
  big = 0;
  granularity = 0;
  base_high = 0;
}

unfoldable pub descriptor_init : ℕ → ℕ → Descriptor → Descriptor
descriptor_init base limit d = record d {
  base_low = base % 2 ^ 24;
  base_high = base / 2 ^ 24 % 256;
  limit_low = limit % 2 ^ 16;
  limit_high = limit / 2 ^ 16 % 16;
}

-- A segment over all of memory, of privilege `dpl`.
abbrev pub flat_segment : ℕ → ℕ → Descriptor
flat_segment dpl type = record (descriptor_init 0 0xFFFFF null_descriptor) {
  segment = 1;
  granularity = 1;
  big = 1;
  long_mode = 0;
  present = 1;
  dpl = dpl;
  type = type;
}

-- The fields of `tss_t` that are set; the others are 0. Its size is 108 bytes.
pub record Tss : Type 0 where
  pub ss0 : ℕ
  pub iobase : ℕ

abbrev pub tss_size : ℕ
tss_size = 108

abbrev pub kernel_tss : Tss
kernel_tss = record { ss0 = kernel_data_idx * 8; iobase = tss_size }

-- `tss_at` is the address of the task state segment.
abbrev pub tss_descriptor : ℕ → Descriptor
tss_descriptor tss_at = record (descriptor_init tss_at (tss_size - 1) null_descriptor) {
  segment = 0;
  granularity = 0;
  big = 0;
  long_mode = 0;
  present = 1;
  dpl = 0;
  type = 0b1001;
}

-- The table in memory.
unfoldable pub globa_init : ℕ → ℕ → Descriptor
globa_init tss_at =
    let gdt0 = λ (i : ℕ). null_descriptor in
    let gdt1 = update gdt0 kernel_code_idx (flat_segment 0 0b1010) in
    let gdt2 = update gdt1 kernel_data_idx (flat_segment 0 0b0010) in
    let gdt3 = update gdt2 user_code_idx (flat_segment 3 0b1010) in
    let gdt4 = update gdt3 user_data_idx (flat_segment 3 0b0010) in
    update gdt4 kernel_tss_idx (tss_descriptor tss_at)

-- `gate_t`
pub record Gate : Type 0 where
  pub offset0 : ℕ
  pub selector : ℕ
  pub reserved : ℕ
  pub type : ℕ
  pub segment : ℕ
  pub dpl : ℕ
  pub present : ℕ
  pub offset1 : ℕ

-- `idt_s` with the address of a handler in it.
abbrev pub gate_to : ℕ → ℕ → Gate
gate_to dpl handler = record {
  offset0 = handler % 2 ^ 16;
  selector = 8;
  reserved = 0;
  type = 0b1110;
  segment = 0;
  dpl = dpl;
  present = 1;
  offset1 = handler / 2 ^ 16 % 2 ^ 16;
}

-- A loop over the vectors with `n` rounds left; `handler` is the address that round `i` takes.
unfoldable pub set_gates : ℕ → (ℕ → ℕ) → ℕ → (ℕ → Gate) → ℕ → Gate
set_gates zero handler i idt = idt
set_gates (suc n) handler i idt = set_gates n handler (i + 1) (update idt i (gate_to 0 (handler i)))

-- The table of gates; `entry` is `handler_entry_table`, the others are addresses of labels.
unfoldable pub idt_init : (ℕ → ℕ) → ℕ → ℕ → (ℕ → Gate) → ℕ → Gate
idt_init entry default_int_hardler syscall_handler idt =
    update (set_gates 208 (λ i. default_int_hardler) 0x30 (set_gates 0x30 entry 0 idt)) 0x80
      (gate_to 3 syscall_handler)
