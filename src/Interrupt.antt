-- ===== src/Interrupt.antt =====
-- kernel/interrupt.c: the interrupt controller and the table of handlers. A write to a port is a
-- pair of port and value; the outputs of a function are the list of its writes, in order.
mod Tests
pub mod Pic
use nar_os.Prelude.{
  ℕ, ◌+◌, ◌-◌, ◌*◌, ◌%◌, ◌^◌, ◌≤◌, ◌<◌, Bool, true, false, ◌&&◌, List, [], ◌∷◌, ◌++◌, ltb, leb,
  ◌==◌, if◌then◌else◌,
}
use nar_os.Prelude.Words.{update}
use nar_os.Prelude.Bits.{clear_bit, or_bit}

abbrev pub Output : Type 0
Output = List (ℕ × ℕ)

abbrev pub pic_m_ctrl : ℕ
pic_m_ctrl = 0x20

abbrev pub pic_m_data : ℕ
pic_m_data = 0x21

abbrev pub pic_s_ctrl : ℕ
pic_s_ctrl = 0xa0

abbrev pub pic_s_data : ℕ
pic_s_data = 0xa1

abbrev pub pic_eoi : ℕ
pic_eoi = 0x20

unfoldable pub pic_init : Output
pic_init =
    (pic_m_ctrl, 0b00010001)
    ∷ (pic_m_data, 0x20)
    ∷ (pic_m_data, 0b00000100)
    ∷ (pic_m_data, 0b00000001)
    ∷ (pic_s_ctrl, 0b00010001)
    ∷ (pic_s_data, 0x28)
    ∷ (pic_s_data, 2)
    ∷ (pic_s_data, 0b00000001)
    ∷ (pic_m_data, 0b11111111)
    ∷ (pic_s_data, 0b11111111)
    ∷ []

unfoldable pub send_eoi : ℕ → Output
send_eoi vector =
    (if leb 0x20 vector && ltb vector 0x28 then (pic_m_ctrl, pic_eoi) ∷ [] else [])
    ++ (if leb 0x28 vector && ltb vector 0x30
        then (pic_m_ctrl, pic_eoi) ∷ (pic_s_ctrl, pic_eoi) ∷ []
        else [])

-- The two mask registers of the controllers, which the data ports read and write.
pub record Masks : Type 0 where
  pub master : ℕ
  pub slave : ℕ

-- `~(1 << irq)` and `1 << irq`, of which `outb` keeps a byte.
unfoldable pub set_interrupt_mask : ℕ → Bool → Masks → Masks
set_interrupt_mask irq enable m =
    if ltb irq 8
    then record m { master = if enable then clear_bit m.master irq else or_bit m.master 1 irq }
    else record m {
      slave = if enable then clear_bit m.slave (irq - 8) else or_bit m.slave 1 (irq - 8);
    }

-- `interrupt_hardler_list`: the address of the handler of each vector.
unfoldable pub interrupt_hardler_register : ℕ → ℕ → (ℕ → ℕ) → ℕ → ℕ
interrupt_hardler_register int_num handler list = update list int_num handler
