-- ===== src/Interrupt/Tests.antt =====
-- Runs of kernel/interrupt.c and instances of its theorems.
use nar_os.Prelude.{◌≡◌, refl, [], ◌∷◌}
use nar_os.Interrupt.{Masks, send_eoi, pic_m_ctrl, pic_s_ctrl, pic_eoi}

-- The masks that `pic_init` writes.
abbrev all_masked : Masks
all_masked = record { master = 0xff; slave = 0xff }

acknowledges :
    (send_eoi 0x21 ≡ (pic_m_ctrl, pic_eoi) ∷ [])
    × (send_eoi 0x2e ≡ (pic_m_ctrl, pic_eoi) ∷ (pic_s_ctrl, pic_eoi) ∷ [])
    × (send_eoi 0x30 ≡ [])
unfolding send_eoi
acknowledges = (refl, refl, refl)
