-- ===== src/Ata/State.antt =====
-- How the driver of device/ata.c waits for the disk.
use nar_os.Prelude.{ℕ, zero, suc, ◌≡◌, refl, true, false, some, List, [], ◌∷◌, ◌++◌, ◌==◌}
use nar_os.Prelude.Int.{ℤ, pos}
use nar_os.Prelude.Bits.{bit}
use nar_os.Ata.{decide, wait_status, get_ata_state}

abbrev pub IsBusy : ℕ → Type 0
IsBusy s = (bit s 7 == 1) ≡ true

-- A reading that lets the driver go on.
pub record IsReady (s : ℕ) : Type 0 where
  pub not_busy : (bit s 7 == 1) ≡ false
  pub decided : decide s ≡ some (pos 0)

abbrev pub AllBusy : List ℕ → Type 0
AllBusy [] = Unit {0}
AllBusy (s ∷ rest) = IsBusy s × AllBusy rest

-- The first `n` readings.
abbrev pub AllReady : ℕ → List ℕ → Type 0
AllReady zero ss = Unit {0}
AllReady (suc n) [] = ⊥
AllReady (suc n) (s ∷ ss) = IsReady s × AllReady n ss

-- Busy readings are passed over, and the first other one that decides ends the wait.
pub wait_status_busy :
    (busy rest : List ℕ) (s : ℕ) (r : ℤ)
    → AllBusy busy
    → (bit s 7 == 1) ≡ false
    → decide s ≡ some r
    → wait_status (busy ++ s ∷ rest) ≡ some (r, rest)
unfolding wait_status
wait_status_busy [] rest s r hb free d = rw (free, d, wait_status) refl
wait_status_busy (b ∷ busy) rest s r (hb, hbs) free d =
    rw (hb, wait_status) (wait_status_busy busy rest s r hbs free d)

pub get_ata_state_busy :
    (busy rest data_words : List ℕ) (out : List (ℕ × ℕ)) (s : ℕ) (r : ℤ)
    → AllBusy busy
    → (bit s 7 == 1) ≡ false
    → decide s ≡ some r
    → get_ata_state (record { status = busy ++ s ∷ rest; data_words = data_words; out = out })
      ≡ some (r, record { status = rest; data_words = data_words; out = out })
unfolding get_ata_state
get_ata_state_busy busy rest data_words out s r hb free d =
    rw (wait_status_busy busy rest s r hb free d) refl

pub get_ata_state_ready :
    (s : ℕ) (rest data_words : List ℕ) (out : List (ℕ × ℕ))
    → IsReady s
    → get_ata_state (record { status = s ∷ rest; data_words = data_words; out = out })
      ≡ some (pos 0, record { status = rest; data_words = data_words; out = out })
get_ata_state_ready s rest data_words out h =
    get_ata_state_busy [] rest data_words out s (pos 0) tt h.not_busy h.decided
