-- ===== src/Ata/Tests.antt =====
-- Runs of device/ata.c and kernel/fs/fat/diskio.c, and instances of their theorems.
use nar_os.Prelude.{ℕ, ◌+◌, ◌*◌, ◌≡◌, refl, none, some, List, [], ◌∷◌, ◌++◌, arith, drop, replicate}
use nar_os.Prelude.Int.{pos}
use nar_os.Ata.{wait_status, transfer}
use nar_os.Ata.State.{AllReady, IsReady}
use nar_os.Ata.Transfer.{bus, features, command}
use nar_os.Ata.Diskio.{disk_read, disk_write, disk_status, disk_initialize, disk_ioctl, res_ok}
use nar_os.Ata.Sectors.{registers, stored, answers, disk_read-stored}

-- Busy twice, then nothing that decides, then ready.
waits : wait_status (0x80 ∷ 0xd0 ∷ 0x02 ∷ 0x58 ∷ 0x50 ∷ []) ≡ some (pos 0, 0x50 ∷ [])
unfolding wait_status
waits = refl

other_drives :
    (disk_read 1 (7 ∷ []) 0 1 (bus [] [] []) ≡ some (3, 7 ∷ [], bus [] [] []))
    × (disk_write 1 (7 ∷ []) 0 1 (bus [] [] []) ≡ some (3, 7 ∷ [], bus [] [] []))
    × (disk_status 1 ≡ 2)
    × (disk_initialize 1 ≡ 1)
    × (disk_ioctl 0 5 ≡ 0)
unfolding disk_read disk_write
other_drives = (refl, refl, refl, refl, refl)

moves :
    (transfer 2 0 (1 ∷ 2 ∷ 3 ∷ []) (bus (0x58 ∷ 0x58 ∷ []) (8 ∷ 9 ∷ []) [])
      ≡ some (8 ∷ 9 ∷ 3 ∷ [], bus [] [] []))
    × (transfer 2 1 (1 ∷ 2 ∷ 3 ∷ []) (bus (0x80 ∷ 0x58 ∷ 0x58 ∷ []) [] [])
        ≡ some (1 ∷ 2 ∷ 3 ∷ [], bus [] [] ((0x1f0, 1) ∷ (0x1f0, 2) ∷ [])))
    × (transfer 2 0 (1 ∷ 2 ∷ []) (bus (0x58 ∷ []) (8 ∷ 9 ∷ []) []) ≡ none)
unfolding transfer
moves = (refl, refl, refl)

ready : IsReady 0x50
ready = record { not_busy = refl; decided = refl }

all_ready : (n : ℕ) → AllReady n (replicate n 0x50)
all_ready ℕ.zero = tt
all_ready (ℕ.suc n) = (ready, all_ready n)

abbrev disk : ℕ → ℕ
disk i = i + 1

abbrev sector_buf : List ℕ
sector_buf = replicate 256 0

disk_read-stored_example :
    disk_read 0 sector_buf 3 1 (
      bus
        (replicate 258 0x50)
        (answers disk (registers ([] ++ (features ++ command 3 1 0x20)) (λ i. 0)) ++ [])
        [])
    ≡ some (
      res_ok,
      stored disk (3 * 256) (1 * 256) ++ drop (1 * 256) sector_buf,
      bus (drop 258 (replicate 258 0x50)) [] ([] ++ (features ++ command 3 1 0x20)),
    )
disk_read-stored_example =
    disk_read-stored disk (λ i. 0) 3 1 sector_buf (replicate 258 0x50) [] [] (omega arith)
      (omega arith) (all_ready 258) (omega arith)
