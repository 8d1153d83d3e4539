-- ===== src/Ata/Transfer.antt =====
-- What device/ata.c moves between the disk and the buffer, and what it writes to the ports.
use mathlib.Core.List.{append-nil, append_assoc}
use nar_os.Prelude.{
  ℕ, zero, suc, ◌+◌, ◌*◌, ◌/◌, ◌%◌, ◌^◌, ◌≡◌, ◌≤◌, refl, some, List, [], ◌∷◌, ◌++◌, ◌==◌,
  if◌then◌else◌, arith, length, take, drop, map, ◌∙◌,
}
use nar_os.Interrupt.{Output}
use nar_os.Ata.{
  Bus, br0, diskread, diskwrite, select_sectors, transfer, send_command, ata_rw, ata_disk_read,
  ata_disk_write,
}
use nar_os.Ata.State.{IsReady, AllReady, get_ata_state_ready}

-- The writes that send a command.
abbrev pub features : Output
features = (br0 + 1, 0) ∷ []

abbrev pub command : ℕ → ℕ → ℕ → Output
command sector count code =
    (br0 + 2, count)
    ∷ (br0 + 3, sector % 256)
    ∷ (br0 + 4, sector / 2 ^ 8 % 256)
    ∷ (br0 + 5, sector / 2 ^ 16 % 256)
    ∷ (br0 + 6, 0xe0 + sector / 2 ^ 24 % 16)
    ∷ (br0 + 7, code)
    ∷ []

abbrev pub bus : List ℕ → List ℕ → Output → Bus
bus status data_words out = record { status = status; data_words = data_words; out = out }

-- The writes of words to the data port.
abbrev pub sent : List ℕ → Output
sent ws = map (λ w. (br0, w)) ws

transfer_read :
    (n : ℕ) (buf ss ds : List ℕ) (out : Output)
    → AllReady n ss
    → n ≤ length buf
    → n ≤ length ds
    → transfer n diskread buf (bus ss ds out)
      ≡ some (take n ds ++ drop n buf, bus (drop n ss) (drop n ds) out)
unfolding transfer
transfer_read zero buf ss ds out h hb hd = refl
transfer_read (suc n) [] ss ds out h hb hd = absurd (omega (arith, hb))
transfer_read (suc n) (w ∷ buf) [] ds out h hb hd = absurd h
transfer_read (suc n) (w ∷ buf) (s ∷ ss) [] out h hb hd = absurd (omega (arith, hd))
transfer_read (suc n) (w ∷ buf) (s ∷ ss) (d ∷ ds) out (h, hs) hb hd =
    rw
      (
        get_ata_state_ready s ss (d ∷ ds) out h,
        transfer_read n buf ss ds out hs (omega (arith, hb)) (omega (arith, hd)),
      )
      refl

transfer_write :
    (n : ℕ) (buf ss ds : List ℕ) (out : Output)
    → AllReady n ss
    → n ≤ length buf
    → transfer n diskwrite buf (bus ss ds out)
      ≡ some (buf, bus (drop n ss) ds (out ++ sent (take n buf)))
unfolding transfer
transfer_write zero buf ss ds out h hb = rw (append-nil out) refl
transfer_write (suc n) [] ss ds out h hb = absurd (omega (arith, hb))
transfer_write (suc n) (w ∷ buf) [] ds out h hb = absurd h
transfer_write (suc n) (w ∷ buf) (s ∷ ss) ds out (h, hs) hb =
    rw
      (
        get_ata_state_ready s ss ds out h,
        transfer_write n buf ss ds (out ++ (br0, w) ∷ []) hs (omega (arith, hb)),
        append_assoc out ((br0, w) ∷ []) (sent (take n buf)),
      )
      refl

half : (count : ℕ) → count * 512 / 2 ≡ count * 256
half count = omega arith

select_sectors_lem :
    (sector count mode : ℕ) (ss ds : List ℕ) (out : Output)
    → select_sectors sector count mode (bus ss ds out)
      ≡ bus ss ds (out ++ command sector count (if mode == diskread then 0x20 else 0x30))
unfolding select_sectors
select_sectors_lem sector count mode ss ds out = simp append_assoc refl

send_command_begins :
    (sector count mode : ℕ) (buf ss ds : List ℕ) (out : Output) (s : ℕ)
    → IsReady s
    → send_command sector buf count mode (bus (s ∷ ss) ds out)
      ≡ transfer
          (count * 256)
          mode
          buf
          (bus ss ds (out ++ command sector count (if mode == diskread then 0x20 else 0x30)))
unfolding send_command
send_command_begins sector count mode buf ss ds out s h =
    let code : ℕ = if mode == diskread then 0x20 else 0x30 in
    rw
      (
        select_sectors_lem sector count mode (s ∷ ss) ds out,
        get_ata_state_ready s ss ds (out ++ command sector count code) h,
        send_command,
        half,
      )
      refl

-- Up to the transfer, with the disk ready twice.
ata_rw_begins :
    (sector count mode : ℕ) (buf ss ds : List ℕ) (out : Output) (s1 s2 : ℕ)
    → IsReady s1
    → IsReady s2
    → ata_rw sector buf count mode (bus (s1 ∷ s2 ∷ ss) ds out)
      ≡ transfer (count * 256) mode buf (
          bus ss ds
            (out ++ (features ++ command sector count (if mode == diskread then 0x20 else 0x30))))
unfolding ata_rw
ata_rw_begins sector count mode buf ss ds out s1 s2 h1 h2 =
    let code : ℕ = if mode == diskread then 0x20 else 0x30 in
    rw (get_ata_state_ready s1 (s2 ∷ ss) ds (out ++ features) h1) (
      send_command_begins sector count mode buf ss ds (out ++ features) s2 h2
      ∙ rw (append_assoc out features (command sector count code)) refl)

-- Reading `count` sectors from a disk that is ready: the command for the sectors is sent, and the
-- words of the data port come into the buffer one after another, 256 for each sector.
pub ata_disk_read_lem :
    (sector count : ℕ) (buf ss ds : List ℕ) (out : Output)
    → AllReady (suc (suc (count * 256))) ss
    → count * 256 ≤ length buf
    → count * 256 ≤ length ds
    → ata_disk_read sector buf count (bus ss ds out)
      ≡ some (
        take (count * 256) ds ++ drop (count * 256) buf,
        bus
            (drop (suc (suc (count * 256))) ss)
            (drop (count * 256) ds)
            (out ++ (features ++ command sector count 0x20)),
      )
unfolding ata_disk_read
ata_disk_read_lem sector count buf [] ds out h hb hd = absurd h
ata_disk_read_lem sector count buf (s ∷ []) ds out h hb hd = absurd h.1
ata_disk_read_lem sector count buf (s1 ∷ s2 ∷ ss) ds out (h1, (h2, hs)) hb hd =
    ata_rw_begins sector count diskread buf ss ds out s1 s2 h1 h2
    ∙ transfer_read (count * 256) buf ss ds (out ++ (features ++ command sector count 0x20)) hs hb
        hd

pub ata_disk_write_lem :
    (sector count : ℕ) (buf ss ds : List ℕ) (out : Output)
    → AllReady (suc (suc (count * 256))) ss
    → count * 256 ≤ length buf
    → ata_disk_write sector buf count (bus ss ds out)
      ≡ some (
        buf,
        bus
            (drop (suc (suc (count * 256))) ss)
            ds
            (out ++ (features ++ (command sector count 0x30 ++ sent (take (count * 256) buf)))),
      )
unfolding ata_disk_write
ata_disk_write_lem sector count buf [] ds out h hb = absurd h
ata_disk_write_lem sector count buf (s ∷ []) ds out h hb = absurd h.1
ata_disk_write_lem sector count buf (s1 ∷ s2 ∷ ss) ds out (h1, (h2, hs)) hb =
    ata_rw_begins sector count diskwrite buf ss ds out s1 s2 h1 h2
    ∙ transfer_write (count * 256) buf ss ds (out ++ (features ++ command sector count 0x30)) hs hb
    ∙ rw (append_assoc out (features ++ command sector count 0x30) (sent (take (count * 256) buf)))
        refl
