-- ===== src/Ata.antt =====
-- device/ata.c: the disk driver. What the disk answers is given: the readings of its status
-- register one after another, and the words of its data port. Where they end the driver waits for
-- ever, and `none` is that, or an access behind the caller's buffer.
pub mod State
pub mod Transfer
pub mod Diskio
pub mod Sectors
mod Tests
use nar_os.Prelude.{
  ℕ, zero, suc, ◌+◌, ◌*◌, ◌/◌, ◌%◌, ◌^◌, Bool, true, false, Option, none, some, List, [], ◌∷◌, ◌++◌,
  ◌==◌, if◌then◌else◌, ◌>>=◌,
}
use nar_os.Prelude.Int.{ℤ, pos, negsuc}
use nar_os.Prelude.Bits.{bit}
use nar_os.Interrupt.{Output}

-- The ports, with `out` for the writes so far, in order.
pub record Bus : Type 0 where
  pub status : List ℕ
  pub data_words : List ℕ
  pub out : Output

abbrev pub br0 : ℕ
br0 = 0x1f0

abbrev pub diskread : ℕ
diskread = 0

abbrev pub diskwrite : ℕ
diskwrite = 1

abbrev pub outb : ℕ → ℕ → Bus → Bus
outb reg v b = record b { out = b.out ++ (br0 + reg, v) ∷ [] }

-- What one reading that is not busy decides; 0 is ready, `none` is to read once more.
abbrev pub decide : ℕ → Option ℤ
decide s =
    if bit s 3 == 1
    then some (pos 0)
    else if bit s 6 == 1
    then some (pos 0)
    else if bit s 4 == 1
    then some (pos 0)
    else if bit s 0 == 1
    then some (negsuc 0)
    else if bit s 5 == 1
    then some (negsuc 1)
    else none

-- The loop over the readings.
unfoldable pub wait_status : List ℕ → Option (ℤ × List ℕ)
wait_status [] = none
wait_status (s ∷ rest) = elim (bit s 7 == 1) [
  | true ↦ wait_status rest
  | false ↦ elim (decide s) [ none ↦ wait_status rest | some r ↦ some (r, rest) ]
]

unfoldable pub get_ata_state : Bus → Option (ℤ × Bus)
unfolding wait_status
get_ata_state b = do (r, rest) ← wait_status b.status; some (r, record b { status = rest })

-- `*buffer++ = inw(…)` or `outw(…, *buffer++)`, with `w` for what is in the buffer.
abbrev pub move_word : ℕ → ℕ → Bus → Option (ℕ × Bus)
move_word mode w b =
    if mode == diskread
    then (elim b.data_words [ [] ↦ none | d ∷ ds ↦ some (d, record b { data_words = ds }) ])
    else if mode == diskwrite
    then some (w, record b { out = b.out ++ (br0, w) ∷ [] })
    else some (w, b)

-- `while(read_count--)`: the answer of the test of the state is not used.
unfoldable pub transfer : ℕ → ℕ → List ℕ → Bus → Option (List ℕ × Bus)
unfolding get_ata_state
transfer zero mode buf b = some (buf, b)
transfer (suc n) mode [] b = none
transfer (suc n) mode (w ∷ buf) b = do
  (r, b1) ← get_ata_state b
  (w', b2) ← move_word mode w b1
  (buf', b3) ← transfer n mode buf b2
  some (w' ∷ buf', b3)

-- The registers of a command. `|` joins disjoint bits.
unfoldable pub select_sectors : ℕ → ℕ → ℕ → Bus → Bus
select_sectors sector count mode b = outb 7 (if mode == diskread then 0x20 else 0x30) (
    outb 6 (0xe0 + sector / 2 ^ 24 % 16) (
      outb 5 (sector / 2 ^ 16 % 256)
        (outb 4 (sector / 2 ^ 8 % 256) (outb 3 (sector % 256) (outb 2 count b)))))

-- `ata_rw` from the count on.
unfoldable pub send_command : ℕ → List ℕ → ℕ → ℕ → Bus → Option (List ℕ × Bus)
unfolding transfer
send_command sector buf count mode b = do
  (r, b') ← get_ata_state (select_sectors sector count mode b)
  elim r [ pos zero ↦ transfer (count * 512 / 2) mode buf b' | other ↦ some (buf, b') ]

-- `buf` is a list of words; the answer is what is in it behind the call.
unfoldable pub ata_rw : ℕ → List ℕ → ℕ → ℕ → Bus → Option (List ℕ × Bus)
unfolding send_command
ata_rw sector buf count mode b = do
  (r, b') ← get_ata_state (outb 1 0 b)
  elim r [ pos zero ↦ send_command sector buf count mode b' | other ↦ some (buf, b') ]

unfoldable pub ata_disk_read : ℕ → List ℕ → ℕ → Bus → Option (List ℕ × Bus)
unfolding ata_rw
ata_disk_read sector buf count b = ata_rw sector buf count diskread b

unfoldable pub ata_disk_write : ℕ → List ℕ → ℕ → Bus → Option (List ℕ × Bus)
unfolding ata_rw
ata_disk_write sector buf count b = ata_rw sector buf count diskwrite b
