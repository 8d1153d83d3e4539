-- ===== src/Ata/Sectors.antt =====
-- Which sectors a command of device/ata.c addresses, and what kernel/fs/fat/diskio.c reads of them.
use nar_os.Prelude.{
  ℕ, zero, suc, ◌+◌, ◌*◌, ◌/◌, ◌%◌, ◌^◌, ◌≡◌, ◌≤◌, ◌<◌, refl, false, some, List, [], ◌∷◌, ◌++◌,
  ◌==◌, arith, length, length-append, take, drop, ap,
}
use nar_os.Prelude.Int.{negsuc}
use nar_os.Prelude.Bits.{bit}
use nar_os.Prelude.Words.{update}
use nar_os.Interrupt.{Output}
use nar_os.Ata.{br0, decide, ata_disk_read}
use nar_os.Ata.State.{IsReady, AllReady, AllBusy, get_ata_state_busy}
use nar_os.Ata.Transfer.{bus, features, command, ata_disk_read_lem}
use nar_os.Ata.Diskio.{disk_read, res_ok}

-- What the registers of the drive hold behind writes to the ports.
unfoldable pub registers : Output → (ℕ → ℕ) → ℕ → ℕ
registers [] r = r
registers (w ∷ ws) r = registers ws (update r w.0 w.1)

-- The sector number in the registers of a drive, with 28 bits.
abbrev pub lba : (ℕ → ℕ) → ℕ
lba r = r (br0 + 3) + r (br0 + 4) * 2 ^ 8 + r (br0 + 5) * 2 ^ 16 + r (br0 + 6) % 16 * 2 ^ 24

registers-append :
    (o o' : Output) (r : ℕ → ℕ) → registers (o ++ o') r ≡ registers o' (registers o r)
unfolding registers
registers-append [] o' r = refl
registers-append (w ∷ o) o' r = registers-append o o' (update r w.0 w.1)

-- The command that `ata_rw` sends names the sector and the count.
pub lba-command :
    (out : Output) (r : ℕ → ℕ) (sector count code : ℕ)
    → sector < 2 ^ 28
    → (lba (registers (out ++ (features ++ command sector count code)) r) ≡ sector)
      × (registers (out ++ (features ++ command sector count code)) r (br0 + 2) ≡ count)
      × (registers (out ++ (features ++ command sector count code)) r (br0 + 7) ≡ code)
unfolding registers
lba-command out r sector count code h =
    rw (registers-append out (features ++ command sector count code) r) (digits, refl, refl)
  where
    digits :
        sector % 256
          + sector / 2 ^ 8 % 256 * 2 ^ 8
          + sector / 2 ^ 16 % 256 * 2 ^ 16
          + (0xe0 + sector / 2 ^ 24 % 16) % 16 * 2 ^ 24
        ≡ sector
    digits = omega (arith, h)

-- The words of a disk from word `i` on, `n` of them.
unfoldable pub stored : (ℕ → ℕ) → ℕ → ℕ → List ℕ
stored disk i zero = []
stored disk i (suc n) = disk i ∷ stored disk (i + 1) n

length-stored : (disk : ℕ → ℕ) (i n : ℕ) → length (stored disk i n) ≡ n
unfolding stored
length-stored disk i zero = refl
length-stored disk i (suc n) = ap suc (length-stored disk (i + 1) n)

take-stored :
    (disk : ℕ → ℕ) (i n : ℕ) (more : List ℕ) → take n (stored disk i n ++ more) ≡ stored disk i n
unfolding stored
take-stored disk i zero more = refl
take-stored disk i (suc n) more = ap (λ l. disk i ∷ l) (take-stored disk (i + 1) n more)

drop-stored : (disk : ℕ → ℕ) (i n : ℕ) (more : List ℕ) → drop n (stored disk i n ++ more) ≡ more
unfolding stored
drop-stored disk i zero more = refl
drop-stored disk i (suc n) more = drop-stored disk (i + 1) n more

-- What a drive holds ready at its data port for the command in its registers.
abbrev pub answers : (ℕ → ℕ) → (ℕ → ℕ) → List ℕ
answers disk r = stored disk (lba r * 256) (r (br0 + 2) * 256)

-- Less than 256 sectors that a drive of 2 ^ 28 sectors can address come into the buffer in order.
pub disk_read-stored :
    (disk r : ℕ → ℕ) (sector count : ℕ) (buf ss more : List ℕ) (out : Output)
    → sector < 2 ^ 28
    → count < 256
    → AllReady (suc (suc (count * 256))) ss
    → count * 256 ≤ length buf
    → disk_read 0 buf sector count (
        bus ss
          (answers disk (registers (out ++ (features ++ command sector count 0x20)) r) ++ more)
          out)
      ≡ some (
        res_ok,
        stored disk (sector * 256) (count * 256) ++ drop (count * 256) buf,
        bus
            (drop (suc (suc (count * 256))) ss)
            more
            (out ++ (features ++ command sector count 0x20)),
      )
unfolding disk_read
disk_read-stored disk r sector count buf ss more out hs hc ready hb =
    let (at, many, code) = lba-command out r sector count 0x20 hs in
    let low : count % 256 ≡ count = omega (arith, hc) in
    let enough : count * 256 ≤ length (stored disk (sector * 256) (count * 256) ++ more) = omega (
      arith,
      length-append (stored disk (sector * 256) (count * 256)) more,
      length-stored disk (sector * 256) (count * 256),
    ) in
    let read =
      ata_disk_read_lem sector count buf ss (stored disk (sector * 256) (count * 256) ++ more) out
        ready hb enough in
    rw (at, many, low, read)
      (rw
        (
          take-stored disk (sector * 256) (count * 256) more,
          drop-stored disk (sector * 256) (count * 256) more,
        )
        refl)

-- With a count that is a multiple of 256 the driver gets 0: no word is moved, and the answer is
-- RES_OK.
pub disk_read_256 :
    (sector k : ℕ) (buf ss ds : List ℕ) (out : Output) (s1 s2 : ℕ)
    → IsReady s1
    → IsReady s2
    → disk_read 0 buf sector (k * 256) (bus (s1 ∷ s2 ∷ ss) ds out)
      ≡ some (res_ok, buf, bus ss ds (out ++ (features ++ command sector 0 0x20)))
unfolding disk_read
disk_read_256 sector k buf ss ds out s1 s2 h1 h2 =
    let none_left : k * 256 % 256 ≡ 0 = omega arith in
    rw
      (
        none_left,
        ata_disk_read_lem sector 0 buf (s1 ∷ s2 ∷ ss) ds out (h1, (h2, tt)) (omega arith)
            (omega arith),
      )
      refl

-- A disk that reports an error before the command: nothing is read, and the answer is RES_OK.
pub disk_read_error :
    (sector count : ℕ) (buf busy ss ds : List ℕ) (out : Output) (s e : ℕ)
    → AllBusy busy
    → (bit s 7 == 1) ≡ false
    → decide s ≡ some (negsuc e)
    → disk_read 0 buf sector count (bus (busy ++ s ∷ ss) ds out)
      ≡ some (res_ok, buf, bus ss ds (out ++ features))
unfolding disk_read ata_disk_read
disk_read_error sector count buf busy ss ds out s e hb free err =
    rw (get_ata_state_busy busy ss ds (out ++ features) s (negsuc e) hb free err) refl
