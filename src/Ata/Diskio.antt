-- ===== src/Ata/Diskio.antt =====
-- kernel/fs/fat/diskio.c: the disk as the FAT file system sees it. The answers are numbers of
-- `DSTATUS` and `DRESULT`.
use nar_os.Prelude.{ℕ, ◌%◌, Option, some, List, ◌==◌, if◌then◌else◌, ◌>>=◌}
use nar_os.Ata.{Bus, ata_disk_read, ata_disk_write}

abbrev pub sta_noinit : ℕ
sta_noinit = 1

abbrev pub sta_nodisk : ℕ
sta_nodisk = 2

abbrev pub res_ok : ℕ
res_ok = 0

abbrev pub res_notrdy : ℕ
res_notrdy = 3

abbrev pub disk_status : ℕ → ℕ
disk_status pdrv = if pdrv == 0 then 0 else sta_nodisk

abbrev pub disk_initialize : ℕ → ℕ
disk_initialize pdrv = if pdrv == 0 then 0 else sta_noinit

-- The driver takes the count in one byte.
unfoldable pub disk_read : ℕ → List ℕ → ℕ → ℕ → Bus → Option (ℕ × List ℕ × Bus)
disk_read pdrv buff sector count b =
    if pdrv == 0
    then (do (buff', b') ← ata_disk_read sector buff (count % 256) b; some (res_ok, buff', b'))
    else some (res_notrdy, buff, b)

unfoldable pub disk_write : ℕ → List ℕ → ℕ → ℕ → Bus → Option (ℕ × List ℕ × Bus)
disk_write pdrv buff sector count b =
    if pdrv == 0
    then (do (buff', b') ← ata_disk_write sector buff (count % 256) b; some (res_ok, buff', b'))
    else some (res_notrdy, buff, b)

abbrev pub disk_ioctl : ℕ → ℕ → ℕ
disk_ioctl pdrv cmd = if pdrv == 0 then res_ok else res_notrdy
