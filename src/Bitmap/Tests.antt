-- ===== src/Bitmap/Tests.antt =====
-- Runs of lib/bitmap.c and instances of its theorems.
use nar_os.Prelude.{ℕ, ◌≡◌, refl}
use nar_os.Bitmap.{bitmap_get, bitmap_set}

abbrev all_set : ℕ → ℕ
all_set a = 0xff

runs :
    (bitmap_set all_set 11 0 1 ≡ 0xf7)
    × (bitmap_set all_set 11 0 0 ≡ 0xff)
    × (bitmap_get all_set 11 ≡ 1)
unfolding bitmap_get bitmap_set
runs = (refl, refl, refl)
