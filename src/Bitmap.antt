-- ===== src/Bitmap.antt =====
-- lib/bitmap.c: bits in an array of bytes. The array is the function from offset to byte.
pub mod Access
mod Tests
use nar_os.Prelude.{ℕ, ◌/◌, ◌%◌, ◌^◌}
use nar_os.Prelude.Words.{update}
use nar_os.Prelude.Bits.{clear_bit, or_bit}

unfoldable pub bitmap_get : (ℕ → ℕ) → ℕ → ℕ
bitmap_get begin bit = begin (bit / 8) / 2 ^ (bit % 8) % 2

-- `value << (bit % 8)` is an `int`; the byte keeps its low part.
unfoldable pub bitmap_set : (ℕ → ℕ) → ℕ → ℕ → ℕ → ℕ
bitmap_set begin bit value =
    update begin (bit / 8) (or_bit (clear_bit (begin (bit / 8)) (bit % 8)) value (bit % 8))
