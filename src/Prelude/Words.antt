-- ===== src/Prelude/Words.antt =====
-- 32-bit machine words as native numbers below 2 ^ 32; arithmetic wraps.
use nar_os.Prelude.{ℕ, ◌+◌, ◌-◌, ◌%◌, ◌^◌, ◌==◌, if◌then◌else◌}
use nar_os.Prelude.Int.{ℤ, pos, negsuc}

abbrev pub u32_mod : ℕ
u32_mod = 2 ^ 32

abbrev pub add32 : ℕ → ℕ → ℕ
add32 a b = (a + b) % 2 ^ 32

-- `-` on ℕ stops at 0, so the modulus is added first.
abbrev pub sub32 : ℕ → ℕ → ℕ
sub32 a b = (a + 2 ^ 32 - b % 2 ^ 32) % 2 ^ 32

-- A pointer moved by a signed number of bytes.
abbrev pub move32 : ℕ → ℤ → ℕ
move32 a (pos n) = add32 a n
move32 a (negsuc n) = sub32 a (n + 1)

-- A table as a function, changed at one place.
abbrev pub update {ℓ} : {A : Type ℓ} → (ℕ → A) → ℕ → A → ℕ → A
update f i v j = if j == i then v else f j
