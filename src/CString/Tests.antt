-- ===== src/CString/Tests.antt =====
-- Runs of lib/string.c and instances of its theorems.
use nar_os.Prelude.{◌≡◌, refl, some, none, [], ◌∷◌}
use nar_os.Prelude.Int.{pos, negsuc}
use nar_os.CString.{CStr, strcmp, strncmp, strsep, strrsep, strchr}

-- "/dev"
abbrev dev : CStr
dev = b'/' ∷ b'd' ∷ b'e' ∷ b'v' ∷ []

-- "/dev/tty"
abbrev dev_tty : CStr
dev_tty = b'/' ∷ b'd' ∷ b'e' ∷ b'v' ∷ b'/' ∷ b't' ∷ b't' ∷ b'y' ∷ []

searches :
    (strsep dev_tty ≡ some 0)
    × (strrsep dev_tty ≡ some 4)
    × (strchr dev_tty b't' ≡ some 5)
    × (strchr dev_tty 0 ≡ some 8)
    × (strrsep [] ≡ none)
unfolding strsep strrsep strchr
searches = (refl, refl, refl, refl, refl)

comparisons :
    (strcmp dev dev_tty ≡ negsuc 0)
    × (strcmp (200 ∷ []) (b'a' ∷ []) ≡ negsuc 0)
    × (strncmp dev dev_tty 4 ≡ pos 0)
    × (strncmp dev dev 5 ≡ pos 1)
unfolding strcmp strncmp
comparisons = (refl, refl, refl, refl)
