-- ===== src/Jobslib/Device.antt =====
-- jobslib/jobslib.go, validateIODeviceNumber: `^[0-9]{1,3}:[0-9]{1,3}$`.
pub mod Laws
use jobmaster.Base.{ℕ, suc, Bool, true, false, ◌&&◌, [], ◌∷◌, Text, leb, ◌==◌, if◌then◌else◌}

unfoldable pub is_digit : ℕ → Bool
is_digit c = leb b'0' c && leb c b'9'

-- How many digits a text begins with, and what follows them. A colon is no digit, so the longest run
-- of digits is the only one that the expression can match.
unfoldable pub digit_run : Text → ℕ × Text
digit_run [] = (0, [])
digit_run (c ∷ s) = let (n, rest) = digit_run s in if is_digit c then (suc n, rest) else (0, c ∷ s)

unfoldable pub one_to_three : ℕ → Bool
one_to_three n = leb 1 n && leb n 3

-- `$` holds at the end of the text alone.
abbrev ends : ℕ × Text → Bool
ends (n, []) = one_to_three n
ends (n, c ∷ s) = false

abbrev colon_then : ℕ × Text → Bool
colon_then (n, []) = false
colon_then (n, c ∷ s) = one_to_three n && (c == b':' && ends (digit_run s))

unfoldable pub validate_io_device_number : Text → Bool
validate_io_device_number s = colon_then (digit_run s)
