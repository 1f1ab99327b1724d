-- ===== src/Clock.antt =====
-- The broken-down local time and `strftime`, which the C library provides.
use ftrl_online_pslite.Prelude.{ℕ, ◌+◌, ◌/◌, ◌%◌, ◌≡◌, [], ◌∷◌, ◌++◌}
use ftrl_online_pslite.Bytes.{Bytes, codes}

-- The fields of `struct tm` that the program reads.
pub record Tm : Type 0 where
  pub tm_hour : ℕ
  pub tm_min : ℕ

-- The format, the time, and the text that `strftime` writes.
abbrev pub Strftime : Type 0
Strftime = Bytes → Tm → Bytes

abbrev pub two_digits : ℕ → Bytes
two_digits n = (b'0' + n / 10 % 10) ∷ (b'0' + n % 10) ∷ []

-- What the standard says of the two formats that the program passes: `%H` is the hour as two
-- digits, and a character that no `%` precedes is copied, so `$M` stands for itself.
pub record IsStandard (strftime : Strftime) : Type 0 where
  pub hour_dollar : (t : Tm) → strftime (codes "%H:$M") t ≡ two_digits t.tm_hour ++ codes ":$M"
  pub dollar : (t : Tm) → strftime (codes "$M") t ≡ codes "$M"
