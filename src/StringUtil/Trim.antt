-- ===== src/StringUtil/Trim.antt =====
-- src/utils/string_util.h: what `trim` removes.
use ftrl_online_pslite.Prelude.{
  ◌-◌, ◌≡◌, ◌≢◌, refl, [], ◌∷◌, length, get_or, take_all, arith, ==_of_ne,
}
use ftrl_online_pslite.Bytes.{Bytes}
use ftrl_online_pslite.StringUtil.{space, drop_spaces, keep_to, trim}

-- No space at either end.
abbrev pub IsTrimmed : Bytes → Type 0
IsTrimmed s = (get_or s 0 0 ≢ space) × (get_or s (length s - 1) 0 ≢ space)

-- A text with no space at either end stays as it is.
pub trim_of-IsTrimmed : (s : Bytes) → IsTrimmed s → trim s ≡ s
unfolding trim drop_spaces keep_to
trim_of-IsTrimmed [] h = refl
trim_of-IsTrimmed (c ∷ s) h = rw (==_of_ne c space h.0) (ground (arith, take_all (c ∷ s)))
