-- ===== src/Tools/Feature.antt =====
-- tools/learner.cpp: `extract_feature`.
use ftrl_online_pslite.Prelude.{
  ℕ, suc, ◌+◌, ◌-◌, ◌^◌, List, [], ◌∷◌, ◌++◌, length, drop, ltb, ◌==◌, if◌then◌else◌,
}
use ftrl_online_pslite.Prelude.Int.{ℤ, pos, negsuc}
use ftrl_online_pslite.Floats.{Floats}
use ftrl_online_pslite.Bytes.{Bytes, codes}
use ftrl_online_pslite.StringUtil.{npos, split, find}
use ftrl_online_pslite.Verdict.{out_of_bounds, going, ◌>>=◌, element, give}
use ftrl_online_pslite.Parser.Feature.{read_features}
use ftrl_online_pslite.Tools.{Outside, Read}

-- What the parsers return: `ig_ctr` and the features.
abbrev pub Features : Type 0 → Type 0
Features F = F × List ℕ

abbrev pub filtermsg : Bytes
filtermsg = codes "fr-fusion1"

-- `uint64_t(key)` of an `int`
abbrev pub to_uint64 : ℤ → ℕ
to_uint64 (pos n) = n
to_uint64 (negsuc n) = 2 ^ 64 - suc n

module _ {F : Type 0} ⦃fl : Floats F⦄ (out : Outside F) where
  open out use {parsers}

  -- `feature_str.substr(first + 11)`, which throws where that is past the end.
  abbrev pub text_after : ℕ → Bytes → Read F Bytes
  text_after first s m =
      if ltb (length s) (first + 11) then (m, out_of_bounds) else (m, going (drop (first + 11) s))

  -- `str_split[3].substr(8)` as a key, where it has one.
  abbrev user_key : Bytes → List ℕ
  user_key s = if ltb 8 (length s) then to_uint64 (parsers.atoi (drop 8 s)) ∷ [] else []

  -- The split text behind the filter; the minute that the code also reads is not used.
  unfoldable pub fusion_features : ℕ → Bytes → Read F (Features F)
  fusion_features first feature_str = do
    str_s ← text_after first feature_str
    let str_split = split str_s b','
    ctr ← element str_split 1
    user ← element str_split 3
    give (parsers.atof ctr, user_key user ++ read_features parsers (drop 4 str_split))

  -- The features and `ig_ctr`, which starts as -1.
  unfoldable pub extract_feature : Bytes → Read F (Features F)
  extract_feature feature_str =
      let first = find feature_str filtermsg 0 in
      if first == npos then give (fl.of_int (negsuc 0), []) else fusion_features first feature_str
