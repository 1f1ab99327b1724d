-- ===== src/Parser/Feature.antt =====
-- src/io/parser.cpp: `extract_feature`.
use ftrl_online_pslite.Prelude.{
  ℕ, ◌+◌, ◌<◌, ◌≤◌, List, [], ◌∷◌, drop, if◌then◌else◌, ◌==◌, leb, arith, All, ◌^◌,
}
use ftrl_online_pslite.Prelude.Int.{ℤ, pos, negsuc, pos_part}
use ftrl_online_pslite.Floats.{Floats}
use ftrl_online_pslite.Bytes.{Bytes, codes}
use ftrl_online_pslite.StringUtil.{Parsers, npos, find, split}

module _ {F : Type 0} (p : Parsers F) where
  -- `if (temp < 1) continue; result.push_back(uint64_t(temp));`
  abbrev pub add_feature : ℤ → List ℕ → List ℕ
  add_feature (pos n) rest = if leb 1 n then n ∷ rest else rest
  add_feature (negsuc n) rest = rest

  unfoldable pub read_features : List Bytes → List ℕ
  read_features [] = []
  read_features (s ∷ ss) = add_feature (p.atoi s) (read_features ss)

  -- The features, and `ig_ctr`, which starts as -1.
  unfoldable pub extract_feature : ⦃fl : Floats F⦄ → Bytes → F × List ℕ
  extract_feature ⦃fl⦄ feature_str =
      let first = find feature_str (codes ":") 0 in
      if first == npos
      then (fl.of_int (negsuc 0), [])
      else elim (split (drop (first + 1) feature_str) b',') [
        | [] ↦ (fl.of_int (negsuc 0), [])
        | s ∷ ss ↦ (p.atof s, read_features ss)
      ]

  -- The features are positive, and fit an `int` if the results of `atoi` do.
  pub read_features_lem :
      (ss : List Bytes)
      → ((s : Bytes) → pos_part (p.atoi s) < 2 ^ 31)
      → All (λ f. (1 ≤ f) × (f < 2 ^ 31)) (read_features ss)
  unfolding read_features
  read_features_lem [] h = tt
  read_features_lem (s ∷ ss) h = ground (arith, h s, read_features_lem ss h)
