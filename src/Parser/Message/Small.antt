-- ===== src/Parser/Message/Small.antt =====
-- src/io/parser.cpp: the features of a parsed message fit an `int`.
use ftrl_online_pslite.Prelude.{
  ℕ, ◌+◌, ◌≤◌, ◌<◌, ◌^◌, ◌==◌, List, [], ◌∷◌, drop, All, Bool-cases, inl, inr,
}
use ftrl_online_pslite.Prelude.Int.{pos_part, negsuc}
use ftrl_online_pslite.Floats.{Floats}
use ftrl_online_pslite.Bytes.{Bytes, codes}
use ftrl_online_pslite.StringUtil.{Parsers, npos, find, split}
use ftrl_online_pslite.Learner.Round.{AllSmall}
use ftrl_online_pslite.Verdict.Yields.{Yields, yields}
use ftrl_online_pslite.Parser.{Env}
use ftrl_online_pslite.Parser.Feature.{extract_feature, read_features, read_features_lem}
use ftrl_online_pslite.Parser.Message.{
  Parsed, Behaviour, finish_0, parse_sample_0, finish_1, parse_sample_1,
}

-- `atoi` returns an `int`.
abbrev pub IsInt : {F : Type 0} → Parsers F → Type 0
IsInt p = (s : Bytes) → pos_part (p.atoi s) < 2 ^ 31

abbrev pub HasSmall : {F : Type 0} → Parsed F → Type 0
HasSmall a = AllSmall a.1

AllSmall-of : (fs : List ℕ) → All (λ f. (1 ≤ f) × (f < 2 ^ 31)) fs → AllSmall fs
AllSmall-of [] h = tt
AllSmall-of (f ∷ fs) ((a, b), h) = (b, AllSmall-of fs h)

module _ {F : Type 0} ⦃fl : Floats F⦄ where
  -- The features of the texts that stand behind the colon.
  abbrev of_texts : Parsers F → List Bytes → F × List ℕ
  of_texts p texts = elim texts [
    | [] ↦ (fl.of_int (negsuc 0), [])
    | s ∷ ss ↦ (p.atof s, read_features p ss)
  ]

  texts_small : (p : Parsers F) (texts : List Bytes) → IsInt p → AllSmall (of_texts p texts).1
  texts_small p [] h = tt
  texts_small p (s ∷ ss) h = AllSmall-of (read_features p ss) (read_features_lem p ss h)

  extract_feature-AllSmall :
      (p : Parsers F) (text : Bytes) → IsInt p → AllSmall (extract_feature p text).1
  unfolding extract_feature
  extract_feature-AllSmall p text h = elim (Bool-cases (find text (codes ":") 0 == npos)) [
    | inl e ↦ rw e tt
    | inr e ↦ rw e (texts_small p (split (drop (find text (codes ":") 0 + 1) text) b',') h)
  ]

module _ {F : Type 0} ⦃fl : Floats F⦄ (env : Env F) where
  finish_0-Yields : (sec : List Bytes) → IsInt env.parsers → Yields HasSmall (finish_0 env sec)
  unfolding finish_0
  finish_0-Yields sec h =
      let small = λ (text : Bytes). extract_feature-AllSmall env.parsers text h in
      search (yields, small) depth 60 fits 3000

  finish_1-Yields : (b : Behaviour) → IsInt env.parsers → Yields HasSmall (finish_1 env b)
  unfolding finish_1 Yields
  finish_1-Yields b h s = extract_feature-AllSmall env.parsers b.text h

  pub parse_sample_0-Yields :
      (raw : Bytes) → IsInt env.parsers → Yields HasSmall (parse_sample_0 env raw)
  unfolding parse_sample_0
  parse_sample_0-Yields raw h = search (yields, finish_0-Yields) depth 10

  pub parse_sample_1-Yields :
      (raw : Bytes) → IsInt env.parsers → Yields HasSmall (parse_sample_1 env raw)
  unfolding parse_sample_1
  parse_sample_1-Yields raw h = search (yields, finish_1-Yields) depth 10
