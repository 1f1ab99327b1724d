-- ===== src/Tools/Message/Frame.antt =====
-- tools/learner.cpp: what the two parsers leave alone.
use ftrl_online_pslite.Prelude.{ℕ, refl, Bool-cases, inl, inr, List, ◌==◌, ltb, length, ◌+◌}
use ftrl_online_pslite.Floats.{Floats}
use ftrl_online_pslite.Bytes.{Bytes}
use ftrl_online_pslite.StringUtil.{find, npos}
use ftrl_online_pslite.Verdict.Frame.{View, Frames, frames, modify-Frames, guard_at-Frames}
use ftrl_online_pslite.Tools.{Merger, LogSample, Outside}
use ftrl_online_pslite.Tools.Message.{
  open_0, finish_0, parse_sample_0, head_1, rank_1, finish_1, parse_sample_1, first_seen0,
  first_seen1, open_1, Reaction,
}
use ftrl_online_pslite.Tools.Feature.{text_after, fusion_features, extract_feature, filtermsg}

-- The fields of a merger other than its counters for the log and its maps of seen messages.
pub record Buffers (F : Type 0) : Type 0 where
  pub cntl_0 : ℕ
  pub cntl_1 : ℕ
  pub appnum : ℕ
  pub sample_0 : ℕ → LogSample F
  pub sample_1 : ℕ → LogSample F
  pub idx_0 : ℕ
  pub idx_1 : ℕ

unfoldable pub buffers : {F : Type 0} → Merger F → Buffers F
buffers s = record {
  cntl_0 = s.cntl_0;
  cntl_1 = s.cntl_1;
  appnum = s.appnum;
  sample_0 = s.sample_0;
  sample_1 = s.sample_1;
  idx_0 = s.idx_0;
  idx_1 = s.idx_1;
}

instance unfoldable pub shown : {F : Type 0} → View (Merger F)
shown {F = F} = record { Shown = Buffers F; view = buffers }

module _ {F : Type 0} ⦃fl : Floats F⦄ (out : Outside F) where
  text_after-Frames : (first : ℕ) (s : Bytes) → Frames (text_after out first s)
  unfolding Frames
  text_after-Frames first s m = elim (Bool-cases (ltb (length s) (first + 11))) [
    | inl e ↦ rw e refl
    | inr e ↦ rw e refl
  ]

  fusion_features-Frames : (first : ℕ) (s : Bytes) → Frames (fusion_features out first s)
  unfolding fusion_features Frames
  fusion_features-Frames first s = search (frames, text_after-Frames) depth 20

  extract_feature-Frames : (s : Bytes) → Frames (extract_feature out s)
  unfolding extract_feature Frames
  extract_feature-Frames s m = elim (Bool-cases (find s filtermsg 0 == npos)) [
    | inl e ↦ rw (extract_feature, e) refl
    | inr e ↦ rw (extract_feature, e) (fusion_features-Frames (find s filtermsg 0) s m)
  ]

  open_0-Frames : (msg : Bytes) → Frames (open_0 out msg)
  unfolding open_0 Frames
  open_0-Frames msg = search frames depth 60 fits 3000

  finish_0-Frames : (sec : List Bytes) → Frames (finish_0 out sec)
  unfolding finish_0 Frames
  finish_0-Frames sec = search (frames, extract_feature-Frames) depth 60 fits 3000

  head_1-Frames : (msg : Bytes) → Frames (head_1 out msg)
  unfolding head_1 Frames
  head_1-Frames msg = search frames depth 60 fits 3000

  rank_1-Frames :
      (array common extend : List Bytes) (code filter : Bytes)
      → Frames (rank_1 out array common extend code filter)
  unfolding rank_1 Frames
  rank_1-Frames array common extend code filter = search frames depth 60 fits 3000

  first_seen0-Frames : (markid : Bytes) → Frames (first_seen0 out markid)
  unfolding first_seen0 Frames buffers shown
  first_seen0-Frames markid = search (frames, modify-Frames, guard_at-Frames) depth 10

  first_seen1-Frames : (markid : Bytes) → Frames (first_seen1 out markid)
  unfolding first_seen1 Frames buffers shown
  first_seen1-Frames markid = search (frames, modify-Frames, guard_at-Frames) depth 10

  pub parse_sample_0-Frames : (raw : Bytes) → Frames (parse_sample_0 out raw)
  unfolding parse_sample_0 Frames buffers shown
  parse_sample_0-Frames raw =
      search (frames, open_0-Frames, first_seen0-Frames, finish_0-Frames, modify-Frames) depth 30

  open_1-Frames : (msg : Bytes) → Frames (open_1 out msg)
  unfolding open_1 Frames
  open_1-Frames msg = search (frames, head_1-Frames, rank_1-Frames) depth 10

  finish_1-Frames : (b : Reaction) → Frames (finish_1 out b)
  unfolding finish_1 Frames
  finish_1-Frames b = search (frames, extract_feature-Frames) depth 20

  pub parse_sample_1-Frames : (raw : Bytes) → Frames (parse_sample_1 out raw)
  unfolding parse_sample_1 Frames buffers shown
  parse_sample_1-Frames raw =
      search (frames, open_1-Frames, first_seen1-Frames, finish_1-Frames, modify-Frames) depth 30
