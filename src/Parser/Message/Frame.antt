-- ===== src/Parser/Message/Frame.antt =====
-- src/io/parser.cpp: what the two parsers leave alone.
use ftrl_online_pslite.Prelude.{ℕ, List}
use ftrl_online_pslite.Prelude.Int.{ℤ}
use ftrl_online_pslite.Floats.{Floats}
use ftrl_online_pslite.Bytes.{Bytes}
use ftrl_online_pslite.Sample.{Sample}
use ftrl_online_pslite.Learner.Labels.{Kind}
use ftrl_online_pslite.Verdict.Frame.{View, View, Frames, frames, modify-Frames, guard_at-Frames}
use ftrl_online_pslite.Parser.{Parser, Env}
use ftrl_online_pslite.Parser.Message.{
  impression_0, open_0, finish_0, parse_sample_0, open_1, head_1, rank_1, finish_1, parse_sample_1,
  first_seen0, first_seen1,
}

-- The fields of a parser other than its log and its maps of seen messages.
pub record Buffers (F : Type 0) : Type 0 where
  pub cntl_0 : ℕ
  pub cntl_1 : ℕ
  pub lw : List Kind
  pub idx_0 : ℕ
  pub idx_1 : ℕ
  pub sample_0 : ℕ → Sample F
  pub sample_1 : ℕ → Sample F
  pub ys_imp : ℕ → ℕ → ℤ
  pub ys_bhv : ℕ → ℕ → ℤ

module _ {F : Type 0} where
  unfoldable pub buffers : Parser F → Buffers F
  buffers s = record {
    cntl_0 = s.cntl_0;
    cntl_1 = s.cntl_1;
    lw = s.lw;
    idx_0 = s.idx_0;
    idx_1 = s.idx_1;
    sample_0 = s.sample_0;
    sample_1 = s.sample_1;
    ys_imp = s.ys_imp;
    ys_bhv = s.ys_bhv;
  }

instance unfoldable pub shown : {F : Type 0} → View (Parser F)
shown {F = F} = record { Shown = Buffers F; view = buffers }

module _ {F : Type 0} ⦃fl : Floats F⦄ (env : Env F) where
  open_0-Frames : (msg : Bytes) → Frames (open_0 env msg)
  unfolding open_0 Frames
  open_0-Frames msg = search frames depth 60 fits 3000

  head_1-Frames : (msg : Bytes) → Frames (head_1 env msg)
  unfolding head_1 Frames
  head_1-Frames msg = search frames depth 60 fits 3000

  rank_1-Frames :
      (array common extend : List Bytes) (code filter : Bytes)
      → Frames (rank_1 env array common extend code filter)
  unfolding rank_1 Frames
  rank_1-Frames array common extend code filter = search frames depth 60 fits 3000

  open_1-Frames : (msg : Bytes) → Frames (open_1 env msg)
  unfolding open_1 Frames
  open_1-Frames msg = search (frames, head_1-Frames, rank_1-Frames) depth 10

  finish_0-Frames : (sec : List Bytes) → Frames (finish_0 env sec)
  unfolding finish_0 Frames
  finish_0-Frames sec = search frames depth 60 fits 3000

  first_seen0-Frames : (markid : Bytes) → Frames (first_seen0 env markid)
  unfolding first_seen0 Frames buffers shown
  first_seen0-Frames markid = search (frames, modify-Frames, guard_at-Frames) depth 10

  first_seen1-Frames : (markid : Bytes) → Frames (first_seen1 env markid)
  unfolding first_seen1 Frames buffers shown
  first_seen1-Frames markid = search (frames, modify-Frames, guard_at-Frames) depth 10

  impression_0-Frames : (raw : Bytes) → Frames (impression_0 env raw)
  unfolding impression_0 Frames buffers shown
  impression_0-Frames raw = search (frames, open_0-Frames, modify-Frames) depth 30

  pub parse_sample_0-Frames : (raw : Bytes) → Frames (parse_sample_0 env raw)
  unfolding parse_sample_0 Frames
  parse_sample_0-Frames raw =
      search (frames, impression_0-Frames, first_seen0-Frames, finish_0-Frames) depth 30

  pub parse_sample_1-Frames : (raw : Bytes) → Frames (parse_sample_1 env raw)
  unfolding parse_sample_1 Frames finish_1 buffers shown
  parse_sample_1-Frames raw =
      search (frames, open_1-Frames, first_seen1-Frames, modify-Frames) depth 30
