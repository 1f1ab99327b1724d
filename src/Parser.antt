-- ===== src/Parser.antt =====
-- src/io/parser.h: the state of `class Parser`, and the steps of which its parsers are made.
pub mod Crc
pub mod Feature
pub mod Message
pub mod Buffer
pub mod Threads
use ftrl_online_pslite.Prelude.{
  ℕ, zero, suc, ◌+◌, ◌≡◌, refl, Bool, true, false, Option, none, some, List, [], ◌∷◌, get_elem?,
  leb, ltb, ◌==◌, if◌then◌else◌, length, ◌&&◌,
}
use ftrl_online_pslite.Prelude.Int.{ℤ, pos}
use ftrl_online_pslite.Prelude.Map.{Map, at_or, insert}
use ftrl_online_pslite.Bytes.{Bytes}
use ftrl_online_pslite.Clock.{Strftime, Tm}
use ftrl_online_pslite.StringUtil.{Parsers}
use ftrl_online_pslite.RecordLog.{RecordLog}
use ftrl_online_pslite.Sample.{Sample}
use ftrl_online_pslite.Condition.{Condition}
use ftrl_online_pslite.Verdict.{Step}
use ftrl_online_pslite.Learner.Labels.{Kind}

-- The fields of `class Parser`. `cntl` counts in a `float`, which is exact far beyond the bounds
-- that `Parser.Buffer` shows; `ys_imp i` and `ys_bhv i` are the rows of learner `i`. `mutex_flag`
-- is left out: within one call it ends as it began.
pub record Parser (F : Type 0) : Type 0 where
  pub cntl_0 : ℕ
  pub cntl_1 : ℕ
  pub recordlog : RecordLog F
  pub lw : List Kind
  pub idx_0 : ℕ
  pub idx_1 : ℕ
  pub sample_0 : ℕ → Sample F
  pub sample_1 : ℕ → Sample F
  pub ys_imp : ℕ → ℕ → ℤ
  pub ys_bhv : ℕ → ℕ → ℤ
  pub markid_hashmap : Map ℕ
  pub markid_hashmap0 : Map ℕ

-- What a call takes from outside: the C library, the table of util.cpp, and the time.
pub record Env (F : Type 0) : Type 0 where
  pub parsers : Parsers F
  pub crc64_table : ℕ → ℕ → ℕ
  pub strftime : Strftime
  pub localtime : ℤ → Tm
  pub time : ℤ

abbrev pub Parse : Type 0 → Type 0 → Type 0
Parse F A = Step (Parser F) A
