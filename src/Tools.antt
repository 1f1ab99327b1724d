-- ===== src/Tools.antt =====
-- tools/learner.h: the state of `class Learner` of the earlier program, named `Merger` here after
-- its one operation, and what that program takes from outside.
pub mod Counters
pub mod Options
pub mod Feature
pub mod Message
pub mod Merge
use ftrl_online_pslite.Prelude.{ℕ, List}
use ftrl_online_pslite.Prelude.Int.{ℤ}
use ftrl_online_pslite.Prelude.Map.{Map}
use ftrl_online_pslite.Clock.{Strftime, Tm}
use ftrl_online_pslite.StringUtil.{Parsers}
use ftrl_online_pslite.RecordLog.{RecordLog}
use ftrl_online_pslite.Verdict.{Step}

-- The members of `sample`, which common.h declares, that learner.cpp writes; `features` stands for
-- `length` and the first `length` entries of `_mem`.
pub record LogSample (F : Type 0) : Type 0 where
  pub label : ℤ
  pub ctr : F
  pub features : List ℕ

-- `appnum` is the size of `lw`. `cntl` counts in a `float`, exactly within the bounds that
-- `Tools.Merge.Queue` shows. `mutex_flag` is left out: within one call it ends as it began.
pub record Merger (F : Type 0) : Type 0 where
  pub cntl_0 : ℕ
  pub cntl_1 : ℕ
  pub proinfos : RecordLog F
  pub appnum : ℕ
  pub sample_0 : ℕ → LogSample F
  pub sample_1 : ℕ → LogSample F
  pub idx_0 : ℕ
  pub idx_1 : ℕ
  pub markid_hashmap : Map ℕ
  pub markid_hashmap0 : Map ℕ

-- What a call takes from outside; `mem_size` is the length of `_mem`, which common.h fixes.
pub record Outside (F : Type 0) : Type 0 where
  pub parsers : Parsers F
  pub crc64_table : ℕ → ℕ → ℕ
  pub strftime : Strftime
  pub localtime : ℤ → Tm
  pub time : ℤ
  pub mem_size : ℕ

abbrev pub Read : Type 0 → Type 0 → Type 0
Read F A = Step (Merger F) A
