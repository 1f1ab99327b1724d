-- ===== src/Logger.antt =====
-- src/utils/logger.h and logger.cpp: the one logger of a process, in front of log4cpp. What it does
-- is the row of its calls of log4cpp's root category.
pub mod Calls
use ftrl_online_pslite.Prelude.{ℕ, Option, none, some, List, [], ◌∷◌, ◌++◌}
use ftrl_online_pslite.Bytes.{Bytes, codes}

-- `enum Priority`, with the numbers that are none of its values.
pub data Priority : Type 0 where
  error warn info debug : Priority
  other : ℕ → Priority

-- `log4cpp::Priority`, of which these are used.
pub data Level : Type 0 where
  at_error at_warn at_info at_debug : Level

-- A call of the category.
pub data Call : Type 0 where
  set_level : Level → Call
  add_file : Bytes → Call
  write : Level → Bytes → Call
  shutdown : Call

-- `plog_`: null, or the logger, which may have been deleted.
pub data Plog : Type 0 where
  null live deleted : Plog

-- `plog_`, and the calls made so far.
pub record Logger : Type 0 where
  pub plog : Plog
  pub calls : List Call

unfoldable pub no_logger : Logger
no_logger = record { plog = null; calls = [] }

-- The constructor, with the text of the worker's number.
unfoldable pub created : Bytes → List Call
created worker_idx =
    set_level at_debug
    ∷ add_file (codes "logs/log_" ++ (worker_idx ++ codes ".txt"))
    ∷ write at_info (codes "Logger created!")
    ∷ []

-- `getInstance`
unfoldable pub get_instance : Bytes → Logger → Logger
unfolding created
get_instance worker_idx l = elim l.plog [
  | null ↦ record { plog = live; calls = l.calls ++ created worker_idx }
  | live ↦ l
  | deleted ↦ l
]

-- A call through the reference that `getInstance` gives: `none` where the logger was deleted.
unfoldable pub through : Call → Logger → Option Logger
through c l = elim l.plog [
  | null ↦ none
  | live ↦ some (record l { calls = l.calls ++ c ∷ [] })
  | deleted ↦ none
]

-- The `switch` of `setPriority`.
unfoldable pub level_of : Priority → Level
level_of error = at_error
level_of warn = at_warn
level_of info = at_info
level_of debug = at_debug
level_of (other n) = at_debug

unfoldable pub set_priority : Bytes → Priority → Logger → Option Logger
unfolding get_instance through level_of
set_priority worker_idx p l = through (set_level (level_of p)) (get_instance worker_idx l)

-- `suffix`, with the texts of `__FILE__`, `__func__` and the line.
unfoldable pub suffix : Bytes → Bytes → Bytes → Bytes → Bytes
suffix msg file func line =
    msg ++ (codes " ##" ++ (file ++ (codes ":" ++ (func ++ (codes ":" ++ (line ++ codes "##"))))))

-- The macros `ERROR`, `FATAL`, `INFO` and `DEBUG`, and the methods `error`, `warn`, `info` and
-- `debug` behind them.
unfoldable pub log : Bytes → Level → Bytes → Logger → Option Logger
unfolding get_instance through
log worker_idx level text l = through (write level text) (get_instance worker_idx l)

-- `destory`, which leaves `plog_` as it is.
unfoldable pub destory : Logger → Option Logger
destory l = elim l.plog [
  | null ↦ some l
  | live ↦ some (record {
    plog = deleted;
    calls = l.calls ++ write at_info (codes "Logger destroy") ∷ shutdown ∷ [];
  })
  | deleted ↦ none
]
