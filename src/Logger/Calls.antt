-- ===== src/Logger/Calls.antt =====
-- src/utils/logger.cpp: what log4cpp gets, and the logger once it was destroyed.
use ftrl_online_pslite.Prelude.{Option, none, some, List, [], ◌∷◌}
use ftrl_online_pslite.Bytes.{Bytes, codes}
use ftrl_online_pslite.Logger.{
  Priority, Level, at_info, Call, set_level, write, shutdown, live, Logger, level_of, set_priority,
  log,
}

-- What the program asks of the logger.
pub data Use : Type 0 where
  text : Level → Bytes → Use
  priority : Priority → Use

abbrev pub call_of : Use → Call
unfolding level_of
call_of (text level msg) = write level msg
call_of (priority p) = set_level (level_of p)

-- A logger that log4cpp got these calls from.
abbrev pub made : List Call → Logger
made calls = record { plog = live; calls = calls }

abbrev pub last_calls : List Call
last_calls = write at_info (codes "Logger destroy") ∷ shutdown ∷ []

module _ (worker_idx : Bytes) where
  unfoldable pub use_logger : Use → Logger → Option Logger
  unfolding log set_priority
  use_logger (text level msg) l = log worker_idx level msg l
  use_logger (priority p) l = set_priority worker_idx p l

  unfoldable pub use_all : List Use → Logger → Option Logger
  use_all [] l = some l
  use_all (u ∷ us) l = elim (use_logger u l) [ none ↦ none | some l' ↦ use_all us l' ]
