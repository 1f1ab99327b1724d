-- ===== src/Examples/Texts.antt =====
-- A run of the logger.
use ftrl_online_pslite.Prelude.{List, [], ◌∷◌}
use ftrl_online_pslite.Bytes.{codes}
use ftrl_online_pslite.Logger.{Priority, Level, Logger}
use ftrl_online_pslite.Logger.Calls.{Use}

abbrev later : List Use
later = Use.text Level.at_info (codes "ready") ∷ Use.priority (Priority.other 9) ∷ []

abbrev first : Use
first = Use.priority Priority.warn
