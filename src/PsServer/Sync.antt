-- ===== src/PsServer/Sync.antt =====
-- src/core/ps_server.cpp: the rounds of `SyncToRedis`, and the files that they append to. The
-- directory is taken to be there, so that the file opens.
use ftrl_online_pslite.Prelude.{ℕ, Option, none, some, List, [], ◌∷◌, ◌++◌, if◌then◌else◌}
use ftrl_online_pslite.Prelude.Map.{Map}
use ftrl_online_pslite.Bytes.{Bytes, codes, eq_bytes}
use ftrl_online_pslite.Clock.{Tm}
use ftrl_online_pslite.PsServer.{Printer, saved_model}

-- The text of each file, `none` where there is no file.
abbrev pub Files : Type 0
Files = Bytes → Option Bytes

abbrev pub text_of : Option Bytes → Bytes
text_of none = []
text_of (some text) = text

-- `ofstream outfile(file,ios::app)`, and what is written to it.
abbrev pub append_to : Bytes → Bytes → Files → Files
append_to file text files name =
    if eq_bytes name file then some (text_of (files name) ++ text) else files name

module _ {F : Type 0} (pr : Printer F) (to_string : ℕ → Bytes) (save_path : Bytes) where
  -- The name of the file, which has the hour and the minute.
  abbrev pub file_name : Tm → Bytes
  file_name t =
      save_path ++ (codes "/model_" ++ (to_string t.tm_hour ++ (codes "_" ++ to_string t.tm_min)))

  -- The rounds, each with its time and the weights that it reads.
  unfoldable pub sync_to_redis : List (Tm × Map F) → Files → Files
  sync_to_redis [] files = files
  sync_to_redis ((t, w) ∷ rest) files =
      sync_to_redis rest (append_to (file_name t) (saved_model pr w) files)
