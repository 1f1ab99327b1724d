-- ===== src/PsServer/Appended.antt =====
-- src/core/ps_server.cpp and learner.cpp: a file that several rounds appended to, loaded by a
-- learner.
use ftrl_online_pslite.Prelude.{ℕ, ◌≤◌, Option, some, List, [], ◌∷◌, ◌++◌, length, if◌then◌else◌}
use ftrl_online_pslite.Prelude.Map.{Map, at_or}
use ftrl_online_pslite.Floats.{Floats}
use ftrl_online_pslite.Bytes.{Bytes, eq_bytes}
use ftrl_online_pslite.Clock.{Tm}
use ftrl_online_pslite.StringUtil.{Parsers}
use ftrl_online_pslite.PsServer.{Printer, saved_model}
use ftrl_online_pslite.PsServer.Saved.{AllReadable, rounded_map}
use ftrl_online_pslite.PsServer.Sync.{text_of, file_name}

module _ {F : Type 0} (pr : Printer F) where
  -- The models one behind the other.
  abbrev pub all_saved : List (Map F) → Bytes
  all_saved [] = []
  all_saved (w ∷ ws) = saved_model pr w ++ all_saved ws

  -- The models of the rounds that write to the file of a name.
  abbrev pub saves_to : (ℕ → Bytes) → Bytes → Bytes → List (Tm × Map F) → List (Map F)
  saves_to to_string save_path name [] = []
  saves_to to_string save_path name ((t, w) ∷ rest) =
      let on = saves_to to_string save_path name rest in
      if eq_bytes name (file_name pr to_string save_path t) then w ∷ on else on

  -- A file once models were appended to it.
  abbrev appended : Option Bytes → List (Map F) → Option Bytes
  appended file [] = file
  appended file (w ∷ ws) = some (text_of file ++ all_saved (w ∷ ws))

module _ {F : Type 0} (p : Parsers F) (pr : Printer F) (rounded : F → F) where
  -- A model that can be written in full and read back.
  abbrev pub IsSaveable : Map F → Type 0
  IsSaveable w = (length w ≤ 10000000) × AllReadable p pr rounded w

-- The weight of a key in the last of the models that has it.
abbrev pub newest : {F : Type 0} → (F → F) → ℕ → List (Map F) → F → F
newest rounded j [] d = d
newest rounded j (w ∷ ws) d = newest rounded j ws (at_or d j (rounded_map rounded w))
