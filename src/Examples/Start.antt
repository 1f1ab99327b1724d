-- ===== src/Examples/Start.antt =====
-- Runs of a worker's start and of the model file.
use ftrl_online_pslite.Prelude.{ℕ, ◌+◌, none, some, List, [], ◌∷◌}
use ftrl_online_pslite.Prelude.Int.{ℤ, pos, pos_part}
use ftrl_online_pslite.Prelude.Map.{Map}
use ftrl_online_pslite.Floats.{whole}
use ftrl_online_pslite.Bytes.{Bytes, codes}
use ftrl_online_pslite.Clock.{Tm}
use ftrl_online_pslite.Ftrl.{Ftrl}
use ftrl_online_pslite.Learner.Model.{Config}
use ftrl_online_pslite.PsServer.{Printer}
use ftrl_online_pslite.PsServer.Sync.{Files}
use ftrl_online_pslite.Examples.{midnight}

abbrev config : Config
config = record {
  model = some (codes "0,3\n4,5\n");
  setparam_flag = codes "1";
  alpha = codes "2";
  beta = codes "1";
  l1 = codes "0";
  l2 = codes "0";
}

-- One digit for a key and one for a weight.
abbrev printer : Printer ℤ
printer = record { show_key = λ k. (b'0' + k) ∷ []; show_weight = λ v. (b'0' + pos_part v) ∷ [] }

abbrev weights : Map ℤ
weights = (4, pos 5) ∷ (0, pos 3) ∷ []

abbrev same : ℤ → ℤ
same v = v

abbrev one_more : Map ℤ
one_more = (7, pos 2) ∷ []

abbrev digit : ℕ → Bytes
digit n = (b'0' + n) ∷ []

-- Two midnights, and one o'clock between them.
abbrev rounds : List (Tm × Map ℤ)
rounds = (midnight, weights) ∷ (record { tm_hour = 1; tm_min = 0 }, []) ∷ (midnight, one_more) ∷ []

abbrev no_files : Files
no_files name = none

abbrev at_midnight : Bytes
at_midnight = codes "m/model_0_0"
