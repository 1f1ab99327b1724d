-- ===== src/Examples/Setup.antt =====
-- Runs of `main`: the options and the learners of a worker.
use ftrl_online_pslite.Prelude.{◌+◌, ◌≡◌, refl, false, true, List, [], ◌∷◌, if◌then◌else◌}
use ftrl_online_pslite.Bytes.{codes, eq_bytes}
use ftrl_online_pslite.Main.{Opt, defaults, read_options, Ini, load_learners, wait_all, kind_of}
use ftrl_online_pslite.Main.Settings.{read_options_lem}
use ftrl_online_pslite.Main.Learners.{all_known, wait_all_lem}

abbrev options : List Opt
options = (b'i', codes "2") ∷ (b'e', codes "x") ∷ (b'i', codes "3") ∷ (b'm', codes "file") ∷ []

read_options_lem_example :
    read_options options defaults
    ≡ record { worker_idx_c = codes "3"; app_num_c = codes "1"; init_model_c = codes "file" }
read_options_lem_example = read_options_lem options

-- Two sections, of which the second names no learner.
abbrev ini : Ini
ini = record {
  opens = λ file. true;
  get = λ file section key d.
      if eq_bytes key (codes "name")
      then (if eq_bytes section (codes "learner_0") then codes "ig" else codes "iv")
      else d;
  to_string = λ n. (b'0' + n) ∷ [];
}

wait_all_lem_example :
    wait_all 2 0 (load_learners ini (codes "file") 2 0) ≡ all_known ini (codes "file") 2 0
wait_all_lem_example = wait_all_lem ini (codes "file") 2

out_of_range : wait_all 2 0 (load_learners ini (codes "file") 2 0) ≡ false
unfolding wait_all load_learners kind_of
out_of_range = refl
