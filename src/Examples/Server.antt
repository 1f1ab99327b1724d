-- ===== src/Examples/Server.antt =====
-- Runs of the parameter server.
use ftrl_online_pslite.Prelude.{
  ℕ, ◌≡◌, ◌+◌, ◌%◌, ◌^◌, refl, false, true, some, List, [], ◌∷◌, map, length, replicate, arith,
  if◌then◌else◌,
}
use ftrl_online_pslite.Prelude.Int.{ℤ, pos}
use ftrl_online_pslite.Floats.{whole}
use ftrl_online_pslite.Clock.{Tm}
use ftrl_online_pslite.Ftrl.{
  Ftrl, Request, replied, update, reset_due, handle_request, start, set_weight, set_weight_loop,
  set_weight_key, read_weights, nought,
}
use ftrl_online_pslite.Prelude.Map.{at_or, insert, touch}
use ftrl_online_pslite.Ftrl.Coord.{coord_of, coord_run, sent_to, rates_of, update-coord_run}
use ftrl_online_pslite.Ftrl.Reset.{update_count}
use ftrl_online_pslite.Ftrl.History.{serve, any_load, flag_pull}
use ftrl_online_pslite.Ftrl.Weights.{
  weight_at, last_or, handle_request-pull, set_weight_lem, pull-push,
}
use ftrl_online_pslite.Examples.{clock, clock-IsStandard, midnight, server, three_keys, three_vals}

abbrev repeated_keys : List ℕ
repeated_keys = 4 ∷ 0 ∷ 4 ∷ []

update-coord_run_example :
    (s' : Ftrl ℤ) × (update false repeated_keys three_vals server ≡ some s')
    × (rates_of s' ≡ rates_of server)
    × (s'.set_flag ≡ false)
    × ((k : ℕ)
        → coord_of k s'
          ≡ coord_run false
              (rates_of server)
              (sent_to k repeated_keys three_vals)
              (coord_of k server))
update-coord_run_example = update-coord_run false repeated_keys three_vals server refl

update_count_example :
    (s' : Ftrl ℤ) × (update (reset_due clock midnight) repeated_keys three_vals server ≡ some s')
    × ((coord_of 4 s').count
        ≡ ((coord_of 4 server).count + length (sent_to 4 repeated_keys three_vals)) % 2 ^ 64)
unfolding at_or
update_count_example =
    update_count clock midnight repeated_keys three_vals server 4 clock-IsStandard refl
      (omega arith)

abbrev pull_three : Request ℤ
pull_three = record { push = false; cmd = 0; keys = three_keys; vals = [] }

handle_request-pull_example :
    (s' : Ftrl ℤ) × (handle_request clock midnight pull_three server
      ≡ replied s' three_keys (map (weight_at server.w) three_keys))
    × (rates_of s' ≡ rates_of server)
    × (s'.set_flag ≡ false)
    × ((k : ℕ) → coord_of k s' ≡ coord_of k server)
handle_request-pull_example =
    handle_request-pull clock midnight pull_three server refl (omega arith)

set_weight_lem_example :
    (s' : Ftrl ℤ) × (set_weight repeated_keys three_vals server ≡ some s')
    × (s'.set_flag ≡ true)
    × (s'.z ≡ server.z)
    × (s'.n ≡ server.n)
    × ((k : ℕ)
        → weight_at s'.w k ≡ last_or (weight_at server.w k) (sent_to k repeated_keys three_vals))
set_weight_lem_example = set_weight_lem repeated_keys three_vals server refl

pull-push_example :
    (s' : Ftrl ℤ) × (s'' : Ftrl ℤ) × (handle_request clock midnight
        (record { push = true; cmd = 1; keys = three_keys; vals = three_vals })
        server
      ≡ replied s' three_keys [])
    × (handle_request clock midnight
          (record { push = false; cmd = 0; keys = three_keys; vals = [] })
          s'
        ≡ replied s'' three_keys three_vals)
pull-push_example =
    pull-push clock midnight midnight three_keys three_vals server (omega arith, omega arith) refl

abbrev load : Request ℤ
load = record { push = true; cmd = 1; keys = 0 ∷ []; vals = pos 3 ∷ [] }

abbrev run : List (Tm × Request ℤ)
run = (midnight, pull_three) ∷ (midnight, load) ∷ []

abbrev served : Ftrl ℤ
served = record server {
  set_flag = true;
  w = (0, pos 3) ∷ (4, pos 0) ∷ (9, pos 0) ∷ [];
  acc = (0, 1000000) ∷ [];
}

abbrev further : List ℕ
further = 2 ∷ []

flag_pull_example :
    handle_request clock midnight
      (record { push = false; cmd = 1; keys = 1 ∷ further; vals = [] })
      served
    ≡ replied served
        (1 ∷ further)
        ((if any_load run then nought else pos 1) ∷ replicate (length further) nought)
unfolding serve handle_request set_weight start set_weight_loop set_weight_key insert read_weights
    touch
flag_pull_example =
    flag_pull clock (pos 1) (pos 1) (pos 0) (pos 0) run midnight 1 further {s = served} refl
