-- ===== src/Examples/Worker.antt =====
-- Runs of the learner and of the parser.
use ftrl_online_pslite.Prelude.{
  IsStrictlySorted, Elem, ◌↔◌, ℕ, ◌≡◌, ◌≤◌, ◌+◌, refl, inl, inr, some, List, [], ◌∷◌, map, length,
  arith, if◌then◌else◌,
}
use ftrl_online_pslite.Prelude.Int.{ℤ, pos, negsuc}
use ftrl_online_pslite.Prelude.Map.{Map, at_or}
use ftrl_online_pslite.Floats.{whole}
use ftrl_online_pslite.Bytes.{codes}
use ftrl_online_pslite.RecordLog.{lines_logged, lines_logged-le_one}
use ftrl_online_pslite.Condition.{Condition}
use ftrl_online_pslite.Ftrl.{Ftrl, reset_due}
use ftrl_online_pslite.Ftrl.Coord.{coord_of, coord_step, rates_of}
use ftrl_online_pslite.Ftrl.Weights.{weight_at}
use ftrl_online_pslite.Learner.{
  Learner, unique_keys, get_data, caculate_gradient, update, close_round,
}
use ftrl_online_pslite.Learner.Gradient.{sum_from, shares, caculate_gradient-map}
use ftrl_online_pslite.Learner.Keys.{features_of, unique_keys_lem}
use ftrl_online_pslite.Learner.Intake.{held, kept, get_data_lem}
use ftrl_online_pslite.Learner.Labels.{Kind}
use ftrl_online_pslite.Learner.Exclusive.{takes, takes_one}
use ftrl_online_pslite.Learner.Round.{batch_of, gradient, scored, pulled, update_lem}
use ftrl_online_pslite.Learner.Train.{has, train, train_lem}
use ftrl_online_pslite.Parser.{Parser}
use ftrl_online_pslite.Examples.{
  clock, three_keys, midnight, server, whole_parsers, worker, two_samples,
}

train_lem_example :
    (s' : Ftrl ℤ) × (train clock midnight midnight (pos 1) server worker ≡ some s')
    × ((k : ℕ)
        → coord_of k s' ≡ (
            if has k (unique_keys (batch_of worker))
            then coord_step
                (reset_due clock midnight)
                (rates_of server)
                (gradient (weight_at server.w) (batch_of worker) k)
                (coord_of k server)
            else coord_of k server))
train_lem_example =
    train_lem clock midnight midnight (pos 1) server worker (omega arith)
      (omega arith, (omega arith, (omega arith, tt))) (omega arith)

update_lem_example :
    update (map (λ k. pos k)) (pos 1) midnight worker
    ≡ some (
      close_round (pos 1) midnight (map (scored pos) (batch_of worker)) (pulled pos worker),
      some (
        unique_keys (batch_of worker),
        map (gradient pos (batch_of worker)) (unique_keys (batch_of worker)),
      ),
    )
update_lem_example =
    update_lem pos (pos 1) midnight worker (omega arith)
      (omega arith, (omega arith, (omega arith, tt))) (omega arith)

abbrev places : Map ℕ
places = (0, 0) ∷ (4, 1) ∷ (9, 2) ∷ []

abbrev zeros : ℕ → ℤ
zeros k = pos 0

caculate_gradient-map_example :
    caculate_gradient places two_samples (map zeros three_keys)
    ≡ some (map (λ k. sum_from (zeros k) (shares k two_samples)) three_keys)
unfolding at_or
caculate_gradient-map_example =
    caculate_gradient-map places (4 ∷ 9 ∷ []) two_samples zeros (omega arith, (omega arith, tt))
      (
        ((omega arith, inr (inl refl), refl), ((omega arith, inr (inr (inl refl)), refl), tt)),
        (((omega arith, inr (inr (inl refl)), refl), tt), tt),
      )

abbrev labels : List ℤ
labels = pos 1 ∷ negsuc 0 ∷ []

get_data_lem_example :
    (l' : Learner ℤ) × (get_data two_samples labels worker ≡ some l')
    × (held l'.num_sample l' ≡ kept two_samples labels)
    × (l'.num_sample ≤ length two_samples)
    × (l'.w ≡ worker.w)
get_data_lem_example =
    get_data_lem two_samples labels worker (omega arith) (omega arith)
      (omega arith, (omega arith, tt))

abbrev behaviour : Condition
behaviour = (codes "bhv_code", codes "14000003") ∷ (codes "filter", codes "0") ∷ []

takes_one_example :
    takes whole_parsers behaviour Kind.ig
      + takes whole_parsers behaviour Kind.is
      + takes whole_parsers behaviour Kind.ir
    ≤ 1
takes_one_example = takes_one whole_parsers behaviour

lines_logged-le_one_example : lines_logged (midnight ∷ midnight ∷ []) worker.recordlog ≤ 1
lines_logged-le_one_example =
    lines_logged-le_one 0 (midnight ∷ midnight ∷ []) worker.recordlog (refl, (refl, tt))

unique_keys_lem_example :
    IsStrictlySorted (unique_keys two_samples)
    × ((rest : List ℕ) × (unique_keys two_samples ≡ 0 ∷ rest))
    × ((k : ℕ) → Elem k (unique_keys two_samples) ↔ Elem k (0 ∷ features_of two_samples))
unique_keys_lem_example = unique_keys_lem two_samples
