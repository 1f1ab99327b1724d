-- ===== src/Parser/Buffer/Queues.antt =====
-- src/io/parser.cpp: what the buffers of `Process` promise: two queues, emptied into batches.
use ftrl_online_pslite.Prelude.{ℕ, ◌+◌, List, [], ◌∷◌, ◌++◌, map, length, leb, if◌then◌else◌}
use ftrl_online_pslite.Prelude.Int.{ℤ}
use ftrl_online_pslite.Learner.Labels.{Kind}
use ftrl_online_pslite.Parser.{Parser}
use ftrl_online_pslite.Parser.Buffer.{Delivery, limit_1, batch_size}
use ftrl_online_pslite.Parser.Buffer.Bounds.{content, contents, rows_of, add_each}

-- The samples that wait, without their labels, and the labels of each learner.
pub record Queues (F : Type 0) : Type 0 where
  pub impressions : List (List ℕ × F)
  pub behaviours : List (List ℕ × F)
  pub imp_labels : List (List ℤ)
  pub bhv_labels : List (List ℤ)

-- The rows of two label tables one behind the other.
abbrev pub join_each : List (List ℤ) → List (List ℤ) → List (List ℤ)
join_each [] rs = []
join_each (r ∷ rs) [] = []
join_each (r ∷ rs) (q ∷ qs) = (r ++ q) ∷ join_each rs qs

abbrev pub no_labels : List Kind → List (List ℤ)
no_labels [] = []
no_labels (k ∷ ks) = [] ∷ no_labels ks

module _ {F : Type 0} where
  abbrev pub queues_of : Parser F → Queues F
  queues_of s = record {
    impressions = contents 0 s.idx_0 s.sample_0;
    behaviours = contents 0 s.idx_1 s.sample_1;
    imp_labels = rows_of s.idx_0 0 s.lw s.ys_imp;
    bhv_labels = rows_of s.idx_1 0 s.lw s.ys_bhv;
  }

  abbrev pub no_queues : List Kind → Queues F
  no_queues ks = record {
    impressions = [];
    behaviours = [];
    imp_labels = no_labels ks;
    bhv_labels = no_labels ks;
  }

  -- A batch for each learner: its samples, and its labels.
  abbrev pub batches : List (List ℕ × F) → List (List ℤ) → List (List (List ℕ × F) × List ℤ)
  batches xs [] = []
  batches xs (r ∷ rs) = (xs, r) ∷ batches xs rs

  abbrev pub all_batches : Queues F → List (List (List ℕ × F) × List ℤ)
  all_batches q = batches (q.impressions ++ q.behaviours) (join_each q.imp_labels q.bhv_labels)

  -- A queue takes an impression; the batch of all that waits is due at a hundred samples.
  abbrev pub offer_0 :
      List Kind → List ℕ × F → List ℤ → Queues F → Queues F × List (List (List ℕ × F) × List ℤ)
  offer_0 ks x ys q =
      let more = record q {
        impressions = q.impressions ++ x ∷ [];
        imp_labels = add_each q.imp_labels ys;
      } in
      if leb batch_size (length more.behaviours + length more.impressions)
      then (no_queues ks, all_batches more)
      else (more, [])

  -- A queue takes a behaviour, unless two thousand wait.
  abbrev pub offer_1 : List ℕ × F → List ℤ → Queues F → Queues F
  offer_1 x ys q =
      if leb limit_1 (length q.behaviours)
      then q
      else record q { behaviours = q.behaviours ++ x ∷ []; bhv_labels = add_each q.bhv_labels ys }

  abbrev pub delivered : Delivery F → List (List ℕ × F) × List ℤ
  delivered d = (map content d.xs, d.ys)
