-- ===== src/SampleKafka/Partitions.antt =====
-- src/io/sample_kafka.cpp: which worker reads which partition.
use ftrl_online_pslite.Prelude.{ℕ, ◌/◌, ◌≡◌, Bool, false, ◌||◌, List, [], ◌∷◌, arith, ◌==◌}
use ftrl_online_pslite.Prelude.Int.{ℤ, pos, eq_ℤ}
use ftrl_online_pslite.SampleKafka.{imp_parts, bhv_parts}

abbrev pub reads : ℤ → List ℤ → Bool
reads p [] = false
reads p (q ∷ qs) = eq_ℤ p q || reads p qs

-- A worker reads those four partitions of the impressions whose number divided by four is its own,
-- and of the behaviours the partition of its number: every partition has exactly one worker.
pub parts_lem :
    (w p : ℕ)
    → (reads (pos p) (imp_parts 4 0 (pos w)) ≡ (p / 4 == w))
      × (reads (pos p) (bhv_parts (pos w)) ≡ (p == w))
unfolding imp_parts bhv_parts
parts_lem w p = (ground arith, ground arith)
