-- ===== src/Parser/Buffer/Repeat.antt =====
-- src/io/parser.cpp: a repeated impression over all calls of `Process`.
use ftrl_online_pslite.Prelude.{ℕ, ◌≡◌}
use ftrl_online_pslite.Prelude.Map.{Map}
use ftrl_online_pslite.Floats.{Floats}
use ftrl_online_pslite.Bytes.{Bytes}
use ftrl_online_pslite.Condition.{Condition}
use ftrl_online_pslite.Verdict.{Verdict}
use ftrl_online_pslite.Parser.{Parser}

module _ {F : Type 0} where
  -- The map of a result is the given one.
  abbrev HasMap : {A : Type 0} → Map ℕ → Parser F × A → Type 0
  HasMap m r = r.0.markid_hashmap0 ≡ m
