-- ===== src/Condition.antt =====
-- The `unordered_map<string, string>` in which the parser hands the fields of a message to the
-- learners. Reading a missing key puts the empty text in; no later read can tell, since the one key
-- that is looked up by `find`, `bid_type`, is only read where it is present.
use ftrl_online_pslite.Prelude.{Bool, true, false, List, [], ◌∷◌, if◌then◌else◌}
use ftrl_online_pslite.Bytes.{Bytes, eq_bytes}

abbrev pub Condition : Type 0
Condition = List (Bytes × Bytes)

-- `condition[key]`
unfoldable pub field : Bytes → Condition → Bytes
field key [] = []
field key ((k, v) ∷ c) = if eq_bytes k key then v else field key c

-- `condition.find(key) != condition.end()`
unfoldable pub has_field : Bytes → Condition → Bool
has_field key [] = false
has_field key ((k, v) ∷ c) = if eq_bytes k key then true else has_field key c
