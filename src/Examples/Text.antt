-- ===== src/Examples/Text.antt =====
-- Runs of the functions on texts.
use ftrl_online_pslite.Prelude.{List, [], ◌∷◌}
use ftrl_online_pslite.Bytes.{Bytes, codes}
use ftrl_online_pslite.Floats.{whole}

abbrev fields : List Bytes
fields = codes "ab" ∷ codes "c" ∷ []
