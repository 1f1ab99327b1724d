-- ===== src/Examples/Repeat.antt =====
-- A run of the parser on an impression that comes twice.
use ftrl_online_pslite.Prelude.{Option, some, none, [], ◌∷◌}
use ftrl_online_pslite.Prelude.Int.{ℤ, pos}
use ftrl_online_pslite.Floats.{whole}
use ftrl_online_pslite.Bytes.{codes}
use ftrl_online_pslite.Learner.Labels.{Kind}
use ftrl_online_pslite.Parser.{Parser}
use ftrl_online_pslite.Parser.Buffer.{new_parser}
use ftrl_online_pslite.Parser.Buffer.Run.{process_all}
use ftrl_online_pslite.Parser.Message.{parse_sample_0}
use ftrl_online_pslite.Examples.{env, sample_a}
use ftrl_online_pslite.Verdict.{Verdict}
use ftrl_online_pslite.Parser.Message.{Parsed}
use ftrl_online_pslite.Examples.Stream.{impression}

abbrev start : Parser ℤ
unfolding new_parser
start = new_parser (Kind.ig ∷ []) (λ i. sample_a) (λ i j. pos 0)

abbrev parsed_or : Verdict (Parsed ℤ) → Parsed ℤ
parsed_or (Verdict.going a) = a
parsed_or _ = (pos 0, [], [])

abbrev first : Parser ℤ × Verdict (Parsed ℤ)
first = parse_sample_0 env impression start

abbrev or_start : Option (Parser ℤ) → Parser ℤ
or_start none = start
or_start (some s) = s

abbrev between : Parser ℤ
between = or_start (process_all env ((codes "short", 1) ∷ []) first.0)
