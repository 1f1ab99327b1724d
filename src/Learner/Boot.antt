-- ===== src/Learner/Boot.antt =====
-- src/core/learner.cpp and src/optimizer/ftrl.cpp together: a worker that starts against a server.
use ftrl_online_pslite.Prelude.{Bool, Option, some, none, [], ◌∷◌, if◌then◌else◌}
use ftrl_online_pslite.Prelude.Int.{pos}
use ftrl_online_pslite.Prelude.Map.{Map}
use ftrl_online_pslite.Floats.{Floats}
use ftrl_online_pslite.Clock.{Strftime, Tm}
use ftrl_online_pslite.StringUtil.{Parsers}
use ftrl_online_pslite.Ftrl.{Ftrl, Outcome, replied, nought, handle_request}
use ftrl_online_pslite.Ftrl.History.{serve}
use ftrl_online_pslite.Learner.Model.{Config, boot, load_model, flag_request}
use ftrl_online_pslite.Learner.Requests.{timed}

module _ {F : Type 0} ⦃fl : Floats F⦄ (strftime : Strftime) (t : Tm) (p : Parsers F)
    (c : Config) where
  abbrev with_weights : Map F → Option (Ftrl F) → Option (Map F × Ftrl F)
  with_weights w none = none
  with_weights w (some s) = some (w, s)

  unfoldable pub go_on : F → Ftrl F → Option (Map F × Ftrl F)
  go_on answer s = let (w, rs) = boot p c answer in with_weights w (serve strftime (timed t rs) s)

  abbrev after_answer : Outcome F → Option (Map F × Ftrl F)
  after_answer (replied s keys (answer ∷ rest)) = go_on answer s
  after_answer _ = none

  -- The constructor against one server, all of whose requests are handled at the time `t`.
  unfoldable pub start_worker : Ftrl F → Option (Map F × Ftrl F)
  start_worker s = after_answer (handle_request strftime t (flag_request p c) s)

  -- The server once a worker that loads its model has started.
  abbrev loaded : Map F
  loaded = (load_model p c.model []).0

  abbrev answer_for : Bool → F
  answer_for flag = if flag then nought else fl.of_int (pos 1)
