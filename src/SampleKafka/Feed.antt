-- ===== src/SampleKafka/Feed.antt =====
-- src/io/sample_kafka.cpp with message_kafka.cpp and parser.cpp: a thread of Kafka messages and the
-- parser behind it.
use ftrl_online_pslite.Prelude.{
  ℕ, ◌≡◌, refl, sym, ◌∙◌, none, some, List, [], ◌∷◌, map, Option-cases, inl, inr, ◌++◌,
}
use ftrl_online_pslite.Prelude.Int.{ℤ}
use ftrl_online_pslite.Floats.{Floats}
use ftrl_online_pslite.Bytes.{Bytes}
use ftrl_online_pslite.Sample.{Sample}
use ftrl_online_pslite.Learner.Labels.{Kind}
use ftrl_online_pslite.Parser.{Parser, Env}
use ftrl_online_pslite.Parser.Buffer.{Delivery, process, new_parser}
use ftrl_online_pslite.Parser.Buffer.Bounds.{IsBuffered}
use ftrl_online_pslite.Parser.Buffer.Run.{process_all, process_all-new_parser}
use ftrl_online_pslite.Kafka.{Message, Turn, MessageKafka, hour_loop, fresh}
use ftrl_online_pslite.Kafka.Hour.{deliver, hour_loop_lem, messages_of}
use ftrl_online_pslite.SampleKafka.{callback_shell}

module _ {F : Type 0} ⦃fl : Floats F⦄ (env : Env F) where
  abbrev calls : ℕ → List Message → List (Bytes × ℕ)
  calls param ms = map (λ m. (m.payload, param)) ms

  deliver-none : (param : ℕ) (ms : List Message) → deliver (callback_shell env) param ms none ≡ none
  unfolding callback_shell
  deliver-none param [] = refl
  deliver-none param (m ∷ ms) = deliver-none param ms

  -- The callback runs the parser over the messages.
  deliver-process_all :
      (param : ℕ) (ms : List Message) (s s' : Parser F) (ds ds' : List (Delivery F))
      → deliver (callback_shell env) param ms (some (s, ds)) ≡ some (s', ds')
      → process_all env (calls param ms) s ≡ some s'
  unfolding process_all callback_shell
  deliver-process_all param [] s s' ds ds' h = cc
  deliver-process_all param (m ∷ ms) s s' ds ds' h =
      elim (Option-cases (process env m.payload param s)) [
        | inl e ↦ let stuck = sym (deliver-none param ms) ∙ (rw (callback_shell, e) at h) in cc
        | inr ((s1, more), e) ↦
            rw (process_all, e)
              (deliver-process_all param ms s1 s' (ds ++ more) ds' (rw (callback_shell, e) at h))
      ]

  -- An hour of polls, fed to a new parser by one thread, leaves it within its bounds, if no access
  -- was out of bounds.
  pub hour_loop-IsBuffered :
      (k : MessageKafka) (start : ℤ) (turns : List Turn) (lws : List Kind) (samples : ℕ → Sample F)
      (labels : ℕ → ℕ → ℤ) (s' : Parser F) (ds : List (Delivery F))
      → (hour_loop
          (callback_shell env)
          k.param
          start
          turns
          (fresh k start (some (new_parser lws samples labels, [])))).0.target
        ≡ some (s', ds)
      → IsBuffered s' × (s'.lw ≡ lws)
  hour_loop-IsBuffered k start turns lws samples labels s' ds h =
      let c = fresh k start (some (new_parser lws samples labels, [])) in
      let (taken, front, (target, slots), over) =
        hour_loop_lem (callback_shell env) k.param start turns c in
      process_all-new_parser env lws samples labels (calls k.param (messages_of taken)) (
        deliver-process_all k.param (messages_of taken) (new_parser lws samples labels) s' [] ds
          (sym target ∙ h))
