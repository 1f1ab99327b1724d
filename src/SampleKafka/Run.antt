-- ===== src/SampleKafka/Run.antt =====
-- src/io/sample_kafka.cpp with message_kafka.cpp, parser.cpp, learner.cpp and ftrl.cpp: a thread of
-- Kafka messages from its start to its end, and what becomes of its batches.
use ftrl_online_pslite.Prelude.{
  ℕ, ◌+◌, ◌≤◌, ◌<◌, ◌≡◌, true, none, some, List, [], ◌∷◌, ◌++◌, length, Option-cases, inl, inr, All,
  All-append, IfSome,
}
use ftrl_online_pslite.Floats.{Floats}
use ftrl_online_pslite.Bytes.{Bytes}
use ftrl_online_pslite.Clock.{Strftime, Tm}
use ftrl_online_pslite.Ftrl.{Ftrl}
use ftrl_online_pslite.Learner.{Learner}
use ftrl_online_pslite.Parser.{Parser, Env}
use ftrl_online_pslite.Parser.Message.Small.{IsInt}
use ftrl_online_pslite.Parser.Buffer.{Delivery, process}
use ftrl_online_pslite.Parser.Buffer.Bounds.{IsBuffered}
use ftrl_online_pslite.Parser.Buffer.Run.{process-IsKept}
use ftrl_online_pslite.Parser.Buffer.Fit.{HoldsSound}
use ftrl_online_pslite.Parser.Buffer.Accept.{Trains, All-Fits-Trains}
use ftrl_online_pslite.Parser.Buffer.Trained.{process-AllFits}
use ftrl_online_pslite.Kafka.{Message, Turn, MessageKafka}
use ftrl_online_pslite.Kafka.Hour.{deliver, messages_of}
use ftrl_online_pslite.Kafka.Rounds.{Head, Report, process_topic}
use ftrl_online_pslite.Kafka.Ends.{process_topic_ends}
use ftrl_online_pslite.SampleKafka.{Fed, callback_shell}

module _ {F : Type 0} ⦃fl : Floats F⦄ (env : Env F) where
  module _ (strftime : Strftime) (t u : Tm) (timeuse : F) (server : Ftrl F) (l : Learner F) where
    -- The parser keeps to its bounds and holds sound samples, and every batch that was handed out
    -- trains the server.
    abbrev pub IsFed : Parser F × List (Delivery F) → Type 0
    IsFed r = IsBuffered r.0 × HoldsSound r.0 × All (Trains strftime t u timeuse server l) r.1

    callback_shell-IsFed :
        (payload : Bytes) (param : ℕ) (s : Parser F) (ds : List (Delivery F))
        → IsInt env.parsers
        → IsFed (s, ds)
        → IfSome IsFed (callback_shell env payload param (some (s, ds)))
    unfolding callback_shell
    callback_shell-IsFed payload param s ds int (b, h, all) =
        elim (Option-cases (process env payload param s)) [
          | inl e ↦ rw (callback_shell, e) tt
          | inr ((s1, more), e) ↦
              let (sound, fits) = process-AllFits env payload param s int b h e in
              rw (callback_shell, e)
                (
                  (process-IsKept env payload param s b e).0,
                  sound,
                  All-append (Trains strftime t u timeuse server l) ds more all
                      (All-Fits-Trains strftime t u timeuse server l more fits),
                )
        ]

    deliver-IsFed :
        (param : ℕ) (ms : List Message) (o : Fed F)
        → IsInt env.parsers
        → IfSome IsFed o
        → IfSome IsFed (deliver (callback_shell env) param ms o)
    unfolding callback_shell
    deliver-IsFed param [] o int h = h
    deliver-IsFed param (m ∷ ms) none int h = deliver-IsFed param ms none int tt
    deliver-IsFed param (m ∷ ms) (some (s, ds)) int h =
        deliver-IsFed param ms (callback_shell env m.payload param (some (s, ds))) int
          (callback_shell-IsFed m.payload param s ds int h)

    -- If `atoi` returns an `int`: let a thread of Kafka messages feed a parser whose buffers keep to
    -- their bounds and whose waiting samples are sound, and let the exit flag read as set at some
    -- turn, and at every top of the outer loop behind it, with a message at that turn or later. Then
    -- the thread ends after at most two rounds more than there are turns in front of the flag.
    -- Unless a message made an access out of bounds, the buffers keep to their bounds and hold sound
    -- samples, and each batch that was handed out is taken over by `GetData` of any learner, which
    -- keeps the samples whose label is not -1; unless it keeps none, its round with any server ends
    -- and moves every key of the samples kept, and key 0, by one FTRL step, and no other key.
    pub process_topic-IsFed :
        (k : MessageKafka) (heads : List Turn → Head) (n : ℕ) (early : List Turn) (flagged : Turn)
        (later : List Turn) (s : Parser F)
        → IsInt env.parsers
        → IsBuffered s
        → HoldsSound s
        → flagged.exit_flag ≡ true
        → ((x y : List Turn) → flagged ∷ later ≡ x ++ y → 0 < length x → (heads y).exit_flag ≡ true)
        → 0 < length (messages_of (flagged ∷ later))
        → length early + 2 ≤ n
        → (o : Fed F) × (reports : List (Report F)) × (process_topic
              (callback_shell env)
              k
              heads
              n
              (early ++ flagged ∷ later)
              (some (s, []))
            ≡ some (o, reports))
          × IfSome IsFed o
    process_topic-IsFed k heads n early flagged later s int b h flag behind some_late fuel =
        let (used, left, reports, split, e) =
          process_topic_ends (callback_shell env) k heads n early flagged later (some (s, [])) flag
            behind some_late fuel in
        (
          deliver (callback_shell env) k.param (messages_of used) (some (s, [])),
          reports,
          e,
          deliver-IsFed k.param (messages_of used) (some (s, [])) int (b, h, tt),
        )
