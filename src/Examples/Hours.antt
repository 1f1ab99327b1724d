-- ===== src/Examples/Hours.antt =====
-- Runs of the Kafka consumer's outer loop, and of the parser behind it.
use ftrl_online_pslite.Prelude.{
  ℕ, ◌≡◌, ◌<◌, refl, some, ap, length-append, none, List, [], ◌∷◌, ◌++◌, false, true, length, arith,
  IfSome,
}
use ftrl_online_pslite.Prelude.Int.{ℤ, pos}
use ftrl_online_pslite.Floats.{whole}
use ftrl_online_pslite.Bytes.{Bytes, codes}
use ftrl_online_pslite.SampleKafka.{Fed, callback_shell}
use ftrl_online_pslite.SampleKafka.Run.{IsFed, process_topic-IsFed}
use ftrl_online_pslite.Examples.{env, clock, midnight, server, worker, parser}
use ftrl_online_pslite.Examples.Stream.{impression}
use ftrl_online_pslite.Examples.Handover.{whole_parsers-IsInt, parser-HoldsSound}
use ftrl_online_pslite.Kafka.{Message, MessageKafka, Batch, Turn}
use ftrl_online_pslite.Kafka.Rounds.{Head, Report, process_topic}
use ftrl_online_pslite.Kafka.Ends.{HasEnded, process_topic_ends, process_topic_waits}

abbrev at : ℕ → ℕ → Message
at p o = record { partition = pos p; offset = pos o; payload = codes "short" }

abbrev turn : Batch → Turn
turn b = record { exit_flag = false; batch = b; time = pos 7 }

-- Three messages of two partitions; then the flag; then two polls, of which one has a message.
abbrev early : List Turn
early = turn (Batch.messages (at 8 5) (at 9 2 ∷ at 8 6 ∷ [])) ∷ []

abbrev flagged : Batch → Turn
flagged b = record { exit_flag = true; batch = b; time = pos 8 }

abbrev later : List Turn
later = flagged (Batch.messages (at 9 7) []) ∷ []

abbrev one_topic : MessageKafka
one_topic = record { run = pos 1; param = 0; worker_idx = pos 2; partitions = pos 8 ∷ pos 9 ∷ [] }

-- A callback that keeps what it is given.
abbrev keep : Bytes → ℕ → List (Bytes × ℕ) → List (Bytes × ℕ)
keep msg param calls = (msg, param) ∷ calls

-- The flag is read as set once fewer than two turns are to come.
abbrev heads : List Turn → Head
heads (t ∷ u ∷ ts) = record { start = pos 0; exit_flag = false }
heads _ = record { start = pos 0; exit_flag = true }

heads_behind :
    (x y : List Turn)
    → flagged Batch.failed ∷ later ≡ x ++ y
    → 0 < length x
    → (heads y).exit_flag ≡ true
heads_behind [] y e h = absurd (omega arith)
heads_behind (t ∷ x) [] e h = refl
heads_behind (t ∷ x) (u ∷ []) e h = refl
heads_behind (t ∷ []) (u ∷ v ∷ y) e h = absurd (omega (arith, ap length e))
heads_behind (t ∷ s ∷ x) (u ∷ v ∷ y) e h =
    absurd (omega (arith, ap length e, length-append x (u ∷ v ∷ y)))

process_topic_ends_example :
    HasEnded {F = ℤ} keep one_topic
      (early ++ flagged Batch.failed ∷ later)
      []
      (process_topic keep one_topic heads 3 (early ++ flagged Batch.failed ∷ later) [])
process_topic_ends_example =
    process_topic_ends keep one_topic heads 3 early (flagged Batch.failed) later [] refl
      heads_behind (omega arith) (omega arith)

-- The flag is set during the first round, and no message comes.
process_topic_waits_example :
    process_topic {F = ℤ} keep one_topic heads 9
      (turn Batch.empty ∷ flagged Batch.empty ∷ flagged Batch.failed ∷ [])
      []
    ≡ none
process_topic_waits_example =
    process_topic_waits keep one_topic heads 9
      (turn Batch.empty ∷ flagged Batch.empty ∷ flagged Batch.failed ∷ []) [] refl refl

-- The hundredth impression, in front of the flag.
abbrev hundredth : List Turn
hundredth =
    turn (Batch.messages (record { partition = pos 8; offset = pos 5; payload = impression }) [])
    ∷ []

process_topic-IsFed_example :
    (o : Fed ℤ) × (reports : List (Report ℤ)) × (process_topic
        (callback_shell env)
        one_topic
        heads
        3
        (hundredth ++ flagged Batch.failed ∷ later)
        (some (parser, []))
      ≡ some (o, reports))
    × IfSome (IsFed env clock midnight midnight (pos 0) server worker) o
process_topic-IsFed_example =
    process_topic-IsFed env clock midnight midnight (pos 0) server worker one_topic heads 3
      hundredth (flagged Batch.failed) later parser whole_parsers-IsInt
      (refl, refl, omega arith, omega arith) parser-HoldsSound refl heads_behind (omega arith)
      (omega arith)
