-- ===== src/Examples/Topics.antt =====
-- Runs of the Kafka consumer, and of the parser behind it.
use ftrl_online_pslite.Prelude.{ℕ, ◌≡◌, refl, some, none, List, [], ◌∷◌, map, false, true}
use ftrl_online_pslite.Prelude.Int.{ℤ, pos}
use ftrl_online_pslite.Floats.{whole}
use ftrl_online_pslite.Bytes.{Bytes, codes}
use ftrl_online_pslite.Learner.Labels.{Kind}
use ftrl_online_pslite.Parser.{Parser}
use ftrl_online_pslite.Parser.Buffer.{Delivery, new_parser}
use ftrl_online_pslite.SampleKafka.{Fed, callback_shell}
use ftrl_online_pslite.Examples.{env, sample_a}
use ftrl_online_pslite.Examples.Stream.{impression}
use ftrl_online_pslite.Kafka.{
  Message, MessageKafka, new_slot, note, Batch, Turn, fresh, hour_loop, take_turn, take_batch,
}
use ftrl_online_pslite.Kafka.Hour.{IsTaken, hour_loop_lem, track}
use ftrl_online_pslite.Kafka.Offsets.{slot_of, track_lem}

abbrev at : ℕ → ℕ → Message
at p o = record { partition = pos p; offset = pos o; payload = codes "short" }

abbrev turn : Batch → Turn
turn b = record { exit_flag = false; batch = b; time = pos 7 }

-- An empty poll, three messages of two partitions, and then the flag.
abbrev turns : List Turn
turns =
    turn Batch.empty
    ∷ turn (Batch.messages (at 8 5) (at 9 2 ∷ at 8 6 ∷ []))
    ∷ record { exit_flag = true; batch = Batch.failed; time = pos 8 }
    ∷ []

abbrev two_partitions : MessageKafka
two_partitions = record {
  run = pos 1;
  param = 0;
  worker_idx = pos 2;
  partitions = pos 8 ∷ pos 9 ∷ [];
}

-- A callback that keeps the lengths it is given.
abbrev keep : Bytes → ℕ → List (Bytes × ℕ) → List (Bytes × ℕ)
keep msg param calls = (msg, param) ∷ calls

hour_loop_lem_example :
    IsTaken keep 0
      (pos 0)
      turns
      (fresh two_partitions (pos 0) [])
      (hour_loop keep 0 (pos 0) turns (fresh two_partitions (pos 0) []))
hour_loop_lem_example = hour_loop_lem keep 0 (pos 0) turns (fresh two_partitions (pos 0) [])

three_calls :
    (hour_loop keep 0 (pos 0) turns (fresh two_partitions (pos 0) [])).0.target
    ≡ (codes "short", 0) ∷ (codes "short", 0) ∷ (codes "short", 0) ∷ []
unfolding hour_loop take_turn take_batch note
three_calls = refl

abbrev three_messages : List Message
three_messages = at 8 5 ∷ at 9 2 ∷ at 8 6 ∷ []

track_lem_example :
    track three_messages (map new_slot (pos 8 ∷ pos 9 ∷ []))
    ≡ slot_of (pos 8) (pos 5 ∷ pos 6 ∷ []) ∷ slot_of (pos 9) (pos 2 ∷ []) ∷ []
track_lem_example =
    track_lem (pos 8 ∷ pos 9 ∷ []) three_messages ((refl, tt), (tt, tt))
      ((refl, refl, (refl, refl, tt)), ((refl, refl, tt), tt))

abbrev one_impression : List Turn
one_impression =
    turn (Batch.messages (record { partition = pos 8; offset = pos 5; payload = impression }) [])
    ∷ turn Batch.empty
    ∷ []

abbrev start_parser : Parser ℤ
unfolding new_parser
start_parser = new_parser (Kind.ig ∷ []) (λ i. sample_a) (λ i j. pos 0)

abbrev or_else : Fed ℤ → Parser ℤ × List (Delivery ℤ)
or_else none = (start_parser, [])
or_else (some r) = r

abbrev fed : Parser ℤ × List (Delivery ℤ)
fed =
    or_else
      (hour_loop (callback_shell env) 0 (pos 0) one_impression
        (fresh two_partitions (pos 0) (some (start_parser, [])))).0.target
