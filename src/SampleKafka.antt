-- ===== src/SampleKafka.antt =====
-- src/io/sample_kafka.h and sample_kafka.cpp: `class SampleKafka`, which reads the two topics of a
-- worker and feeds one parser with both.
pub mod Partitions
pub mod Feed
pub mod Run
use ftrl_online_pslite.Prelude.{
  ℕ, zero, suc, ◌+◌, Bool, true, false, ◌&&◌, Option, none, some, List, [], ◌∷◌, ◌++◌, ◌==◌,
  if◌then◌else◌,
}
use ftrl_online_pslite.Prelude.Int.{ℤ, pos, ◌+ℤ◌, ◌*ℤ◌}
use ftrl_online_pslite.Floats.{Floats}
use ftrl_online_pslite.Bytes.{Bytes, codes}
use ftrl_online_pslite.StringUtil.{Parsers}
use ftrl_online_pslite.Condition.{Condition, field}
use ftrl_online_pslite.Parser.{Parser, Env}
use ftrl_online_pslite.Parser.Buffer.{Delivery, process}
use ftrl_online_pslite.Kafka.{MessageKafka, new_kafka, init}

-- `stat` as the comment of the class numbers it; the parser stands beside it.
pub record SampleKafka : Type 0 where
  pub message_imp : MessageKafka
  pub message_bhv : MessageKafka
  pub workid : ℤ
  pub stat : ℕ

-- The loop that lists the partitions of the impressions; `left` of its four rounds are to come.
unfoldable pub imp_parts : ℕ → ℕ → ℤ → List ℤ
imp_parts zero k workid = []
imp_parts (suc left) k workid = (workid *ℤ pos 4 +ℤ pos k) ∷ imp_parts left (k + 1) workid

unfoldable pub bhv_parts : ℤ → List ℤ
bhv_parts workid = workid ∷ []

-- The constructor, with the number of brokers that librdkafka takes for each topic; the result of
-- `Init` is not read, and is given beside the object.
unfoldable pub new_sample_kafka :
    {F : Type 0}
    → Parsers F
    → Condition
    → (bhv_added imp_added : ℕ) → MessageKafka
    → SampleKafka × Bool
unfolding init imp_parts bhv_parts
new_sample_kafka p ini_config bhv_added imp_added blank =
    let workid = p.atoi (field (codes "worker_idx") ini_config) in
    let (bhv, bhv_made) = init (bhv_parts workid) true workid bhv_added blank in
    let (imp, imp_made) = init (imp_parts 4 0 workid) false workid imp_added blank in
    (
      record { message_imp = imp; message_bhv = bhv; workid = workid; stat = 1 },
      bhv_made && imp_made,
    )

-- `Start`, given whether the two threads can be made: `none` is `exit(1)`, and otherwise it returns
-- once both threads have.
unfoldable pub start : Bool → Bool → SampleKafka → Option SampleKafka
start bhv_thread imp_thread k =
    if bhv_thread && imp_thread then some (record k { stat = 4 }) else none

-- `Wait`, where nothing else writes `stat`: `none` is a loop that does not end.
unfoldable pub wait : SampleKafka → Option Bool
wait k = if k.stat == 4 then some true else none

-- What a thread's calls of the parser have made of it, and the batches that the learners got;
-- `none` once an access was out of bounds.
abbrev pub Fed : Type 0 → Type 0
Fed F = Option (Parser F × List (Delivery F))

abbrev behind : {F : Type 0} → List (Delivery F) → Fed F → Fed F
behind ds none = none
behind ds (some (s, more)) = some (s, ds ++ more)

-- `CALLBACK_SHELL`
unfoldable pub callback_shell : {F : Type 0} ⦃fl : Floats F⦄ → Env F → Bytes → ℕ → Fed F → Fed F
callback_shell env msg param none = none
callback_shell env msg param (some (s, ds)) = behind ds (process env msg param s)
