-- ===== src/Kafka.antt =====
-- src/io/message_kafka.h and message_kafka.cpp: `class MessageKafka`, which reads one topic and
-- passes the messages on, and keeps account of their offsets. What librdkafka returns is input: a
-- list of polls. Offsets and sums are `long`s, whose overflow is not modelled.
pub mod Hour
pub mod Offsets
pub mod Stops
pub mod Rounds
pub mod Ends
use ftrl_online_pslite.Prelude.{
  ℕ, ◌+◌, ◌-◌, ◌^◌, Bool, true, false, ◌&&◌, not, Option, none, some, List, [], ◌∷◌, ◌++◌, map,
  ◌==◌, if◌then◌else◌,
}
use ftrl_online_pslite.Prelude.Int.{ℤ, pos, negsuc, ◌+ℤ◌, ◌-ℤ◌, ltb_ℤ, eq_ℤ}
use ftrl_online_pslite.Floats.{Floats}
use ftrl_online_pslite.Bytes.{Bytes}

-- The members of `rd_kafka_message_t` that are read; `err` is not one of them.
pub record Message : Type 0 where
  pub partition : ℤ
  pub offset : ℤ
  pub payload : Bytes

pub record MessageKafka : Type 0 where
  pub run : ℤ
  pub param : ℕ
  pub worker_idx : ℤ
  pub partitions : List ℤ

-- The constructor sets `run` alone; the other members start with what the memory holds.
unfoldable pub new_kafka : ℕ → ℤ → MessageKafka
new_kafka param worker_idx = record {
  run = pos 1;
  param = param;
  worker_idx = worker_idx;
  partitions = [];
}

-- `Init`, and whether it came to its end, where the queue is made: without a broker that
-- `rd_kafka_brokers_add` takes it returns -1 before.
unfoldable pub init : List ℤ → Bool → ℤ → (added : ℕ) → MessageKafka → MessageKafka × Bool
init parts sasl worker_idx added k =
    let k1 = record k { partitions = k.partitions ++ parts; param = (if sasl then 1 else 0) } in
    if added == 0 then (k1, false) else (record k1 { worker_idx = worker_idx }, true)

-- `Stop`; nothing reads `run`.
unfoldable pub stop : MessageKafka → MessageKafka
stop k = record k { run = pos 0 }

-- `LONG_MAX`
abbrev pub long_max : ℤ
long_max = pos (2 ^ 63 - 1)

-- `partitions[j]` with `lastset[j]` and `newset[j]`.
pub record Slot : Type 0 where
  pub partition : ℤ
  pub lastset : ℤ
  pub newset : ℤ

abbrev pub new_slot : ℤ → Slot
new_slot p = record { partition = p; lastset = pos 0; newset = long_max }

-- The loop that enters the offset of one message.
unfoldable pub note : Message → List Slot → List Slot
note m [] = []
note m (s ∷ ss) =
    let rest = note m ss in
    if eq_ℤ m.partition s.partition && ltb_ℤ m.offset s.newset
    then record s { newset = m.offset } ∷ ss
    else if eq_ℤ m.partition s.partition && ltb_ℤ s.lastset m.offset
    then record s { lastset = m.offset } ∷ ss
    else s ∷ rest

-- What `rd_kafka_consume_batch_queue` returns: 0, -1, or a number of messages.
pub data Batch : Type 0 where
  empty : Batch
  failed : Batch
  messages : Message → List Message → Batch

-- One turn of the loop: `__exit_flag__ == 1`, the poll, and the time after it.
pub record Turn : Type 0 where
  pub exit_flag : Bool
  pub batch : Batch
  pub time : ℤ

-- The loop's variables: the account of the offsets, `end`, and what `callback` works on.
pub record Consumer (S : Type 0) : Type 0 where
  pub slots : List Slot
  pub until : ℤ
  pub target : S

-- `difftime(end,start) < 60*60`
abbrev pub within_hour : ℤ → ℤ → Bool
within_hour start until = ltb_ℤ (until -ℤ start) (pos 3600)

module _ {S : Type 0} (callback : Bytes → ℕ → S → S) (param : ℕ) where
  -- The `for` loop over a batch.
  unfoldable pub take_batch : List Message → Consumer S → Consumer S
  take_batch [] c = c
  take_batch (m ∷ ms) c =
      take_batch ms
        (record c { slots = note m c.slots; target = callback m.payload param c.target })

  -- A poll without a message leaves `end` as it is.
  unfoldable pub take_turn : Turn → Consumer S → Consumer S
  take_turn t c = elim t.batch [
    | empty ↦ c
    | failed ↦ c
    | messages m ms ↦ record (take_batch (m ∷ ms) c) { until = t.time }
  ]

  -- The inner loop: its variables where it ends, or stands, and the turns that are left.
  unfoldable pub hour_loop : ℤ → List Turn → Consumer S → Consumer S × List Turn
  hour_loop start [] c = (c, [])
  hour_loop start (t ∷ ts) c =
      let rest = hour_loop start ts (take_turn t c) in
      if not (within_hour start c.until)
      then (c, t ∷ ts)
      else if t.exit_flag
      then (c, t ∷ ts)
      else rest

-- `while (r<1)`: the first batch that has messages; `none` while there is none.
unfoldable pub first_batch : List Turn → Option (List Message × List Turn)
first_batch [] = none
first_batch (t ∷ ts) = elim t.batch [
  | empty ↦ first_batch ts
  | failed ↦ first_batch ts
  | messages m ms ↦ some (m ∷ ms, ts)
]

-- The loop that enters an offset in `trueset`, which stands beside the partitions.
unfoldable pub note_true : Message → List (ℤ × ℤ) → List (ℤ × ℤ)
note_true m [] = []
note_true m ((p, o) ∷ rest) =
    let on = note_true m rest in
    if eq_ℤ m.partition p && ltb_ℤ m.offset o then (p, m.offset) ∷ rest else (p, o) ∷ on

unfoldable pub take_true :
    {S : Type 0} → (Bytes → ℕ → S → S) → ℕ → List Message → List (ℤ × ℤ) × S → List (ℤ × ℤ) × S
take_true callback param [] x = x
take_true callback param (m ∷ ms) (trueset, s) =
    take_true callback param ms (note_true m trueset, callback m.payload param s)

-- One line of the report: the partition, `lastset`, `trueset` and `res`.
abbrev pub Line : Type 0 → Type 0
Line F = ℤ × ℤ × ℤ × F

module _ {F : Type 0} ⦃fl : Floats F⦄ where
  -- The lines of the partitions that `trueset` has seen, and `sum`.
  unfoldable pub report : List Slot → List (ℤ × ℤ) → List (Line F) × ℤ
  report (s ∷ ss) ((p, o) ∷ rest) =
      let (lines, sum) = report ss rest in
      let res = fl.div (fl.of_int (s.lastset -ℤ s.newset)) (fl.of_int (o -ℤ s.newset)) in
      if eq_ℤ o long_max
      then (lines, sum)
      else ((s.partition, s.lastset, o, res) ∷ lines, (s.lastset -ℤ s.newset) +ℤ sum)
  report _ _ = ([], pos 0)

  -- `sum/(count+0.00001)` at the `count` that stays 0
  unfoldable pub percount : ℤ → F
  percount sum = fl.div (fl.of_int sum) (fl.add (fl.of_int (pos 0)) fl.tiny)

-- The loop's variables at the start of an hour.
abbrev pub fresh : {S : Type 0} → MessageKafka → ℤ → S → Consumer S
fresh k start s = record { slots = map new_slot k.partitions; until = start; target = s }

-- One turn of the outer loop, behind its test of the flag: an hour of messages, the restart at the
-- end of each partition, and the report. `none` while the first batch behind the restart is awaited.
unfoldable pub round :
    {F S : Type 0} ⦃fl : Floats F⦄
    → (Bytes → ℕ → S → S)
    → MessageKafka
    → ℤ
    → List Turn
    → S
    → Option (S × (List (Line F) × ℤ × F) × List Turn)
round {F = F} callback k start turns s =
    let (c, left) = hour_loop callback k.param start turns (fresh k start s) in
    elim (first_batch left) [
      | none ↦ none
      | some (ms, rest) ↦
          let blank = map (λ p. (p, long_max)) k.partitions in
          let (trueset, s') = take_true callback k.param ms (blank, c.target) in
          let (lines, sum) = report {F = F} c.slots trueset in
          some (s', (lines, sum, percount sum), rest)
    ]
