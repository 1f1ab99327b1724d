-- ===== src/Kafka/Hour.antt =====
-- src/io/message_kafka.cpp: which messages the inner loop of `Process` passes on.
use ftrl_online_pslite.Prelude.{
  ℕ, ◌≡◌, refl, sym, ap, subst, ◌∙◌, true, false, List, [], ◌∷◌, ◌++◌, Bool-cases, inl, inr, ◌⊎◌,
}
use ftrl_online_pslite.Prelude.Int.{ℤ}
use ftrl_online_pslite.Bytes.{Bytes}
use ftrl_online_pslite.Kafka.{
  Message, Slot, note, Batch, empty, failed, messages, Turn, Consumer, within_hour, take_batch,
  take_turn, hour_loop,
}

-- The messages of the turns, in their order.
abbrev pub batch_of : Batch → List Message
batch_of empty = []
batch_of failed = []
batch_of (messages m ms) = m ∷ ms

abbrev pub messages_of : List Turn → List Message
messages_of [] = []
messages_of (t ∷ ts) = batch_of t.batch ++ messages_of ts

-- The account of the offsets alone.
abbrev pub track : List Message → List Slot → List Slot
track [] slots = slots
track (m ∷ ms) slots = track ms (note m slots)

-- Why the loop does not go on: no turn is left, the hour is over, or the flag is set.
abbrev pub IsOver : ℤ → ℤ → List Turn → Type 0
IsOver start until [] = Unit
IsOver start until (t ∷ ts) = (within_hour start until ≡ false) ⊎ (t.exit_flag ≡ true)

module _ {S : Type 0} (callback : Bytes → ℕ → S → S) (param : ℕ) where
  -- One call of `callback` for each message, in their order.
  abbrev pub deliver : List Message → S → S
  deliver [] s = s
  deliver (m ∷ ms) s = deliver ms (callback m.payload param s)

  -- A consumer after messages.
  abbrev pub IsAfter : List Message → Consumer S → Consumer S → Type 0
  IsAfter ms c c' = (c'.target ≡ deliver ms c.target) × (c'.slots ≡ track ms c.slots)

  abbrev pub IsTaken : ℤ → List Turn → Consumer S → Consumer S × List Turn → Type 0
  IsTaken start turns c (c', left) =
      (taken : List Turn) × (turns ≡ taken ++ left)
      × IsAfter (messages_of taken) c c'
      × IsOver start c'.until left

  take_batch_lem :
      (ms : List Message) (c : Consumer S) → IsAfter ms c (take_batch callback param ms c)
  unfolding take_batch
  take_batch_lem [] c = (refl, refl)
  take_batch_lem (m ∷ ms) c = take_batch_lem ms _

  pub take_turn_lem :
      (t : Turn) (c : Consumer S) → IsAfter (batch_of t.batch) c (take_turn callback param t c)
  unfolding take_turn
  take_turn_lem t c =
      elim t.batch
        as (λ b. IsAfter (batch_of b) c (take_turn callback param (record t { batch = b }) c)) [
          | empty ↦ (refl, refl)
          | failed ↦ (refl, refl)
          | messages m ms ↦ take_batch_lem (m ∷ ms) c
        ]

  pub deliver-append :
      (ms ns : List Message) (s : S) → deliver (ms ++ ns) s ≡ deliver ns (deliver ms s)
  deliver-append [] ns s = refl
  deliver-append (m ∷ ms) ns s = deliver-append ms ns _

  track-append :
      (ms ns : List Message) (ss : List Slot) → track (ms ++ ns) ss ≡ track ns (track ms ss)
  track-append [] ns ss = refl
  track-append (m ∷ ms) ns ss = track-append ms ns _

  IsAfter-trans :
      (ms ns : List Message) (c c1 c2 : Consumer S)
      → IsAfter ms c c1
      → IsAfter ns c1 c2
      → IsAfter (ms ++ ns) c c2
  IsAfter-trans ms ns c c1 c2 (a, b) (a', b') = (
    a' ∙ ap (deliver ns) a ∙ sym (deliver-append ms ns c.target),
    b' ∙ ap (track ns) b ∙ sym (track-append ms ns c.slots),
  )

  pub hour_flag :
      (start : ℤ) (t : Turn) (ts : List Turn) (c : Consumer S)
      → within_hour start c.until ≡ true
      → t.exit_flag ≡ true
      → hour_loop callback param start (t ∷ ts) c ≡ (c, t ∷ ts)
  unfolding hour_loop
  hour_flag start t ts c within flag = rw (hour_loop, within, flag) refl

  pub hour_go :
      (start : ℤ) (t : Turn) (ts : List Turn) (c : Consumer S)
      → within_hour start c.until ≡ true
      → t.exit_flag ≡ false
      → hour_loop callback param start (t ∷ ts) c
        ≡ hour_loop callback param start ts (take_turn callback param t c)
  unfolding hour_loop
  hour_go start t ts c within go = rw (hour_loop, within, go) refl

  -- The inner loop takes the turns in front and leaves the others, and stops only when the hour is
  -- over, the flag is set or no turn is left: each message of the turns that it takes goes to
  -- `callback` once, in the order of their arrival, and into the account of the offsets.
  pub hour_loop_lem :
      (start : ℤ) (turns : List Turn) (c : Consumer S)
      → IsTaken start turns c (hour_loop callback param start turns c)
  unfolding hour_loop
  hour_loop_lem start [] c = ([], refl, (refl, refl), tt)
  hour_loop_lem start (t ∷ ts) c = elim (Bool-cases (within_hour start c.until)) [
    | inr over ↦ rw (hour_loop, over) ([], refl, (refl, refl), inl over)
    | inl within ↦ elim (Bool-cases t.exit_flag) [
      | inl flag ↦
          subst (IsTaken start (t ∷ ts) c) (sym (hour_flag start t ts c within flag))
            ([], refl, (refl, refl), inr flag)
      | inr go ↦
          let c1 = take_turn callback param t c in
          let (taken, front, after, over) = hour_loop_lem start ts c1 in
          subst (IsTaken start (t ∷ ts) c) (sym (hour_go start t ts c within go)) (
            t ∷ taken,
            ap (◌∷◌ t) front,
            IsAfter-trans (batch_of t.batch) (messages_of taken) c c1
                (hour_loop callback param start ts c1).0 (take_turn_lem t c) after,
            over,
          )
    ]
  ]
