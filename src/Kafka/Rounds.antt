-- ===== src/Kafka/Rounds.antt =====
-- src/io/message_kafka.cpp: the outer loop of `Process`, and one round of it.
use ftrl_online_pslite.Prelude.{
  ℕ, zero, suc, ◌<◌, ◌≡◌, refl, sym, ap, ap₂, ◌∙◌, Bool, true, Option, none, some, List, [], ◌∷◌,
  ◌++◌, map, length, append_assoc, if◌then◌else◌, Option-cases, inl, inr,
}
use ftrl_online_pslite.Prelude.Int.{ℤ}
use ftrl_online_pslite.Floats.{Floats}
use ftrl_online_pslite.Bytes.{Bytes}
use ftrl_online_pslite.Kafka.{
  Message, MessageKafka, Turn, Consumer, Line, hour_loop, first_batch, take_true, report, percount,
  fresh, round, long_max,
}
use ftrl_online_pslite.Kafka.Hour.{messages_of, deliver, deliver-append}
use ftrl_online_pslite.Kafka.Stops.{
  Later, IsFirst-behind, hour_stops, take_true_lem, messages_of-append, Later-append,
}

-- What the outer loop reads at its top: `start`, and `__exit_flag__ == 1`.
pub record Head : Type 0 where
  pub start : ℤ
  pub exit_flag : Bool

abbrev pub Report : Type 0 → Type 0
Report F = List (Line F) × ℤ × F

module _ {F S : Type 0} where
  abbrev pub add_report : Report F → Option (S × List (Report F)) → Option (S × List (Report F))
  add_report r none = none
  add_report r (some (s, rs)) = some (s, r ∷ rs)

module _ {F S : Type 0} ⦃fl : Floats F⦄ (callback : Bytes → ℕ → S → S) (k : MessageKafka)
    (heads : List Turn → Head) where
  -- The outer loop from the turns that are to come, on fuel: what `callback` works on at its end,
  -- and the report of each round. `none` while it has not ended. `heads` is what its top reads
  -- before the given turns.
  unfoldable pub process_topic : ℕ → List Turn → S → Option (S × List (Report F))
  process_topic zero turns s = none
  process_topic (suc n) turns s =
      let on : Option (S × List (Report F)) =
        elim (round {F = F} callback k (heads turns).start turns s) [
          | none ↦ none
          | some (s', r, rest) ↦ add_report r (process_topic n rest s')
        ] in
      if (heads turns).exit_flag then some (s, []) else on

module _ {S : Type 0} where
  -- What a round makes of its hour and of the first batch behind the restart.
  abbrev true_after :
      (Bytes → ℕ → S → S) → MessageKafka → Consumer S → List Message → List (ℤ × ℤ) × S
  true_after callback k c ms =
      take_true callback k.param ms (map (λ p. (p, long_max)) k.partitions, c.target)

module _ {F S : Type 0} ⦃fl : Floats F⦄ (callback : Bytes → ℕ → S → S) (k : MessageKafka) where
  abbrev report_after : Consumer S → List Message → Report F
  report_after c ms =
      let both = report {F = F} c.slots (true_after callback k c ms).0 in
      (both.0, both.1, percount both.1)

  abbrev pub round_after :
      Consumer S → Option (List Message × List Turn) → Option (S × Report F × List Turn)
  round_after c none = none
  round_after c (some (ms, rest)) = some ((true_after callback k c ms).1, report_after c ms, rest)

  pub round_lem :
      (start : ℤ) (turns : List Turn) (s : S)
      → round callback k start turns s
        ≡ round_after
            (hour_loop callback k.param start turns (fresh k start s)).0
            (first_batch (hour_loop callback k.param start turns (fresh k start s)).1)
  unfolding round
  round_lem start turns s =
      elim (Option-cases
        (first_batch (hour_loop callback k.param start turns (fresh k start s)).1)) [
          | inl e ↦ rw (round, e) refl
          | inr ((ms, rest), e) ↦ rw (round, e) refl
        ]

  -- What a round hands on: a report, and what `callback` made of the turns used.
  abbrev HandsOn : List Turn → S → List Turn → Option (S × Report F × List Turn) → Type 0
  HandsOn turns s rest o =
      (used : List Turn) × (r : Report F) × (o
        ≡ some (deliver callback k.param (messages_of used) s, r, rest))
      × (turns ≡ used ++ rest)

  -- A round with a message behind the flag comes to its end.
  pub round_ends :
      (start : ℤ) (early : List Turn) (t : Turn) (later : List Turn) (s : S)
      → t.exit_flag ≡ true
      → 0 < length (messages_of (t ∷ later))
      → (rest : List Turn) × HandsOn
          (early ++ t ∷ later)
          s
          rest
          (round callback k start (early ++ t ∷ later) s)
        × Later early (t ∷ later) rest
  round_ends start early t later s flag some_late =
      let turns = early ++ t ∷ later in
      let c = (hour_loop callback k.param start turns (fresh k start s)).0 in
      let (taken, e, split, left, target) =
        hour_stops callback k.param start early t later (fresh k start s) flag in
      let (ms, rest, (used, found, split2, all, some_used), place) =
        IsFirst-behind e (t ∷ later) some_late in
      let made : (true_after callback k c ms).1
          ≡ deliver callback k.param (messages_of (taken ++ used)) s =
        take_true_lem callback k.param ms _ c.target
        ∙ ap₂ (deliver callback k.param) (sym all) target
        ∙ sym (deliver-append callback k.param (messages_of taken) (messages_of used) s)
        ∙ ap (λ xs. deliver callback k.param xs s) (sym (messages_of-append taken used)) in
      (
        rest,
        (
          taken ++ used,
          report_after c ms,
          round_lem start turns s
              ∙ ap (λ ts. round_after c (first_batch ts)) left
              ∙ ap (round_after c) found
              ∙ ap (λ x. some (x, report_after c ms, rest)) made,
          ap (λ ts. ts ++ t ∷ later) split
              ∙ append_assoc taken e (t ∷ later)
              ∙ ap (λ ts. taken ++ ts) split2
              ∙ sym (append_assoc taken used rest),
        ),
        Later-append taken e early (t ∷ later) rest split place,
      )
