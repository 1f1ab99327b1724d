-- ===== src/Kafka/Ends.antt =====
-- src/io/message_kafka.cpp: when the outer loop of `Process` ends.
use ftrl_online_pslite.Prelude.{
  ℕ, zero, suc, ◌+◌, ◌≤◌, ◌<◌, ◌≡◌, refl, sym, ap, subst, ◌∙◌, true, false, Option, none, some,
  List, [], ◌∷◌, ◌++◌, length, arith, append_assoc, Bool-cases, inl, inr,
}
use ftrl_online_pslite.Floats.{Floats}
use ftrl_online_pslite.Bytes.{Bytes}
use ftrl_online_pslite.Kafka.{MessageKafka, Turn, hour_loop, fresh, round}
use ftrl_online_pslite.Kafka.Hour.{messages_of, deliver, deliver-append, hour_loop_lem}
use ftrl_online_pslite.Kafka.Stops.{append-eq-nil, first_batch-none, messages_of-append}
use ftrl_online_pslite.Kafka.Rounds.{
  Head, Report, add_report, process_topic, round_after, round_lem, round_ends,
}

module _ {F S : Type 0} ⦃fl : Floats F⦄ (callback : Bytes → ℕ → S → S) (k : MessageKafka) where
  -- That a run of the outer loop ended, with each message of the turns that it used passed on.
  abbrev pub HasEnded : List Turn → S → Option (S × List (Report F)) → Type 0
  HasEnded turns s o =
      (used : List Turn) × (left : List Turn) × (reports : List (Report F)) × (turns ≡ used ++ left)
      × (o ≡ some (deliver callback k.param (messages_of used) s, reports))

  module _ (heads : List Turn → Head) where
    process_topic_stop :
        (n : ℕ) (turns : List Turn) (s : S)
        → 0 < n
        → (heads turns).exit_flag ≡ true
        → process_topic {F = F} callback k heads n turns s ≡ some (s, [])
    unfolding process_topic
    process_topic_stop zero turns s h set = absurd (omega arith)
    process_topic_stop (suc n) turns s h set = rw (process_topic, set) refl

    process_topic_go :
        (n : ℕ) (turns : List Turn) (s s' : S) (r : Report F) (rest : List Turn)
        → (heads turns).exit_flag ≡ false
        → round callback k (heads turns).start turns s ≡ some (s', r, rest)
        → process_topic callback k heads (suc n) turns s
          ≡ add_report r (process_topic callback k heads n rest s')
    unfolding process_topic
    process_topic_go n turns s s' r rest go e = rw (process_topic, go, e) refl

    HasEnded-add :
        (used rest : List Turn) (turns : List Turn) (s : S) (r : Report F)
        (o : Option (S × List (Report F)))
        → turns ≡ used ++ rest
        → HasEnded rest (deliver callback k.param (messages_of used) s) o
        → HasEnded turns s (add_report r o)
    HasEnded-add used rest turns s r o split (more, left, reports, split2, e) = (
      used ++ more,
      left,
      r ∷ reports,
      split ∙ ap (λ ts. used ++ ts) split2 ∙ sym (append_assoc used more left),
      ap (add_report r) e
          ∙ ap (λ x. some (x, r ∷ reports))
              (sym (deliver-append callback k.param (messages_of used) (messages_of more) s)
                ∙ ap (λ xs. deliver callback k.param xs s) (sym (messages_of-append used more))),
    )

    -- Let the flag read as set at some turn, and at every top of the outer loop behind it, and let a
    -- message come at that turn or later. Then the outer loop ends after at most two rounds more
    -- than there are turns in front of it, and has passed on every message of the turns that it
    -- used, once and in order.
    pub process_topic_ends :
        (n : ℕ) (early : List Turn) (t : Turn) (later : List Turn) (s : S)
        → t.exit_flag ≡ true
        → ((x y : List Turn) → t ∷ later ≡ x ++ y → 0 < length x → (heads y).exit_flag ≡ true)
        → 0 < length (messages_of (t ∷ later))
        → length early + 2 ≤ n
        → HasEnded (early ++ t ∷ later) s (process_topic callback k heads n (early ++ t ∷ later) s)
    process_topic_ends zero early t later s flag behind some_late fuel = absurd (omega arith)
    process_topic_ends (suc n) early t later s flag behind some_late fuel =
        let turns = early ++ t ∷ later in
        let (rest, (used, r, done, split), place) =
          round_ends {F = F} callback k (heads turns).start early t later s flag some_late in
        let s' = deliver callback k.param (messages_of used) s in
        elim (Bool-cases (heads turns).exit_flag) [
          | inl set ↦ ([], turns, [], refl, process_topic_stop (suc n) turns s (omega arith) set)
          | inr go ↦ subst (HasEnded turns s) (sym (process_topic_go n turns s s' r rest go done)) (
              HasEnded-add used rest turns s r (process_topic callback k heads n rest s') split
                (elim place [
                  | inl (e, same, few) ↦
                      subst (λ ts. HasEnded ts s' (process_topic callback k heads n ts s'))
                        (sym same)
                        (process_topic_ends n e t later s' flag behind some_late (omega arith))
                  | inr (x, same, some_used) ↦
                      let set = behind x rest same some_used in
                      ([], rest, [], refl, process_topic_stop n rest s' (omega arith) set)
                ]))
        ]

    -- While no message comes, a round that has begun does not end, whatever its turns read of the
    -- flag: on any fuel, the outer loop does not end.
    pub process_topic_waits :
        (n : ℕ) (turns : List Turn) (s : S)
        → (heads turns).exit_flag ≡ false
        → messages_of turns ≡ []
        → process_topic {F = F} callback k heads n turns s ≡ none
    unfolding process_topic
    process_topic_waits zero turns s go quiet = refl
    process_topic_waits (suc n) turns s go quiet =
        let c = fresh k (heads turns).start s in
        let (taken, split, after, over) =
          hour_loop_lem callback k.param (heads turns).start turns c in
        let left = (hour_loop callback k.param (heads turns).start turns c).1 in
        let silent : messages_of left ≡ [] =
          append-eq-nil (messages_of taken) (messages_of left)
            (sym (messages_of-append taken left) ∙ ap messages_of (sym split) ∙ quiet) in
        let stuck : round {F = F} callback k (heads turns).start turns s ≡ none =
          round_lem callback k (heads turns).start turns s
          ∙ ap (round_after callback k (hour_loop callback k.param (heads turns).start turns c).0)
              (first_batch-none left silent) in
        rw (process_topic, go, stuck) refl
