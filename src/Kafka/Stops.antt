-- ===== src/Kafka/Stops.antt =====
-- src/io/message_kafka.cpp: where the loops over the polls of one round stop.
use ftrl_online_pslite.Prelude.{
  ℕ, ◌<◌, ◌≡◌, refl, sym, ap, subst, ◌∙◌, append-nil, true, false, none, some, List, [], ◌∷◌, ◌++◌,
  length, arith, length-append, append_assoc, Bool-cases, inl, inr, ◌⊎◌,
}
use ftrl_online_pslite.Prelude.Int.{ℤ}
use ftrl_online_pslite.Bytes.{Bytes}
use ftrl_online_pslite.Kafka.{
  Message, empty, failed, messages, Turn, Consumer, within_hour, take_turn, hour_loop, first_batch,
  take_true,
}
use ftrl_online_pslite.Kafka.Hour.{
  batch_of, messages_of, deliver, take_turn_lem, deliver-append, hour_flag, hour_go,
}

-- What a poll is to `while (r<1)`.
first_batch-cases :
    (t : Turn) (ts : List Turn)
    → ((batch_of t.batch ≡ []) × (first_batch (t ∷ ts) ≡ first_batch ts))
      ⊎ ((0 < length (batch_of t.batch)) × (first_batch (t ∷ ts) ≡ some (batch_of t.batch, ts)))
unfolding first_batch
first_batch-cases t ts =
    elim t.batch
      as (λ b.
        ((batch_of b ≡ []) × (first_batch (record t { batch = b } ∷ ts) ≡ first_batch ts))
        ⊎ ((0 < length (batch_of b))
            × (first_batch (record t { batch = b } ∷ ts) ≡ some (batch_of b, ts)))) [
              | empty ↦ inl (refl, refl)
              | failed ↦ inl (refl, refl)
              | messages m ms ↦ inr (omega arith, refl)
            ]

pub append-eq-nil {ℓ} : {A : Type ℓ} (xs ys : List A) → xs ++ ys ≡ [] → ys ≡ []
append-eq-nil [] ys e = e
append-eq-nil (x ∷ xs) ys e = cc

pub first_batch-none : (ts : List Turn) → messages_of ts ≡ [] → first_batch ts ≡ none
unfolding first_batch
first_batch-none [] e = refl
first_batch-none (t ∷ ts) e = elim (first_batch-cases t ts) [
  | inl (none_here, skip) ↦ skip ∙ first_batch-none ts (rw none_here at e)
  | inr (some_here, found) ↦
      absurd (omega (arith, ap length e, length-append (batch_of t.batch) (messages_of ts)))
]

-- Where the turns that are left stand: `late` with fewer turns in front, or behind its first one.
abbrev pub Later : List Turn → List Turn → List Turn → Type 0
Later early late rest =
    ((e : List Turn) × (rest ≡ e ++ late) × (length e < length early))
    ⊎ ((x : List Turn) × (late ≡ x ++ rest) × (0 < length x))

-- The first batch that has messages, and the turns up to it.
abbrev pub IsFirst : List Turn → List Message → List Turn → Type 0
IsFirst turns ms rest =
    (used : List Turn) × (first_batch turns ≡ some (ms, rest))
    × (turns ≡ used ++ rest)
    × (messages_of used ≡ ms)
    × (0 < length used)

IsFirst-skip :
    (t : Turn) (ts : List Turn) (ms : List Message) (rest : List Turn)
    → batch_of t.batch ≡ []
    → first_batch (t ∷ ts) ≡ first_batch ts
    → IsFirst ts ms rest
    → IsFirst (t ∷ ts) ms rest
IsFirst-skip t ts ms rest none_here skip (used, found, split, all, some_used) =
    (t ∷ used, skip ∙ found, ap (◌∷◌ t) split, rw none_here all, omega arith)

IsFirst-of :
    (late : List Turn)
    → 0 < length (messages_of late)
    → (ms : List Message) × (rest : List Turn) × IsFirst late ms rest
IsFirst-of [] h = absurd (omega arith)
IsFirst-of (t ∷ ts) h = elim (first_batch-cases t ts) [
  | inl (none_here, skip) ↦
      let (ms, rest, first) = IsFirst-of ts (rw none_here at h) in
      (ms, rest, IsFirst-skip t ts ms rest none_here skip first)
  | inr (some_here, found) ↦
      (batch_of t.batch, ts, (t ∷ [], found, refl, append-nil (batch_of t.batch), omega arith))
]

pub IsFirst-behind :
    (early late : List Turn)
    → 0 < length (messages_of late)
    → (ms : List Message) × (rest : List Turn) × IsFirst (early ++ late) ms rest
      × Later early late rest
IsFirst-behind [] late h =
    let (ms, rest, (used, found, split, all, some_used)) = IsFirst-of late h in
    (ms, rest, (used, found, split, all, some_used), inr (used, split, some_used))
IsFirst-behind (t ∷ early) late h = elim (first_batch-cases t (early ++ late)) [
  | inl (none_here, skip) ↦
      let (ms, rest, first, place) = IsFirst-behind early late h in
      (
        ms,
        rest,
        IsFirst-skip t (early ++ late) ms rest none_here skip first,
        elim place [ inl (e, same, few) ↦ inl (e, same, omega arith) | inr x ↦ inr x ],
      )
  | inr (some_here, found) ↦ (
    batch_of t.batch,
    early ++ late,
    (t ∷ [], found, refl, append-nil (batch_of t.batch), omega arith),
    inl (early, refl, omega arith),
  )
]

module _ {S : Type 0} (callback : Bytes → ℕ → S → S) (param : ℕ) where
  -- Where the inner loop stops, and what `callback` was given.
  abbrev pub StopsBefore : List Turn → List Turn → Consumer S → Consumer S × List Turn → Type 0
  StopsBefore early late c (c', left) =
      (taken : List Turn) × (e : List Turn) × (early ≡ taken ++ e)
      × (left ≡ e ++ late)
      × (c'.target ≡ deliver callback param (messages_of taken) c.target)

  hour_over :
      (start : ℤ) (t : Turn) (ts : List Turn) (c : Consumer S)
      → within_hour start c.until ≡ false
      → hour_loop callback param start (t ∷ ts) c ≡ (c, t ∷ ts)
  unfolding hour_loop
  hour_over start t ts c over = rw (hour_loop, over) refl

  -- The inner loop stops no later than at the first turn that reads the flag as set.
  pub hour_stops :
      (start : ℤ) (early : List Turn) (t : Turn) (later : List Turn) (c : Consumer S)
      → t.exit_flag ≡ true
      → StopsBefore early (t ∷ later) c (hour_loop callback param start (early ++ t ∷ later) c)
  hour_stops start [] t later c flag = elim (Bool-cases (within_hour start c.until)) [
    | inr over ↦
        subst (StopsBefore [] (t ∷ later) c) (sym (hour_over start t later c over))
          ([], [], refl, refl, refl)
    | inl within ↦
        subst (StopsBefore [] (t ∷ later) c)
          (sym (hour_flag callback param start t later c within flag)) ([], [], refl, refl, refl)
  ]
  hour_stops start (x ∷ early) t later c flag =
      let xs = early ++ t ∷ later in
      elim (Bool-cases (within_hour start c.until)) [
        | inr over ↦
            subst (StopsBefore (x ∷ early) (t ∷ later) c) (sym (hour_over start x xs c over))
              ([], x ∷ early, refl, refl, refl)
        | inl within ↦ elim (Bool-cases x.exit_flag) [
          | inl set ↦
              subst (StopsBefore (x ∷ early) (t ∷ later) c)
                (sym (hour_flag callback param start x xs c within set))
                ([], x ∷ early, refl, refl, refl)
          | inr go ↦
              let c1 = take_turn callback param x c in
              let (taken, e, split, left, target) = hour_stops start early t later c1 flag in
              let (target1, slots1) = take_turn_lem callback param x c in
              subst (StopsBefore (x ∷ early) (t ∷ later) c)
                (sym (hour_go callback param start x xs c within go))
                (
                  x ∷ taken,
                  e,
                  ap (◌∷◌ x) split,
                  left,
                  target
                      ∙ ap (deliver callback param (messages_of taken)) target1
                      ∙ sym (
                          deliver-append callback param (batch_of x.batch) (messages_of taken)
                            c.target),
                )
        ]
      ]

  pub take_true_lem :
      (ms : List Message) (trueset : List (ℤ × ℤ)) (s : S)
      → (take_true callback param ms (trueset, s)).1 ≡ deliver callback param ms s
  unfolding take_true
  take_true_lem [] trueset s = refl
  take_true_lem (m ∷ ms) trueset s = take_true_lem ms _ _

pub messages_of-append :
    (ts us : List Turn) → messages_of (ts ++ us) ≡ messages_of ts ++ messages_of us
messages_of-append [] us = refl
messages_of-append (t ∷ ts) us =
    ap (λ ms. batch_of t.batch ++ ms) (messages_of-append ts us)
    ∙ sym (append_assoc (batch_of t.batch) (messages_of ts) (messages_of us))

pub Later-append :
    (taken e early late rest : List Turn)
    → early ≡ taken ++ e
    → Later e late rest
    → Later early late rest
Later-append taken e early late rest split (inl (e', same, few)) =
    inl (e', same, omega (arith, ap length split, length-append taken e))
Later-append taken e early late rest split (inr x) = inr x
