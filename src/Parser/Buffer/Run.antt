-- ===== src/Parser/Buffer/Run.antt =====
-- src/io/parser.cpp: the bounds of the buffers over all calls of `Process`.
use ftrl_online_pslite.Prelude.{
  ℕ, ◌≤◌, ◌<◌, ◌≡◌, refl, sym, ap, subst, ◌∙◌, false, Option, some, none, List, [], ◌∷◌, length,
  arith, leb, ltb, ◌==◌, lt→leb_false, Bool-cases, Option-cases, inl, inr,
}
use ftrl_online_pslite.Prelude.Int.{ℤ, negsuc}
use ftrl_online_pslite.Floats.{Floats}
use ftrl_online_pslite.Bytes.{Bytes}
use ftrl_online_pslite.Sample.{Sample, feature_capacity}
use ftrl_online_pslite.Condition.{Condition}
use ftrl_online_pslite.Learner.Labels.{Kind}
use ftrl_online_pslite.Verdict.Frame.{Frames}
use ftrl_online_pslite.Verdict.{Verdict, dropped, out_of_bounds, going}
use ftrl_online_pslite.Parser.{Parser, Env}
use ftrl_online_pslite.Parser.Message.{parse_sample_0, parse_sample_1}
use ftrl_online_pslite.Parser.Message.Frame.{
  shown, Buffers, buffers, parse_sample_0-Frames, parse_sample_1-Frames,
}
use ftrl_online_pslite.Parser.Buffer.{
  Delivery, room_0, limit_1, batch_size, take_0, take_1, after_0, after_1, process, new_parser,
}
use ftrl_online_pslite.Parser.Buffer.Bounds.{IsBuffered}
use ftrl_online_pslite.Parser.Buffer.Batch.{take_0_lem, take_1_lem}

module _ {ℓ κ} {A : Type ℓ} {B : Type κ} where
  abbrev first_or : A → Option (A × B) → A
  first_or d none = d
  first_or d (some (a, b)) = a

  some_first :
      {o : Option (A × B)} {a a' : A} {b b' : B} → o ≡ some (a, b) → o ≡ some (a', b') → a ≡ a'
  some_first {a = a} e h = ap (first_or a) (sym e ∙ h)

some_inj {ℓ} : {A : Type ℓ} {a a' : A} → some a ≡ some a' → a ≡ a'
some_inj e = cc

module _ {F : Type 0} where
  -- What a call of `Process` keeps: the bounds, and the learners.
  abbrev pub IsKept : Parser F → Parser F → Type 0
  IsKept s s' = IsBuffered s' × (s'.lw ≡ s.lw)

  some-IsKept :
      {o : Option (Parser F × List (Delivery F))} (s : Parser F) {s1 s' : Parser F}
      {ds1 ds : List (Delivery F)}
      → o ≡ some (s1, ds1)
      → IsKept s s1
      → o ≡ some (s', ds)
      → IsKept s s'
  some-IsKept s e k h = subst (IsKept s) (some_first e h) k

  pub IsBuffered-buffers : (s s' : Parser F) → buffers s' ≡ buffers s → IsBuffered s → IsKept s s'
  unfolding buffers
  IsBuffered-buffers s s' e h =
      subst
        (λ (b : Buffers F).
          ((b.cntl_0 ≡ b.idx_0)
            × (b.cntl_1 ≡ b.idx_1)
            × (b.idx_0 < batch_size)
            × (b.idx_1 ≤ limit_1))
          × (b.lw ≡ s.lw))
        (sym e) (h, refl)

module _ {F : Type 0} ⦃fl : Floats F⦄ (env : Env F) where
  take_0-IsKept :
      (ctr : F) (fs : List ℕ) (c : Condition) (s : Parser F) {s' : Parser F}
      {ds : List (Delivery F)}
      → IsBuffered s
      → take_0 env ctr fs c s ≡ some (s', ds)
      → IsKept s s'
  unfolding take_0
  take_0-IsKept ctr [] c s b h = some-IsKept s refl (b, refl) h
  take_0-IsKept ctr (f ∷ fs) c s b h =
      let (c0, c1, b0, b1) = b in
      let room : leb room_0 s.idx_0 ≡ false = lt→leb_false s.idx_0 room_0 (omega arith) in
      elim (Bool-cases (fl.eq ctr (fl.of_int (negsuc 0)))) [
        | inl e ↦ some-IsKept s {s1 = s} {ds1 = []} (rw (take_0, e) refl) (b, refl) h
        | inr e ↦ elim (Bool-cases (ltb feature_capacity (length (f ∷ fs)))) [
          | inl long ↦ let stuck = rw (take_0, e, room, long) at h in cc
          | inr short ↦
              let (s1, ds1, done, queues, bounds, lw) =
                take_0_lem env ctr f fs c s b (ground arith) e in
              some-IsKept s done (bounds, lw) h
        ]
      ]

  take_1-IsKept :
      (ctr : F) (fs : List ℕ) (c : Condition) (s : Parser F) {s' : Parser F}
      → IsBuffered s
      → take_1 env ctr fs c s ≡ some s'
      → IsKept s s'
  unfolding take_1
  take_1-IsKept ctr [] c s b h = subst (IsKept s) (some_inj h) (b, refl)
  take_1-IsKept ctr (f ∷ fs) c s {s'} b h = elim (Bool-cases (fl.eq ctr (fl.of_int (negsuc 0)))) [
    | inl e ↦
        let same : some s ≡ some s' = rw (take_1, e) at h in
        subst (IsKept s) (some_inj same) (b, refl)
    | inr e ↦ elim (Bool-cases (leb limit_1 s.idx_1)) [
      | inl full ↦
          let same : some s ≡ some s' = rw (take_1, e, full) at h in
          subst (IsKept s) (some_inj same) (b, refl)
      | inr room ↦ elim (Bool-cases (ltb feature_capacity (length (f ∷ fs)))) [
        | inl long ↦ let stuck = rw (take_1, e, room, long) at h in cc
        | inr short ↦
            let (s1, done, queues, bounds, lw) = take_1_lem env ctr f fs c s b (ground arith) e in
            subst (IsKept s) (some_inj (sym done ∙ h)) (bounds, lw)
      ]
    ]
  ]

  after_0-IsKept :
      (r : Parser F × Verdict (F × List ℕ × Condition)) (s : Parser F) {s' : Parser F}
      {ds : List (Delivery F)}
      → IsKept s r.0
      → after_0 env r ≡ some (s', ds)
      → IsKept s s'
  unfolding after_0
  after_0-IsKept (s1, dropped) s k h = some-IsKept s refl k h
  after_0-IsKept (s1, out_of_bounds) s k h = cc
  after_0-IsKept (s1, going (ctr, fs, c)) s k h =
      let (b, lw) = take_0-IsKept ctr fs c s1 k.0 h in (b, lw ∙ k.1)

  after_1-IsKept :
      (r : Parser F × Verdict (F × List ℕ × Condition)) (s : Parser F) {s' : Parser F}
      {ds : List (Delivery F)}
      → IsKept s r.0
      → after_1 env r ≡ some (s', ds)
      → IsKept s s'
  unfolding after_1
  after_1-IsKept (s1, dropped) s k h = some-IsKept s refl k h
  after_1-IsKept (s1, out_of_bounds) s k h = cc
  after_1-IsKept (s1, going (ctr, fs, c)) s k h = elim (Option-cases (take_1 env ctr fs c s1)) [
    | inl e ↦ let stuck = rw (after_1, e) at h in cc
    | inr (s2, e) ↦
        let (b, lw) = take_1-IsKept ctr fs c s1 k.0 e in
        some-IsKept s {s1 = s2} {ds1 = []} (rw (after_1, e) refl) (b, lw ∙ k.1) h
  ]

  pub process-IsKept :
      (msg : Bytes) (param : ℕ) (s : Parser F) {s' : Parser F} {ds : List (Delivery F)}
      → IsBuffered s
      → process env msg param s ≡ some (s', ds)
      → IsKept s s'
  unfolding process Frames shown
  process-IsKept msg param s b h = elim (Bool-cases (param == 0)) [
    | inl e ↦
        let r = parse_sample_0 env msg s in
        after_0-IsKept r s (IsBuffered-buffers s r.0 (parse_sample_0-Frames env msg s) b)
          (rw (process, e) at h)
    | inr e ↦
        let r = parse_sample_1 env msg s in
        after_1-IsKept r s (IsBuffered-buffers s r.0 (parse_sample_1-Frames env msg s) b)
          (rw (process, e) at h)
  ]

  -- Messages in the order of their arrival, each with the `param` of its topic.
  unfoldable pub process_all : List (Bytes × ℕ) → Parser F → Option (Parser F)
  process_all [] s = some s
  process_all ((msg, param) ∷ rest) s = elim (process env msg param s) [
    | none ↦ none
    | some (s', ds) ↦ process_all rest s'
  ]

  process_all-IsKept :
      (msgs : List (Bytes × ℕ)) (s : Parser F) {s' : Parser F}
      → IsBuffered s
      → process_all msgs s ≡ some s'
      → IsKept s s'
  unfolding process_all
  process_all-IsKept [] s b h = subst (IsKept s) (some_inj h) (b, refl)
  process_all-IsKept ((msg, param) ∷ rest) s b h = elim (Option-cases (process env msg param s)) [
    | inl e ↦ let stuck = rw (process_all, e) at h in cc
    | inr ((s1, ds), e) ↦
        let (b1, lw1) = process-IsKept msg param s b e in
        let (b2, lw2) = process_all-IsKept rest s1 b1 (rw (process_all, e) at h) in (b2, lw2 ∙ lw1)
  ]

  -- From the constructor on, after any messages of either kind in any order of which none made an
  -- access out of bounds, the counters are the lengths of the buffers, fewer than a hundred
  -- impressions wait, at most two thousand behaviours do, and the learners are those that were set.
  pub process_all-new_parser :
      (lws : List Kind) (samples : ℕ → Sample F) (labels : ℕ → ℕ → ℤ) (msgs : List (Bytes × ℕ))
      {s' : Parser F}
      → process_all msgs (new_parser lws samples labels) ≡ some s'
      → IsBuffered s' × (s'.lw ≡ lws)
  unfolding new_parser
  process_all-new_parser lws samples labels msgs h =
      process_all-IsKept msgs (new_parser lws samples labels) (refl, refl, omega arith, omega arith)
        h
