-- ===== src/Parser/Buffer/Fit.antt =====
-- src/io/parser.cpp: what `GetData` relies on in a batch, over all calls of `Process`.
use ftrl_online_pslite.Prelude.{
  ℕ, ◌+◌, ◌≤◌, ◌≡◌, sym, subst, false, List, [], ◌∷◌, map, length, arith, leb, ltb, lt→leb_false,
  Bool-cases, Option-cases, inl, inr, All, All-append, length-append, IfSome,
}
use ftrl_online_pslite.Prelude.Int.{ℤ, negsuc}
use ftrl_online_pslite.Floats.{Floats}
use ftrl_online_pslite.Sample.{Sample, feature_capacity, entries, put, length-entries}
use ftrl_online_pslite.Condition.{Condition}
use ftrl_online_pslite.Learner.Labels.{Kind}
use ftrl_online_pslite.Learner.Round.{AllSmall}
use ftrl_online_pslite.Verdict.{Verdict, dropped, out_of_bounds, going}
use ftrl_online_pslite.Verdict.Yields.{IfGoing}
use ftrl_online_pslite.Parser.{Parser, Env}
use ftrl_online_pslite.Parser.Message.{Parsed}
use ftrl_online_pslite.Parser.Message.Small.{HasSmall}
use ftrl_online_pslite.Parser.Buffer.{
  Delivery, room_0, limit_1, batch_size, deliver, flush, take_0, take_1, after_0, after_1,
}
use ftrl_online_pslite.Parser.Buffer.Bounds.{IsBuffered, content, contents, merge_lem}
use ftrl_online_pslite.Parser.Buffer.Batch.{contents-put}

-- What `_mem` has room for, and features that fit an `int`.
abbrev pub IsSound : List ℕ → Type 0
IsSound fs = (length fs ≤ feature_capacity) × AllSmall fs

module _ {F : Type 0} where
  abbrev pub AllSound : List (Sample F) → Type 0
  AllSound = All (λ x. IsSound x.features)

  abbrev pub SoundContents : List (List ℕ × F) → Type 0
  SoundContents = All (λ x. IsSound x.0)

  -- The samples that wait are sound.
  abbrev pub HoldsSound : Parser F → Type 0
  HoldsSound s =
      SoundContents (contents 0 s.idx_0 s.sample_0) × SoundContents (contents 0 s.idx_1 s.sample_1)

  -- A batch that `GetData` has room for, with a label for each sample, and sound samples.
  abbrev pub Fits : Delivery F → Type 0
  Fits d = (length d.xs ≤ length d.ys) × (length d.xs ≤ limit_1 + batch_size) × AllSound d.xs

  abbrev pub AllFits : Parser F × List (Delivery F) → Type 0
  AllFits r = HoldsSound r.0 × All Fits r.1

  AllSound-of : (xs : List (Sample F)) → SoundContents (map content xs) → AllSound xs
  AllSound-of [] h = tt
  AllSound-of (x ∷ xs) (a, h) = (a, AllSound-of xs h)

  deliver-Fits :
      (n m : ℕ) (imp bhv : ℕ → ℕ → ℤ) (xs : List (Sample F)) (i : ℕ) (ks : List Kind)
      → length xs ≡ n + m
      → n + m ≤ limit_1 + batch_size
      → AllSound xs
      → All Fits (deliver n m imp bhv xs i ks)
  deliver-Fits n m imp bhv xs i [] size room h = tt
  deliver-Fits n m imp bhv xs i (k ∷ ks) size room h =
      let front = length-entries 0 n (imp i) in
      let back = length-entries 0 m (bhv i) in
      let labels = length-append (entries 0 n (imp i)) (entries 0 m (bhv i)) in
      ((omega arith, omega arith, h), deliver-Fits n m imp bhv xs (i + 1) ks size room h)

  flush-AllFits :
      (s : Parser F)
      → s.idx_0 ≤ batch_size
      → s.idx_1 ≤ limit_1
      → HoldsSound s
      → IfSome AllFits (flush s)
  unfolding flush
  flush-AllFits s h0 h1 (sound0, sound1) =
      let (to, done, all) = merge_lem s.idx_1 s.idx_0 s.sample_1 s.sample_0 (omega arith) in
      let xs = entries 0 (s.idx_0 + s.idx_1) to in
      let sound : AllSound xs = AllSound-of xs (
        subst SoundContents (sym all) (
          All-append (λ x. IsSound x.0) (contents 0 s.idx_0 s.sample_0)
            (contents 0 s.idx_1 s.sample_1) sound0 sound1)) in
      let fits =
        deliver-Fits s.idx_0 s.idx_1 s.ys_imp s.ys_bhv xs 0 s.lw
          (length-entries 0 (s.idx_0 + s.idx_1) to) (omega arith) sound in
      elim (Bool-cases (leb batch_size (s.cntl_1 + s.cntl_0))) [
        | inl e ↦ rw (e, done) ((tt, tt), fits)
        | inr e ↦ rw e ((sound0, sound1), tt)
      ]

  SoundContents-put :
      (n : ℕ) (x : Sample F) (f : ℕ → Sample F)
      → IsSound x.features
      → SoundContents (contents 0 n f)
      → SoundContents (contents 0 (n + 1) (put n x f))
  SoundContents-put n x f h all =
      subst SoundContents (sym (contents-put n x f))
        (All-append (λ y. IsSound y.0) (contents 0 n f) (content x ∷ []) all (h, tt))

module _ {F : Type 0} ⦃fl : Floats F⦄ (env : Env F) where
  take_0-AllFits :
      (ctr : F) (fs : List ℕ) (c : Condition) (s : Parser F)
      → IsBuffered s
      → HoldsSound s
      → AllSmall fs
      → IfSome AllFits (take_0 env ctr fs c s)
  unfolding take_0
  take_0-AllFits ctr [] c s b h small = (h, tt)
  take_0-AllFits ctr (f ∷ fs) c s (c0, c1, b0, b1) h small =
      let room : leb room_0 s.idx_0 ≡ false = lt→leb_false s.idx_0 room_0 (omega arith) in
      elim (Bool-cases (fl.eq ctr (fl.of_int (negsuc 0)))) [
        | inl e ↦ rw (take_0, e) (h, tt)
        | inr e ↦ elim (Bool-cases (ltb feature_capacity (length (f ∷ fs)))) [
          | inl long ↦ rw (take_0, e, room, long) tt
          | inr short ↦
              rw (take_0, e, room, short)
                (flush-AllFits _ (omega arith) b1
                  (SoundContents-put s.idx_0 _ s.sample_0 (ground arith, small) h.0, h.1))
        ]
      ]

  take_1-HoldsSound :
      (ctr : F) (fs : List ℕ) (c : Condition) (s : Parser F)
      → HoldsSound s
      → AllSmall fs
      → IfSome HoldsSound (take_1 env ctr fs c s)
  unfolding take_1
  take_1-HoldsSound ctr [] c s h small = h
  take_1-HoldsSound ctr (f ∷ fs) c s h small =
      elim (Bool-cases (fl.eq ctr (fl.of_int (negsuc 0)))) [
        | inl e ↦ rw (take_1, e) h
        | inr e ↦ elim (Bool-cases (leb limit_1 s.idx_1)) [
          | inl full ↦ rw (take_1, e, full) h
          | inr room ↦ elim (Bool-cases (ltb feature_capacity (length (f ∷ fs)))) [
            | inl long ↦ rw (take_1, e, room, long) tt
            | inr short ↦
                rw (take_1, e, room, short)
                  (h.0, SoundContents-put s.idx_1 _ s.sample_1 (ground arith, small) h.1)
          ]
        ]
      ]

  pub after_0-AllFits :
      (r : Parser F × Verdict (Parsed F))
      → IsBuffered r.0
      → HoldsSound r.0
      → IfGoing HasSmall r.1
      → IfSome AllFits (after_0 env r)
  unfolding after_0
  after_0-AllFits (s, dropped) b h small = (h, tt)
  after_0-AllFits (s, out_of_bounds) b h small = tt
  after_0-AllFits (s, going (ctr, fs, c)) b h small = take_0-AllFits ctr fs c s b h small

  pub after_1-AllFits :
      (r : Parser F × Verdict (Parsed F))
      → HoldsSound r.0
      → IfGoing HasSmall r.1
      → IfSome AllFits (after_1 env r)
  unfolding after_1
  after_1-AllFits (s, dropped) h small = (h, tt)
  after_1-AllFits (s, out_of_bounds) h small = tt
  after_1-AllFits (s, going (ctr, fs, c)) h small = elim (Option-cases (take_1 env ctr fs c s)) [
    | inl e ↦ rw (after_1, e) tt
    | inr (s', e) ↦
        rw (after_1, e) (subst (IfSome HoldsSound) e (take_1-HoldsSound ctr fs c s h small), tt)
  ]
