-- ===== src/Learner/Intake.antt =====
-- src/core/learner.cpp: what `GetData` takes over from the parser.
use ftrl_online_pslite.Prelude.{
  ℕ, suc, ◌+◌, ◌≡◌, refl, List, [], ◌∷◌, ◌++◌, length, map, arith, some, Bool-cases, inl, inr, All,
  ◌≤◌, if◌then◌else◌, append_assoc, append-nil, sym, ap, ◌∙◌, le→ltb_false, lt→leb_false,
}
use mathlib.Core.List.{map-append}
use ftrl_online_pslite.Prelude.Int.{ℤ, negsuc, eq_ℤ}
use ftrl_online_pslite.Floats.{Floats}
use ftrl_online_pslite.RecordLog
use ftrl_online_pslite.Sample.{Sample, feature_capacity, put, entries, entries-put}
use ftrl_online_pslite.Learner.{Learner, sample_room, get_data_loop, get_data}

module _ {F : Type 0} where
  -- What a sample holds before it is scored.
  abbrev pub facts : Sample F → List ℕ × ℤ × F
  facts x = (x.features, x.label, x.ctr)

  -- The samples whose label is not -1, each with its label.
  abbrev pub kept : List (Sample F) → List ℤ → List (List ℕ × ℤ × F)
  kept [] ys = []
  kept (x ∷ xs) [] = []
  kept (x ∷ xs) (y ∷ ys) =
      let rest = kept xs ys in if eq_ℤ y (negsuc 0) then rest else (x.features, y, x.ctr) ∷ rest

  abbrev pub AllFit : List (Sample F) → Type 0
  AllFit = All (λ x. length x.features ≤ feature_capacity)

  abbrev pub held : ℕ → Learner F → List (List ℕ × ℤ × F)
  held n l = map facts (entries 0 n l.samples)

module _ {F : Type 0} ⦃fl : Floats F⦄ where
  -- The state after a sample is written at `idx`.
  abbrev store : Sample F → ℤ → ℕ → Learner F → Learner F
  store x y idx l =
      let fresh = record (l.samples idx) { label = y; ctr = x.ctr; features = x.features } in
      record l {
        samples = put idx fresh l.samples;
        recordlog = RecordLog.stat_sample_num y l.recordlog;
      }

  held-store :
      (x : Sample F) (y : ℤ) (idx : ℕ) (l : Learner F)
      → held (idx + 1) (store x y idx l) ≡ held idx l ++ (x.features, y, x.ctr) ∷ []
  held-store x y idx l =
      let next : idx + 1 ≡ suc idx = omega arith in
      ap (λ n. held n (store x y idx l)) next
      ∙ ap (map facts) (entries-put idx _ l.samples)
      ∙ map-append facts (entries 0 idx l.samples) _

  get_data_loop_lem :
      (xs : List (Sample F)) (ys : List ℤ) (idx : ℕ) (l : Learner F)
      → length xs ≤ length ys
      → idx + length xs ≤ sample_room
      → AllFit xs
      → (idx' : ℕ) × (l' : Learner F) × (get_data_loop xs ys idx l ≡ some (idx', l'))
        × (held idx' l' ≡ held idx l ++ kept xs ys)
        × (idx' ≤ idx + length xs)
        × (l'.w ≡ l.w)
        × (l'.p ≡ l.p)
  unfolding get_data_loop
  get_data_loop_lem [] ys idx l le room fit =
      (idx, l, refl, sym (append-nil (held idx l)), omega arith, refl, refl)
  get_data_loop_lem (x ∷ xs) [] idx l le room fit = absurd (omega arith)
  get_data_loop_lem (x ∷ xs) (y ∷ ys) idx l le room (fits, fit) =
      elim (Bool-cases (eq_ℤ y (negsuc 0))) [
        | inl e ↦
            let (idx', l', done, all, few, w, p) =
              get_data_loop_lem xs ys idx l (omega arith) (omega arith) fit in
            (idx', l', rw e done, rw e all, omega arith, w, p)
        | inr e ↦
            let (idx', l', done, all, few, w, p) =
              get_data_loop_lem xs ys (idx + 1) (store x y idx l) (omega arith) (omega arith) fit in
            (
              idx',
              l',
              rw
                  (
                    e,
                    lt→leb_false idx sample_room (omega arith),
                    le→ltb_false feature_capacity (length x.features) fits,
                  )
                  done,
              rw e (
                  all
                  ∙ ap (λ hs. hs ++ kept xs ys) (held-store x y idx l)
                  ∙ append_assoc (held idx l) _ (kept xs ys)),
              omega arith,
              w,
              p,
            )
      ]

  -- A batch that fits the room of `samples`, with a label for each sample and no sample of more
  -- features than `_mem` has room for, is taken over without an access out of bounds: the learner
  -- then holds just the samples whose label is not -1, each with its features, label and `ctr`, in
  -- their order, and its weights are as before.
  pub get_data_lem :
      (xs : List (Sample F)) (ys : List ℤ) (l : Learner F)
      → length xs ≤ length ys
      → length xs ≤ sample_room
      → AllFit xs
      → (l' : Learner F) × (get_data xs ys l ≡ some l')
        × (held l'.num_sample l' ≡ kept xs ys)
        × (l'.num_sample ≤ length xs)
        × (l'.w ≡ l.w)
  unfolding get_data
  get_data_lem xs ys l le room fit =
      let (idx, l', done, all, few, w, p) = get_data_loop_lem xs ys 0 l le (omega arith) fit in
      (record l' { num_sample = idx }, rw (done, get_data), all, omega arith, w)
