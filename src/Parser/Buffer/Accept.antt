-- ===== src/Parser/Buffer/Accept.antt =====
-- src/io/parser.cpp, src/core/learner.cpp and src/optimizer/ftrl.cpp together: a batch of `Process`
-- is taken over by `GetData`, and a round of training is made of it.
use ftrl_online_pslite.Prelude.{
  ℕ, ◌*◌, ◌^◌, ◌≤◌, ◌<◌, ◌≡◌, ◌⊎◌, sym, subst, some, List, [], ◌∷◌, map, length, arith, ◌==◌,
  if◌then◌else◌, Bool-cases, inl, inr, All, All-append, length-append,
}
use ftrl_online_pslite.Prelude.Int.{ℤ, negsuc, eq_ℤ}
use ftrl_online_pslite.Floats.{Floats}
use ftrl_online_pslite.Clock.{Strftime, Tm}
use ftrl_online_pslite.Sample.{Sample, feature_capacity, length-entries}
use ftrl_online_pslite.Ftrl.{Ftrl, reset_due}
use ftrl_online_pslite.Ftrl.Coord.{coord_of, coord_step, rates_of}
use ftrl_online_pslite.Ftrl.Weights.{weight_at}
use ftrl_online_pslite.Learner.{Learner, unique_keys, get_data}
use ftrl_online_pslite.Learner.Keys.{features_of}
use ftrl_online_pslite.Learner.Intake.{AllFit, facts, held, kept, get_data_lem}
use ftrl_online_pslite.Learner.Round.{AllSmall, batch_of, gradient}
use ftrl_online_pslite.Learner.Train.{has, train, train_lem}
use ftrl_online_pslite.Parser.Message.Frame.{shown}
use ftrl_online_pslite.Parser.Buffer.{Delivery}
use ftrl_online_pslite.Parser.Buffer.Fit.{IsSound, AllSound, Fits}

module _ {F : Type 0} where
  AllFit-of : (xs : List (Sample F)) → AllSound xs → AllFit xs
  AllFit-of [] h = tt
  AllFit-of (x ∷ xs) ((a, b), h) = (a, AllFit-of xs h)

  kept-IsSound :
      (xs : List (Sample F)) (ys : List ℤ) → AllSound xs → All (λ x. IsSound x.0) (kept xs ys)
  kept-IsSound [] ys h = tt
  kept-IsSound (x ∷ xs) [] h = tt
  kept-IsSound (x ∷ xs) (y ∷ ys) (a, h) = elim (Bool-cases (eq_ℤ y (negsuc 0))) [
    | inl e ↦ rw e (kept-IsSound xs ys h)
    | inr e ↦ rw e (a, kept-IsSound xs ys h)
  ]

  AllSound-facts : (xs : List (Sample F)) → All (λ x. IsSound x.0) (map facts xs) → AllSound xs
  AllSound-facts [] h = tt
  AllSound-facts (x ∷ xs) (a, h) = (a, AllSound-facts xs h)

  -- The features of sound samples fit an `int`, and are at most a thousand for each sample.
  features_of_lem :
      (xs : List (Sample F))
      → AllSound xs
      → AllSmall (features_of xs) × (length (features_of xs) ≤ feature_capacity * length xs)
  features_of_lem [] h = (tt, omega arith)
  features_of_lem (x ∷ xs) ((a, b), h) =
      let (small, few) = features_of_lem xs h in
      (
        All-append (λ f. f < 2 ^ 31) x.features (features_of xs) b small,
        omega (arith, length-append x.features (features_of xs)),
      )

module _ {F : Type 0} ⦃fl : Floats F⦄ where
  -- The learner takes the batch over and keeps the samples whose label is not -1, each with its
  -- features, label and `ctr`. Unless it keeps none, its round with the server ends, and moves the
  -- keys of the samples kept, and key 0, by one FTRL step each, and no other key.
  abbrev pub Trains : Strftime → Tm → Tm → F → Ftrl F → Learner F → Delivery F → Type 0
  Trains strftime t u timeuse server l d =
      (l' : Learner F) × (get_data d.xs d.ys l ≡ some l')
      × (held l'.num_sample l' ≡ kept d.xs d.ys)
      × ((l'.num_sample ≡ 0)
          ⊎ ((server' : Ftrl F) × (train strftime t u timeuse server l' ≡ some server')
              × ((k : ℕ)
                  → coord_of k server' ≡ (
                      if has k (unique_keys (batch_of l'))
                      then coord_step (reset_due strftime u) (rates_of server)
                          (gradient (weight_at server.w) (batch_of l') k) (coord_of k server)
                      else coord_of k server))))

  Fits-Trains :
      (strftime : Strftime) (t u : Tm) (timeuse : F) (server : Ftrl F) (l : Learner F)
      (d : Delivery F)
      → Fits d
      → Trains strftime t u timeuse server l d
  Fits-Trains strftime t u timeuse server l d (le, room, sound) =
      let (l', done, all, few, w) =
        get_data_lem d.xs d.ys l le (omega arith) (AllFit-of d.xs sound) in
      let facts_sound = subst (All (λ x. IsSound x.0)) (sym all) (kept-IsSound d.xs d.ys sound) in
      let (small, short) =
        features_of_lem (batch_of l') (AllSound-facts (batch_of l') facts_sound) in
      let size = length-entries 0 l'.num_sample l'.samples in
      (
        l',
        done,
        all,
        elim (Bool-cases (l'.num_sample == 0)) [
          | inl e ↦ inl (ground arith)
          | inr e ↦
              inr (train_lem strftime t u timeuse server l' (ground arith) small (omega arith))
        ],
      )

  pub All-Fits-Trains :
      (strftime : Strftime) (t u : Tm) (timeuse : F) (server : Ftrl F) (l : Learner F)
      (ds : List (Delivery F))
      → All Fits ds
      → All (Trains strftime t u timeuse server l) ds
  All-Fits-Trains strftime t u timeuse server l [] h = tt
  All-Fits-Trains strftime t u timeuse server l (d ∷ ds) (a, h) = (
    Fits-Trains strftime t u timeuse server l d a,
    All-Fits-Trains strftime t u timeuse server l ds h,
  )
