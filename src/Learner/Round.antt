-- ===== src/Learner/Round.antt =====
-- src/core/learner.cpp: one call of `update`, from the weights that a pull answers to the gradient
-- that is pushed.
use ftrl_online_pslite.Prelude.{
  ℕ, suc, ◌^◌, ◌≡◌, refl, List, [], ◌∷◌, ◌++◌, length, arith, ◌==◌, inl, inr, map, replicate, All,
  le→ltb_false, ap₂, false, ◌∙◌, ap, sym, ◌≤◌, ◌<◌, Elem, IsStrictlySorted, some, subst,
}
use native.Mathlib.Nat.{zero-add}
use ftrl_online_pslite.Prelude.Map.{Map, at_or}
use ftrl_online_pslite.Floats.{Floats}
use ftrl_online_pslite.Clock.{Tm}
use ftrl_online_pslite.StringUtil.{sigmoid}
use ftrl_online_pslite.Sample.{Sample, entries}
use ftrl_online_pslite.Learner.{
  Learner, nought, feature_room, unique_keys, store_pulled, sum_weights, predict_one, predict,
  caculate_gradient, update, close_round,
}
use ftrl_online_pslite.Learner.Keys.{
  index_of, features_of, unique_keys_lem, store_pulled_w, store_pulled_p,
}
use ftrl_online_pslite.Learner.Gradient.{
  sum_from, shares, IsPlaced, AllPlaced, caculate_gradient-map,
}

-- Every feature fits an `int`.
abbrev pub AllSmall : List ℕ → Type 0
AllSmall = All (λ f. f < 2 ^ 31)

Elem-append_left : (k : ℕ) (xs ys : List ℕ) → Elem k xs → Elem k (xs ++ ys)
Elem-append_left k [] ys m = absurd m
Elem-append_left k (x ∷ xs) ys (inl e) = inl e
Elem-append_left k (x ∷ xs) ys (inr m) = inr (Elem-append_left k xs ys m)

Elem-append_right : (k : ℕ) (xs ys : List ℕ) → Elem k ys → Elem k (xs ++ ys)
Elem-append_right k [] ys m = m
Elem-append_right k (x ∷ xs) ys m = inr (Elem-append_right k xs ys m)

AllSmall-append : (xs ys : List ℕ) → AllSmall (xs ++ ys) → AllSmall xs × AllSmall ys
AllSmall-append [] ys h = (tt, h)
AllSmall-append (x ∷ xs) ys (hx, h) =
    let (left, right) = AllSmall-append xs ys h in ((hx, left), right)

All-IsPlaced :
    (p : Map ℕ) (keys fs : List ℕ)
    → ((k : ℕ) → Elem k keys → at_or 0 k p ≡ index_of k keys)
    → ((k : ℕ) → Elem k fs → Elem k keys)
    → AllSmall fs
    → IsPlaced p keys fs
All-IsPlaced p keys [] places inside small = tt
All-IsPlaced p keys (f ∷ fs) places inside (here, rest) = (
  (here, inside f (inl refl), places f (inside f (inl refl))),
  All-IsPlaced p keys fs places (λ k m. inside k (inr m)) rest,
)

module _ {F : Type 0} ⦃fl : Floats F⦄ where
  open fl use {add}

  -- A sample with the probability that weights `f` give it.
  abbrev pub scored : (ℕ → F) → Sample F → Sample F
  scored f x = record x { pctr = sigmoid (add (sum_from nought (map f x.features)) (f 0)) }

  sum_weights-map :
      (w : Map F) (f : ℕ → F) (keys : List ℕ) (fs : List ℕ) (acc : F)
      → ((k : ℕ) → Elem k keys → at_or nought k w ≡ f k)
      → ((k : ℕ) → Elem k fs → Elem k keys)
      → sum_weights w acc fs ≡ sum_from acc (map f fs)
  unfolding sum_weights
  sum_weights-map w f keys [] acc reads inside = refl
  sum_weights-map w f keys (k ∷ fs) acc reads inside =
      rw (reads k (inside k (inl refl)))
        (sum_weights-map w f keys fs (add acc (f k)) reads (λ j m. inside j (inr m)))

  predict-map :
      (w : Map F) (f : ℕ → F) (keys : List ℕ) (xs : List (Sample F))
      → ((k : ℕ) → Elem k keys → at_or nought k w ≡ f k)
      → Elem 0 keys
      → ((k : ℕ) → Elem k (features_of xs) → Elem k keys)
      → predict w xs ≡ map (scored f) xs
  unfolding predict predict_one
  predict-map w f keys [] reads bias inside = refl
  predict-map w f keys (x ∷ xs) reads bias inside =
      ap₂ ◌∷◌
        (ap (λ v. record x { pctr = sigmoid v })
          (ap₂ add
            (sum_weights-map w f keys x.features nought reads
              (λ k m. inside k (Elem-append_left k x.features (features_of xs) m)))
            (reads 0 bias)))
        (predict-map w f keys xs reads bias
          (λ k m. inside k (Elem-append_right k x.features (features_of xs) m)))

  AllPlaced-scored :
      (p : Map ℕ) (keys : List ℕ) (f : ℕ → F) (xs : List (Sample F))
      → ((k : ℕ) → Elem k keys → at_or 0 k p ≡ index_of k keys)
      → ((k : ℕ) → Elem k (features_of xs) → Elem k keys)
      → AllSmall (features_of xs)
      → AllPlaced p keys (map (scored f) xs)
  AllPlaced-scored p keys f [] places inside small = tt
  AllPlaced-scored p keys f (x ∷ xs) places inside small = (
    All-IsPlaced p keys x.features places
        (λ k m. inside k (Elem-append_left k x.features (features_of xs) m))
        (AllSmall-append x.features (features_of xs) small).0,
    AllPlaced-scored p keys f xs places
        (λ k m. inside k (Elem-append_right k x.features (features_of xs) m))
        (AllSmall-append x.features (features_of xs) small).1,
  )

  -- The batch of a learner, the state once the weights are stored, and the gradient of a key.
  abbrev pub batch_of : Learner F → List (Sample F)
  batch_of l = entries 0 l.num_sample l.samples

  abbrev pub pulled : (ℕ → F) → Learner F → Learner F
  pulled f l = let keys = unique_keys (batch_of l) in store_pulled 0 keys (map f keys) l

  abbrev pub gradient : (ℕ → F) → List (Sample F) → ℕ → F
  gradient f xs k = sum_from nought (shares k (map (scored f) xs))

  replicate-map : (keys : List ℕ) (v : F) → replicate (length keys) v ≡ map (λ k. v) keys
  replicate-map [] v = refl
  replicate-map (k ∷ keys) v = ap (◌∷◌ v) (replicate-map keys v)

  predict-pulled :
      (f : ℕ → F) (l : Learner F)
      → predict (pulled f l).w (batch_of l) ≡ map (scored f) (batch_of l)
  predict-pulled f l =
      let keys = unique_keys (batch_of l) in
      let (sorted, first, members) = unique_keys_lem (batch_of l) in
      predict-map (pulled f l).w f keys (batch_of l)
        (λ k m. store_pulled_w 0 keys f nought k l (inr m)) ((members 0).1 (inl refl))
        (λ k m. (members k).1 (inr m))

  caculate_gradient-pulled :
      (f : ℕ → F) (l : Learner F)
      → AllSmall (features_of (batch_of l))
      → let keys = unique_keys (batch_of l) in
        caculate_gradient
          (pulled f l).p
          (map (scored f) (batch_of l))
          (replicate (length keys) nought)
        ≡ some (map (gradient f (batch_of l)) keys)
  caculate_gradient-pulled f l small =
      let keys = unique_keys (batch_of l) in
      let (sorted, (rest, first), members) = unique_keys_lem (batch_of l) in
      let placed =
        AllPlaced-scored (pulled f l).p keys f (batch_of l)
          (λ k m. store_pulled_p 0 keys f k l sorted m ∙ zero-add (index_of k keys))
          (λ k m. (members k).1 (inr m)) small in
      rw (replicate-map keys nought) (
        subst
          (λ ks.
            IsStrictlySorted ks
            → AllPlaced (pulled f l).p ks (map (scored f) (batch_of l))
            → caculate_gradient (pulled f l).p (map (scored f) (batch_of l)) (map (λ k. nought) ks)
              ≡ some (map (gradient f (batch_of l)) ks))
          (sym first)
          (caculate_gradient-map (pulled f l).p rest (map (scored f) (batch_of l)) (λ k. nought))
          sorted placed)

  -- If the servers answer a pull by weights `f`, a round with at least one sample, whose features fit
  -- an `int` and the room of `unique_features`, ends without an access out of bounds. It pushes,
  -- under the keys that it pulled, for each key the sum of the errors of the samples that have the
  -- key, where each sample is scored by the sigmoid of the sum of its features' weights and the bias.
  pub update_lem :
      (f : ℕ → F) (timeuse : F) (now : Tm) (l : Learner F)
      → 0 < l.num_sample
      → AllSmall (features_of (batch_of l))
      → suc (length (features_of (batch_of l))) ≤ feature_room
      → update (map f) timeuse now l
        ≡ some (
          close_round timeuse now (map (scored f) (batch_of l)) (pulled f l),
          some (unique_keys (batch_of l), map (gradient f (batch_of l)) (unique_keys (batch_of l))),
        )
  unfolding update
  update_lem f timeuse now l begun small room =
      let some_left : (l.num_sample == 0) ≡ false = ground arith in
      rw
        (
          some_left,
          le→ltb_false feature_room (suc (length (features_of (batch_of l)))) room,
          predict-pulled f l,
          caculate_gradient-pulled f l small,
        )
        (ap
          (λ xs. some (
            close_round timeuse now xs (pulled f l),
            some (
              unique_keys (batch_of l),
              map (gradient f (batch_of l)) (unique_keys (batch_of l)),
            ),
          ))
          (predict-pulled f l))
