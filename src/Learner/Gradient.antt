-- ===== src/Learner/Gradient.antt =====
-- src/core/learner.cpp: `caculate_gradient` adds up, for every key, the errors of the samples that
-- have it.
use ftrl_online_pslite.Prelude.{
  ℕ, ◌^◌, ◌≡◌, refl, List, [], ◌∷◌, ◌++◌, length, arith, ◌==◌, if◌then◌else◌, inl, inr, map, get_or,
  set, All, lt→ltb, length-map, fun_ext, ap₂, Bool-cases, true, false, ==_iff, ◌∙◌, ap, sym, ◌≤◌,
  ◌<◌, Elem, Above, IsStrictlySorted, Above-IsStrictlySorted, some, ==_of_ne,
}
use ftrl_online_pslite.Prelude.Map.{Map, at_or}
use ftrl_online_pslite.Floats.{Floats}
use ftrl_online_pslite.Sample.{Sample}
use ftrl_online_pslite.Learner.{
  skey, nought, error_of, add_at, gradient_features, caculate_gradient,
}
use ftrl_online_pslite.Learner.Keys.{index_of}

index_of-lt : (k : ℕ) (keys : List ℕ) → Elem k keys → index_of k keys < length keys
index_of-lt k [] m = absurd m
index_of-lt k (x ∷ keys) m = ground (arith, index_of-lt k keys)

module _ {ℓ} {A : Type ℓ} where
  get_or-index_of :
      (k : ℕ) (keys : List ℕ) (g : ℕ → A) (d : A)
      → Elem k keys
      → get_or (map g keys) (index_of k keys) d ≡ g k
  get_or-index_of k [] g d m = absurd m
  get_or-index_of k (x ∷ keys) g d m = ground (arith, get_or-index_of k keys g d)

  map_other :
      (k x : ℕ) (keys : List ℕ) (g : ℕ → A) (v : A)
      → Above x keys
      → k ≤ x
      → map (λ j. if k == j then v else g j) keys ≡ map g keys
  map_other k x [] g v h le = refl
  map_other k x (y ∷ keys) g v h le =
      rw (==_of_ne k y (omega arith)) (ap (◌∷◌ (g y)) (map_other k y keys g v h.1 (omega arith)))

  set-index_of :
      (k : ℕ) (keys : List ℕ) (g : ℕ → A) (v : A)
      → IsStrictlySorted keys
      → Elem k keys
      → set (map g keys) (index_of k keys) v ≡ map (λ j. if k == j then v else g j) keys
  set-index_of k [] g v s m = refl
  set-index_of k (x ∷ keys) g v s m = elim (Bool-cases (x == k)) [
    | inl e ↦
        let same = (==_iff x k).0 e in
        let back : (k == x) ≡ true = ground arith in
        rw (e, back) (ap (◌∷◌ v) (sym (map_other k x keys g v s (omega arith))))
    | inr e ↦
        let later : Elem k keys = ground arith in
        let other : (k == x) ≡ false = ground arith in
        rw (e, other)
          (ap (◌∷◌ (g x)) (set-index_of k keys g v (Above-IsStrictlySorted x keys s) later))
  ]

-- The key that a feature below 2^31 looks up is the feature.
skey_small : (f : ℕ) → f < 2 ^ 31 → skey f ≡ f
skey_small f h = ground arith

-- Features that fit an `int`, are among the keys, and have their positions in `P`.
abbrev pub IsPlaced : Map ℕ → List ℕ → List ℕ → Type 0
IsPlaced p keys = All (λ f. (f < 2 ^ 31) × Elem f keys × (at_or 0 f p ≡ index_of f keys))

module _ {F : Type 0} ⦃fl : Floats F⦄ where
  open fl use {add}

  -- The errors that go to key `k` from the features of one sample, and from a batch: one for each
  -- time that the key stands among the features, and one more for the bias key 0.
  unfoldable pub shares_in : ℕ → F → List ℕ → List F
  shares_in k err [] = []
  shares_in k err (f ∷ fs) = let rest = shares_in k err fs in if f == k then err ∷ rest else rest

  unfoldable pub shares : ℕ → List (Sample F) → List F
  shares k [] = []
  shares k (x ∷ xs) =
      let bias = (if 0 == k then error_of x ∷ [] else []) in
      shares_in k (error_of x) x.features ++ (bias ++ shares k xs)

  -- The sum in floating point, from left to right.
  abbrev pub sum_from : F → List F → F
  sum_from acc [] = acc
  sum_from acc (e ∷ es) = sum_from (add acc e) es

  sum_from-append :
      (acc : F) (es fs : List F) → sum_from acc (es ++ fs) ≡ sum_from (sum_from acc es) fs
  sum_from-append acc [] fs = refl
  sum_from-append acc (e ∷ es) fs = sum_from-append (add acc e) es fs

  add_at-map :
      (f : ℕ) (err : F) (keys : List ℕ) (g : ℕ → F)
      → IsStrictlySorted keys
      → Elem f keys
      → add_at (index_of f keys) err (map g keys)
        ≡ some (map (λ k. if f == k then add (g f) err else g k) keys)
  add_at-map f err keys g s m =
      let inside : index_of f keys < length (map g keys) =
        rw (length-map g keys) (index_of-lt f keys m) in
      rw (lt→ltb (index_of f keys) (length (map g keys)) inside, get_or-index_of f keys g nought m)
        (ap some (set-index_of f keys g (add (g f) err) s m))

  one_share :
      (f k : ℕ) (err : F) (g : ℕ → F) (es : List F)
      → sum_from (if f == k then add (g f) err else g k) es
        ≡ sum_from (g k) (if f == k then err ∷ es else es)
  one_share f k err g es = elim (Bool-cases (f == k)) [
    | inl e ↦ rw (e, (==_iff f k).0 e)
    | inr e ↦ rw e
  ]

  gradient_features-map :
      (p : Map ℕ) (keys : List ℕ) (err : F) (fs : List ℕ) (g : ℕ → F)
      → IsStrictlySorted keys
      → IsPlaced p keys fs
      → gradient_features p err fs (map g keys)
        ≡ some (map (λ k. sum_from (g k) (shares_in k err fs)) keys)
  unfolding gradient_features shares_in
  gradient_features-map p keys err [] g sorted h = refl
  gradient_features-map p keys err (f ∷ fs) g sorted ((small, there, place), rest) =
      let g' = λ (k : ℕ). if f == k then add (g f) err else g k in
      let step = add_at-map f err keys g sorted there in
      let same = λ (k : ℕ). one_share f k err g (shares_in k err fs) in
      rw (skey_small f small, place, step, gradient_features)
        (gradient_features-map p keys err fs g' sorted rest
          ∙ ap (λ (h : ℕ → F). some (map h keys)) (fun_ext same))

  bias_append :
      (k : ℕ) (err : F) (es : List F)
      → (if 0 == k then err ∷ es else es) ≡ (if 0 == k then err ∷ [] else []) ++ es
  bias_append k err es = elim (Bool-cases (0 == k)) [ inl e ↦ rw e | inr e ↦ rw e ]

  -- The entry of a key after the features of a sample, its bias and the samples behind it.
  whole_share :
      (k : ℕ) (err start : F) (g : ℕ → F) (es later : List F)
      → g k ≡ sum_from start es
      → sum_from (if 0 == k then add (g 0) err else g k) later
        ≡ sum_from start (es ++ ((if 0 == k then err ∷ [] else []) ++ later))
  whole_share k err start g es later here =
      one_share 0 k err g later
      ∙ ap₂ sum_from here (bias_append k err later)
      ∙ sym (sum_from-append start es ((if 0 == k then err ∷ [] else []) ++ later))

  abbrev pub AllPlaced : Map ℕ → List ℕ → List (Sample F) → Type 0
  AllPlaced p keys = All (λ x. IsPlaced p keys x.features)

  -- If the keys strictly increase from key 0 on and every feature of the batch is placed among them,
  -- the loops stay within `grad`, and add to each key's entry the errors of the samples that have
  -- the key, in their order.
  pub caculate_gradient-map :
      (p : Map ℕ) (rest : List ℕ) (xs : List (Sample F)) (g : ℕ → F)
      → IsStrictlySorted (0 ∷ rest)
      → AllPlaced p (0 ∷ rest) xs
      → caculate_gradient p xs (map g (0 ∷ rest))
        ≡ some (map (λ k. sum_from (g k) (shares k xs)) (0 ∷ rest))
  unfolding caculate_gradient shares
  caculate_gradient-map p rest [] g sorted h = refl
  caculate_gradient-map p rest (x ∷ xs) g sorted (hx, hxs) =
      let err = error_of x in
      let g1 = λ (k : ℕ). sum_from (g k) (shares_in k err x.features) in
      let g2 = λ (k : ℕ). if 0 == k then add (g1 0) err else g1 k in
      let same =
        λ (k : ℕ). whole_share k err (g k) g1 (shares_in k err x.features) (shares k xs) refl in
      rw
        (
          gradient_features-map p (0 ∷ rest) err x.features g sorted hx,
          add_at-map 0 err (0 ∷ rest) g1 sorted (inl refl),
          caculate_gradient,
        )
        (caculate_gradient-map p rest xs g2 sorted hxs
          ∙ ap (λ (h : ℕ → F). some (map h (0 ∷ rest))) (fun_ext same))
