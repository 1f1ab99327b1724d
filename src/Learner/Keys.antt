-- ===== src/Learner/Keys.antt =====
-- src/core/learner.cpp: the keys that `update` pulls and pushes.
use ftrl_online_pslite.Prelude.{
  ℕ, zero, suc, ◌+◌, ◌≡◌, refl, List, [], ◌∷◌, arith, ◌==◌, if◌then◌else◌, inl, inr, ◌⊎◌, ◌↔◌, map,
  concat, Bool-cases, ==_iff, ◌∙◌, ◌<◌, Elem, Above, IsStrictlySorted, Above-IsStrictlySorted,
  Above-Elem-lt,
}
use ftrl_online_pslite.Prelude.Map.{at_or, insert, at_or-insert}
use ftrl_online_pslite.Sample.{Sample}
use ftrl_online_pslite.Learner.{Learner, set_insert, set_of, unique_keys, store_pulled}

set_insert-Above : (b a : ℕ) (xs : List ℕ) → b < a → Above b xs → Above b (set_insert a xs)
unfolding set_insert
set_insert-Above b a [] lt h = (lt, tt)
set_insert-Above b a (x ∷ xs) lt h = ground (arith, set_insert-Above x a xs)

set_insert-IsStrictlySorted :
    (a : ℕ) (xs : List ℕ) → IsStrictlySorted xs → IsStrictlySorted (set_insert a xs)
unfolding set_insert
set_insert-IsStrictlySorted a [] h = tt
set_insert-IsStrictlySorted a (x ∷ xs) h = ground (arith, set_insert-Above x a xs)

set_of-IsStrictlySorted : (xs : List ℕ) → IsStrictlySorted (set_of xs)
unfolding set_of
set_of-IsStrictlySorted [] = tt
set_of-IsStrictlySorted (x ∷ xs) =
    set_insert-IsStrictlySorted x (set_of xs) (set_of-IsStrictlySorted xs)

Elem-set_insert : (b a : ℕ) (xs : List ℕ) → Elem b (set_insert a xs) ↔ Elem b (a ∷ xs)
unfolding set_insert
Elem-set_insert b a [] = ground arith
Elem-set_insert b a (x ∷ xs) = ground (arith, Elem-set_insert b a xs)

Elem-set_of : (b : ℕ) (xs : List ℕ) → Elem b (set_of xs) ↔ Elem b xs
unfolding set_of
Elem-set_of b [] = (λ h. h, λ h. h)
Elem-set_of b (x ∷ xs) = ground (arith, Elem-set_insert b x (set_of xs), Elem-set_of b xs)

-- The position of a key in a list.
abbrev pub index_of : ℕ → List ℕ → ℕ
index_of k [] = 0
index_of k (x ∷ xs) = let rest = suc (index_of k xs) in if x == k then 0 else rest

set_insert_zero : (xs : List ℕ) → (rest : List ℕ) × (set_insert 0 xs ≡ 0 ∷ rest)
unfolding set_insert
set_insert_zero [] = ([], refl)
set_insert_zero (zero ∷ xs) = (xs, refl)
set_insert_zero (suc x ∷ xs) = (suc x ∷ xs, ground arith)

module _ {F : Type 0} where
  -- The features of a batch, sample by sample.
  abbrev pub features_of : List (Sample F) → List ℕ
  features_of xs = concat (map (λ x. x.features) xs)

  -- The keys of a round strictly increase, begin with key 0, and are just 0 and the features of the
  -- batch: what the servers' library asks of the keys of a pull and of a push.
  pub unique_keys_lem :
      (xs : List (Sample F))
      → IsStrictlySorted (unique_keys xs)
        × ((rest : List ℕ) × (unique_keys xs ≡ 0 ∷ rest))
        × ((k : ℕ) → Elem k (unique_keys xs) ↔ Elem k (0 ∷ features_of xs))
  unfolding unique_keys set_of
  unique_keys_lem xs = (
    set_of-IsStrictlySorted (0 ∷ features_of xs),
    set_insert_zero (set_of (features_of xs)),
    λ k. Elem-set_of k (0 ∷ features_of xs),
  )

  -- A key that is pulled reads its pulled weight; so does one that read it before.
  pub store_pulled_w :
      (k : ℕ) (keys : List ℕ) (f : ℕ → F) (d : F) (j : ℕ) (l : Learner F)
      → (at_or d j l.w ≡ f j) ⊎ Elem j keys
      → at_or d j (store_pulled k keys (map f keys) l).w ≡ f j
  unfolding store_pulled
  store_pulled_w k [] f d j l (inl e) = e
  store_pulled_w k [] f d j l (inr m) = absurd m
  store_pulled_w k (key ∷ keys) f d j l h =
      store_pulled_w (k + 1) keys f d j
        (record l { w = insert key (f key) l.w; p = insert key k l.p })
        (ground (arith, at_or-insert d key j (f key) l.w))

  store_pulled_p_other :
      (k : ℕ) (keys : List ℕ) (f : ℕ → F) (j : ℕ) (l : Learner F)
      → ¬ Elem j keys
      → at_or 0 j (store_pulled k keys (map f keys) l).p ≡ at_or 0 j l.p
  unfolding store_pulled
  store_pulled_p_other k [] f j l h = refl
  store_pulled_p_other k (key ∷ keys) f j l h =
      store_pulled_p_other (k + 1) keys f j
        (record l { w = insert key (f key) l.w; p = insert key k l.p }) (λ m. h (inr m))
      ∙ ground (arith, at_or-insert 0 key j k l.p, h)

  -- A key that is pulled has its position in the list of keys.
  pub store_pulled_p :
      (k : ℕ) (keys : List ℕ) (f : ℕ → F) (j : ℕ) (l : Learner F)
      → IsStrictlySorted keys
      → Elem j keys
      → at_or 0 j (store_pulled k keys (map f keys) l).p ≡ k + index_of j keys
  unfolding store_pulled
  store_pulled_p k [] f j l s m = absurd m
  store_pulled_p k (key ∷ keys) f j l s m =
      let l' : Learner F = record l { w = insert key (f key) l.w; p = insert key k l.p } in
      elim (Bool-cases (key == j)) [
        | inl e ↦
            let same = (==_iff key j).0 e in
            let absent : ¬ Elem j keys =
              λ n. absurd (omega (arith, Above-Elem-lt key j keys s n)) in
            rw e (
              store_pulled_p_other (k + 1) keys f j l' absent
              ∙ ground (arith, at_or-insert 0 key j k l.p))
        | inr e ↦
            let later : Elem j keys = ground arith in
            rw e (
              store_pulled_p (k + 1) keys f j l' (Above-IsStrictlySorted key keys s) later
              ∙ omega arith)
      ]
