-- ===== src/Ftrl/Weights.antt =====
-- src/optimizer/ftrl.cpp: what a pull answers, what `set_weight` stores, and the two together.
use ftrl_online_pslite.Prelude.{
  ℕ, suc, ◌≡◌, refl, true, false, some, List, [], ◌∷◌, map, length, arith, ◌∙◌, ap, ap₂, ◌==◌,
  if◌then◌else◌, Bool-cases, inl, inr, ◌≢◌, ==_of_ne, Above, IsStrictlySorted, ==_refl, ◌<◌,
  fun_ext, Above-lt, Above-IsStrictlySorted,
}
use ftrl_online_pslite.Prelude.Map.{Map, at_or, touch, at_or-insert, at_or-touch}
use ftrl_online_pslite.Floats.{Floats}
use ftrl_online_pslite.Clock.{Strftime, Tm}
use ftrl_online_pslite.Ftrl.{
  Ftrl, Request, replied, nought, read_weights, set_weight_key, set_weight_loop, set_weight,
  handle_request,
}
use ftrl_online_pslite.Ftrl.Coord.{coord_of, sent_to, rates_of}

module _ {F : Type 0} ⦃fl : Floats F⦄ where
  abbrev pub weight_at : Map F → ℕ → F
  weight_at w k = at_or nought k w

  read_weights_lem :
      (keys : List ℕ) (w : Map F)
      → ((read_weights keys w).0 ≡ map (weight_at w) keys)
        × ((k : ℕ) → weight_at (read_weights keys w).1 k ≡ weight_at w k)
  unfolding read_weights
  read_weights_lem [] w = (refl, λ k. refl)
  read_weights_lem (key ∷ keys) w =
      let (vals, same) = read_weights_lem keys (touch nought key w) in
      (
        ap (◌∷◌ (weight_at w key))
            (vals ∙ ap (λ f. map f keys) (fun_ext λ k. at_or-touch nought key k w)),
        λ k. same k ∙ at_or-touch nought key k w,
      )

  -- A pull of weights answers, for each key of the request in order, the key's current weight, and
  -- nought for a key that the server does not hold; no key's weight, `z`, `n` or
  -- counter changes, and neither do the rates and the flag.
  pub handle_request-pull :
      (strftime : Strftime) (t : Tm) (r : Request F) (s : Ftrl F)
      → r.push ≡ false
      → r.cmd ≢ 1
      → (s' : Ftrl F) × (handle_request strftime t r s
          ≡ replied s' r.keys (map (weight_at s.w) r.keys))
        × (rates_of s' ≡ rates_of s)
        × (s'.set_flag ≡ s.set_flag)
        × ((k : ℕ) → coord_of k s' ≡ coord_of k s)
  unfolding handle_request
  handle_request-pull strftime t r s pull other =
      let (vals, same) = read_weights_lem r.keys s.w in
      let s' : Ftrl F = record s { w = (read_weights r.keys s.w).1 } in
      (
        s',
        rw (pull, ==_of_ne r.cmd 1 other) (ap (replied s' r.keys) vals),
        refl,
        refl,
        λ k. ap (λ v. record (coord_of k s) { weight = v }) (same k),
      )

  abbrev pub last_or : F → List F → F
  last_or v [] = v
  last_or v (x ∷ xs) = last_or x xs

  weight_at-set_weight_key :
      (key k : ℕ) (v : F) (s : Ftrl F)
      → weight_at (set_weight_key key v s).w k ≡ (if key == k then v else weight_at s.w k)
  unfolding set_weight_key
  weight_at-set_weight_key key k v s = at_or-insert nought key k v s.w

  set_weight_loop_lem :
      (keys : List ℕ) (vals : List F) (s : Ftrl F)
      → length keys ≡ length vals
      → (s' : Ftrl F) × (set_weight_loop keys vals s ≡ some s')
        × (s'.z ≡ s.z)
        × (s'.n ≡ s.n)
        × ((k : ℕ) → weight_at s'.w k ≡ last_or (weight_at s.w k) (sent_to k keys vals))
  unfolding set_weight_loop sent_to set_weight_key
  set_weight_loop_lem [] vals s h = (s, refl, refl, refl, λ k. refl)
  set_weight_loop_lem (key ∷ keys) [] s h = absurd (omega arith)
  set_weight_loop_lem (key ∷ keys) (v ∷ vals) s h =
      let (s', done, z, n, weights) =
        set_weight_loop_lem keys vals (set_weight_key key v s) (omega arith) in
      (
        s',
        done,
        z,
        n,
        λ k. elim (Bool-cases (key == k)) [
          | inl e ↦ rw e (weights k ∙ rw (weight_at-set_weight_key key k v s, e))
          | inr e ↦ rw e (weights k ∙ rw (weight_at-set_weight_key key k v s, e))
        ],
      )

  -- A load of as many values as keys ends with every key at the last value that was sent to it and
  -- every other weight as it was; the flag is then set, and `z` and `n` are as before.
  pub set_weight_lem :
      (keys : List ℕ) (vals : List F) (s : Ftrl F)
      → length keys ≡ length vals
      → (s' : Ftrl F) × (set_weight keys vals s ≡ some s')
        × (s'.set_flag ≡ true)
        × (s'.z ≡ s.z)
        × (s'.n ≡ s.n)
        × ((k : ℕ) → weight_at s'.w k ≡ last_or (weight_at s.w k) (sent_to k keys vals))
  unfolding set_weight
  set_weight_lem keys vals s h =
      let (s', done, z, n, weights) = set_weight_loop_lem keys vals s h in
      (record s' { set_flag = true }, rw (done, set_weight), refl, z, n, weights)

  pub sent_to_below :
      (k key : ℕ) (keys : List ℕ) (vals : List F)
      → Above key keys
      → k < suc key
      → sent_to k keys vals ≡ []
  unfolding sent_to
  sent_to_below k key [] vals a lt = refl
  sent_to_below k key (j ∷ keys) [] a lt = refl
  sent_to_below k key (j ∷ keys) (v ∷ vals) a lt =
      rw (==_of_ne j k (omega arith)) (sent_to_below k j keys vals a.1 (omega arith))

  map-sent_to_skip :
      (f : ℕ → F) (key : ℕ) (v : F) (keys js : List ℕ) (vals : List F)
      → Above key js
      → map (λ k. last_or (f k) (sent_to k (key ∷ keys) (v ∷ vals))) js
        ≡ map (λ k. last_or (f k) (sent_to k keys vals)) js
  unfolding sent_to
  map-sent_to_skip f key v keys [] vals a = refl
  map-sent_to_skip f key v keys (j ∷ js) vals a =
      let skip : Above key js = Above-lt key j js (omega arith) a.1 in
      rw (==_of_ne key j (omega arith)) (
        ap (◌∷◌ (last_or (f j) (sent_to j keys vals))) (map-sent_to_skip f key v keys js vals skip))

  sent_to_head :
      (key : ℕ) (v : F) (keys : List ℕ) (vals : List F)
      → Above key keys
      → sent_to key (key ∷ keys) (v ∷ vals) ≡ v ∷ []
  unfolding sent_to
  sent_to_head key v keys vals a =
      rw ==_refl (ap (◌∷◌ v) (sent_to_below key key keys vals a (omega arith)))

  map-last_or :
      (f : ℕ → F) (keys : List ℕ) (vals : List F)
      → IsStrictlySorted keys
      → length keys ≡ length vals
      → map (λ k. last_or (f k) (sent_to k keys vals)) keys ≡ vals
  map-last_or f [] [] s h = refl
  map-last_or f [] (v ∷ vals) s h = absurd (omega arith)
  map-last_or f (key ∷ keys) [] s h = absurd (omega arith)
  map-last_or f (key ∷ keys) (v ∷ vals) s h =
      ap₂ ◌∷◌ (ap (last_or (f key)) (sent_to_head key v keys vals s)) (
        map-sent_to_skip f key v keys keys vals s
        ∙ map-last_or f keys vals (Above-IsStrictlySorted key keys s) (omega arith))

  -- Pushing weights under strictly increasing keys and then pulling those keys answers the pushed
  -- values, in the same order.
  pub pull-push :
      (strftime : Strftime) (t u : Tm) (keys : List ℕ) (vals : List F) (s : Ftrl F)
      → IsStrictlySorted keys
      → length keys ≡ length vals
      → (s' : Ftrl F) × (s'' : Ftrl F) × (handle_request strftime t
            (record { push = true; cmd = 1; keys = keys; vals = vals })
            s
          ≡ replied s' keys [])
        × (handle_request strftime u (record { push = false; cmd = 0; keys = keys; vals = [] }) s'
            ≡ replied s'' keys vals)
  unfolding handle_request
  pull-push strftime t u keys vals s sorted h =
      let (s', done, flag, z, n, weights) = set_weight_lem keys vals s h in
      let (s'', pulled, rates, unchanged, same) =
        handle_request-pull strftime u (record { push = false; cmd = 0; keys = keys; vals = [] }) s'
          refl (omega arith) in
      (
        s',
        s'',
        ground (arith, done),
        pulled
            ∙ ap (replied s'' keys) (
                ap (λ f. map f keys) (fun_ext weights)
                ∙ map-last_or (weight_at s.w) keys vals sorted h),
      )
