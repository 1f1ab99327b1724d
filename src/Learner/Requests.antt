-- ===== src/Learner/Requests.antt =====
-- src/core/learner.cpp and src/optimizer/ftrl.cpp: what the requests of a starting worker do.
use ftrl_online_pslite.Prelude.{
  ℕ, suc, ◌≡◌, refl, ap, true, some, List, [], ◌∷◌, map, length, arith, if◌then◌else◌, Bool-cases,
  Option-cases, inl, inr,
}
use ftrl_online_pslite.Prelude.Map.{Map, keys_of, values_of}
use ftrl_online_pslite.Floats.{Floats}
use ftrl_online_pslite.Clock.{Strftime, Tm}
use ftrl_online_pslite.StringUtil.{Parsers}
use ftrl_online_pslite.Ftrl.{
  Ftrl, Request, replied, handle_request, set_weight, set_weight_loop, set_weight_key,
  set_paramfromkv,
}
use ftrl_online_pslite.Ftrl.Coord.{Rates, rates_of}
use ftrl_online_pslite.Ftrl.History.{serve, serve-handle_request, state_after}
use ftrl_online_pslite.Learner.Model.{Config, push_params, sets_params, params, resize_4}

pub length-keys_of {ℓ} : {V : Type ℓ} (m : Map V) → length (keys_of m) ≡ length (values_of m)
length-keys_of [] = refl
length-keys_of ((k, v) ∷ m) = ap suc (length-keys_of m)

pub length-resize_4 : (keys : List ℕ) → length (resize_4 keys) ≡ 4
length-resize_4 [] = refl
length-resize_4 (a ∷ []) = refl
length-resize_4 (a ∷ b ∷ []) = refl
length-resize_4 (a ∷ b ∷ c ∷ []) = refl
length-resize_4 (a ∷ b ∷ c ∷ d ∷ keys) = refl

module _ {F : Type 0} ⦃fl : Floats F⦄ where
  set_weight_loop_rates :
      (keys : List ℕ) (vals : List F) (s : Ftrl F) {s' : Ftrl F}
      → set_weight_loop keys vals s ≡ some s'
      → rates_of s' ≡ rates_of s
  unfolding set_weight_loop set_weight_key
  set_weight_loop_rates [] vals s h = cc
  set_weight_loop_rates (key ∷ keys) [] s h = cc
  set_weight_loop_rates (key ∷ keys) (v ∷ vals) s h =
      set_weight_loop_rates keys vals (set_weight_key key v s) h

  pub set_weight_rates :
      (keys : List ℕ) (vals : List F) (s : Ftrl F) {s' : Ftrl F}
      → set_weight keys vals s ≡ some s'
      → rates_of s' ≡ rates_of s
  unfolding set_weight
  set_weight_rates keys vals s h = elim (Option-cases (set_weight_loop keys vals s)) [
    | inl e ↦ let stuck = rw (set_weight, e) at h in cc
    | inr (s1, e) ↦
        let stored = rw (set_weight, e) at h in
        let loop = set_weight_loop_rates keys vals s e in ground arith
  ]

module _ {F : Type 0} (t : Tm) where
  abbrev pub timed : List (Request F) → List (Tm × Request F)
  timed = map (λ r. (t, r))

module _ {F : Type 0} ⦃fl : Floats F⦄ (strftime : Strftime) (t : Tm) (p : Parsers F)
    (c : Config) where
  -- The server's rates once a worker has started.
  abbrev pub rates_after : Rates F → Rates F
  rates_after r =
      if sets_params p c
      then (record {
        alpha = p.atof c.alpha;
        beta = p.atof c.beta;
        lamda1 = p.atof c.l1;
        lamda2 = p.atof c.l2;
      })
      else r

  abbrev with_params : Ftrl F → Ftrl F
  with_params s = record s {
    alpha = p.atof c.alpha;
    beta = p.atof c.beta;
    lamda1 = p.atof c.l1;
    lamda2 = p.atof c.l2;
  }

  serve-params :
      (keys : List ℕ) (s : Ftrl F)
      → length keys ≡ 4
      → serve strftime ((t, record { push = true; cmd = 2; keys = keys; vals = params p c }) ∷ []) s
        ≡ some (with_params s)
  unfolding serve handle_request set_paramfromkv
  serve-params keys s size =
      let r : Request F = record { push = true; cmd = 2; keys = keys; vals = params p c } in
      let handled : handle_request strftime t r s ≡ replied (with_params s) keys [] =
        ground (arith, size) in
      serve-handle_request strftime t r [] s (ap state_after handled)

  pub serve-push_params :
      (keys : List ℕ) (s : Ftrl F)
      → (s' : Ftrl F) × (serve strftime (timed t (push_params p c keys)) s ≡ some s')
        × (s'.w ≡ s.w)
        × (s'.set_flag ≡ s.set_flag)
        × (rates_of s' ≡ rates_after (rates_of s))
  unfolding serve
  serve-push_params keys s = elim (Bool-cases (sets_params p c)) [
    | inl e ↦ (
      with_params s,
      rw e (serve-params (resize_4 keys) s (length-resize_4 keys)),
      refl,
      refl,
      rw e refl,
    )
    | inr e ↦ (s, rw e refl, refl, refl, rw e refl)
  ]

  pub serve-load :
      (keys : List ℕ) (vals : List F) (rs : List (Tm × Request F)) (s : Ftrl F) {s' : Ftrl F}
      → length keys ≡ length vals
      → set_weight keys vals s ≡ some s'
      → serve strftime ((t, record { push = true; cmd = 1; keys = keys; vals = vals }) ∷ rs) s
        ≡ serve strftime rs s'
  unfolding handle_request
  serve-load keys vals rs s {s'} size done =
      let r : Request F = record { push = true; cmd = 1; keys = keys; vals = vals } in
      let handled : handle_request strftime t r s ≡ replied s' keys [] =
        ground (arith, size, done) in
      serve-handle_request strftime t r rs s (ap state_after handled)
