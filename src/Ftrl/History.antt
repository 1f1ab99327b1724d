-- ===== src/Ftrl/History.antt =====
-- src/optimizer/ftrl.cpp over a whole run: the flag that tells the first worker to load the model.
use ftrl_online_pslite.Prelude.{
  ℕ, ◌≡◌, Bool, true, false, ◌&&◌, ◌||◌, Option, none, some, List, [], ◌∷◌, length, arith, ◌==◌,
  if◌then◌else◌, replicate, inl, inr, Option-cases,
}
use ftrl_online_pslite.Prelude.Int.{pos}
use ftrl_online_pslite.Floats.{Floats}
use ftrl_online_pslite.Clock.{Strftime, Tm}
use ftrl_online_pslite.Ftrl.{
  Ftrl, Request, Outcome, replied, check_failed, out_of_bounds, nought, update, update_key, start,
  set_weight, set_paramfromkv, handle_request, reset_due,
}

-- A push of `cmd` 1, the load of a model.
abbrev pub is_load : {F : Type 0} → Request F → Bool
is_load r = r.push && r.cmd == 1

module _ {F : Type 0} ⦃fl : Floats F⦄ where
  abbrev pub state_after : Outcome F → Option (Ftrl F)
  state_after (replied s keys vals) = some s
  state_after check_failed = none
  state_after out_of_bounds = none

  -- The requests of a run, each with the time of its handling; `none` if one of them fails.
  unfoldable pub serve : Strftime → List (Tm × Request F) → Ftrl F → Option (Ftrl F)
  serve strftime [] s = some s
  serve strftime ((t, r) ∷ rs) s = elim (state_after (handle_request strftime t r s)) [
    | none ↦ none
    | some s' ↦ serve strftime rs s'
  ]

  pub serve-handle_request :
      (strftime : Strftime) (t : Tm) (r : Request F) (rs : List (Tm × Request F)) (s : Ftrl F)
      {s' : Ftrl F}
      → state_after (handle_request strftime t r s) ≡ some s'
      → serve strftime ((t, r) ∷ rs) s ≡ serve strftime rs s'
  unfolding serve
  serve-handle_request strftime t r rs s e = rw (serve, e)

  abbrev pub any_load : List (Tm × Request F) → Bool
  any_load [] = false
  any_load ((t, r) ∷ rs) = is_load r || any_load rs

  update_flag :
      (reset : Bool) (keys : List ℕ) (vals : List F) (s : Ftrl F) {s' : Ftrl F}
      → update reset keys vals s ≡ some s'
      → s'.set_flag ≡ s.set_flag
  unfolding update update_key
  update_flag reset [] vals s h = cc
  update_flag reset (key ∷ keys) [] s h = cc
  update_flag reset (key ∷ keys) (g ∷ vals) s h =
      update_flag reset keys vals (update_key reset key g s) h

  set_weight_flag :
      (keys : List ℕ) (vals : List F) (s : Ftrl F) {s' : Ftrl F}
      → set_weight keys vals s ≡ some s'
      → s'.set_flag ≡ true
  unfolding set_weight
  set_weight_flag keys vals s h = ground arith

  set_paramfromkv_flag :
      (vals : List F) (s : Ftrl F) {s' : Ftrl F}
      → set_paramfromkv vals s ≡ some s'
      → s'.set_flag ≡ s.set_flag
  unfolding set_paramfromkv
  set_paramfromkv_flag (a ∷ b ∷ c ∷ d ∷ vals) s h = cc
  set_paramfromkv_flag _ s h = cc

  handle_request_flag :
      (strftime : Strftime) (t : Tm) (r : Request F) (s : Ftrl F) {s' : Ftrl F}
      → state_after (handle_request strftime t r s) ≡ some s'
      → s'.set_flag ≡ (s.set_flag || is_load r)
  unfolding handle_request
  handle_request_flag strftime t r s {s'} h = ground (
    arith,
    set_weight_flag r.keys r.vals s {s' = s'},
    set_paramfromkv_flag r.vals s {s' = s'},
    update_flag (reset_due strftime t) r.keys r.vals s {s' = s'},
  )

  -- After a run of requests from any state, all of which are answered, the flag is set exactly if it
  -- was set before or some request of the run loaded a model; nothing takes it back.
  pub serve_flag :
      (strftime : Strftime) (rs : List (Tm × Request F)) (s : Ftrl F) {s' : Ftrl F}
      → serve strftime rs s ≡ some s'
      → s'.set_flag ≡ (s.set_flag || any_load rs)
  unfolding serve
  serve_flag strftime [] s h = ground arith
  serve_flag strftime ((t, r) ∷ rs) s h =
      elim (Option-cases (state_after (handle_request strftime t r s))) [
        | inl e ↦ let stuck = rw (serve, e) at h in cc
        | inr (s1, e) ↦
            let here = handle_request_flag strftime t r s e in
            let later = serve_flag strftime rs s1 (rw (serve, e) at h) in ground arith
      ]

  -- On a server that has answered some requests since its start, the pull of `cmd` 1 with at least
  -- one key answers nought if one of them loaded a model and one if none did, with noughts for the
  -- further keys.
  pub flag_pull :
      (strftime : Strftime) (alpha beta l1 l2 : F) (rs : List (Tm × Request F)) (t : Tm) (key : ℕ)
      (keys : List ℕ) {s : Ftrl F}
      → serve strftime rs (start alpha beta l1 l2) ≡ some s
      → handle_request strftime t (record { push = false; cmd = 1; keys = key ∷ keys; vals = [] }) s
        ≡ replied s
            (key ∷ keys)
            ((if any_load rs then nought else fl.of_int (pos 1)) ∷ replicate (length keys) nought)
  unfolding handle_request start
  flag_pull strftime alpha beta l1 l2 rs t key keys h =
      rw (serve_flag strftime rs (start alpha beta l1 l2) h)
