-- ===== src/Learner/Train.antt =====
-- src/core/learner.cpp and src/optimizer/ftrl.cpp together: one round of training, from the pull of
-- the weights to the push of the gradient, against one server.
use ftrl_online_pslite.Prelude.{
  ℕ, suc, ◌≡◌, refl, List, [], ◌∷◌, length, arith, ◌==◌, if◌then◌else◌, inl, inr, map, length-map,
  fun_ext, Bool, ◌||◌, Bool-cases, true, false, ==_iff, ◌∙◌, ap, sym, ◌≤◌, ◌<◌, IsStrictlySorted,
  Above-IsStrictlySorted, Option, some, none,
}
use ftrl_online_pslite.Floats.{Floats}
use ftrl_online_pslite.Clock.{Strftime, Tm}
use ftrl_online_pslite.Ftrl.{
  Ftrl, Request, Outcome, replied, reset_due, handle_request, update as server_update,
}
use ftrl_online_pslite.Ftrl.Coord.{
  Coord, Rates, coord_of, coord_step, coord_run, sent_to, rates_of, update-coord_run,
}
use ftrl_online_pslite.Ftrl.History.{state_after}
use ftrl_online_pslite.Ftrl.Weights.{weight_at, handle_request-pull, sent_to_below}
use ftrl_online_pslite.Learner.{Learner, feature_room, unique_keys, update}
use ftrl_online_pslite.Learner.Keys.{features_of, unique_keys_lem}
use ftrl_online_pslite.Learner.Round.{AllSmall, batch_of, gradient, update_lem}

abbrev pub has : ℕ → List ℕ → Bool
has k [] = false
has k (x ∷ xs) = (x == k) || has k xs

module _ {F : Type 0} ⦃fl : Floats F⦄ where
  abbrev reply_vals : Outcome F → List F
  reply_vals (replied s keys vals) = vals
  reply_vals _ = []

  abbrev pull_request : List ℕ → Request F
  pull_request keys = record { push = false; cmd = 0; keys = keys; vals = [] }

  abbrev push_request : List ℕ → List F → Request F
  push_request keys vals = record { push = true; cmd = 0; keys = keys; vals = vals }

  -- The learner's round against one server in state `s`, at the times `t` of the pull and `u` of
  -- the push: the pull may put keys into the server's map before the push is handled.
  abbrev push_after : Strftime → Tm → List ℕ → List F → Option (Ftrl F) → Option (Ftrl F)
  push_after strftime u keys grad none = none
  push_after strftime u keys grad (some s) =
      state_after (handle_request strftime u (push_request keys grad) s)

  abbrev push_to : Strftime → Tm → Tm → Ftrl F → List ℕ → List F → Option (Ftrl F)
  push_to strftime t u s keys grad =
      push_after strftime u keys grad
        (state_after (handle_request strftime t (pull_request keys) s))

  abbrev send :
      Strftime → Tm → Tm → Ftrl F → Option (Learner F × Option (List ℕ × List F)) → Option (Ftrl F)
  send strftime t u s none = none
  send strftime t u s (some (l, none)) = some s
  send strftime t u s (some (l, some (keys, grad))) = push_to strftime t u s keys grad

  unfoldable pub train : Strftime → Tm → Tm → F → Ftrl F → Learner F → Option (Ftrl F)
  train strftime t u timeuse s l =
      let pull = λ (keys : List ℕ). reply_vals (handle_request strftime t (pull_request keys) s) in
      send strftime t u s (update pull timeuse u l)

  sent_to-map :
      (k : ℕ) (keys : List ℕ) (h : ℕ → F)
      → IsStrictlySorted keys
      → sent_to k keys (map h keys) ≡ (if has k keys then h k ∷ [] else [])
  unfolding sent_to
  sent_to-map k [] h s = refl
  sent_to-map k (key ∷ keys) h s = elim (Bool-cases (key == k)) [
    | inl e ↦
        let same = (==_iff key k).0 e in
        let none_left = sent_to_below k key keys (map h keys) s (omega arith) in
        rw (e, none_left, same)
    | inr e ↦ rw e (sent_to-map k keys h (Above-IsStrictlySorted key keys s))
  ]

  push_update :
      (strftime : Strftime) (u : Tm) (keys : List ℕ) (vals : List F) (s : Ftrl F) {s' : Ftrl F}
      → length keys ≡ length vals
      → server_update (reset_due strftime u) keys vals s ≡ some s'
      → handle_request strftime u (push_request keys vals) s ≡ replied s' keys []
  unfolding handle_request
  push_update strftime u keys vals s h done = ground (arith, done)

  coord_run_once :
      (reset : Bool) (p : Rates F) (b : Bool) (g : F) (c : Coord F)
      → coord_run reset p (if b then g ∷ [] else []) c ≡ (if b then coord_step reset p g c else c)
  unfolding coord_run
  coord_run_once reset p true g c = refl
  coord_run_once reset p false g c = refl

  -- A pull and a push of one value for each key of a strictly increasing list.
  push_to_lem :
      (strftime : Strftime) (t u : Tm) (s : Ftrl F) (keys : List ℕ) (h : ℕ → F)
      → IsStrictlySorted keys
      → (s' : Ftrl F) × (push_to strftime t u s keys (map h keys) ≡ some s')
        × ((k : ℕ)
            → coord_of k s' ≡ (
                if has k keys
                then coord_step (reset_due strftime u) (rates_of s) (h k) (coord_of k s)
                else coord_of k s))
  push_to_lem strftime t u s keys h sorted =
      let (s1, pulled, rates, flag, same) =
        handle_request-pull strftime t (pull_request keys) s refl (omega arith) in
      let size : length keys ≡ length (map h keys) = sym (length-map h keys) in
      let (s2, done, rates2, flag2, coords) =
        update-coord_run (reset_due strftime u) keys (map h keys) s1 size in
      (
        s2,
        ap (λ o. push_after strftime u keys (map h keys) (state_after o)) pulled
            ∙ ap state_after (push_update strftime u keys (map h keys) s1 size done),
        λ k.
            coords k
            ∙ rw (rates, sent_to-map k keys h sorted, same k)
                (coord_run_once (reset_due strftime u) (rates_of s) (has k keys) (h k)
                  (coord_of k s)),
      )

  -- If a batch has at least one sample, and its features fit an `int` and the room of
  -- `unique_features`, a round against one server ends without an access out of bounds. It moves every key of the batch, and key 0, by one FTRL step with the key's gradient
  -- at the server's own weights, and leaves every other key as it was.
  pub train_lem :
      (strftime : Strftime) (t u : Tm) (timeuse : F) (s : Ftrl F) (l : Learner F)
      → 0 < l.num_sample
      → AllSmall (features_of (batch_of l))
      → suc (length (features_of (batch_of l))) ≤ feature_room
      → (s' : Ftrl F) × (train strftime t u timeuse s l ≡ some s')
        × ((k : ℕ)
            → coord_of k s' ≡ (
                if has k (unique_keys (batch_of l))
                then coord_step
                    (reset_due strftime u)
                    (rates_of s)
                    (gradient (weight_at s.w) (batch_of l) k)
                    (coord_of k s)
                else coord_of k s))
  unfolding train
  train_lem strftime t u timeuse s l begun small room =
      let weights = weight_at s.w in
      let keys = unique_keys (batch_of l) in
      let (s', done, coords) =
        push_to_lem strftime t u s keys (gradient weights (batch_of l))
          (unique_keys_lem (batch_of l)).0 in
      let answer : (λ (ks : List ℕ). reply_vals (handle_request strftime t (pull_request ks) s))
          ≡ map weights =
        fun_ext λ ks.
          ap reply_vals (handle_request-pull strftime t (pull_request ks) s refl (omega arith)).1 in
      (
        s',
        ap (λ pull. send strftime t u s (update pull timeuse u l)) answer
            ∙ ap (send strftime t u s) (update_lem weights timeuse u l begun small room)
            ∙ done,
        coords,
      )
