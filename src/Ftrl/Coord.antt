-- ===== src/Ftrl/Coord.antt =====
-- src/optimizer/ftrl.cpp seen one key at a time: each key runs FTRL on its own gradients.
use ftrl_online_pslite.Prelude.{
  ℕ, ◌≡◌, refl, Bool, some, List, [], ◌∷◌, length, ==_iff, ◌==◌, if◌then◌else◌, arith, Bool-cases,
  inl, inr, ◌∙◌,
}
use ftrl_online_pslite.Prelude.Map.{at_or, at_or-insert}
use ftrl_online_pslite.Floats.{Floats}
use ftrl_online_pslite.Ftrl.{Ftrl, count_up, nought, weight_of, update_key, update}

-- What the server holds of one key, with the default for a missing entry.
pub record Coord (F : Type 0) : Type 0 where
  pub weight : F
  pub zed : F
  pub squares : F
  pub count : ℕ

pub record Rates (F : Type 0) : Type 0 where
  pub alpha : F
  pub beta : F
  pub lamda1 : F
  pub lamda2 : F

module _ {F : Type 0} where
  abbrev pub rates_of : Ftrl F → Rates F
  rates_of s = record { alpha = s.alpha; beta = s.beta; lamda1 = s.lamda1; lamda2 = s.lamda2 }

  -- The values of a request that go to one key, in their order.
  unfoldable pub sent_to : ℕ → List ℕ → List F → List F
  sent_to k [] vals = []
  sent_to k (key ∷ keys) [] = []
  sent_to k (key ∷ keys) (g ∷ vals) =
      let rest = sent_to k keys vals in if key == k then g ∷ rest else rest

module _ {F : Type 0} ⦃fl : Floats F⦄ where
  open fl use {add, sub, mul, div, sqrt}

  abbrev pub coord_of : ℕ → Ftrl F → Coord F
  coord_of k s = record {
    weight = at_or nought k s.w;
    zed = at_or nought k s.z;
    squares = at_or nought k s.n;
    count = at_or 0 k s.acc;
  }

  -- FTRL-proximal for one coordinate: the gradient enters `n` and `z`, and the weight is the closed
  -- form of the two.
  unfoldable pub coord_step : Bool → Rates F → F → Coord F → Coord F
  coord_step reset p g c =
      let squares = add c.squares (mul g g) in
      let rate = div (sub (sqrt squares) (sqrt c.squares)) p.alpha in
      let zed = add c.zed (sub g (mul rate c.weight)) in
      record {
        weight = weight_of p.alpha p.beta p.lamda1 p.lamda2 zed squares;
        zed = zed;
        squares = squares;
        count = count_up reset c.count;
      }

  unfoldable pub coord_run : Bool → Rates F → List F → Coord F → Coord F
  coord_run reset p [] c = c
  coord_run reset p (g ∷ gs) c = coord_run reset p gs (coord_step reset p g c)

  coord_of-update_key :
      (reset : Bool) (key k : ℕ) (g : F) (s : Ftrl F)
      → coord_of k (update_key reset key g s)
        ≡ (if key == k then coord_step reset (rates_of s) g (coord_of k s) else coord_of k s)
  unfolding update_key coord_step
  coord_of-update_key reset key k g s = elim (Bool-cases (key == k)) [
    | inl e ↦ let same : key ≡ k = (==_iff key k).0 e in simp (at_or-insert, e) (rw same)
    | inr e ↦ simp (at_or-insert, e)
  ]

  coord_run-update_key :
      (reset : Bool) (key k : ℕ) (g : F) (keys : List ℕ) (vals : List F) (s : Ftrl F)
      → coord_run reset (rates_of s) (sent_to k keys vals) (coord_of k (update_key reset key g s))
        ≡ coord_run reset (rates_of s) (sent_to k (key ∷ keys) (g ∷ vals)) (coord_of k s)
  unfolding coord_run sent_to
  coord_run-update_key reset key k g keys vals s = elim (Bool-cases (key == k)) [
    | inl e ↦ rw (coord_of-update_key reset key k g s, e)
    | inr e ↦ rw (coord_of-update_key reset key k g s, e)
  ]

  -- A request of as many values as keys is taken without an access past the end; every key then
  -- stands where FTRL on that key's own gradients takes it, in their order; and nothing else moves.
  pub update-coord_run :
      (reset : Bool) (keys : List ℕ) (vals : List F) (s : Ftrl F)
      → length keys ≡ length vals
      → (s' : Ftrl F) × (update reset keys vals s ≡ some s')
        × (rates_of s' ≡ rates_of s)
        × (s'.set_flag ≡ s.set_flag)
        × ((k : ℕ)
            → coord_of k s' ≡ coord_run reset (rates_of s) (sent_to k keys vals) (coord_of k s))
  unfolding update update_key sent_to coord_run
  update-coord_run reset [] vals s h = (s, refl, refl, refl, λ k. refl)
  update-coord_run reset (key ∷ keys) [] s h = absurd (omega arith)
  update-coord_run reset (key ∷ keys) (g ∷ vals) s h =
      let (s', done, rates, flag, coords) =
        update-coord_run reset keys vals (update_key reset key g s) (omega arith) in
      (s', done, rates, flag, λ k. coords k ∙ coord_run-update_key reset key k g keys vals s)
