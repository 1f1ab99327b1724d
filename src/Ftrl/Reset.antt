-- ===== src/Ftrl/Reset.antt =====
-- src/optimizer/ftrl.cpp, the midnight test of `update` and the counters `acc`.
use ftrl_online_pslite.Prelude.{
  ℕ, ◌+◌, ◌%◌, ◌^◌, ◌<◌, ◌≡◌, false, some, List, [], ◌∷◌, length, arith, ◌∙◌, ap,
}
use ftrl_online_pslite.Floats.{Floats}
use ftrl_online_pslite.Clock.{Strftime, Tm, IsStandard}
use ftrl_online_pslite.Ftrl.{Ftrl, count_up, reset_due, update}
use ftrl_online_pslite.Ftrl.Coord.{
  Coord, Rates, coord_of, coord_step, coord_run, sent_to, rates_of, update-coord_run,
}

-- With a `strftime` that copies `$M` as the standard says, at no time is the reset of `update` due:
-- `%H:$M` never spells a midnight.
pub reset_due-eq-false :
    (strftime : Strftime) (t : Tm) → IsStandard strftime → reset_due strftime t ≡ false
unfolding reset_due
reset_due-eq-false strftime t std = rw std.hour_dollar (ground arith)

module _ {F : Type 0} ⦃fl : Floats F⦄ where
  coord_run_count :
      (p : Rates F) (gs : List F) (c : Coord F)
      → c.count < 2 ^ 64
      → (coord_run false p gs c).count ≡ (c.count + length gs) % 2 ^ 64
  unfolding coord_run coord_step count_up
  coord_run_count p [] c h = omega arith
  coord_run_count p (g ∷ gs) c h = ground (arith, coord_run_count p gs (coord_step false p g c))

  -- With a standard `strftime`, at any time of day, an update with as many values as keys adds to a
  -- key's 64-bit counter the number of the key's gradients in the request, modulo 2^64; the cap of
  -- 1000000 is never put on.
  pub update_count :
      (strftime : Strftime) (t : Tm) (keys : List ℕ) (vals : List F) (s : Ftrl F) (k : ℕ)
      → IsStandard strftime
      → length keys ≡ length vals
      → (coord_of k s).count < 2 ^ 64
      → (s' : Ftrl F) × (update (reset_due strftime t) keys vals s ≡ some s')
        × ((coord_of k s').count ≡ ((coord_of k s).count + length (sent_to k keys vals)) % 2 ^ 64)
  update_count strftime t keys vals s k std h small = rw (reset_due-eq-false strftime t std) (
      let (s', done, rates, flag, coords) = update-coord_run false keys vals s h in
      (
        s',
        done,
        ap (λ (c : Coord F). c.count) (coords k)
            ∙ coord_run_count (rates_of s) (sent_to k keys vals) (coord_of k s) small,
      ))
