-- ===== src/RecordLog.antt =====
-- src/utils/loginfo.h: the counters that the parser and the learners keep and write to the log. The
-- counters are `int`s that each print resets; their overflow is not modelled, nor is the text.
use ftrl_online_pslite.Prelude.{
  ℕ, ◌+◌, ◌%◌, ◌≤◌, ◌≡◌, refl, Bool, true, false, ◌&&◌, not, ◌==◌, if◌then◌else◌, arith, List, [],
  ◌∷◌,
}
use ftrl_online_pslite.Prelude.Int.{ℤ, pos, negsuc, ◌-ℤ◌, eq_ℤ}
use ftrl_online_pslite.Floats.{Floats}
use ftrl_online_pslite.Clock.{Tm}

-- `stat[13]`, `cnt[13]`, `neghour[24]` and `poshour[24]` as functions of the index.
pub record RecordLog (F : Type 0) : Type 0 where
  pub stat : ℕ → F
  pub cnt : ℕ → ℕ
  pub pre_min : ℤ
  pub neghour : ℕ → ℕ
  pub poshour : ℕ → ℕ

abbrev pub update_at {ℓ} : {A : Type ℓ} → (ℕ → A) → ℕ → A → ℕ → A
update_at f i a j = if i == j then a else f j

abbrev pub bump : (ℕ → ℕ) → ℕ → ℕ → ℕ
bump f i = update_at f i (f i + 1)

abbrev pub AllAt : ℕ → List Tm → Type 0
AllAt m [] = Unit
AllAt m (t ∷ ts) = (t.tm_min ≡ m) × AllAt m ts

module _ {F : Type 0} ⦃fl : Floats F⦄ where
  open fl use {of_int, add}

  unfoldable pub init : RecordLog F
  init = record {
    stat = λ i. of_int (pos 0);
    cnt = λ i. 0;
    pre_min = negsuc 0;
    neghour = λ i. 0;
    poshour = λ i. 0;
  }

  abbrev add_stat : (ℕ → F) → ℕ → F → ℕ → F
  add_stat f i v = update_at f i (add (f i) v)

  -- `ttm` is the local time of `time1`.
  unfoldable pub stat_delay1 : ℤ → ℤ → Tm → RecordLog F → RecordLog F
  stat_delay1 time1 time2 ttm l = record l {
    stat = add_stat l.stat 1 (of_int (time2 -ℤ time1));
    cnt = bump l.cnt 11;
    poshour = bump l.poshour ttm.tm_hour;
  }

  unfoldable pub stat_delay0 : ℤ → ℤ → Tm → RecordLog F → RecordLog F
  stat_delay0 time1 time2 ttm l = record l {
    stat = add_stat l.stat 0 (of_int (time2 -ℤ time1));
    cnt = bump l.cnt 10;
    neghour = bump l.neghour ttm.tm_hour;
  }

  unfoldable pub stat_sample_num : ℤ → RecordLog F → RecordLog F
  stat_sample_num label l =
      let first = (if eq_ℤ label (pos 0) then record l { cnt = bump l.cnt 0 } else l) in
      if eq_ℤ label (pos 1) then record first { cnt = bump first.cnt 1 } else first

  unfoldable pub stat_qps : F → RecordLog F → RecordLog F
  stat_qps usetime l = record l { stat = add_stat l.stat 8 usetime }

  unfoldable pub stat_info : (ll1 ll2 p1 p2 vari vari_online : F) → RecordLog F → RecordLog F
  stat_info ll1 ll2 p1 p2 vari vari_online l =
      let s2 = add_stat l.stat 2 ll1 in
      let s3 = add_stat s2 3 ll2 in
      let s4 = add_stat s3 4 p1 in
      let s5 = add_stat s4 5 p2 in
      let s6 = add_stat s5 6 vari in
      record l { stat = add_stat s6 7 vari_online; cnt = bump l.cnt 4 }

  -- The test of `Printbyapp` and of `Print`, and what they do when it passes: the result says
  -- whether a line is logged.
  unfoldable pub print : Tm → RecordLog F → RecordLog F × Bool
  print now l =
      if (now.tm_min % 5 == 0) && not (eq_ℤ l.pre_min (pos now.tm_min))
      then (record l { pre_min = pos now.tm_min; stat = λ i. of_int (pos 0); cnt = λ i. 0 }, true)
      else (l, false)

  -- The lines that calls at the given times log.
  abbrev pub lines_logged : List Tm → RecordLog F → ℕ
  lines_logged [] l = 0
  lines_logged (t ∷ ts) l =
      let (l', done) = print t l in (if done then 1 else 0) + lines_logged ts l'

  print_again :
      (m : ℕ) (t : Tm) (l : RecordLog F) → t.tm_min ≡ m → l.pre_min ≡ pos m → print t l ≡ (l, false)
  unfolding print
  print_again m t l here e = rw (e, here) (ground arith)

  none_again :
      (m : ℕ) (ts : List Tm) (l : RecordLog F)
      → AllAt m ts
      → l.pre_min ≡ pos m
      → lines_logged ts l ≡ 0
  none_again m [] l h e = refl
  none_again m (t ∷ ts) l h e =
      rw (print_again m t l h.0 e) (omega (arith, none_again m ts l h.1 e))

  -- However often it is called within one minute, and whatever was logged before, at most one line
  -- goes to the log.
  pub lines_logged-le_one :
      (m : ℕ) (ts : List Tm) (l : RecordLog F) → AllAt m ts → lines_logged ts l ≤ 1
  unfolding print
  lines_logged-le_one m [] l h = omega arith
  lines_logged-le_one m (t ∷ ts) l (here, rest) = ground (
    arith,
    lines_logged-le_one m ts l rest,
    none_again m ts (record l { pre_min = pos t.tm_min; stat = λ i. of_int (pos 0); cnt = λ i. 0 })
        rest,
  )
