-- ===== src/Tools/Counters.antt =====
-- tools/loginfo.h: `prof_t`, the counters of the earlier program. Its fields are those of
-- `RecordLog`, and `int` overflow and the printed text are left out here too.
use ftrl_online_pslite.Prelude.{ℕ, ◌%◌, Bool, true, false, ◌&&◌, not, ◌==◌, if◌then◌else◌}
use ftrl_online_pslite.Prelude.Int.{ℤ, pos, ◌-ℤ◌, eq_ℤ}
use ftrl_online_pslite.Floats.{Floats}
use ftrl_online_pslite.Clock.{Tm}
use ftrl_online_pslite.RecordLog.{RecordLog, update_at, bump}

module _ {F : Type 0} ⦃fl : Floats F⦄ where
  open fl use {of_int, add}

  abbrev plus : ℕ → F → RecordLog F → RecordLog F
  plus i v l = record l { stat = update_at l.stat i (add (l.stat i) v) }

  abbrev counted : ℕ → RecordLog F → RecordLog F
  counted i l = record l { cnt = bump l.cnt i }

  -- `ttm` is the local time of `time1`.
  unfoldable pub test1 : ℤ → ℤ → Tm → RecordLog F → RecordLog F
  test1 time1 time2 ttm l =
      let l1 = counted 11 (plus 1 (of_int (time2 -ℤ time1)) l) in
      record l1 { poshour = bump l1.poshour ttm.tm_hour }

  unfoldable pub test0 : ℤ → ℤ → Tm → RecordLog F → RecordLog F
  test0 time1 time2 ttm l =
      let l1 = counted 10 (plus 0 (of_int (time2 -ℤ time1)) l) in
      record l1 { neghour = bump l1.neghour ttm.tm_hour }

  unfoldable pub statis0 : RecordLog F → RecordLog F
  statis0 l = counted 0 l

  unfoldable pub statis1 : RecordLog F → RecordLog F
  statis1 l = counted 1 l

  unfoldable pub statis2 : RecordLog F → RecordLog F
  statis2 l = counted 2 l

  unfoldable pub statis3 : RecordLog F → RecordLog F
  statis3 l = counted 3 l

  -- `stat[6]` is the time, and the variance of the scores as well.
  unfoldable pub statis_qps : F → RecordLog F → RecordLog F
  statis_qps usetime l = plus 6 usetime l

  unfoldable pub statislp : (ll1 ll2 p1 p2 vari vari_online : F) → RecordLog F → RecordLog F
  statislp ll1 ll2 p1 p2 vari vari_online l =
      plus 7 vari_online
        (plus 6 vari (counted 4 (plus 5 p2 (plus 4 p1 (plus 3 ll2 (plus 2 ll1 l))))))

  -- The test of `proflearner` and of `prof`, and what it does when it passes: whether a line is logged.
  unfoldable pub proflearner : Tm → RecordLog F → RecordLog F × Bool
  proflearner now l =
      if (now.tm_min % 5 == 0) && not (eq_ℤ l.pre_min (pos now.tm_min))
      then (record l { pre_min = pos now.tm_min; stat = λ i. of_int (pos 0); cnt = λ i. 0 }, true)
      else (l, false)
