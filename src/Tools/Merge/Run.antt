-- ===== src/Tools/Merge/Run.antt =====
-- tools/learner.cpp: all calls of `Merge`.
use ftrl_online_pslite.Prelude.{
  ℕ, zero, suc, ◌<◌, length-append, ◌+◌, ◌≤◌, ◌≡◌, refl, sym, ap, subst, false, Option, some, none,
  List, [], ◌∷◌, ◌++◌, length, arith, leb, ltb, ◌==◌, Bool-cases, Option-cases, inl, inr, All,
  All-append, IfSome, replicate,
}
use ftrl_online_pslite.Prelude.Int.{pos, negsuc}
use ftrl_online_pslite.Floats.{Floats}
use ftrl_online_pslite.Bytes.{Bytes}
use ftrl_online_pslite.Sample.{entries}
use ftrl_online_pslite.Verdict.{Verdict, dropped, out_of_bounds, going}
use ftrl_online_pslite.Verdict.Frame.{Frames}
use ftrl_online_pslite.Tools.{Merger, LogSample, Outside}
use ftrl_online_pslite.Tools.Message.{parse_sample_0, parse_sample_1}
use ftrl_online_pslite.Tools.Feature.{Features}
use ftrl_online_pslite.Tools.Message.Frame.{
  Buffers, buffers, shown, parse_sample_0-Frames, parse_sample_1-Frames,
}
use ftrl_online_pslite.Tools.Merge.{
  Task, new_merger, merge_0, merge_1, after_0, after_1, merge, sample_of, room_0, limit_1,
  batch_size,
}
use ftrl_online_pslite.Tools.Merge.Queue.{
  Waiting, Holds, merge_0_lem, merge_1_lem, put_in, count_one,
}

module _ {F : Type 0} where
  abbrev pub IsImpression : LogSample F → Type 0
  IsImpression x = x.label ≡ pos 0

  -- The buffers hold a queue of impressions.
  abbrev pub IsFed : Merger F → Type 0
  IsFed s = (q : Waiting F) × Holds s q × All IsImpression q.queue × (length q.queue ≤ room_0)

  abbrev pub IsBatch : Task F → Type 0
  IsBatch t = All IsImpression t × (length t ≤ room_0)

  abbrev pub IsClean : Merger F × List (Task F) → Type 0
  IsClean (s, tasks) = IsFed s × All IsBatch tasks

  IsFed-buffers : (s s' : Merger F) → buffers s' ≡ buffers s → IsFed s → IsFed s'
  unfolding buffers
  IsFed-buffers s s' e h =
      subst
        (λ (b : Buffers F).
          (q : Waiting F) × ((entries 0 b.idx_0 b.sample_0 ≡ q.queue)
            × (length q.queue ≡ b.idx_0)
            × (b.cntl_0 ≡ b.idx_0)
            × (b.cntl_1 ≡ q.counted)
            × (b.idx_1 ≡ 0))
          × All IsImpression q.queue
          × (length q.queue ≤ room_0))
        (sym e) h

  All-replicate : (n : ℕ) (t : Task F) → IsBatch t → All IsBatch (replicate n t)
  All-replicate zero t h = tt
  All-replicate (suc n) t h = (h, All-replicate n t h)

module _ {F : Type 0} ⦃fl : Floats F⦄ (out : Outside F) where
  put_in-All :
      (ctr : F) (fs : List ℕ) (q : Waiting F)
      → All IsImpression q.queue
      → length q.queue ≤ room_0
      → All IsImpression (put_in out ctr fs q).queue × (length (put_in out ctr fs q).queue ≤ room_0)
  put_in-All ctr fs q imp size = elim (Bool-cases (leb room_0 (length q.queue))) [
    | inl full ↦ rw full (imp, size)
    | inr room ↦
        let x = sample_of out (pos 0) ctr fs in
        let less : length q.queue < room_0 = ground arith in
        rw room (
          All-append IsImpression q.queue (x ∷ []) imp (refl, tt),
          omega (arith, length-append q.queue (x ∷ [])),
        )
  ]

  merge_0-IsFed :
      (ctr : F) (fs : List ℕ) (s : Merger F) → IsFed s → IfSome IsFed (merge_0 out ctr fs s)
  unfolding merge_0
  merge_0-IsFed ctr [] s h = h
  merge_0-IsFed ctr (f ∷ fs) s (q, holds, imp, size) =
      elim (Bool-cases (fl.eq ctr (fl.of_int (negsuc 0)))) [
        | inl e ↦ rw (merge_0, e) (q, holds, imp, size)
        | inr e ↦ elim (Bool-cases (ltb out.mem_size (length (f ∷ fs)))) [
          | inl long ↦ elim (Bool-cases (leb room_0 s.idx_0)) [
            | inl full ↦ rw (merge_0, e, full) (q, holds, imp, size)
            | inr room ↦ rw (merge_0, e, room, long) tt
          ]
          | inr short ↦
              let (s', done, holds', apps) = merge_0_lem out ctr f fs s q holds (ground arith) e in
              let (imp', size') = put_in-All ctr (f ∷ fs) q imp size in
              rw done (put_in out ctr (f ∷ fs) q, holds', imp', size')
        ]
      ]

  count_one-All :
      (n : ℕ) (q : Waiting F)
      → All IsImpression q.queue
      → length q.queue ≤ room_0
      → (All IsImpression (count_one out n q).0.queue
          × (length (count_one out n q).0.queue ≤ room_0))
        × All IsBatch (count_one out n q).1
  count_one-All n q imp size = elim (Bool-cases (leb batch_size (suc q.counted + length q.queue))) [
    | inl due ↦ rw due ((tt, omega arith), All-replicate n q.queue (imp, size))
    | inr wait ↦ rw wait ((imp, size), tt)
  ]

  merge_1-IsClean :
      (param : ℕ) (ctr : F) (fs : List ℕ) (s : Merger F)
      → IsFed s
      → IfSome IsClean (merge_1 out param ctr fs s)
  unfolding merge_1
  merge_1-IsClean param ctr [] s h = (h, tt)
  merge_1-IsClean param ctr (f ∷ fs) s (q, holds, imp, size) =
      let none_kept : leb limit_1 s.idx_1 ≡ false = ap (leb limit_1) holds.4 in
      elim (Bool-cases (fl.eq ctr (fl.of_int (negsuc 0)))) [
        | inl e ↦ rw (merge_1, e) ((q, holds, imp, size), tt)
        | inr e ↦ elim (Bool-cases (ltb out.mem_size (length (f ∷ fs)))) [
          | inl long ↦ rw (merge_1, e, none_kept, long) tt
          | inr short ↦ elim (Bool-cases (param == 1)) [
            | inl one ↦
                let (s', done, holds', apps) =
                  merge_1_lem out ctr f fs s q holds (ground arith) e in
                let (kept, tasks) = count_one-All s.appnum q imp size in
                let same : merge_1 out param ctr (f ∷ fs) s ≡ merge_1 out 1 ctr (f ∷ fs) s =
                  rw (merge_1, one) refl in
                let (imp', size') = kept in
                rw (same, done) (((count_one out s.appnum q).0, holds', imp', size'), tasks)
            | inr other ↦
                let (front, length_queue, c0, c1, i1) = holds in
                let counted = record q { counted = suc q.counted } in
                let more : s.cntl_1 + 1 ≡ suc q.counted = omega (arith, c1) in
                rw (merge_1, e, none_kept, short, other)
                  ((counted, (front, length_queue, c0, more, i1), imp, size), tt)
          ]
        ]
      ]

  after_0-IsClean :
      (r : Merger F × Verdict (Features F)) → IsFed r.0 → IfSome IsClean (after_0 out r)
  unfolding after_0
  after_0-IsClean (s, dropped) h = (h, tt)
  after_0-IsClean (s, out_of_bounds) h = tt
  after_0-IsClean (s, going (ctr, fs)) h = elim (Option-cases (merge_0 out ctr fs s)) [
    | inl e ↦ rw (after_0, e) tt
    | inr (s', e) ↦ rw (after_0, e) (subst (IfSome IsFed) e (merge_0-IsFed ctr fs s h), tt)
  ]

  after_1-IsClean :
      (param : ℕ) (r : Merger F × Verdict (Features F))
      → IsFed r.0
      → IfSome IsClean (after_1 out param r)
  unfolding after_1
  after_1-IsClean param (s, dropped) h = (h, tt)
  after_1-IsClean param (s, out_of_bounds) h = tt
  after_1-IsClean param (s, going (ctr, fs)) h = merge_1-IsClean param ctr fs s h

  merge-IsClean :
      (msg : Bytes) (param : ℕ) (s : Merger F) → IsFed s → IfSome IsClean (merge out msg param s)
  unfolding merge Frames shown
  merge-IsClean msg param s h = elim (Bool-cases (param == 0)) [
    | inl e ↦
        let r = parse_sample_0 out msg s in
        rw (merge, e) (after_0-IsClean r (IsFed-buffers s r.0 (parse_sample_0-Frames out msg s) h))
    | inr e ↦
        let r = parse_sample_1 out msg s in
        rw (merge, e)
          (after_1-IsClean param r (IsFed-buffers s r.0 (parse_sample_1-Frames out msg s) h))
  ]

  abbrev behind :
      List (Task F) → Option (Merger F × List (Task F)) → Option (Merger F × List (Task F))
  behind tasks none = none
  behind tasks (some (s, more)) = some (s, tasks ++ more)

  -- Messages in the order of their arrival, each with its `param`, and the tasks that they start.
  unfoldable pub merge_all : List (Bytes × ℕ) → Merger F → Option (Merger F × List (Task F))
  merge_all [] s = some (s, [])
  merge_all ((msg, param) ∷ rest) s = elim (merge out msg param s) [
    | none ↦ none
    | some (s', tasks) ↦ behind tasks (merge_all rest s')
  ]

  behind-IsClean :
      (tasks : List (Task F)) (o : Option (Merger F × List (Task F)))
      → All IsBatch tasks
      → IfSome IsClean o
      → IfSome IsClean (behind tasks o)
  behind-IsClean tasks none h k = tt
  behind-IsClean tasks (some (s, more)) h (fed, clean) =
      (fed, All-append IsBatch tasks more h clean)

  merge_all-IsClean :
      (msgs : List (Bytes × ℕ)) (s : Merger F) → IsFed s → IfSome IsClean (merge_all msgs s)
  unfolding merge_all
  merge_all-IsClean [] s h = (h, tt)
  merge_all-IsClean ((msg, param) ∷ rest) s h = elim (Option-cases (merge out msg param s)) [
    | inl e ↦ rw (merge_all, e) tt
    | inr ((s', tasks), e) ↦
        let (fed, clean) = subst (IfSome IsClean) e (merge-IsClean msg param s h) in
        rw (merge_all, e)
          (behind-IsClean tasks (merge_all rest s') clean (merge_all-IsClean rest s' fed))
  ]

  -- Whatever messages come, in whatever order, for as long as no access is out of bounds: every
  -- sample of every task is an impression, with the label 0, and a task has at most 10,000 samples;
  -- the behaviours' index never leaves 0.
  pub merge_all-new_merger :
      (n : ℕ) (samples : ℕ → LogSample F) (msgs : List (Bytes × ℕ)) (s : Merger F)
      (tasks : List (Task F))
      → merge_all msgs (new_merger n samples) ≡ some (s, tasks)
      → All IsBatch tasks × (s.idx_1 ≡ 0)
  unfolding new_merger
  merge_all-new_merger n samples msgs s tasks e =
      let start : IsFed (new_merger n samples) =
        (record { queue = []; counted = 0 }, (refl, refl, refl, refl, refl), tt, omega arith) in
      let (fed, clean) =
        subst (IfSome IsClean) e (merge_all-IsClean msgs (new_merger n samples) start) in
      (clean, fed.1.4)
