-- ===== src/Tools/Merge/Queue.antt =====
-- tools/learner.cpp: `Merge` as a queue of impressions.
use ftrl_online_pslite.Prelude.{
  ℕ, suc, ◌+◌, ◌≤◌, ◌≡◌, refl, sym, ap, ap₂, ◌∙◌, true, false, some, List, [], ◌∷◌, ◌++◌, length,
  leb, if◌then◌else◌, replicate, arith, length-append, le→ltb_false, Bool-cases, inl, inr,
}
use ftrl_online_pslite.Prelude.Int.{pos, negsuc}
use ftrl_online_pslite.Floats.{Floats}
use ftrl_online_pslite.Sample.{put, entries, entries-put}
use ftrl_online_pslite.Tools.{Merger, LogSample, Outside}
use ftrl_online_pslite.Tools.Merge.{
  room_0, limit_1, batch_size, Task, append_samples, run_batch, emptied, sample_of, kept_0, kept_1,
  merge_0, merge_1,
}

-- What `Merge` comes to: the impressions that wait, and how many behaviours were counted.
pub record Waiting (F : Type 0) : Type 0 where
  pub queue : List (LogSample F)
  pub counted : ℕ

-- The buffers of a state hold a queue.
abbrev pub Holds : {F : Type 0} → Merger F → Waiting F → Type 0
Holds s q =
    (entries 0 s.idx_0 s.sample_0 ≡ q.queue)
    × (length q.queue ≡ s.idx_0)
    × (s.cntl_0 ≡ s.idx_0)
    × (s.cntl_1 ≡ q.counted)
    × (s.idx_1 ≡ 0)

add_one : (n : ℕ) → n + 1 ≡ suc n
add_one n = omega arith

module _ {F : Type 0} where
  -- With no behaviour in the buffer, the task is the queue.
  run_batch_lem :
      (s : Merger F) (q : Waiting F)
      → Holds s q
      → (s' : Merger F) × (run_batch s
          ≡ some (
            s',
            if leb batch_size (q.counted + length q.queue) then replicate s.appnum q.queue else [],
          ))
        × Holds s' (
            if leb batch_size (q.counted + length q.queue)
            then record { queue = []; counted = 0 }
            else q)
        × (s'.appnum ≡ s.appnum)
  unfolding run_batch append_samples
  run_batch_lem s q (front, size, c0, c1, i1) =
      let due : leb batch_size (s.cntl_1 + s.cntl_0) ≡ leb batch_size (q.counted + length q.queue) =
        ap₂ (λ a b. leb batch_size (a + b)) c1 (c0 ∙ sym size) in
      elim (Bool-cases (leb batch_size (q.counted + length q.queue))) [
        | inl full ↦
            let same : append_samples s.idx_1 0 s.idx_0 s.sample_1 s.sample_0 ≡ some s.sample_0 =
              ap (λ n. append_samples n 0 s.idx_0 s.sample_1 s.sample_0) i1 in
            let task : entries 0 (s.idx_0 + s.idx_1) s.sample_0 ≡ q.queue =
              ap (λ n. entries 0 (s.idx_0 + n) s.sample_0) i1
              ∙ ap (λ n. entries 0 n s.sample_0) (omega arith)
              ∙ front in
            rw full (
              emptied s s.sample_0,
              rw (run_batch, due, full, same)
                  (ap (λ t. some (emptied s s.sample_0, replicate s.appnum t)) task),
              (refl, refl, refl, refl, refl),
              refl,
            )
        | inr wait ↦ rw wait (s, rw (run_batch, due, wait) refl, (front, size, c0, c1, i1), refl)
      ]

module _ {F : Type 0} ⦃fl : Floats F⦄ (out : Outside F) where
  -- An impression is put in, if there is room.
  abbrev pub put_in : F → List ℕ → Waiting F → Waiting F
  put_in ig_ctr features q =
      let more = q.queue ++ sample_of out (pos 0) ig_ctr features ∷ [] in
      if leb room_0 (length q.queue) then q else record q { queue = more }

  -- A behaviour is counted; its features are forgotten.
  abbrev pub count_one : ℕ → Waiting F → Waiting F × List (Task F)
  count_one appnum q =
      let due = leb batch_size (suc q.counted + length q.queue) in
      (
        if due then record { queue = []; counted = 0 } else record q { counted = suc q.counted },
        if due then replicate appnum q.queue else [],
      )

  -- An impression that was parsed, with features that fit `_mem`, is put into the queue: `Merge`
  -- returns, and its buffers hold the queue with the sample at its end, or as it was when 10,000
  -- samples wait.
  pub merge_0_lem :
      (ig_ctr : F) (f : ℕ) (fs : List ℕ) (s : Merger F) (q : Waiting F)
      → Holds s q
      → length (f ∷ fs) ≤ out.mem_size
      → fl.eq ig_ctr (fl.of_int (negsuc 0)) ≡ false
      → (s' : Merger F) × (merge_0 out ig_ctr (f ∷ fs) s ≡ some s')
        × Holds s' (put_in ig_ctr (f ∷ fs) q)
        × (s'.appnum ≡ s.appnum)
  unfolding merge_0
  merge_0_lem ig_ctr f fs s q (front, size, c0, c1, i1) fits ne =
      let x = sample_of out (pos 0) ig_ctr (f ∷ fs) in
      elim (Bool-cases (leb room_0 s.idx_0)) [
        | inl full ↦
            let same : leb room_0 (length q.queue) ≡ true = ap (leb room_0) size ∙ full in
            (s, rw (merge_0, ne, full) refl, rw same (front, size, c0, c1, i1), refl)
        | inr room ↦
            let same : leb room_0 (length q.queue) ≡ false = ap (leb room_0) size ∙ room in
            (
              kept_0 out ig_ctr (f ∷ fs) s,
              rw (merge_0, ne, room, le→ltb_false out.mem_size (length (f ∷ fs)) fits) refl,
              rw same (
                ap (λ n. entries 0 n (put s.idx_0 x s.sample_0)) (add_one s.idx_0)
                    ∙ entries-put s.idx_0 x s.sample_0
                    ∙ ap (λ xs. xs ++ x ∷ []) front,
                length-append q.queue (x ∷ []) ∙ ap (λ n. n + 1) size,
                ap (λ n. n + 1) c0,
                c1,
                i1,
              ),
              refl,
            )
      ]

  pub merge_1_lem :
      (ig_ctr : F) (f : ℕ) (fs : List ℕ) (s : Merger F) (q : Waiting F)
      → Holds s q
      → length (f ∷ fs) ≤ out.mem_size
      → fl.eq ig_ctr (fl.of_int (negsuc 0)) ≡ false
      → (s' : Merger F) × (merge_1 out 1 ig_ctr (f ∷ fs) s ≡ some (s', (count_one s.appnum q).1))
        × Holds s' (count_one s.appnum q).0
        × (s'.appnum ≡ s.appnum)
  unfolding merge_1
  merge_1_lem ig_ctr f fs s q (front, size, c0, c1, i1) fits ne =
      let room : leb limit_1 s.idx_1 ≡ false = ap (leb limit_1) i1 in
      let (s', done, holds, apps) =
        run_batch_lem (kept_1 out ig_ctr (f ∷ fs) s) (record q { counted = suc q.counted })
          (front, size, c0, add_one s.cntl_1 ∙ ap suc c1, i1) in
      (
        s',
        rw (merge_1, ne, room, le→ltb_false out.mem_size (length (f ∷ fs)) fits) done,
        holds,
        apps,
      )
