-- ===== src/Parser/Buffer/Batch.antt =====
-- src/io/parser.cpp: the buffers of `Process` as two queues, and the batches made of them.
use ftrl_online_pslite.Prelude.{
  ℕ, zero, suc, ◌+◌, ◌≤◌, ◌≡◌, refl, ap, ap₂, ◌∙◌, false, some, List, [], ◌∷◌, ◌++◌, map, length,
  arith, leb, lt→leb_false, le→ltb_false, if◌then◌else◌, Bool-cases, inl, inr,
}
use mathlib.Core.List.{map-append}
use ftrl_online_pslite.Prelude.Int.{ℤ, negsuc}
use ftrl_online_pslite.Floats.{Floats}
use ftrl_online_pslite.RecordLog
use ftrl_online_pslite.Sample.{Sample, feature_capacity, put, entries, entries-put}
use ftrl_online_pslite.Condition.{Condition}
use ftrl_online_pslite.Learner.Labels.{Kind, check_imp, check_label}
use ftrl_online_pslite.Parser.{Parser, Env}
use ftrl_online_pslite.Parser.Buffer.{
  Delivery, room_0, limit_1, batch_size, deliver, flush, floor_ctr, take_0, take_1, write_labels,
}
use ftrl_online_pslite.Parser.Buffer.Bounds.{
  IsBuffered, content, contents, merge_lem, rows_of, rows_of-write_labels,
}
use ftrl_online_pslite.Parser.Buffer.Queues.{
  Queues, join_each, no_labels, queues_of, no_queues, batches, all_batches, offer_0, offer_1,
  delivered,
}

rows_of_zero : (i : ℕ) (ks : List Kind) (rows : ℕ → ℕ → ℤ) → rows_of 0 i ks rows ≡ no_labels ks
rows_of_zero i [] rows = refl
rows_of_zero i (k ∷ ks) rows = ap (◌∷◌ []) (rows_of_zero (i + 1) ks rows)

module _ {F : Type 0} where
  length-contents : (i n : ℕ) (f : ℕ → Sample F) → length (contents i n f) ≡ n
  length-contents i zero f = refl
  length-contents i (suc n) f = ap suc (length-contents (i + 1) n f)

  pub contents-put :
      (n : ℕ) (x : Sample F) (f : ℕ → Sample F)
      → contents 0 (n + 1) (put n x f) ≡ contents 0 n f ++ content x ∷ []
  contents-put n x f =
      let size : n + 1 ≡ suc n = omega arith in
      ap (λ m. contents 0 m (put n x f)) size
      ∙ ap (map content) (entries-put n x f)
      ∙ map-append content (entries 0 n f) (x ∷ [])

  deliver_lem :
      (n m : ℕ) (imp bhv : ℕ → ℕ → ℤ) (xs : List (Sample F)) (i : ℕ) (ks : List Kind)
      → map delivered (deliver n m imp bhv xs i ks)
        ≡ batches (map content xs) (join_each (rows_of n i ks imp) (rows_of m i ks bhv))
  deliver_lem n m imp bhv xs i [] = refl
  deliver_lem n m imp bhv xs i (k ∷ ks) =
      ap (λ rest. (map content xs, entries 0 n (imp i) ++ entries 0 m (bhv i)) ∷ rest)
        (deliver_lem n m imp bhv xs (i + 1) ks)

  -- The batch step on queues.
  abbrev pub flushed : List Kind → Queues F → Queues F × List (List (List ℕ × F) × List ℤ)
  flushed ks q =
      if leb batch_size (length q.behaviours + length q.impressions)
      then (no_queues ks, all_batches q)
      else (q, [])

  flush_lem :
      (s : Parser F)
      → s.cntl_0 ≡ s.idx_0
      → s.cntl_1 ≡ s.idx_1
      → s.idx_0 ≤ batch_size
      → s.idx_1 ≤ limit_1
      → (s' : Parser F) × (ds : List (Delivery F)) × (flush s ≡ some (s', ds))
        × ((queues_of s', map delivered ds) ≡ flushed s.lw (queues_of s))
        × IsBuffered s'
        × (s'.lw ≡ s.lw)
  unfolding flush
  flush_lem s c0 c1 h0 h1 =
      let (to, done, all) = merge_lem s.idx_1 s.idx_0 s.sample_1 s.sample_0 (omega arith) in
      let n0 = length-contents 0 s.idx_0 s.sample_0 in
      let n1 = length-contents 0 s.idx_1 s.sample_1 in
      let l0 = rows_of_zero 0 s.lw s.ys_imp in
      let l1 = rows_of_zero 0 s.lw s.ys_bhv in
      let xs = entries 0 (s.idx_0 + s.idx_1) to in
      let due : leb batch_size (s.cntl_1 + s.cntl_0) ≡ leb batch_size (s.idx_1 + s.idx_0) =
        ap₂ (λ i j. leb batch_size (i + j)) c1 c0 in
      elim (Bool-cases (leb batch_size (s.idx_1 + s.idx_0))) [
        | inl e ↦ (
          record s { cntl_0 = 0; cntl_1 = 0; idx_0 = 0; idx_1 = 0; sample_0 = to },
          deliver s.idx_0 s.idx_1 s.ys_imp s.ys_bhv xs 0 s.lw,
          rw (due, e, done) refl,
          rw (n0, n1, e, l0, l1, deliver_lem s.idx_0 s.idx_1 s.ys_imp s.ys_bhv xs 0 s.lw, all) refl,
          (refl, refl, omega arith, omega arith),
          refl,
        )
        | inr e ↦ (s, [], rw (due, e) refl, rw (n0, n1, e) refl, (c0, c1, ground arith, h1), refl)
      ]

module _ {F : Type 0} ⦃fl : Floats F⦄ (env : Env F) where
  pub take_0_lem :
      (ctr : F) (f : ℕ) (fs : List ℕ) (c : Condition) (s : Parser F)
      → IsBuffered s
      → length (f ∷ fs) ≤ feature_capacity
      → fl.eq ctr (fl.of_int (negsuc 0)) ≡ false
      → (s' : Parser F) × (ds : List (Delivery F)) × (take_0 env ctr (f ∷ fs) c s ≡ some (s', ds))
        × ((queues_of s', map delivered ds)
            ≡ offer_0 s.lw
                (f ∷ fs, floor_ctr env ctr)
                (map (λ k. check_imp k c) s.lw)
                (queues_of s))
        × IsBuffered s'
        × (s'.lw ≡ s.lw)
  unfolding take_0
  take_0_lem ctr f fs c s (c0, c1, b0, b1) fit ok =
      let fresh = record (s.sample_0 s.idx_0) { ctr = floor_ctr env ctr; features = f ∷ fs } in
      let kept = record s {
        ys_imp = write_labels (λ k. check_imp k c) s.idx_0 0 s.lw s.ys_imp;
        sample_0 = put s.idx_0 fresh s.sample_0;
        idx_0 = s.idx_0 + 1;
        cntl_0 = s.cntl_0 + 1;
        recordlog = (RecordLog.print (env.localtime env.time) s.recordlog).0;
      } in
      let (s', ds, done, queues, bounds, lw) = flush_lem kept (omega arith) c1 (omega arith) b1 in
      let size : s.idx_0 + 1 ≡ suc s.idx_0 = omega arith in
      let labels =
        ap (λ m. rows_of m 0 s.lw kept.ys_imp) size
        ∙ rows_of-write_labels (λ k. check_imp k c) s.idx_0 0 s.lw s.ys_imp in
      let samples = contents-put s.idx_0 fresh s.sample_0 in
      (
        s',
        ds,
        rw
            (
              ok,
              lt→leb_false s.idx_0 room_0 (omega arith),
              le→ltb_false feature_capacity (length (f ∷ fs)) fit,
            )
            done,
        queues ∙ rw (labels, samples) refl,
        bounds,
        lw,
      )

  pub take_1_lem :
      (ctr : F) (f : ℕ) (fs : List ℕ) (c : Condition) (s : Parser F)
      → IsBuffered s
      → length (f ∷ fs) ≤ feature_capacity
      → fl.eq ctr (fl.of_int (negsuc 0)) ≡ false
      → (s' : Parser F) × (take_1 env ctr (f ∷ fs) c s ≡ some s')
        × (queues_of s'
            ≡ offer_1
                (f ∷ fs, floor_ctr env ctr)
                (map (λ k. check_label env.parsers k c) s.lw)
                (queues_of s))
        × IsBuffered s'
        × (s'.lw ≡ s.lw)
  unfolding take_1
  take_1_lem ctr f fs c s (c0, c1, b0, b1) fit ok =
      let check = λ (k : Kind). check_label env.parsers k c in
      let fresh = record (s.sample_1 s.idx_1) { ctr = floor_ctr env ctr; features = f ∷ fs } in
      let kept = record s {
        ys_bhv = write_labels check s.idx_1 0 s.lw s.ys_bhv;
        sample_1 = put s.idx_1 fresh s.sample_1;
        idx_1 = s.idx_1 + 1;
        cntl_1 = s.cntl_1 + 1;
      } in
      let size : s.idx_1 + 1 ≡ suc s.idx_1 = omega arith in
      let n1 = length-contents 0 s.idx_1 s.sample_1 in
      let labels =
        ap (λ m. rows_of m 0 s.lw kept.ys_bhv) size
        ∙ rows_of-write_labels check s.idx_1 0 s.lw s.ys_bhv in
      let samples = contents-put s.idx_1 fresh s.sample_1 in
      let small = le→ltb_false feature_capacity (length (f ∷ fs)) fit in
      elim (Bool-cases (leb limit_1 s.idx_1)) [
        | inl e ↦ (s, rw (ok, e) refl, rw (n1, e) refl, (c0, c1, b0, b1), refl)
        | inr e ↦ (
          kept,
          rw (ok, e, small) refl,
          rw (n1, e, labels, samples) refl,
          (c0, omega arith, b0, ground arith),
          refl,
        )
      ]
