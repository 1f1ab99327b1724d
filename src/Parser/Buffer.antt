-- ===== src/Parser/Buffer.antt =====
-- src/io/parser.cpp: `Process`, which buffers samples and hands batches to the learners.
pub mod Bounds
pub mod Queues
pub mod Batch
pub mod Run
pub mod Repeat
pub mod Fit
pub mod Accept
pub mod Trained
use ftrl_online_pslite.Prelude.{
  ℕ, zero, suc, ◌+◌, Bool, true, false, Option, none, some, List, [], ◌∷◌, ◌++◌, length, leb, ltb,
  ◌==◌, if◌then◌else◌,
}
use ftrl_online_pslite.Prelude.Int.{ℤ, negsuc}
use ftrl_online_pslite.Floats.{Floats}
use ftrl_online_pslite.Bytes.{Bytes}
use ftrl_online_pslite.RecordLog
use ftrl_online_pslite.Sample.{Sample, feature_capacity, put, entries, put_all}
use ftrl_online_pslite.Condition.{Condition}
use ftrl_online_pslite.Learner.Labels.{Kind, check_imp, check_label}
use ftrl_online_pslite.Verdict.{Verdict, dropped, out_of_bounds, going}
use ftrl_online_pslite.Parser.{Parser, Env}
use ftrl_online_pslite.Parser.Message.{parse_sample_0, parse_sample_1}

-- The sizes that the constructor and `SetLearner` give to `sample_0`, `sample_1` and the label rows,
-- and the number of samples that makes a batch.
abbrev pub room_0 : ℕ
room_0 = 10000

abbrev pub room_1 : ℕ
room_1 = 3000

abbrev pub limit_1 : ℕ
limit_1 = 2000

abbrev pub batch_size : ℕ
batch_size = 100

-- The arguments of one call of `GetData`: the first `len` samples, and a label for each.
pub record Delivery (F : Type 0) : Type 0 where
  pub xs : List (Sample F)
  pub ys : List ℤ

-- `Ys[i][at] = check(lw[i])` for the learners from number `i` on.
abbrev pub write_labels : (Kind → ℤ) → ℕ → ℕ → List Kind → (ℕ → ℕ → ℤ) → ℕ → ℕ → ℤ
write_labels check at i [] rows = rows
write_labels check at i (k ∷ ks) rows =
    write_labels check at (i + 1) ks (put i (put at (check k) (rows i)) rows)

module _ {F : Type 0} where
  -- The merge loop: `sample_1` goes behind the impressions, `label` and `pctr` of the target stay.
  -- `none` is a write past `sample_0`.
  abbrev pub merge : ℕ → ℕ → ℕ → (ℕ → Sample F) → (ℕ → Sample F) → Option (ℕ → Sample F)
  merge zero i j from to = some to
  merge (suc left) i j from to =
      let moved = record (to j) { ctr = (from i).ctr; features = (from i).features } in
      let rest = merge left (i + 1) (j + 1) from (put j moved to) in
      if leb room_0 j then none else rest

  -- The loop that calls `GetData` of each learner.
  abbrev pub deliver :
      ℕ → ℕ → (ℕ → ℕ → ℤ) → (ℕ → ℕ → ℤ) → List (Sample F) → ℕ → List Kind → List (Delivery F)
  deliver idx_0 idx_1 imp bhv xs i [] = []
  deliver idx_0 idx_1 imp bhv xs i (k ∷ ks) =
      record { xs = xs; ys = entries 0 idx_0 (imp i) ++ entries 0 idx_1 (bhv i) }
      ∷ deliver idx_0 idx_1 imp bhv xs (i + 1) ks

  -- The batch step at the end of `Process` for an impression.
  unfoldable pub flush : Parser F → Option (Parser F × List (Delivery F))
  flush s =
      let empty = λ (to : ℕ → Sample F). record s {
        cntl_0 = 0;
        cntl_1 = 0;
        idx_0 = 0;
        idx_1 = 0;
        sample_0 = to;
      } in
      let batch = λ (to : ℕ → Sample F).
        deliver s.idx_0 s.idx_1 s.ys_imp s.ys_bhv (entries 0 (s.idx_0 + s.idx_1) to) 0 s.lw in
      if leb batch_size (s.cntl_1 + s.cntl_0)
      then elim (merge s.idx_1 0 s.idx_0 s.sample_1 s.sample_0) [
        | none ↦ none
        | some to ↦ some (empty to, batch to)
      ]
      else some (s, [])

-- The constructor and `SetLearner`; what a sample and a label hold at first is left open.
unfoldable pub new_parser :
    {F : Type 0} ⦃fl : Floats F⦄ → List Kind → (ℕ → Sample F) → (ℕ → ℕ → ℤ) → Parser F
new_parser ⦃fl⦄ lws samples labels = record {
  cntl_0 = 0;
  cntl_1 = 0;
  recordlog = RecordLog.init;
  lw = lws;
  idx_0 = 0;
  idx_1 = 0;
  sample_0 = samples;
  sample_1 = samples;
  ys_imp = labels;
  ys_bhv = labels;
  markid_hashmap = [];
  markid_hashmap0 = [];
}

module _ {F : Type 0} ⦃fl : Floats F⦄ (env : Env F) where
  -- `max(ig_ctr, 0.00001)`
  abbrev pub floor_ctr : F → F
  floor_ctr ctr = if fl.lt fl.tiny ctr then ctr else fl.tiny

  -- `Process` for an impression that was parsed.
  unfoldable pub take_0 : F → List ℕ → Condition → Parser F → Option (Parser F × List (Delivery F))
  take_0 ig_ctr [] condition s = some (s, [])
  take_0 ig_ctr (f ∷ fs) condition s =
      let old = s.sample_0 s.idx_0 in
      let fresh = record old { ctr = floor_ctr ig_ctr; features = f ∷ fs } in
      let kept = record s {
        ys_imp = write_labels (λ k. check_imp k condition) s.idx_0 0 s.lw s.ys_imp;
        sample_0 = put s.idx_0 fresh s.sample_0;
        idx_0 = s.idx_0 + 1;
        cntl_0 = s.cntl_0 + 1;
        recordlog = (RecordLog.print (env.localtime env.time) s.recordlog).0;
      } in
      let rest = flush kept in
      if fl.eq ig_ctr (fl.of_int (negsuc 0))
      then some (s, [])
      else if leb room_0 s.idx_0
      then some (s, [])
      else if ltb feature_capacity (length (f ∷ fs))
      then none
      else rest

  -- `Process` for a behaviour that was parsed.
  unfoldable pub take_1 : F → List ℕ → Condition → Parser F → Option (Parser F)
  take_1 ig_ctr [] condition s = some s
  take_1 ig_ctr (f ∷ fs) condition s =
      let old = s.sample_1 s.idx_1 in
      let fresh = record old { ctr = floor_ctr ig_ctr; features = f ∷ fs } in
      let kept = record s {
        ys_bhv = write_labels (λ k. check_label env.parsers k condition) s.idx_1 0 s.lw s.ys_bhv;
        sample_1 = put s.idx_1 fresh s.sample_1;
        idx_1 = s.idx_1 + 1;
        cntl_1 = s.cntl_1 + 1;
      } in
      if fl.eq ig_ctr (fl.of_int (negsuc 0))
      then some s
      else if leb limit_1 s.idx_1
      then some s
      else if ltb feature_capacity (length (f ∷ fs))
      then none
      else some kept

  -- How `Process` goes on from what the parsers return.
  unfoldable pub after_0 :
      Parser F × Verdict (F × List ℕ × Condition) → Option (Parser F × List (Delivery F))
  after_0 (s', dropped) = some (s', [])
  after_0 (s', out_of_bounds) = none
  after_0 (s', going (ig_ctr, features, condition)) = take_0 ig_ctr features condition s'

  unfoldable pub after_1 :
      Parser F × Verdict (F × List ℕ × Condition) → Option (Parser F × List (Delivery F))
  after_1 (s', dropped) = some (s', [])
  after_1 (s', out_of_bounds) = none
  after_1 (s', going (ig_ctr, features, condition)) = elim (take_1 ig_ctr features condition s') [
    | none ↦ none
    | some s'' ↦ some (s'', [])
  ]

  -- `Process`: the new state and the batches for the learners; `none` is an access out of bounds.
  unfoldable pub process : Bytes → ℕ → Parser F → Option (Parser F × List (Delivery F))
  process msg param s =
      if param == 0 then after_0 (parse_sample_0 env msg s) else after_1 (parse_sample_1 env msg s)
