-- ===== src/Tools/Merge.antt =====
-- tools/learner.cpp: the constructor and `Merge`, which buffers the samples of two logs and hands
-- batches to the pool of threads.
pub mod Queue
pub mod Run
use ftrl_online_pslite.Prelude.{
  ℕ, zero, suc, ◌+◌, Option, none, some, List, [], ◌∷◌, length, leb, ltb, ◌==◌, if◌then◌else◌,
  replicate,
}
use ftrl_online_pslite.Prelude.Int.{ℤ, pos, negsuc}
use ftrl_online_pslite.Floats.{Floats}
use ftrl_online_pslite.Bytes.{Bytes}
use ftrl_online_pslite.RecordLog
use ftrl_online_pslite.Sample.{put, entries}
use ftrl_online_pslite.Verdict.{Verdict, dropped, out_of_bounds, going}
use ftrl_online_pslite.Tools.{Merger, LogSample, Outside}
use ftrl_online_pslite.Tools.Counters.{statis0, statis1, proflearner}
use ftrl_online_pslite.Tools.Message.{parse_sample_0, parse_sample_1}
use ftrl_online_pslite.Tools.Feature.{Features}

-- The size of `sample_0` and the limit of its samples, the limit of the other, and the count that
-- makes a batch.
abbrev pub room_0 : ℕ
room_0 = 10000

abbrev pub limit_1 : ℕ
limit_1 = 2000

abbrev pub batch_size : ℕ
batch_size = 100

-- A task of the pool: the first `len` samples of `sample_0`.
abbrev pub Task : Type 0 → Type 0
Task F = List (LogSample F)

-- The constructor; what the samples hold at first is left open.
unfoldable pub new_merger : {F : Type 0} ⦃fl : Floats F⦄ → ℕ → (ℕ → LogSample F) → Merger F
new_merger app_num samples = record {
  cntl_0 = 0;
  cntl_1 = 0;
  proinfos = RecordLog.init;
  appnum = app_num;
  sample_0 = samples;
  sample_1 = samples;
  idx_0 = 0;
  idx_1 = 0;
  markid_hashmap = [];
  markid_hashmap0 = [];
}

module _ {F : Type 0} where
  -- The loop that puts `sample_1` behind the impressions; `none` is a write past `sample_0`.
  unfoldable pub append_samples :
      ℕ → ℕ → ℕ → (ℕ → LogSample F) → (ℕ → LogSample F) → Option (ℕ → LogSample F)
  append_samples zero i j from to = some to
  append_samples (suc left) i j from to =
      let rest = append_samples left (i + 1) (j + 1) from (put j (from i) to) in
      if leb room_0 j then none else rest

  abbrev pub emptied : Merger F → (ℕ → LogSample F) → Merger F
  emptied s to = record s { cntl_0 = 0; cntl_1 = 0; idx_0 = 0; idx_1 = 0; sample_0 = to }

  -- The end of `Merge` for a behaviour: one task for each application, then empty buffers. The wait
  -- for the workers' flags is left out.
  unfoldable pub run_batch : Merger F → Option (Merger F × List (Task F))
  run_batch s =
      if leb batch_size (s.cntl_1 + s.cntl_0)
      then elim (append_samples s.idx_1 0 s.idx_0 s.sample_1 s.sample_0) [
        | none ↦ none
        | some to ↦ some (emptied s to, replicate s.appnum (entries 0 (s.idx_0 + s.idx_1) to))
      ]
      else some (s, [])

module _ {F : Type 0} ⦃fl : Floats F⦄ (out : Outside F) where
  -- `max(ig_ctr, 0.00001)`
  abbrev pub floor_ctr : F → F
  floor_ctr ctr = if fl.lt fl.tiny ctr then ctr else fl.tiny

  abbrev pub sample_of : ℤ → F → List ℕ → LogSample F
  sample_of label ig_ctr features = record {
    label = label;
    ctr = floor_ctr ig_ctr;
    features = features;
  }

  abbrev pub kept_0 : F → List ℕ → Merger F → Merger F
  kept_0 ig_ctr features s = record s {
    sample_0 = put s.idx_0 (sample_of (pos 0) ig_ctr features) s.sample_0;
    idx_0 = s.idx_0 + 1;
    cntl_0 = s.cntl_0 + 1;
    proinfos = (proflearner (out.localtime out.time) (statis0 s.proinfos)).0;
  }

  -- `_idx_1` stays as it is.
  abbrev pub kept_1 : F → List ℕ → Merger F → Merger F
  kept_1 ig_ctr features s = record s {
    sample_1 = put s.idx_1 (sample_of (pos 1) ig_ctr features) s.sample_1;
    proinfos = statis1 s.proinfos;
    cntl_1 = s.cntl_1 + 1;
  }

  -- `Merge` for an impression that was parsed.
  unfoldable pub merge_0 : F → List ℕ → Merger F → Option (Merger F)
  merge_0 ig_ctr [] s = some s
  merge_0 ig_ctr (f ∷ fs) s =
      if fl.eq ig_ctr (fl.of_int (negsuc 0))
      then some s
      else if leb room_0 s.idx_0
      then some s
      else if ltb out.mem_size (length (f ∷ fs))
      then none
      else some (kept_0 ig_ctr (f ∷ fs) s)

  -- `Merge` for a behaviour that was parsed.
  unfoldable pub merge_1 : ℕ → F → List ℕ → Merger F → Option (Merger F × List (Task F))
  merge_1 param ig_ctr [] s = some (s, [])
  merge_1 param ig_ctr (f ∷ fs) s =
      let kept = kept_1 ig_ctr (f ∷ fs) s in
      let rest = (if param == 1 then run_batch kept else some (kept, [])) in
      if fl.eq ig_ctr (fl.of_int (negsuc 0))
      then some (s, [])
      else if leb limit_1 s.idx_1
      then some (s, [])
      else if ltb out.mem_size (length (f ∷ fs))
      then none
      else rest

  unfoldable pub after_0 : Merger F × Verdict (Features F) → Option (Merger F × List (Task F))
  after_0 (s, dropped) = some (s, [])
  after_0 (s, out_of_bounds) = none
  after_0 (s, going (ig_ctr, features)) = elim (merge_0 ig_ctr features s) [
    | none ↦ none
    | some s' ↦ some (s', [])
  ]

  unfoldable pub after_1 : ℕ → Merger F × Verdict (Features F) → Option (Merger F × List (Task F))
  after_1 param (s, dropped) = some (s, [])
  after_1 param (s, out_of_bounds) = none
  after_1 param (s, going (ig_ctr, features)) = merge_1 param ig_ctr features s

  -- `none` is an access out of bounds, or an exception that nothing catches.
  unfoldable pub merge : Bytes → ℕ → Merger F → Option (Merger F × List (Task F))
  unfolding after_0 after_1
  merge msg param s =
      if param == 0
      then after_0 (parse_sample_0 out msg s)
      else after_1 param (parse_sample_1 out msg s)
