-- ===== src/Learner.antt =====
-- src/core/learner.h and learner.cpp: the worker of one application.
pub mod Keys
pub mod Gradient
pub mod Round
pub mod Train
pub mod Model
pub mod Requests
pub mod Boot
pub mod Handshake
pub mod Labels
pub mod Intake
pub mod Exclusive
use ftrl_online_pslite.Prelude.{
  ℕ, zero, suc, ◌+◌, ◌-◌, ◌%◌, ◌^◌, Bool, true, false, Option, none, some, List, [], ◌∷◌, ◌++◌, map,
  length, get_or, set, replicate, concat, ltb, leb, ◌==◌, if◌then◌else◌,
}
use ftrl_online_pslite.Prelude.Int.{ℤ, pos, negsuc, ◌-ℤ◌, eq_ℤ}
use ftrl_online_pslite.Prelude.Map.{Map, at_or, insert}
use ftrl_online_pslite.Floats.{Floats}
use ftrl_online_pslite.Clock.{Tm}
use ftrl_online_pslite.StringUtil.{sigmoid}
use ftrl_online_pslite.RecordLog
use ftrl_online_pslite.RecordLog.{RecordLog}
use ftrl_online_pslite.Sample.{Sample, feature_capacity, put, entries, put_all}

-- The fields that the worker's data path uses. `w` and `p` are `W` and `P`; a position in `P` is
-- stored as a `float`, which holds every number up to 2^24, and `feature_room` is below that.
pub record Learner (F : Type 0) : Type 0 where
  pub appid : ℕ
  pub num_sample : ℕ
  pub samples : ℕ → Sample F
  pub w : Map F
  pub p : Map ℕ
  pub recordlog : RecordLog F

-- The sizes that the constructor gives to `samples` and to `unique_features`.
abbrev pub sample_room : ℕ
sample_room = 10000

abbrev pub feature_room : ℕ
feature_room = 10000000

-- `int skey = f; P[skey]`: the conversion to `int` and back, of which only features below 2^31 come
-- out as they went in.
abbrev pub skey : ℕ → ℕ
skey f = let low = f % 2 ^ 32 in if ltb low (2 ^ 31) then low else low + (2 ^ 64 - 2 ^ 32)

-- `std::set`: a new key goes to its place in the order, and a key that is there already is dropped.
unfoldable pub set_insert : ℕ → List ℕ → List ℕ
set_insert a [] = a ∷ []
set_insert a (b ∷ bs) =
    if ltb a b then a ∷ b ∷ bs else if a == b then b ∷ bs else b ∷ set_insert a bs

unfoldable pub set_of : List ℕ → List ℕ
set_of [] = []
set_of (a ∷ rest) = set_insert a (set_of rest)

-- `std::tr1::unordered_map<…>().swap(m)` past ten million entries
abbrev pub trimmed {ℓ} : {V : Type ℓ} → Map V → Map V
trimmed m = if ltb 10000000 (length m) then [] else m

module _ {F : Type 0} ⦃fl : Floats F⦄ where
  -- The loop of `GetData`. A write past `samples` or past the room of `_mem`, and a read past `Y`,
  -- give `none`.
  unfoldable pub get_data_loop : List (Sample F) → List ℤ → ℕ → Learner F → Option (ℕ × Learner F)
  get_data_loop [] ys idx l = some (idx, l)
  get_data_loop (x ∷ xs) [] idx l = none
  get_data_loop (x ∷ xs) (y ∷ ys) idx l =
      let skip = get_data_loop xs ys idx l in
      let old = l.samples idx in
      let fresh = record old { label = y; ctr = x.ctr; features = x.features } in
      let log = RecordLog.stat_sample_num y l.recordlog in
      let keep =
        get_data_loop xs ys (idx + 1)
          (record l { samples = put idx fresh l.samples; recordlog = log }) in
      if eq_ℤ y (negsuc 0)
      then skip
      else if leb sample_room idx
      then none
      else if ltb feature_capacity (length x.features)
      then none
      else keep

  -- `GetData` between its two semaphore calls.
  unfoldable pub get_data : List (Sample F) → List ℤ → Learner F → Option (Learner F)
  get_data xs ys l = elim (get_data_loop xs ys 0 l) [
    | none ↦ none
    | some (idx, l') ↦ some (record l' { num_sample = idx })
  ]

module _ {F : Type 0} where
  -- What `update` pulls for: key 0, for the bias, and the features of the batch.
  unfoldable pub unique_keys : List (Sample F) → List ℕ
  unique_keys xs = set_of (0 ∷ concat (map (λ x. x.features) xs))

  -- `W[_unique[k]] = w[k]; P[_unique[k]] = k;` from `k` on.
  unfoldable pub store_pulled : ℕ → List ℕ → List F → Learner F → Learner F
  store_pulled k [] vals l = l
  store_pulled k (key ∷ keys) [] l = l
  store_pulled k (key ∷ keys) (v ∷ vals) l =
      store_pulled (k + 1) keys vals (record l { w = insert key v l.w; p = insert key k l.p })

module _ {F : Type 0} ⦃fl : Floats F⦄ where
  open fl use {of_int, add, sub, mul, div, neg, fabs, log}

  abbrev pub nought : F
  nought = of_int (pos 0)

  -- The inner loop of `predict`.
  unfoldable pub sum_weights : Map F → F → List ℕ → F
  sum_weights w sum [] = sum
  sum_weights w sum (f ∷ fs) = sum_weights w (add sum (at_or nought f w)) fs

  unfoldable pub predict_one : Map F → Sample F → Sample F
  predict_one w x =
      let sum = add (sum_weights w nought x.features) (at_or nought 0 w) in
      record x { pctr = sigmoid sum }

  unfoldable pub predict : Map F → List (Sample F) → List (Sample F)
  predict w = map (predict_one w)

  abbrev pub error_of : Sample F → F
  error_of x = sub x.pctr (of_int x.label)

  -- `grad[at] += err`, within the bounds of `grad`.
  abbrev pub add_at : ℕ → F → List F → Option (List F)
  add_at at err grad =
      if ltb at (length grad) then some (set grad at (add (get_or grad at nought) err)) else none

  -- The inner loop of `caculate_gradient`. The counts `grad_acc`, which nothing reads, are left out.
  unfoldable pub gradient_features : Map ℕ → F → List ℕ → List F → Option (List F)
  gradient_features p err [] grad = some grad
  gradient_features p err (f ∷ fs) grad = elim (add_at (at_or 0 (skey f) p) err grad) [
    | none ↦ none
    | some grad' ↦ gradient_features p err fs grad'
  ]

  unfoldable pub caculate_gradient : Map ℕ → List (Sample F) → List F → Option (List F)
  caculate_gradient p [] grad = some grad
  caculate_gradient p (x ∷ xs) grad = elim (gradient_features p (error_of x) x.features grad) [
    | none ↦ none
    | some grad' ↦ elim (add_at 0 (error_of x) grad') [
      | none ↦ none
      | some grad'' ↦ caculate_gradient p xs grad''
    ]
  ]

  -- The sums of `validate`: log losses and means of `ctr` and `pctr`, and the deviations from them.
  abbrev pub loss : ℤ → F → F
  loss label q =
      let one = of_int (pos 1) in
      let miss = mul (of_int (pos 1 -ℤ label)) (sub one q) in
      neg (log (add (add (mul (of_int label) q) miss) fl.micro))

  abbrev pub total : (Sample F → F) → F → List (Sample F) → F
  total f sum [] = sum
  total f sum (x ∷ xs) = total f (add sum (f x)) xs

  unfoldable pub log_batch : List (Sample F) → RecordLog F → RecordLog F
  log_batch xs =
      let mean = λ (f : Sample F → F). div (total f nought xs) (of_int (pos (length xs))) in
      let ctr = mean (λ x. x.ctr) in
      let pctr = mean (λ x. x.pctr) in
      RecordLog.stat_info (mean (λ x. loss x.label x.ctr)) (mean (λ x. loss x.label x.pctr)) ctr
        pctr (total (λ x. fabs (sub x.ctr ctr)) nought xs)
        (total (λ x. fabs (sub x.pctr pctr)) nought xs)

  -- What `update` leaves behind: the probabilities in the samples, the log and the bounded maps.
  unfoldable pub close_round : F → Tm → List (Sample F) → Learner F → Learner F
  close_round timeuse now batch l =
      let log = RecordLog.stat_qps timeuse (log_batch batch l.recordlog) in
      record l {
        samples = put_all 0 batch l.samples;
        w = trimmed l.w;
        p = trimmed l.p;
        recordlog = (RecordLog.print now log).0;
      }

  -- `update`, with `pull` for the answer of the servers to a list of keys, the time that the round
  -- takes and the time of day. The result is the new state and the keys and values that are pushed,
  -- if any; `none` is an access past the end of an array.
  unfoldable pub update :
      (List ℕ → List F) → F → Tm → Learner F → Option (Learner F × Option (List ℕ × List F))
  update pull timeuse now l =
      let batch = entries 0 l.num_sample l.samples in
      let keys = unique_keys batch in
      let l1 = store_pulled 0 keys (pull keys) l in
      let scored = predict l1.w batch in
      if l.num_sample == 0
      then some (l, none)
      else if ltb feature_room (suc (length (concat (map (λ x. x.features) batch))))
      then none
      else elim (caculate_gradient l1.p scored (replicate (length keys) nought)) [
        | none ↦ none
        | some grad ↦ some (close_round timeuse now scored l1, some (keys, grad))
      ]
