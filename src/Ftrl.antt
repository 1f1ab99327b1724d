-- ===== src/Ftrl.antt =====
-- src/optimizer/ftrl.h and ftrl.cpp: the state of the parameter server's optimiser and its
-- operations.
pub mod Coord
pub mod Reset
pub mod History
pub mod Weights
use ftrl_online_pslite.Prelude.{
  ℕ, ◌+◌, ◌%◌, ◌^◌, Bool, true, false, ◌&&◌, ◌||◌, Option, none, some, List, [], ◌∷◌, map, length,
  ltb, ◌==◌, if◌then◌else◌, replicate,
}
use ftrl_online_pslite.Prelude.Int.{pos, negsuc}
use ftrl_online_pslite.Prelude.Map.{Map, at_or, insert, touch}
use ftrl_online_pslite.Floats.{Floats}
use ftrl_online_pslite.Bytes.{codes, eq_bytes}
use ftrl_online_pslite.Clock.{Strftime, Tm}

-- `class Ftrl`; `freq` is never read.
pub record Ftrl (F : Type 0) : Type 0 where
  pub alpha : F
  pub beta : F
  pub lamda1 : F
  pub lamda2 : F
  pub set_flag : Bool
  pub w : Map F
  pub z : Map F
  pub n : Map F
  pub acc : Map ℕ

-- `KVMeta` with the keys and values of `KVPairs<float>`.
pub record Request (F : Type 0) : Type 0 where
  pub push : Bool
  pub cmd : ℕ
  pub keys : List ℕ
  pub vals : List F

-- How a request ends: `server->Response`, the abort of `CHECK_EQ`, or an access past the end of a
-- vector, of which C++ says nothing.
pub data Outcome (F : Type 0) : Type 0 where
  replied : Ftrl F → (keys : List ℕ) → (vals : List F) → Outcome F
  check_failed : Outcome F
  out_of_bounds : Outcome F

abbrev pub acc_cap : ℕ
acc_cap = 1000000

-- The test at the head of `update`.
unfoldable pub reset_due : Strftime → Tm → Bool
reset_due strftime t =
    let mints = strftime (codes "%H:$M") t in
    eq_bytes mints (codes "00:00") || eq_bytes mints (codes "0:0")

-- The counter of a key after `acc[key]++` and the reset.
unfoldable pub count_up : Bool → ℕ → ℕ
count_up reset c = let c' = (c + 1) % 2 ^ 64 in if ltb acc_cap c' && reset then acc_cap else c'

module _ {F : Type 0} ⦃fl : Floats F⦄ where
  open fl use {of_int, add, sub, mul, div, neg, fabs, sqrt, le, lt}

  abbrev pub nought : F
  nought = of_int (pos 0)

  -- The weight that `update` computes from `Z[key]` and `N[key]`.
  unfoldable pub weight_of : (alpha beta lamda1 lamda2 z n : F) → F
  weight_of alpha beta lamda1 lamda2 z n =
      if le (fabs z) lamda1
      then nought
      else let sign = (if lt nought z then of_int (pos 1) else of_int (negsuc 0)) in
        let tmpr = sub z (mul sign lamda1) in
        let tmpl = neg (add (div (add beta (sqrt n)) alpha) lamda2) in div tmpr tmpl

  -- One round of the loop of `update`.
  unfoldable pub update_key : Bool → ℕ → F → Ftrl F → Ftrl F
  update_key reset key g s =
      let ni = add (at_or nought key s.n) (mul g g) in
      let shift =
        mul (div (sub (sqrt ni) (sqrt (at_or nought key s.n))) s.alpha) (at_or nought key s.w) in
      let zi = add (at_or nought key s.z) (sub g shift) in
      record s {
        acc = insert key (count_up reset (at_or 0 key s.acc)) s.acc;
        z = insert key zi s.z;
        n = insert key ni s.n;
        w = insert key (weight_of s.alpha s.beta s.lamda1 s.lamda2 zi ni) s.w;
      }

  -- `none` is a read past the end of `req.vals`.
  unfoldable pub update : Bool → List ℕ → List F → Ftrl F → Option (Ftrl F)
  update reset [] vals s = some s
  update reset (key ∷ keys) [] s = none
  update reset (key ∷ keys) (g ∷ vals) s = update reset keys vals (update_key reset key g s)

  unfoldable pub set_param : F → F → F → F → Ftrl F → Ftrl F
  set_param alpha beta l1 l2 s = record s { alpha = alpha; beta = beta; lamda1 = l1; lamda2 = l2 }

  -- The constructor, with the `set_param` that `PSS::StartFtrl` calls at once.
  unfoldable pub start : F → F → F → F → Ftrl F
  start alpha beta l1 l2 = record {
    alpha = alpha;
    beta = beta;
    lamda1 = l1;
    lamda2 = l2;
    set_flag = false;
    w = [];
    z = [];
    n = [];
    acc = [];
  }

  -- A wrong number of keys or values is only printed.
  unfoldable pub set_paramfromkv : List F → Ftrl F → Option (Ftrl F)
  unfolding set_param
  set_paramfromkv (alpha ∷ beta ∷ l1 ∷ l2 ∷ vals) s = some (set_param alpha beta l1 l2 s)
  set_paramfromkv _ s = none

  -- One round of the loop of `set_weight`.
  unfoldable pub set_weight_key : ℕ → F → Ftrl F → Ftrl F
  set_weight_key key v s = record s { w = insert key v s.w; acc = insert key acc_cap s.acc }

  unfoldable pub set_weight_loop : List ℕ → List F → Ftrl F → Option (Ftrl F)
  set_weight_loop [] vals s = some s
  set_weight_loop (key ∷ keys) [] s = none
  set_weight_loop (key ∷ keys) (v ∷ vals) s = set_weight_loop keys vals (set_weight_key key v s)

  unfoldable pub set_weight : List ℕ → List F → Ftrl F → Option (Ftrl F)
  set_weight keys vals s = elim (set_weight_loop keys vals s) [
    | none ↦ none
    | some s' ↦ some (record s' { set_flag = true })
  ]

  -- The loop of a pull: reading `W[key]` puts a missing key in.
  unfoldable pub read_weights : List ℕ → Map F → List F × Map F
  read_weights [] w = ([], w)
  read_weights (key ∷ keys) w =
      let (vals, w') = read_weights keys (touch nought key w) in (at_or nought key w ∷ vals, w')

  abbrev pub reply_push : List ℕ → Option (Ftrl F) → Outcome F
  reply_push keys none = out_of_bounds
  reply_push keys (some s) = replied s keys []

  -- A push, behind `CHECK_EQ(req_data.vals.size(), n)`.
  unfoldable pub handle_push : Bool → Request F → Ftrl F → Outcome F
  handle_push reset r s =
      if length r.vals == length r.keys
      then (if r.cmd == 1
          then reply_push r.keys (set_weight r.keys r.vals s)
          else if r.cmd == 2
          then reply_push r.keys (set_paramfromkv r.vals s)
          else reply_push r.keys (update reset r.keys r.vals s))
      else check_failed

  -- `res.vals[0] = 0.0` or `1.0` in the zero-filled vector of length `n`.
  abbrev pub flag_reply : Ftrl F → List ℕ → Outcome F
  flag_reply s [] = out_of_bounds
  flag_reply s (key ∷ keys) =
      let answer = (if s.set_flag then nought else of_int (pos 1)) in
      replied s (key ∷ keys) (answer ∷ replicate (length keys) nought)

  unfoldable pub handle_pull : Request F → Ftrl F → Outcome F
  handle_pull r s =
      if r.cmd == 1
      then flag_reply s r.keys
      else let (vals, w) = read_weights r.keys s.w in replied (record s { w = w }) r.keys vals

  unfoldable pub handle_request : Strftime → Tm → Request F → Ftrl F → Outcome F
  unfolding handle_push handle_pull
  handle_request strftime t r s =
      if r.push then handle_push (reset_due strftime t) r s else handle_pull r s
