-- ===== src/Learner/Model.antt =====
-- src/core/learner.cpp: the constructor's talk with the server, and `LoadModel`.
use ftrl_online_pslite.Prelude.{
  ℕ, ◌+◌, Bool, true, false, Option, none, some, List, [], ◌∷◌, ◌++◌, take, replicate, ◌==◌,
  if◌then◌else◌,
}
use ftrl_online_pslite.Prelude.Int.{pos, eq_ℤ}
use ftrl_online_pslite.Prelude.Map.{Map, insert, keys_of, values_of}
use ftrl_online_pslite.Floats.{Floats}
use ftrl_online_pslite.Bytes.{Bytes}
use ftrl_online_pslite.StringUtil.{Parsers, split, is_float, is_uint64}
use ftrl_online_pslite.Ftrl.{Request}
use ftrl_online_pslite.Learner.{nought}

-- `getline` until it fails: a text that ends in a line feed has no line behind it.
abbrev pub last_line : Bytes → List Bytes
last_line [] = []
last_line (d ∷ piece) = (d ∷ piece) ∷ []

unfoldable pub lines_from : Bytes → Bytes → List Bytes
lines_from piece [] = last_line piece
lines_from piece (c ∷ s) =
    let next = piece ∷ lines_from [] s in
    let on = lines_from (piece ++ c ∷ []) s in if c == b'\n' then next else on

module _ {F : Type 0} ⦃fl : Floats F⦄ (p : Parsers F) where
  -- The first line, whose weight goes to key 0 whatever its key says.
  abbrev pub store_bias : Option F → Map F → Map F
  store_bias none w = insert 0 nought w
  store_bias (some weight) w = insert 0 weight (insert 0 nought w)

  abbrev pub store_feature : Option ℕ → Option F → Map F → Map F
  store_feature (some feature_id) (some weight) w = insert feature_id weight w
  store_feature _ _ w = w

  -- One line, cut at its commas; `cntt` is the number of the line.
  unfoldable pub load_fields : ℕ → List Bytes → Map F → Map F
  load_fields cntt (a ∷ b ∷ []) w =
      if cntt == 1
      then store_bias (is_float p b) w
      else store_feature (is_uint64 p a) (is_float p b) w
  load_fields cntt (a ∷ b ∷ c ∷ rest) w = if cntt == 1 then store_bias (is_float p b) w else w
  load_fields cntt _ w = w

  unfoldable pub load_lines : ℕ → List Bytes → Map F → Map F
  load_lines cntt [] w = w
  load_lines cntt (line ∷ rest) w =
      load_lines (cntt + 1) rest (load_fields (cntt + 1) (split line b',') w)

  -- `LoadModel` on the text of the file, `none` for a file that does not open.
  unfoldable pub load_model : Option Bytes → Map F → Map F × Bool
  load_model none w = (w, false)
  load_model (some text) w = (load_lines 0 (lines_from [] text) w, true)

-- The entries of `ini_config` that the constructor reads, with the file behind `model`.
pub record Config : Type 0 where
  pub model : Option Bytes
  pub setparam_flag : Bytes
  pub alpha : Bytes
  pub beta : Bytes
  pub l1 : Bytes
  pub l2 : Bytes

-- `keys.resize(4)`
abbrev pub resize_4 : List ℕ → List ℕ
resize_4 keys = take 4 (keys ++ replicate 4 0)

-- `fabs(vals[0]-1.0) < 0.0001`
abbrev pub asks_for_model : {F : Type 0} ⦃fl : Floats F⦄ → F → Bool
asks_for_model ⦃fl⦄ answer = fl.lt (fl.fabs (fl.sub answer (fl.of_int (pos 1)))) fl.close

module _ {F : Type 0} ⦃fl : Floats F⦄ (p : Parsers F) (c : Config) where
  abbrev pub sets_params : Bool
  sets_params = eq_ℤ (p.atoi c.setparam_flag) (pos 1)

  abbrev pub params : List F
  params = p.atof c.alpha ∷ p.atof c.beta ∷ p.atof c.l1 ∷ p.atof c.l2 ∷ []

  -- The pull of the flag.
  abbrev pub flag_request : Request F
  flag_request = record { push = false; cmd = 1; keys = 1 ∷ []; vals = [] }

  abbrev pub push_params : List ℕ → List (Request F)
  push_params keys =
      if sets_params
      then record { push = true; cmd = 2; keys = resize_4 keys; vals = params } ∷ []
      else []

  -- The constructor after that pull, which was answered by `answer`: the weights that are loaded
  -- and the pushes, in their order.
  unfoldable pub boot : F → Map F × List (Request F)
  boot answer =
      let w = (load_model p c.model []).0 in
      let load : Request F = record {
        push = true;
        cmd = 1;
        keys = keys_of w;
        vals = values_of w;
      } in
      if asks_for_model answer
      then (w, load ∷ push_params (keys_of w))
      else ([], push_params (1 ∷ []))
