-- ===== src/Tools/Options.antt =====
-- tools/main.cpp: the options of the earlier program, and the parameters of its workers.
use ftrl_online_pslite.Prelude.{
  ℕ, ◌≡◌, refl, ap, ◌∙◌, Bool, ◌||◌, List, [], ◌∷◌, ◌==◌, if◌then◌else◌, arith,
}
use ftrl_online_pslite.Prelude.Int.{pos, eq_ℤ}
use ftrl_online_pslite.Bytes.{Bytes, codes}
use ftrl_online_pslite.StringUtil.{Parsers}
use ftrl_online_pslite.Main.{Opt}
use ftrl_online_pslite.Main.Settings.{last_of}

pub record EarlyOptions : Type 0 where
  pub worker_idx_c : Bytes
  pub part_num_c : Bytes
  pub init_model_c : Bytes
  pub init_model_c2 : Bytes
  pub redis_config_c : Bytes
  pub param_flag : Bytes
  pub init_alpha : Bytes
  pub init_beta : Bytes
  pub init_l1 : Bytes
  pub init_l2 : Bytes

abbrev pub early_defaults : EarlyOptions
early_defaults = record {
  worker_idx_c = codes "0";
  part_num_c = codes "3";
  init_model_c = codes "";
  init_model_c2 = codes "";
  redis_config_c = codes "";
  param_flag = codes "0";
  init_alpha = codes "";
  init_beta = codes "";
  init_l1 = codes "";
  init_l2 = codes "";
}

-- The cases of the `switch` from the last on; none of them has a `break`.
abbrev pub case_h : Bytes → EarlyOptions → EarlyOptions
case_h optarg o = record o { init_l2 = optarg }

abbrev pub case_l : Bytes → EarlyOptions → EarlyOptions
case_l optarg o = case_h optarg (record o { init_l1 = optarg })

abbrev pub case_b : Bytes → EarlyOptions → EarlyOptions
case_b optarg o = case_l optarg (record o { init_beta = optarg })

abbrev pub case_a : Bytes → EarlyOptions → EarlyOptions
case_a optarg o = case_b optarg (record o { init_alpha = optarg })

abbrev pub case_f : Bytes → EarlyOptions → EarlyOptions
case_f optarg o = case_a optarg (record o { param_flag = optarg })

abbrev pub case_r : Bytes → EarlyOptions → EarlyOptions
case_r optarg o = case_f optarg (record o { redis_config_c = optarg })

abbrev pub case_e : Bytes → EarlyOptions → EarlyOptions
case_e optarg o = case_r optarg (record o { init_model_c2 = optarg })

unfoldable pub early_option : Opt → EarlyOptions → EarlyOptions
early_option (opt, optarg) o =
    if opt == b'i'
    then record o { worker_idx_c = optarg }
    else if opt == b'n'
    then record o { part_num_c = optarg }
    else if opt == b'm'
    then record o { init_model_c = optarg }
    else if opt == b'e'
    then case_e optarg o
    else if opt == b'r'
    then case_r optarg o
    else if opt == b'f'
    then case_f optarg o
    else if opt == b'a'
    then case_a optarg o
    else if opt == b'b'
    then case_b optarg o
    else if opt == b'l'
    then case_l optarg o
    else if opt == b'h'
    then case_h optarg o
    else o

unfoldable pub early_options : List Opt → EarlyOptions → EarlyOptions
early_options [] o = o
early_options (x ∷ xs) o = early_options xs (early_option x o)

-- The parameters of the workers: the four texts as numbers where the flag is 1.
unfoldable pub param_vec :
    {F : Type 0} → Parsers F → (alpha beta l1 l2 : F) → EarlyOptions → F × F × F × F
param_vec p alpha beta l1 l2 o =
    if eq_ℤ (p.atoi o.param_flag) (pos 1)
    then (p.atof o.init_alpha, p.atof o.init_beta, p.atof o.init_l1, p.atof o.init_l2)
    else (alpha, beta, l1, l2)

-- The letters from whose case the `switch` comes to a given one.
abbrev from_f : ℕ → Bool
from_f c = (c == b'e') || (c == b'r') || (c == b'f')

abbrev from_h : ℕ → Bool
from_h c = from_f c || (c == b'a') || (c == b'b') || (c == b'l') || (c == b'h')

early_option_lem :
    (opt : ℕ) (optarg : Bytes) (o : EarlyOptions)
    → ((early_option (opt, optarg) o).param_flag ≡ (if from_f opt then optarg else o.param_flag))
      × ((early_option (opt, optarg) o).init_l2 ≡ (if from_h opt then optarg else o.init_l2))
unfolding early_option
early_option_lem opt optarg o = (ground arith, ground arith)

-- The flag is the argument of the last -e, -r or -f, and `init_l2` that of the last of these or of
-- -a, -b, -l and -h, where each option is meant to set one value.
early_options_lem :
    (opts : List Opt) (o : EarlyOptions)
    → ((early_options opts o).param_flag ≡ last_of from_f o.param_flag opts)
      × ((early_options opts o).init_l2 ≡ last_of from_h o.init_l2 opts)
unfolding early_options
early_options_lem [] o = (refl, refl)
early_options_lem ((opt, optarg) ∷ opts) o =
    let (flag, l2) = early_options_lem opts (early_option (opt, optarg) o) in
    let (flag1, l21) = early_option_lem opt optarg o in
    (flag ∙ ap (λ v. last_of from_f v opts) flag1, l2 ∙ ap (λ v. last_of from_h v opts) l21)
