-- ===== src/Main/Settings.antt =====
-- src/main.cpp: what the loop over the options leaves.
use ftrl_online_pslite.Prelude.{
  ℕ, ◌≡◌, refl, List, [], ◌∷◌, ◌==◌, if◌then◌else◌, arith, Bool, ◌∙◌, ap,
}
use ftrl_online_pslite.Bytes.{Bytes, codes}
use ftrl_online_pslite.Main.{Opt, Options, defaults, read_option, read_options}

-- The argument of the last option whose letter passes the test.
abbrev pub last_of : (ℕ → Bool) → Bytes → List Opt → Bytes
last_of test v [] = v
last_of test v ((opt, optarg) ∷ opts) = last_of test (if test opt then optarg else v) opts

abbrev settings : List Opt → Options → Options
settings opts o = record {
  worker_idx_c = last_of (λ c. c == b'i') o.worker_idx_c opts;
  app_num_c = last_of (λ c. c == b'n') o.app_num_c opts;
  init_model_c = last_of (λ c. c == b'm') o.init_model_c opts;
}

-- A letter is one of the three at most.
read_option_lem :
    (opt : ℕ) (optarg : Bytes) (o : Options)
    → read_option (opt, optarg) o ≡ record {
      worker_idx_c = if opt == b'i' then optarg else o.worker_idx_c;
      app_num_c = if opt == b'n' then optarg else o.app_num_c;
      init_model_c = if opt == b'm' then optarg else o.init_model_c;
    }
unfolding read_option
read_option_lem opt optarg o = ground arith

read_options_run : (opts : List Opt) (o : Options) → read_options opts o ≡ settings opts o
unfolding read_options
read_options_run [] o = refl
read_options_run ((opt, optarg) ∷ opts) o =
    read_options_run opts (read_option (opt, optarg) o)
    ∙ ap (settings opts) (read_option_lem opt optarg o)

-- The three settings are the arguments of the last -i, -n and -m, and "0", "1" and the empty text
-- where there is none; every other option changes nothing.
pub read_options_lem :
    (opts : List Opt)
    → read_options opts defaults ≡ record {
      worker_idx_c = last_of (λ c. c == b'i') (codes "0") opts;
      app_num_c = last_of (λ c. c == b'n') (codes "1") opts;
      init_model_c = last_of (λ c. c == b'm') (codes "") opts;
    }
read_options_lem opts = read_options_run opts defaults
