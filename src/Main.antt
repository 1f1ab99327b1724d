-- ===== src/Main.antt =====
-- src/main.cpp, with the parts of src/core/ps_server.cpp that it starts: the options, the servers of
-- a server process, and the learners of a worker process. `getopt` and the INI reader are input.
pub mod Settings
pub mod Learners
use ftrl_online_pslite.Prelude.{
  ℕ, zero, suc, ◌+◌, Bool, true, false, ◌&&◌, not, Option, none, some, List, [], ◌∷◌, ◌++◌, length,
  ltb, ◌==◌, if◌then◌else◌,
}
use ftrl_online_pslite.Prelude.Int.{ℤ, pos, negsuc, pos_part, leb_ℤ}
use ftrl_online_pslite.Floats.{Floats}
use ftrl_online_pslite.Bytes.{Bytes, codes, eq_bytes}
use ftrl_online_pslite.StringUtil.{Parsers}
use ftrl_online_pslite.Condition.{Condition, field}
use ftrl_online_pslite.Ftrl
use ftrl_online_pslite.Learner.Labels.{Kind}

-- What `getopt` returns: an option's letter, with its argument.
abbrev pub Opt : Type 0
Opt = ℕ × Bytes

pub record Options : Type 0 where
  pub worker_idx_c : Bytes
  pub app_num_c : Bytes
  pub init_model_c : Bytes

abbrev pub defaults : Options
defaults = record { worker_idx_c = codes "0"; app_num_c = codes "1"; init_model_c = codes "" }

-- The `switch`; the other letters are taken and ignored.
unfoldable pub read_option : Opt → Options → Options
read_option (opt, optarg) o =
    if opt == b'i'
    then record o { worker_idx_c = optarg }
    else if opt == b'n'
    then record o { app_num_c = optarg }
    else if opt == b'm'
    then record o { init_model_c = optarg }
    else o

unfoldable pub read_options : List Opt → Options → Options
read_options [] o = o
read_options (x ∷ xs) o = read_options xs (read_option x o)

-- `INIReader` over the files: whether a file can be opened, and `Get` of a section's key.
pub record Ini : Type 0 where
  pub opens : Bytes → Bool
  pub get : Bytes → Bytes → Bytes → Bytes → Bytes
  pub to_string : ℕ → Bytes

-- `class PSS`; `ftrl` is what `StartFtrl` makes.
pub record Pss (F : Type 0) : Type 0 where
  pub app_id : ℕ
  pub save_frequence : ℤ
  pub save_path : Bytes
  pub ftrl : Option (Ftrl.Ftrl F)

-- A learner that was made: its class, its number and its configuration.
pub record Made : Type 0 where
  pub kind : Kind
  pub app_id : ℕ
  pub conf : Condition

module _ {F : Type 0} (p : Parsers F) where
  unfoldable pub new_pss : ℕ → Condition → Pss F
  new_pss appid server_conf = record {
    app_id = appid;
    save_frequence = p.atoi (field (codes "save_frequence") server_conf);
    save_path = field (codes "save_path") server_conf;
    ftrl = none;
  }

  -- `PSS::StartFtrl`, given the literal 0.02 and whether the thread that saves can be made.
  unfoldable pub start_ftrl : ⦃fl : Floats F⦄ → F → Bool → Pss F → Pss F
  start_ftrl ⦃fl⦄ alpha thread s =
      if thread
      then record s { ftrl = some (Ftrl.start alpha (fl.of_int (pos 1)) fl.tiny fl.close) }
      else s

module _ (ini : Ini) (file : Bytes) where
  -- The keys of a section, with the names under which they are kept.
  abbrev pub read_keys : Bytes → List (Bytes × Bytes) → Condition
  read_keys section [] = []
  read_keys section ((name, key) ∷ keys) =
      (name, ini.get file section key (codes "")) ∷ read_keys section keys

  abbrev pub section_of : Bytes → ℕ → Bytes
  section_of stem i = stem ++ ini.to_string i

  unfoldable pub server_conf : ℕ → Condition
  server_conf i = read_keys (section_of (codes "server_") i) (
      (codes "save_path", codes "save_path")
      ∷ (codes "save_frequence", codes "save_frequence")
      ∷ [])

  -- The loop of a server process, from number `i` on.
  unfoldable pub start_servers :
      {F : Type 0} ⦃fl : Floats F⦄ → Parsers F → F → (ℕ → Bool) → ℕ → ℕ → List (Pss F)
  start_servers p alpha thread zero i = []
  start_servers p alpha thread (suc left) i =
      start_ftrl p alpha (thread i) (new_pss p i (server_conf i))
      ∷ start_servers p alpha thread left (i + 1)

  unfoldable pub ini_config : ℤ → Condition
  ini_config worker_idx =
      let read = read_keys (codes "sample_message") (
        (codes "imp_topic", codes "imp_topic")
        ∷ (codes "imp_broker", codes "imp_broker")
        ∷ (codes "group", codes "group")
        ∷ (codes "bhv_topic", codes "bhv_topic")
        ∷ (codes "bhv_broker", codes "bhv_broker")
        ∷ []) in
      if leb_ℤ (pos 0) worker_idx
      then (codes "worker_idx", ini.to_string (pos_part worker_idx)) ∷ read
      else read

  unfoldable pub param_conf : ℕ → Condition
  param_conf k = read_keys (section_of (codes "learner_") k) (
      (codes "alpha", codes "alpha")
      ∷ (codes "beta", codes "beta")
      ∷ (codes "l1", codes "l1")
      ∷ (codes "l2", codes "l2")
      ∷ (codes "model", codes "init_model")
      ∷ (codes "setparam_flag", codes "setparam_flag")
      ∷ [])

  abbrev pub name_of : ℕ → Bytes
  name_of k = ini.get file (section_of (codes "learner_") k) (codes "name") (codes "")

  -- The chain of tests on the name.
  unfoldable pub kind_of : Bytes → Option Kind
  kind_of name =
      if eq_bytes name (codes "ig")
      then some Kind.ig
      else if eq_bytes name (codes "is")
      then some Kind.is
      else if eq_bytes name (codes "ir")
      then some Kind.ir
      else if eq_bytes name (codes "ivCPE")
      then some Kind.iv_cpe
      else none

  -- One round: a section with another name makes no learner.
  abbrev pub made_of : ℕ → Option Kind → List Made
  made_of k none = []
  made_of k (some kind) = record { kind = kind; app_id = k; conf = param_conf k } ∷ []

  -- The loop of a worker process, from number `k` on.
  unfoldable pub load_learners : ℕ → ℕ → List Made
  load_learners zero k = []
  load_learners (suc left) k = made_of k (kind_of (name_of k)) ++ load_learners left (k + 1)

-- `for (int k=0; k<N; k++) learners[k]->Wait();` from number `k` on: whether every access is within
-- the vector.
unfoldable pub wait_all : ℕ → ℕ → List Made → Bool
wait_all zero k learners = true
wait_all (suc left) k learners =
    let rest = wait_all left (k + 1) learners in ltb k (length learners) && rest

-- What `main` has started when it comes to the endless loop, or to the threads of the samples.
pub record Started (F : Type 0) : Type 0 where
  pub servers : List (Pss F)
  pub config : Condition
  pub learners : List Made

-- `main`, given the node's two roles: `none` is `return false`, before anything of that role, which
-- is the exit status of success.
unfoldable pub main :
    {F : Type 0} ⦃fl : Floats F⦄
    → Parsers F
    → Ini
    → (is_server is_worker : Bool) → F
    → (ℕ → Bool)
    → List Opt
    → Option (Started F)
main p ini is_server is_worker alpha thread opts =
    let o = read_options opts defaults in
    let app_num = pos_part (p.atoi o.app_num_c) in
    let servers =
      (if is_server then start_servers ini o.init_model_c p alpha thread app_num 0 else []) in
    let learners = (if is_worker then load_learners ini o.init_model_c app_num 0 else []) in
    let config =
      (if is_worker then ini_config ini o.init_model_c (p.atoi o.worker_idx_c) else []) in
    if is_server && not (ini.opens o.init_model_c)
    then none
    else if is_worker && not (ini.opens o.init_model_c)
    then none
    else some (record { servers = servers; config = config; learners = learners })
