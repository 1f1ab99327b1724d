-- ===== src/Examples/Stream.antt =====
-- Runs of the parser on messages, and of the two threads of a learner.
use ftrl_online_pslite.Prelude.{
  ℕ, ◌≡◌, ◌≢◌, ◌⊎◌, ◌≤◌, ◌+◌, refl, Option, some, none, List, [], ◌∷◌, ◌++◌, false, true, arith,
}
use ftrl_online_pslite.Prelude.Int.{ℤ, pos}
use ftrl_online_pslite.Floats.{whole}
use ftrl_online_pslite.Bytes.{Bytes, codes}
use ftrl_online_pslite.StringUtil.Split.{join}
use ftrl_online_pslite.Learner.Labels.{Kind}
use ftrl_online_pslite.Learner.Handshake.{
  Shared, Step, Steps, Feeder, Trainer, begin, fills, trains, Steps-exclusive, stat_overwritten,
}
use ftrl_online_pslite.Parser.{Parser}
use ftrl_online_pslite.Parser.Buffer.{new_parser}
use ftrl_online_pslite.Parser.Buffer.Bounds.{IsBuffered}
use ftrl_online_pslite.Parser.Buffer.Fit.{HoldsSound}
use ftrl_online_pslite.Parser.Buffer.Trained.{new_parser-HoldsSound}
use ftrl_online_pslite.Parser.Buffer.Run.{process_all, process_all-new_parser}
use ftrl_online_pslite.Parser.Buffer.{process, after_0, after_1, take_0, take_1, flush}
use ftrl_online_pslite.Parser.Message.{
  impression_0, parse_sample_0, parse_sample_1, open_0, open_1, head_1, rank_1, first_seen0,
  first_seen1, finish_0, finish_1,
}
use ftrl_online_pslite.StringUtil.{
  find, c_str, count, split, last_state, after_tab, count_loop, drop_spaces, find_kv, find_loop,
  is_uint64, keep_to, split_loop, trim,
}
use ftrl_online_pslite.Prelude.Map.{at_or, insert}
use ftrl_online_pslite.Parser.Crc.{crc64, crc_loop, crc_bytes}
use ftrl_online_pslite.Parser.Feature.{extract_feature, read_features}
use ftrl_online_pslite.Learner.Labels.{check_imp, iv_cpe_imp, check_label, iv_cpe_label}
use ftrl_online_pslite.RecordLog.{init, print, stat_delay0, stat_delay1}
use ftrl_online_pslite.Examples.{env, sample_a}

-- The first five steps of the parser's thread and the learner's: a batch is filled and taken.
abbrev filled_once : Shared
filled_once = record {
  sem_done = 0;
  sem_ready = 0;
  stat = 3;
  exit_flag = false;
  feeder = Feeder.outside;
  trainer = Trainer.updating;
}

two_turns : Steps (begin 0) filled_once
unfolding begin
two_turns = Steps.next (Step.wait_done _ 0 refl refl) (
    Steps.next (Step.post_ready _ refl) (
      Steps.next (Step.set_stat_3 _ refl)
        (Steps.next (Step.wait_ready _ 0 refl refl) (Steps.here _))))

Steps-exclusive_example :
    (fills filled_once.feeder + trains filled_once.trainer ≤ 1)
    × (filled_once.sem_done + filled_once.sem_ready ≤ 1)
Steps-exclusive_example = Steps-exclusive 0 filled_once two_turns

-- The learner's thread has returned while a batch is filled.
abbrev late : Shared
late = record {
  sem_done = 0;
  sem_ready = 0;
  stat = 5;
  exit_flag = true;
  feeder = Feeder.filling;
  trainer = Trainer.returned;
}

abbrev later : Shared
later = record late { sem_ready = 1; stat = 3; feeder = Feeder.outside }

to_later : Steps late later
to_later = Steps.next (Step.post_ready _ refl) (Steps.next (Step.set_stat_3 _ refl) (Steps.here _))

stat_overwritten_example :
    (later.trainer ≡ Trainer.returned) × ((later.feeder ≢ Feeder.outside) ⊎ (later.stat ≡ 3))
stat_overwritten_example = stat_overwritten late later refl (λ e. cc) to_later

abbrev pub ad : Bytes → Bytes
ad last = join b'\t' (
    codes "1"
    ∷ codes "2"
    ∷ codes "3"
    ∷ codes "4"
    ∷ codes "5"
    ∷ (codes "a;b;c;d;e;f;g;h;i;j;k;l;m;n;o;p;" ++ last)
    ∷ codes "7"
    ∷ codes "8"
    ∷ codes "9"
    ∷ codes "8"
    ∷ [])

-- An impression with the given text of features.
abbrev pub impression_of : Bytes → Bytes
impression_of last =
    join 1
      (codes "x\t1600000000" ∷ codes "1\t2\t3\t4\tmark" ∷ codes "y" ∷ ad last ∷ codes "f\t0" ∷ [])

-- An impression with two features.
abbrev pub impression : Bytes
impression = impression_of (codes "sfst_rank_ocpx_v2:5,7,9")

abbrev messages : List (Bytes × ℕ)
messages = (impression, 0) ∷ (codes "short", 1) ∷ (impression, 0) ∷ []

abbrev or_else : Parser ℤ → Option (Parser ℤ) → Parser ℤ
or_else d none = d
or_else d (some s) = s

-- The state once the messages are processed: the second copy of the impression is dropped.
abbrev processed : Parser ℤ
processed =
    or_else (new_parser (Kind.ig ∷ []) (λ i. sample_a) (λ i j. pos 0))
      (process_all env messages (new_parser (Kind.ig ∷ []) (λ i. sample_a) (λ i j. pos 0)))

one_waits : processed.idx_0 ≡ 1
unfolding process_all new_parser process after_0 after_1 take_0 take_1 flush parse_sample_0
    impression_0 parse_sample_1 open_0 open_1 head_1 rank_1 first_seen0 first_seen1 finish_0
    finish_1 find c_str count split last_state after_tab count_loop drop_spaces find_kv find_loop
    is_uint64 keep_to split_loop trim at_or insert crc64 crc_loop crc_bytes extract_feature
    read_features check_imp iv_cpe_imp check_label iv_cpe_label init print stat_delay0 stat_delay1
one_waits = refl

new_parser-HoldsSound_example : IsBuffered processed × HoldsSound processed
unfolding process_all new_parser process after_0 after_1 take_0 take_1 flush parse_sample_0
    impression_0 parse_sample_1 open_0 open_1 head_1 rank_1 first_seen0 first_seen1 finish_0
    finish_1 find c_str count split last_state after_tab count_loop drop_spaces find_kv find_loop
    is_uint64 keep_to split_loop trim at_or insert crc64 crc_loop crc_bytes extract_feature
    read_features check_imp iv_cpe_imp check_label iv_cpe_label init print stat_delay0 stat_delay1
new_parser-HoldsSound_example =
    new_parser-HoldsSound env (Kind.ig ∷ []) (λ i. sample_a) (λ i j. pos 0) messages
      {s' = processed} (λ s. omega arith) refl

process_all-new_parser_example : IsBuffered processed × (processed.lw ≡ Kind.ig ∷ [])
unfolding process_all new_parser process after_0 after_1 take_0 take_1 flush parse_sample_0
    impression_0 parse_sample_1 open_0 open_1 head_1 rank_1 first_seen0 first_seen1 finish_0
    finish_1 find c_str count split last_state after_tab count_loop drop_spaces find_kv find_loop
    is_uint64 keep_to split_loop trim at_or insert crc64 crc_loop crc_bytes extract_feature
    read_features check_imp iv_cpe_imp check_label iv_cpe_label init print stat_delay0 stat_delay1
process_all-new_parser_example =
    process_all-new_parser env (Kind.ig ∷ []) (λ i. sample_a) (λ i j. pos 0) messages
      {s' = processed} refl
