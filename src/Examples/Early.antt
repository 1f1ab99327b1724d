-- ===== src/Examples/Early.antt =====
-- Runs of the earlier program, on samples and on messages.
use ftrl_online_pslite.Prelude.{ℕ, ◌≡◌, refl, Option, some, none, List, [], ◌∷◌, replicate, All}
use ftrl_online_pslite.Prelude.Int.{ℤ, pos}
use ftrl_online_pslite.Prelude.Map.{at_or, insert}
use ftrl_online_pslite.Floats.{whole}
use ftrl_online_pslite.Bytes.{Bytes, codes}
use ftrl_online_pslite.StringUtil.{
  find, c_str, count, split, last_state, after_tab, count_loop, drop_spaces, find_kv, find_loop,
  is_uint64, keep_to, split_loop, trim,
}
use ftrl_online_pslite.Learner.Labels.{in_table}
use ftrl_online_pslite.RecordLog.{init}
use ftrl_online_pslite.Parser.Crc.{crc64, crc_loop, crc_bytes}
use ftrl_online_pslite.Parser.Feature.{read_features}
use ftrl_online_pslite.Tools.{Merger, LogSample, Outside}
use ftrl_online_pslite.Tools.Counters.{test0, test1, statis0, statis1, proflearner}
use ftrl_online_pslite.Tools.Message.{
  parse_sample_0, parse_sample_1, open_0, open_1, head_1, rank_1, first_seen0, first_seen1,
  finish_0, finish_1,
}
use ftrl_online_pslite.Tools.Feature.{extract_feature, fusion_features}
use ftrl_online_pslite.Tools.Merge.{
  Task, new_merger, merge, merge_0, merge_1, after_0, after_1, run_batch, append_samples,
}
use ftrl_online_pslite.Tools.Merge.Queue.{Waiting, count_one}
use ftrl_online_pslite.Tools.Merge.Run.{merge_all, IsBatch, merge_all-new_merger}
use ftrl_online_pslite.Examples.{env, empty_log}
use ftrl_online_pslite.Examples.Stream.{impression_of}

abbrev outside : Outside ℤ
outside = record {
  parsers = env.parsers;
  crc64_table = env.crc64_table;
  strftime = env.strftime;
  localtime = env.localtime;
  time = env.time;
  mem_size = 1000;
}

abbrev shown_once : LogSample ℤ
shown_once = record { label = pos 0; ctr = pos 1; features = 4 ∷ 9 ∷ [] }

-- Of ninety-nine samples that were counted, three are impressions.
abbrev nearly_full : Merger ℤ
nearly_full = record {
  cntl_0 = 3;
  cntl_1 = 96;
  proinfos = empty_log;
  appnum = 2;
  sample_0 = λ i. shown_once;
  sample_1 = λ i. shown_once;
  idx_0 = 3;
  idx_1 = 0;
  markid_hashmap = [];
  markid_hashmap0 = [];
}

abbrev three_wait : Waiting ℤ
three_wait = record { queue = shown_once ∷ shown_once ∷ shown_once ∷ []; counted = 96 }

two_tasks : (count_one outside 2 three_wait).1 ≡ replicate 2 three_wait.queue
two_tasks = refl

abbrev messages : List (Bytes × ℕ)
messages = (impression_of (codes "fr-fusion1:1,2,3,4,107,1"), 0) ∷ (codes "short", 1) ∷ []

abbrev first_or :
    Merger ℤ × List (Task ℤ) → Option (Merger ℤ × List (Task ℤ)) → Merger ℤ × List (Task ℤ)
first_or d none = d
first_or d (some r) = r

abbrev merged : Merger ℤ × List (Task ℤ)
merged = first_or (nearly_full, []) (merge_all outside messages (new_merger 2 (λ i. shown_once)))

one_waits : merged.0.idx_0 ≡ 1
unfolding merge_all new_merger merge merge_0 merge_1 after_0 after_1 run_batch append_samples
    parse_sample_0 parse_sample_1 open_0 open_1 head_1 rank_1 first_seen0 first_seen1 finish_0
    finish_1 extract_feature fusion_features find c_str count split last_state after_tab count_loop
    drop_spaces find_kv find_loop is_uint64 keep_to split_loop trim at_or insert crc64 crc_loop
    crc_bytes read_features in_table init test0 test1 statis0 statis1 proflearner
one_waits = refl

merge_all-new_merger_example : All IsBatch merged.1 × (merged.0.idx_1 ≡ 0)
unfolding merge_all new_merger merge merge_0 merge_1 after_0 after_1 run_batch append_samples
    parse_sample_0 parse_sample_1 open_0 open_1 head_1 rank_1 first_seen0 first_seen1 finish_0
    finish_1 extract_feature fusion_features find c_str count split last_state after_tab count_loop
    drop_spaces find_kv find_loop is_uint64 keep_to split_loop trim at_or insert crc64 crc_loop
    crc_bytes read_features in_table init test0 test1 statis0 statis1 proflearner
merge_all-new_merger_example =
    merge_all-new_merger outside 2 (λ i. shown_once) messages merged.0 merged.1 refl
