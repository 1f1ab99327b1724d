-- ===== src/Examples/Handover.antt =====
-- A run of the parser on the hundredth impression, whose batches are trained with.
use ftrl_online_pslite.Prelude.{
  ℕ, zero, suc, ◌+◌, ◌≡◌, refl, Option, some, none, List, [], All, length, arith,
}
use ftrl_online_pslite.Prelude.Int.{ℤ, pos}
use ftrl_online_pslite.Floats.{whole}
use ftrl_online_pslite.Parser.{Parser}
use ftrl_online_pslite.Parser.Message.{
  impression_0, parse_sample_0, parse_sample_1, open_0, open_1, head_1, rank_1, first_seen0,
  first_seen1, finish_0, finish_1,
}
use ftrl_online_pslite.Parser.Message.Small.{IsInt}
use ftrl_online_pslite.Parser.Buffer.{
  Delivery, process, after_0, after_1, take_0, take_1, flush, new_parser,
}
use ftrl_online_pslite.Parser.Buffer.Bounds.{contents}
use ftrl_online_pslite.Parser.Buffer.Run.{process_all}
use ftrl_online_pslite.Parser.Buffer.Fit.{HoldsSound, SoundContents}
use ftrl_online_pslite.Parser.Buffer.Accept.{Trains}
use ftrl_online_pslite.Parser.Buffer.Trained.{process-Trains}
use ftrl_online_pslite.StringUtil.{
  find, c_str, count, split, last_state, after_tab, count_loop, drop_spaces, find_kv, find_loop,
  is_uint64, keep_to, split_loop, trim,
}
use ftrl_online_pslite.Prelude.Map.{at_or, insert}
use ftrl_online_pslite.Parser.Crc.{crc64, crc_loop, crc_bytes}
use ftrl_online_pslite.Parser.Feature.{extract_feature, read_features}
use ftrl_online_pslite.Learner.Labels.{check_imp, iv_cpe_imp, check_label, iv_cpe_label}
use ftrl_online_pslite.RecordLog.{init, print, stat_delay0, stat_delay1}
use ftrl_online_pslite.Examples.{
  whole_parsers, env, clock, midnight, server, worker, sample_a, parser,
}
use ftrl_online_pslite.Examples.Stream.{impression}

pub whole_parsers-IsInt : IsInt whole_parsers
whole_parsers-IsInt s = omega arith

sample_a-SoundContents : (i n : ℕ) → SoundContents (contents i n (λ j. sample_a))
sample_a-SoundContents i zero = tt
sample_a-SoundContents i (suc n) =
    ((omega arith, (omega arith, (omega arith, tt))), sample_a-SoundContents (i + 1) n)

pub parser-HoldsSound : HoldsSound parser
parser-HoldsSound = (sample_a-SoundContents 0 99, tt)

abbrev result : Parser ℤ × List (Delivery ℤ)
result = result_of (process env impression 0 parser)
  where
    result_of : Option (Parser ℤ × List (Delivery ℤ)) → Parser ℤ × List (Delivery ℤ)
    result_of none = (parser, [])
    result_of (some r) = r

two_batches : length result.1 ≡ 2
unfolding process_all new_parser process after_0 after_1 take_0 take_1 flush parse_sample_0
    impression_0 parse_sample_1 open_0 open_1 head_1 rank_1 first_seen0 first_seen1 finish_0
    finish_1 find c_str count split last_state after_tab count_loop drop_spaces find_kv find_loop
    is_uint64 keep_to split_loop trim at_or insert crc64 crc_loop crc_bytes extract_feature
    read_features check_imp iv_cpe_imp check_label iv_cpe_label init print stat_delay0 stat_delay1
two_batches = refl

handed_out : process env impression 0 parser ≡ some result
unfolding process_all new_parser process after_0 after_1 take_0 take_1 flush parse_sample_0
    impression_0 parse_sample_1 open_0 open_1 head_1 rank_1 first_seen0 first_seen1 finish_0
    finish_1 find c_str count split last_state after_tab count_loop drop_spaces find_kv find_loop
    is_uint64 keep_to split_loop trim at_or insert crc64 crc_loop crc_bytes extract_feature
    read_features check_imp iv_cpe_imp check_label iv_cpe_label init print stat_delay0 stat_delay1
handed_out = refl

process-Trains_example : All (Trains clock midnight midnight (pos 0) server worker) result.1
unfolding process_all
process-Trains_example =
    process-Trains env [] impression 0 parser clock midnight midnight (pos 0) server worker
      whole_parsers-IsInt (refl, refl, omega arith, omega arith) parser-HoldsSound refl handed_out
