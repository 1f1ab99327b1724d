-- ===== src/Tools/Message.antt =====
-- tools/learner.cpp: `Parse_sample_0` and `Parse_sample_1`.
pub mod Frame
use ftrl_online_pslite.Prelude.{
  ℕ, suc, ◌+◌, ◌-◌, ◌^◌, Bool, not, ◌&&◌, ◌||◌, List, [], ◌∷◌, ◌++◌, length, take, drop, leb, ltb,
  ◌==◌, if◌then◌else◌,
}
use ftrl_online_pslite.Prelude.Int.{ℤ, pos, negsuc, eq_ℤ}
use ftrl_online_pslite.Prelude.Map.{Map, at_or, insert}
use ftrl_online_pslite.Floats.{Floats}
use ftrl_online_pslite.Bytes.{Bytes, codes, eq_bytes}
use ftrl_online_pslite.StringUtil.{
  npos, count, split, c_str, last_state, find, find_kv, is_uint64, Parsers,
}
use ftrl_online_pslite.Condition.{Condition}
use ftrl_online_pslite.Verdict.{
  Verdict, out_of_bounds, going, ◌>>=◌, ◌>>◌, guard, element, modify, give,
}
use ftrl_online_pslite.Learner.Labels.{in_table, ig_table, filter_passes, number_or}
use ftrl_online_pslite.Parser.Crc.{crc64}
use ftrl_online_pslite.Parser.Feature.{read_features}
use ftrl_online_pslite.Tools.{Merger, Outside, Read}
use ftrl_online_pslite.Tools.Feature.{Features, extract_feature, filtermsg}
use ftrl_online_pslite.Tools.Counters.{test0, test1}

-- What `Parse_sample_1` has read of a behaviour when it comes to the test for a repeated message.
pub record Reaction : Type 0 where
  pub code : Bytes
  pub filter : Bytes
  pub markid : Bytes
  pub rank_match : List Bytes
  pub now : ℤ
  pub extend2 : Bytes

-- The constructor's table holds the codes of the learner ig.
abbrev pub table_code : List Bytes
table_code = ig_table

abbrev tab : ℕ
tab = b'\t'

-- The byte 1, the outer separator.
abbrev mark : ℕ
mark = 1

abbrev holds_filter : Bytes → Bool
holds_filter msg = not (find msg filtermsg 0 == npos)

-- `swap` with an empty map, past fifty million keys at a time that is due.
abbrev cleared : Bool → Map ℕ → Map ℕ
cleared due m = if ltb 50000000 (length m) && due then [] else m

module _ {F : Type 0} ⦃fl : Floats F⦄ (out : Outside F) where
  open out use {parsers, crc64_table, strftime, localtime, time}

  abbrev due0 : Bool
  due0 =
      let mints = strftime (codes "$M") (localtime time) in
      eq_bytes mints (codes "00") || eq_bytes mints (codes "0")

  abbrev due1 : Bool
  due1 =
      let mints = strftime (codes "%H:$M") (localtime time) in
      eq_bytes mints (codes "00:00") || eq_bytes mints (codes "0:0")

  -- `markid_hashmap0[hash_key]++`, and the test for a repeated message.
  unfoldable pub first_seen0 : Bytes → Read F (Unit {0})
  first_seen0 markid = do
    let key = crc64 crc64_table markid
    modify (λ s. record s {
      markid_hashmap0 = insert key (at_or 0 key s.markid_hashmap0 + 1) s.markid_hashmap0;
    })
    (λ s. guard (not (ltb 1 (at_or 0 key s.markid_hashmap0))) s)
    modify (λ s. record s { markid_hashmap0 = cleared due0 s.markid_hashmap0 })

  unfoldable pub first_seen1 : Bytes → Read F (Unit {0})
  first_seen1 markid = do
    let key = crc64 crc64_table markid
    modify (λ s. record s {
      markid_hashmap = insert key (at_or 0 key s.markid_hashmap + 1) s.markid_hashmap;
    })
    (λ s. guard (not (ltb 1 (at_or 0 key s.markid_hashmap))) s)
    modify (λ s. record s { markid_hashmap = cleared due1 s.markid_hashmap })

  -- The checks of an impression up to its time: the separated parts, and the time.
  unfoldable pub open_0 : Bytes → Read F (List Bytes × ℤ)
  open_0 msg = do
    guard (holds_filter msg)
    guard (leb 1 (count msg b'\n'))
    let array = split msg b'\n'
    guard (leb 1 (length array))
    imp ← element array 0
    guard (leb 5 (count imp mark))
    guard (eq_ℤ (parsers.atoi (last_state imp)) (pos 0))
    let sec = split imp mark
    sec0 ← element sec 0
    let common = split sec0 tab
    guard (leb 2 (length common))
    unixtime ← element common 1
    give (sec, parsers.atoi (take 10 unixtime))

  -- The part behind the test for a repeated message.
  unfoldable pub finish_0 : List Bytes → Read F (Features F)
  finish_0 sec = do
    sec3 ← element sec 3
    sec4 ← element sec 4
    let ad = split sec3 tab
    guard (leb 2 (length (split sec4 tab)))
    guard (leb 6 (length ad))
    rank ← element ad 5
    let rank_match = split rank b';'
    guard (leb 17 (length rank_match))
    text ← element rank_match 16
    extract_feature out text

  unfoldable pub parse_sample_0 : Bytes → Read F (Features F)
  parse_sample_0 raw = do
    (sec, mt) ← open_0 (c_str raw)
    modify (λ s. record s { proinfos = test0 mt time (localtime mt) s.proinfos })
    sec1 ← element sec 1
    markid ← element (split sec1 tab) 4
    first_seen0 markid
    finish_0 sec

  -- The checks of a behaviour itself: the lines, its two lists of fields, and its code and filter.
  unfoldable pub head_1 : Bytes → Read F (List Bytes × List Bytes × List Bytes × Bytes × Bytes)
  head_1 msg = do
    guard (holds_filter msg)
    guard (leb 3 (count msg b'\n'))
    let array = split msg b'\n'
    line2 ← element array 2
    let bhvs = split line2 mark
    guard (leb 4 (length bhvs))
    bhvs0 ← element bhvs 0
    let common = split bhvs0 tab
    guard (leb 8 (length common))
    code ← element common 7
    guard (in_table code table_code)
    bhvs3 ← element bhvs 3
    let addt = split bhvs3 tab
    guard (not (length addt == 0))
    filter ← element addt 0
    guard (filter_passes filter)
    bhvs2 ← element bhvs 2
    let extend = split bhvs2 tab
    guard (leb 2 (length extend))
    give (array, common, extend, code, filter)

  -- The checks of its impression, up to the time.
  unfoldable pub rank_1 : List Bytes → List Bytes → List Bytes → Bytes → Bytes → Read F Reaction
  rank_1 array common extend code filter = do
    line1 ← element array 1
    let imp = split line1 mark
    imp1 ← element imp 1
    markid ← element (split imp1 tab) 4
    imp3 ← element imp 3
    let ad = split imp3 tab
    guard (leb 6 (length ad))
    rank ← element ad 5
    let rank_match = split rank b';'
    guard (leb 17 (length rank_match))
    unixtime ← element common 2
    extend2 ← element extend 1
    give (record {
      code = code;
      filter = filter;
      markid = markid;
      rank_match = rank_match;
      now = parsers.atoi (take 10 unixtime);
      extend2 = extend2;
    })

  unfoldable pub open_1 : Bytes → Read F Reaction
  open_1 msg = do
    (array, common, extend, code, filter) ← head_1 msg
    rank_1 array common extend code filter

  -- The test on the three numbers of a behaviour, with their defaults.
  abbrev is_engaged : Bytes → Bool
  is_engaged extend2 =
      let play_d = number_or parsers (find_kv extend2 (codes "play_duration")) 3500 in
      let autoplay = number_or parsers (find_kv extend2 (codes "isautoplay")) 0 in
      let openapp = number_or parsers (find_kv extend2 (codes "open_app")) 3 in
      (leb 3000 play_d || (autoplay == 0)) && (not (openapp == 1) && not (openapp == 2))

  unfoldable pub finish_1 : Reaction → Read F (Features F)
  finish_1 b = do
    guard (is_engaged b.extend2)
    text ← element b.rank_match 16
    extract_feature out text

  unfoldable pub parse_sample_1 : Bytes → Read F (Features F)
  parse_sample_1 raw = do
    b ← open_1 (c_str raw)
    modify (λ s. record s { proinfos = test1 b.now time (localtime b.now) s.proinfos })
    first_seen1 (b.markid ++ (codes "-" ++ (b.code ++ (codes "-" ++ b.filter))))
    finish_1 b
