-- ===== src/Learner/Labels.antt =====
-- src/core/learner.h, learner.cpp and x_learner.cpp: `CheckImp` and `CheckLabel` of the learners.
use ftrl_online_pslite.Prelude.{
  ℕ, Bool, false, not, ◌&&◌, ◌||◌, none, some, List, [], ◌∷◌, leb, ◌==◌, if◌then◌else◌,
}
use ftrl_online_pslite.Prelude.Int.{ℤ, pos, negsuc}
use ftrl_online_pslite.Bytes.{Bytes, codes, eq_bytes}
use ftrl_online_pslite.StringUtil.{Parsers, is_uint64}
use ftrl_online_pslite.Condition.{Condition, field, has_field}

-- `std::find(table.begin(), table.end(), code) != table.end()`
unfoldable pub in_table : Bytes → List Bytes → Bool
in_table code [] = false
in_table code (c ∷ table) = eq_bytes c code || in_table code table

-- `filter != "0" && filter != "10000"` is false.
abbrev pub filter_passes : Bytes → Bool
filter_passes filter = eq_bytes filter (codes "0") || eq_bytes filter (codes "10000")

abbrev pub rejected : ℤ
rejected = negsuc 0

-- `if (text.size() > 0) isUInt64(text, &n);`
abbrev pub number_or : {F : Type 0} → Parsers F → Bytes → ℕ → ℕ
number_or p [] n = n
number_or p (c ∷ s) n = elim (is_uint64 p (c ∷ s)) [ none ↦ n | some m ↦ m ]

module _ {F : Type 0} (p : Parsers F) where
  -- The test on the three numbers of a behaviour, with their defaults.
  unfoldable pub is_engaged : Condition → Bool
  is_engaged c =
      let play_d = number_or p (field (codes "play_duration") c) 3500 in
      let autoplay = number_or p (field (codes "isautoplay") c) 0 in
      let openapp = number_or p (field (codes "open_app") c) 3 in
      (leb 3000 play_d || (autoplay == 0)) && (not (openapp == 1) && not (openapp == 2))

  -- `Learner::CheckLabel`, over a table of behaviour codes.
  unfoldable pub table_label : List Bytes → Condition → ℤ
  table_label table_code c =
      if not (in_table (field (codes "bhv_code") c) table_code)
      then rejected
      else if not (filter_passes (field (codes "filter") c))
      then rejected
      else if is_engaged c
      then pos 1
      else rejected

abbrev pub ig_table : List Bytes
ig_table =
    codes "14000014"
    ∷ codes "22000001"
    ∷ codes "22000002"
    ∷ codes "25000001"
    ∷ codes "25000002"
    ∷ codes "27000001"
    ∷ codes "27000002"
    ∷ codes "27000003"
    ∷ codes "27000005"
    ∷ codes "27000006"
    ∷ codes "29000001"
    ∷ codes "29000002"
    ∷ codes "29000003"
    ∷ codes "29000005"
    ∷ codes "50000005"
    ∷ codes "60000001"
    ∷ codes "60000003"
    ∷ codes "80000006"
    ∷ codes "80000010"
    ∷ codes "80000011"
    ∷ codes "80000030"
    ∷ codes "80000060"
    ∷ codes "80000070"
    ∷ codes "80000089"
    ∷ codes "50000009"
    ∷ codes "50000010"
    ∷ codes "60000010"
    ∷ []

abbrev pub is_table : List Bytes
is_table =
    codes "14000003"
    ∷ codes "14000005"
    ∷ codes "14000008"
    ∷ codes "14000045"
    ∷ codes "14000098"
    ∷ codes "21000001"
    ∷ codes "21000002"
    ∷ codes "21000003"
    ∷ codes "21000004"
    ∷ codes "80000003"
    ∷ []

abbrev pub ir_table : List Bytes
ir_table =
    codes "27000004"
    ∷ codes "29000004"
    ∷ codes "50000001"
    ∷ codes "50000002"
    ∷ codes "50000004"
    ∷ codes "50000006"
    ∷ []

-- The classes of learners; `basic` is `Learner` itself, whose table is empty.
pub data Kind : Type 0 where
  basic ig is ir iv_cpe : Kind

-- `isLearner::CheckLabel` and `irLearner::CheckLabel`
unfoldable pub plain_label : List Bytes → Condition → ℤ
plain_label table_code c =
    if not (in_table (field (codes "bhv_code") c) table_code)
    then rejected
    else if not (filter_passes (field (codes "filter") c))
    then rejected
    else pos 1

unfoldable pub iv_cpe_imp : Condition → ℤ
iv_cpe_imp c =
    if has_field (codes "bid_type") c
    then (if eq_bytes (field (codes "bid_type") c) (codes "8") then pos 0 else rejected)
    else rejected

module _ {F : Type 0} (p : Parsers F) where
  unfoldable pub iv_cpe_label : Condition → ℤ
  iv_cpe_label c =
      let code = field (codes "bhv_code") c in
      let openapp = number_or p (field (codes "open_app") c) 3 in
      if not (has_field (codes "bid_type") c && eq_bytes (field (codes "bid_type") c) (codes "8"))
      then rejected
      else if not (eq_bytes (field (codes "filter") c) (codes "0"))
      then rejected
      else if not (eq_bytes code (codes "28000001")) && not (eq_bytes code (codes "80000020"))
      then (if not (openapp == 1) && not (openapp == 2) then pos 1 else rejected)
      else rejected

  unfoldable pub check_label : Kind → Condition → ℤ
  unfolding table_label plain_label iv_cpe_label
  check_label Kind.basic c = table_label p [] c
  check_label Kind.ig c = table_label p ig_table c
  check_label Kind.is c = plain_label is_table c
  check_label Kind.ir c = plain_label ir_table c
  check_label Kind.iv_cpe c = iv_cpe_label c

unfoldable pub check_imp : Kind → Condition → ℤ
unfolding iv_cpe_imp
check_imp Kind.iv_cpe c = iv_cpe_imp c
check_imp _ c = pos 0
