-- ===== src/Learner/Exclusive.antt =====
-- src/core/x_learner.cpp and learner.cpp: which learners take a behaviour.
use ftrl_online_pslite.Prelude.{
  ℕ, ◌≡◌, refl, Bool, true, false, not, ◌&&◌, ◌||◌, List, [], ◌∷◌, arith, ◌+◌, ◌≤◌, if◌then◌else◌,
  Bool-cases, inl, inr, ◌⊎◌, subst,
}
use ftrl_online_pslite.Prelude.Int.{pos, eq_ℤ}
use ftrl_online_pslite.Bytes.{Bytes, codes, eq_bytes, eq_bytes-eq}
use ftrl_online_pslite.StringUtil.{Parsers}
use ftrl_online_pslite.Condition.{Condition, field}
use ftrl_online_pslite.Learner.Labels.{
  in_table, ig_table, is_table, ir_table, table_label, plain_label, Kind, basic, ig, is, ir, iv_cpe,
  check_label, check_imp, rejected,
}

none_shared : List Bytes → List Bytes → Bool
unfolding in_table
none_shared [] other = true
none_shared (c ∷ table) other = not (in_table c other) && none_shared table other

none_shared_lem :
    (table other : List Bytes) (code : Bytes)
    → none_shared table other ≡ true
    → in_table code table ≡ true
    → in_table code other ≡ false
unfolding none_shared
none_shared_lem [] other code h m = let no : false ≡ true = unfold in_table in m in cc
none_shared_lem (c ∷ table) other code h m =
    let found : eq_bytes c code || in_table code table ≡ true = unfold in_table in m in
    elim (Bool-cases (eq_bytes c code)) [
      | inl e ↦
          let absent : in_table c other ≡ false = ground arith in
          subst (λ x. in_table x other ≡ false) (eq_bytes-eq c code e) absent
      | inr e ↦ none_shared_lem table other code (ground arith) (ground arith)
    ]

tables_apart :
    (none_shared ig_table is_table ≡ true)
    × (none_shared ig_table ir_table ≡ true)
    × (none_shared is_table ir_table ≡ true)
unfolding none_shared
tables_apart = (refl, refl, refl)

module _ {F : Type 0} (p : Parsers F) (c : Condition) where
  -- Whether a learner takes the behaviour as a positive sample.
  abbrev pub takes : Kind → ℕ
  takes k = if eq_ℤ (check_label p k c) (pos 1) then 1 else 0

  -- At most one of the learners ig, is and ir takes a behaviour as a positive sample.
  pub takes_one : takes ig + takes is + takes ir ≤ 1
  unfolding check_label table_label plain_label
  takes_one =
      let code = field (codes "bhv_code") c in
      ground (
        arith,
        none_shared_lem ig_table is_table code tables_apart.0,
        none_shared_lem ig_table ir_table code tables_apart.1,
        none_shared_lem is_table ir_table code tables_apart.2,
      )

  basic_rejects : check_label p basic c ≡ rejected
  unfolding check_label in_table
  basic_rejects = refl

  iv_cpe_apart : (check_label p iv_cpe c ≡ rejected) ⊎ (check_imp iv_cpe c ≡ pos 0)
  unfolding check_label check_imp
  iv_cpe_apart = ground arith

  label_cases : (k : Kind) → (check_label p k c ≡ pos 1) ⊎ (check_label p k c ≡ rejected)
  unfolding check_label
  label_cases basic = inr basic_rejects
  label_cases _ = ground arith

  imp_cases : (k : Kind) → (check_imp k c ≡ pos 0) ⊎ (check_imp k c ≡ rejected)
  unfolding check_imp
  imp_cases iv_cpe = ground arith
  imp_cases _ = inl refl

  -- Every learner labels a behaviour by 1 or -1 and an impression by 0 or -1; the basic learner,
  -- whose table is empty, takes no behaviour; and the iv_cpe learner takes a behaviour only of a bid
  -- type whose impressions it takes as well.
  pub label_range :
      (k : Kind)
      → ((check_label p k c ≡ pos 1) ⊎ (check_label p k c ≡ rejected))
        × ((check_imp k c ≡ pos 0) ⊎ (check_imp k c ≡ rejected))
        × (check_label p basic c ≡ rejected)
        × ((check_label p iv_cpe c ≡ rejected) ⊎ (check_imp iv_cpe c ≡ pos 0))
  label_range k = (label_cases k, imp_cases k, basic_rejects, iv_cpe_apart)
