-- ===== src/Main/Learners.antt =====
-- src/main.cpp: which learners a worker makes.
use ftrl_online_pslite.Prelude.{
  ℕ, zero, suc, ◌+◌, ◌≤◌, ◌≡◌, refl, Bool, true, false, ◌&&◌, Option, none, some, List, [], ◌∷◌,
  length, leb, ltb, arith, Bool-cases, Option-cases, inl, inr, ◌∙◌, ap,
}
use ftrl_online_pslite.Bytes.{Bytes}
use ftrl_online_pslite.Main.{Ini, Made, kind_of, name_of, load_learners, wait_all}

abbrev pub known {ℓ} : {A : Type ℓ} → Option A → Bool
known none = false
known (some a) = true

-- `wait_all` from number `k` on asks for that many learners more.
wait_all_run :
    (left k : ℕ) (ms : List Made) → k ≤ length ms → wait_all left k ms ≡ leb (k + left) (length ms)
unfolding wait_all
wait_all_run zero k ms h = ground arith
wait_all_run (suc left) k ms h = elim (Bool-cases (ltb k (length ms))) [
  | inl more ↦
      rw more
        (wait_all_run left (k + 1) ms (ground arith) ∙ ap (λ n. leb n (length ms)) (omega arith))
  | inr done ↦ rw done (ground arith)
]

module _ (ini : Ini) (file : Bytes) where
  -- Every section from number `k` on names a learner.
  abbrev pub all_known : ℕ → ℕ → Bool
  all_known zero k = true
  all_known (suc left) k = known (kind_of ini file (name_of ini file k)) && all_known left (k + 1)

  abbrev pub app_ids : List Made → List ℕ
  app_ids [] = []
  app_ids (m ∷ ms) = m.app_id ∷ app_ids ms

  length-load_learners :
      (left k : ℕ)
      → (length (load_learners ini file left k) ≤ left)
        × (leb left (length (load_learners ini file left k)) ≡ all_known left k)
  unfolding load_learners
  length-load_learners zero k = (omega arith, refl)
  length-load_learners (suc left) k =
      let (most, iff) = length-load_learners left (k + 1) in
      elim (Option-cases (kind_of ini file (name_of ini file k))) [
        | inl e ↦ rw (load_learners, e) (omega arith, ground arith)
        | inr (kind, e) ↦ rw (load_learners, e) (omega arith, ground (arith, iff))
      ]

  -- When the samples have ended, `main` waits for as many learners as there are sections: the
  -- accesses are within the vector of the learners exactly if every section names one of the four.
  pub wait_all_lem : (n : ℕ) → wait_all n 0 (load_learners ini file n 0) ≡ all_known n 0
  wait_all_lem n =
      wait_all_run n 0 (load_learners ini file n 0) (omega arith)
      ∙ ap (λ m. leb m (length (load_learners ini file n 0))) (omega arith)
      ∙ (length-load_learners n 0).1
