-- ===== src/Sample.antt =====
-- src/io/sample.h: one training sample, and arrays of them.
use ftrl_online_pslite.Prelude.{
  ℕ, zero, suc, ◌+◌, ◌≡◌, refl, List, [], ◌∷◌, ◌==◌, if◌then◌else◌, ==_of_ne, ==_refl, arith, ap₂,
  ap, sym, ◌∙◌, ◌++◌, ◌≤◌, length,
}
use native.Mathlib.Nat.{add-zero}
use ftrl_online_pslite.Prelude.Int.{ℤ}

-- `FEATURE_CAPACITY`, the room of `_mem`
abbrev pub feature_capacity : ℕ
feature_capacity = 1000

-- `features` stands for `length` and the first `length` entries of `_mem`.
pub record Sample (F : Type 0) : Type 0 where
  pub features : List ℕ
  pub label : ℤ
  pub ctr : F
  pub pctr : F

module _ {ℓ} {A : Type ℓ} where
  -- An array, whose bounds the code that indexes it has to respect, with one entry written.
  abbrev pub put : ℕ → A → (ℕ → A) → ℕ → A
  put i a f j = if i == j then a else f j

  -- The `n` entries from `i` on.
  abbrev pub entries : ℕ → ℕ → (ℕ → A) → List A
  entries i zero f = []
  entries i (suc n) f = f i ∷ entries (i + 1) n f

  abbrev pub put_all : ℕ → List A → (ℕ → A) → ℕ → A
  put_all i [] f = f
  put_all i (a ∷ rest) f = put_all (i + 1) rest (put i a f)

  pub length-entries : (i n : ℕ) (f : ℕ → A) → length (entries i n f) ≡ n
  length-entries i zero f = refl
  length-entries i (suc n) f = ap suc (length-entries (i + 1) n f)

  entries-put_after :
      (i n j : ℕ) (a : A) (f : ℕ → A) → i + n ≤ j → entries i n (put j a f) ≡ entries i n f
  entries-put_after i zero j a f h = refl
  entries-put_after i (suc n) j a f h =
      rw (==_of_ne j i (omega arith))
        (ap (◌∷◌ (f i)) (entries-put_after (i + 1) n j a f (omega arith)))

  entries_snoc : (i n : ℕ) (f : ℕ → A) → entries i (suc n) f ≡ entries i n f ++ f (i + n) ∷ []
  entries_snoc i zero f = ap (λ k. f k ∷ []) (sym (add-zero i))
  entries_snoc i (suc n) f =
      let next : i + 1 + n ≡ i + suc n = omega arith in
      ap (◌∷◌ (f i)) (entries_snoc (i + 1) n f ∙ ap (λ k. entries (i + 1) n f ++ f k ∷ []) next)

  -- Writing the entry behind the first `n` adds it to them.
  pub entries-put :
      (n : ℕ) (a : A) (f : ℕ → A) → entries 0 (suc n) (put n a f) ≡ entries 0 n f ++ a ∷ []
  entries-put n a f =
      let here : 0 + n ≡ n = omega arith in
      entries_snoc 0 n (put n a f)
      ∙ ap₂ (λ xs x. xs ++ x ∷ []) (entries-put_after 0 n n a f (omega arith))
          (ap (put n a f) here ∙ rw (==_refl n))
