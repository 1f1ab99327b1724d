-- ===== src/PsServer/Order.antt =====
-- src/core/ps_server.cpp: the `std::map` into which `SyncToRedis` copies the weights.
use ftrl_online_pslite.Prelude.{
  ℕ, suc, ◌≤◌, ◌<◌, ◌≡◌, ◌↔◌, refl, ap, ◌∙◌, [], ◌∷◌, length, arith, ◌==◌, if◌then◌else◌, Elem,
  Above, IsStrictlySorted,
}
use ftrl_online_pslite.Prelude.Map.{Map, at_or, keys_of}
use ftrl_online_pslite.PsServer.{put_sorted, sorted}

module _ {F : Type 0} where
  at_or-put_sorted :
      (d : F) (k j : ℕ) (v : F) (m : Map F)
      → at_or d j (put_sorted k v m) ≡ (if k == j then v else at_or d j m)
  unfolding at_or put_sorted
  at_or-put_sorted d k j v [] = refl
  at_or-put_sorted d k j v ((i, w) ∷ m) = ground (arith, at_or-put_sorted d k j v m)

  pub at_or-sorted : (d : F) (j : ℕ) (m : Map F) → at_or d j (sorted m) ≡ at_or d j m
  unfolding at_or sorted
  at_or-sorted d j [] = refl
  at_or-sorted d j ((k, v) ∷ m) =
      at_or-put_sorted d k j v (sorted m) ∙ ap (λ x. if k == j then v else x) (at_or-sorted d j m)

  put_sorted-Above :
      (b k : ℕ) (v : F) (m : Map F)
      → b < k
      → Above b (keys_of m)
      → Above b (keys_of (put_sorted k v m))
  unfolding put_sorted
  put_sorted-Above b k v [] lt h = (lt, tt)
  put_sorted-Above b k v ((j, w) ∷ m) lt h = ground (arith, put_sorted-Above j k v m)

  put_sorted-IsStrictlySorted :
      (k : ℕ) (v : F) (m : Map F)
      → IsStrictlySorted (keys_of m)
      → IsStrictlySorted (keys_of (put_sorted k v m))
  unfolding put_sorted
  put_sorted-IsStrictlySorted k v [] h = tt
  put_sorted-IsStrictlySorted k v ((j, w) ∷ m) h = ground (arith, put_sorted-Above j k v m)

  pub sorted-IsStrictlySorted : (m : Map F) → IsStrictlySorted (keys_of (sorted m))
  unfolding sorted
  sorted-IsStrictlySorted [] = tt
  sorted-IsStrictlySorted ((k, v) ∷ m) =
      put_sorted-IsStrictlySorted k v (sorted m) (sorted-IsStrictlySorted m)

  Elem-put_sorted :
      (b k : ℕ) (v : F) (m : Map F) → Elem b (keys_of (put_sorted k v m)) ↔ Elem b (k ∷ keys_of m)
  unfolding put_sorted
  Elem-put_sorted b k v [] = ground arith
  Elem-put_sorted b k v ((j, w) ∷ m) = ground (arith, Elem-put_sorted b k v m)

  pub Elem-sorted : (b : ℕ) (m : Map F) → Elem b (keys_of (sorted m)) ↔ Elem b (keys_of m)
  unfolding sorted
  Elem-sorted b [] = (λ h. h, λ h. h)
  Elem-sorted b ((k, v) ∷ m) = ground (arith, Elem-put_sorted b k v (sorted m), Elem-sorted b m)

  length-put_sorted : (k : ℕ) (v : F) (m : Map F) → length (put_sorted k v m) ≤ suc (length m)
  unfolding put_sorted
  length-put_sorted k v [] = omega arith
  length-put_sorted k v ((j, w) ∷ m) = ground (arith, length-put_sorted k v m)

  pub length-sorted : (m : Map F) → length (sorted m) ≤ length m
  unfolding sorted
  length-sorted [] = omega arith
  length-sorted ((k, v) ∷ m) = omega (arith, length-put_sorted k v (sorted m), length-sorted m)
