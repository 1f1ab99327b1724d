-- ===== src/PsServer.antt =====
-- src/core/ps_server.cpp: the model file that `SyncToRedis` writes.
pub mod Order
pub mod Saved
pub mod Sync
pub mod Appended
use ftrl_online_pslite.Prelude.{
  ℕ, ◌+◌, Bool, true, false, List, [], ◌∷◌, ◌++◌, ltb, ◌==◌, if◌then◌else◌,
}
use ftrl_online_pslite.Prelude.Map.{Map}
use ftrl_online_pslite.Bytes.{Bytes}

-- What the C++ library prints of a key with `<<` and of a weight with `%.8f`.
pub record Printer (F : Type 0) : Type 0 where
  pub show_key : ℕ → Bytes
  pub show_weight : F → Bytes

module _ {F : Type 0} where
  -- `std::map`: an entry goes to its key's place in the order.
  unfoldable pub put_sorted : ℕ → F → Map F → Map F
  put_sorted k v [] = (k, v) ∷ []
  put_sorted k v ((j, w) ∷ m) =
      let on = put_sorted k v m in
      if ltb k j then (k, v) ∷ (j, w) ∷ m else if k == j then (k, v) ∷ m else (j, w) ∷ on

  -- The map made of the entries of the hash map, whose keys are distinct.
  unfoldable pub sorted : Map F → Map F
  sorted [] = []
  sorted ((k, v) ∷ m) = put_sorted k v (sorted m)

  abbrev pub line_of : Printer F → ℕ → F → Bytes
  line_of pr k v = pr.show_key k ++ b',' ∷ pr.show_weight v

  -- The loop that writes the lines; it ends behind the line with `i` past ten million.
  unfoldable pub save_loop : Printer F → ℕ → Map F → Bytes
  save_loop pr i [] = []
  save_loop pr i ((k, v) ∷ m) =
      let rest = (if ltb 10000000 i then [] else save_loop pr (i + 1) m) in
      line_of pr k v ++ b'\n' ∷ rest

  -- One round of `SyncToRedis`: what it adds to the file.
  unfoldable pub saved_model : Printer F → Map F → Bytes
  saved_model pr w = save_loop pr 1 (sorted w)
