-- ===== src/Bytes.antt =====
-- `std::string` as the list of its bytes.
use Prim.Native.Char.{code}
use Prim.Native.String.{String}
use ftrl_online_pslite.Prelude.{ℕ, Bool, true, false, List, [], ◌∷◌, ◌≡◌, refl, ◌&&◌, arith, ◌==◌}

abbrev pub Bytes : Type 0
Bytes = List ℕ

-- The code points of a literal; these are its bytes, since the program's literals are ASCII.
abbrev pub codes : String → Bytes
codes String.[] = []
codes (String.◌∷◌ c s) = code c ∷ codes s

-- `==` of two strings.
abbrev pub eq_bytes : Bytes → Bytes → Bool
eq_bytes [] [] = true
eq_bytes [] (d ∷ t) = false
eq_bytes (c ∷ s) [] = false
eq_bytes (c ∷ s) (d ∷ t) = (c == d) && eq_bytes s t

pub eq_bytes_refl : (s : Bytes) → eq_bytes s s ≡ true
eq_bytes_refl [] = refl
eq_bytes_refl (c ∷ s) = ground (arith, eq_bytes_refl s)

pub eq_bytes-eq : (s t : Bytes) → eq_bytes s t ≡ true → s ≡ t
eq_bytes-eq [] [] h = refl
eq_bytes-eq [] (d ∷ t) h = cc
eq_bytes-eq (c ∷ s) [] h = cc
eq_bytes-eq (c ∷ s) (d ∷ t) h = ground (arith, eq_bytes-eq s t)
