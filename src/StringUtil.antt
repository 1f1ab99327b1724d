-- ===== src/StringUtil.antt =====
-- src/utils/string_util.h, and the calls of the C library and of Boost behind its parsers.
pub mod Trim
pub mod Split
pub mod Find
use ftrl_online_pslite.Prelude.{
  ℕ, zero, suc, ◌+◌, ◌-◌, ◌%◌, ◌^◌, Bool, true, false, ◌&&◌, Option, none, some, List, [], ◌∷◌,
  ◌++◌, length, get_or, take, drop, ltb, ◌==◌, if◌then◌else◌,
}
use ftrl_online_pslite.Prelude.Int.{ℤ, pos}
use ftrl_online_pslite.Floats.{Floats}
use ftrl_online_pslite.Bytes.{Bytes, codes}

abbrev pub space : ℕ
space = b' '

-- `std::string::npos`, the largest `size_t`
abbrev pub npos : ℕ
npos = 2 ^ 64 - 1

-- a - b in `size_t`
abbrev pub sub64 : ℕ → ℕ → ℕ
sub64 a b = (a + 2 ^ 64 - b) % 2 ^ 64

-- `while (s[i] == ' ') i++;` then `s.substr(i)`; the terminating NUL stops the loop.
unfoldable pub drop_spaces : Bytes → Bytes
drop_spaces [] = []
drop_spaces (c ∷ s) = if c == space then drop_spaces s else c ∷ s

-- `while (s[i] == ' ') i--;` from `i + 1`; the result is the last `i + 1`.
unfoldable pub keep_to : Bytes → ℕ → ℕ
keep_to s zero = zero
keep_to s (suc i) = if get_or s i 0 == space then keep_to s i else suc i

unfoldable pub trim : Bytes → Bytes
unfolding drop_spaces keep_to
trim s = let s' = drop_spaces s in take (keep_to s' (length s')) s'

-- The loop of `count`: `last` is the position behind the latest delimiter, `i` the one that is read,
-- and at the end of the text `index` is `npos`.
unfoldable pub count_loop : ℕ → ℕ → ℕ → Bytes → ℕ
count_loop delim last i [] = if ltb 0 (sub64 npos last) then 1 else 0
count_loop delim last i (c ∷ s) =
    let next = suc (count_loop delim (i + 1) (i + 1) s) in
    let on = count_loop delim last (i + 1) s in if c == delim then next else on

unfoldable pub count : Bytes → ℕ → ℕ
unfolding count_loop
count s delim = count_loop delim 0 0 s

-- The loop of `split`; `piece` is the text from `last` up to `i`.
unfoldable pub split_loop : ℕ → ℕ → ℕ → Bytes → Bytes → List Bytes
split_loop delim last i piece [] = if ltb 0 (sub64 npos last) then trim piece ∷ [] else []
split_loop delim last i piece (c ∷ s) =
    let next = trim piece ∷ split_loop delim (i + 1) (i + 1) [] s in
    let on = split_loop delim last (i + 1) (piece ++ c ∷ []) s in if c == delim then next else on

unfoldable pub split : Bytes → ℕ → List Bytes
unfolding split_loop trim
split s delim = split_loop delim 0 0 [] s

-- The text that `c_str()` gives to C: up to the first NUL.
unfoldable pub c_str : Bytes → Bytes
c_str [] = []
c_str (c ∷ s) = if c == 0 then [] else c ∷ c_str s

-- `while (idx >= 0) { if (str[idx] == '\t') break; idx--; }` from `idx + 1`.
unfoldable pub after_tab : Bytes → ℕ → ℕ
after_tab s zero = zero
after_tab s (suc idx) = if get_or s idx 0 == b'\t' then suc idx else after_tab s idx

unfoldable pub last_state : Bytes → Bytes
unfolding c_str after_tab
last_state s =
    let ll = length (c_str s) in let first = after_tab s ll in take (ll - first) (drop first s)

abbrev pub starts_with : Bytes → Bytes → Bool
starts_with s [] = true
starts_with [] (p ∷ ps) = false
starts_with (c ∷ s) (p ∷ ps) = (c == p) && starts_with s ps

-- The first position from `i` on, where the unread text `s` stands, at which `key` begins.
unfoldable pub find_loop : Bytes → Bytes → ℕ → ℕ
find_loop key [] i = if starts_with [] key then i else npos
find_loop key (c ∷ s) i =
    let rest = find_loop key s (i + 1) in if starts_with (c ∷ s) key then i else rest

-- `str.find(key, from)`
unfoldable pub find : Bytes → Bytes → ℕ → ℕ
unfolding find_loop
find s key from = if ltb (length s) from then npos else find_loop key (drop from s) from

-- `str.substr(first, n)` at a `first` within the text
abbrev pub substr : Bytes → ℕ → ℕ → Bytes
substr s first n = take n (drop first s)

unfoldable pub find_kv : Bytes → Bytes → Bytes
find_kv s key =
    let index0 = find s key 0 in
    let start0 = find s (codes ":") index0 in
    let end0 = find s (codes "|") start0 in
    substr s ((start0 + 1) % 2 ^ 64) (sub64 (sub64 end0 start0) 1)

-- What <stdlib.h> and Boost provide; a failing `lexical_cast` throws, which is `none`.
pub record Parsers (F : Type 0) : Type 0 where
  pub atoi : Bytes → ℤ
  pub atof : Bytes → F
  pub boost_trim : Bytes → Bytes
  pub cast_float : Bytes → Option F
  pub cast_uint64 : Bytes → Option ℕ

module _ {F : Type 0} where
  -- The results of the parsers that write through a pointer: `none` leaves the target as it was.
  unfoldable pub is_float : Parsers F → Bytes → Option F
  is_float p s = p.cast_float (p.boost_trim s)

  unfoldable pub is_uint64 : Parsers F → Bytes → Option ℕ
  is_uint64 p s = p.cast_uint64 (p.boost_trim s)

  unfoldable pub sigmoid : ⦃fl : Floats F⦄ → F → F
  sigmoid ⦃fl⦄ x = let one = fl.of_int (pos 1) in fl.div one (fl.add one (fl.exp (fl.neg x)))
