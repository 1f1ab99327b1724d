-- ===== src/Redis/Pipeline.antt =====
-- src/utils/Redis.h: the calls that send many commands before they read the replies.
use ftrl_online_pslite.Prelude.{
  ℕ, zero, suc, ◌+◌, ◌-◌, Bool, true, false, Option, none, some, List, [], ◌∷◌, ◌++◌, map, length,
  if◌then◌else◌,
}
use ftrl_online_pslite.Bytes.{Bytes, codes}
use ftrl_online_pslite.Redis.{Redis, Dial, Reply, Result, connect, guarded}

-- `redisGetReply`: an error, or a reply, which may be NULL.
pub data Got : Type 0 where
  failed : Got
  replied : Option Reply → Got

-- `redisAppendCommand` and `redisGetReply` in the account of the replies.
abbrev pub asked : Redis → Redis
asked s = record s {
  rc = elim s.rc [ none ↦ none | some c ↦ some (record { pending = c.pending + 1 }) ];
}

abbrev pub answered : Redis → Redis
answered s = record s {
  rc = elim s.rc [ none ↦ none | some c ↦ some (record { pending = c.pending - 1 }) ];
}

-- The loop that asks, given which commands are taken: the first that is not ends it.
unfoldable pub append_loop : (List Bytes → Bool) → List (List Bytes) → Redis → Result Bool
append_loop taken [] s = some (s, true)
append_loop taken (words ∷ rest) s =
    let on = append_loop taken rest (asked s) in
    elim s.rc [ none ↦ none | some c ↦ if taken words then on else some (s, false) ]

-- One round of the loop that reads replies; it looks at the type of a reply before it tests for
-- NULL.
abbrev pub after_got : Got → Redis → Result Bool → Result Bool
after_got failed s rest = some (s, false)
after_got (replied none) s rest = none
after_got (replied (some (Reply.failure str))) s rest =
    some (record (answered s) { error = codes "REDIS_REPLY_ERROR, detail:" ++ str }, false)
after_got (replied (some _)) s rest = rest

-- The loop, from number `k` on.
unfoldable pub read_loop : (ℕ → Got) → ℕ → ℕ → Redis → Result Bool
read_loop got zero k s = some (s, true)
read_loop got (suc left) k s =
    let rest = read_loop got left (k + 1) (answered s) in after_got (got k) s rest

-- The two loops, on a context.
abbrev pub ask_all : (List Bytes → Bool) → (ℕ → Got) → List (List Bytes) → Redis → Result Bool
ask_all taken got commands s = elim (append_loop taken commands s) [
  | none ↦ none
  | some (s1, all_taken) ↦ guarded false (read_loop got (length commands) 0) (s1, all_taken)
]

unfoldable pub mdel : Dial → (List Bytes → Bool) → (ℕ → Got) → List Bytes → Redis → Result Bool
mdel dial taken got keys s =
    guarded false (ask_all taken got (map (λ key. codes "DEL" ∷ key ∷ []) keys)) (connect dial s)

unfoldable pub mset_expire :
    Dial → (List Bytes → Bool) → (ℕ → Got) → List Bytes → Bytes → Redis → Result Bool
mset_expire dial taken got keys timeout s =
    guarded false (ask_all taken got (map (λ key. codes "expire" ∷ key ∷ timeout ∷ []) keys))
      (connect dial s)
