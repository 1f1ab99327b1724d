-- ===== src/Redis.antt =====
-- src/utils/Redis.h: `class Redis`, a client over hiredis. What hiredis returns is input; the fields
-- of a context are left out but for the replies that were asked for and not read. The result `none`
-- is an access through a null pointer.
pub mod Pipeline
pub mod Linked
pub mod Request
use ftrl_online_pslite.Prelude.{
  ℕ, zero, suc, ◌+◌, ◌-◌, Bool, true, false, Option, none, some, List, [], ◌∷◌, ◌++◌, map, length,
  ◌==◌, if◌then◌else◌,
}
use ftrl_online_pslite.Prelude.Int.{ℤ, pos}
use ftrl_online_pslite.Bytes.{Bytes, codes}

pub record Context : Type 0 where
  pub pending : ℕ

-- `rc_` is `none` where it is NULL.
pub record Redis : Type 0 where
  pub host : Bytes
  pub port : ℤ
  pub db : ℤ
  pub is_connected : Bool
  pub rc : Option Context
  pub error : Bytes

-- What `redisConnectWithTimeout` gives: NULL, a context with an error, or a context.
pub data Dial : Type 0 where
  no_context : Dial
  refused : Bytes → Dial
  made : Dial

-- An element of an array that `MGET` returns, and a reply, by their types; a text may be NULL.
pub data Element : Type 0 where
  text : Option Bytes → Element
  failure : Bytes → Element
  other : Element

pub data Reply : Type 0 where
  text : Option Bytes → Reply
  nil : Reply
  failure : Bytes → Reply
  array : List Element → Reply
  other : Reply

-- The reply to a command with these words, or NULL.
abbrev pub Answer : Type 0
Answer = List Bytes → Option Reply

abbrev pub Result : Type 0 → Type 0
Result A = Option (Redis × A)

unfoldable pub new_redis : Redis
new_redis = record {
  host = [];
  port = pos 0;
  db = pos 0;
  is_connected = false;
  rc = none;
  error = [];
}

-- The copy constructor.
unfoldable pub copy_redis : Redis → Redis
copy_redis orig = record orig { is_connected = false; rc = none; error = [] }

unfoldable pub connect : Dial → Redis → Redis × Bool
connect dial s = if s.is_connected then (s, true) else elim dial [
  | no_context ↦ (record s { rc = none }, false)
  | refused errstr ↦ (record s { rc = none; error = errstr }, false)
  | made ↦ (record s { rc = some (record { pending = 0 }); is_connected = true }, true)
]

unfoldable pub init : Bytes → ℤ → ℤ → Dial → Redis → Redis × Bool
unfolding connect
init host port db dial s =
    connect dial (record s { host = host; port = port; db = db; is_connected = false; rc = none })

-- A call of hiredis with `rc_`.
abbrev pub with_context : {A : Type 0} → Redis → A → Option A
with_context s a = elim s.rc [ none ↦ none | some c ↦ some a ]

abbrev pub lost : Redis → Redis
lost s = record s { is_connected = false }

abbrev pub or_empty : Option Bytes → Bytes
or_empty none = []
or_empty (some str) = str

-- `if (!connect()) return false;` in front of what follows.
abbrev pub guarded : {A : Type 0} → A → (Redis → Result A) → Redis × Bool → Result A
guarded a act (s, true) = act s
guarded a act (s, false) = some (s, a)

-- The branches of `get` on the reply; the value, where it returns true.
abbrev pub get_reply : Redis → Option Reply → Redis × Option Bytes
get_reply s none = (lost s, none)
get_reply s (some (Reply.text str)) = (s, some (or_empty str))
get_reply s (some Reply.nil) = (s, some [])
get_reply s (some _) = (lost s, none)

unfoldable pub get : Dial → Answer → Bytes → Redis → Result (Option Bytes)
unfolding connect
get dial answer key s =
    guarded none (λ s1. with_context s1 (get_reply s1 (answer (codes "GET" ∷ key ∷ []))))
      (connect dial s)

-- The loop of `mget` over the elements: the values, and the last error.
unfoldable pub take_elements :
    List Element → List (Bytes × Bytes) → Bytes → List (Bytes × Bytes) × Bytes
take_elements (Element.text str ∷ es) ((k, v) ∷ kvs) error =
    let (rest, error') = take_elements es kvs error in ((k, or_empty str) ∷ rest, error')
take_elements (Element.failure str ∷ es) ((k, v) ∷ kvs) error =
    let (rest, error') = take_elements es kvs str in ((k, []) ∷ rest, error')
take_elements (Element.other ∷ es) ((k, v) ∷ kvs) error =
    let (rest, error') = take_elements es kvs error in ((k, []) ∷ rest, error')
take_elements _ kvs error = (kvs, error)

-- The branches of `mget` on the reply; the map, where it returns true.
abbrev pub mget_reply :
    Redis → List (Bytes × Bytes) → Option Reply → Redis × Option (List (Bytes × Bytes))
mget_reply s kvs none = (lost s, none)
mget_reply s kvs (some (Reply.array es)) =
    let (kvs', error') = take_elements es kvs s.error in
    if length es == length kvs then (record s { error = error' }, some kvs') else (lost s, none)
mget_reply s kvs (some (Reply.failure str)) =
    (lost (record s { error = codes "REDIS_REPLY_ERROR, detail:" ++ str }), none)
mget_reply s kvs (some _) = (lost s, none)

-- The text that `mget` passes as a format.
unfoldable pub mget_text : List (Bytes × Bytes) → Bytes
mget_text [] = []
mget_text ((k, v) ∷ kvs) = k ++ b' ' ∷ mget_text kvs

-- `mget`; where it cannot connect it reads `rc_->err`.
unfoldable pub mget :
    Dial
    → (Bytes → Option Reply)
    → List (Bytes × Bytes)
    → Redis
    → Result (Option (List (Bytes × Bytes)))
unfolding connect take_elements
mget dial answer [] s = some (record s { error = [] }, some [])
mget dial answer (kv ∷ kvs) s =
    let (s1, ok) = connect dial (record s { error = [] }) in
    if ok
    then with_context s1 (mget_reply s1 (kv ∷ kvs) (answer (codes "MGET " ++ mget_text (kv ∷ kvs))))
    else with_context s1 (s1, none)

-- `select`, which does not connect.
unfoldable pub select : Answer → Bytes → Redis → Result Bool
select answer db s =
    with_context s (s, elim (answer (codes "select" ∷ db ∷ [])) [ none ↦ false | some r ↦ true ])

-- What the commands without a value have in common.
abbrev pub tell_reply : Redis → Option Reply → Redis × Bool
tell_reply s none = (lost s, false)
tell_reply s (some r) = (s, true)

abbrev pub tell : Dial → Option Reply → Redis → Result Bool
tell dial reply s = guarded false (λ s1. with_context s1 (tell_reply s1 reply)) (connect dial s)

unfoldable pub set : Dial → Answer → Bytes → Bytes → Redis → Result Bool
set dial answer key value s =
    tell dial (answer (codes "SETEX" ∷ key ∷ codes "172800" ∷ value ∷ [])) s

unfoldable pub setex : Dial → Answer → Bytes → Bytes → Bytes → Redis → Result Bool
setex dial answer key value expire s =
    tell dial (answer (codes "SETEX" ∷ key ∷ expire ∷ value ∷ [])) s

unfoldable pub set_expire : Dial → Answer → Bytes → Bytes → Redis → Result Bool
set_expire dial answer key timeout s = tell dial (answer (codes "expire" ∷ key ∷ timeout ∷ [])) s
