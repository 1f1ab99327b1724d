-- ===== src/Redis/Linked.antt =====
-- src/utils/Redis.h: that a client uses no null pointer.
use ftrl_online_pslite.Prelude.{
  ℕ, zero, suc, ◌+◌, ◌≡◌, ◌≢◌, refl, ap, ◌∙◌, Bool, true, false, Option, none, some, List, [], ◌∷◌,
  length, Bool-cases, inl, inr, ◌++◌, ◌-◌, ◌==◌, if◌then◌else◌,
}
use ftrl_online_pslite.Bytes.{Bytes, codes}
use ftrl_online_pslite.Redis.{
  guarded, Redis, Context, Dial, Reply, Result, connect, get_reply, tell_reply, mget_reply,
  with_context, tell,
}
use ftrl_online_pslite.Redis.Pipeline.{
  Got, ask_all, append_loop, after_got, read_loop, asked, answered,
}

-- A client that is connected has a context.
abbrev pub IsLinked : Redis → Type 0
IsLinked s = elim s.rc [ none ↦ s.is_connected ≡ false | some c ↦ Unit ]

abbrev pub HasContext : Redis → Type 0
HasContext s = (c : Context) × (s.rc ≡ some c)

-- The client after a call; `none` is an access through a null pointer.
abbrev pub only {ℓ} : {A : Type ℓ} → Option (Redis × A) → Option Redis
only none = none
only (some (s, a)) = some s

-- A call returns, and leaves such a client.
abbrev pub IsDone {ℓ} : {A : Type ℓ} → Option (Redis × A) → Type 0
IsDone none = ⊥
IsDone (some (s, a)) = IsLinked s

pub IsDone-only :
    {A : Type 0} (o : Option (Redis × A))
    → IsDone o
    → (s' : Redis) × (only o ≡ some s') × IsLinked s'
IsDone-only none h = absurd h
IsDone-only (some (s, a)) h = (s, refl, h)

HasContext-IsLinked : (s : Redis) → HasContext s → IsLinked s
HasContext-IsLinked s (c, e) = rw e tt

abbrev pub IsDialled : Redis × Bool → Type 0
IsDialled (s, true) = HasContext s
IsDialled (s, false) = IsLinked s

connect_run :
    (dial : Dial) (s : Redis) (conn : Bool) (rc : Option Context)
    → IsLinked (record s { is_connected = conn; rc = rc })
    → IsDialled (connect dial (record s { is_connected = conn; rc = rc }))
unfolding connect
connect_run dial s true none h = cc
connect_run dial s true (some c) h = (c, refl)
connect_run Dial.no_context s false rc h = refl
connect_run (Dial.refused e) s false rc h = refl
connect_run Dial.made s false rc h = (record { pending = 0 }, refl)

-- `connect` says true only of a client that has a context.
pub connect_lem : (dial : Dial) (s : Redis) → IsLinked s → IsDialled (connect dial s)
connect_lem dial s h = connect_run dial s s.is_connected s.rc h

pub get_reply-rc : (s : Redis) (r : Option Reply) → (get_reply s r).0.rc ≡ s.rc
get_reply-rc s none = refl
get_reply-rc s (some (Reply.text str)) = refl
get_reply-rc s (some Reply.nil) = refl
get_reply-rc s (some (Reply.failure str)) = refl
get_reply-rc s (some (Reply.array es)) = refl
get_reply-rc s (some Reply.other) = refl

pub tell_reply-rc : (s : Redis) (r : Option Reply) → (tell_reply s r).0.rc ≡ s.rc
tell_reply-rc s none = refl
tell_reply-rc s (some r) = refl

pub with_context-IsDone :
    {A : Type 0} (s : Redis) (r : Redis × A)
    → HasContext s
    → r.0.rc ≡ s.rc
    → IsDone (with_context s r)
with_context-IsDone s r (c, e) same = rw e (HasContext-IsLinked r.0 (c, same ∙ e))

pub mget_reply-rc :
    (s : Redis) (kvs : List (Bytes × Bytes)) (r : Option Reply) → (mget_reply s kvs r).0.rc ≡ s.rc
mget_reply-rc s kvs none = refl
mget_reply-rc s kvs (some (Reply.text str)) = refl
mget_reply-rc s kvs (some Reply.nil) = refl
mget_reply-rc s kvs (some (Reply.failure str)) = refl
mget_reply-rc s kvs (some (Reply.array es)) = elim (Bool-cases (length es == length kvs)) [
  | inl e ↦ rw e refl
  | inr e ↦ rw e refl
]
mget_reply-rc s kvs (some Reply.other) = refl

asked-HasContext : (s : Redis) → HasContext s → HasContext (asked s)
asked-HasContext s (c, e) = (record { pending = c.pending + 1 }, rw e refl)

answered-HasContext : (s : Redis) → HasContext s → HasContext (answered s)
answered-HasContext s (c, e) = (record { pending = c.pending - 1 }, rw e refl)

append_loop-HasContext :
    (taken : List Bytes → Bool) (commands : List (List Bytes)) (s : Redis)
    → HasContext s
    → (r : Redis × Bool) × (append_loop taken commands s ≡ some r) × HasContext r.0
unfolding append_loop
append_loop-HasContext taken [] s h = ((s, true), refl, h)
append_loop-HasContext taken (words ∷ rest) s (c, e) =
    let (r, done, k) = append_loop-HasContext taken rest (asked s) (asked-HasContext s (c, e)) in
    let on = append_loop taken rest (asked s) in
    let test = λ (b : Bool). if b then on else some (s, false) in
    let here : append_loop taken (words ∷ rest) s ≡ test (taken words) =
      ap
        (λ (rc : Option Context). elim rc as (λ _. Result Bool) [
          | none ↦ none
          | some c' ↦ test (taken words)
        ])
        e in
    elim (Bool-cases (taken words)) [
      | inl e1 ↦ (r, here ∙ ap test e1 ∙ done, k)
      | inr e1 ↦ ((s, false), here ∙ ap test e1, (c, e))
    ]

after_got-IsDone :
    (g : Got) (s : Redis) (rest : Result Bool)
    → g ≢ Got.replied none
    → HasContext s
    → IsDone rest
    → IsDone (after_got g s rest)
after_got-IsDone Got.failed s rest b h k = HasContext-IsLinked s h
after_got-IsDone (Got.replied none) s rest b h k = absurd (b refl)
after_got-IsDone (Got.replied (some (Reply.failure str))) s rest b h k =
    HasContext-IsLinked (record (answered s) { error = codes "REDIS_REPLY_ERROR, detail:" ++ str })
      (answered-HasContext s h)
after_got-IsDone (Got.replied (some (Reply.text str))) s rest b h k = k
after_got-IsDone (Got.replied (some Reply.nil)) s rest b h k = k
after_got-IsDone (Got.replied (some (Reply.array es))) s rest b h k = k
after_got-IsDone (Got.replied (some Reply.other)) s rest b h k = k

read_loop-IsDone :
    (got : ℕ → Got) (left k : ℕ) (s : Redis)
    → ((j : ℕ) → got j ≢ Got.replied none)
    → HasContext s
    → IsDone (read_loop got left k s)
unfolding read_loop
read_loop-IsDone got zero k s b h = HasContext-IsLinked s h
read_loop-IsDone got (suc left) k s b h =
    after_got-IsDone (got k) s (read_loop got left (k + 1) (answered s)) (b k) h
      (read_loop-IsDone got left (k + 1) (answered s) b (answered-HasContext s h))

pub guarded-IsDone :
    {A : Type 0} (a : A) (act : Redis → Option (Redis × A)) (r : Redis × Bool)
    → IsDialled r
    → ((s : Redis) → HasContext s → IsDone (act s))
    → IsDone (guarded a act r)
guarded-IsDone a act (s, true) h k = k s h
guarded-IsDone a act (s, false) h k = h

HasContext-IsDialled : (r : Redis × Bool) → HasContext r.0 → IsDialled r
HasContext-IsDialled (s, true) h = h
HasContext-IsDialled (s, false) h = HasContext-IsLinked s h

pub ask_all-IsDone :
    (taken : List Bytes → Bool) (got : ℕ → Got) (commands : List (List Bytes)) (s : Redis)
    → ((j : ℕ) → got j ≢ Got.replied none)
    → HasContext s
    → IsDone (ask_all taken got commands s)
ask_all-IsDone taken got commands s b h =
    let (r, done, k) = append_loop-HasContext taken commands s h in
    rw (ask_all, done)
      (guarded-IsDone false (read_loop got (length commands) 0) r (HasContext-IsDialled r k)
        (λ s1 h1. read_loop-IsDone got (length commands) 0 s1 b h1))

pub tell-IsDone :
    (dial : Dial) (reply : Option Reply) (s : Redis) → IsLinked s → IsDone (tell dial reply s)
tell-IsDone dial reply s h =
    guarded-IsDone false (λ s1. with_context s1 (tell_reply s1 reply)) (connect dial s)
      (connect_lem dial s h)
      (λ s1 h1. with_context-IsDone s1 (tell_reply s1 reply) h1 (tell_reply-rc s1 reply))

pub IsDialled-HasContext : (r : Redis × Bool) → IsDialled r → r.1 ≡ true → HasContext r.0
IsDialled-HasContext (s, true) h e = h
IsDialled-HasContext (s, false) h e = cc
