-- ===== src/Redis/Request.antt =====
-- src/utils/Redis.h: the calls of a client, of which none uses a null pointer.
use ftrl_online_pslite.Prelude.{
  ℕ, ◌≡◌, ◌≢◌, Bool, true, false, Option, none, some, List, [], ◌∷◌, map, ◌++◌,
}
use ftrl_online_pslite.Bytes.{Bytes, codes}
use ftrl_online_pslite.Redis
use ftrl_online_pslite.Redis.{
  guarded, Redis, Context, Dial, Reply, Element, Answer, Result, connect, get_reply, tell_reply,
  mget_reply, with_context, tell, mget_text, take_elements,
}
use ftrl_online_pslite.Redis.Pipeline
use ftrl_online_pslite.Redis.Pipeline.{
  Got, ask_all, append_loop, after_got, read_loop, asked, answered,
}
use ftrl_online_pslite.Redis.Linked.{
  IsLinked, HasContext, IsDone, only, IsDone-only, connect_lem, get_reply-rc, mget_reply-rc,
  with_context-IsDone, ask_all-IsDone, tell-IsDone, guarded-IsDone, IsDialled-HasContext,
}

-- What hiredis gives in the course of one call. Its commands on a connection of this kind return a
-- reply where they do not fail.
pub record Hiredis : Type 0 where
  pub dial : Dial
  pub answer : Answer
  pub answer_text : Bytes → Option Reply
  pub taken : List Bytes → Bool
  pub got : ℕ → Got

abbrev pub IsBlocking : Hiredis → Type 0
IsBlocking h = (k : ℕ) → h.got k ≢ Got.replied none

pub data Request : Type 0 where
  get : Bytes → Request
  mget : List (Bytes × Bytes) → Request
  set : (key value : Bytes) → Request
  setex : (key value expire : Bytes) → Request
  set_expire : (key timeout : Bytes) → Request
  mdel : List Bytes → Request
  mset_expire : List Bytes → Bytes → Request

unfoldable pub perform : Hiredis → Request → Redis → Option Redis
unfolding Redis.get Redis.mget Redis.set Redis.setex Redis.set_expire Pipeline.mdel
    Pipeline.mset_expire
perform h (Request.get key) s = only (Redis.get h.dial h.answer key s)
perform h (Request.mget kvs) s = only (Redis.mget h.dial h.answer_text kvs s)
perform h (Request.set key value) s = only (Redis.set h.dial h.answer key value s)
perform h (Request.setex key value expire) s = only (Redis.setex h.dial h.answer key value expire s)
perform h (Request.set_expire key timeout) s = only (Redis.set_expire h.dial h.answer key timeout s)
perform h (Request.mdel keys) s = only (Pipeline.mdel h.dial h.taken h.got keys s)
perform h (Request.mset_expire keys timeout) s =
    only (Pipeline.mset_expire h.dial h.taken h.got keys timeout s)

-- `mget` needs a connection where it asks for something.
abbrev pub IsReached : Hiredis → Request → Redis → Type 0
IsReached h (Request.mget (kv ∷ kvs)) s = (connect h.dial (record s { error = [] })).1 ≡ true
IsReached h _ s = Unit

mget-IsDone :
    (h : Hiredis) (kvs : List (Bytes × Bytes)) (s : Redis)
    → IsLinked s
    → IsReached h (Request.mget kvs) s
    → IsDone (Redis.mget h.dial h.answer_text kvs s)
unfolding Redis.mget
mget-IsDone h [] s k reached = k
mget-IsDone h (kv ∷ kvs) s k reached =
    let fresh = record s { error = [] } in
    let s1 = (connect h.dial fresh).0 in
    let reply = h.answer_text (codes "MGET " ++ mget_text (kv ∷ kvs)) in
    let context : HasContext s1 =
      IsDialled-HasContext (connect h.dial fresh) (connect_lem h.dial fresh k) reached in
    rw (Redis.mget, reached)
      (with_context-IsDone s1 (mget_reply s1 (kv ∷ kvs) reply) context
        (mget_reply-rc s1 (kv ∷ kvs) reply))

-- If hiredis gives a reply where it does not fail, and `mget` on a map that is not empty is called
-- only where there is a connection or one can be made: every call but `select`, of a client that
-- holds a context whenever it is connected, returns with no access through a null pointer, whatever
-- the replies and failures are, and leaves such a client.
pub perform_lem :
    (h : Hiredis) (r : Request) (s : Redis)
    → IsBlocking h
    → IsLinked s
    → IsReached h r s
    → (s' : Redis) × (perform h r s ≡ some s') × IsLinked s'
unfolding perform Redis.get Redis.set Redis.setex Redis.set_expire Pipeline.mdel
    Pipeline.mset_expire
perform_lem h (Request.get key) s b k reached =
    let reply = h.answer (codes "GET" ∷ key ∷ []) in
    IsDone-only (Redis.get h.dial h.answer key s) (
      guarded-IsDone none (λ s1. with_context s1 (get_reply s1 reply)) (connect h.dial s)
        (connect_lem h.dial s k)
        (λ s1 h1. with_context-IsDone s1 (get_reply s1 reply) h1 (get_reply-rc s1 reply)))
perform_lem h (Request.mget kvs) s b k reached =
    IsDone-only (Redis.mget h.dial h.answer_text kvs s) (mget-IsDone h kvs s k reached)
perform_lem h (Request.set key value) s b k reached =
    IsDone-only (Redis.set h.dial h.answer key value s) (tell-IsDone h.dial _ s k)
perform_lem h (Request.setex key value expire) s b k reached =
    IsDone-only (Redis.setex h.dial h.answer key value expire s) (tell-IsDone h.dial _ s k)
perform_lem h (Request.set_expire key timeout) s b k reached =
    IsDone-only (Redis.set_expire h.dial h.answer key timeout s) (tell-IsDone h.dial _ s k)
perform_lem h (Request.mdel keys) s b k reached =
    let commands = map (λ key. codes "DEL" ∷ key ∷ []) keys in
    IsDone-only (Pipeline.mdel h.dial h.taken h.got keys s) (
      guarded-IsDone false (ask_all h.taken h.got commands) (connect h.dial s)
        (connect_lem h.dial s k) (λ s1 h1. ask_all-IsDone h.taken h.got commands s1 b h1))
perform_lem h (Request.mset_expire keys timeout) s b k reached =
    let commands = map (λ key. codes "expire" ∷ key ∷ timeout ∷ []) keys in
    IsDone-only (Pipeline.mset_expire h.dial h.taken h.got keys timeout s) (
      guarded-IsDone false (ask_all h.taken h.got commands) (connect h.dial s)
        (connect_lem h.dial s k) (λ s1 h1. ask_all-IsDone h.taken h.got commands s1 b h1))
