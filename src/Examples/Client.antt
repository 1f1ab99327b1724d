-- ===== src/Examples/Client.antt =====
-- Runs of the Redis client.
use ftrl_online_pslite.Prelude.{◌≡◌, refl, some, none, [], ◌∷◌, true}
use ftrl_online_pslite.Prelude.Int.{pos}
use ftrl_online_pslite.Bytes.{codes}
use ftrl_online_pslite.Redis.{Redis, Dial, Reply, mget, connect, new_redis}
use ftrl_online_pslite.Redis.Pipeline.{Got, mdel, append_loop, read_loop}
use ftrl_online_pslite.Redis.Linked.{IsLinked}
use ftrl_online_pslite.Redis.Request.{Hiredis, Request, perform, perform_lem}

-- A server that answers a deletion by an error, and has no values.
abbrev hiredis : Dial → Hiredis
hiredis dial = record {
  dial = dial;
  answer = λ words. some Reply.nil;
  answer_text = λ text. none;
  taken = λ words. true;
  got = λ k. Got.replied (some (Reply.failure (codes "ERR")));
}

abbrev client : Redis
client = record {
  host = codes "host";
  port = pos 6379;
  db = pos 0;
  is_connected = true;
  rc = some (record { pending = 0 });
  error = [];
}

abbrev two_keys : Request
two_keys = Request.mdel (codes "a" ∷ codes "b" ∷ [])

perform_lem_example :
    (s' : Redis) × (perform (hiredis Dial.made) two_keys client ≡ some s') × IsLinked s'
perform_lem_example = perform_lem (hiredis Dial.made) two_keys client (λ k e. cc) tt tt

-- The error ends the call with one reply unread, on a connection that stays.
abbrev only_error : Redis
only_error = record client {
  rc = some (record { pending = 1 });
  error = codes "REDIS_REPLY_ERROR, detail:ERR";
}

one_unread : perform (hiredis Dial.made) two_keys client ≡ some only_error
unfolding perform mdel connect append_loop read_loop
one_unread = refl

-- Without a connection `mget` reads a null pointer.
no_connection :
    perform (hiredis Dial.no_context) (Request.mget ((codes "a", []) ∷ [])) new_redis ≡ none
unfolding perform mget connect new_redis
no_connection = refl
