-- ===== src/Examples/Requests.antt =====
-- Requests in the queue of a client.
use twemproxy.Common.{ℕ, ◌≤◌, ◌≡◌, ◌↔◌, inl, inr, refl, arith, [], ◌∷◌, true, false, none}
use twemproxy.Message.{MsgType, Msg}
use twemproxy.Server.{ServerPool, DistType}
use twemproxy.Request.Done.{MsgQueue, fragments_done, finish_vector, req_done, req_error}
use twemproxy.Request.Fragments.{
  IsGathered, Everywhere, IfFragment, IsAnswered, req_done_iff, req_done-once,
}
use twemproxy.Request.Errors.{req_error_iff}
use twemproxy.Request.Filter.{
  Client, Target, req_filter, conn_authenticated, forward_target, req_filter_unauthenticated,
}
use twemproxy.Redis.Tables.{redis_master_slave_only}
use twemproxy.Examples.Pools.{pool_of, server_a}

abbrev pub request : ℕ → MsgType → Msg
request id type = record {
  id = id;
  type = type;
  mlen = 20;
  frag_id = 0;
  frag_owner = id;
  nfrag = 0;
  nfrag_done = 0;
  err = 0;
  error = false;
  ferror = false;
  quit = false;
  noreply = false;
  noforward = false;
  done = false;
  fdone = false;
  swallow = false;
}

-- A fragment of the vector 7, whose owner is the message 1, that is done.
abbrev fragment : ℕ → Msg
fragment id = record (request id MsgType.req_redis_mget) {
  frag_id = 7;
  frag_owner = 1;
  done = true;
}

-- The owner and two fragments, then another request.
abbrev queue : MsgQueue
queue = record {
  before = fragment 1 ∷ [];
  msg = fragment 2;
  after = fragment 3 ∷ request 4 MsgType.req_redis_get ∷ [];
}

abbrev owner_id : ℕ
owner_id = 1

queue-IsGathered : IsGathered queue
queue-IsGathered = (inl (refl, tt), inl (refl, inr ((λ e. absurd (omega arith)), tt)))

req_done_iff_example :
    ((req_done queue).answer ≡ true)
    ↔ ((0 ≤ 0) × Everywhere (IfFragment 7 (λ m. m.done ≡ true)) queue)
req_done_iff_example = req_done_iff queue queue-IsGathered (λ e. absurd (omega arith)) refl

req_done-once_example : (owner_id ≡ 1) × Everywhere (IfFragment 7 IsAnswered) (req_done queue).queue
unfolding req_done fragments_done finish_vector
req_done-once_example =
    req_done-once queue owner_id queue-IsGathered (λ e. absurd (omega arith)) refl refl

req_error_iff_example :
    ((req_error queue).0 ≡ false) ↔ Everywhere (IfFragment 7 (λ m. m.error ≡ false)) queue
req_error_iff_example = req_error_iff queue queue-IsGathered (λ e. absurd (omega arith)) refl

-- A pool of redis with a master that requires authentication.
abbrev guarded : ServerPool
guarded = record (pool_of DistType.ketama) { redis_master = server_a ∷ []; require_auth = true }

abbrev stranger : Client
stranger = record { rmsg = none; eof = false; recv_ready = true; authenticated = false }

abbrev renames : Msg
renames = request 5 MsgType.req_redis_rename

req_filter_unauthenticated_example :
    ((req_filter guarded stranger renames).answer ≡ false)
    × (((req_filter guarded stranger renames).msg).noforward ≡ false)
    × (forward_target guarded (req_filter guarded stranger renames).msg ≡ Target.master)
unfolding conn_authenticated redis_master_slave_only
req_filter_unauthenticated_example =
    req_filter_unauthenticated guarded stranger renames (λ e. absurd (omega arith)) refl refl refl
      (λ e. absurd (omega arith)) refl
