-- ===== src/Request/Filter.antt =====
-- msg_empty of src/nc_message.c, conn_authenticated of src/nc_connection.c and req_filter of
-- src/nc_request.c: which requests of a client are dropped, answered by the proxy, or forwarded.
use twemproxy.Common.{
  ℕ, ◌≡◌, ◌≢◌, ◌⊎◌, arith, Bool, true, false, not, ◌&&◌, Option, ◌==◌, leb, ltb, if◌then◌else◌,
  length,
}
use twemproxy.Message.{Msg}
use twemproxy.Server.{ServerPool}
use twemproxy.Redis.Tables.{redis_readonly, redis_master_slave_only}
use twemproxy.Redis.Shapes.{shape_count_lem}

-- A client's connection: the message that is being received, by its id, and the flags the filter
-- reads and writes.
pub record Client : Type 0 where
  pub rmsg : Option ℕ
  pub eof : Bool
  pub recv_ready : Bool
  pub authenticated : Bool

-- What req_filter returns, the connection and the message behind it, and whether it has put the
-- message back.
pub record Filtered : Type 0 where
  pub answer : Bool
  pub conn : Client
  pub msg : Msg
  pub put : Bool

unfoldable pub msg_empty : Msg → Bool
msg_empty msg = if msg.mlen == 0 then true else false

unfoldable pub conn_authenticated : ServerPool → Client → Bool
conn_authenticated pool conn =
    if not pool.require_auth then true else (if not conn.authenticated then false else true)

-- The mark of a request of a client that is not authenticated.
unfoldable pub require_authenticated : ServerPool → Client → Msg → Msg
require_authenticated pool conn msg =
    if not (conn_authenticated pool conn) then record msg { noforward = true } else msg

-- The mark of a request that only a pool with a master takes.
unfoldable pub require_master : ServerPool → Msg → Msg
require_master pool msg =
    if redis_master_slave_only msg.type
    then record msg { noforward = if leb (length pool.redis_master) 0 then true else false }
    else msg

unfoldable pub req_filter : ServerPool → Client → Msg → Filtered
req_filter pool conn msg =
    if msg_empty msg
    then record { answer = true; conn = conn; msg = msg; put = true }
    else (if msg.quit
        then record {
          answer = true;
          conn = record conn { eof = true; recv_ready = false };
          msg = msg;
          put = true;
        }
        else record {
          answer = false;
          conn = conn;
          msg = require_master pool (require_authenticated pool conn msg);
          put = false;
        })

-- Why the proxy answers a request itself: it needs a master and the pool has none, or it needs none
-- and its client is not authenticated or it was marked before.
abbrev pub IsLocal : ServerPool → Client → Msg → Type 0
IsLocal pool conn msg =
    ((redis_master_slave_only msg.type ≡ true) × (length pool.redis_master ≡ 0))
    ⊎ ((redis_master_slave_only msg.type ≡ false)
        × ((conn_authenticated pool conn ≡ false) ⊎ (msg.noforward ≡ true)))

-- Where req_forward sends a request: to the first master, or to a server that the key chooses.
pub data Target : Type 0 where
  master : Target
  by_key : Target

unfoldable pub forward_target : ServerPool → Msg → Target
forward_target pool msg =
    if pool.redis && (not (redis_readonly msg.type) && ltb 0 (length pool.redis_master))
    then Target.master
    else Target.by_key

-- A client that has not authenticated reaches the master: in a pool of redis that has one and
-- requires authentication, its request that needs a master, neither empty nor a quit, passes the
-- filter unmarked and is forwarded to the master.
pub req_filter_unauthenticated :
    (pool : ServerPool) (conn : Client) (msg : Msg)
    → msg.mlen ≢ 0
    → msg.quit ≡ false
    → conn_authenticated pool conn ≡ false
    → redis_master_slave_only msg.type ≡ true
    → length pool.redis_master ≢ 0
    → pool.redis ≡ true
    → ((req_filter pool conn msg).answer ≡ false)
      × (((req_filter pool conn msg).msg).noforward ≡ false)
      × (forward_target pool (req_filter pool conn msg).msg ≡ Target.master)
unfolding req_filter msg_empty require_master require_authenticated forward_target
req_filter_unauthenticated pool conn msg full stays stranger only some_master redis =
    let writes = (shape_count_lem msg.type).2 only in
    (ground arith, ground arith, ground (arith, writes.1))
