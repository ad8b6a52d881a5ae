-- ===== src/Exchange/Conn.antt =====
-- The connection to a server, and what moves the requests through its queues: src/nc_request.c,
-- src/nc_response.c, and redis_failure and memcache_failure of src/proto. A message is found by its
-- id, of which msg_get gives each message its own. Statistics, time-outs and the bytes of the messages
-- are left out; each message has some. A request that server_connected puts at the head of the queue
-- is left out too.
use twemproxy.Common.{
  ℕ, zero, suc, List, [], ◌∷◌, ◌++◌, Bool, true, not, Option, none, some, ◌==◌, if◌then◌else◌, take,
}
use mathlib.Core.Option
use twemproxy.Message.{MsgType, Msg}
use twemproxy.Request.Filter.{msg_empty}

-- `conn->err`: none, EINVAL, the errno of an event call, or the negated type of a response.
pub data ConnErr : Type 0 where
  no_err : ConnErr
  einval : ConnErr
  errno : ℕ → ConnErr
  failed_as : MsgType → ConnErr

pub record ServerConn : Type 0 where
  pub imsg_q : List Msg
  pub omsg_q : List Msg
  pub smsg : Option ℕ
  pub redis : Bool
  pub done : Bool
  pub err : ConnErr

-- TAILQ_REMOVE and TAILQ_NEXT of the message with an id.
unfoldable pub remove_msg : ℕ → List Msg → List Msg
remove_msg id [] = []
remove_msg id (m ∷ ms) = if m.id == id then ms else m ∷ remove_msg id ms

abbrev pub first_msg : List Msg → Option Msg
first_msg [] = none
first_msg (m ∷ ms) = some m

unfoldable pub next_msg : ℕ → List Msg → Option Msg
next_msg id [] = none
next_msg id (m ∷ ms) = if m.id == id then first_msg ms else next_msg id ms

unfoldable pub req_server_enqueue_imsgq : ServerConn → Msg → ServerConn
req_server_enqueue_imsgq conn msg = record conn { imsg_q = conn.imsg_q ++ msg ∷ [] }

unfoldable pub req_server_dequeue_imsgq : ServerConn → Msg → ServerConn
req_server_dequeue_imsgq conn msg = record conn { imsg_q = remove_msg msg.id conn.imsg_q }

unfoldable pub req_server_enqueue_omsgq : ServerConn → Msg → ServerConn
req_server_enqueue_omsgq conn msg = record conn { omsg_q = conn.omsg_q ++ msg ∷ [] }

unfoldable pub req_server_dequeue_omsgq : ServerConn → Msg → ServerConn
req_server_dequeue_omsgq conn msg = record conn { omsg_q = remove_msg msg.id conn.omsg_q }

-- req_send_next once the connection is up. The first argument is the errno of event_del_out, if it
-- fails.
unfoldable pub req_send_next : Option ℕ → ServerConn → ServerConn × Option Msg
req_send_next event conn = elim (first_msg conn.imsg_q) [
  | none ↦ ((elim event [ none ↦ conn | some e ↦ record conn { err = ConnErr.errno e } ]), none)
  | some first ↦
      let nmsg : Option Msg = elim conn.smsg [
        | none ↦ some first
        | some id ↦ next_msg id conn.imsg_q
      ] in
      (record conn { smsg = Option.map (λ m. m.id) nmsg }, nmsg)
]

-- A request that expects no response is put back, which leaves no trace here.
unfoldable pub req_send_done : ServerConn → Msg → ServerConn
req_send_done conn msg =
    let conn' = req_server_dequeue_imsgq conn msg in
    if not msg.noreply then req_server_enqueue_omsgq conn' msg else conn'

-- A round of the loop: it stops where there is no next message.
abbrev pub gathered : ServerConn × Option Msg → ServerConn × List Msg → ServerConn × List Msg
gathered (conn, none) rest = (conn, [])
gathered (conn, some m) rest = (rest.0, m ∷ rest.1)

-- The loop of msg_send_chain that gathers messages, at most `n` more.
unfoldable pub gather : ℕ → ServerConn → ServerConn × List Msg
gather zero conn = (conn, [])
gather (suc n) conn = gathered (req_send_next none conn) (gather n ((req_send_next none conn).0))

-- The loop that ends the messages whose bytes are all sent.
unfoldable pub send_all_done : ServerConn → List Msg → ServerConn
send_all_done conn [] = conn
send_all_done conn (m ∷ ms) = send_all_done (req_send_done conn m) ms

-- msg_send_chain behind msg_send, for a chain of at most `n` messages of which the bytes of the first
-- `sent` went out.
unfoldable pub msg_send_chain : ℕ → ℕ → ServerConn → ServerConn
msg_send_chain n sent conn =
    let chain = gather n conn in
    send_all_done (record (chain.0) { smsg = none }) (take sent (chain.1))

-- `msg->failure`, by the protocol of the connection.
unfoldable pub redis_failure : Msg → Option MsgType
redis_failure msg = by_type msg.type
  where
    by_type : MsgType → Option MsgType
    by_type MsgType.rsp_redis_error_oom = some MsgType.rsp_redis_error_oom
    by_type MsgType.rsp_redis_error_busy = some MsgType.rsp_redis_error_busy
    by_type MsgType.rsp_redis_error_loading = some MsgType.rsp_redis_error_loading
    by_type _ = none

abbrev pub memcache_failure : Msg → Option MsgType
memcache_failure msg = none

-- What becomes of a response: dropped, swallowed with its request, or the answer to its request.
pub data Fate : Type 0 where
  dropped : Fate
  swallowed : Msg → Fate
  answers : Msg → Fate

-- The request that the response ends leaves the queue, done.
unfoldable pub end_request : ServerConn → Msg → ServerConn × Fate
end_request conn pmsg =
    let conn' = req_server_dequeue_omsgq conn pmsg in
    let pmsg' = record pmsg { done = true } in
    if pmsg.swallow then (conn', Fate.swallowed pmsg') else (conn', Fate.answers pmsg')

-- A response that tells of a failure of the server closes the connection.
unfoldable pub unless_failed : ServerConn → Msg → Option MsgType → ServerConn × Fate
unless_failed conn pmsg none = end_request conn pmsg
unless_failed conn pmsg (some type) =
    (record conn { err = ConnErr.failed_as type; done = true }, Fate.dropped)

-- A response that no request waits for closes the connection.
unfoldable pub unless_stray : ServerConn → Msg → Option Msg → ServerConn × Fate
unless_stray conn msg none = (record conn { err = ConnErr.einval; done = true }, Fate.dropped)
unless_stray conn msg (some pmsg) =
    unless_failed conn pmsg (if conn.redis then redis_failure msg else memcache_failure msg)

-- The queues in rsp_filter and then rsp_forward, as rsp_recv_done calls them: the connection, and
-- the fate of the response.
unfoldable pub rsp_recv_done : ServerConn → Msg → ServerConn × Fate
rsp_recv_done conn msg =
    if msg_empty msg then (conn, Fate.dropped) else unless_stray conn msg (first_msg conn.omsg_q)
