-- ===== src/Examples/Responses.antt =====
-- Requests and responses on a connection to a server.
use twemproxy.Common.{◌≡◌, refl, arith, [], ◌∷◌, ◌++◌, true, none, take, drop, min}
use twemproxy.Message.{MsgType, Msg}
use twemproxy.Exchange.Conn.{
  ServerConn, msg_send_chain, rsp_recv_done, req_server_enqueue_imsgq, gather, req_send_next,
  send_all_done, req_send_done, req_server_dequeue_imsgq, req_server_enqueue_omsgq, remove_msg,
  next_msg,
}
use twemproxy.Exchange.Order.{IsDistinct, expecting, msg_send_chain_lem}
use twemproxy.Exchange.Fifo.{Exchange, Step, Reach, IsInOrder, fresh, ended, Reach-IsInOrder}
use twemproxy.Examples.Requests.{request}

abbrev first : Msg
first = request 1 MsgType.req_redis_get

abbrev second : Msg
second = record (request 2 MsgType.req_redis_set) { noreply = true }

abbrev third : Msg
third = request 3 MsgType.req_redis_get

abbrev queued : ServerConn
queued = record ((fresh true).conn) { imsg_q = first ∷ second ∷ third ∷ [] }

queued-IsDistinct : IsDistinct queued.imsg_q
queued-IsDistinct = (
  ((λ e. absurd (omega arith)), ((λ e. absurd (omega arith)), tt)),
  (((λ e. absurd (omega arith)), tt), (tt, tt)),
)

msg_send_chain_lem_example :
    ((msg_send_chain 3 2 queued).imsg_q ≡ drop (min 2 3) (first ∷ second ∷ third ∷ []))
    × ((msg_send_chain 3 2 queued).omsg_q
        ≡ [] ++ expecting (take (min 2 3) (first ∷ second ∷ third ∷ [])))
    × ((msg_send_chain 3 2 queued).smsg ≡ none)
msg_send_chain_lem_example = msg_send_chain_lem 3 2 queued queued-IsDistinct refl

abbrev one_arrived : Exchange
one_arrived = record {
  conn = req_server_enqueue_imsgq ((fresh true).conn) first;
  arrived = first ∷ [];
  answered = [];
}

abbrev one_sent : Exchange
one_sent = record one_arrived { conn = msg_send_chain 4 1 one_arrived.conn }

abbrev two_arrived : Exchange
two_arrived = record one_sent {
  conn = req_server_enqueue_imsgq one_sent.conn third;
  arrived = first ∷ third ∷ [];
}

abbrev response : Msg
response = request 9 MsgType.rsp_redis_status

abbrev one_answered : Exchange
one_answered = record two_arrived {
  conn = (rsp_recv_done two_arrived.conn response).0;
  answered = ended ((rsp_recv_done two_arrived.conn response).1);
}

trace : Reach (fresh true) one_answered
unfolding req_server_enqueue_imsgq msg_send_chain gather req_send_next send_all_done req_send_done
    req_server_dequeue_imsgq req_server_enqueue_omsgq remove_msg next_msg
trace =
    Reach.next
      (Reach.next
        (Reach.next (Reach.next Reach.here (Step.arrive (fresh true) first tt))
          (Step.send one_arrived 4 1))
        (Step.arrive one_sent third tt))
      (Step.receive two_arrived response refl)

Reach-IsInOrder_example : IsInOrder one_answered
Reach-IsInOrder_example = Reach-IsInOrder true trace
