-- ===== src/Exchange/Fifo.antt =====
-- Responses answer requests in the order in which the requests came.
use twemproxy.Common.{
  ℕ, zero, suc, ◌≡◌, ◌≢◌, refl, sym, ap, ◌∙◌, arith, List, [], ◌∷◌, ◌++◌, map, Bool, true, false,
  Bool-cases, inl, inr, Option, none, some, if◌then◌else◌, take, drop, min, All,
}
use mathlib.Core.List.{append_assoc, map-append}
use twemproxy.Message.{MsgType, Msg}
use twemproxy.Request.Filter.{msg_empty}
use twemproxy.Exchange.Conn.{
  ServerConn, ConnErr, Fate, first_msg, remove_msg, req_server_enqueue_imsgq,
  req_server_dequeue_omsgq, msg_send_chain, end_request, unless_failed, unless_stray, rsp_recv_done,
}
use twemproxy.Exchange.Order.{IsDistinct, expecting, msg_send_chain_lem}

abbrev pub ids : List Msg → List ℕ
ids ms = map (λ m. m.id) ms

-- The requests, by id, that a response ends.
abbrev pub ended : Fate → List ℕ
ended Fate.dropped = []
ended (Fate.swallowed m) = m.id ∷ []
ended (Fate.answers m) = m.id ∷ []

-- A connection with the requests that came for it and those that responses have ended.
pub record Exchange : Type 0 where
  pub conn : ServerConn
  pub arrived : List Msg
  pub answered : List ℕ

-- A request arrives, with an id that no queued request has; messages are sent; a response comes, as
-- long as the connection is not to be closed.
pub data Step : Exchange → Exchange → Type 0 where
  arrive :
      (e : Exchange) (m : Msg)
      → All (λ x. m.id ≢ x.id) (e.conn).imsg_q
      → Step e
          (record e { conn = req_server_enqueue_imsgq e.conn m; arrived = e.arrived ++ m ∷ [] })
  send : (e : Exchange) (n sent : ℕ) → Step e (record e { conn = msg_send_chain n sent e.conn })
  receive :
      (e : Exchange) (rsp : Msg)
      → (e.conn).done ≡ false
      → Step e (record e {
        conn = (rsp_recv_done e.conn rsp).0;
        answered = e.answered ++ ended ((rsp_recv_done e.conn rsp).1);
      })

pub data Reach (s : Exchange) : Exchange → Type 0 where
  here : Reach s s
  next : {e f : Exchange} → Reach s e → Step e f → Reach s f

-- The requests that expect a response are those answered, then those sent, then those queued.
abbrev pub IsInOrder : Exchange → Type 0
IsInOrder e =
    (ids (expecting e.arrived) ≡ e.answered ++ ids ((e.conn).omsg_q ++ expecting (e.conn).imsg_q))
    × IsDistinct (e.conn).imsg_q
    × ((e.conn).smsg ≡ none)

expecting-append : (xs ys : List Msg) → expecting (xs ++ ys) ≡ expecting xs ++ expecting ys
unfolding expecting
expecting-append [] ys = refl
expecting-append (x ∷ xs) ys =
    let rest = expecting-append xs ys in
    elim (Bool-cases x.noreply) [
      | inl quiet ↦ simp quiet rest
      | inr answered ↦ simp answered (ap (λ t. x ∷ t) rest)
    ]

take-drop {ℓ} : {A : Type ℓ} (n : ℕ) (xs : List A) → take n xs ++ drop n xs ≡ xs
take-drop zero xs = refl
take-drop (suc n) [] = refl
take-drop (suc n) (x ∷ xs) = ap (λ t. x ∷ t) (take-drop n xs)

All-drop : (P : Msg → Type 0) (n : ℕ) (xs : List Msg) → All P xs → All P (drop n xs)
All-drop P zero xs h = h
All-drop P (suc n) [] h = h
All-drop P (suc n) (x ∷ xs) h = All-drop P n xs h.1

IsDistinct-drop : (n : ℕ) (q : List Msg) → IsDistinct q → IsDistinct (drop n q)
IsDistinct-drop zero q d = d
IsDistinct-drop (suc n) [] d = d
IsDistinct-drop (suc n) (m ∷ q) d = IsDistinct-drop n q d.1

All-snoc : (P : Msg → Type 0) (xs : List Msg) (m : Msg) → All P xs → P m → All P (xs ++ m ∷ [])
All-snoc P [] m h p = (p, tt)
All-snoc P (x ∷ xs) m h p = (h.0, All-snoc P xs m h.1 p)

IsDistinct-snoc :
    (q : List Msg) (m : Msg) → IsDistinct q → All (λ x. m.id ≢ x.id) q → IsDistinct (q ++ m ∷ [])
IsDistinct-snoc [] m d h = (tt, tt)
IsDistinct-snoc (x ∷ q) m d h =
    (All-snoc (λ y. y.id ≢ x.id) q m d.0 h.0, IsDistinct-snoc q m d.1 h.1)

-- A response takes the oldest request that waits for one, or none.
abbrev Takes : ServerConn → ServerConn × Fate → Type 0
Takes conn (conn', fate) =
    (ids conn.omsg_q ≡ ended fate ++ ids conn'.omsg_q)
    × (conn'.imsg_q ≡ conn.imsg_q)
    × (conn'.smsg ≡ conn.smsg)

remove-first : (m : Msg) (ms : List Msg) → remove_msg m.id (m ∷ ms) ≡ ms
unfolding remove_msg
remove-first m ms = ground arith

end_request-Takes :
    (conn : ServerConn) (m : Msg) (ms : List Msg)
    → Takes (record conn { omsg_q = m ∷ ms }) (end_request (record conn { omsg_q = m ∷ ms }) m)
unfolding end_request req_server_dequeue_omsgq
end_request-Takes conn m ms = by_swallow m.swallow
  where
    by_swallow :
        (b : Bool)
        → Takes
            (record conn { omsg_q = m ∷ ms })
            (if b
              then (
                record conn { omsg_q = remove_msg m.id (m ∷ ms) },
                Fate.swallowed (record m { done = true }),
              )
              else (
                record conn { omsg_q = remove_msg m.id (m ∷ ms) },
                Fate.answers (record m { done = true }),
              ))
    by_swallow true = rw (remove-first m ms) (refl, refl, refl)
    by_swallow false = rw (remove-first m ms) (refl, refl, refl)

unless_failed-Takes :
    (conn : ServerConn) (m : Msg) (ms : List Msg) (failure : Option MsgType)
    → Takes
        (record conn { omsg_q = m ∷ ms })
        (unless_failed (record conn { omsg_q = m ∷ ms }) m failure)
unfolding unless_failed
unless_failed-Takes conn m ms none = end_request-Takes conn m ms
unless_failed-Takes conn m ms (some type) = (refl, refl, refl)

rsp_recv_done-Takes : (conn : ServerConn) (rsp : Msg) → Takes conn (rsp_recv_done conn rsp)
unfolding rsp_recv_done unless_stray
rsp_recv_done-Takes conn rsp = by_queue conn.omsg_q (msg_empty rsp)
  where
    by_queue :
        (q : List Msg) (empty : Bool)
        → Takes
            (record conn { omsg_q = q })
            (if empty
              then (record conn { omsg_q = q }, Fate.dropped)
              else unless_stray (record conn { omsg_q = q }) rsp (first_msg q))
    by_queue q true = (refl, refl, refl)
    by_queue [] false = (refl, refl, refl)
    by_queue (m ∷ ms) false = unless_failed-Takes conn m ms _

Step-IsInOrder : {e f : Exchange} → Step e f → IsInOrder e → IsInOrder f
unfolding req_server_enqueue_imsgq
Step-IsInOrder (Step.arrive e m new) h = (
  ap ids (expecting-append e.arrived (m ∷ []))
      ∙ map-append (λ x. x.id) (expecting e.arrived) (expecting (m ∷ []))
      ∙ ap (λ t. t ++ ids (expecting (m ∷ []))) h.0
      ∙ append_assoc e.answered _ _
      ∙ ap (λ t. e.answered ++ t)
          (sym (
              map-append (λ x. x.id) ((e.conn).omsg_q ++ expecting (e.conn).imsg_q)
                (expecting (m ∷ [])))
            ∙ ap ids (
                append_assoc (e.conn).omsg_q (expecting (e.conn).imsg_q) (expecting (m ∷ []))
                ∙ ap (λ t. (e.conn).omsg_q ++ t)
                    (sym (expecting-append (e.conn).imsg_q (m ∷ []))))),
  IsDistinct-snoc (e.conn).imsg_q m h.1 new,
  h.2,
)
Step-IsInOrder (Step.send e n sent) h =
    let k = min sent n in
    let c = msg_send_chain_lem n sent e.conn h.1 h.2 in
    let q = (e.conn).imsg_q in
    let same : (e.conn).omsg_q ++ expecting (take k q) ++ expecting (drop k q)
        ≡ (e.conn).omsg_q ++ expecting q =
      append_assoc (e.conn).omsg_q (expecting (take k q)) (expecting (drop k q))
      ∙ ap (λ t. (e.conn).omsg_q ++ t)
          (sym (expecting-append (take k q) (drop k q)) ∙ ap expecting (take-drop k q)) in
    rw (c.0, c.1) (h.0 ∙ ap (λ t. e.answered ++ ids t) (sym same), IsDistinct-drop k q h.1, c.2)
Step-IsInOrder (Step.receive e rsp open_) h =
    let t = rsp_recv_done-Takes e.conn rsp in
    let conn' = (rsp_recv_done e.conn rsp).0 in
    let out = ended ((rsp_recv_done e.conn rsp).1) in
    let q = expecting (e.conn).imsg_q in
    rw (t.1, t.2)
      (
        h.0
            ∙ ap (λ x. e.answered ++ x)
                (map-append (λ x. x.id) (e.conn).omsg_q q
                  ∙ ap (λ x. x ++ ids q) t.0
                  ∙ append_assoc out (ids conn'.omsg_q) (ids q)
                  ∙ ap (λ x. out ++ x) (sym (map-append (λ x. x.id) conn'.omsg_q q)))
            ∙ sym (append_assoc e.answered out _),
        h.1,
        h.2,
      )

-- A new connection of a redis or memcache pool.
abbrev pub fresh : Bool → Exchange
fresh redis = record {
  conn = record {
    imsg_q = [];
    omsg_q = [];
    smsg = none;
    redis = redis;
    done = false;
    err = ConnErr.no_err;
  };
  arrived = [];
  answered = [];
}

-- Whatever the order in which requests arrive, are sent and are answered on a new connection: the
-- responses end the requests that expect one in the order of their arrival, none is skipped, and
-- those not yet ended are the ones sent and then the ones still queued. Each request arrives with an
-- id that no queued one has, and no response is taken once the connection is to be closed.
pub Reach-IsInOrder : (redis : Bool) {e : Exchange} → Reach (fresh redis) e → IsInOrder e
Reach-IsInOrder redis Reach.here = unfold expecting in (refl, tt, refl)
Reach-IsInOrder redis (Reach.next r s) = Step-IsInOrder s (Reach-IsInOrder redis r)
