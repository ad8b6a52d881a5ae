-- ===== src/Request/Done.antt =====
-- req_done and req_error of src/nc_request.c. The queue `omsg_q` of a client is held at one of its
-- messages, as TAILQ_PREV and TAILQ_NEXT walk it.
use twemproxy.Common.{
  ℕ, List, [], ◌∷◌, Bool, true, false, not, Option, none, some, ◌==◌, ltb, if◌then◌else◌, ◌||◌,
}
use twemproxy.Message.{Msg}

-- `before` has the nearest message first.
pub record MsgQueue : Type 0 where
  pub before : List Msg
  pub msg : Msg
  pub after : List Msg

-- The answer, the queue after the writes, and the message that `post_coalesce` is called on.
pub record Outcome : Type 0 where
  pub answer : Bool
  pub queue : MsgQueue
  pub coalesced : Option ℕ

-- A walk over the neighbours with the fragment id: are all done?
unfoldable pub fragments_done : ℕ → List Msg → Bool
fragments_done id [] = true
fragments_done id (cmsg ∷ rest) =
    if cmsg.frag_id == id then (if cmsg.done then fragments_done id rest else false) else true

-- The walk that marks them.
unfoldable pub mark_fdone : ℕ → List Msg → List Msg
mark_fdone id [] = []
mark_fdone id (cmsg ∷ rest) =
    if cmsg.frag_id == id then record cmsg { fdone = true } ∷ mark_fdone id rest else cmsg ∷ rest

abbrev pub stays : Bool → MsgQueue → Outcome
stays answer q = record { answer = answer; queue = q; coalesced = none }

-- The last part: mark all fragments and coalesce.
unfoldable pub finish_vector : MsgQueue → Outcome
finish_vector q = record {
  answer = true;
  queue = record {
    before = mark_fdone (q.msg).frag_id q.before;
    msg = record (q.msg) { fdone = true };
    after = mark_fdone (q.msg).frag_id q.after;
  };
  coalesced = some (q.msg).frag_owner;
}

unfoldable pub req_done : MsgQueue → Outcome
req_done q =
    if not (q.msg).done
    then stays false q
    else (if (q.msg).frag_id == 0
        then stays true q
        else (if (q.msg).fdone
            then stays true q
            else (if ltb (q.msg).nfrag_done (q.msg).nfrag
                then stays false q
                else (if not (fragments_done (q.msg).frag_id q.before)
                    then stays false q
                    else (if not (fragments_done (q.msg).frag_id q.after)
                        then stays false q
                        else finish_vector q)))))

-- A walk over the neighbours with the fragment id: is one in error?
unfoldable pub fragment_error : ℕ → List Msg → Bool
fragment_error id [] = false
fragment_error id (cmsg ∷ rest) =
    if cmsg.frag_id == id then (if cmsg.error then true else fragment_error id rest) else false

unfoldable pub mark_ferror : ℕ → List Msg → List Msg
mark_ferror id [] = []
mark_ferror id (cmsg ∷ rest) =
    if cmsg.frag_id == id then record cmsg { ferror = true } ∷ mark_ferror id rest else cmsg ∷ rest

-- The part behind the label `ferror`.
unfoldable pub mark_vector_error : MsgQueue → MsgQueue
mark_vector_error q = record {
  before = mark_ferror (q.msg).frag_id q.before;
  msg = record (q.msg) { ferror = true };
  after = mark_ferror (q.msg).frag_id q.after;
}

unfoldable pub req_error : MsgQueue → Bool × MsgQueue
req_error q =
    if (q.msg).error
    then (true, q)
    else (if (q.msg).frag_id == 0
        then (false, q)
        else (if (q.msg).ferror
            then (true, q)
            else (if fragment_error (q.msg).frag_id q.before
                  || fragment_error (q.msg).frag_id q.after
                then (true, mark_vector_error q)
                else (false, q))))
