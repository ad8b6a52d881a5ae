-- ===== src/Examples/Replies.antt =====
-- Responses in the redis protocol, byte by byte.
use twemproxy.Common.{ℕ, ◌≡◌, refl, arith, List, [], ◌∷◌, ◌++◌, true, false, none}
use twemproxy.Message.{MsgType}
use twemproxy.Redis.Parse.Steps.{cr, lf}
use twemproxy.Redis.Reply.State.{RspState, Rsp}
use twemproxy.Redis.Reply.Steps.{error_words, error_type}
use twemproxy.Redis.Reply.Loop.{RspOutcome, rsp_run, redis_parse_rsp}
use twemproxy.Redis.Reply.Resume.{rsp_resume, rsp_run-append, IsEnd, rsp_run-IsEnd}
use twemproxy.Redis.Reply.Line.{null_line, null-repair}
use twemproxy.Redis.Reply.Print.{Element, Reply, print_reply, IsRead}
use twemproxy.Redis.Reply.Roundtrip.{fresh_rsp, typed, redis_parse_rsp-print_reply, error-hides}

-- The string `0`, and a list of the string `k` and an absent one.
abbrev scanned : Reply
scanned =
    Reply.multibulk (Element.text (b'0' ∷ []) ∷ [])
      ((Element.text (b'k' ∷ []) ∷ Element.absent ∷ []) ∷ [])

-- The first bytes of the status `OK`, and those behind them.
abbrev ok_head : List ℕ
ok_head = b'+' ∷ b'O' ∷ []

abbrev ok_tail : List ℕ
ok_tail = b'K' ∷ cr ∷ lf ∷ []

redis_parse_rsp-print_reply_example :
    (r : Rsp) × (redis_parse_rsp false fresh_rsp (print_reply scanned ok_head)
      ≡ RspOutcome.ok r ok_head)
    × IsRead scanned r
redis_parse_rsp-print_reply_example =
    redis_parse_rsp-print_reply false scanned ok_head
      (omega arith, (omega arith, tt), (omega arith, (omega arith, (tt, tt)), tt))

rsp_run-append_example :
    rsp_run fresh_rsp (ok_head ++ ok_tail) ≡ rsp_resume ok_tail (rsp_run fresh_rsp ok_head)
rsp_run-append_example = rsp_run-append fresh_rsp ok_head ok_tail

rsp_run-IsEnd_example : IsEnd (rsp_run fresh_rsp ok_head)
rsp_run-IsEnd_example = rsp_run-IsEnd fresh_rsp ok_head

error-hides_example :
    redis_parse_rsp false fresh_rsp
      (b'-' ∷ (b'E' ∷ b'R' ∷ b'R' ∷ []) ++ cr ∷ lf ∷ ((b'+' ∷ b'O' ∷ b'K' ∷ []) ++ cr ∷ lf ∷ []))
    ≡ RspOutcome.ok
        (typed RspState.start
          (error_type MsgType.rsp_redis_error error_words (b'-' ∷ b'E' ∷ b'R' ∷ b'R' ∷ [])))
        []
error-hides_example =
    error-hides false (b'E' ∷ b'R' ∷ b'R' ∷ []) (b'+' ∷ b'O' ∷ b'K' ∷ []) []
      (refl, (refl, (refl, tt))) (refl, (refl, (refl, tt)))

null-repair_example :
    (redis_parse_rsp false
        (record fresh_rsp { state = RspState.multibulk; token = none })
        (null_line (b'1' ∷ []) ++ lf ∷ [])
      ≡ RspOutcome.ok (record fresh_rsp { state = RspState.start; token = none; rnarg = 0 }) [])
    × (redis_parse_rsp true
          (record fresh_rsp { state = RspState.multibulk; token = none })
          (null_line (b'1' ∷ []))
        ≡ RspOutcome.repair
            (record fresh_rsp { state = RspState.almost_done; token = none; rnarg = 0 })
            (null_line (b'1' ∷ [])))
    × (redis_parse_rsp false
          (record fresh_rsp { state = RspState.almost_done; token = none; rnarg = 0 })
          (null_line (b'1' ∷ []) ++ lf ∷ [])
        ≡ RspOutcome.error RspState.almost_done)
null-repair_example = null-repair false fresh_rsp (b'1' ∷ []) [] (refl, tt)
