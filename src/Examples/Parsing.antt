-- ===== src/Examples/Parsing.antt =====
-- Requests in the redis protocol, byte by byte.
use twemproxy.Common.{
  ℕ, ◌≡◌, ◌⊎◌, inl, refl, arith, map, List, [], ◌∷◌, ◌++◌, true, false, some, none,
}
use twemproxy.Message.{MsgType}
use twemproxy.Redis.Tables.{redis_arg0, redis_argeval}
use twemproxy.Redis.Shapes.{shape_count}
use twemproxy.Redis.Commands.{Command, icmp, commands_3, commands_of, find_command, command_type}
use twemproxy.Redis.Letters.{IsIn, to_lower}
use twemproxy.Redis.Names.{command_type_lem, command_type_known}
use twemproxy.Redis.Print.{print_request}
use twemproxy.Redis.Parse.State.{State, Req, Setup}
use twemproxy.Redis.Parse.Steps.{cr, lf, count_keys}
use twemproxy.Redis.Parse.Loop.{Outcome, run, redis_parse_req}
use twemproxy.Redis.Parse.Rounds.{IsOpenAfter, run-IsOpenAfter}
use twemproxy.Redis.Parse.Resume.{resume, run-append}
use twemproxy.Redis.Parse.Repair.{run-repair}
use twemproxy.Redis.Parse.EvalKeys.{reads_keys, eval-repair}
use twemproxy.Redis.Parse.Receive.{receive}
use twemproxy.Redis.Parse.Reads.{read_on, IsCut, receive-run}
use twemproxy.Redis.Parse.LongToken.{receive-long_token}
use twemproxy.Redis.Parse.Roundtrip.{IsCall, fresh, parsed, redis_parse_req-print_request}

abbrev setup_512 : Setup
setup_512 = record { mbuf_data_size = 512; allocates = λ keys. true }

abbrev get_name : List ℕ
get_name = b'G' ∷ b'e' ∷ b't' ∷ []

-- The first bytes of a request for one key, and those behind them.
abbrev get_head : List ℕ
get_head = b'*' ∷ b'2' ∷ cr ∷ lf ∷ b'$' ∷ b'3' ∷ cr ∷ lf ∷ b'G' ∷ b'e' ∷ []

abbrev get_tail : List ℕ
get_tail = b't' ∷ cr ∷ lf ∷ b'$' ∷ b'1' ∷ cr ∷ lf ∷ b'k' ∷ cr ∷ lf ∷ []

-- The request in the middle of the name of the command.
abbrev in_name : Req
in_name = record fresh {
  state = State.req_type;
  token = some (b'G' ∷ b'e' ∷ []);
  narg = 2;
  rnarg = 1;
  rlen = 3;
}

abbrev eval_request : Req
eval_request = record fresh { narg = 4; rnarg = 1; type = MsgType.req_redis_eval }

receive-run_example :
    (read_on setup_512
        ((receive setup_512 (9 ∷ 100 ∷ []) fresh 0 [] (get_head ++ get_tail)).1)
        ((receive setup_512 (9 ∷ 100 ∷ []) fresh 0 [] (get_head ++ get_tail)).0)
      ≡ run setup_512 fresh ([] ++ get_head ++ get_tail))
    ⊎ IsCut setup_512 (9 ∷ 100 ∷ []) fresh 0 [] (get_head ++ get_tail)
receive-run_example = receive-run setup_512 (9 ∷ 100 ∷ []) fresh 0 [] (get_head ++ get_tail) tt

redis_parse_req-print_request_example :
    redis_parse_req setup_512 false fresh (print_request (get_name ∷ (b'k' ∷ []) ∷ []) ++ [])
    ≡ Outcome.ok (parsed get_name 2 ((b'k' ∷ []) ∷ [])) []
unfolding command_type commands_of commands_3 find_command icmp redis_arg0
redis_parse_req-print_request_example =
    redis_parse_req-print_request setup_512 false get_name ((b'k' ∷ []) ∷ []) ((b'k' ∷ []) ∷ []) []
      refl (IsCall.key_only refl) (omega arith) (omega arith, (omega arith, tt)) (omega arith, tt)
      (λ ks. refl)

run-append_example :
    run setup_512 fresh (get_head ++ get_tail)
    ≡ resume setup_512 get_tail (run setup_512 fresh get_head)
run-append_example = run-append setup_512 fresh get_head get_tail tt

run-IsOpenAfter_example : IsOpenAfter (run setup_512 fresh get_head)
run-IsOpenAfter_example = run-IsOpenAfter setup_512 fresh get_head tt

run-repair_example :
    run setup_512 (record in_name { token = none }) ((b'G' ∷ b'e' ∷ []) ++ get_tail)
    ≡ run setup_512 in_name get_tail
run-repair_example =
    run-repair setup_512 in_name (b'G' ∷ b'e' ∷ []) get_tail tt refl (omega arith, omega arith)

eval-repair_example :
    (redis_parse_req setup_512 true
        (reads_keys eval_request 2)
        ((b'1' ∷ [] ++ b'2' ∷ []) ++ cr ∷ lf ∷ [])
      ≡ redis_parse_req setup_512 true
          (record eval_request { state = State.arg2_lf; token = none; rlen = 0 })
          (lf ∷ []))
    × (redis_parse_req setup_512 true (reads_keys eval_request 2) (b'1' ∷ [])
        ≡ Outcome.repair (reads_keys eval_request 1) (b'1' ∷ []))
    × (redis_parse_req setup_512 true
          (reads_keys eval_request 1)
          (b'1' ∷ [] ++ b'2' ∷ [] ++ cr ∷ lf ∷ [])
        ≡ Outcome.error State.arg2)
unfolding redis_argeval count_keys
eval-repair_example =
    eval-repair setup_512 eval_request (b'1' ∷ []) (b'2' ∷ []) (lf ∷ []) refl (refl, tt) (refl, tt)
      (omega arith) refl

-- A buffer of three bytes.
abbrev setup_3 : Setup
setup_3 = record { mbuf_data_size = 3; allocates = λ keys. true }

receive-long_token_example :
    (run setup_3 fresh (b'*' ∷ (b'0' ∷ b'0' ∷ []) ++ b'1' ∷ cr ∷ lf ∷ [])
      ≡ run setup_3 (record fresh { state = State.req_type_len; narg = 1; rnarg = 1 }) [])
    × ((receive setup_3
          (99 ∷ 99 ∷ [])
          fresh
          0
          []
          (b'*' ∷ (b'0' ∷ b'0' ∷ []) ++ b'1' ∷ cr ∷ lf ∷ [])).0
        ≡ Outcome.error State.narg)
receive-long_token_example =
    receive-long_token setup_3 (b'0' ∷ b'0' ∷ []) b'1' 0 99 99 [] [] (refl, (refl, tt)) refl refl
      refl (omega arith)

get≢unknown : MsgType.req_redis_get ≡ MsgType.unknown → ⊥
get≢unknown e = cc

command_type_lem_example :
    (command_type get_name ≡ MsgType.req_redis_get) × (shape_count MsgType.req_redis_get ≡ 1)
unfolding commands_of commands_3 icmp
command_type_lem_example =
    command_type_lem get_name (b'g' ∷ b'e' ∷ b't' ∷ [], MsgType.req_redis_get) (inl refl) refl

command_type_known_example :
    (c : Command) × IsIn c (commands_of 3)
    × (map to_lower get_name ≡ c.0)
    × (command_type get_name ≡ c.1)
unfolding command_type commands_of commands_3 find_command icmp
command_type_known_example = command_type_known get_name get≢unknown
