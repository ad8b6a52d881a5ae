-- ===== src/Redis/Parse/Roundtrip.antt =====
-- What a redis client writes, redis_parse_req reads.
use twemproxy.Common.{
  ℕ, suc, ◌^◌, ◌<◌, ◌≡◌, refl, sym, ◌∙◌, ap, arith, List, [], ◌∷◌, ◌++◌, Bool, true, false, not,
  ◌||◌, none, some, length, ◌==◌, All,
}
use mathlib.Core.List.{append_assoc}
use twemproxy.Message.{MsgType}
use twemproxy.Redis.Tables.{
  redis_argz, redis_arg0, redis_arg1, redis_arg2, redis_arg3, redis_argn, redis_argx, redis_argkvx,
  redis_argeval,
}
use twemproxy.Redis.Commands.{command_type, commands_of, find_command, sets_noforward, sets_quit}
use twemproxy.Redis.Print.{print_number, print_number_lem, print_bulk, print_bulks, print_request}
use twemproxy.Redis.Parse.State.{State, Req, Setup, Move}
use twemproxy.Redis.Parse.Steps.{
  cr, lf, is_unknown, narg_step, step_in, has_keys, to, found_type, type_len_accepts, after_type,
}
use twemproxy.Redis.Parse.Token.{number, IsDigits}
use twemproxy.Redis.Parse.Loop.{Outcome, continue, run, check_full, redis_parse_req}
use twemproxy.Redis.Parse.Rounds.{run_round}
use twemproxy.Redis.Parse.Resume.{resume, run-append}
use twemproxy.Redis.Parse.Repair.{run_narg_sign}
use twemproxy.Redis.Parse.Bulk.{decide, run-lf, run_token}
use twemproxy.Redis.Parse.Parts.{Stage, run_part_len}
use twemproxy.Redis.Parse.Calls.{stands}
use twemproxy.Redis.Parse.Arguments.{IsPairs, not_last}
use twemproxy.Redis.Parse.FixedArgs.{run_0, run_1, run_2, run_3}
use twemproxy.Redis.Parse.ListArgs.{run_n, run_x, run_kvx, run_eval}

-- The arguments that commands of a type take, with the keys among them.
pub data IsCall (t : MsgType) : List (List ℕ) → List (List ℕ) → Type 0 where
  no_key : redis_argz t ≡ true → IsCall t [] []
  key_only : {k : List ℕ} → redis_arg0 t ≡ true → IsCall t (k ∷ []) (k ∷ [])
  key_one : {k a : List ℕ} → redis_arg1 t ≡ true → IsCall t (k ∷ a ∷ []) (k ∷ [])
  key_two : {k a b : List ℕ} → redis_arg2 t ≡ true → IsCall t (k ∷ a ∷ b ∷ []) (k ∷ [])
  key_three : {k a b c : List ℕ} → redis_arg3 t ≡ true → IsCall t (k ∷ a ∷ b ∷ c ∷ []) (k ∷ [])
  key_many :
      {k : List ℕ} {args : List (List ℕ)} → redis_argn t ≡ true → IsCall t (k ∷ args) (k ∷ [])
  key_each : {k : List ℕ} {ks : List (List ℕ)} → redis_argx t ≡ true → IsCall t (k ∷ ks) (k ∷ ks)
  key_pairs :
      {args keys : List (List ℕ)}
      → redis_argkvx t ≡ true
      → IsPairs args keys
      → 0 < length args
      → IsCall t args keys
  key_script :
      {source count k : List ℕ} {args : List (List ℕ)}
      → redis_argeval t ≡ true
      → has_keys count ≡ true
      → IsCall t (source ∷ count ∷ k ∷ args) (k ∷ [])

run_call :
    (setup : Setup) (r : Req) (rest : List ℕ) {args keys : List (List ℕ)}
    → IsCall r.type args keys
    → r.narg ≡ suc (length args)
    → ((ks : List (List ℕ)) → setup.allocates ks ≡ true)
    → All (λ a. length a < 2 ^ 32) args
    → All (λ k. length k < setup.mbuf_data_size) keys
    → decide setup
        (after_type (stands r State.req_type_lf (length args) []))
        (stands r State.req_type_lf (length args) [])
        (print_bulks args ++ rest)
      ≡ Outcome.ok (stands r State.start 0 keys) rest
unfolding decide after_type print_bulks
run_call setup r rest (IsCall.no_key is) count alloc small fit = rw is refl
run_call setup r rest (IsCall.key_only {k = k} is) count alloc small fit =
    run_0 setup r rest k is count alloc small fit
run_call setup r rest (IsCall.key_one {k = k} {a = a} is) count alloc small fit =
    run_1 setup r rest k a is count alloc small fit
run_call setup r rest (IsCall.key_two {k = k} {a = a} {b = b} is) count alloc small fit =
    run_2 setup r rest k a b is count alloc small fit
run_call setup r rest (IsCall.key_three {k = k} {a = a} {b = b} {c = c} is) count alloc small fit =
    run_3 setup r rest k a b c is count alloc small fit
run_call setup r rest (IsCall.key_many {k = k} {args = args} is) count alloc small fit =
    run_n setup r rest k args is count alloc small fit
run_call setup r rest (IsCall.key_each {k = k} {ks = ks} is) count alloc small fit =
    run_x setup r rest k ks is count alloc small fit
run_call setup r rest (IsCall.key_pairs is IsPairs.no_pair some_) count alloc small fit =
    absurd (omega (arith, some_))
run_call setup r rest (IsCall.key_pairs is (IsPairs.pair {key = key} {value = value} more) some_)
      count alloc small fit =
    run_kvx setup r rest key value is more count alloc small fit
run_call setup r rest
      (IsCall.key_script {source = source} {count = keys} {k = k} {args = args} is has) count alloc
      small fit =
    run_eval setup r rest source keys k args is has count alloc small fit

-- A request as msg_get leaves it.
abbrev pub fresh : Req
fresh = record {
  state = State.start;
  token = none;
  narg = 0;
  rnarg = 0;
  rlen = 0;
  type = MsgType.unknown;
  keys = [];
  noforward = false;
  quit = false;
}

-- The request that stands for a command of this name.
abbrev pub parsed : List ℕ → ℕ → List (List ℕ) → Req
parsed name n keys = record fresh {
  narg = n;
  type = command_type name;
  keys = keys;
  noforward = sets_noforward (command_type name);
  quit = sets_quit (command_type name);
}

narg_end :
    (held : List ℕ) (n : ℕ) (x : List ℕ)
    → narg_step (record fresh { state = State.narg; token = some held; rnarg = suc n }) cr x
      ≡ Move.go (record fresh { state = State.narg_lf; narg = suc n; rnarg = suc n }) x
unfolding narg_step
narg_end held n x = rw (not_last n) refl

-- The digits of the number of parts, leading zeros included.
pub run_narg_digits :
    (setup : Setup) (ds : List ℕ) (n : ℕ) (x : List ℕ)
    → IsDigits ds
    → number 0 ds ≡ suc n
    → run setup fresh (b'*' ∷ (ds ++ cr ∷ lf ∷ x))
      ≡ run setup (record fresh { state = State.req_type_len; narg = suc n; rnarg = suc n }) x
unfolding resume step_in decide
run_narg_digits setup ds n x are_digits is_n =
    let held = b'*' ∷ ds in
    run-append setup fresh held (cr ∷ lf ∷ x) tt
    ∙ ap (resume setup (cr ∷ lf ∷ x)) (
        run_narg_sign setup fresh State.start ds refl are_digits
        ∙ ap
            (λ k. Outcome.again (record fresh { state = State.narg; token = some held; rnarg = k }))
            is_n)
    ∙ run_round setup (record fresh { state = State.narg; token = some held; rnarg = suc n }) cr
        (lf ∷ x) (ds, refl, are_digits, sym is_n)
    ∙ ap (continue (run setup)) (narg_end held n (lf ∷ x))
    ∙ run-lf setup State.narg_lf (to State.req_type_len)
        (record fresh { narg = suc n; rnarg = suc n }) x refl

-- The number of parts.
run_narg :
    (setup : Setup) (n : ℕ) (x : List ℕ)
    → suc n < 2 ^ 32
    → run setup fresh (b'*' ∷ (print_number (suc n) ++ cr ∷ lf ∷ x))
      ≡ run setup (record fresh { state = State.req_type_len; narg = suc n; rnarg = suc n }) x
run_narg setup n x small =
    let spelled = print_number_lem (suc n) small in
    run_narg_digits setup (print_number (suc n)) n x (spelled.0) (spelled.1)

type_stage : (setup : Setup) → Stage setup
unfolding step_in
type_stage setup = record {
  at_len = State.req_type_len;
  at_len_lf = State.req_type_len_lf;
  at_body = State.req_type;
  at_lf = State.req_type_lf;
  accepts = type_len_accepts;
  verdict = after_type;
  is_len = refl;
  is_len_lf = refl;
  is_lf = refl;
  is_number = λ t rnarg n held h. h;
}

-- The name of the command.
run_name :
    (setup : Setup) (n : ℕ) (name x : List ℕ)
    → length name < 2 ^ 32
    → 0 < length name
    → is_unknown (command_type name) ≡ false
    → run setup
        (record fresh { state = State.req_type_len; narg = suc n; rnarg = suc n })
        (print_bulk name ++ x)
      ≡ decide setup
          (after_type (stands (parsed name (suc n) []) State.req_type_lf n []))
          (stands (parsed name (suc n) []) State.req_type_lf n [])
          x
unfolding type_stage step_in
run_name setup n name x small some_ known =
    run_part_len (type_stage setup) (record fresh { narg = suc n }) n name x small
      (λ ds spelled. accepted n (length name) some_)
    ∙ run_token setup State.req_type found_type (record fresh { narg = suc n; rnarg = n }) name
        (lf ∷ x) refl
    ∙ rw known (
        run-lf setup State.req_type_lf after_type (record (parsed name (suc n) []) { rnarg = n }) x
          refl)
  where
    accepted : (k l : ℕ) → 0 < l → not (l == 0 || suc k == 0) ≡ true
    accepted k l h = ground (arith, h)

name_some : (name : List ℕ) → is_unknown (command_type name) ≡ false → 0 < length name
unfolding command_type commands_of find_command
name_some [] known = absurd (ground (arith, known))
name_some (c ∷ name) known = omega arith

-- The parser reads every well-formed request. Let a command have a name that is recognised, in
-- whatever case, and arguments of a shape that its type takes, all parts and their number below
-- 2 ^ 32 and the keys shorter than a buffer, and let memory be found for the keys. Then the bytes of
-- that request in the redis protocol are parsed, whatever `rest` comes behind them and is left: the
-- type is that of the name, the keys are those among the arguments, and the flags are the command's.
pub redis_parse_req-print_request :
    (setup : Setup) (full : Bool) (name : List ℕ) (args keys : List (List ℕ)) (rest : List ℕ)
    → is_unknown (command_type name) ≡ false
    → IsCall (command_type name) args keys
    → suc (length args) < 2 ^ 32
    → All (λ a. length a < 2 ^ 32) (name ∷ args)
    → All (λ k. length k < setup.mbuf_data_size) keys
    → ((ks : List (List ℕ)) → setup.allocates ks ≡ true)
    → redis_parse_req setup full fresh (print_request (name ∷ args) ++ rest)
      ≡ Outcome.ok (parsed name (suc (length args)) keys) rest
unfolding redis_parse_req print_request print_bulks
redis_parse_req-print_request setup full name args keys rest known call count (small, smalls) fits
      allocated =
    ap (λ bytes. check_full full (run setup fresh bytes))
      (ap (λ bytes. b'*' ∷ bytes)
        (append_assoc (print_number (suc (length args)))
            (cr ∷ lf ∷ (print_bulk name ++ print_bulks args)) rest
          ∙ ap (λ bytes. print_number (suc (length args)) ++ cr ∷ lf ∷ bytes)
              (append_assoc (print_bulk name) (print_bulks args) rest)))
    ∙ ap (check_full full) (
        run_narg setup (length args) (print_bulk name ++ (print_bulks args ++ rest)) count
        ∙ run_name setup (length args) name (print_bulks args ++ rest) small (name_some name known)
            known
        ∙ run_call setup (parsed name (suc (length args)) []) rest call refl allocated smalls fits)
