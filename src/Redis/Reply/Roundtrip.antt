-- ===== src/Redis/Reply/Roundtrip.antt =====
-- What a redis server writes, redis_parse_rsp reads; and an error of one word, which it does not.
use twemproxy.Common.{
  ℕ, ◌^◌, ◌<◌, ◌≡◌, refl, ◌∙◌, ap, List, [], ◌∷◌, ◌++◌, Bool, true, none, some, length, ◌==◌, ◌||◌,
}
use twemproxy.Message.{MsgType}
use twemproxy.Redis.Print.{print_number, print_number_lem}
use twemproxy.Redis.Parse.Steps.{cr, lf}
use twemproxy.Redis.Reply.State.{RspState, Rsp, RspMove}
use twemproxy.Redis.Reply.Steps.{
  error_words, error_type, start_step, error_step, integer_step, end_step, bulk_step,
  multibulk_step, rsp_step_in,
}
use twemproxy.Redis.Reply.Loop.{RspOutcome, rsp_continue, rsp_run, rsp_check_full, redis_parse_rsp}
use twemproxy.Redis.Reply.Resume.{rsp_run_round}
use twemproxy.Redis.Reply.Line.{IsLine, run_whole_line, run_end}
use twemproxy.Redis.Reply.Bulk.{run_bulk_len, run_skip}
use twemproxy.Redis.Reply.Elements.{run_error, run_integer}
use twemproxy.Redis.Reply.Print.{
  Element, Reply, print_reply, IsWord, IsReply, IsRead, AreLists, last_size, print_lists,
}
use twemproxy.Redis.Reply.Lists.{run_lists}

-- A response as msg_get leaves it.
abbrev pub fresh_rsp : Rsp
fresh_rsp = record {
  state = RspState.start;
  token = none;
  narg = 0;
  rnarg = 0;
  rlen = 0;
  integer = 0;
  type = MsgType.unknown;
}

-- A response of the type `t` in the state `s`.
abbrev pub typed : RspState → MsgType → Rsp
typed s t = record fresh_rsp { state = s; type = t }

-- The first byte tells the type, and is read again.
run_start :
    (sign : ℕ) (s : RspState) (t : MsgType) (x : List ℕ)
    → start_step fresh_rsp sign x ≡ RspMove.go (typed s t) (sign ∷ x)
    → rsp_run fresh_rsp (sign ∷ x) ≡ rsp_run (typed s t) (sign ∷ x)
unfolding rsp_step_in
run_start sign s t x is_start = rsp_run_round fresh_rsp sign x ∙ ap (rsp_continue rsp_run) is_start

Reads : Reply → List ℕ → Type 0
Reads reply rest =
    (r : Rsp) × (rsp_run fresh_rsp (print_reply reply rest) ≡ RspOutcome.ok r rest) × IsRead reply r

-- An error up to the end of its first word.
run_first_word :
    (word : List ℕ) (stop : ℕ) (x : List ℕ)
    → IsWord word
    → (stop == b' ' || stop == cr) ≡ true
    → rsp_run fresh_rsp (b'-' ∷ word ++ stop ∷ x)
      ≡ rsp_run
          (typed RspState.runto_crlf (error_type MsgType.rsp_redis_error error_words (b'-' ∷ word)))
          x
unfolding rsp_step_in error_step start_step
run_first_word word stop x plain stops =
    run_start b'-' RspState.error MsgType.rsp_redis_error (word ++ stop ∷ x) refl
    ∙ rsp_run_round (typed RspState.error MsgType.rsp_redis_error) b'-' (word ++ stop ∷ x)
    ∙ run_error (typed RspState.error MsgType.rsp_redis_error) (b'-' ∷ []) word stop x plain stops

-- An integer behind its sign.
run_digits :
    (n : ℕ) (rest : List ℕ)
    → n < 2 ^ 32
    → rsp_run
        (typed RspState.integer_start MsgType.rsp_redis_integer)
        (print_number n ++ cr ∷ lf ∷ rest)
      ≡ RspOutcome.ok (record (typed RspState.start MsgType.rsp_redis_integer) { integer = n }) rest
unfolding rsp_step_in integer_step
run_digits n rest small =
    let spelled = print_number_lem n small in
    let ds = print_number n in
    let r = typed RspState.integer_start MsgType.rsp_redis_integer in
    run_integer r ds (cr ∷ lf ∷ rest) 0 (spelled.0)
    ∙ ap (λ k. rsp_run (record r { integer = k }) (cr ∷ lf ∷ rest)) (spelled.1)
    ∙ rsp_run_round (record r { integer = n }) cr (lf ∷ rest)
    ∙ run_end (record r { integer = n }) none rest

-- The sign of an integer, which is read twice.
run_colon :
    (x : List ℕ)
    → rsp_run fresh_rsp (b':' ∷ x)
      ≡ rsp_run (typed RspState.integer_start MsgType.rsp_redis_integer) x
unfolding rsp_step_in start_step
run_colon x =
    run_start b':' RspState.integer MsgType.rsp_redis_integer x refl
    ∙ rsp_run_round (typed RspState.integer MsgType.rsp_redis_integer) b':' x

read_integer : (n : ℕ) (rest : List ℕ) → n < 2 ^ 32 → Reads (Reply.integer n) rest
unfolding Reads print_reply
read_integer n rest small = (
  record (typed RspState.start MsgType.rsp_redis_integer) { integer = n },
  run_colon (print_number n ++ cr ∷ lf ∷ rest) ∙ run_digits n rest small,
  (refl, refl),
)

read_negative : (n : ℕ) (rest : List ℕ) → n < 2 ^ 32 → Reads (Reply.negative n) rest
unfolding Reads print_reply rsp_step_in integer_step
read_negative n rest small =
    let x = print_number n ++ cr ∷ lf ∷ rest in
    (
      record (typed RspState.start MsgType.rsp_redis_integer) { integer = n },
      run_colon (b'-' ∷ x)
          ∙ rsp_run_round (typed RspState.integer_start MsgType.rsp_redis_integer) b'-' x
          ∙ run_digits n rest small,
      (refl, refl),
    )

read_bulk : (bytes rest : List ℕ) → length bytes < 2 ^ 32 → Reads (Reply.bulk bytes) rest
unfolding Reads print_reply rsp_step_in start_step end_step
read_bulk bytes rest small =
    let r = typed RspState.bulk MsgType.rsp_redis_bulk in
    let x = bytes ++ cr ∷ lf ∷ rest in
    (
      record r { state = RspState.start },
      run_start b'$' RspState.bulk MsgType.rsp_redis_bulk
            (print_number (length bytes) ++ cr ∷ lf ∷ x) refl
          ∙ run_bulk_len r (length bytes) x small
          ∙ run_skip r RspState.bulk_arg RspState.bulk_arg_lf bytes (lf ∷ rest) (λ n ch after. refl)
          ∙ rsp_run_round (record r { state = RspState.bulk_arg_lf }) lf rest,
      refl,
    )

read_null : (rest : List ℕ) → Reads Reply.null_bulk rest
unfolding Reads print_reply rsp_step_in start_step bulk_step
read_null rest =
    let r = typed RspState.bulk MsgType.rsp_redis_bulk in
    (
      record r { state = RspState.start },
      run_start b'$' RspState.bulk MsgType.rsp_redis_bulk (b'-' ∷ b'1' ∷ cr ∷ lf ∷ rest) refl
          ∙ rsp_run_round r b'$' (b'-' ∷ b'1' ∷ cr ∷ lf ∷ rest)
          ∙ rsp_run_round (record r { token = some (b'$' ∷ []) }) b'-' (b'1' ∷ cr ∷ lf ∷ rest)
          ∙ run_whole_line r (some (b'$' ∷ b'-' ∷ [])) (b'1' ∷ []) rest (refl, tt),
      refl,
    )

read_multibulk :
    (es : List Element) (lists : List (List Element)) (rest : List ℕ)
    → AreLists (es ∷ lists)
    → Reads (Reply.multibulk es lists) rest
unfolding Reads print_reply print_lists start_step
read_multibulk es lists rest are =
    let r = typed RspState.multibulk MsgType.rsp_redis_multibulk in
    let all = run_lists r es lists rest are in
    (
      record r { state = RspState.start; narg = last_size es lists; rlen = all.0 },
      run_start b'*' RspState.multibulk MsgType.rsp_redis_multibulk _ refl ∙ all.1,
      (refl, refl),
    )

read_null_multibulk : (rest : List ℕ) → Reads Reply.null_multibulk rest
unfolding Reads print_reply rsp_step_in start_step multibulk_step
read_null_multibulk rest =
    let r = typed RspState.multibulk MsgType.rsp_redis_multibulk in
    (
      record r { state = RspState.start },
      run_start b'*' RspState.multibulk MsgType.rsp_redis_multibulk (b'-' ∷ b'1' ∷ cr ∷ lf ∷ rest)
            refl
          ∙ rsp_run_round r b'*' (b'-' ∷ b'1' ∷ cr ∷ lf ∷ rest)
          ∙ rsp_run_round (record r { token = some (b'*' ∷ []) }) b'-' (b'1' ∷ cr ∷ lf ∷ rest)
          ∙ run_whole_line r (some (b'*' ∷ b'-' ∷ [])) (b'1' ∷ []) rest (refl, tt),
      refl,
    )

read_reply : (reply : Reply) (rest : List ℕ) → IsReply reply → Reads reply rest
unfolding Reads print_reply rsp_step_in start_step
read_reply (Reply.status line) rest plain = (
  typed RspState.start MsgType.rsp_redis_status,
  run_start b'+' RspState.status MsgType.rsp_redis_status (line ++ cr ∷ lf ∷ rest) refl
      ∙ rsp_run_round (typed RspState.status MsgType.rsp_redis_status) b'+' (line ++ cr ∷ lf ∷ rest)
      ∙ run_whole_line (typed RspState.status MsgType.rsp_redis_status) none line rest plain,
  refl,
)
read_reply (Reply.error word line) rest (is_word, plain) = (
  typed RspState.start (error_type MsgType.rsp_redis_error error_words (b'-' ∷ word)),
  run_first_word word b' ' (line ++ cr ∷ lf ∷ rest) is_word refl
      ∙ run_whole_line
          (typed RspState.start (error_type MsgType.rsp_redis_error error_words (b'-' ∷ word))) none
          line rest plain,
  refl,
)
read_reply (Reply.integer n) rest small = read_integer n rest small
read_reply (Reply.negative n) rest small = read_negative n rest small
read_reply (Reply.bulk bytes) rest small = read_bulk bytes rest small
read_reply Reply.null_bulk rest h = read_null rest
read_reply Reply.null_multibulk rest h = read_null_multibulk rest
read_reply (Reply.multibulk es lists) rest are = read_multibulk es lists rest are

-- The parser reads these responses: the line of a status; an error of a word, a space and a line; an
-- integer, with a minus or without; a string or an absent one; an absent multi bulk; and a multi bulk of
-- strings, absent strings and lines, with another such multi bulk as its last element or without. Lines
-- hold no carriage return, and all numbers are below 2 ^ 32. The bytes `rest` behind the response are
-- left. The type is that of the response, of an error by its first word; the digits of an integer are
-- kept, without its sign, and of a multi bulk the number of elements of the innermost list. It says
-- nothing of an error of one word, nor of a multi bulk with more elements behind a nested one.
pub redis_parse_rsp-print_reply :
    (full : Bool) (reply : Reply) (rest : List ℕ)
    → IsReply reply
    → (r : Rsp) × (redis_parse_rsp full fresh_rsp (print_reply reply rest) ≡ RspOutcome.ok r rest)
      × IsRead reply r
unfolding redis_parse_rsp Reads
redis_parse_rsp-print_reply full reply rest is_reply =
    let h = read_reply reply rest is_reply in (h.0, ap (rsp_check_full full) (h.1), h.2)

-- An error of one word hides the response behind it. Where the line of an error has no space, its
-- carriage return is taken for the end of the word and another is looked for: a line `next` that comes
-- behind the error, as another response, is taken with it, and only what is behind that is left.
pub error-hides :
    (full : Bool) (word next rest : List ℕ)
    → IsWord word
    → IsLine next
    → redis_parse_rsp full fresh_rsp (b'-' ∷ word ++ cr ∷ lf ∷ (next ++ cr ∷ lf ∷ rest))
      ≡ RspOutcome.ok
          (typed RspState.start (error_type MsgType.rsp_redis_error error_words (b'-' ∷ word)))
          rest
unfolding redis_parse_rsp
error-hides full word next rest is_word plain = ap (rsp_check_full full) (
    run_first_word word cr (lf ∷ next ++ cr ∷ lf ∷ rest) is_word refl
    ∙ run_whole_line
        (typed RspState.start (error_type MsgType.rsp_redis_error error_words (b'-' ∷ word))) none
        (lf ∷ next) rest (refl, plain))
