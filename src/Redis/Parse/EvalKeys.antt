-- ===== src/Redis/Parse/EvalKeys.antt =====
-- The number of keys of EVAL, SW_ARG2 of redis_parse_req, at the end of a full buffer.
use twemproxy.Common.{
  ℕ, zero, suc, ◌-◌, ◌<◌, ◌≡◌, refl, ◌∙◌, ap, arith, List, [], ◌∷◌, ◌++◌, true, false, none, some,
  length, All-append, leb, ◌==◌, get_or, take, drop, length-append, get_or-append_left,
}
use twemproxy.Redis.Tables.{redis_argeval}
use twemproxy.Redis.Parse.State.{State, Req, Setup}
use twemproxy.Redis.Parse.Steps.{cr, is_digit, eval_step, has_keys, step_in}
use twemproxy.Redis.Parse.Token.{IsDigits}
use twemproxy.Redis.Parse.Loop.{Outcome, run, check_full, redis_parse_req}
use twemproxy.Redis.Parse.Rounds.{run_round}

digit_at : (ds : List ℕ) (n : ℕ) → IsDigits ds → n < length ds → (get_or ds n 0 == cr) ≡ false
digit_at [] n ok_ h = absurd (omega arith)
digit_at (d ∷ ds) zero (is_d, ok_) h = ground (arith, is_d)
digit_at (d ∷ ds) (suc n) (is_d, ok_) h = digit_at ds n ok_ (omega arith)

-- The request that is about to read a number of keys of `n` bytes.
abbrev pub reads_keys : Req → ℕ → Req
reads_keys r n = record r { state = State.arg2; token = none; rlen = n }

pub keys_end :
    (ds rest : List ℕ)
    → (leb (length (ds ++ cr ∷ rest)) (length ds) ≡ false)
      × (get_or (ds ++ cr ∷ rest) (length ds) 0 ≡ cr)
      × (take (length ds) (ds ++ cr ∷ rest) ≡ ds)
      × (drop (suc (length ds)) (ds ++ cr ∷ rest) ≡ rest)
keys_end [] rest = (ground arith, refl, refl, refl)
keys_end (d ∷ ds) rest = let h = keys_end ds rest in (ground (arith, h.0), h.1, rw (h.2) refl, h.3)

pub run_keys :
    (setup : Setup) (r : Req) (ds rest : List ℕ)
    → redis_argeval r.type ≡ true
    → has_keys ds ≡ true
    → run setup (reads_keys r (length ds)) (ds ++ cr ∷ rest)
      ≡ run setup (record r { state = State.arg2_lf; token = none; rlen = 0 }) rest
unfolding step_in eval_step
run_keys setup r [] rest eval ok_ = absurd (ground (arith, ok_))
run_keys setup r (d ∷ ds) rest eval ok_ =
    let h = keys_end (d ∷ ds) rest in
    run_round setup (reads_keys r (length (d ∷ ds))) d (ds ++ cr ∷ rest) tt
    ∙ simp (eval, h.0, h.1, h.2, h.3, ok_) refl

run_keys_part :
    (setup : Setup) (r : Req) (a b : List ℕ)
    → redis_argeval r.type ≡ true
    → 0 < length a
    → run setup (reads_keys r (length (a ++ b))) a
      ≡ Outcome.again (record r { state = State.arg2; token = some a; rlen = length b })
unfolding step_in eval_step
run_keys_part setup r [] b eval some_ = absurd (omega arith)
run_keys_part setup r (d ∷ a) b eval some_ =
    let waits : leb (length (d ∷ a)) (length ((d ∷ a) ++ b)) ≡ true =
      ground (arith, length-append (d ∷ a) b) in
    let left : length ((d ∷ a) ++ b) - length (d ∷ a) ≡ length b =
      omega (arith, length-append (d ∷ a) b) in
    run_round setup (reads_keys r (length ((d ∷ a) ++ b))) d a tt ∙ simp (eval, waits, left) refl

keys_refused :
    (setup : Setup) (r : Req) (ds rest : List ℕ) (n : ℕ)
    → redis_argeval r.type ≡ true
    → IsDigits ds
    → n < length ds
    → run setup (reads_keys r n) (ds ++ rest) ≡ Outcome.error State.arg2
unfolding step_in eval_step
keys_refused setup r [] rest n eval ok_ lt = absurd (omega arith)
keys_refused setup r (d ∷ ds) rest n eval ok_ lt =
    let fits : leb (length ((d ∷ ds) ++ rest)) n ≡ false =
      ground (arith, length-append (d ∷ ds) rest, lt) in
    run_round setup (reads_keys r n) d (ds ++ rest) tt
    ∙ simp (eval, fits, get_or-append_left (d ∷ ds) rest n 0 lt, digit_at (d ∷ ds) n ok_ lt) refl

-- EVAL's number of keys does not survive a full buffer. Let `a ++ b` be digits that spell a number of
-- keys other than 0, with `a` not empty. Read at once, with a carriage return behind, they are taken;
-- where the buffer ends behind `a`, the parser asks for a repair, but then to read `a` again from a new
-- buffer, and what follows, ends in an error.
pub eval-repair :
    (setup : Setup) (r : Req) (a b rest : List ℕ)
    → redis_argeval r.type ≡ true
    → IsDigits a
    → IsDigits b
    → 0 < length a
    → has_keys (a ++ b) ≡ true
    → (redis_parse_req setup true (reads_keys r (length (a ++ b))) ((a ++ b) ++ cr ∷ rest)
        ≡ redis_parse_req setup true
            (record r { state = State.arg2_lf; token = none; rlen = 0 })
            rest)
      × (redis_parse_req setup true (reads_keys r (length (a ++ b))) a
          ≡ Outcome.repair (reads_keys r (length b)) a)
      × (redis_parse_req setup true (reads_keys r (length b)) (a ++ b ++ cr ∷ rest)
          ≡ Outcome.error State.arg2)
unfolding redis_parse_req
eval-repair setup r a b rest eval da db some_ ok_ = (
  ap (check_full true) (run_keys setup r (a ++ b) rest eval ok_),
  ap (check_full true) (run_keys_part setup r a b eval some_),
  ap (check_full true) (
      keys_refused setup r (a ++ b) (cr ∷ rest) (length b) eval
        (All-append (λ d. is_digit d ≡ true) a b da db) (omega (arith, length-append a b, some_))),
)
