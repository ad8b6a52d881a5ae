-- ===== src/Redis/Parse/LongToken.antt =====
-- A token that fills a whole buffer, in msg_recv_chain of src/nc_message.c.
use twemproxy.Common.{
  ℕ, suc, ◌+◌, ◌-◌, ◌<◌, ◌≤◌, min, ◌==◌, ==_iff, ◌≡◌, refl, ap, arith, List, [], ◌∷◌, ◌++◌, Bool,
  true, false, none, length, take, drop, take-length, drop-length,
}
use mathlib.Core.List.{append_assoc}
use twemproxy.Redis.Parse.State.{State, Req, Setup}
use twemproxy.Redis.Parse.Steps.{cr, lf, is_digit, narg_step, step_in}
use twemproxy.Redis.Parse.Token.{number, IsDigits}
use twemproxy.Redis.Parse.Loop.{Outcome, run, redis_parse_req}
use twemproxy.Redis.Parse.Rounds.{run_round}
use twemproxy.Redis.Parse.Repair.{run_narg_sign}
use twemproxy.Redis.Parse.Receive.{msg_parse, read_into, receive}
use twemproxy.Redis.Parse.Roundtrip.{fresh, run_narg_digits}

IsDigits-append : (ds : List ℕ) (d : ℕ) → IsDigits ds → is_digit d ≡ true → IsDigits (ds ++ d ∷ [])
IsDigits-append [] d are_digits is_d = (is_d, tt)
IsDigits-append (e ∷ ds) d (is_e, are_digits) is_d = (is_e, IsDigits-append ds d are_digits is_d)

digit_is_no_star : (d : ℕ) → is_digit d ≡ true → (d == b'*') ≡ false
digit_is_no_star d is_d = ground (arith, is_d)

-- The number of parts without its sign is refused.
refused :
    (setup : Setup) (full : Bool) (r : Req) (d : ℕ) (x : List ℕ)
    → is_digit d ≡ true
    → redis_parse_req setup full (record r { state = State.narg; token = none }) (d ∷ x)
      ≡ Outcome.error State.narg
unfolding redis_parse_req step_in narg_step
refused setup full r d x is_d =
    rw
      (
        run_round setup (record r { state = State.narg; token = none }) d x tt,
        digit_is_no_star d is_d,
      )
      refl

-- Whatever the next read takes of it.
read_refused :
    (setup : Setup) (next : Req → ℕ → List ℕ → List ℕ → Outcome × List ℕ) (m : ℕ) (r : Req) (d : ℕ)
    (x : List ℕ)
    → 0 < setup.mbuf_data_size
    → is_digit d ≡ true
    → (read_into setup next m (record r { state = State.narg; token = none }) 0 [] (d ∷ x)).0
      ≡ Outcome.error State.narg
unfolding read_into
read_refused setup next m r d x some_ is_d =
    let k = min (suc m) (setup.mbuf_data_size - 0) - 1 in
    let more : min (suc m) (setup.mbuf_data_size - 0) ≡ suc k = omega (arith, some_) in
    rw more (
      ap (λ o. (msg_parse next (0 + length (d ∷ take k x)) (drop k x) o).0)
        (refused setup (0 + length (d ∷ take k x) == setup.mbuf_data_size) r d (take k x) is_d))

-- The read that fills the buffer, and the repair.
read_full :
    (setup : Setup) (next : Req → ℕ → List ℕ → List ℕ → Outcome × List ℕ) (k : ℕ) (ds y : List ℕ)
    → IsDigits ds
    → suc (length ds) ≡ setup.mbuf_data_size
    → length ds ≤ k
    → read_into setup next k fresh 0 [] (b'*' ∷ ds ++ y)
      ≡ next
          (record fresh { state = State.narg; rnarg = number 0 ds })
          (suc (length ds))
          (b'*' ∷ ds)
          y
unfolding read_into redis_parse_req narg_step step_in
read_full setup next k ds y are_digits fills enough =
    let room : min (suc k) (setup.mbuf_data_size - 0) ≡ suc (length ds) = omega (arith, fills) in
    let full : (0 + suc (length ds) == setup.mbuf_data_size) ≡ true =
      (==_iff _ _).1 (omega (arith, fills)) in
    rw
      (
        room,
        take-length ds y,
        drop-length ds y,
        full,
        run_narg_sign setup fresh State.start ds refl are_digits,
      )
      refl

-- The bytes of a token that fills a whole buffer are lost. Let a request begin with a number of parts
-- other than 0, whose sign and digits but the last fill a buffer, as leading zeros may. Read at once, it is taken as a
-- request of that many parts. Where the first read fills the buffer, msg_repair moves these bytes to a
-- new one, which is full with them, the next call takes another, and the last digit, read without
-- those before it, is refused.
pub receive-long_token :
    (setup : Setup) (ds : List ℕ) (d n k m : ℕ) (sizes x : List ℕ)
    → IsDigits ds
    → is_digit d ≡ true
    → suc (length ds) ≡ setup.mbuf_data_size
    → number 0 (ds ++ d ∷ []) ≡ suc n
    → length ds ≤ k
    → (run setup fresh (b'*' ∷ ds ++ d ∷ cr ∷ lf ∷ x)
        ≡ run setup (record fresh { state = State.req_type_len; narg = suc n; rnarg = suc n }) x)
      × ((receive setup (k ∷ m ∷ sizes) fresh 0 [] (b'*' ∷ ds ++ d ∷ cr ∷ lf ∷ x)).0
          ≡ Outcome.error State.narg)
unfolding receive
receive-long_token setup ds d n k m sizes x are_digits is_d fills is_n enough = (
  rw (append_assoc ds (d ∷ []) (cr ∷ lf ∷ x)) at
      (run_narg_digits setup (ds ++ d ∷ []) n x (IsDigits-append ds d are_digits is_d) is_n),
  rw
      (
        has_room,
        read_full setup (receive setup (m ∷ sizes)) k ds (d ∷ cr ∷ lf ∷ x) are_digits fills enough,
        full,
      )
      (read_refused setup (receive setup sizes) m (record fresh { rnarg = number 0 ds }) d
        (cr ∷ lf ∷ x) (omega (arith, fills)) is_d),
)
  where
    has_room : (0 == setup.mbuf_data_size) ≡ false
    has_room = ground (arith, fills)

    full : (suc (length ds) == setup.mbuf_data_size) ≡ true
    full = (==_iff _ _).1 fills
