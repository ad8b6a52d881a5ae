-- ===== src/Pool/Streak.antt =====
-- Failures in a row: server_ok and server_failure of src/nc_server.c.
use twemproxy.Common.{
  ℕ, zero, suc, ◌+◌, ◌^◌, ◌<◌, ◌≡◌, refl, sym, ◌∙◌, ap, arith, List, [], ◌∷◌, true, Bool-cases, inl,
  inr, Option, some, some_inj, ◌>>=◌, ◌==◌, if◌then◌else◌, get_elem?, set,
}
use twemproxy.Server.{Server, ServerPool}
use twemproxy.Dist.Ketama.{Calls}
use twemproxy.Pool.Route.{Moment}
use twemproxy.Pool.Failure.{ServerRef, deref, assign, server_failure, server_ok}
use twemproxy.Pool.Eject.{server_failure_below, get_elem?-set_self, set-set}

-- `n` failures of one server, each at its own moment.
unfoldable pub failures :
    Calls → (ℕ → Option ℕ) → (ℕ → Moment) → ℕ → ServerPool → ServerRef → Option ServerPool
failures calls now later zero pool ref = some pool
failures calls now later (suc n) pool ref = failures calls now later n pool ref >>= λ pool'.
    server_failure calls (now n) (later n) pool' ref >>= λ (pool'', stats). some pool''

set-get_elem? {ℓ} :
    {A : Type ℓ} (xs : List A) (i : ℕ) (x : A) → get_elem? xs i ≡ some x → set xs i x ≡ xs
set-get_elem? [] i x h = refl
set-get_elem? (y ∷ xs) zero x h = rw (some_inj h)
set-get_elem? (y ∷ xs) (suc i) x h = ap (λ t. y ∷ t) (set-get_elem? xs i x h)

-- The pool in which the server `i` has failed `n` times since it answered.
abbrev pub failed : ServerPool → ℕ → Server → ℕ → ServerPool
failed pool i s n = record pool {
  server = set pool.server i (record s {
    failure_count = n;
    next_retry = if s.failure_count == 0 then s.next_retry else 0;
  });
}

server_ok-failed :
    (pool : ServerPool) (i : ℕ) (s : Server)
    → get_elem? pool.server i ≡ some s
    → server_ok pool (ServerRef.in_pool i) ≡ some (failed pool i s 0)
unfolding server_ok deref assign
server_ok-failed pool i s there = elim (Bool-cases (s.failure_count == 0)) [
  | inl none_failed ↦
      let zero_count : s.failure_count ≡ 0 = ground arith in
      let same : record s { failure_count = 0; next_retry = s.next_retry } ≡ s =
        ap (λ k. record s { failure_count = k }) (sym zero_count) in
      let kept : set pool.server i (record s { failure_count = 0; next_retry = s.next_retry })
          ≡ pool.server =
        ap (set pool.server i) same ∙ set-get_elem? pool.server i s there in
      simp (there, none_failed, kept)
  | inr some_failed ↦ simp (there, some_failed)
]

failures-failed :
    (calls : Calls) (now : ℕ → Option ℕ) (later : ℕ → Moment) (pool : ServerPool) (i k : ℕ)
    (s : Server)
    → pool.auto_eject_hosts ≡ true
    → get_elem? pool.server i ≡ some s
    → k < pool.server_failure_limit
    → pool.server_failure_limit < 2 ^ 32
    → failures calls now later k (failed pool i s 0) (ServerRef.in_pool i)
      ≡ some (failed pool i s k)
unfolding failures
failures-failed calls now later pool i zero s on there lt small = refl
failures-failed calls now later pool i (suc k) s on there lt small =
    let before = failures-failed calls now later pool i k s on there (omega arith) small in
    let next =
      server_failure_below calls (now k) (later k) (failed pool i s k) i _ on
        (get_elem?-set_self pool.server i _ s there) (omega arith) small in
    let one_more : k + 1 ≡ suc k = omega arith in
    simp (before, next, one_more)
      (ap (λ servers. some (record pool { server = servers })) (set-set pool.server i _ _))

-- In a pool that ejects servers, with a limit below 2 ^ 32: after server_ok on a server of the pool,
-- fewer failures in a row than the limit are counted and change nothing else, whatever it had failed
-- before.
pub server_ok-failures :
    (calls : Calls) (now : ℕ → Option ℕ) (later : ℕ → Moment) (pool : ServerPool) (i n : ℕ)
    (s : Server)
    → pool.auto_eject_hosts ≡ true
    → get_elem? pool.server i ≡ some s
    → n < pool.server_failure_limit
    → pool.server_failure_limit < 2 ^ 32
    → (server_ok pool (ServerRef.in_pool i) >>= λ pool'.
        failures calls now later n pool' (ServerRef.in_pool i))
      ≡ some (failed pool i s n)
server_ok-failures calls now later pool i n s on there below small =
    rw (server_ok-failed pool i s there)
      (failures-failed calls now later pool i n s on there below small)
