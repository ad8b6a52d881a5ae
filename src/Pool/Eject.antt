-- ===== src/Pool/Eject.antt =====
-- Ejection and recovery: server_failure, server_ok and server_pool_update of src/nc_server.c.
use twemproxy.Common.{
  ℕ, zero, suc, ◌+◌, ◌^◌, ◌<◌, ◌≤◌, ◌≡◌, ◌≢◌, refl, ◌∙◌, ap, arith, List, [], ◌∷◌, Bool, true,
  false, ◌&&◌, inl, inr, ◌⊎◌, Option, some, ◌>>=◌, Returns, Returns->>=, ltb, u32, get_elem?, set,
  length, take, All,
}
use twemproxy.Server.{Status, Server, Continuum, ServerPool}
use twemproxy.Dist.Census.{revive, revive_all}
use twemproxy.Dist.Ketama.{Calls}
use twemproxy.Dist.Routes.Defs.{IsLivePoint, Updated}
use twemproxy.Pool.Run.{IsCalls, CanRun, Serves, per_server, total_points, server_pool_run-Updated}
use twemproxy.Pool.Route.{Moment, server_pool_run}
use twemproxy.Pool.Failure.{ServerRef, Stat, deref, assign, is_master, eject, server_failure}

pub get_elem?-set_self {ℓ} :
    {A : Type ℓ} (xs : List A) (i : ℕ) (v w : A)
    → get_elem? xs i ≡ some w
    → get_elem? (set xs i v) i ≡ some v
get_elem?-set_self [] i v w h = cc
get_elem?-set_self (x ∷ xs) zero v w h = refl
get_elem?-set_self (x ∷ xs) (suc i) v w h = get_elem?-set_self xs i v w h

pub set-set {ℓ} : {A : Type ℓ} (xs : List A) (i : ℕ) (v w : A) → set (set xs i v) i w ≡ set xs i w
set-set [] i v w = refl
set-set (x ∷ xs) zero v w = refl
set-set (x ∷ xs) (suc i) v w = ap (λ t. x ∷ t) (set-set xs i v w)

and_no : (b : Bool) → (b && false) ≡ false
and_no true = refl
and_no false = refl

-- The redis master and the servers of a pool that ejects no hosts are left alone.
server_failure_spared :
    (calls : Calls) (now : Option ℕ) (later : Moment) (pool : ServerPool) (ref : ServerRef)
    → (pool.auto_eject_hosts ≡ false)
      ⊎ ((pool.redis ≡ true) × (0 < length pool.redis_master) × (is_master ref ≡ true))
    → server_failure calls now later pool ref ≡ some (pool, [])
unfolding server_failure
server_failure_spared calls now later pool ref (inl off) = rw off
server_failure_spared calls now later pool ref (inr m) = ground arith

-- Below the limit a failure is counted and nothing else changes.
pub server_failure_below :
    (calls : Calls) (now : Option ℕ) (later : Moment) (pool : ServerPool) (i : ℕ) (s : Server)
    → pool.auto_eject_hosts ≡ true
    → get_elem? pool.server i ≡ some s
    → s.failure_count + 1 < pool.server_failure_limit
    → pool.server_failure_limit < 2 ^ 32
    → server_failure calls now later pool (ServerRef.in_pool i)
      ≡ some (
        record pool {
          server = set pool.server i (record s { failure_count = s.failure_count + 1 });
        },
        [],
      )
unfolding server_failure deref assign is_master
server_failure_below calls now later pool i s on there below small =
    let exact : u32 (s.failure_count + 1) ≡ s.failure_count + 1 = omega arith in
    let less : ltb (s.failure_count + 1) pool.server_failure_limit ≡ true = ground arith in
    simp (on, there, exact, less, and_no)

-- At the limit the count is reset, the retry is set, and the pool is updated.
server_failure_ejects :
    (calls : Calls) (now : ℕ) (later : Moment) (pool : ServerPool) (i : ℕ) (s : Server)
    → pool.auto_eject_hosts ≡ true
    → get_elem? pool.server i ≡ some s
    → pool.server_failure_limit ≤ s.failure_count + 1
    → s.failure_count + 1 < 2 ^ 32
    → server_failure calls (some now) later pool (ServerRef.in_pool i) ≡ (
        server_pool_run calls later (record pool {
          server =
              set pool.server i
                (record s { failure_count = 0; next_retry = now + pool.server_retry_timeout });
        })
        >>= λ (status, pool').
            some
              (pool', Stat.server_ejected_at (ServerRef.in_pool i) now ∷ Stat.server_ejects ∷ []))
unfolding server_failure deref assign is_master eject
server_failure_ejects calls now later pool i s on there reached small =
    let exact : u32 (s.failure_count + 1) ≡ s.failure_count + 1 = omega arith in
    let not_less : ltb (s.failure_count + 1) pool.server_failure_limit ≡ false = ground arith in
    simp (on, there, exact, not_less, and_no, set-set)

pub get_elem?-revive_all :
    (auto_eject : Bool) (now i : ℕ) (servers : List Server) (s : Server)
    → get_elem? servers i ≡ some s
    → get_elem? (revive_all auto_eject now servers) i ≡ some (revive auto_eject now s)
unfolding revive_all
get_elem?-revive_all auto_eject now i [] s h = cc
get_elem?-revive_all auto_eject now zero (x ∷ servers) s h = ground (arith, h)
get_elem?-revive_all auto_eject now (suc i) (x ∷ servers) s h =
    get_elem?-revive_all auto_eject now i servers s h

-- The pool that server_failure hands to server_pool_run when it ejects the server `i`.
abbrev pub ejected : ServerPool → ℕ → Server → ℕ → ServerPool
ejected pool i s now = record pool {
  server =
      set pool.server i
        (record s { failure_count = 0; next_retry = now + pool.server_retry_timeout });
}

-- No key can reach the server `i`: no live server is left, or no point of the continuum is its.
abbrev pub Unrouted : ℕ → Bool → ServerPool × List Stat → Type 0
Unrouted i allocates (pool, stats) =
    (pool.nlive_server ≡ 0)
    ⊎ (allocates ≡ false)
    ⊎ All (λ p. p.index ≢ i) (take pool.ncontinuum pool.continuum)

All-map :
    {P Q : Continuum → Type 0} (points : List Continuum)
    → ((p : Continuum) → P p → Q p)
    → All P points
    → All Q points
All-map [] f h = tt
All-map (p ∷ points) f h = (f p h.0, All-map points f h.1)

point_elsewhere :
    (now i : ℕ) (before after : List Server) (auto_eject : Bool) (out : Server) (p : Continuum)
    → auto_eject ≡ true
    → get_elem? before i ≡ some out
    → now < out.next_retry
    → after ≡ revive_all true now before
    → IsLivePoint auto_eject now after p
    → p.index ≢ i
point_elsewhere now i before after auto_eject out p on there dead revived live e =
    let h : get_elem? after i ≡ some (revive true now out) =
      rw revived (get_elem?-revive_all true now i before out there) in
    let k : get_elem? after i ≡ some live.0 = rw e at (live.1) in
    let retry : (revive true now out).next_retry ≡ out.next_retry = unfold revive in ground arith in
    let same : (live.0).next_retry ≡ (revive true now out).next_retry = ground (arith, h, k) in
    absurd (ground (arith, on, live.2, same, retry))

-- In a pool that ejects servers, a server of the pool that reaches the failure limit is ejected: if
-- its retry time is not over at the update made then, that update leaves no point of it, unless no
-- server is live or the allocation failed. The count of failures is below 2 ^ 32 - 1, and the C
-- library and the pool are as server_pool_run needs them.
pub server_failure-Unrouted :
    (calls : Calls) (now later : ℕ) (allocates : Bool) (pool : ServerPool) (i : ℕ) (s : Server)
    → IsCalls calls
    → CanRun later (ejected pool i s now)
    → pool.auto_eject_hosts ≡ true
    → get_elem? pool.server i ≡ some s
    → pool.server_failure_limit ≤ s.failure_count + 1
    → s.failure_count + 1 < 2 ^ 32
    → later < now + pool.server_retry_timeout
    → Returns
        (server_failure calls
          (some now)
          (record { now = some later; allocates = allocates })
          pool
          (ServerRef.in_pool i))
        (Unrouted i allocates)
server_failure-Unrouted calls now later allocates pool i s lib can on there reached small early =
    rw (server_failure_ejects calls now _ pool i s on there reached small) (
      Returns->>=
        (Updated (Serves later pool.dist_type) (per_server pool.dist_type)
          (total_points calls later (ejected pool i s now) pool.dist_type) later allocates
          (ejected pool i s now))
        (Unrouted i allocates) _ _
        (server_pool_run-Updated calls later allocates (ejected pool i s now) lib can)
        (λ result h. unrouted result h))
  where
    out : Server
    out = record s { failure_count = 0; next_retry = now + pool.server_retry_timeout }

    unrouted :
        (result : Status × ServerPool)
        → Updated
            (Serves later pool.dist_type)
            (per_server pool.dist_type)
            (total_points calls later (ejected pool i s now) pool.dist_type)
            later
            allocates
            (ejected pool i s now)
            result
        → Unrouted i allocates
            (result.1, Stat.server_ejected_at (ServerRef.in_pool i) now ∷ Stat.server_ejects ∷ [])
    unrouted result h = elim h.outcome [
      | inl x ↦ inl x.1
      | inr (inl x) ↦ inr (
          inr (
            All-map (take (result.1).ncontinuum (result.1).continuum)
              (λ p live.
                point_elsewhere later i (ejected pool i s now).server (result.1).server
                  (result.1).auto_eject_hosts out p (ap (λ c. c.8) h.configured ∙ on)
                  (get_elem?-set_self pool.server i out s there) early (rw on at h.revived) live)
              x.2.routed.live))
      | inr (inr x) ↦ inr (inl x.1)
    ]
