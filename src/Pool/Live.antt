-- ===== src/Pool/Live.antt =====
-- A continuum of live servers sends every key to a live server.
use twemproxy.Common.{
  ℕ, ◌%◌, ◌<◌, ◌≤◌, ◌≡◌, refl, sym, ap, ◌∙◌, arith, List, [], ◌∷◌, Bool, true, false, ltb,
  Bool-cases, inl, inr, Option, none, some, Returns, ◌==◌, if◌then◌else◌, get_elem?, length, take,
  All, All-get_or, length-take, get_elem?-eq-get_or,
}
use mathlib.Core.Option
use twemproxy.Server.{Server, Continuum, ServerPool, DistType}
use twemproxy.Dist.Census.{is_live}
use twemproxy.Dist.Modula.{modula_dispatch}
use twemproxy.Dist.Random.{random_dispatch}
use twemproxy.Dist.Search.{
  IsAscending, successor, owner, ketama_dispatch-owner, get_elem?-take, origin,
}
use twemproxy.Dist.Routes.Defs.{IsRouted}
use twemproxy.Pool.Route.{server_pool_hash, tagged_key, dispatch, server_pool_idx, server_pool_run}
use twemproxy.Pool.Run.{IsCalls, CanRun, Serves, server_pool_run-Updated, per_server, total_points}
use twemproxy.Dist.Ketama.{Calls}
use twemproxy.Dist.Routes.Defs.{Updated}
use twemproxy.Server.{Status}

-- The index of a server that is not ejected at the time `now`.
abbrev pub IsLiveIndex : ℕ → ServerPool → ℕ → Type 0
IsLiveIndex now pool i =
    (s : Server) × (get_elem? pool.server i ≡ some s) × (is_live pool.auto_eject_hosts now s ≡ true)

module _ (P : ℕ → Type 0) where
  successor-All :
      (hash : ℕ) (points : List Continuum) (q : Continuum)
      → All (λ p. P p.index) points
      → successor hash points ≡ some q
      → P q.index
  unfolding successor
  successor-All hash [] q h e = cc
  successor-All hash (p ∷ points) q h e = elim (Bool-cases (ltb p.value hash)) [
    | inl below ↦ successor-All hash points q h.1 (rw below at e)
    | inr here ↦ let same : p.index ≡ q.index = ground (arith, e, here) in rw (← same) h.0
  ]

  owner-All :
      (hash : ℕ) (points : List Continuum)
      → 0 < length points
      → All (λ p. P p.index) points
      → Returns (owner hash points) P
  unfolding owner
  owner-All hash [] pos h = elim pos [ ]
  owner-All hash (p ∷ points) pos h = by_successor (successor hash (p ∷ points)) refl
    where
      by_successor :
          (o : Option Continuum)
          → successor hash (p ∷ points) ≡ o
          → Returns {A = ℕ} (elim o [ none ↦ some p.index | some q ↦ some q.index ]) P
      by_successor none e = h.0
      by_successor (some q) e = successor-All hash (p ∷ points) q h e

  -- modula_dispatch and random_dispatch take one of the points in use.
  pick-All :
      (mem : List Continuum) (n k : ℕ)
      → 0 < n
      → n ≤ length mem
      → All (λ p. P p.index) (take n mem)
      → Returns (if n == 0 then none else Option.map (λ p. p.index) (get_elem? mem (k % n))) P
  pick-All mem n k pos fits h =
      let used : (n == 0) ≡ false = ground arith in
      let inside : k % n < n = omega arith in
      let len : length (take n mem) ≡ n = omega (arith, length-take n mem) in
      let there =
        sym (get_elem?-take n (k % n) mem inside)
        ∙ get_elem?-eq-get_or (take n mem) (k % n) origin (omega arith) in
      rw (used, there)
        (All-get_or (λ p. P p.index) (take n mem) (k % n) origin h (omega (arith, len)))

-- Once the pool's continuum holds points of servers live at the time `now` and no others, and at
-- least one, server_pool_idx gives the index of such a server for every key, by each distribution
-- and whatever `random` returns. The values must ascend where the distribution is ketama.
pub server_pool_idx-live :
    (drawn now : ℕ) (pool : ServerPool) (key : List ℕ)
    → IsRouted now pool
    → 0 < pool.ncontinuum
    → (pool.dist_type ≡ DistType.ketama → IsAscending (take pool.ncontinuum pool.continuum))
    → Returns (server_pool_idx drawn pool key) (IsLiveIndex now pool)
unfolding server_pool_idx
server_pool_idx-live drawn now pool key routed pos ascending =
    by_type pool.dist_type (tagged_key pool.hash_tag key) ascending
  where
    by_type :
        (d : DistType) (part : List ℕ)
        → (d ≡ DistType.ketama → IsAscending (take pool.ncontinuum pool.continuum))
        → Returns (dispatch drawn pool d part) (IsLiveIndex now pool)
    by_type DistType.ketama part sorted =
        unfold dispatch in
        rw
          (ketama_dispatch-owner pool.continuum pool.ncontinuum (server_pool_hash pool part) pos
            routed.fits (sorted refl))
          (owner-All (IsLiveIndex now pool) _ (take pool.ncontinuum pool.continuum)
            (omega (arith, length-take pool.ncontinuum pool.continuum, routed.fits)) routed.live)
    by_type DistType.modula part sorted =
        unfold dispatch modula_dispatch in
        pick-All (IsLiveIndex now pool) pool.continuum pool.ncontinuum (server_pool_hash pool part)
          pos routed.fits routed.live
    by_type DistType.random part sorted =
        unfold dispatch random_dispatch in
        pick-All (IsLiveIndex now pool) pool.continuum pool.ncontinuum drawn pos routed.fits
          routed.live

-- What a pool that was updated with success does with a key, if it has a live server and a point.
abbrev pub RoutesAll : ℕ → ℕ → List ℕ → Status × ServerPool → Type 0
RoutesAll drawn now key (status, pool) =
    status ≡ Status.ok
    → 0 < pool.nlive_server
    → 0 < pool.ncontinuum
    → Returns (server_pool_idx drawn pool key) (IsLiveIndex now pool)

ok≢enomem : Status.ok ≡ Status.enomem → ⊥
ok≢enomem e = cc

-- With the C library as it is documented, a continuum as it was allocated, positive weights, at most
-- 25,000 live servers and no overflow of the total weight: server_pool_run does nothing undefined,
-- by whichever distribution, and if it reports no error and leaves a live server and a point, then
-- every key goes to a server that is live at the time of the update.
pub server_pool_run-server_pool_idx :
    (calls : Calls) (drawn now : ℕ) (allocates : Bool) (pool : ServerPool) (key : List ℕ)
    → IsCalls calls
    → CanRun now pool
    → Returns
        (server_pool_run calls (record { now = some now; allocates = allocates }) pool)
        (RoutesAll drawn now key)
server_pool_run-server_pool_idx calls drawn now allocates pool key lib can =
    after (server_pool_run calls (record { now = some now; allocates = allocates }) pool)
      (server_pool_run-Updated calls now allocates pool lib can)
  where
    after :
        (m : Option (Status × ServerPool))
        → Returns m (
            Updated
              (Serves now pool.dist_type)
              (per_server pool.dist_type)
              (total_points calls now pool pool.dist_type)
              now
              allocates
              pool)
        → Returns m (RoutesAll drawn now key)
    after none h = h
    after (some (status, pool')) h = λ good live points. elim h.outcome [
      | inl x ↦ absurd (omega (arith, x.1))
      | inr (inl x) ↦
          let same : pool'.dist_type ≡ pool.dist_type = ap (λ s. s.1) h.configured in
          server_pool_idx-live drawn now pool' key x.2.routed points
            (λ e. x.2.ascending (sym same ∙ e))
      | inr (inr x) ↦ absurd (ok≢enomem (sym good ∙ x.0))
    ]
