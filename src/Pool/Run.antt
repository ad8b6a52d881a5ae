-- ===== src/Pool/Run.antt =====
-- server_pool_run of src/nc_server.c, for every distribution.
use twemproxy.Common.{
  ℕ, ◌+◌, ◌^◌, ◌<◌, ◌≤◌, ◌≡◌, arith, Bool, inl, inr, Option, none, some, Returns, take, All,
}
use twemproxy.Server.{Status, ServerPool, DistType}
use twemproxy.Dist.Fill.{live_sum}
use twemproxy.Dist.Ketama.{Calls}
use twemproxy.Dist.Search.{IsAscending}
use twemproxy.Dist.Share.{IsShare}
use twemproxy.Dist.Sort.{IsSort}
use twemproxy.Dist.Routes.Defs.{IsRouted, IsAllocated, Updated}
use twemproxy.Dist.Routes.Ketama.{IsRing, ring_points_of, ketama_update-Updated}
use twemproxy.Dist.Routes.Modula.{IsWeighted, modula_update-Updated}
use twemproxy.Dist.Routes.Random.{IsUniform, random_update-Updated}
use twemproxy.Pool.Route.{run_update, server_pool_run}

-- What the calls of the C library and of MD5 are relied on for.
pub record IsCalls (calls : Calls) : Type 0 where
  pub sorts : IsSort calls.qsort
  pub shares : IsShare calls.share

-- The points that the array holds for each server that it is allocated for.
abbrev pub per_server : DistType → ℕ
per_server DistType.ketama = 160
per_server DistType.modula = 1
per_server DistType.random = 1

-- A pool that can be updated at the time `now`: the array is as large as the counter says, the
-- weights are positive, and the live servers are few and light enough for 32 bits.
pub record CanRun (now : ℕ) (pool : ServerPool) : Type 0 where
  pub alloc : IsAllocated (per_server pool.dist_type) pool
  pub heavy : All (λ s. 0 < s.weight) pool.server
  pub few : live_sum pool.auto_eject_hosts now (λ _. 1) pool.server ≤ 25000
  pub light : live_sum pool.auto_eject_hosts now (λ s. s.weight) pool.server + 10 < 2 ^ 32

-- The continuum serves a distribution: live servers only, and ascending values for ketama.
pub record Serves (now : ℕ) (d : DistType) (pool : ServerPool) : Type 0 where
  pub routed : IsRouted now pool
  pub ascending : d ≡ DistType.ketama → IsAscending (take pool.ncontinuum pool.continuum)

-- The number of points that an update leaves.
abbrev pub total_points : Calls → ℕ → ServerPool → DistType → ℕ
total_points calls now pool DistType.ketama = ring_points_of calls now pool
total_points calls now pool DistType.modula =
    live_sum pool.auto_eject_hosts now (λ s. s.weight) pool.server
total_points calls now pool DistType.random =
    live_sum pool.auto_eject_hosts now (λ _. 1) pool.server

modula≢ketama : DistType.modula ≡ DistType.ketama → ⊥
modula≢ketama e = cc

random≢ketama : DistType.random ≡ DistType.ketama → ⊥
random≢ketama e = cc

Updated-map :
    (R S : ServerPool → Type 0) (per total now : ℕ) (allocates : Bool) (pool : ServerPool)
    (m : Option (Status × ServerPool))
    → ((p : ServerPool) → R p → S p)
    → Returns m (Updated R per total now allocates pool)
    → Returns m (Updated S per total now allocates pool)
Updated-map R S per total now allocates pool none f h = h
Updated-map R S per total now allocates pool (some result) f h = record {
  revived = h.revived;
  nlive = h.nlive;
  rebuild = h.rebuild;
  allocated = h.allocated;
  configured = h.configured;
  outcome = elim h.outcome [
    | inl x ↦ inl x
    | inr (inl x) ↦ inr (inl (x.0, x.1, f result.1 x.2, x.3))
    | inr (inr x) ↦ inr (inr x)
  ];
}

-- With the C library as it is documented, a continuum as it was allocated, positive weights, at most
-- 25,000 live servers and no overflow of the total weight: server_pool_run does nothing undefined
-- and leaves the pool as the update of its distribution does.
pub server_pool_run-Updated :
    (calls : Calls) (now : ℕ) (allocates : Bool) (pool : ServerPool)
    → IsCalls calls
    → CanRun now pool
    → Returns (server_pool_run calls (record { now = some now; allocates = allocates }) pool) (
        Updated
          (Serves now pool.dist_type)
          (per_server pool.dist_type)
          (total_points calls now pool pool.dist_type)
          now
          allocates
          pool)
unfolding server_pool_run
server_pool_run-Updated calls now allocates pool lib can = by_type pool.dist_type can.alloc
  where
    by_type :
        (d : DistType)
        → IsAllocated (per_server d) pool
        → Returns (run_update calls (record { now = some now; allocates = allocates }) pool d) (
            Updated
              (Serves now d)
              (per_server d)
              (total_points calls now pool d)
              now
              allocates
              pool)
    by_type DistType.ketama alloc =
        unfold run_update in
        Updated-map (IsRing now) (Serves now DistType.ketama) 160 _ now allocates pool _
          (λ p ring. record { routed = ring.routed; ascending = λ _. ring.ascending })
          (ketama_update-Updated calls lib.sorts lib.shares now allocates pool alloc can.heavy
            can.few (omega (arith, can.light)))
    by_type DistType.modula alloc =
        unfold run_update in
        Updated-map (IsWeighted now) (Serves now DistType.modula) 1 _ now allocates pool _
          (λ p weighted. record {
            routed = weighted.routed;
            ascending = λ e. absurd (modula≢ketama e);
          })
          (modula_update-Updated now allocates pool alloc (omega (arith, can.few)) can.light)
    by_type DistType.random alloc =
        unfold run_update in
        Updated-map (IsUniform now) (Serves now DistType.random) 1 _ now allocates pool _
          (λ p uniform. record {
            routed = uniform.routed;
            ascending = λ e. absurd (random≢ketama e);
          })
          (random_update-Updated now allocates pool alloc (omega (arith, can.few)))
