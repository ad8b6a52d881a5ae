-- ===== src/Dist/Routes/Defs.antt =====
-- A continuum that routes to live servers only, and the loop that fills one.
use twemproxy.Common.{
  ℕ, ◌+◌, ◌*◌, ◌^◌, ◌≤◌, ◌<◌, ◌≡◌, arith, List, Bool, true, false, ◌⊎◌, inl, inr, refl, ◌∙◌,
  Bool-cases, ==_iff, ◌==◌, if◌then◌else◌, Option, none, some, Returns, get_elem?, length, take,
  All,
}
use twemproxy.Server.{Status, Server, Continuum, ServerPool, DistType}
use twemproxy.Dist.Census.{is_live, revive_all, pool_census, counted, no_census}
use twemproxy.Dist.CensusLaws.{IsEarliest, census-IsEarliest, census-nlive}
use twemproxy.Dist.Cursor.{Cursor, start, for_live}
use twemproxy.Dist.Fill.{IsFilled, live_sum, for_live-IsFilled, start-IsFilled}

-- A point of a server of the pool that is not ejected at the time `now`.
abbrev pub IsLivePoint : Bool → ℕ → List Server → Continuum → Type 0
IsLivePoint auto_eject now servers p =
    (s : Server) × (get_elem? servers p.index ≡ some s) × (is_live auto_eject now s ≡ true)

-- The points in use stand in the array, and each is of a live server.
pub record IsRouted (now : ℕ) (pool : ServerPool) : Type 0 where
  pub fits : pool.ncontinuum ≤ length pool.continuum
  pub live :
      All (IsLivePoint pool.auto_eject_hosts now pool.server) (take pool.ncontinuum pool.continuum)

-- The array holds `per` points for each server that `nserver_continuum` counts.
abbrev pub IsAllocated : ℕ → ServerPool → Type 0
IsAllocated per pool =
    (pool.nserver_continuum * per ≤ length pool.continuum) × (length pool.continuum < 2 ^ 32)

-- The fields of a pool that no update of the continuum writes.
abbrev pub settings :
    ServerPool → List Server × DistType × (List ℕ → ℕ) × List ℕ × ℕ × ℕ × ℕ × Bool × Bool × Bool
settings pool = (
  pool.redis_master, pool.dist_type, pool.key_hash, pool.hash_tag, pool.server_connections,
  pool.server_retry_timeout, pool.server_failure_limit, pool.require_auth, pool.auto_eject_hosts,
  pool.redis,
)

-- How an update leaves the pool: the retries cleared, the live servers counted, the next rebuild due
-- at the first retry. Then either no server is live and the continuum stays; or `total` points
-- satisfy `R`; or there was no memory.
pub record Updated (R : ServerPool → Type 0) (per total now : ℕ) (allocates : Bool)
    (pool : ServerPool) (result : Status × ServerPool) : Type 0 where
  pub revived : (result.1).server ≡ revive_all pool.auto_eject_hosts now pool.server
  pub nlive : (result.1).nlive_server ≡ live_sum pool.auto_eject_hosts now (λ _. 1) pool.server
  pub rebuild : IsEarliest pool.auto_eject_hosts now pool.server (result.1).next_rebuild
  pub allocated : IsAllocated per (result.1)
  pub configured : settings (result.1) ≡ settings pool
  pub outcome :
      ((result.0 ≡ Status.ok)
        × ((result.1).nlive_server ≡ 0)
        × ((result.1).ncontinuum ≡ pool.ncontinuum)
        × ((result.1).continuum ≡ pool.continuum))
      ⊎ ((result.0 ≡ Status.ok)
          × (0 < (result.1).nlive_server)
          × R (result.1)
          × ((result.1).ncontinuum ≡ total))
      ⊎ ((result.0 ≡ Status.enomem) × (allocates ≡ false) × ((result.1).continuum ≡ pool.continuum))

-- A body that writes `points s` points of the server it is given fills as many in all.
pub for_live-start :
    (auto_eject : Bool) (now : ℕ) (points : Server → ℕ) (body : ℕ → Server → Cursor → Option Cursor)
    (servers : List Server) (mem : List Continuum) (cap : ℕ) (small : cap < 2 ^ 32)
    → length mem ≡ cap
    → live_sum auto_eject now points servers ≤ cap
    → ((i : ℕ) (s : Server) (n : ℕ) (c : Cursor)
        → ((value : ℕ) → IsLivePoint auto_eject now servers (record { index = i; value = value }))
        → IsFilled (IsLivePoint auto_eject now servers) cap small n n c
        → n + points s ≤ cap
        → Returns
            (body i s c)
            (IsFilled (IsLivePoint auto_eject now servers) cap small (n + points s) (n + points s)))
    → Returns (for_live auto_eject now body 0 servers (start mem)) (
        IsFilled
          (IsLivePoint auto_eject now servers)
          cap
          small
          (live_sum auto_eject now points servers)
          (live_sum auto_eject now points servers))
for_live-start auto_eject now points body servers mem cap small size room step =
    let zero_left : (k : ℕ) → 0 + k ≡ k = λ k. omega arith in
    rw zero_left at (
      for_live-IsFilled (IsLivePoint auto_eject now servers) cap small auto_eject now points body 0
        servers 0 (start mem)
        (λ j s n c there live h fits.
          rw (zero_left j) (step j s n c (λ value. (s, there, live)) h fits))
        (start-IsFilled (IsLivePoint auto_eject now servers) cap small mem size) (omega arith))

-- What a fill of the counted pool must leave.
abbrev pub Routed : (ServerPool → Type 0) → ℕ → ℕ → ℕ → ServerPool → Status × ServerPool → Type 0
Routed R per total now pool (status, pool') =
    (status ≡ Status.ok)
    × (pool'.server ≡ (counted now pool).server)
    × (pool'.nlive_server ≡ (counted now pool).nlive_server)
    × (pool'.next_rebuild ≡ (counted now pool).next_rebuild)
    × IsAllocated per pool'
    × R pool'
    × (pool'.ncontinuum ≡ total)
    × (settings pool' ≡ settings pool)

-- What the last loop leaves of a pool, whichever the distribution.
abbrev pub Filled : (ServerPool → Type 0) → ℕ → ServerPool → Status × ServerPool → Type 0
Filled R total pool (status, pool') =
    (status ≡ Status.ok)
    × (pool'.server ≡ pool.server)
    × (pool'.nlive_server ≡ pool.nlive_server)
    × (pool'.next_rebuild ≡ pool.next_rebuild)
    × (pool'.nserver_continuum ≡ pool.nserver_continuum)
    × (length pool'.continuum ≡ length pool.continuum)
    × R pool'
    × (pool'.ncontinuum ≡ total)
    × (settings pool' ≡ settings pool)

pub Filled→Routed :
    (R : ServerPool → Type 0) (per total now : ℕ) (pool q : ServerPool)
    (m : Option (Status × ServerPool))
    → q.server ≡ (counted now pool).server
    → q.nlive_server ≡ (counted now pool).nlive_server
    → q.next_rebuild ≡ (counted now pool).next_rebuild
    → IsAllocated per q
    → settings q ≡ settings pool
    → Returns m (Filled R total q)
    → Returns m (Routed R per total now pool)
Filled→Routed R per total now pool q none servers live next alloc config h = h
Filled→Routed R per total now pool q (some (status, pool')) servers live next alloc config h =
    (h.0, h.1 ∙ servers, h.2 ∙ live, h.3 ∙ next, rw (h.4, h.5) alloc, h.6, h.7, h.8 ∙ config)

-- The branches that the three updates share, `grows` being the test before the allocation.
module _ (R : ServerPool → Type 0) (per total now : ℕ) (allocates : Bool) (pool : ServerPool)
    (alloc : IsAllocated per pool)
    (few : live_sum pool.auto_eject_hosts now (λ _. 1) pool.server < 2 ^ 32) where
  nlive_counted :
      (pool_census now pool).nlive_server ≡ live_sum pool.auto_eject_hosts now (λ _. 1) pool.server
  nlive_counted =
      omega (arith, census-nlive pool.auto_eject_hosts now pool.server no_census (omega arith))

  Routed→Updated :
      0 < (pool_census now pool).nlive_server
      → (m : Option (Status × ServerPool)) → Returns m (Routed R per total now pool)
      → Returns m (Updated R per total now allocates pool)
  Routed→Updated live none h = h
  Routed→Updated live (some (status, pool')) h = record {
    revived = h.1;
    nlive = h.2 ∙ nlive_counted;
    rebuild = rw h.3 (census-IsEarliest pool.auto_eject_hosts now pool.server);
    allocated = h.4;
    configured = h.7;
    outcome = inr (inl (h.0, rw h.2 live, h.5, h.6));
  }

  pub Updated-branches :
      (grows : Bool) (grown kept : Option (Status × ServerPool))
      → (0 < (pool_census now pool).nlive_server
          → grows ≡ true
          → Returns grown (Routed R per total now pool))
      → (0 < (pool_census now pool).nlive_server
          → grows ≡ false
          → Returns kept (Routed R per total now pool))
      → Returns
          (if (pool_census now pool).nlive_server == 0
            then some (Status.ok, counted now pool)
            else (if grows
                then (if allocates then grown else some (Status.enomem, counted now pool))
                else kept))
          (Updated R per total now allocates pool)
  Updated-branches grows grown kept when_grown when_kept =
      elim (Bool-cases ((pool_census now pool).nlive_server == 0)) [
        | inl none_live ↦ rw none_live (record {
          revived = refl;
          nlive = nlive_counted;
          rebuild = census-IsEarliest pool.auto_eject_hosts now pool.server;
          allocated = alloc;
          configured = refl;
          outcome = inl (refl, (==_iff _ 0).0 none_live, refl, refl);
        })
        | inr live ↦
            let positive : 0 < (pool_census now pool).nlive_server = ground arith in
            rw live (
              by_growth positive grows allocates refl refl (when_grown positive)
                (when_kept positive))
      ]
    where
      by_growth :
          0 < (pool_census now pool).nlive_server
          → (g a : Bool) → grows ≡ g
          → allocates ≡ a
          → (g ≡ true → Returns grown (Routed R per total now pool))
          → (g ≡ false → Returns kept (Routed R per total now pool))
          → Returns
              (if g then (if a then grown else some (Status.enomem, counted now pool)) else kept)
              (Updated R per total now allocates pool)
      by_growth live true true e e' hg hk = Routed→Updated live grown (hg refl)
      by_growth live true false e e' hg hk = record {
        revived = refl;
        nlive = nlive_counted;
        rebuild = census-IsEarliest pool.auto_eject_hosts now pool.server;
        allocated = alloc;
        configured = refl;
        outcome = inr (inr (refl, e', refl));
      }
      by_growth live false a e e' hg hk = Routed→Updated live kept (hk refl)
