-- ===== src/Dist/Census.antt =====
-- The first loop of ketama_update, modula_update and random_update: which servers are live.
use twemproxy.Common.{
  ℕ, ◌+◌, List, [], ◌∷◌, map, Bool, not, ◌||◌, ◌==◌, ltb, leb, if◌then◌else◌, u32,
}
use twemproxy.Server.{Server, ServerPool}

-- What the loop adds up. `random_update` has no use for the weight.
pub record Census : Type 0 where
  pub nlive_server : ℕ
  pub total_weight : ℕ
  pub next_rebuild : ℕ

abbrev pub no_census : Census
no_census = record { nlive_server = 0; total_weight = 0; next_rebuild = 0 }

-- The servers that the loops over the continuum do not skip.
abbrev pub is_live : Bool → ℕ → Server → Bool
is_live auto_eject now s = not auto_eject || leb s.next_retry now

-- The write to `next_retry`.
unfoldable pub revive : Bool → ℕ → Server → Server
revive auto_eject now s =
    if auto_eject then (if leb s.next_retry now then record s { next_retry = 0 } else s) else s

-- The counters of one round.
unfoldable pub count_server : Bool → ℕ → Server → Census → Census
count_server auto_eject now s t =
    if auto_eject
    then (if leb s.next_retry now
        then record t { nlive_server = u32 (t.nlive_server + 1) }
        else (if t.next_rebuild == 0 || ltb s.next_retry t.next_rebuild
            then record t { next_rebuild = s.next_retry }
            else t))
    else record t { nlive_server = u32 (t.nlive_server + 1) }

-- The weight, counted after `next_retry` may have been written.
unfoldable pub weigh_server : Bool → ℕ → Server → Census → Census
weigh_server auto_eject now s t =
    if not auto_eject || leb s.next_retry now
    then record t { total_weight = u32 (t.total_weight + s.weight) }
    else t

unfoldable pub census : Bool → ℕ → List Server → Census → Census
census auto_eject now [] t = t
census auto_eject now (s ∷ servers) t =
    census auto_eject now servers
      (weigh_server auto_eject now (revive auto_eject now s) (count_server auto_eject now s t))

unfoldable pub revive_all : Bool → ℕ → List Server → List Server
revive_all auto_eject now servers = map (revive auto_eject now) servers

-- The pool after the loop, and the writes of `nlive_server` behind it.
abbrev pub pool_census : ℕ → ServerPool → Census
pool_census now pool = census pool.auto_eject_hosts now pool.server no_census

abbrev pub counted : ℕ → ServerPool → ServerPool
counted now pool =
    let t = pool_census now pool in
    record pool {
      server = revive_all pool.auto_eject_hosts now pool.server;
      next_rebuild = t.next_rebuild;
      nlive_server = t.nlive_server;
    }
