-- ===== src/Pool/Retry.antt =====
-- An ejected server is tried again: server_pool_update of src/nc_server.c.
use twemproxy.Common.{
  ℕ, zero, suc, ◌<◌, ◌≤◌, ◌≡◌, ◌∙◌, ap, arith, some_inj, List, [], ◌∷◌, Bool, true, false, inl, inr,
  some, get_elem?, All, leb, ◌==◌,
}
use mathlib.Core.Path.{subst}
use twemproxy.Server.{Status, Server, ServerPool}
use twemproxy.Dist.Census.{is_live, revive}
use twemproxy.Dist.Ketama.{Calls}
use twemproxy.Dist.Routes.Defs.{Updated}
use twemproxy.Pool.Eject.{get_elem?-revive_all}
use twemproxy.Pool.Route.{server_pool_run, server_pool_update}

All-get_elem? {ℓ} :
    {A : Type ℓ} (P : A → Type 0) (xs : List A) (i : ℕ) (x : A)
    → All P xs
    → get_elem? xs i ≡ some x
    → P x
All-get_elem? P [] i x h e = cc
All-get_elem? P (y ∷ xs) zero x h e = subst P (some_inj e) h.0
All-get_elem? P (y ∷ xs) (suc i) x h e = All-get_elem? P xs i x h.1 e

-- Take a pool as an update at the time `t` leaves it, and a server that the update found ejected.
-- If the pool ejects servers, then once the retry time of the server is past, the next
-- server_pool_update updates the continuum, and the server is unchanged and live at that update.
pub server_pool_update_retries :
    (calls : Calls) (R : ServerPool → Type 0) (per total t now later i : ℕ) (allocates again : Bool)
    (before pool : ServerPool) (status : Status) (s : Server)
    → Updated R per total t allocates before (status, pool)
    → before.auto_eject_hosts ≡ true
    → get_elem? before.server i ≡ some s
    → is_live true t s ≡ false
    → s.next_retry < now
    → now ≤ later
    → (server_pool_update calls (some now) (record { now = some later; allocates = again }) pool
        ≡ server_pool_run calls (record { now = some later; allocates = again }) pool)
      × (get_elem? pool.server i ≡ some s)
      × (is_live pool.auto_eject_hosts later s ≡ true)
unfolding server_pool_update
server_pool_update_retries calls R per total t now later i allocates again before pool status s h on
      there dead due after =
    (
      elim h.rebuild [
        | inl none_dead ↦
            let live = All-get_elem? _ before.server i s none_dead.1 there in
            absurd (ground (arith, live, dead, on))
        | inr next ↦
            let early = All-get_elem? _ before.server i s next.1 there in
            let set_ : t < pool.next_rebuild = next.0 in
            let le : pool.next_rebuild ≤ s.next_retry = ground (arith, early, dead, on) in
            let not_zero : (pool.next_rebuild == 0) ≡ false = ground arith in
            let past : leb now pool.next_rebuild ≡ false = ground arith in
            simp (auto, not_zero, past)
      ],
      rw (h.revived, on)
          (get_elem?-revive_all true t i before.server s there
            ∙ ap some (unfold revive in ground arith)),
      ground (arith, due, after),
    )
  where
    auto : pool.auto_eject_hosts ≡ true
    auto = ap (λ c. c.8) h.configured ∙ on
