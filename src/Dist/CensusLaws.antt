-- ===== src/Dist/CensusLaws.antt =====
-- What the first loop of the updates finds.
use twemproxy.Common.{
  ℕ, suc, ◌+◌, ◌^◌, ◌≤◌, ◌<◌, ◌≡◌, ◌≢◌, refl, sym, ◌∙◌, arith, List, [], ◌∷◌, Bool, true, false,
  Bool-cases, ◌⊎◌, inl, inr, some, if◌then◌else◌, u32, get_elem?, All,
}
use twemproxy.Server.{Server}
use twemproxy.Dist.Census.{
  Census, no_census, is_live, revive, count_server, weigh_server, census, revive_all,
}
use twemproxy.Dist.Fill.{live_sum}

pub is_live-revive :
    (auto_eject : Bool) (now : ℕ) (s : Server)
    → is_live auto_eject now (revive auto_eject now s) ≡ is_live auto_eject now s
unfolding revive
is_live-revive auto_eject now s = ground arith

-- A sum over what `revive` leaves alone.
pub live_sum-revive_all :
    (auto_eject : Bool) (now : ℕ) (f : Server → ℕ) (servers : List Server)
    → ((s : Server) → f (revive auto_eject now s) ≡ f s)
    → live_sum auto_eject now f (revive_all auto_eject now servers)
      ≡ live_sum auto_eject now f servers
unfolding live_sum revive_all
live_sum-revive_all auto_eject now f [] same = refl
live_sum-revive_all auto_eject now f (s ∷ servers) same =
    rw (is_live-revive auto_eject now s, same s, live_sum-revive_all auto_eject now f servers same)

-- One round adds a live server to the counts and leaves them at a dead one.
abbrev pub round : Bool → ℕ → Server → Census → Census
round auto_eject now s t =
    weigh_server auto_eject now (revive auto_eject now s) (count_server auto_eject now s t)

round_counts :
    (auto_eject : Bool) (now : ℕ) (s : Server) (t : Census)
    → ((round auto_eject now s t).nlive_server
        ≡ u32 (t.nlive_server + (if is_live auto_eject now s then 1 else 0)))
      ⊎ ((is_live auto_eject now s ≡ false)
          × ((round auto_eject now s t).nlive_server ≡ t.nlive_server))
round_counts auto_eject now s t = unfold revive count_server weigh_server in ground arith

round_weighs :
    (auto_eject : Bool) (now : ℕ) (s : Server) (t : Census)
    → ((round auto_eject now s t).total_weight
        ≡ u32 (t.total_weight + (if is_live auto_eject now s then s.weight else 0)))
      ⊎ ((is_live auto_eject now s ≡ false)
          × ((round auto_eject now s t).total_weight ≡ t.total_weight))
round_weighs auto_eject now s t = unfold revive count_server weigh_server in ground arith

-- Without overflow the loop counts the live servers and adds up their weights.
pub census-nlive :
    (auto_eject : Bool) (now : ℕ) (servers : List Server) (t : Census)
    → t.nlive_server + live_sum auto_eject now (λ _. 1) servers < 2 ^ 32
    → (census auto_eject now servers t).nlive_server
      ≡ t.nlive_server + live_sum auto_eject now (λ _. 1) servers
unfolding census live_sum
census-nlive auto_eject now [] t small = omega arith
census-nlive auto_eject now (s ∷ servers) t small =
    let n : (round auto_eject now s t).nlive_server
        ≡ t.nlive_server + (if is_live auto_eject now s then 1 else 0) =
      ground (arith, round_counts auto_eject now s t) in
    omega
      (arith, n, census-nlive auto_eject now servers (round auto_eject now s t) (omega (arith, n)))

pub census-total :
    (auto_eject : Bool) (now : ℕ) (servers : List Server) (t : Census)
    → t.total_weight + live_sum auto_eject now (λ s. s.weight) servers < 2 ^ 32
    → (census auto_eject now servers t).total_weight
      ≡ t.total_weight + live_sum auto_eject now (λ s. s.weight) servers
unfolding census live_sum
census-total auto_eject now [] t light = omega arith
census-total auto_eject now (s ∷ servers) t light =
    let w : (round auto_eject now s t).total_weight
        ≡ t.total_weight + (if is_live auto_eject now s then s.weight else 0) =
      ground (arith, round_weighs auto_eject now s t) in
    omega
      (arith, w, census-total auto_eject now servers (round auto_eject now s t) (omega (arith, w)))

-- `r` is the earliest retry of the servers that are not live, or 0 if all are live.
abbrev pub IsEarliest : Bool → ℕ → List Server → ℕ → Type 0
IsEarliest auto_eject now servers r =
    ((r ≡ 0) × All (λ s. is_live auto_eject now s ≡ true) servers)
    ⊎ ((now < r)
        × All (λ s. (is_live auto_eject now s ≡ true) ⊎ (r ≤ s.next_retry)) servers
        × (i : ℕ) × (s : Server) × (get_elem? servers i ≡ some s)
        × (s.next_retry ≡ r)
        × (is_live auto_eject now s ≡ false))

-- What one round does to `next_rebuild`.
round_live :
    (auto_eject : Bool) (now : ℕ) (s : Server) (t : Census)
    → is_live auto_eject now s ≡ true
    → (round auto_eject now s t).next_rebuild ≡ t.next_rebuild
round_live auto_eject now s t live = unfold revive count_server weigh_server in ground arith

abbrev Lowers : ℕ → ℕ → ℕ → Type 0
Lowers old retry new =
    (new ≤ retry) × ((old ≡ 0) ⊎ (new ≤ old)) × ((new ≡ old) ⊎ (new ≡ retry)) × (new ≢ 0)

round_dead :
    (auto_eject : Bool) (now : ℕ) (s : Server) (t : Census)
    → is_live auto_eject now s ≡ false
    → Lowers t.next_rebuild s.next_retry (round auto_eject now s t).next_rebuild
round_dead auto_eject now s t dead =
    unfold revive count_server weigh_server in
    (ground arith, ground arith, ground arith, λ e. ground arith)

-- A server of the list that is not live and has the retry time `r`.
abbrev DeadUntil : Bool → ℕ → List Server → ℕ → Type 0
DeadUntil auto_eject now servers r =
    (i : ℕ) × (s : Server) × (get_elem? servers i ≡ some s)
    × (s.next_retry ≡ r)
    × (is_live auto_eject now s ≡ false)

-- The invariant of `next_rebuild` over the rest of the loop, from the value `old` to `r`.
record Reached (auto_eject : Bool) (now : ℕ) (servers : List Server) (old r : ℕ) : Type 0 where
  lowered : (old ≡ 0) ⊎ (r ≤ old)
  unset : r ≡ 0 → (old ≡ 0) × All (λ s. is_live auto_eject now s ≡ true) servers
  least : All (λ s. (is_live auto_eject now s ≡ true) ⊎ (r ≤ s.next_retry)) servers
  taken : (r ≡ old) ⊎ DeadUntil auto_eject now servers r

DeadUntil-cons :
    (auto_eject : Bool) (now r : ℕ) (s : Server) (servers : List Server)
    → DeadUntil auto_eject now servers r
    → DeadUntil auto_eject now (s ∷ servers) r
DeadUntil-cons auto_eject now r s servers d = (suc d.0, d.1, d.2, d.3, d.4)

census-Reached :
    (auto_eject : Bool) (now : ℕ) (servers : List Server) (t : Census)
    → Reached auto_eject now servers t.next_rebuild (census auto_eject now servers t).next_rebuild
unfolding census
census-Reached auto_eject now [] t = record {
  lowered = inr (omega arith);
  unset = λ e. (e, tt);
  least = tt;
  taken = inl refl;
}
census-Reached auto_eject now (s ∷ servers) t =
    let rest = census-Reached auto_eject now servers (round auto_eject now s t) in
    elim (Bool-cases (is_live auto_eject now s)) [
      | inl live ↦
          let same = round_live auto_eject now s t live in
          record {
            lowered = omega (arith, rest.lowered, same);
            unset = λ e. (omega (arith, same, (rest.unset e).0), (live, (rest.unset e).1));
            least = (inl live, rest.least);
            taken = elim rest.taken [
              | inl e ↦ inl (e ∙ same)
              | inr d ↦ inr (DeadUntil-cons auto_eject now _ s servers d)
            ];
          }
      | inr dead ↦
          let low = round_dead auto_eject now s t dead in
          record {
            lowered = omega (arith, rest.lowered, low);
            unset = λ e. absurd (low.3 (rest.unset e).0);
            least = (inr (ground (arith, rest.lowered, low)), rest.least);
            taken = elim rest.taken [
              | inl e ↦ elim low.2 [
                | inl old ↦ inl (e ∙ old)
                | inr new ↦ inr (0, s, refl, sym (e ∙ new), dead)
              ]
              | inr d ↦ inr (DeadUntil-cons auto_eject now _ s servers d)
            ];
          }
    ]

-- The next rebuild is due when the first of the ejected servers may be retried, and is 0 when no
-- server is ejected.
pub census-IsEarliest :
    (auto_eject : Bool) (now : ℕ) (servers : List Server)
    → IsEarliest auto_eject now servers (census auto_eject now servers no_census).next_rebuild
census-IsEarliest auto_eject now servers =
    let h = census-Reached auto_eject now servers no_census in
    elim h.taken [
      | inl none_dead ↦ inl (none_dead, (h.unset none_dead).1)
      | inr d ↦ inr (ground (arith, d.3, d.4), h.least, d.0, d.1, d.2, d.3, d.4)
    ]
