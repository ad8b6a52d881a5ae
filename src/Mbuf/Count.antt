-- ===== src/Mbuf/Count.antt =====
-- The free buffers are counted, over any gets and puts.
use twemproxy.Common.{
  ◌+◌, ◌≤◌, ◌≡◌, refl, ◌∙◌, ap, arith, List, [], ◌∷◌, Bool, Bool-cases, inl, inr, true, false, some,
  some_inj, leb, length,
}
use mathlib.Core.Path.{subst}
use twemproxy.Mbuf.Ops.{Mbuf, Free, mbuf_reserved, mbuf_get, mbuf_put, no_free}

-- The counter of the free buffers is right, and no more are kept than are reserved.
abbrev pub IsCounted : Free → Type 0
IsCounted q = (q.nfree_mbufq ≡ length q.free_mbufq) × (q.nfree_mbufq ≤ mbuf_reserved)

put-IsCounted : (m : Mbuf) (q : Free) → IsCounted q → IsCounted (mbuf_put m q)
unfolding mbuf_put
put-IsCounted m q (count, few) = elim (Bool-cases (leb mbuf_reserved q.nfree_mbufq)) [
  | inl full ↦ simp full (count, few)
  | inr room ↦ simp room (ap (λ k. k + 1) count ∙ omega arith, ground (arith, room))
]

get-IsCounted :
    (found : Bool) (q : Free) (got : Mbuf × Free)
    → IsCounted q
    → mbuf_get found q ≡ some got
    → IsCounted (got.1)
unfolding mbuf_get
get-IsCounted found q got (count, few) h = by_list q.free_mbufq found count h
  where
    by_list :
        (free : List Mbuf) (b : Bool)
        → q.nfree_mbufq ≡ length free
        → mbuf_get b (record q { free_mbufq = free }) ≡ some got
        → IsCounted (got.1)
    by_list [] true c e = subst (λ x. IsCounted (x.1)) (some_inj e) (c, few)
    by_list [] false c e = absurd (ground (arith, e))
    by_list (m ∷ rest) b c e =
        subst (λ x. IsCounted (x.1)) (some_inj e) (omega (arith, c), omega (arith, few))

-- The free buffers as a run of the proxy leaves them.
pub data Runs : Free → Type 0 where
  init : Runs no_free
  gets :
      {q : Free} {got : Mbuf × Free} (found : Bool)
      → Runs q
      → mbuf_get found q ≡ some got
      → Runs (got.1)
  puts : {q : Free} (m : Mbuf) → Runs q → Runs (mbuf_put m q)

-- Over any sequence of gets and puts, the counter is the number of the free buffers, and no more than
-- 4096 are kept.
pub Runs-IsCounted : (q : Free) → Runs q → IsCounted q
Runs-IsCounted q Runs.init = (refl, omega arith)
Runs-IsCounted q (Runs.gets {q = q'} {got = got} found before got_it) =
    get-IsCounted found q' got (Runs-IsCounted q' before) got_it
Runs-IsCounted q (Runs.puts {q = q'} m before) = put-IsCounted m q' (Runs-IsCounted q' before)
