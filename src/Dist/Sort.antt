-- ===== src/Dist/Sort.antt =====
-- What ketama_update relies on of `qsort`.
use twemproxy.Common.{◌≤◌, ◌≡◌, ◌≢◌, refl, arith, List, [], ◌∷◌, length, All}
use Prim.Native.Nat.{Ordering}
use mathlib.Core.List.{Permᴰ}
use twemproxy.Server.{Continuum}
use twemproxy.Dist.Ketama.{ketama_item_cmp}
use twemproxy.Dist.Search.{IsAscending}

abbrev flip : Ordering → Ordering
flip Ordering.lt = Ordering.gt
flip Ordering.eq = Ordering.eq
flip Ordering.gt = Ordering.lt

-- What the C standard asks of a comparison: it is consistent.
pub record IsComparison (cmp : Continuum → Continuum → Ordering) : Type 0 where
  pub flips : (p q : Continuum) → cmp p q ≡ flip (cmp q p)
  pub chains :
      (p q r : Continuum) → cmp p q ≢ Ordering.gt → cmp q r ≢ Ordering.gt → cmp p r ≢ Ordering.gt

-- No point is greater than the next.
abbrev pub IsOrdered : (Continuum → Continuum → Ordering) → List Continuum → Type 0
IsOrdered cmp [] = Unit
IsOrdered cmp (p ∷ []) = Unit
IsOrdered cmp (p ∷ q ∷ points) = (cmp p q ≢ Ordering.gt) × IsOrdered cmp (q ∷ points)

-- `qsort` orders the array by any consistent comparison, and only moves its elements.
pub record IsSort (qsort : (Continuum → Continuum → Ordering) → List Continuum → List Continuum)
    : Type 0 where
  pub orders :
      (cmp : Continuum → Continuum → Ordering) (points : List Continuum)
      → IsComparison cmp
      → IsOrdered cmp (qsort cmp points)
  pub moves :
      (cmp : Continuum → Continuum → Ordering) (points : List Continuum)
      → Permᴰ points (qsort cmp points)

-- ketama_item_cmp is a consistent comparison.
pub ketama_item_cmp-IsComparison : IsComparison ketama_item_cmp
unfolding ketama_item_cmp
ketama_item_cmp-IsComparison = record {
  flips = λ p q. ground arith;
  chains = λ p q r h k e. ground arith;
}

-- The order by ketama_item_cmp is the order by value.
pub IsOrdered→IsAscending :
    (points : List Continuum) → IsOrdered ketama_item_cmp points → IsAscending points
IsOrdered→IsAscending [] h = tt
IsOrdered→IsAscending (p ∷ []) h = tt
IsOrdered→IsAscending (p ∷ q ∷ points) h = (value_le h.0, IsOrdered→IsAscending (q ∷ points) h.1)
  where
    value_le : ketama_item_cmp p q ≢ Ordering.gt → p.value ≤ q.value
    value_le ne = unfold ketama_item_cmp in ground arith

pub All-perm : (P : Continuum → Type 0) {xs ys : List Continuum} → Permᴰ xs ys → All P xs → All P ys
All-perm P Permᴰ.nil h = tt
All-perm P (Permᴰ.cons e d) h = (rw e at (h.0), All-perm P d h.1)
All-perm P (Permᴰ.swap e e') h = (rw e' at (h.1.0), (rw e at (h.0), h.1.1))
All-perm P (Permᴰ.trans d d') h = All-perm P d' (All-perm P d h)

pub length-perm : {xs ys : List Continuum} → Permᴰ xs ys → length xs ≡ length ys
length-perm Permᴰ.nil = refl
length-perm (Permᴰ.cons e d) = omega (arith, length-perm d)
length-perm (Permᴰ.swap e e') = refl
length-perm (Permᴰ.trans d d') = omega (arith, length-perm d, length-perm d')
