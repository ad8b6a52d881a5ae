-- ===== src/Examples/Library.antt =====
-- Concrete functions for the calls of src/hashkit/nc_ketama.c, and that they do what is relied on.
use twemproxy.Common.{
  ℕ, ◌+◌, ◌*◌, ◌/◌, ◌^◌, ◌≤◌, ◌<◌, ◌≡◌, ◌≢◌, refl, arith, List, [], ◌∷◌, ◌++◌, take, replicate,
}
use Prim.Native.Nat.{Ordering}
use mathlib.Core.List.{Permᴰ}
use mathlib.Core.List.Permᴰ
use twemproxy.Server.{Continuum}
use twemproxy.Dist.Ketama.{Calls}
use twemproxy.Dist.Share.{IsShare}
use twemproxy.Dist.Sort.{IsComparison, IsOrdered, IsSort}
use twemproxy.Pool.Run.{IsCalls}

place : Ordering → Continuum → Continuum → List Continuum → List Continuum → List Continuum
place Ordering.gt p q points placed = q ∷ placed
place Ordering.lt p q points placed = p ∷ q ∷ points
place Ordering.eq p q points placed = p ∷ q ∷ points

insert : (Continuum → Continuum → Ordering) → Continuum → List Continuum → List Continuum
insert cmp p [] = p ∷ []
insert cmp p (q ∷ points) = place (cmp p q) p q points (insert cmp p points)

unfoldable pub insertion_sort : (Continuum → Continuum → Ordering) → List Continuum → List Continuum
unfolding insert place
insertion_sort cmp [] = []
insertion_sort cmp (p ∷ points) = insert cmp p (insertion_sort cmp points)

place-Permᴰ :
    (o : Ordering) (p q : Continuum) (points placed : List Continuum)
    → Permᴰ (p ∷ points) placed
    → Permᴰ (p ∷ q ∷ points) (place o p q points placed)
unfolding place
place-Permᴰ Ordering.gt p q points placed d = Permᴰ.trans (Permᴰ.swap refl refl) (Permᴰ.cons refl d)
place-Permᴰ Ordering.lt p q points placed d = Permᴰ.refl _
place-Permᴰ Ordering.eq p q points placed d = Permᴰ.refl _

insert-Permᴰ :
    (cmp : Continuum → Continuum → Ordering) (p : Continuum) (points : List Continuum)
    → Permᴰ (p ∷ points) (insert cmp p points)
unfolding insert
insert-Permᴰ cmp p [] = Permᴰ.refl _
insert-Permᴰ cmp p (q ∷ points) =
    place-Permᴰ (cmp p q) p q points (insert cmp p points) (insert-Permᴰ cmp p points)

sort-Permᴰ :
    (cmp : Continuum → Continuum → Ordering) (points : List Continuum)
    → Permᴰ points (insertion_sort cmp points)
unfolding insertion_sort
sort-Permᴰ cmp [] = Permᴰ.nil
sort-Permᴰ cmp (p ∷ points) =
    Permᴰ.trans (Permᴰ.cons refl (sort-Permᴰ cmp points)) (insert-Permᴰ cmp p _)

module _ (cmp : Continuum → Continuum → Ordering) (ok : IsComparison cmp) where
  -- A point that may stand before a list.
  Heads : Continuum → List Continuum → Type 0
  Heads p [] = Unit
  Heads p (q ∷ points) = cmp p q ≢ Ordering.gt

  IsOrdered-cons :
      (p : Continuum) (points : List Continuum)
      → Heads p points
      → IsOrdered cmp points
      → IsOrdered cmp (p ∷ points)
  unfolding Heads
  IsOrdered-cons p [] h o = tt
  IsOrdered-cons p (q ∷ points) h o = (h, o)

  tail-IsOrdered :
      (q : Continuum) (points : List Continuum) → IsOrdered cmp (q ∷ points) → IsOrdered cmp points
  tail-IsOrdered q [] o = tt
  tail-IsOrdered q (r ∷ points) o = o.1

  head-Heads :
      (q : Continuum) (points : List Continuum) → IsOrdered cmp (q ∷ points) → Heads q points
  unfolding Heads
  head-Heads q [] o = tt
  head-Heads q (r ∷ points) o = o.0

  after_gt : (p q : Continuum) → cmp p q ≡ Ordering.gt → cmp q p ≢ Ordering.gt
  after_gt p q e h = let f = rw (h, e) at (ok.flips p q) in cc

  insert-Heads :
      (q p : Continuum) (points : List Continuum)
      → cmp q p ≢ Ordering.gt
      → Heads q points
      → Heads q (insert cmp p points)
  unfolding Heads insert place
  insert-Heads q p [] le h = le
  insert-Heads q p (r ∷ points) le h = by_order (cmp p r)
    where
      by_order : (o : Ordering) → Heads q (place o p r points (insert cmp p points))
      by_order Ordering.gt = h
      by_order Ordering.lt = le
      by_order Ordering.eq = le

  insert-IsOrdered :
      (p : Continuum) (points : List Continuum)
      → IsOrdered cmp points
      → IsOrdered cmp (insert cmp p points)
  unfolding insert place
  insert-IsOrdered p [] o = tt
  insert-IsOrdered p (q ∷ points) o =
      by_order (cmp p q) refl (insert-IsOrdered p points (tail-IsOrdered q points o))
    where
      by_order :
          (c : Ordering)
          → cmp p q ≡ c
          → IsOrdered cmp (insert cmp p points)
          → IsOrdered cmp (place c p q points (insert cmp p points))
      by_order Ordering.gt e rest =
          IsOrdered-cons q _ (insert-Heads q p points (after_gt p q e) (head-Heads q points o)) rest
      by_order Ordering.lt e rest = ((λ g. cc), o)
      by_order Ordering.eq e rest = ((λ g. cc), o)

  sort-IsOrdered : (points : List Continuum) → IsOrdered cmp (insertion_sort cmp points)
  unfolding insertion_sort
  sort-IsOrdered [] = tt
  sort-IsOrdered (p ∷ points) = insert-IsOrdered p _ (sort-IsOrdered points)

insertion_sort-IsSort : IsSort insertion_sort
insertion_sort-IsSort = record {
  orders = λ cmp points ok. sort-IsOrdered cmp ok points;
  moves = sort-Permᴰ;
}

-- The share in whole numbers.
unfoldable pub whole_share : ℕ → ℕ → ℕ → ℕ
whole_share weight total nlive = 40 * nlive * weight / total

div_le : (n t : ℕ) → 0 < t → n / t * t ≤ n
div_le n t pos = grind arith

bound : (a b t : ℕ) → a ≤ b → a * 2 ^ 20 ≤ b * (2 ^ 20 + 1) + t
bound a b t h = omega arith

whole_share-IsShare : IsShare whole_share
unfolding whole_share
whole_share-IsShare weight total nlive pos le =
    let cut = div_le (40 * nlive * weight) total pos in
    let scaled : whole_share weight total nlive * total ≤ 40 * nlive * weight = cut in
    bound (whole_share weight total nlive * total) (40 * nlive * weight) total scaled

-- A digest that is the first bytes of the text.
abbrev pub c_library : Calls
c_library = record {
  md5_signature = λ text. take 16 (text ++ replicate 16 0);
  share = whole_share;
  qsort = insertion_sort;
}

pub c_library-IsCalls : IsCalls c_library
c_library-IsCalls = record { sorts = insertion_sort-IsSort; shares = whole_share-IsShare }
