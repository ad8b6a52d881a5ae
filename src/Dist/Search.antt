-- ===== src/Dist/Search.antt =====
-- ketama_dispatch of src/hashkit/nc_ketama.c against a walk along the ring.
use twemproxy.Common.{
  ℕ, zero, suc, ◌+◌, ◌-◌, ◌/◌, ◌≤◌, ◌<◌, ◌≡◌, refl, sym, ◌∙◌, arith, List, [], ◌∷◌, Option, none,
  some, ◌>>=◌, ◌==◌, ltb, ltb→lt, if◌then◌else◌, Bool-cases, inl, inr, get_elem?, get_or, length,
  take, length-take, get_elem?-eq-get_or,
}
use twemproxy.Server.{Continuum}
use twemproxy.Dist.Ketama.{search_loop, ketama_dispatch}

abbrev pub origin : Continuum
origin = record { index = 0; value = 0 }

abbrev pub value_at : List Continuum → ℕ → ℕ
value_at points i = (get_or points i origin).value

-- The order that `qsort` leaves: values never fall from one point to the next.
abbrev pub IsAscending : List Continuum → Type 0
IsAscending [] = Unit
IsAscending (p ∷ []) = Unit
IsAscending (p ∷ q ∷ points) = (p.value ≤ q.value) × IsAscending (q ∷ points)

-- The specification: the first point whose value is not below the hash.
unfoldable pub successor : ℕ → List Continuum → Option Continuum
successor hash [] = none
successor hash (p ∷ points) = if ltb p.value hash then successor hash points else some p

-- The server that owns a hash: that of its successor, and behind the last point that of the first.
unfoldable pub owner : ℕ → List Continuum → Option ℕ
owner hash [] = none
owner hash (p ∷ points) = elim (successor hash (p ∷ points)) [
  | none ↦ some p.index
  | some q ↦ some q.index
]

head-le :
    (p : Continuum) (points : List Continuum) (j : ℕ)
    → IsAscending (p ∷ points)
    → j < length points
    → p.value ≤ value_at points j
head-le p [] j h lt = elim lt [ ]
head-le p (q ∷ points) zero h lt = h.0
head-le p (q ∷ points) (suc j) h lt = omega (arith, h.0, head-le q points j h.1 (omega arith))

IsAscending-le :
    (points : List Continuum) (i j : ℕ)
    → IsAscending points
    → i ≤ j
    → j < length points
    → value_at points i ≤ value_at points j
IsAscending-le [] i j h le lt = elim lt [ ]
IsAscending-le (p ∷ points) zero zero h le lt = omega arith
IsAscending-le (p ∷ points) zero (suc j) h le lt = head-le p points j h (omega arith)
IsAscending-le (p ∷ points) (suc i) zero h le lt = absurd (omega arith)
IsAscending-le (p ∷ []) (suc i) (suc j) h le lt = absurd (omega arith)
IsAscending-le (p ∷ q ∷ points) (suc i) (suc j) h le lt =
    IsAscending-le (q ∷ points) i j h.1 (omega arith) (omega arith)

-- An offset that splits the points at the hash.
abbrev Splits : List Continuum → ℕ → ℕ → Type 0
Splits points hash r =
    (r ≤ length points)
    × ((i : ℕ) → i < r → value_at points i < hash)
    × ((i : ℕ) → r ≤ i → i < length points → hash ≤ value_at points i)

successor-Splits :
    (points : List Continuum) (hash r : ℕ)
    → Splits points hash r
    → successor hash points ≡ get_elem? points r
unfolding successor
successor-Splits [] hash r h = refl
successor-Splits (p ∷ points) hash zero h =
    let above : hash ≤ p.value = h.2 0 (omega arith) (omega arith) in ground arith
successor-Splits (p ∷ points) hash (suc r) h =
    let below : p.value < hash = h.1 0 (omega arith) in
    let rest = successor-Splits points hash r (
      omega arith,
      λ i lt. h.1 (suc i) (omega arith),
      λ i le lt. h.2 (suc i) (omega arith) (omega arith),
    ) in
    ground (arith, rest)

pub get_elem?-take {ℓ} :
    {A : Type ℓ} (n i : ℕ) (xs : List A) → i < n → get_elem? (take n xs) i ≡ get_elem? xs i
get_elem?-take zero i xs h = elim h [ ]
get_elem?-take (suc n) i [] h = refl
get_elem?-take (suc n) zero (x ∷ xs) h = refl
get_elem?-take (suc n) (suc i) (x ∷ xs) h = get_elem?-take n i xs (omega arith)

module _ (mem : List Continuum) (n hash : ℕ) (fits : n ≤ length mem)
    (sorted : IsAscending (take n mem)) where
  abbrev ring : List Continuum
  ring = take n mem

  read : (i : ℕ) → i < n → get_elem? mem i ≡ some (get_or ring i origin)
  read i h =
      sym (get_elem?-take n i mem h)
      ∙ get_elem?-eq-get_or ring i origin (omega (arith, length-take n mem))

  len : length ring ≡ n
  len = omega (arith, length-take n mem)

  -- With fuel for its width the search ends at an offset that splits the ring.
  search_loop-Splits :
      (fuel left right : ℕ)
      → left ≤ right
      → right ≤ n
      → right ≤ left + fuel
      → ((i : ℕ) → i < left → value_at ring i < hash)
      → ((i : ℕ) → right ≤ i → i < n → hash ≤ value_at ring i)
      → (r : ℕ) × (search_loop fuel mem hash left right ≡ some r) × Splits ring hash r
  unfolding search_loop
  search_loop-Splits zero left right le top enough below above =
      let same : left ≡ right = omega arith in
      (
        right,
        ground arith,
        (
          omega (arith, len),
          λ i lt. below i (omega arith),
          λ i ge lt. above i ge (omega (arith, len)),
        ),
      )
  search_loop-Splits (suc fuel) left right le top enough below above =
      elim (Bool-cases (ltb left right)) [
        | inr done ↦
            let same : left ≡ right = ground arith in
            (
              right,
              rw done,
              (
                omega (arith, len),
                λ i lt. below i (omega arith),
                λ i ge lt. above i ge (omega (arith, len)),
              ),
            )
        | inl more ↦
            let open_ : left < right = ltb→lt left right more in
            elim (Bool-cases (ltb (value_at ring middle) hash)) [
              | inl up ↦
                  let less : value_at ring middle < hash = ltb→lt _ hash up in
                  rw (more, read middle (omega arith), up)
                    (search_loop-Splits fuel (middle + 1) right (omega arith) top (omega arith)
                      (λ i lt. below-middle (omega arith) less i (omega arith)) above)
              | inr down ↦
                  let least : hash ≤ value_at ring middle = ground arith in
                  rw (more, read middle (omega arith), down)
                    (search_loop-Splits fuel left middle (omega arith) (omega arith) (omega arith)
                      below (λ i ge lt. above-middle least i ge lt))
            ]
      ]
    where
      middle : ℕ
      middle = left + (right - left) / 2

      below-middle :
          middle < n → value_at ring middle < hash → (i : ℕ) → i ≤ middle → value_at ring i < hash
      below-middle inside less i h =
          omega (arith, IsAscending-le ring i middle sorted h (omega (arith, len)))

      above-middle :
          hash ≤ value_at ring middle → (i : ℕ) → middle ≤ i → i < n → hash ≤ value_at ring i
      above-middle least i h lt =
          omega (arith, IsAscending-le ring middle i sorted h (omega (arith, len)))

get_elem?-past {ℓ} : {A : Type ℓ} (xs : List A) (i : ℕ) → length xs ≤ i → get_elem? xs i ≡ none
get_elem?-past [] i h = refl
get_elem?-past (x ∷ xs) zero h = absurd (omega arith)
get_elem?-past (x ∷ xs) (suc i) h = get_elem?-past xs i (omega arith)

owner-of-Splits :
    (points : List Continuum) (hash r : ℕ)
    → 0 < length points
    → Splits points hash r
    → owner hash points
      ≡ (get_elem? points (if r == length points then 0 else r) >>= λ c. some c.index)
unfolding owner
owner-of-Splits [] hash r pos h = elim pos [ ]
owner-of-Splits (p ∷ points) hash r pos h =
    rw (successor-Splits (p ∷ points) hash r h, owner)
      (elim (Bool-cases (r == length (p ∷ points))) [
        | inl past ↦
            let none_there : get_elem? (p ∷ points) r ≡ none =
              get_elem?-past (p ∷ points) r (ground arith) in
            rw (past, none_there)
        | inr within ↦
            let there = get_elem?-eq-get_or (p ∷ points) r origin (ground arith) in
            rw (within, there)
      ])

-- On a continuum with at least one point in use, all of them allocated and their values ascending,
-- ketama_dispatch returns the server that owns the hash on the ring.
pub ketama_dispatch-owner :
    (mem : List Continuum) (n hash : ℕ)
    → 0 < n
    → n ≤ length mem
    → IsAscending (take n mem)
    → ketama_dispatch mem n hash ≡ owner hash (take n mem)
unfolding ketama_dispatch
ketama_dispatch-owner mem n hash pos fits sorted =
    let (r, found, split) =
      search_loop-Splits mem n hash fits sorted n 0 n (omega arith) (omega arith) (omega arith)
        (λ i lt. absurd (omega arith)) (λ i ge lt. absurd (omega arith)) in
    let size : length (take n mem) ≡ n = omega (arith, length-take n mem) in
    let named = owner-of-Splits (take n mem) hash r (omega arith) split in
    rw (found, named, size) (finish r (omega (arith, size)))
  where
    finish :
        (r : ℕ)
        → r ≤ n
        → (get_elem? mem (if r == n then 0 else r) >>= λ c. some c.index)
          ≡ (get_elem? (take n mem) (if r == n then 0 else r) >>= λ c. some c.index)
    finish r le =
        let j = if r == n then 0 else r in
        let inside : j < n = ground arith in rw (get_elem?-take n j mem inside)
