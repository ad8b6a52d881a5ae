-- ===== src/Redis/Print.antt =====
-- A request in the redis protocol, as a client writes it: the counterpart of redis_parse_req of
-- src/proto/nc_redis.c.
use twemproxy.Common.{
  ℕ, zero, suc, ◌+◌, ◌/◌, ◌%◌, ◌^◌, ◌≤◌, ◌<◌, ◌≡◌, ◌∙◌, ap, arith, List, [], ◌∷◌, ◌++◌, Bool-cases,
  inl, inr, true, ltb, if◌then◌else◌, length, length-append, All-append,
}
use twemproxy.Redis.Parse.Steps.{cr, lf, is_digit, add_digit}
use twemproxy.Redis.Parse.Token.{number, IsDigits}
use twemproxy.Redis.Parse.Consume.{number-append}

-- The decimal digits of a number, on fuel that is more than the number.
unfoldable pub print_digits : ℕ → ℕ → List ℕ
print_digits zero n = []
print_digits (suc f) n =
    let tens = print_digits f (n / 10) in
    if ltb n 10 then (b'0' + n) ∷ [] else tens ++ (b'0' + n % 10) ∷ []

unfoldable pub print_number : ℕ → List ℕ
print_number n = print_digits (suc n) n

unfoldable pub print_bulk : List ℕ → List ℕ
print_bulk bytes = b'$' ∷ (print_number (length bytes) ++ cr ∷ lf ∷ (bytes ++ cr ∷ lf ∷ []))

unfoldable pub print_bulks : List (List ℕ) → List ℕ
print_bulks [] = []
print_bulks (part ∷ parts) = print_bulk part ++ print_bulks parts

unfoldable pub print_request : List (List ℕ) → List ℕ
print_request parts = b'*' ∷ (print_number (length parts) ++ cr ∷ lf ∷ print_bulks parts)

-- The digits of `n`, at least one.
abbrev pub Spells : List ℕ → ℕ → Type 0
Spells ds n = IsDigits ds × (number 0 ds ≡ n) × (0 < length ds)

-- One more digit behind those of the tens.
Spells-append :
    (ds : List ℕ) (n : ℕ) → n < 2 ^ 32 → Spells ds (n / 10) → Spells (ds ++ (b'0' + n % 10) ∷ []) n
Spells-append ds n small (digits, value, some_) = (
  All-append (λ d. is_digit d ≡ true) ds _ digits (ground arith, tt),
  number-append 0 _ ds ∙ ap (λ m. add_digit m (b'0' + n % 10)) value ∙ omega arith,
  omega (arith, length-append ds ((b'0' + n % 10) ∷ [])),
)

one_digit : (n : ℕ) → n < 10 → Spells ((b'0' + n) ∷ []) n
one_digit n h = ((ground (arith, h), tt), omega (arith, h), omega arith)

print_digits_lem : (f n : ℕ) → n ≤ f → n < 2 ^ 32 → Spells (print_digits (suc f) n) n
unfolding print_digits
print_digits_lem zero n h small =
    let one : ltb n 10 ≡ true = ground (arith, h) in rw one (one_digit n (omega arith))
print_digits_lem (suc f) n h small = elim (Bool-cases (ltb n 10)) [
  | inl one ↦ rw one (one_digit n (ground (arith, one)))
  | inr more ↦
      let le : 10 ≤ n = ground (arith, more) in
      rw more (
        Spells-append (print_digits (suc f) (n / 10)) n small
          (print_digits_lem f (n / 10) (omega arith) (omega arith)))
]

pub print_number_lem : (n : ℕ) → n < 2 ^ 32 → Spells (print_number n) n
unfolding print_number
print_number_lem n small = print_digits_lem n n (omega arith) small
