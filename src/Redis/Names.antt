-- ===== src/Redis/Names.antt =====
-- The names of the commands tell each other apart.
use twemproxy.Common.{
  ℕ, ◌≡◌, ◌⊎◌, refl, ◌∙◌, sym, ap, arith, List, [], ◌∷◌, Bool, Bool-cases, inl, inr, true, false,
  not, ◌&&◌, ◌||◌, ◌==◌, length, bit_xor, map, ◌≢◌, if◌then◌else◌,
}
use twemproxy.Message.{MsgType}
use twemproxy.Redis.Shapes.{bit, shape_count}
use twemproxy.Redis.Tables.{
  redis_argz, redis_arg0, redis_arg1, redis_arg2, redis_arg3, redis_argn, redis_argx, redis_argkvx,
  redis_argeval,
}
use twemproxy.Redis.Commands.{
  Command, icmp, commands_3, commands_4, commands_5, commands_6, commands_7, commands_8, commands_9,
  commands_10, commands_11, commands_12, commands_13, commands_14, commands_15, commands_16,
  commands_of, find_command, command_type,
}
use twemproxy.Redis.Letters.{IsIn, to_lower, tables_plain, IsIn-plain, icmp-to_lower, to_lower-icmp}

-- Some byte stands for both letters.
meets : ℕ → ℕ → Bool
meets c d =
    c == d || bit_xor c 0x20 == d || (c == bit_xor d 0x20 || bit_xor c 0x20 == bit_xor d 0x20)

meets_lem :
    (b c d : ℕ)
    → (b == c || b == bit_xor c 0x20) ≡ true
    → (b == d || b == bit_xor d 0x20) ≡ true
    → meets c d ≡ true
unfolding meets
meets_lem b c d hc hd = ground (arith, hc, hd)

overlap : List ℕ → List ℕ → Bool
overlap [] [] = true
overlap [] (d ∷ ds) = false
overlap (c ∷ cs) [] = false
overlap (c ∷ cs) (d ∷ ds) = meets c d && overlap cs ds

icmp-overlap :
    (bytes cs ds : List ℕ) → icmp bytes cs ≡ true → icmp bytes ds ≡ true → overlap cs ds ≡ true
unfolding overlap icmp
icmp-overlap [] [] [] hc hd = refl
icmp-overlap [] [] (d ∷ ds) hc hd = hd
icmp-overlap [] (c ∷ cs) ds hc hd = absurd (ground (arith, hc))
icmp-overlap (b ∷ bytes) [] ds hc hd = absurd (ground (arith, hc))
icmp-overlap (b ∷ bytes) (c ∷ cs) [] hc hd = hd
icmp-overlap (b ∷ bytes) (c ∷ cs) (d ∷ ds) hc hd =
    let first = meets_lem b c d (ground (arith, hc)) (ground (arith, hd)) in
    let rest = icmp-overlap bytes cs ds (ground (arith, hc)) (ground (arith, hd)) in
    simp (first, rest) refl

-- No name of `rest` stands for a name that `c` stands for.
alone : Command → List Command → Bool
alone c [] = true
alone c (d ∷ rest) = not (overlap (c.0) (d.0)) && alone c rest

all_alone : List Command → Bool
all_alone [] = true
all_alone (c ∷ rest) = alone c rest && (shape_count (c.1) == 1) && all_alone rest

find_command_later :
    (bytes : List ℕ) (c d : Command) (rest : List Command)
    → alone c rest ≡ true
    → IsIn d rest
    → icmp bytes (d.0) ≡ true
    → icmp bytes (c.0) ≡ false
unfolding alone
find_command_later bytes c d [] ok_ is_in hd = elim is_in [ ]
find_command_later bytes c d (e ∷ rest) ok_ (inl here) hd = elim (Bool-cases (icmp bytes (c.0))) [
  | inl hc ↦
      let both = icmp-overlap bytes (c.0) (e.0) hc (ap (λ x. icmp bytes (x.0)) (sym here) ∙ hd) in
      absurd (ground (arith, ok_, both))
  | inr other ↦ other
]
find_command_later bytes c d (e ∷ rest) ok_ (inr there) hd =
    find_command_later bytes c d rest (ground (arith, ok_)) there hd

find_command-IsIn :
    (bytes : List ℕ) (d : Command) (cs : List Command)
    → all_alone cs ≡ true
    → IsIn d cs
    → icmp bytes (d.0) ≡ true
    → (find_command bytes cs ≡ d.1) × (shape_count (d.1) ≡ 1)
unfolding all_alone find_command
find_command-IsIn bytes d [] ok_ is_in hd = elim is_in [ ]
find_command-IsIn bytes d (c ∷ rest) ok_ (inl here) hd =
    let hc : icmp bytes (c.0) ≡ true = ap (λ e. icmp bytes (e.0)) (sym here) ∙ hd in
    (rw hc (ap (λ e. e.1) (sym here)), ap (λ e. shape_count (e.1)) here ∙ ground (arith, ok_))
find_command-IsIn bytes d (c ∷ rest) ok_ (inr there) hd =
    let h = find_command-IsIn bytes d rest (ground (arith, ok_)) there hd in
    let skipped = find_command_later bytes c d rest (ground (arith, ok_)) there hd in
    (rw skipped (h.0), h.1)

all_alone-if :
    (b : Bool) (x y : List Command)
    → all_alone x ≡ true
    → all_alone y ≡ true
    → all_alone (if b then x else y) ≡ true
all_alone-if true x y hx hy = hx
all_alone-if false x y hx hy = hy

tables_alone : (n : ℕ) → all_alone (commands_of n) ≡ true
unfolding commands_of commands_3 commands_4 commands_5 commands_6 commands_7 commands_8 commands_9
    commands_10 commands_11 commands_12 commands_13 commands_14 commands_15 commands_16 all_alone
    alone overlap meets shape_count bit redis_argz redis_arg0 redis_arg1 redis_arg2 redis_arg3
    redis_argn redis_argx redis_argkvx redis_argeval
tables_alone n = all_alone-if (n == 3) commands_3 _ refl (
    all_alone-if (n == 4) commands_4 _ refl (
      all_alone-if (n == 5) commands_5 _ refl (
        all_alone-if (n == 6) commands_6 _ refl (
          all_alone-if (n == 7) commands_7 _ refl (
            all_alone-if (n == 8) commands_8 _ refl (
              all_alone-if (n == 9) commands_9 _ refl (
                all_alone-if (n == 10) commands_10 _ refl (
                  all_alone-if (n == 11) commands_11 _ refl (
                    all_alone-if (n == 12) commands_12 _ refl (
                      all_alone-if (n == 13) commands_13 _ refl (
                        all_alone-if (n == 14) commands_14 _ refl (
                          all_alone-if (n == 15) commands_15 _ refl
                            (all_alone-if (n == 16) commands_16 _ refl refl)))))))))))))

find_command_known :
    (bytes : List ℕ) (cs : List Command)
    → (find_command bytes cs ≡ MsgType.unknown)
      ⊎ ((c : Command) × IsIn c cs × (icmp bytes (c.0) ≡ true) × (find_command bytes cs ≡ c.1))
unfolding find_command
find_command_known bytes [] = inl refl
find_command_known bytes (c ∷ rest) = elim (Bool-cases (icmp bytes (c.0))) [
  | inl hc ↦ inr (c, inl refl, hc, rw hc refl)
  | inr other ↦ elim (find_command_known bytes rest) [
    | inl none_ ↦ inl (rw other none_)
    | inr (d, is_in, hd, found) ↦ inr (d, inr is_in, hd, rw other found)
  ]
]

-- Every command is recognised: where a name of as many bytes stands in the table, and the bytes are
-- that name when their capital letters are made small, the request gets the type that stands beside the
-- name, whatever other commands are tested before; and that type has one shape of arguments.
pub command_type_lem :
    (bytes : List ℕ) (c : Command)
    → IsIn c (commands_of (length bytes))
    → map to_lower bytes ≡ c.0
    → (command_type bytes ≡ c.1) × (shape_count (c.1) ≡ 1)
unfolding command_type
command_type_lem bytes c is_in same =
    let table = commands_of (length bytes) in
    find_command-IsIn bytes c table (tables_alone (length bytes)) is_in
      (icmp-to_lower bytes (c.0) (IsIn-plain c table (tables_plain (length bytes)) is_in) same)

-- Nothing else is recognised: bytes that get a type other than `unknown` are, when their capital letters
-- are made small, a name in the table, with that type beside it.
pub command_type_known :
    (bytes : List ℕ)
    → command_type bytes ≢ MsgType.unknown
    → (c : Command) × IsIn c (commands_of (length bytes))
      × (map to_lower bytes ≡ c.0)
      × (command_type bytes ≡ c.1)
unfolding command_type
command_type_known bytes known = elim (find_command_known bytes (commands_of (length bytes))) [
  | inl none_ ↦ absurd (known none_)
  | inr (c, is_in, hc, found) ↦ (
    c,
    is_in,
    to_lower-icmp bytes (c.0)
        (IsIn-plain c (commands_of (length bytes)) (tables_plain (length bytes)) is_in) hc,
    found,
  )
]
