-- ===== src/Redis/Parse/Token.antt =====
-- What the open token of a request holds, by the state.
use twemproxy.Common.{ℕ, ◌≤◌, ◌<◌, ◌≡◌, List, [], ◌∷◌, true, Option, none, some, length, All}
use twemproxy.Message.{MsgType}
use twemproxy.Redis.Tables.{redis_argeval}
use twemproxy.Redis.Parse.State.{State, Req}
use twemproxy.Redis.Parse.Steps.{is_digit, add_digit}

-- A number that is read digit by digit.
abbrev pub number : ℕ → List ℕ → ℕ
number n [] = n
number n (d ∷ ds) = number (add_digit n d) ds

abbrev pub IsDigits : List ℕ → Type 0
IsDigits ds = All (λ d. is_digit d ≡ true) ds

-- The token is a sign and digits, and `n` is their number.
abbrev pub IsNumber : ℕ → List ℕ → ℕ → Type 0
IsNumber sign held n = (ds : List ℕ) × (held ≡ sign ∷ ds) × IsDigits ds × (n ≡ number 0 ds)

-- What a token holds in a state, with the type, `rnarg` and `rlen`. That of the number of keys stands
-- for EVAL only, and in the other states there is none.
abbrev pub Holds : State → MsgType → ℕ → ℕ → List ℕ → Type 0
Holds State.narg t rnarg rlen held = IsNumber b'*' held rnarg
Holds State.req_type_len t rnarg rlen held = IsNumber b'$' held rlen
Holds State.key_len t rnarg rlen held = IsNumber b'$' held rlen
Holds State.arg1_len t rnarg rlen held = IsNumber b'$' held rlen
Holds State.arg2_len t rnarg rlen held = IsNumber b'$' held rlen
Holds State.arg3_len t rnarg rlen held = IsNumber b'$' held rlen
Holds State.argn_len t rnarg rlen held = IsNumber b'$' held rlen
Holds State.req_type t rnarg rlen held = (0 < length held) × (length held ≤ rlen)
Holds State.key t rnarg rlen held = (0 < length held) × (length held ≤ rlen)
Holds State.arg2 t rnarg rlen held = redis_argeval t ≡ true
Holds _ t rnarg rlen held = ⊥

abbrev pub TokenIs : Option (List ℕ) → State → MsgType → ℕ → ℕ → Type 0
TokenIs token s t rnarg rlen = elim token as (λ _. Type 0) [
  | none ↦ Unit
  | some held ↦ Holds s t rnarg rlen held
]

abbrev pub IsOpen : Req → Type 0
IsOpen r = TokenIs r.token r.state r.type r.rnarg r.rlen
