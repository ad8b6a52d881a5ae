-- ===== src/Redis/Parse/Consume.antt =====
-- Each round of the loop takes bytes and keeps the token as its state has it.
use twemproxy.Common.{
  ℕ, suc, ◌≤◌, ◌<◌, ◌≡◌, refl, sym, ap, arith, List, [], ◌∷◌, ◌++◌, Bool, true, false, Bool-cases,
  inl, inr, Option, none, some, some_inj, ◌==◌, ==_iff, leb, if◌then◌else◌, length, get_or, take,
  drop, length-append, length-drop, All-append,
}
use twemproxy.Redis.Tables.{redis_argeval}
use twemproxy.Redis.Parse.State.{State, Req, Setup, Move, Verdict}
use twemproxy.Redis.Parse.Steps.{
  cr, lf, is_digit, add_digit, narg_step, len_step, lf_step, token_step, body_step, eval_step,
  step_in, has_keys, found_type, found_key, held_bytes, is_unknown,
}
use twemproxy.Redis.Commands.{command_type}
use twemproxy.Redis.Parse.Token.{number, IsNumber, TokenIs, IsOpen}

-- A move that leaves at most the bytes behind the first one.
pub data IsFine (after : List ℕ) : Move → Type 0 where
  go :
      {r : Req} {rest : List ℕ}
      → length rest ≤ length after
      → IsOpen r
      → IsFine after (Move.go r rest)
  wait : {r : Req} → IsOpen r → IsFine after (Move.wait r)
  done : {r : Req} {rest : List ℕ} → length rest ≤ length after → IsFine after (Move.done r rest)
  error : {s : State} → IsFine after (Move.error s)
  enomem : {s : State} → IsFine after (Move.enomem s)

-- A test between two moves.
IsFine-if :
    {after : List ℕ} {x y : Move} (b : Bool)
    → IsFine after x
    → IsFine after y
    → IsFine after (if b then x else y)
IsFine-if true hx hy = hx
IsFine-if false hx hy = hy

pub number-append : (n ch : ℕ) (ds : List ℕ) → number n (ds ++ ch ∷ []) ≡ add_digit (number n ds) ch
number-append n ch [] = refl
number-append n ch (d ∷ ds) = number-append (add_digit n d) ch ds

-- One more digit.
IsNumber-append :
    (sign : ℕ) (held : List ℕ) (n ch : ℕ)
    → is_digit ch ≡ true
    → IsNumber sign held n
    → IsNumber sign (held ++ ch ∷ []) (add_digit n ch)
IsNumber-append sign held n ch digit (ds, shape, digits, value) = (
  ds ++ ch ∷ [],
  rw shape refl,
  All-append (λ d. is_digit d ≡ true) ds (ch ∷ []) digits (digit, tt),
  rw value (sym (number-append 0 ch ds)),
)

one_sign : (ch sign : ℕ) → (ch == sign) ≡ true → IsNumber sign (ch ∷ []) 0
one_sign ch sign h = ([], ap (λ c. c ∷ []) ((==_iff ch sign).0 h), tt, refl)

narg_step-IsFine :
    (r : Req) (ch : ℕ) (after : List ℕ)
    → ((held : List ℕ) → r.token ≡ some held → IsNumber b'*' held r.rnarg × (r.state ≡ State.narg))
    → IsFine after (narg_step r ch after)
unfolding narg_step
narg_step-IsFine r ch after open_ = by_token r.token open_
  where
    by_token :
        (t : Option (List ℕ))
        → ((held : List ℕ) → t ≡ some held → IsNumber b'*' held r.rnarg × (r.state ≡ State.narg))
        → IsFine after (narg_step (record r { token = t }) ch after)
    by_token none h = elim (Bool-cases (ch == b'*')) [
      | inl sign ↦ rw sign (IsFine.go (omega arith) (one_sign ch b'*' sign))
      | inr other ↦ rw other IsFine.error
    ]
    by_token (some held) h = elim (Bool-cases (is_digit ch)) [
      | inl digit ↦ rw digit (
          IsFine.go (omega arith)
            (rw ((h held refl).1) (IsNumber-append b'*' held r.rnarg ch digit ((h held refl).0))))
      | inr other ↦ rw other (
          IsFine-if (ch == cr) (IsFine-if (r.rnarg == 0) IsFine.error (IsFine.go (omega arith) tt))
            IsFine.error)
    ]

len_step-IsFine :
    (accepts : Req → List ℕ → Bool) (next : State) (r : Req) (ch : ℕ) (after : List ℕ)
    → ((held : List ℕ) (a b : ℕ) → IsNumber b'$' held b → TokenIs (some held) r.state r.type a b)
    → ((held : List ℕ) → r.token ≡ some held → IsNumber b'$' held r.rlen)
    → IsFine after (len_step accepts next r ch after)
unfolding len_step
len_step-IsFine accepts next r ch after same open_ = by_token r.token open_
  where
    by_token :
        (t : Option (List ℕ))
        → ((held : List ℕ) → t ≡ some held → IsNumber b'$' held r.rlen)
        → IsFine after (len_step accepts next (record r { token = t }) ch after)
    by_token none h = elim (Bool-cases (ch == b'$')) [
      | inl sign ↦ rw sign (IsFine.go (omega arith) (same _ _ _ (one_sign ch b'$' sign)))
      | inr other ↦ rw other IsFine.error
    ]
    by_token (some held) h = elim (Bool-cases (is_digit ch)) [
      | inl digit ↦ rw digit (
          IsFine.go (omega arith)
            (same _ _ _ (IsNumber-append b'$' held r.rlen ch digit (h held refl))))
      | inr other ↦ rw other (
          IsFine-if (ch == cr)
            (IsFine-if (accepts _ held) (IsFine.go (omega arith) tt) IsFine.error) IsFine.error)
    ]

lf_step-IsFine :
    (verdict : Req → Verdict) (r : Req) (ch : ℕ) (after : List ℕ)
    → r.token ≡ none
    → IsFine after (lf_step verdict r ch after)
unfolding lf_step
lf_step-IsFine verdict r ch after shut = IsFine-if (ch == lf) (by_verdict (verdict r)) IsFine.error
  where
    by_verdict :
        (v : Verdict)
        → IsFine after (elim v [
          | Verdict.reject ↦ Move.error r.state
          | Verdict.finish ↦ Move.done r after
          | Verdict.enter s ↦ Move.go (record r { state = s }) after
        ])
    by_verdict Verdict.reject = IsFine.error
    by_verdict Verdict.finish = IsFine.done (omega arith)
    by_verdict (Verdict.enter s) = IsFine.go (omega arith) (rw shut tt)

-- A jump over `n` bytes and a carriage return, which begins not before the first of the bytes.
jump-le :
    (held after : List ℕ) (ch n : ℕ)
    → length held ≤ n
    → length (drop (suc n) (held ++ ch ∷ after)) ≤ length after
jump-le held after ch n h =
    omega (arith, length-drop (suc n) (held ++ ch ∷ after), length-append held (ch ∷ after))

token_step-IsFine :
    (found : Req → List ℕ → List ℕ → Move) (r : Req) (ch : ℕ) (after : List ℕ)
    → ((name rest : List ℕ) → length rest ≤ length after → IsFine after (found r name rest))
    → ((held : List ℕ) (a b : ℕ)
        → (0 < length held) × (length held ≤ b)
        → TokenIs (some held) r.state r.type a b)
    → length (held_bytes r.token) ≤ r.rlen
    → IsFine after (token_step found r ch after)
unfolding token_step
token_step-IsFine found r ch after fine same short =
    let bytes = held_bytes r.token ++ ch ∷ after in
    elim (Bool-cases (leb (length bytes) r.rlen)) [
      | inl waits ↦ rw waits (
          IsFine.wait (
            same bytes r.rnarg r.rlen (
              omega (arith, length-append (held_bytes r.token) (ch ∷ after)),
              ground (arith, waits),
            )))
      | inr fits ↦ rw fits (
          IsFine-if (get_or bytes r.rlen 0 == cr)
            (fine _ _ (jump-le (held_bytes r.token) after ch r.rlen short)) IsFine.error)
    ]

body_step-IsFine :
    (next : State) (r : Req) (ch : ℕ) (after : List ℕ)
    → r.token ≡ none
    → IsFine after (body_step next r ch after)
unfolding body_step
body_step-IsFine next r ch after shut =
    IsFine-if (leb (length (ch ∷ after)) r.rlen) (IsFine.wait (rw shut tt)) (
      IsFine-if (get_or (ch ∷ after) r.rlen 0 == cr)
        (IsFine.go (jump-le [] after ch r.rlen (omega arith)) (rw shut tt)) IsFine.error)

eval_step-IsFine :
    (r : Req) (ch : ℕ) (after : List ℕ)
    → r.state ≡ State.arg2
    → redis_argeval r.type ≡ true
    → IsFine after (eval_step r ch after)
unfolding eval_step
eval_step-IsFine r ch after here eval =
    let held = held_bytes r.token in
    IsFine-if (leb (length (ch ∷ after)) r.rlen) (IsFine.wait (rw here eval)) (
      IsFine-if (get_or (ch ∷ after) r.rlen 0 == cr)
        (IsFine-if (has_keys (held ++ take r.rlen (ch ∷ after)))
          (IsFine.go (jump-le [] after ch r.rlen (omega arith)) tt) IsFine.error)
        IsFine.error)

-- A token that no state allows is none.
no_token :
    (t : Option (List ℕ)) → (elim t as (λ _. Type 0) [ none ↦ Unit | some held ↦ ⊥ ]) → t ≡ none
no_token none h = refl
no_token (some held) h = absurd h

some_token :
    (P : List ℕ → Type 0) (t : Option (List ℕ))
    → (elim t as (λ _. Type 0) [ none ↦ Unit | some held ↦ P held ])
    → (held : List ℕ) → t ≡ some held
    → P held
some_token P none h held e = cc
some_token P (some x) h held e = rw (← some_inj e) h

short_token :
    (t : Option (List ℕ)) (n : ℕ)
    → (elim t as (λ _. Type 0) [ none ↦ Unit | some held ↦ (0 < length held) × (length held ≤ n) ])
    → length (held_bytes t) ≤ n
short_token none n h = omega arith
short_token (some held) n h = h.1

eval_token :
    (t : Option (List ℕ)) (b : Bool)
    → (elim t as (λ _. Type 0) [ none ↦ Unit | some held ↦ b ≡ true ])
    → b ≡ false
    → t ≡ none
eval_token none b h e = refl
eval_token (some held) b h e = cc

found_type-IsFine :
    (r : Req) (name rest after : List ℕ)
    → length rest ≤ length after
    → IsFine after (found_type r name rest)
found_type-IsFine r name rest after le =
    IsFine-if (is_unknown (command_type name)) IsFine.error (IsFine.go le tt)

found_key-IsFine :
    (setup : Setup) (r : Req) (key rest after : List ℕ)
    → length rest ≤ length after
    → IsFine after (found_key setup r key rest)
found_key-IsFine setup r key rest after le =
    IsFine-if (setup.allocates r.keys) (IsFine.go le tt) IsFine.enomem

pub step_in-IsFine :
    (setup : Setup) (s : State) (r : Req) (ch : ℕ) (after : List ℕ)
    → r.state ≡ s
    → TokenIs r.token s r.type r.rnarg r.rlen
    → IsFine after (step_in setup s r ch after)
unfolding step_in
step_in-IsFine setup State.start r ch after here open_ =
    narg_step-IsFine r ch after (λ held e. absurd (some_token (λ _. ⊥) r.token open_ held e))
step_in-IsFine setup State.narg r ch after here open_ =
    narg_step-IsFine r ch after
      (λ held e. (some_token (λ h. IsNumber b'*' h r.rnarg) r.token open_ held e, here))
step_in-IsFine setup State.req_type_len r ch after here open_ =
    len_step-IsFine _ _ r ch after (rw here (λ held a b h. h))
      (some_token (λ h. IsNumber b'$' h r.rlen) r.token open_)
step_in-IsFine setup State.key_len r ch after here open_ =
    len_step-IsFine _ _ r ch after (rw here (λ held a b h. h))
      (some_token (λ h. IsNumber b'$' h r.rlen) r.token open_)
step_in-IsFine setup State.arg1_len r ch after here open_ =
    len_step-IsFine _ _ r ch after (rw here (λ held a b h. h))
      (some_token (λ h. IsNumber b'$' h r.rlen) r.token open_)
step_in-IsFine setup State.arg2_len r ch after here open_ =
    len_step-IsFine _ _ r ch after (rw here (λ held a b h. h))
      (some_token (λ h. IsNumber b'$' h r.rlen) r.token open_)
step_in-IsFine setup State.arg3_len r ch after here open_ =
    len_step-IsFine _ _ r ch after (rw here (λ held a b h. h))
      (some_token (λ h. IsNumber b'$' h r.rlen) r.token open_)
step_in-IsFine setup State.argn_len r ch after here open_ =
    len_step-IsFine _ _ r ch after (rw here (λ held a b h. h))
      (some_token (λ h. IsNumber b'$' h r.rlen) r.token open_)
step_in-IsFine setup State.narg_lf r ch after here open_ =
    lf_step-IsFine _ r ch after (no_token r.token open_)
step_in-IsFine setup State.req_type_len_lf r ch after here open_ =
    lf_step-IsFine _ r ch after (no_token r.token open_)
step_in-IsFine setup State.req_type_lf r ch after here open_ =
    lf_step-IsFine _ r ch after (no_token r.token open_)
step_in-IsFine setup State.key_len_lf r ch after here open_ =
    lf_step-IsFine _ r ch after (no_token r.token open_)
step_in-IsFine setup State.key_lf r ch after here open_ =
    lf_step-IsFine _ r ch after (no_token r.token open_)
step_in-IsFine setup State.arg1_len_lf r ch after here open_ =
    lf_step-IsFine _ r ch after (no_token r.token open_)
step_in-IsFine setup State.arg1_lf r ch after here open_ =
    lf_step-IsFine _ r ch after (no_token r.token open_)
step_in-IsFine setup State.arg2_len_lf r ch after here open_ =
    lf_step-IsFine _ r ch after (no_token r.token open_)
step_in-IsFine setup State.arg2_lf r ch after here open_ =
    lf_step-IsFine _ r ch after (no_token r.token open_)
step_in-IsFine setup State.arg3_len_lf r ch after here open_ =
    lf_step-IsFine _ r ch after (no_token r.token open_)
step_in-IsFine setup State.arg3_lf r ch after here open_ =
    lf_step-IsFine _ r ch after (no_token r.token open_)
step_in-IsFine setup State.argn_len_lf r ch after here open_ =
    lf_step-IsFine _ r ch after (no_token r.token open_)
step_in-IsFine setup State.argn_lf r ch after here open_ =
    lf_step-IsFine _ r ch after (no_token r.token open_)
step_in-IsFine setup State.arg1 r ch after here open_ =
    body_step-IsFine _ r ch after (no_token r.token open_)
step_in-IsFine setup State.arg3 r ch after here open_ =
    body_step-IsFine _ r ch after (no_token r.token open_)
step_in-IsFine setup State.argn r ch after here open_ =
    body_step-IsFine _ r ch after (no_token r.token open_)
step_in-IsFine setup State.arg2 r ch after here open_ = elim (Bool-cases (redis_argeval r.type)) [
  | inl eval ↦ simp eval (eval_step-IsFine r ch after here eval)
  | inr other ↦
      simp other (body_step-IsFine State.arg2_lf r ch after (eval_token r.token _ open_ other))
]
step_in-IsFine setup State.req_type r ch after here open_ =
    token_step-IsFine found_type r ch after (λ name rest le. found_type-IsFine r name rest after le)
      (rw here (λ held a b h. h)) (short_token r.token r.rlen open_)
step_in-IsFine setup State.key r ch after here open_ =
    token_step-IsFine (found_key setup) r ch after
      (λ key rest le. found_key-IsFine setup r key rest after le) (rw here (λ held a b h. h))
      (short_token r.token r.rlen open_)
