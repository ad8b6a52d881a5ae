-- ===== src/Redis/Parse/Extend.antt =====
-- A round of the loop with more bytes behind those in the buffer.
use twemproxy.Common.{
  ℕ, suc, ◌-◌, ◌≤◌, ◌<◌, ◌≡◌, refl, ◌∙◌, arith, List, ◌∷◌, ◌++◌, Bool, true, false, Bool-cases, inl,
  inr, Option, none, some, ◌==◌, leb, if◌then◌else◌, length, get_or, take, drop, length-append,
  get_or-append_left, get_or-append_right, drop-append_left, drop-append_right, take-append_left,
  take-append_right,
}
use mathlib.Core.List.{append_assoc}
use twemproxy.Redis.Tables.{redis_argeval}
use twemproxy.Redis.Parse.State.{State, Req, Setup, Move, Verdict}
use twemproxy.Redis.Parse.Steps.{
  cr, lf, is_digit, narg_step, len_step, lf_step, token_step, body_step, eval_step, arg2_step,
  step_in, has_keys, found_type, found_key, held_bytes, is_unknown,
}
use twemproxy.Redis.Commands.{command_type}

-- What a move becomes where the bytes `c ∷ more` stand behind the buffer. One that waits goes on with
-- the first of them, in the same state, by the step `next`.
pub data Extends (s : State) (next : Req → ℕ → List ℕ → Move) (c : ℕ) (more : List ℕ)
    : Move → Move → Type 0 where
  go :
      {r : Req} {rest : List ℕ}
      → Extends s next c more (Move.go r rest) (Move.go r (rest ++ c ∷ more))
  wait :
      {r : Req} {m : Move} → r.state ≡ s → m ≡ next r c more → Extends s next c more (Move.wait r) m
  done :
      {r : Req} {rest : List ℕ}
      → Extends s next c more (Move.done r rest) (Move.done r (rest ++ c ∷ more))
  error : {s' : State} → Extends s next c more (Move.error s') (Move.error s')
  enomem : {s' : State} → Extends s next c more (Move.enomem s') (Move.enomem s')

module _ {s : State} {next : Req → ℕ → List ℕ → Move} {c : ℕ} {more : List ℕ} where
  Extends-if :
      {x y x' y' : Move} (b : Bool)
      → Extends s next c more x x'
      → Extends s next c more y y'
      → Extends s next c more (if b then x else y) (if b then x' else y')
  Extends-if true hx hy = hx
  Extends-if false hx hy = hy

module _ (s : State) (next : Req → ℕ → List ℕ → Move) (c : ℕ) (more : List ℕ) where
  narg_step-Extends :
      (r : Req) (ch : ℕ) (after : List ℕ)
      → Extends s next c more (narg_step r ch after) (narg_step r ch (after ++ c ∷ more))
  unfolding narg_step
  narg_step-Extends r ch after = by_token r.token
    where
      by_token :
          (t : Option (List ℕ))
          → Extends s next c more
              (narg_step (record r { token = t }) ch after)
              (narg_step (record r { token = t }) ch (after ++ c ∷ more))
      by_token none = Extends-if (ch == b'*') Extends.go Extends.error
      by_token (some held) =
          Extends-if (is_digit ch) Extends.go (
            Extends-if (ch == cr) (Extends-if (r.rnarg == 0) Extends.error Extends.go)
              Extends.error)

  len_step-Extends :
      (accepts : Req → List ℕ → Bool) (s' : State) (r : Req) (ch : ℕ) (after : List ℕ)
      → Extends s next c more
          (len_step accepts s' r ch after)
          (len_step accepts s' r ch (after ++ c ∷ more))
  unfolding len_step
  len_step-Extends accepts s' r ch after = by_token r.token
    where
      by_token :
          (t : Option (List ℕ))
          → Extends s next c more
              (len_step accepts s' (record r { token = t }) ch after)
              (len_step accepts s' (record r { token = t }) ch (after ++ c ∷ more))
      by_token none = Extends-if (ch == b'$') Extends.go Extends.error
      by_token (some held) = Extends-if (is_digit ch) Extends.go (
          Extends-if (ch == cr) (Extends-if (accepts _ held) Extends.go Extends.error)
            Extends.error)

  lf_step-Extends :
      (verdict : Req → Verdict) (r : Req) (ch : ℕ) (after : List ℕ)
      → Extends s next c more
          (lf_step verdict r ch after)
          (lf_step verdict r ch (after ++ c ∷ more))
  unfolding lf_step
  lf_step-Extends verdict r ch after = Extends-if (ch == lf) (by_verdict (verdict r)) Extends.error
    where
      by_verdict :
          (v : Verdict)
          → Extends s next c more
              (elim v [
                | Verdict.reject ↦ Move.error r.state
                | Verdict.finish ↦ Move.done r after
                | Verdict.enter s' ↦ Move.go (record r { state = s' }) after
              ])
              (elim v [
                | Verdict.reject ↦ Move.error r.state
                | Verdict.finish ↦ Move.done r (after ++ c ∷ more)
                | Verdict.enter s' ↦ Move.go (record r { state = s' }) (after ++ c ∷ more)
              ])
      by_verdict Verdict.reject = Extends.error
      by_verdict Verdict.finish = Extends.done
      by_verdict (Verdict.enter s') = Extends.go

-- Where the bytes at hand reach to the place of the carriage return, more bytes change nothing.
pub within :
    (bytes rest : List ℕ) (n : ℕ)
    → leb (length bytes) n ≡ false
    → (leb (length (bytes ++ rest)) n ≡ false)
      × (get_or (bytes ++ rest) n 0 ≡ get_or bytes n 0)
      × (take n (bytes ++ rest) ≡ take n bytes)
      × (drop (suc n) (bytes ++ rest) ≡ drop (suc n) bytes ++ rest)
within bytes rest n fits =
    let lt : n < length bytes = ground (arith, fits) in
    (
      ground (arith, length-append bytes rest, lt),
      get_or-append_left bytes rest n 0 lt,
      take-append_left bytes rest n (omega arith),
      drop-append_left bytes rest (suc n) (omega arith),
    )

-- Where they do not, the place is counted in the bytes behind them.
pub behind :
    (bytes rest : List ℕ) (n : ℕ)
    → leb (length bytes) n ≡ true
    → (leb (length (bytes ++ rest)) n ≡ leb (length rest) (n - length bytes))
      × (get_or (bytes ++ rest) n 0 ≡ get_or rest (n - length bytes) 0)
      × (take n (bytes ++ rest) ≡ bytes ++ take (n - length bytes) rest)
      × (drop (suc n) (bytes ++ rest) ≡ drop (suc (n - length bytes)) rest)
      × (n - length (bytes ++ rest) ≡ n - length bytes - length rest)
behind bytes rest n waits =
    let le : length bytes ≤ n = ground (arith, waits) in
    let less : suc n - length bytes ≡ suc (n - length bytes) = omega arith in
    (
      ground (arith, length-append bytes rest, le),
      get_or-append_right bytes rest n 0 le,
      take-append_right bytes rest n le,
      rw (← less) (drop-append_right bytes rest (suc n) (omega arith)),
      omega (arith, length-append bytes rest),
    )

body_step-Extends :
    (s s' : State) (next : Req → ℕ → List ℕ → Move) (r : Req) (ch c : ℕ) (after more : List ℕ)
    → r.state ≡ s
    → ((n : ℕ) → body_step s' (record r { rlen = n }) c more ≡ next (record r { rlen = n }) c more)
    → Extends s next c more (body_step s' r ch after) (body_step s' r ch (after ++ c ∷ more))
unfolding body_step
body_step-Extends s s' next r ch c after more here goes_on =
    elim (Bool-cases (leb (length (ch ∷ after)) r.rlen)) [
      | inl waits ↦
          let b = behind (ch ∷ after) (c ∷ more) r.rlen waits in
          simp waits (Extends.wait here (simp (b.0, b.1, b.3, b.4) refl ∙ goes_on _))
      | inr fits ↦
          let w = within (ch ∷ after) (c ∷ more) r.rlen fits in
          simp (fits, w.0, w.1, w.3)
            (Extends-if (get_or (ch ∷ after) r.rlen 0 == cr) Extends.go Extends.error)
    ]

eval_step-Extends :
    (s : State) (next : Req → ℕ → List ℕ → Move) (r : Req) (ch c : ℕ) (after more : List ℕ)
    → r.state ≡ s
    → ((t : Option (List ℕ)) (n : ℕ)
        → eval_step (record r { token = t; rlen = n }) c more
          ≡ next (record r { token = t; rlen = n }) c more)
    → Extends s next c more (eval_step r ch after) (eval_step r ch (after ++ c ∷ more))
unfolding eval_step
eval_step-Extends s next r ch c after more here goes_on =
    let held = held_bytes r.token in
    elim (Bool-cases (leb (length (ch ∷ after)) r.rlen)) [
      | inl waits ↦
          let b = behind (ch ∷ after) (c ∷ more) r.rlen waits in
          simp waits (
            Extends.wait here (
              simp (b.0, b.1, b.2, b.3, b.4, ← append_assoc held (ch ∷ after) (c ∷ more))
                (simp
                  (← append_assoc held (ch ∷ after)
                    (take (r.rlen - length (ch ∷ after)) (c ∷ more)))
                  refl)
              ∙ goes_on _ _))
      | inr fits ↦
          let w = within (ch ∷ after) (c ∷ more) r.rlen fits in
          simp (fits, w.0, w.1, w.2, w.3)
            (Extends-if (get_or (ch ∷ after) r.rlen 0 == cr)
              (Extends-if (has_keys (held ++ take r.rlen (ch ∷ after))) Extends.go Extends.error)
              Extends.error)
    ]

token_step-Extends :
    (s : State) (found : Req → List ℕ → List ℕ → Move) (r : Req) (ch c : ℕ) (after more : List ℕ)
    → r.state ≡ s
    → ((t : Option (List ℕ)) (name rest : List ℕ)
        → found (record r { token = t }) name rest ≡ found r name rest)
    → ((name rest : List ℕ)
        → Extends s (token_step found) c more (found r name rest) (found r name (rest ++ c ∷ more)))
    → Extends s
        (token_step found)
        c
        more
        (token_step found r ch after)
        (token_step found r ch (after ++ c ∷ more))
unfolding token_step
token_step-Extends s found r ch c after more here same ext =
    let bytes = held_bytes r.token ++ ch ∷ after in
    let joined = append_assoc (held_bytes r.token) (ch ∷ after) (c ∷ more) in
    elim (Bool-cases (leb (length bytes) r.rlen)) [
      | inl waits ↦ simp waits (Extends.wait here (simp (joined, same) refl))
      | inr fits ↦
          let w = within bytes (c ∷ more) r.rlen fits in
          simp (fits, ← joined, w.0, w.1, w.2, w.3)
            (Extends-if (get_or bytes r.rlen 0 == cr) (ext _ _) Extends.error)
    ]

arg2_step-Extends :
    (s : State) (r : Req) (ch c : ℕ) (after more : List ℕ)
    → r.state ≡ s
    → Extends s arg2_step c more (arg2_step r ch after) (arg2_step r ch (after ++ c ∷ more))
arg2_step-Extends s r ch c after more here = elim (Bool-cases (redis_argeval r.type)) [
  | inl eval ↦
      simp eval (eval_step-Extends s arg2_step r ch c after more here (λ t n. simp eval refl))
  | inr other ↦
      simp other
        (body_step-Extends s State.arg2_lf arg2_step r ch c after more here (λ n. simp other refl))
]

found_type-Extends :
    (s : State) (next : Req → ℕ → List ℕ → Move) (r : Req) (c : ℕ) (more name rest : List ℕ)
    → Extends s next c more (found_type r name rest) (found_type r name (rest ++ c ∷ more))
found_type-Extends s next r c more name rest =
    Extends-if (is_unknown (command_type name)) Extends.error Extends.go

found_key-Extends :
    (setup : Setup) (s : State) (next : Req → ℕ → List ℕ → Move) (r : Req) (c : ℕ)
    (more key rest : List ℕ)
    → Extends s next c more (found_key setup r key rest) (found_key setup r key (rest ++ c ∷ more))
found_key-Extends setup s next r c more key rest =
    Extends-if (setup.allocates r.keys) Extends.go Extends.enomem

pub step_in-Extends :
    (setup : Setup) (s : State) (r : Req) (ch c : ℕ) (after more : List ℕ)
    → r.state ≡ s
    → Extends s
        (step_in setup s)
        c
        more
        (step_in setup s r ch after)
        (step_in setup s r ch (after ++ c ∷ more))
unfolding step_in
step_in-Extends setup State.start r ch c after more here = narg_step-Extends _ _ c more r ch after
step_in-Extends setup State.narg r ch c after more here = narg_step-Extends _ _ c more r ch after
step_in-Extends setup State.req_type_len r ch c after more here =
    len_step-Extends _ _ c more _ _ r ch after
step_in-Extends setup State.key_len r ch c after more here =
    len_step-Extends _ _ c more _ _ r ch after
step_in-Extends setup State.arg1_len r ch c after more here =
    len_step-Extends _ _ c more _ _ r ch after
step_in-Extends setup State.arg2_len r ch c after more here =
    len_step-Extends _ _ c more _ _ r ch after
step_in-Extends setup State.arg3_len r ch c after more here =
    len_step-Extends _ _ c more _ _ r ch after
step_in-Extends setup State.argn_len r ch c after more here =
    len_step-Extends _ _ c more _ _ r ch after
step_in-Extends setup State.narg_lf r ch c after more here = lf_step-Extends _ _ c more _ r ch after
step_in-Extends setup State.req_type_len_lf r ch c after more here =
    lf_step-Extends _ _ c more _ r ch after
step_in-Extends setup State.req_type_lf r ch c after more here =
    lf_step-Extends _ _ c more _ r ch after
step_in-Extends setup State.key_len_lf r ch c after more here =
    lf_step-Extends _ _ c more _ r ch after
step_in-Extends setup State.key_lf r ch c after more here = lf_step-Extends _ _ c more _ r ch after
step_in-Extends setup State.arg1_len_lf r ch c after more here =
    lf_step-Extends _ _ c more _ r ch after
step_in-Extends setup State.arg1_lf r ch c after more here = lf_step-Extends _ _ c more _ r ch after
step_in-Extends setup State.arg2_len_lf r ch c after more here =
    lf_step-Extends _ _ c more _ r ch after
step_in-Extends setup State.arg2_lf r ch c after more here = lf_step-Extends _ _ c more _ r ch after
step_in-Extends setup State.arg3_len_lf r ch c after more here =
    lf_step-Extends _ _ c more _ r ch after
step_in-Extends setup State.arg3_lf r ch c after more here = lf_step-Extends _ _ c more _ r ch after
step_in-Extends setup State.argn_len_lf r ch c after more here =
    lf_step-Extends _ _ c more _ r ch after
step_in-Extends setup State.argn_lf r ch c after more here = lf_step-Extends _ _ c more _ r ch after
step_in-Extends setup State.arg1 r ch c after more here =
    body_step-Extends _ _ _ r ch c after more here (λ n. refl)
step_in-Extends setup State.arg3 r ch c after more here =
    body_step-Extends _ _ _ r ch c after more here (λ n. refl)
step_in-Extends setup State.argn r ch c after more here =
    body_step-Extends _ _ _ r ch c after more here (λ n. refl)
step_in-Extends setup State.arg2 r ch c after more here = arg2_step-Extends _ r ch c after more here
step_in-Extends setup State.req_type r ch c after more here =
    token_step-Extends _ found_type r ch c after more here (λ t name rest. refl)
      (found_type-Extends _ _ r c more)
step_in-Extends setup State.key r ch c after more here =
    token_step-Extends _ (found_key setup) r ch c after more here (λ t name rest. refl)
      (found_key-Extends setup _ _ r c more)
