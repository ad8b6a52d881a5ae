-- ===== src/Redis/Reply/Grow.antt =====
-- A round of the loop of redis_parse_rsp: it takes a byte or goes back for once, and more bytes behind
-- the buffer do not change it.
use twemproxy.Common.{
  ℕ, suc, ◌≤◌, ◌≡◌, refl, ◌∙◌, arith, List, ◌∷◌, ◌++◌, Bool, true, false, Bool-cases, inl, inr,
  Option, none, some, ◌==◌, leb, ◌&&◌, ◌||◌, if◌then◌else◌, length, get_or, length-drop,
}
use twemproxy.Redis.Parse.Steps.{cr, lf, is_digit}
use twemproxy.Redis.Parse.Extend.{within, behind}
use twemproxy.Redis.Reply.State.{RspState, Rsp, RspMove}
use twemproxy.Redis.Reply.Steps.{
  start_step, error_step, integer_step, simple_step, runto_step, end_step, bulk_step, enter_step,
  skip_step, multibulk_step, next_step, element_len, element_step, rsp_step_in,
}

-- The states in which `p` may go back.
unfoldable pub backs : RspState → ℕ
backs RspState.start = 1
backs RspState.multibulk_argn_len = 1
backs _ = 0

pub backs-le : (s : RspState) → backs s ≤ 1
unfolding backs
backs-le RspState.start = omega arith
backs-le RspState.multibulk_argn_len = omega arith
backs-le _ = omega arith

-- A move from the state `s` with `after` behind the byte, and that move with the bytes `c ∷ more` behind
-- the buffer besides.
pub data Grows (s : RspState) (c : ℕ) (more after : List ℕ) : RspMove → RspMove → Type 0 where
  go :
      {r : Rsp} {rest : List ℕ}
      → length rest ≤ length after
      → Grows s c more after (RspMove.go r rest) (RspMove.go r (rest ++ c ∷ more))
  back :
      {r : Rsp} {ch : ℕ}
      → backs s ≡ 1
      → backs r.state ≡ 0
      → Grows s c more after (RspMove.go r (ch ∷ after)) (RspMove.go r (ch ∷ after ++ c ∷ more))
  wait :
      {r : Rsp} {m : RspMove}
      → r.state ≡ s
      → m ≡ rsp_step_in s r c more
      → Grows s c more after (RspMove.wait r) m
  done :
      {r : Rsp} {rest : List ℕ}
      → length rest ≤ length after
      → Grows s c more after (RspMove.done r rest) (RspMove.done r (rest ++ c ∷ more))
  error : {s' : RspState} → Grows s c more after (RspMove.error s') (RspMove.error s')

Grows-if :
    {s : RspState} {c : ℕ} {more after : List ℕ} {x y x' y' : RspMove} (b : Bool)
    → Grows s c more after x x'
    → Grows s c more after y y'
    → Grows s c more after (if b then x else y) (if b then x' else y')
Grows-if true hx hy = hx
Grows-if false hx hy = hy

module _ (s : RspState) (c : ℕ) (more : List ℕ) (r : Rsp) (ch : ℕ) (after : List ℕ) where
  -- The step `f` grows.
  GrowsBy : (Rsp → ℕ → List ℕ → RspMove) → Type 0
  GrowsBy f = Grows s c more after (f r ch after) (f r ch (after ++ c ∷ more))

module _ (s : RspState) (c : ℕ) (more : List ℕ) (r : Rsp) (ch : ℕ) (after : List ℕ) where
  taken :
      {r' : Rsp} → Grows s c more after (RspMove.go r' after) (RspMove.go r' (after ++ c ∷ more))
  taken = Grows.go (omega arith)

  start_step-Grows : backs s ≡ 1 → GrowsBy s c more r ch after start_step
  unfolding start_step backs GrowsBy
  start_step-Grows h = Grows-if (ch == b'+') (Grows.back h refl) (
      Grows-if (ch == b'-') (Grows.back h refl) (
        Grows-if (ch == b':') (Grows.back h refl) (
          Grows-if (ch == b'$') (Grows.back h refl)
            (Grows-if (ch == b'*') (Grows.back h refl) Grows.error))))

  error_step-Grows : GrowsBy s c more r ch after error_step
  unfolding error_step GrowsBy
  error_step-Grows = by_token r.token
    where
      by_token :
          (t : Option (List ℕ))
          → Grows s c more after
              (error_step (record r { token = t }) ch after)
              (error_step (record r { token = t }) ch (after ++ c ∷ more))
      by_token none = Grows-if (ch == b'-') taken Grows.error
      by_token (some held) = Grows-if (ch == b' ' || ch == cr) taken taken

  integer_step-Grows : GrowsBy s c more r ch after integer_step
  unfolding integer_step GrowsBy
  integer_step-Grows =
      Grows-if (ch == cr) taken
        (Grows-if (ch == b'-') taken (Grows-if (is_digit ch) taken Grows.error))

  simple_step-Grows : GrowsBy s c more r ch after simple_step
  unfolding simple_step GrowsBy
  simple_step-Grows = Grows-if (ch == cr) taken taken

  runto_step-Grows : GrowsBy s c more r ch after runto_step
  unfolding runto_step GrowsBy
  runto_step-Grows = Grows-if (ch == cr) taken taken

  end_step-Grows : GrowsBy s c more r ch after end_step
  unfolding end_step GrowsBy
  end_step-Grows = Grows-if (ch == lf) (Grows.done (omega arith)) Grows.error

  enter_step-Grows : (next : RspState) → GrowsBy s c more r ch after (enter_step next)
  unfolding enter_step GrowsBy
  enter_step-Grows next = Grows-if (ch == lf) taken Grows.error

  next_step-Grows : GrowsBy s c more r ch after next_step
  unfolding next_step GrowsBy
  next_step-Grows =
      Grows-if (ch == lf) (Grows-if (r.rnarg == 0) (Grows.done (omega arith)) taken) Grows.error

  bulk_step-Grows : GrowsBy s c more r ch after bulk_step
  unfolding bulk_step GrowsBy
  bulk_step-Grows = by_token r.token
    where
      by_token :
          (t : Option (List ℕ))
          → Grows s c more after
              (bulk_step (record r { token = t }) ch after)
              (bulk_step (record r { token = t }) ch (after ++ c ∷ more))
      by_token none = Grows-if (ch == b'$') taken Grows.error
      by_token (some held) = Grows-if (ch == b'-') taken (
          Grows-if (is_digit ch) taken
            (Grows-if (ch == cr) (Grows-if (leb (length held) 1) Grows.error taken) Grows.error))

  multibulk_step-Grows : GrowsBy s c more r ch after multibulk_step
  unfolding multibulk_step GrowsBy
  multibulk_step-Grows = by_token r.token
    where
      by_token :
          (t : Option (List ℕ))
          → Grows s c more after
              (multibulk_step (record r { token = t }) ch after)
              (multibulk_step (record r { token = t }) ch (after ++ c ∷ more))
      by_token none = Grows-if (ch == b'*') taken Grows.error
      by_token (some held) = Grows-if (ch == b'-') taken (
          Grows-if (is_digit ch) taken
            (Grows-if (ch == cr) (Grows-if (leb (length held) 1) Grows.error taken) Grows.error))

  element_step-Grows : backs s ≡ 1 → GrowsBy s c more r ch after element_step
  unfolding element_step element_len backs GrowsBy
  element_step-Grows h = by_token r.token
    where
      by_token :
          (t : Option (List ℕ))
          → Grows s c more after
              (element_step (record r { token = t }) ch after)
              (element_step (record r { token = t }) ch (after ++ c ∷ more))
      by_token none = Grows-if (ch == b'*') (Grows.back h refl) (
          Grows-if (ch == b':' || ch == b'+' || ch == b'-') taken
            (Grows-if (ch == b'$') taken Grows.error))
      by_token (some held) = Grows-if (is_digit ch) taken (
          Grows-if (ch == b'-') taken (
            Grows-if (ch == cr)
              (Grows-if (leb (length held) 1 || r.rnarg == 0) Grows.error
                (Grows-if (r.rlen == 1 && length held == 3) taken taken))
              Grows.error))

  skip_step-Grows :
      (next : RspState)
      → r.state ≡ s
      → ((n : ℕ)
          → skip_step next (record r { rlen = n }) c more
            ≡ rsp_step_in s (record r { rlen = n }) c more)
      → GrowsBy s c more r ch after (skip_step next)
  unfolding skip_step GrowsBy
  skip_step-Grows next here goes_on = elim (Bool-cases (leb (length (ch ∷ after)) r.rlen)) [
    | inl waits ↦
        let b = behind (ch ∷ after) (c ∷ more) r.rlen waits in
        simp waits (Grows.wait here (simp (b.0, b.1, b.3, b.4) refl ∙ goes_on _))
    | inr fits ↦
        let w = within (ch ∷ after) (c ∷ more) r.rlen fits in
        simp (fits, w.0, w.1, w.3)
          (Grows-if (get_or (ch ∷ after) r.rlen 0 == cr)
            (Grows.go (omega (arith, length-drop (suc r.rlen) (ch ∷ after)))) Grows.error)
  ]

pub rsp_step-Grows :
    (s : RspState) (r : Rsp) (ch c : ℕ) (after more : List ℕ)
    → r.state ≡ s
    → Grows s c more after (rsp_step_in s r ch after) (rsp_step_in s r ch (after ++ c ∷ more))
unfolding rsp_step_in GrowsBy backs
rsp_step-Grows RspState.start r ch c after more here = start_step-Grows _ c more r ch after refl
rsp_step-Grows RspState.status r ch c after more here = Grows.go (omega arith)
rsp_step-Grows RspState.error r ch c after more here = error_step-Grows _ c more r ch after
rsp_step-Grows RspState.integer r ch c after more here = Grows.go (omega arith)
rsp_step-Grows RspState.integer_start r ch c after more here =
    integer_step-Grows _ c more r ch after
rsp_step-Grows RspState.simple r ch c after more here = simple_step-Grows _ c more r ch after
rsp_step-Grows RspState.runto_crlf r ch c after more here = runto_step-Grows _ c more r ch after
rsp_step-Grows RspState.almost_done r ch c after more here = end_step-Grows _ c more r ch after
rsp_step-Grows RspState.bulk r ch c after more here = bulk_step-Grows _ c more r ch after
rsp_step-Grows RspState.bulk_lf r ch c after more here = enter_step-Grows _ c more r ch after _
rsp_step-Grows RspState.bulk_arg r ch c after more here =
    skip_step-Grows _ c more r ch after _ here (λ n. refl)
rsp_step-Grows RspState.bulk_arg_lf r ch c after more here = end_step-Grows _ c more r ch after
rsp_step-Grows RspState.multibulk r ch c after more here = multibulk_step-Grows _ c more r ch after
rsp_step-Grows RspState.multibulk_narg_lf r ch c after more here =
    next_step-Grows _ c more r ch after
rsp_step-Grows RspState.multibulk_argn_len r ch c after more here =
    element_step-Grows _ c more r ch after refl
rsp_step-Grows RspState.multibulk_argn_len_lf r ch c after more here =
    enter_step-Grows _ c more r ch after _
rsp_step-Grows RspState.multibulk_argn r ch c after more here =
    skip_step-Grows _ c more r ch after _ here (λ n. refl)
rsp_step-Grows RspState.multibulk_argn_lf r ch c after more here =
    next_step-Grows _ c more r ch after
