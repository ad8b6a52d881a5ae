-- ===== src/Redis/Reply/Bulk.antt =====
-- The lengths and the bytes of bulk strings in a response.
use twemproxy.Common.{
  ℕ, suc, ◌-◌, ◌^◌, ◌<◌, ◌≡◌, refl, ◌∙◌, ap, arith, List, [], ◌∷◌, ◌++◌, Bool-cases, inl, inr, true,
  false, none, some, length, leb, ◌==◌, ==_iff, ◌&&◌, ◌||◌,
}
use mathlib.Core.List.{append_assoc, append-nil}
use twemproxy.Redis.Print.{print_number, print_digits, print_number_lem}
use twemproxy.Redis.Parse.Steps.{cr, lf, is_digit, add_digit}
use twemproxy.Redis.Parse.Token.{number, IsDigits}
use twemproxy.Redis.Parse.EvalKeys.{keys_end}
use twemproxy.Redis.Reply.State.{RspState, Rsp, RspMove}
use twemproxy.Redis.Reply.Steps.{
  bulk_step, enter_step, skip_step, multibulk_step, element_step, element_len, rsp_step_in,
}
use twemproxy.Redis.Reply.Loop.{rsp_continue, rsp_run}
use twemproxy.Redis.Reply.Resume.{rsp_run_round}

pub no_minus : (d : ℕ) → is_digit d ≡ true → (d == b'-') ≡ false
no_minus d h = ground (arith, h)

-- The digits of a length, of a number of elements and of an element's length.
bulk_digits :
    (r : Rsp) (held ds x : List ℕ) (n : ℕ)
    → IsDigits ds
    → rsp_run (record r { state = RspState.bulk; token = some held; rlen = n }) (ds ++ x)
      ≡ rsp_run
          (record r { state = RspState.bulk; token = some (held ++ ds); rlen = number n ds })
          x
unfolding rsp_step_in bulk_step
bulk_digits r held [] x n ok_ = rw (append-nil held) refl
bulk_digits r held (d ∷ ds) x n (is_d, ok_) =
    rsp_run_round (record r { state = RspState.bulk; token = some held; rlen = n }) d (ds ++ x)
    ∙ rw (no_minus d is_d, is_d)
        (bulk_digits r (held ++ d ∷ []) ds x (add_digit n d) ok_
          ∙ rw (append_assoc held (d ∷ []) ds) refl)

multibulk_digits :
    (r : Rsp) (held ds x : List ℕ) (n : ℕ)
    → IsDigits ds
    → rsp_run (record r { state = RspState.multibulk; token = some held; rnarg = n }) (ds ++ x)
      ≡ rsp_run
          (record r { state = RspState.multibulk; token = some (held ++ ds); rnarg = number n ds })
          x
unfolding rsp_step_in multibulk_step
multibulk_digits r held [] x n ok_ = rw (append-nil held) refl
multibulk_digits r held (d ∷ ds) x n (is_d, ok_) =
    rsp_run_round (record r { state = RspState.multibulk; token = some held; rnarg = n }) d
      (ds ++ x)
    ∙ rw (no_minus d is_d, is_d)
        (multibulk_digits r (held ++ d ∷ []) ds x (add_digit n d) ok_
          ∙ rw (append_assoc held (d ∷ []) ds) refl)

element_digits :
    (r : Rsp) (held ds x : List ℕ) (n : ℕ)
    → IsDigits ds
    → rsp_run
        (record r { state = RspState.multibulk_argn_len; token = some held; rlen = n })
        (ds ++ x)
      ≡ rsp_run
          (record r {
            state = RspState.multibulk_argn_len;
            token = some (held ++ ds);
            rlen = number n ds;
          })
          x
unfolding rsp_step_in element_step
element_digits r held [] x n ok_ = rw (append-nil held) refl
element_digits r held (d ∷ ds) x n (is_d, ok_) =
    rsp_run_round (record r { state = RspState.multibulk_argn_len; token = some held; rlen = n }) d
      (ds ++ x)
    ∙ rw is_d (
        element_digits r (held ++ d ∷ []) ds x (add_digit n d) ok_
        ∙ rw (append_assoc held (d ∷ []) ds) refl)

two_bytes : (sign : ℕ) (ds : List ℕ) → 0 < length ds → leb (length (sign ∷ ds)) 1 ≡ false
two_bytes sign ds h = ground (arith, h)

-- The length of a bulk string, and its line feed.
pub run_bulk_len :
    (r : Rsp) (n : ℕ) (x : List ℕ)
    → n < 2 ^ 32
    → rsp_run
        (record r { state = RspState.bulk; token = none })
        (b'$' ∷ print_number n ++ cr ∷ lf ∷ x)
      ≡ rsp_run (record r { state = RspState.bulk_arg; token = none; rlen = n }) x
unfolding rsp_step_in bulk_step enter_step
run_bulk_len r n x small =
    let spelled = print_number_lem n small in
    let ds = print_number n in
    rsp_run_round (record r { state = RspState.bulk; token = none }) b'$' (ds ++ cr ∷ lf ∷ x)
    ∙ bulk_digits r (b'$' ∷ []) ds (cr ∷ lf ∷ x) 0 (spelled.0)
    ∙ ap
        (λ k.
          rsp_run (record r { state = RspState.bulk; token = some (b'$' ∷ ds); rlen = k })
            (cr ∷ lf ∷ x))
        (spelled.1)
    ∙ rsp_run_round (record r { state = RspState.bulk; token = some (b'$' ∷ ds); rlen = n }) cr
        (lf ∷ x)
    ∙ rw (two_bytes b'$' ds (spelled.2))
        (rsp_run_round (record r { state = RspState.bulk_lf; token = none; rlen = n }) lf x)

-- The number of elements, and its carriage return.
pub run_multibulk_len :
    (r : Rsp) (n : ℕ) (x : List ℕ)
    → n < 2 ^ 32
    → rsp_run
        (record r { state = RspState.multibulk; token = none })
        (b'*' ∷ print_number n ++ cr ∷ x)
      ≡ rsp_run
          (record r { state = RspState.multibulk_narg_lf; token = none; narg = n; rnarg = n })
          x
unfolding rsp_step_in multibulk_step
run_multibulk_len r n x small =
    let spelled = print_number_lem n small in
    let ds = print_number n in
    rsp_run_round (record r { state = RspState.multibulk; token = none }) b'*' (ds ++ cr ∷ x)
    ∙ multibulk_digits r (b'*' ∷ []) ds (cr ∷ x) 0 (spelled.0)
    ∙ ap
        (λ k.
          rsp_run (record r { state = RspState.multibulk; token = some (b'*' ∷ ds); rnarg = k })
            (cr ∷ x))
        (spelled.1)
    ∙ rsp_run_round (record r { state = RspState.multibulk; token = some (b'*' ∷ ds); rnarg = n })
        cr x
    ∙ rw (two_bytes b'*' ds (spelled.2)) refl

one_is_short : (1 == 1 && length (b'$' ∷ print_number 1) == 3) ≡ false
unfolding print_number print_digits
one_is_short = refl

-- No length that is printed looks like that of an absent element.
not_absent : (n : ℕ) → (n == 1 && length (b'$' ∷ print_number n) == 3) ≡ false
not_absent n = elim (Bool-cases (n == 1)) [
  | inl one ↦ rw ((==_iff n 1).0 one) one_is_short
  | inr other ↦ simp other refl
]

element_end :
    (r : Rsp) (m n : ℕ) (x : List ℕ)
    → 0 < length (print_number n)
    → element_len (record r { rnarg = suc m; rlen = n }) (b'$' ∷ print_number n) x
      ≡ RspMove.go
          (record r { state = RspState.multibulk_argn_len_lf; token = none; rnarg = m; rlen = n })
          x
unfolding element_len
element_end r m n x h =
    let open_ : (leb (length (b'$' ∷ print_number n)) 1 || suc m == 0) ≡ false =
      ground (arith, h) in
    let less : suc m - 1 ≡ m = omega arith in rw (open_, not_absent n, less) refl

-- The length of an element, and its line feed.
pub run_element_len :
    (r : Rsp) (m n : ℕ) (x : List ℕ)
    → n < 2 ^ 32
    → rsp_run
        (record r { state = RspState.multibulk_argn_len; token = none; rnarg = suc m })
        (b'$' ∷ print_number n ++ cr ∷ lf ∷ x)
      ≡ rsp_run (record r { state = RspState.multibulk_argn; token = none; rnarg = m; rlen = n }) x
unfolding rsp_step_in element_step enter_step
run_element_len r m n x small =
    let spelled = print_number_lem n small in
    let ds = print_number n in
    rsp_run_round (record r { state = RspState.multibulk_argn_len; token = none; rnarg = suc m })
      b'$' (ds ++ cr ∷ lf ∷ x)
    ∙ element_digits (record r { rnarg = suc m }) (b'$' ∷ []) ds (cr ∷ lf ∷ x) 0 (spelled.0)
    ∙ ap
        (λ k.
          rsp_run
            (record r {
              state = RspState.multibulk_argn_len;
              token = some (b'$' ∷ ds);
              rnarg = suc m;
              rlen = k;
            })
            (cr ∷ lf ∷ x))
        (spelled.1)
    ∙ rsp_run_round
        (record r {
          state = RspState.multibulk_argn_len;
          token = some (b'$' ∷ ds);
          rnarg = suc m;
          rlen = n;
        })
        cr (lf ∷ x)
    ∙ ap (rsp_continue rsp_run) (
        element_end (record r { state = RspState.multibulk_argn_len; token = some (b'$' ∷ ds) }) m n
          (lf ∷ x) (spelled.2))
    ∙ rsp_run_round
        (record r { state = RspState.multibulk_argn_len_lf; token = none; rnarg = m; rlen = n }) lf
        x

skip_none :
    (r : Rsp) (next : RspState) (x : List ℕ)
    → skip_step next (record r { rlen = 0 }) cr x
      ≡ RspMove.go (record r { state = next; rlen = 0 }) x
unfolding skip_step
skip_none r next x = let h = keys_end [] x in simp (h.0) refl

skip_some :
    (r : Rsp) (next : RspState) (b : ℕ) (bytes x : List ℕ)
    → skip_step next (record r { rlen = length (b ∷ bytes) }) b (bytes ++ cr ∷ x)
      ≡ RspMove.go (record r { state = next; rlen = 0 }) x
unfolding skip_step
skip_some r next b bytes x = let h = keys_end (b ∷ bytes) x in simp (h.0, h.1, h.3) refl

-- The bytes of a string, and their carriage return.
pub run_skip :
    (r : Rsp) (s next : RspState) (bytes x : List ℕ)
    → ((n ch : ℕ) (after : List ℕ)
        → rsp_step_in s (record r { state = s; rlen = n }) ch after
          ≡ skip_step next (record r { state = s; rlen = n }) ch after)
    → rsp_run (record r { state = s; rlen = length bytes }) (bytes ++ cr ∷ x)
      ≡ rsp_run (record r { state = next; rlen = 0 }) x
run_skip r s next [] x is_skip =
    rsp_run_round (record r { state = s; rlen = 0 }) cr x
    ∙ ap (rsp_continue rsp_run) (is_skip 0 cr x ∙ skip_none (record r { state = s }) next x)
run_skip r s next (b ∷ bytes) x is_skip =
    rsp_run_round (record r { state = s; rlen = length (b ∷ bytes) }) b (bytes ++ cr ∷ x)
    ∙ ap (rsp_continue rsp_run) (
        is_skip (length (b ∷ bytes)) b (bytes ++ cr ∷ x)
        ∙ skip_some (record r { state = s }) next b bytes x)
