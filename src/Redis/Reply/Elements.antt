-- ===== src/Redis/Reply/Elements.antt =====
-- The words of an error, the digits of an integer and the elements of a multi bulk in redis_parse_rsp.
use twemproxy.Common.{
  ℕ, suc, ◌-◌, ◌^◌, ◌<◌, ◌≡◌, refl, ◌∙◌, ap, arith, List, [], ◌∷◌, ◌++◌, true, false, none, some,
  length, ◌==◌, ◌||◌,
}
use mathlib.Core.List.{append_assoc, append-nil}
use twemproxy.Redis.Print.{print_number}
use twemproxy.Redis.Parse.Steps.{cr, lf, is_digit, add_digit}
use twemproxy.Redis.Parse.Token.{number, IsDigits}
use twemproxy.Redis.Reply.State.{RspState, Rsp, RspMove}
use twemproxy.Redis.Reply.Steps.{
  error_words, error_type, error_step, integer_step, simple_step, element_step, element_len,
  rsp_step_in,
}
use twemproxy.Redis.Reply.Loop.{rsp_continue, rsp_run}
use twemproxy.Redis.Reply.Resume.{rsp_run_round}
use twemproxy.Redis.Reply.Line.{IsLine}
use twemproxy.Redis.Reply.Bulk.{no_minus, run_element_len, run_skip}
use twemproxy.Redis.Reply.Print.{IsWord}

-- An error, behind the bytes `held`, to the byte that ends its first word; that byte is taken.
pub run_error :
    (r : Rsp) (held word : List ℕ) (stop : ℕ) (x : List ℕ)
    → IsWord word
    → (stop == b' ' || stop == cr) ≡ true
    → rsp_run (record r { state = RspState.error; token = some held }) (word ++ stop ∷ x)
      ≡ rsp_run
          (record r {
            state = RspState.runto_crlf;
            token = none;
            type = error_type r.type error_words (held ++ word);
          })
          x
unfolding rsp_step_in error_step
run_error r held [] stop x plain stops =
    rsp_run_round (record r { state = RspState.error; token = some held }) stop x
    ∙ rw (stops, append-nil held) refl
run_error r held (b ∷ word) stop x (other, plain) stops =
    rsp_run_round (record r { state = RspState.error; token = some held }) b (word ++ stop ∷ x)
    ∙ rw other (
        run_error r (held ++ b ∷ []) word stop x plain stops
        ∙ rw (append_assoc held (b ∷ []) word) refl)

digit_is_plain : (d : ℕ) → is_digit d ≡ true → (d == cr) ≡ false
digit_is_plain d h = ground (arith, h)

-- The digits of an integer.
pub run_integer :
    (r : Rsp) (ds x : List ℕ) (n : ℕ)
    → IsDigits ds
    → rsp_run (record r { state = RspState.integer_start; integer = n }) (ds ++ x)
      ≡ rsp_run (record r { state = RspState.integer_start; integer = number n ds }) x
unfolding rsp_step_in integer_step
run_integer r [] x n ok_ = refl
run_integer r (d ∷ ds) x n (is_d, ok_) =
    rsp_run_round (record r { state = RspState.integer_start; integer = n }) d (ds ++ x)
    ∙ rw (digit_is_plain d is_d, no_minus d is_d, is_d) (run_integer r ds x (add_digit n d) ok_)

-- A line as an element.
run_simple :
    (r : Rsp) (m : ℕ) (line x : List ℕ)
    → IsLine line
    → rsp_run (record r { state = RspState.simple; rnarg = suc m }) (line ++ cr ∷ x)
      ≡ rsp_run (record r { state = RspState.multibulk_argn_lf; rnarg = m }) x
unfolding rsp_step_in simple_step
run_simple r m [] x plain =
    let less : suc m - 1 ≡ m = omega arith in
    rsp_run_round (record r { state = RspState.simple; rnarg = suc m }) cr x
    ∙ ap (λ k. rsp_run (record r { state = RspState.multibulk_argn_lf; rnarg = k }) x) less
run_simple r m (b ∷ line) x (other, plain) =
    rsp_run_round (record r { state = RspState.simple; rnarg = suc m }) b (line ++ cr ∷ x)
    ∙ rw other (run_simple r m line x plain)

-- The response before an element, and behind one, with `m` elements left.
abbrev pub at_element : Rsp → ℕ → Rsp
at_element r m = record r { state = RspState.multibulk_argn_len; token = none; rnarg = m }

abbrev pub behind_element : Rsp → ℕ → ℕ → Rsp
behind_element r m n = record r {
  state = RspState.multibulk_argn_lf;
  token = none;
  rnarg = m;
  rlen = n;
}

pub run_sign :
    (r : Rsp) (m sign : ℕ) (line x : List ℕ)
    → (sign == b'*') ≡ false
    → (sign == b':' || sign == b'+' || sign == b'-') ≡ true
    → IsLine line
    → rsp_run (at_element r (suc m)) (sign ∷ line ++ cr ∷ x) ≡ rsp_run (behind_element r m r.rlen) x
unfolding rsp_step_in element_step
run_sign r m sign line x no_star simple plain =
    rsp_run_round (at_element r (suc m)) sign (line ++ cr ∷ x)
    ∙ rw (no_star, simple) (run_simple (record r { token = none }) m line x plain)

pub run_text :
    (r : Rsp) (m : ℕ) (bytes x : List ℕ)
    → length bytes < 2 ^ 32
    → rsp_run
        (at_element r (suc m))
        (b'$' ∷ print_number (length bytes) ++ cr ∷ lf ∷ (bytes ++ cr ∷ x))
      ≡ rsp_run (behind_element r m 0) x
unfolding rsp_step_in
run_text r m bytes x small =
    run_element_len r m (length bytes) (bytes ++ cr ∷ x) small
    ∙ run_skip (record r { token = none; rnarg = m }) RspState.multibulk_argn
        RspState.multibulk_argn_lf bytes x (λ n ch after. refl)

absent_end :
    (r : Rsp) (m : ℕ) (x : List ℕ)
    → element_len (record r { rnarg = suc m; rlen = 1 }) (b'$' ∷ b'-' ∷ b'1' ∷ []) x
      ≡ RspMove.go (behind_element r m 0) x
unfolding element_len
absent_end r m x =
    let some_ : (suc m == 0) ≡ false = ground arith in
    let less : suc m - 1 ≡ m = omega arith in rw (some_, less) refl

pub run_absent :
    (r : Rsp) (m : ℕ) (x : List ℕ)
    → rsp_run (at_element r (suc m)) (b'$' ∷ b'-' ∷ b'1' ∷ cr ∷ x)
      ≡ rsp_run (behind_element r m 0) x
unfolding rsp_step_in element_step
run_absent r m x =
    let r' = record r { state = RspState.multibulk_argn_len; rnarg = suc m } in
    rsp_run_round (at_element r (suc m)) b'$' (b'-' ∷ b'1' ∷ cr ∷ x)
    ∙ rsp_run_round (record r' { token = some (b'$' ∷ []); rlen = 0 }) b'-' (b'1' ∷ cr ∷ x)
    ∙ rsp_run_round (record r' { token = some (b'$' ∷ b'-' ∷ []); rlen = 0 }) b'1' (cr ∷ x)
    ∙ rsp_run_round (record r' { token = some (b'$' ∷ b'-' ∷ b'1' ∷ []); rlen = 1 }) cr x
    ∙ ap (rsp_continue rsp_run)
        (absent_end (record r' { token = some (b'$' ∷ b'-' ∷ b'1' ∷ []) }) m x)
