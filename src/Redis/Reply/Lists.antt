-- ===== src/Redis/Reply/Lists.antt =====
-- The lists of a multi bulk, each with another as its last element, in redis_parse_rsp.
use twemproxy.Common.{
  ℕ, suc, ◌+◌, false, arith, ◌≡◌, refl, ◌∙◌, ap, List, [], ◌∷◌, ◌++◌, none, length, ◌==◌,
}
use mathlib.Core.List.{append_assoc, append-nil}
use twemproxy.Redis.Print.{print_number}
use twemproxy.Redis.Parse.Steps.{cr, lf}
use twemproxy.Redis.Parse.Arguments.{not_last}
use twemproxy.Redis.Reply.State.{RspState, Rsp}
use twemproxy.Redis.Reply.Steps.{next_step, element_step, rsp_step_in}
use twemproxy.Redis.Reply.Loop.{RspOutcome, rsp_run}
use twemproxy.Redis.Reply.Resume.{rsp_run_round}
use twemproxy.Redis.Reply.Bulk.{run_multibulk_len}
use twemproxy.Redis.Reply.Elements.{at_element, behind_element, run_sign, run_text, run_absent}
use twemproxy.Redis.Reply.Print.{
  Element, print_element, print_elements, IsElement, AreElements, print_lists, last_size, AreLists,
}

-- An element, up to its line feed.
run_element :
    (r : Rsp) (m : ℕ) (e : Element) (x : List ℕ)
    → IsElement e
    → (k : ℕ) × (rsp_run (at_element r (suc m)) (print_element e ++ x)
        ≡ rsp_run (behind_element r m k) (lf ∷ x))
unfolding print_element
run_element r m (Element.text bytes) x small = (
  0,
  rw
      (
        append_assoc (print_number (length bytes)) (cr ∷ lf ∷ (bytes ++ cr ∷ lf ∷ [])) x,
        append_assoc bytes (cr ∷ lf ∷ []) x,
      )
      (run_text r m bytes (lf ∷ x) small),
)
run_element r m Element.absent x h = (0, run_absent r m (lf ∷ x))
run_element r m (Element.status_line line) x plain = (
  r.rlen,
  rw (append_assoc line (cr ∷ lf ∷ []) x) (run_sign r m b'+' line (lf ∷ x) refl refl plain),
)
run_element r m (Element.error_line line) x plain = (
  r.rlen,
  rw (append_assoc line (cr ∷ lf ∷ []) x) (run_sign r m b'-' line (lf ∷ x) refl refl plain),
)
run_element r m (Element.integer_line line) x plain = (
  r.rlen,
  rw (append_assoc line (cr ∷ lf ∷ []) x) (run_sign r m b':' line (lf ∷ x) refl refl plain),
)

-- The elements of a list, to the end of the response.
run_elements :
    (r : Rsp) (e : Element) (es : List Element) (rest : List ℕ)
    → AreElements (e ∷ es)
    → (k : ℕ) × (rsp_run (at_element r (suc (length es))) (print_elements (e ∷ es) ++ rest)
        ≡ RspOutcome.ok
            (record r { state = RspState.start; token = none; rnarg = 0; rlen = k })
            rest)
unfolding print_elements rsp_step_in next_step
run_elements r e [] rest (is_e, are) =
    let one = run_element r 0 e rest is_e in
    (
      one.0,
      rw (append-nil (print_element e))
          (one.1 ∙ rsp_run_round (behind_element r 0 (one.0)) lf rest),
    )
run_elements r e (e' ∷ es) rest (is_e, are) =
    let x = print_elements (e' ∷ es) ++ rest in
    let one = run_element r (suc (length es)) e x is_e in
    let others = run_elements (record r { rlen = one.0 }) e' es rest are in
    (
      others.0,
      rw (append_assoc (print_element e) (print_elements (e' ∷ es)) rest) (
          one.1
          ∙ rsp_run_round (behind_element r (suc (length es)) (one.0)) lf x
          ∙ rw (not_last (length es)) (others.1)),
    )

-- Elements with `m + 1` more behind them.
run_elements_before :
    (r : Rsp) (es : List Element) (m : ℕ) (x : List ℕ)
    → AreElements es
    → (k : ℕ) × (rsp_run (at_element r (length es + suc m)) (print_elements es ++ x)
        ≡ rsp_run (at_element (record r { rlen = k }) (suc m)) x)
unfolding print_elements rsp_step_in next_step
run_elements_before r [] m x are =
    let same : 0 + suc m ≡ suc m = omega arith in
    (r.rlen, ap (λ k. rsp_run (at_element r k) x) same)
run_elements_before r (e ∷ es) m x (is_e, are) =
    let y = print_elements es ++ x in
    let one = run_element r (length es + suc m) e y is_e in
    let others = run_elements_before (record r { rlen = one.0 }) es m x are in
    let more : (length es + suc m == 0) ≡ false = ground arith in
    let same : suc (length es) + suc m ≡ suc (length es + suc m) = omega arith in
    (
      others.0,
      rw (append_assoc (print_element e) (print_elements es) x) (
          ap (λ k. rsp_run (at_element r k) (print_element e ++ y)) same
          ∙ one.1
          ∙ rsp_run_round (behind_element r (length es + suc m) (one.0)) lf y
          ∙ rw more (others.1)),
    )

-- The star of a list that is an element.
run_star :
    (r : Rsp) (x : List ℕ)
    → rsp_run (at_element r 1) (b'*' ∷ x)
      ≡ rsp_run (record (at_element r 1) { state = RspState.multibulk }) (b'*' ∷ x)
unfolding rsp_step_in element_step
run_star r x = rsp_run_round (at_element r 1) b'*' x

-- Lists, to the end of the response.
pub run_lists :
    (r : Rsp) (es : List Element) (lists : List (List Element)) (rest : List ℕ)
    → AreLists (es ∷ lists)
    → (k : ℕ) × (rsp_run
          (record r { state = RspState.multibulk; token = none })
          (print_lists (es ∷ lists) rest)
        ≡ RspOutcome.ok
            (record r {
              state = RspState.start;
              token = none;
              narg = last_size es lists;
              rnarg = 0;
              rlen = k;
            })
            rest)
unfolding print_lists print_elements rsp_step_in next_step
run_lists r [] [] rest (small, are, none_) = (
  r.rlen,
  run_multibulk_len r 0 (lf ∷ rest) small
      ∙ rsp_run_round
          (record r { state = RspState.multibulk_narg_lf; token = none; narg = 0; rnarg = 0 }) lf
          rest,
)
run_lists r (e ∷ es) [] rest (small, are, none_) =
    let n = suc (length es) in
    let x = print_elements (e ∷ es) ++ rest in
    let all = run_elements (record r { narg = n }) e es rest are in
    (
      all.0,
      run_multibulk_len r n (lf ∷ x) small
          ∙ rsp_run_round
              (record r { state = RspState.multibulk_narg_lf; token = none; narg = n; rnarg = n })
              lf x
          ∙ rw (not_last (length es)) (all.1),
    )
run_lists r es (next ∷ lists) rest (small, are, others) =
    let n = suc (length es) in
    let y = print_lists (next ∷ lists) rest in
    let x = print_elements es ++ y in
    let one = run_elements_before (record r { narg = n }) es 0 y are in
    let inner = run_lists (record r { narg = n; rnarg = 1; rlen = one.0 }) next lists rest others in
    let same : n ≡ length es + 1 = omega arith in
    (
      inner.0,
      run_multibulk_len r n (lf ∷ x) small
          ∙ rsp_run_round
              (record r { state = RspState.multibulk_narg_lf; token = none; narg = n; rnarg = n })
              lf x
          ∙ rw (not_last (length es))
              (ap (λ k. rsp_run (at_element (record r { narg = n }) k) x) same ∙ one.1)
          ∙ run_star (record r { narg = n; rlen = one.0 }) _
          ∙ inner.1,
    )
