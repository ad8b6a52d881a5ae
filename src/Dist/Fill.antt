-- ===== src/Dist/Fill.antt =====
-- The loops that write the continuum stay inside the allocation and write what they mean to.
use twemproxy.Common.{
  ℕ, zero, suc, ◌+◌, ◌*◌, ◌^◌, ◌≤◌, ◌<◌, ◌≡◌, refl, ◌∙◌, arith, List, [], ◌∷◌, Bool, true,
  Bool-cases, inl, inr, Option, some, Returns, Returns->>=, lt→ltb, if◌then◌else◌, get_elem?,
  length, take, length-set, length-take, length-append, take-set, All, All-append, replicate,
  length-replicate, ◌-◌,
}
use native.Mathlib.Nat.{add_assoc, add-zero}
use native.Mathlib.Numerals.{add-one}
use twemproxy.Server.{Server, Continuum}
use twemproxy.Dist.Census.{is_live}
use twemproxy.Dist.Cursor.{Cursor, start, put_point, add_points, for_count, for_live, realloc}

-- The sum of `f` over the live servers.
unfoldable pub live_sum : Bool → ℕ → (Server → ℕ) → List Server → ℕ
live_sum auto_eject now f [] = 0
live_sum auto_eject now f (s ∷ servers) =
    (if is_live auto_eject now s then f s else 0) + live_sum auto_eject now f servers

module _ (Q : Continuum → Type 0) (cap : ℕ) (small : cap < 2 ^ 32) where
  -- `n` points that satisfy `Q` are written and `m` are counted.
  pub record IsFilled (n m : ℕ) (c : Cursor) : Type 0 where
    pub at_ : c.at ≡ n
    pub counted : c.pointer_counter ≡ m
    pub sized : length c.mem ≡ cap
    pub written : All Q (take n c.mem)

  IsFilled-cast : {n n' m m' : ℕ} {c : Cursor} → n ≡ n' → m ≡ m' → IsFilled n m c → IsFilled n' m' c
  IsFilled-cast e e' h = rw (← e, ← e') h

  pub put_point-IsFilled :
      (index value n m : ℕ) (c : Cursor)
      → IsFilled n m c
      → n < cap
      → Q (record { index = index; value = value })
      → Returns (put_point index value c) (IsFilled (n + 1) m)
  unfolding put_point
  put_point-IsFilled index value n m c h room q =
      let inside : c.at < length c.mem = omega (arith, h.at_, h.sized) in
      rw (lt→ltb _ _ inside) (record {
        at_ = omega (arith, h.at_);
        counted = h.counted;
        sized = length-set c.mem c.at _ ∙ h.sized;
        written =
            rw (add-one, h.at_, take-set c.mem n _ (omega (arith, h.sized)))
              (All-append Q (take n c.mem) _ h.written (q, tt));
      })

  pub add_points-IsFilled :
      (k n m : ℕ) (c : Cursor) → IsFilled n m c → m + k ≤ cap → IsFilled n (m + k) (add_points k c)
  unfolding add_points
  add_points-IsFilled k n m c h room = record {
    at_ = h.at_;
    counted = omega (arith, h.counted);
    sized = h.sized;
    written = h.written;
  }

  -- A body that writes `a` points and counts `b` of them, `k` times.
  pub for_count-IsFilled :
      (a b : ℕ) (body : ℕ → Cursor → Option Cursor) (k i n m : ℕ) (c : Cursor)
      → ((j n' m' : ℕ) (c' : Cursor)
          → IsFilled n' m' c'
          → n' + a ≤ cap
          → m' + b ≤ cap
          → Returns (body j c') (IsFilled (n' + a) (m' + b)))
      → IsFilled n m c
      → n + k * a ≤ cap
      → m + k * b ≤ cap
      → Returns (for_count k i body c) (IsFilled (n + k * a) (m + k * b))
  unfolding for_count
  for_count-IsFilled a b body zero i n m c step h room count =
      IsFilled-cast (omega arith) (omega arith) h
  for_count-IsFilled a b body (suc k) i n m c step h room count =
      Returns->>= (IsFilled (n + a) (m + b)) _ (body i c) _
        (step i n m c h (omega arith) (omega arith))
        (λ c' h'.
          rw (more n a, more m b)
            (for_count-IsFilled a b body k (i + 1) (n + a) (m + b) c' step h' (omega arith)
              (omega arith)))
    where
      more : (x y : ℕ) → x + suc k * y ≡ x + y + k * y
      more x y = omega arith

  -- Between the servers the index and the counter agree.
  pub for_live-IsFilled :
      (auto_eject : Bool) (now : ℕ) (points : Server → ℕ)
      (body : ℕ → Server → Cursor → Option Cursor) (i : ℕ) (servers : List Server) (n : ℕ)
      (c : Cursor)
      → ((j : ℕ) (s : Server) (n' : ℕ) (c' : Cursor)
          → get_elem? servers j ≡ some s
          → is_live auto_eject now s ≡ true
          → IsFilled n' n' c'
          → n' + points s ≤ cap
          → Returns (body (i + j) s c') (IsFilled (n' + points s) (n' + points s)))
      → IsFilled n n c
      → n + live_sum auto_eject now points servers ≤ cap
      → Returns (for_live auto_eject now body i servers c) (
          IsFilled
            (n + live_sum auto_eject now points servers)
            (n + live_sum auto_eject now points servers))
  unfolding for_live live_sum
  for_live-IsFilled auto_eject now points body i [] n c step h room =
      IsFilled-cast (omega arith) (omega arith) h
  for_live-IsFilled auto_eject now points body i (s ∷ servers) n c step h room =
      elim (Bool-cases (is_live auto_eject now s)) [
        | inl live ↦
            let fits : n + (points s + rest) ≤ cap = rw live at room in
            rw (live, ← add_assoc n (points s) rest)
              (Returns->>= (IsFilled (n + points s) (n + points s)) _ (body i s c) _
                (rw add-zero at (step 0 s n c refl live h (omega arith)))
                (λ c' h'.
                  for_live-IsFilled auto_eject now points body (i + 1) servers (n + points s) c'
                    later h' (omega arith)))
        | inr dead ↦
            let fits : n + (0 + rest) ≤ cap = rw dead at room in
            rw (dead, zero_add_)
              (for_live-IsFilled auto_eject now points body (i + 1) servers n c later h
                (omega arith))
      ]
    where
      rest : ℕ
      rest = live_sum auto_eject now points servers

      zero_add_ : 0 + rest ≡ rest
      zero_add_ = omega arith

      later :
          (j : ℕ) (s' : Server) (n' : ℕ) (c' : Cursor)
          → get_elem? servers j ≡ some s'
          → is_live auto_eject now s' ≡ true
          → IsFilled n' n' c'
          → n' + points s' ≤ cap
          → Returns (body (i + 1 + j) s' c') (IsFilled (n' + points s') (n' + points s'))
      later j s' n' c' there live h' fits =
          let shift : i + 1 + j ≡ i + suc j = omega arith in
          rw shift (step (suc j) s' n' c' there live h' fits)

-- `nc_realloc` gives the size asked for.
pub length-realloc : (n : ℕ) (mem : List Continuum) → length (realloc n mem) ≡ n
unfolding realloc
length-realloc n mem = omega (
  arith,
  length-append (take n mem) (replicate (n - length mem) (record { index = 0; value = 0 })),
  length-take n mem,
  length-replicate (n - length mem) (let p : Continuum = record { index = 0; value = 0 } in p),
)

pub start-IsFilled :
    (Q : Continuum → Type 0) (cap : ℕ) (small : cap < 2 ^ 32) (mem : List Continuum)
    → length mem ≡ cap
    → IsFilled Q cap small 0 0 (start mem)
start-IsFilled Q cap small mem h = record { at_ = refl; counted = refl; sized = h; written = tt }
