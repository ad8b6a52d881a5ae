-- ===== src/Pool/Tag.antt =====
-- Hash tags: which part of a key decides its server.
use twemproxy.Common.{
  take-length, ℕ, suc, ◌+◌, ◌-◌, ◌<◌, ◌≡◌, ◌≢◌, refl, sym, ◌∙◌, ap, arith, List, [], ◌∷◌, ◌++◌,
  none, some, false, ◌==◌, if◌then◌else◌, length, drop, All,
}
use twemproxy.Server.{ServerPool, DistType}
use twemproxy.Pool.Route.{nc_strchr, tagged_key, dispatch, server_pool_idx}

-- The byte `c` does not occur.
abbrev pub Lacks : ℕ → List ℕ → Type 0
Lacks c bytes = All (λ b. b ≢ c) bytes

nc_strchr-append :
    (p c : ℕ) (before after : List ℕ)
    → Lacks c before
    → nc_strchr p (before ++ c ∷ after) c ≡ some (p + length before)
unfolding nc_strchr
nc_strchr-append p c [] after h = ground arith
nc_strchr-append p c (b ∷ before) after h =
    let ne : b ≢ c = h.0 in ground (arith, nc_strchr-append (p + 1) c before after h.1)

nc_strchr-Lacks : (p c : ℕ) (bytes : List ℕ) → Lacks c bytes → nc_strchr p bytes c ≡ none
unfolding nc_strchr
nc_strchr-Lacks p c [] h = refl
nc_strchr-Lacks p c (b ∷ bytes) h =
    let ne : b ≢ c = h.0 in ground (arith, nc_strchr-Lacks (p + 1) c bytes h.1)

drop-append {ℓ} : {A : Type ℓ} (xs ys : List A) (x : A) → drop (length xs + 1) (xs ++ x ∷ ys) ≡ ys
drop-append [] ys x = refl
drop-append (y ∷ xs) ys x =
    let step : suc (length xs) + 1 ≡ suc (length xs + 1) = omega arith in
    rw step (drop-append xs ys x)

-- A tag of two bytes, in a key `before`, `opening`, rest.
module _ (opening closing : ℕ) (before : List ℕ) (no_opening : Lacks opening before) where
  abbrev pub tag : List ℕ
  tag = opening ∷ closing ∷ []

  found : (rest : List ℕ) → nc_strchr 0 (before ++ opening ∷ rest) opening ≡ some (length before)
  found rest = nc_strchr-append 0 opening before rest no_opening ∙ ap some (omega arith)

  tagged_key-body :
      (body after : List ℕ)
      → Lacks closing body
      → tagged_key tag (before ++ opening ∷ (body ++ closing ∷ after))
        ≡ (if length body == 0 then before ++ opening ∷ (body ++ closing ∷ after) else body)
  unfolding tagged_key
  tagged_key-body body after no_closing =
      let start = length before + 1 in
      let closed = nc_strchr-append start closing body after no_closing in
      let width : start + length body - start ≡ length body = omega arith in
      rw
        (
          found (body ++ closing ∷ after),
          drop-append before (body ++ closing ∷ after) opening,
          closed,
          drop-append before (body ++ closing ∷ after) opening,
          width,
          take-length body (closing ∷ after),
        )
        (ground arith)

  tagged_key-unclosed :
      (rest : List ℕ)
      → Lacks closing rest
      → tagged_key tag (before ++ opening ∷ rest) ≡ before ++ opening ∷ rest
  unfolding tagged_key
  tagged_key-unclosed rest no_closing = rw (
    found rest,
    drop-append before rest opening,
    nc_strchr-Lacks (length before + 1) closing rest no_closing,
  )

  tagged_key-untagged : tagged_key tag before ≡ before
  unfolding tagged_key
  tagged_key-untagged = rw (nc_strchr-Lacks 0 opening before no_opening)

  -- With a hash tag of two bytes, the part that is hashed is what stands between the first opening
  -- byte and the next closing byte. It is the whole key if nothing stands there, if no closing byte
  -- follows, or if the key has no opening byte.
  pub tagged_key_lem :
      (body after rest : List ℕ)
      → Lacks closing body
      → Lacks closing rest
      → (tagged_key tag (before ++ opening ∷ (body ++ closing ∷ after))
          ≡ (if length body == 0 then before ++ opening ∷ (body ++ closing ∷ after) else body))
        × (tagged_key tag (before ++ opening ∷ rest) ≡ before ++ opening ∷ rest)
        × (tagged_key tag before ≡ before)
  tagged_key_lem body after rest no_closing none_closing = (
    tagged_key-body body after no_closing,
    tagged_key-unclosed rest none_closing,
    tagged_key-untagged,
  )

-- Without a draw, `random` of the C library does not matter.
dispatch-drawn :
    (drawn drawn' : ℕ) (pool : ServerPool) (t : DistType) (part : List ℕ)
    → t ≢ DistType.random
    → dispatch drawn pool t part ≡ dispatch drawn' pool t part
unfolding dispatch
dispatch-drawn drawn drawn' pool DistType.ketama part other = refl
dispatch-drawn drawn drawn' pool DistType.modula part other = refl
dispatch-drawn drawn drawn' pool DistType.random part other = absurd (other refl)

-- With a hash tag of two bytes, and ketama or modula as the distribution, keys that hold the same text
-- between the first opening byte and the next closing byte go to the same server, whatever stands around
-- it and whatever `random` of the C library returns for each, if the text is not empty. By the
-- distribution `random` they need not, since each key has a draw of its own.
pub server_pool_idx_tagged :
    (drawn drawn' : ℕ) (pool : ServerPool) (opening closing : ℕ)
    (body before before' after after' : List ℕ)
    → pool.dist_type ≢ DistType.random
    → pool.hash_tag ≡ opening ∷ closing ∷ []
    → Lacks opening before
    → Lacks opening before'
    → Lacks closing body
    → 0 < length body
    → server_pool_idx drawn pool (before ++ opening ∷ (body ++ closing ∷ after))
      ≡ server_pool_idx drawn' pool (before' ++ opening ∷ (body ++ closing ∷ after'))
unfolding server_pool_idx
server_pool_idx_tagged drawn drawn' pool opening closing body before before' after after' hashed
      tag_set lack lack' no_closing some_body =
    ap (dispatch drawn pool pool.dist_type)
      (rw tag_set (part before lack after ∙ sym (part before' lack' after')))
    ∙ dispatch-drawn drawn drawn' pool pool.dist_type _ hashed
  where
    part :
        (b : List ℕ)
        → Lacks opening b
        → (a : List ℕ)
        → tagged_key (opening ∷ closing ∷ []) (b ++ opening ∷ (body ++ closing ∷ a)) ≡ body
    part b l a =
        let not_empty : (length body == 0) ≡ false = ground arith in
        tagged_key-body opening closing b l body a no_closing ∙ rw not_empty
