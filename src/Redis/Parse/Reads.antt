-- ===== src/Redis/Parse/Reads.antt =====
-- The reads of a request do not show in what is parsed, and where they may.
use twemproxy.Common.{
  ℕ, suc, ◌+◌, ◌-◌, min, ◌==◌, Bool-cases, length, ◌≡◌, ◌⊎◌, inl, inr, refl, sym, ◌∙◌, ap, List, [],
  ◌∷◌, ◌++◌, Bool, true, false, Option, none, some, take, drop, take-drop,
}
use mathlib.Core.List.{append_assoc}
use twemproxy.Redis.Tables.{redis_argeval}
use twemproxy.Redis.Parse.State.{State, Req, Setup}
use twemproxy.Redis.Parse.Token.{IsOpen, TokenIs}
use twemproxy.Redis.Parse.Loop.{Outcome, check_full, run, redis_parse_req}
use twemproxy.Redis.Parse.Rounds.{IsOpenAfter, run-IsOpenAfter}
use twemproxy.Redis.Parse.Resume.{resume, run-append}
use twemproxy.Redis.Parse.Repair.{Rereads, run-repair}
use twemproxy.Redis.Parse.Receive.{msg_parse, read_into, unparsed, receive}

-- What comes of a result when the bytes `more` are read behind it, at once.
unfoldable pub read_on : Setup → List ℕ → Outcome → Outcome
read_on setup more (Outcome.ok r rest) = Outcome.ok r (rest ++ more)
read_on setup more (Outcome.again r) = run setup r more
read_on setup more (Outcome.repair r held) = run setup r (held ++ more)
read_on setup more (Outcome.error s) = Outcome.error s
read_on setup more (Outcome.enomem s) = Outcome.enomem s
read_on setup more Outcome.starved = Outcome.starved

-- A read finds room behind `u` bytes: in the last buffer, or in a new one where that is full and holds
-- no bytes that are not parsed.
pub data Room (setup : Setup) : ℕ → List ℕ → ℕ → Type 0 where
  new_mbuf : {used : ℕ} → (used == setup.mbuf_data_size) ≡ true → Room setup used [] 0
  same_mbuf :
      {used : ℕ} {held : List ℕ}
      → (used == setup.mbuf_data_size) ≡ false
      → Room setup used held used

-- The bytes of a read, and whether they fill the buffer.
abbrev pub taken : Setup → ℕ → ℕ → List ℕ → List ℕ
taken setup n u socket = take (min (suc n) (setup.mbuf_data_size - u)) socket

abbrev pub left : Setup → ℕ → ℕ → List ℕ → List ℕ
left setup n u socket = drop (min (suc n) (setup.mbuf_data_size - u)) socket

abbrev pub fills : Setup → ℕ → ℕ → List ℕ → Bool
fills setup n u socket = u + length (taken setup n u socket) == setup.mbuf_data_size

-- Some read comes where a token has filled a whole buffer, or ends a buffer within the number of keys of
-- EVAL.
pub data IsCut (setup : Setup) : List ℕ → Req → ℕ → List ℕ → List ℕ → Type 0 where
  long_token :
      {n b used : ℕ} {sizes held socket : List ℕ} {r : Req}
      → (used == setup.mbuf_data_size) ≡ true
      → IsCut setup (n ∷ sizes) r used (b ∷ held) socket
  keys :
      {n ch used u : ℕ} {sizes held held' socket : List ℕ} {r r' : Req}
      → Room setup used held u
      → run setup r (held ++ taken setup n u (ch ∷ socket)) ≡ Outcome.again r'
      → r'.state ≡ State.arg2
      → redis_argeval r'.type ≡ true
      → r'.token ≡ some held'
      → fills setup n u (ch ∷ socket) ≡ true
      → IsCut setup (n ∷ sizes) r used held (ch ∷ socket)
  idle :
      {n used u : ℕ} {sizes held : List ℕ} {r : Req}
      → Room setup used held u
      → IsCut setup sizes r u held []
      → IsCut setup (n ∷ sizes) r used held []
  again :
      {n ch used u : ℕ} {sizes held socket : List ℕ} {r r' : Req}
      → Room setup used held u
      → redis_parse_req setup
          (fills setup n u (ch ∷ socket))
          r
          (held ++ taken setup n u (ch ∷ socket))
        ≡ Outcome.again r'
      → IsCut setup sizes r'
          (u + length (taken setup n u (ch ∷ socket)))
          []
          (left setup n u (ch ∷ socket))
      → IsCut setup (n ∷ sizes) r used held (ch ∷ socket)
  repaired :
      {n ch used u : ℕ} {sizes held held' socket : List ℕ} {r r' : Req}
      → Room setup used held u
      → redis_parse_req setup
          (fills setup n u (ch ∷ socket))
          r
          (held ++ taken setup n u (ch ∷ socket))
        ≡ Outcome.repair r' held'
      → IsCut setup sizes r' (length held') held' (left setup n u (ch ∷ socket))
      → IsCut setup (n ∷ sizes) r used held (ch ∷ socket)

rereads : (s : State) → Rereads s ⊎ (s ≡ State.arg2)
rereads State.arg2 = inr refl
rereads _ = inl tt

abbrev settle : Setup → Outcome × List ℕ → Outcome
settle setup x = read_on setup (x.1) (x.0)

abbrev Agrees : Setup → List ℕ → Req → ℕ → List ℕ → List ℕ → Type 0
Agrees setup sizes r used held socket =
    (settle setup (receive setup sizes r used held socket) ≡ run setup r (held ++ socket))
    ⊎ IsCut setup sizes r used held socket

module _ (setup : Setup) (n ch used u : ℕ) (sizes held socket : List ℕ) (r : Req)
    (room : Room setup used held u)
    (same : (r' : Req) (v : ℕ) (h x : List ℕ) → IsOpen r' → Agrees setup sizes r' v h x) where
  bytes : List ℕ
  bytes = taken setup n u (ch ∷ socket)

  more : List ℕ
  more = left setup n u (ch ∷ socket)

  read : Outcome × List ℕ
  read = read_into setup (receive setup sizes) n r u held (ch ∷ socket)

  goes : Outcome → Outcome
  goes o = settle setup (msg_parse (receive setup sizes) (u + length bytes) more o)

  -- The parser has asked for more.
  read_again :
      (r' : Req) (full : Bool) (token : Option (List ℕ))
      → r'.token ≡ token
      → fills setup n u (ch ∷ socket) ≡ full
      → IsOpen r'
      → run setup r (held ++ bytes) ≡ Outcome.again r'
      → (settle setup read ≡ run setup r' more) ⊎ IsCut setup (n ∷ sizes) r used held (ch ∷ socket)
  unfolding read goes read_into redis_parse_req bytes more
  read_again r' full none has is_full open_ says =
      let parsed : redis_parse_req setup (fills setup n u (ch ∷ socket)) r (held ++ bytes)
          ≡ Outcome.again r' =
        ap (check_full (fills setup n u (ch ∷ socket))) says ∙ simp has refl in
      elim (same r' (u + length bytes) [] more open_) [
        | inl agrees ↦ inl (ap goes parsed ∙ agrees)
        | inr cut ↦ inr (IsCut.again room parsed cut)
      ]
  read_again r' false (some held') has is_full open_ says =
      let parsed : redis_parse_req setup (fills setup n u (ch ∷ socket)) r (held ++ bytes)
          ≡ Outcome.again r' =
        ap (check_full (fills setup n u (ch ∷ socket))) says ∙ simp (has, is_full) refl in
      elim (same r' (u + length bytes) [] more open_) [
        | inl agrees ↦ inl (ap goes parsed ∙ agrees)
        | inr cut ↦ inr (IsCut.again room parsed cut)
      ]
  read_again r' true (some held') has is_full open_ says =
      let parsed : redis_parse_req setup (fills setup n u (ch ∷ socket)) r (held ++ bytes)
          ≡ Outcome.repair (record r' { token = none }) held' =
        ap (check_full (fills setup n u (ch ∷ socket))) says ∙ simp (has, is_full) refl in
      elim (rereads r'.state) [
        | inl re ↦ elim (same (record r' { token = none }) (length held') held' more tt) [
          | inl agrees ↦ inl (ap goes parsed ∙ agrees ∙ run-repair setup r' held' more re has open_)
          | inr cut ↦ inr (IsCut.repaired room parsed cut)
        ]
        | inr at_arg2 ↦
            inr
              (IsCut.keys room says at_arg2 (evals r'.state r'.token at_arg2 has open_) has is_full)
      ]
    where
      evals :
          (s : State) (t : Option (List ℕ))
          → s ≡ State.arg2
          → t ≡ some held'
          → TokenIs t s r'.type r'.rnarg r'.rlen
          → redis_argeval r'.type ≡ true
      evals s t at_arg2 is_held h = rw (is_held, at_arg2) at h

  read_one :
      (o : Outcome)
      → run setup r (held ++ bytes) ≡ o
      → IsOpenAfter o
      → (settle setup read ≡ resume setup more o)
        ⊎ IsCut setup (n ∷ sizes) r used held (ch ∷ socket)
  unfolding read goes read_into redis_parse_req resume read_on bytes more
  read_one (Outcome.ok r' rest) says open_ =
      inl (ap (λ o. goes (check_full (fills setup n u (ch ∷ socket)) o)) says)
  read_one (Outcome.again r') says open_ = read_again r' _ r'.token refl refl open_ says
  read_one (Outcome.repair r' rest) says open_ = absurd open_
  read_one (Outcome.error s) says open_ =
      inl (ap (λ o. goes (check_full (fills setup n u (ch ∷ socket)) o)) says)
  read_one (Outcome.enomem s) says open_ =
      inl (ap (λ o. goes (check_full (fills setup n u (ch ∷ socket)) o)) says)
  read_one Outcome.starved says open_ = absurd open_

  read_some :
      IsOpen r
      → (settle setup read ≡ run setup r (held ++ ch ∷ socket))
        ⊎ IsCut setup (n ∷ sizes) r used held (ch ∷ socket)
  unfolding bytes more
  read_some open_ =
      elim (read_one (run setup r (held ++ bytes)) refl
        (run-IsOpenAfter setup r (held ++ bytes) open_)) [
          | inl agrees ↦ inl (
              agrees
              ∙ sym (run-append setup r (held ++ bytes) more open_)
              ∙ ap (run setup r) (
                  append_assoc held bytes more
                  ∙ ap (λ x. held ++ x)
                      (take-drop (ch ∷ socket) (min (suc n) (setup.mbuf_data_size - u)))))
          | inr cut ↦ inr cut
        ]

-- A read that finds room, with bytes in the socket or without.
read_room :
    (setup : Setup) (n used u : ℕ) (sizes held socket : List ℕ) (r : Req)
    → Room setup used held u
    → ((r' : Req) (v : ℕ) (h x : List ℕ) → IsOpen r' → Agrees setup sizes r' v h x)
    → IsOpen r
    → (settle setup (read_into setup (receive setup sizes) n r u held socket)
        ≡ run setup r (held ++ socket))
      ⊎ IsCut setup (n ∷ sizes) r used held socket
unfolding read_into read
read_room setup n used u sizes held [] r room same open_ = elim (same r u held [] open_) [
  | inl agrees ↦ inl agrees
  | inr cut ↦ inr (IsCut.idle room cut)
]
read_room setup n used u sizes held (ch ∷ socket) r room same open_ =
    read_some setup n ch used u sizes held socket r room same open_

-- But in two cases, reads and full buffers do not show in what is parsed. Let the token of a request be as its state
-- needs it, `used` bytes of its last buffer be in use and `held` be those that are not parsed. Then what
-- comes of any reads, with the bytes that are left in the socket read at once behind them, is what the
-- parser makes of `held` and all the bytes of the socket at once; or else a token has filled a whole
-- buffer when the next read comes, or a buffer ends within the number of keys of EVAL.
pub receive-run :
    (setup : Setup) (sizes : List ℕ) (r : Req) (used : ℕ) (held socket : List ℕ)
    → IsOpen r
    → (read_on setup
          ((receive setup sizes r used held socket).1)
          ((receive setup sizes r used held socket).0)
        ≡ run setup r (held ++ socket))
      ⊎ IsCut setup sizes r used held socket
unfolding receive read_on unparsed
receive-run setup [] r used [] socket open_ = inl refl
receive-run setup [] r used (b ∷ held) socket open_ = inl refl
receive-run setup (n ∷ sizes) r used [] socket open_ =
    elim (Bool-cases (used == setup.mbuf_data_size)) [
      | inl full ↦ rw full (
          read_room setup n used 0 sizes [] socket r (Room.new_mbuf full) (receive-run setup sizes)
            open_)
      | inr some_ ↦ rw some_ (
          read_room setup n used used sizes [] socket r (Room.same_mbuf some_)
            (receive-run setup sizes) open_)
    ]
receive-run setup (n ∷ sizes) r used (b ∷ held) socket open_ =
    elim (Bool-cases (used == setup.mbuf_data_size)) [
      | inl full ↦ inr (IsCut.long_token full)
      | inr some_ ↦ rw some_ (
          read_room setup n used used sizes (b ∷ held) socket r (Room.same_mbuf some_)
            (receive-run setup sizes) open_)
    ]
