-- ===== src/Redis/Parse/Receive.antt =====
-- A request over the reads of msg_recv_chain of src/nc_message.c: each puts bytes of the socket into the
-- last buffer and calls the parser, through msg_parse; msg_repair moves the bytes of an open token to a
-- new buffer. Left out: the end of the stream, errors of the socket, and mbuf_get without memory.
use twemproxy.Common.{
  ℕ, suc, ◌+◌, ◌-◌, min, ◌==◌, length, List, [], ◌∷◌, ◌++◌, take, drop, if◌then◌else◌,
}
use twemproxy.Redis.Parse.State.{Req, Setup}
use twemproxy.Redis.Parse.Loop.{Outcome, redis_parse_req}

-- What msg_parse does with a result, where `used` bytes of the last buffer are in use: the next read
-- goes on at the end of the buffer, or behind the bytes that a repair has moved to a new one. `left` is
-- what the socket still holds.
abbrev pub msg_parse :
    (Req → ℕ → List ℕ → List ℕ → Outcome × List ℕ) → ℕ → List ℕ → Outcome → Outcome × List ℕ
msg_parse next used left (Outcome.ok r rest) = (Outcome.ok r rest, left)
msg_parse next used left (Outcome.again r) = next r used [] left
msg_parse next used left (Outcome.repair r held) = next r (length held) held left
msg_parse next used left (Outcome.error s) = (Outcome.error s, left)
msg_parse next used left (Outcome.enomem s) = (Outcome.enomem s, left)
msg_parse next used left Outcome.starved = (Outcome.starved, left)

-- conn_recv into a buffer that has room, with at most `n + 1` bytes, and msg_parse. An empty socket is
-- NC_EAGAIN.
unfoldable pub read_into :
    Setup
    → (Req → ℕ → List ℕ → List ℕ → Outcome × List ℕ)
    → ℕ
    → Req
    → ℕ
    → List ℕ
    → List ℕ
    → Outcome × List ℕ
read_into setup next n r used held [] = next r used held []
read_into setup next n r used held (ch ∷ socket) =
    let k = min (suc n) (setup.mbuf_data_size - used) in
    let got = take k (ch ∷ socket) in
    msg_parse next (used + length got) (drop k (ch ∷ socket))
      (redis_parse_req setup (used + length got == setup.mbuf_data_size) r (held ++ got))

-- A request between two reads, with the bytes `held` from `pos` on.
unfoldable pub unparsed : Req → List ℕ → Outcome
unparsed r [] = Outcome.again r
unparsed r (b ∷ held) = Outcome.repair r (b ∷ held)

-- The calls of msg_recv_chain for one request, each with the greatest number of bytes that the system
-- gives, less one. `used` bytes of the last buffer are in use, and the bytes `held` of them are not
-- parsed. Where that buffer is full, a new one is taken and `pos` is set to its start. It leaves the
-- result, and the bytes that are still in the socket.
unfoldable pub receive : Setup → List ℕ → Req → ℕ → List ℕ → List ℕ → Outcome × List ℕ
receive setup [] r used held socket = (unparsed r held, socket)
receive setup (n ∷ sizes) r used held socket =
    if used == setup.mbuf_data_size
    then read_into setup (receive setup sizes) n r 0 [] socket
    else read_into setup (receive setup sizes) n r used held socket
