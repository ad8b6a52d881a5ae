-- ===== src/Examples/Buffers.antt =====
-- Buffers of a message.
use twemproxy.Common.{◌≡◌, refl, arith, List, [], ◌∷◌, ◌++◌, true, some}
use twemproxy.Mbuf.Ops.{
  Mbuf, new_mbuf, mbuf_get, mbuf_put, last_mbuf, msg_repair, msg_parsed, no_free,
}
use twemproxy.Mbuf.Keep.{unread, msg_repair-unread, msg_parsed-unread}
use twemproxy.Mbuf.Count.{IsCounted, Runs, Runs-IsCounted}

-- A buffer of three bytes that are not read, behind one.
abbrev three : Mbuf
three = record { before = []; bytes = b'*' ∷ b'1' ∷ b'\r' ∷ [] }

abbrev two_mbufs : List Mbuf
two_mbufs = new_mbuf ∷ three ∷ []

msg_repair-unread_example :
    (mhdr : List Mbuf) × (msg_repair 512 true no_free two_mbufs 1 ≡ some (mhdr, no_free))
    × (unread mhdr ≡ unread two_mbufs)
    × (last_mbuf mhdr ≡ some (record new_mbuf { bytes = b'1' ∷ b'\r' ∷ [] }))
unfolding mbuf_get last_mbuf
msg_repair-unread_example =
    msg_repair-unread 512 true no_free two_mbufs 1 three (new_mbuf, no_free) (omega arith)
      (omega arith) refl refl

msg_parsed-unread_example :
    (first next : List Mbuf) × (msg_parsed 512 true true no_free two_mbufs 1
      ≡ some (first, next, no_free))
    × (unread first ++ unread next ≡ unread two_mbufs)
    × (unread next ≡ b'1' ∷ b'\r' ∷ [])
unfolding mbuf_get last_mbuf
msg_parsed-unread_example =
    msg_parsed-unread 512 true no_free two_mbufs 1 three (new_mbuf, no_free) (omega arith)
      (omega arith) (omega arith) refl refl

Runs-IsCounted_example : IsCounted (mbuf_put three no_free)
Runs-IsCounted_example = Runs-IsCounted (mbuf_put three no_free) (Runs.puts three Runs.init)
