-- ===== src/Examples/Keys.antt =====
-- Keys: their hashes, their tags, and their place on a ring.
use twemproxy.Common.{
  ℕ, ◌/◌, ◌%◌, ◌^◌, ◌≤◌, ◌≡◌, refl, arith, List, [], ◌∷◌, ◌++◌, true, false, get_or, take,
}
use twemproxy.Server.{Continuum, DistType}
use twemproxy.Message.{MsgType}
use twemproxy.Hashkit.Bounds.{IsKey}
use twemproxy.Hashkit.Crc.{ccitt_remainder, ieee_remainder, crc_tables, hash_crc32-hash_crc32a}
use twemproxy.Hashkit.Crc16.{crc16tab}
use twemproxy.Hashkit.Crc32.{crc32tab, hash_crc32, hash_crc32a}
use twemproxy.Dist.Ketama.{ketama_dispatch}
use twemproxy.Dist.Search.{owner, ketama_dispatch-owner}
use twemproxy.Pool.Route.{tagged_key, server_pool_idx}
use twemproxy.Pool.Tag.{Lacks, tagged_key_lem, server_pool_idx_tagged}
use twemproxy.Redis.Shapes.{shape_count, shape_count_lem}
use twemproxy.Redis.Tables.{redis_readonly, redis_master_slave_only}
use twemproxy.Examples.Pools.{pool_of}

-- A key with a byte above 127.
abbrev key : List ℕ
key = b'k' ∷ 200 ∷ b'1' ∷ []

key-IsKey : IsKey key
key-IsKey = (omega arith, (omega arith, (omega arith, tt)))

crc_tables_example :
    (get_or crc16tab 255 0 ≡ ccitt_remainder 255) × (get_or crc32tab 255 0 ≡ ieee_remainder 255)
crc_tables_example = crc_tables 255 (omega arith)

hash_crc32-hash_crc32a_example : hash_crc32 key ≡ hash_crc32a key / 2 ^ 16 % 2 ^ 15
hash_crc32-hash_crc32a_example = hash_crc32-hash_crc32a key key-IsKey

abbrev ring : List Continuum
ring =
    record { index = 1; value = 10 }
    ∷ record { index = 0; value = 20 }
    ∷ record { index = 2; value = 30 }
    ∷ []

ketama_dispatch-owner_example : ketama_dispatch ring 3 25 ≡ owner 25 (take 3 ring)
ketama_dispatch-owner_example =
    ketama_dispatch-owner ring 3 25 (omega arith) (omega arith) (omega arith, (omega arith, tt))

a-Lacks : Lacks b'{' (b'a' ∷ [])
a-Lacks = ((λ e. absurd (omega arith)), tt)

b-Lacks : Lacks b'{' (b'b' ∷ [])
b-Lacks = ((λ e. absurd (omega arith)), tt)

x-Lacks : Lacks b'}' (b'x' ∷ [])
x-Lacks = ((λ e. absurd (omega arith)), tt)

c-Lacks : Lacks b'}' (b'c' ∷ [])
c-Lacks = ((λ e. absurd (omega arith)), tt)

tagged_key_lem_example :
    (tagged_key (b'{' ∷ b'}' ∷ []) (b'a' ∷ b'{' ∷ b'x' ∷ b'}' ∷ b'b' ∷ []) ≡ b'x' ∷ [])
    × (tagged_key (b'{' ∷ b'}' ∷ []) (b'a' ∷ b'{' ∷ b'c' ∷ []) ≡ b'a' ∷ b'{' ∷ b'c' ∷ [])
    × (tagged_key (b'{' ∷ b'}' ∷ []) (b'a' ∷ []) ≡ b'a' ∷ [])
tagged_key_lem_example =
    tagged_key_lem b'{' b'}' (b'a' ∷ []) a-Lacks (b'x' ∷ []) (b'b' ∷ []) (b'c' ∷ []) x-Lacks c-Lacks

modula≢random : DistType.modula ≡ DistType.random → ⊥
modula≢random e = cc

server_pool_idx_tagged_example :
    server_pool_idx 0
      (pool_of DistType.modula)
      ((b'a' ∷ []) ++ b'{' ∷ ((b'x' ∷ []) ++ b'}' ∷ (b'c' ∷ [])))
    ≡ server_pool_idx 7 (pool_of DistType.modula) ((b'b' ∷ []) ++ b'{' ∷ ((b'x' ∷ []) ++ b'}' ∷ []))
server_pool_idx_tagged_example =
    server_pool_idx_tagged 0 7 (pool_of DistType.modula) b'{' b'}' (b'x' ∷ []) (b'a' ∷ [])
      (b'b' ∷ []) (b'c' ∷ []) [] modula≢random refl a-Lacks b-Lacks x-Lacks (omega arith)

shape_count_lem_example :
    (shape_count MsgType.req_redis_rename ≤ 1)
    × (redis_readonly MsgType.req_redis_rename ≡ true → shape_count MsgType.req_redis_rename ≡ 1)
    × (redis_master_slave_only MsgType.req_redis_rename ≡ true
        → (shape_count MsgType.req_redis_rename ≡ 1)
          × (redis_readonly MsgType.req_redis_rename ≡ false))
shape_count_lem_example = shape_count_lem MsgType.req_redis_rename
