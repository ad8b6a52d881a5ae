-- ===== src/Redis/Commands.antt =====
-- The names of the commands in redis_parse_req of src/proto/nc_redis.c, in the order of its tests,
-- by their length.
use twemproxy.Common.{
  ℕ, List, [], ◌∷◌, Bool, true, false, ◌&&◌, ◌||◌, ◌==◌, if◌then◌else◌, length, bit_xor,
}
use twemproxy.Message.{MsgType}

-- A command: its name in lower case, and its type.
abbrev pub Command : Type 0
Command = List ℕ × MsgType

-- The tests str3icmp to str16icmp of src/proto/nc_proto.h: each byte is the expected one, or that one
-- with the bit of the case turned.
unfoldable pub icmp : List ℕ → List ℕ → Bool
icmp [] [] = true
icmp [] (c ∷ name) = false
icmp (b ∷ bytes) [] = false
icmp (b ∷ bytes) (c ∷ name) = (b == c || b == bit_xor c 0x20) && icmp bytes name

unfoldable pub commands_3 : List Command
commands_3 =
    (b'g' ∷ b'e' ∷ b't' ∷ [], MsgType.req_redis_get)
    ∷ (b's' ∷ b'e' ∷ b't' ∷ [], MsgType.req_redis_set)
    ∷ (b't' ∷ b't' ∷ b'l' ∷ [], MsgType.req_redis_ttl)
    ∷ (b'd' ∷ b'e' ∷ b'l' ∷ [], MsgType.req_redis_del)
    ∷ []

unfoldable pub commands_4 : List Command
commands_4 =
    (b'p' ∷ b't' ∷ b't' ∷ b'l' ∷ [], MsgType.req_redis_pttl)
    ∷ (b's' ∷ b'c' ∷ b'a' ∷ b'n' ∷ [], MsgType.req_redis_scan)
    ∷ (b'd' ∷ b'e' ∷ b'c' ∷ b'r' ∷ [], MsgType.req_redis_decr)
    ∷ (b'd' ∷ b'u' ∷ b'm' ∷ b'p' ∷ [], MsgType.req_redis_dump)
    ∷ (b'h' ∷ b'd' ∷ b'e' ∷ b'l' ∷ [], MsgType.req_redis_hdel)
    ∷ (b'h' ∷ b'g' ∷ b'e' ∷ b't' ∷ [], MsgType.req_redis_hget)
    ∷ (b'h' ∷ b'l' ∷ b'e' ∷ b'n' ∷ [], MsgType.req_redis_hlen)
    ∷ (b'h' ∷ b's' ∷ b'e' ∷ b't' ∷ [], MsgType.req_redis_hset)
    ∷ (b'i' ∷ b'n' ∷ b'c' ∷ b'r' ∷ [], MsgType.req_redis_incr)
    ∷ (b'l' ∷ b'l' ∷ b'e' ∷ b'n' ∷ [], MsgType.req_redis_llen)
    ∷ (b'l' ∷ b'p' ∷ b'o' ∷ b'p' ∷ [], MsgType.req_redis_lpop)
    ∷ (b'l' ∷ b'r' ∷ b'e' ∷ b'm' ∷ [], MsgType.req_redis_lrem)
    ∷ (b'l' ∷ b's' ∷ b'e' ∷ b't' ∷ [], MsgType.req_redis_lset)
    ∷ (b'r' ∷ b'p' ∷ b'o' ∷ b'p' ∷ [], MsgType.req_redis_rpop)
    ∷ (b's' ∷ b'a' ∷ b'd' ∷ b'd' ∷ [], MsgType.req_redis_sadd)
    ∷ (b's' ∷ b'p' ∷ b'o' ∷ b'p' ∷ [], MsgType.req_redis_spop)
    ∷ (b's' ∷ b'r' ∷ b'e' ∷ b'm' ∷ [], MsgType.req_redis_srem)
    ∷ (b't' ∷ b'y' ∷ b'p' ∷ b'e' ∷ [], MsgType.req_redis_type)
    ∷ (b'm' ∷ b'g' ∷ b'e' ∷ b't' ∷ [], MsgType.req_redis_mget)
    ∷ (b'm' ∷ b's' ∷ b'e' ∷ b't' ∷ [], MsgType.req_redis_mset)
    ∷ (b'z' ∷ b'a' ∷ b'd' ∷ b'd' ∷ [], MsgType.req_redis_zadd)
    ∷ (b'z' ∷ b'r' ∷ b'e' ∷ b'm' ∷ [], MsgType.req_redis_zrem)
    ∷ (b'e' ∷ b'v' ∷ b'a' ∷ b'l' ∷ [], MsgType.req_redis_eval)
    ∷ (b's' ∷ b'o' ∷ b'r' ∷ b't' ∷ [], MsgType.req_redis_sort)
    ∷ (b'p' ∷ b'i' ∷ b'n' ∷ b'g' ∷ [], MsgType.req_redis_ping)
    ∷ (b'q' ∷ b'u' ∷ b'i' ∷ b't' ∷ [], MsgType.req_redis_quit)
    ∷ (b'a' ∷ b'u' ∷ b't' ∷ b'h' ∷ [], MsgType.req_redis_auth)
    ∷ []

unfoldable pub commands_5 : List Command
commands_5 =
    (b'b' ∷ b'i' ∷ b't' ∷ b'o' ∷ b'p' ∷ [], MsgType.req_redis_bitop)
    ∷ (b'h' ∷ b'k' ∷ b'e' ∷ b'y' ∷ b's' ∷ [], MsgType.req_redis_hkeys)
    ∷ (b'h' ∷ b'm' ∷ b'g' ∷ b'e' ∷ b't' ∷ [], MsgType.req_redis_hmget)
    ∷ (b'h' ∷ b'm' ∷ b's' ∷ b'e' ∷ b't' ∷ [], MsgType.req_redis_hmset)
    ∷ (b'h' ∷ b'v' ∷ b'a' ∷ b'l' ∷ b's' ∷ [], MsgType.req_redis_hvals)
    ∷ (b'h' ∷ b's' ∷ b'c' ∷ b'a' ∷ b'n' ∷ [], MsgType.req_redis_hscan)
    ∷ (b'l' ∷ b'p' ∷ b'u' ∷ b's' ∷ b'h' ∷ [], MsgType.req_redis_lpush)
    ∷ (b'l' ∷ b't' ∷ b'r' ∷ b'i' ∷ b'm' ∷ [], MsgType.req_redis_ltrim)
    ∷ (b'r' ∷ b'p' ∷ b'u' ∷ b's' ∷ b'h' ∷ [], MsgType.req_redis_rpush)
    ∷ (b's' ∷ b'c' ∷ b'a' ∷ b'r' ∷ b'd' ∷ [], MsgType.req_redis_scard)
    ∷ (b's' ∷ b'd' ∷ b'i' ∷ b'f' ∷ b'f' ∷ [], MsgType.req_redis_sdiff)
    ∷ (b's' ∷ b'e' ∷ b't' ∷ b'e' ∷ b'x' ∷ [], MsgType.req_redis_setex)
    ∷ (b's' ∷ b'e' ∷ b't' ∷ b'n' ∷ b'x' ∷ [], MsgType.req_redis_setnx)
    ∷ (b's' ∷ b'm' ∷ b'o' ∷ b'v' ∷ b'e' ∷ [], MsgType.req_redis_smove)
    ∷ (b's' ∷ b's' ∷ b'c' ∷ b'a' ∷ b'n' ∷ [], MsgType.req_redis_sscan)
    ∷ (b'z' ∷ b'c' ∷ b'a' ∷ b'r' ∷ b'd' ∷ [], MsgType.req_redis_zcard)
    ∷ (b'z' ∷ b'r' ∷ b'a' ∷ b'n' ∷ b'k' ∷ [], MsgType.req_redis_zrank)
    ∷ (b'z' ∷ b's' ∷ b'c' ∷ b'a' ∷ b'n' ∷ [], MsgType.req_redis_zscan)
    ∷ (b'p' ∷ b'f' ∷ b'a' ∷ b'd' ∷ b'd' ∷ [], MsgType.req_redis_pfadd)
    ∷ []

unfoldable pub commands_6 : List Command
commands_6 =
    (b'r' ∷ b'e' ∷ b'n' ∷ b'a' ∷ b'm' ∷ b'e' ∷ [], MsgType.req_redis_rename)
    ∷ (b'a' ∷ b'p' ∷ b'p' ∷ b'e' ∷ b'n' ∷ b'd' ∷ [], MsgType.req_redis_append)
    ∷ (b'b' ∷ b'i' ∷ b't' ∷ b'p' ∷ b'o' ∷ b's' ∷ [], MsgType.req_redis_bitpos)
    ∷ (b'd' ∷ b'e' ∷ b'c' ∷ b'r' ∷ b'b' ∷ b'y' ∷ [], MsgType.req_redis_decrby)
    ∷ (b'e' ∷ b'x' ∷ b'i' ∷ b's' ∷ b't' ∷ b's' ∷ [], MsgType.req_redis_exists)
    ∷ (b'e' ∷ b'x' ∷ b'p' ∷ b'i' ∷ b'r' ∷ b'e' ∷ [], MsgType.req_redis_expire)
    ∷ (b'g' ∷ b'e' ∷ b't' ∷ b'b' ∷ b'i' ∷ b't' ∷ [], MsgType.req_redis_getbit)
    ∷ (b'g' ∷ b'e' ∷ b't' ∷ b's' ∷ b'e' ∷ b't' ∷ [], MsgType.req_redis_getset)
    ∷ (b'm' ∷ b's' ∷ b'e' ∷ b't' ∷ b'n' ∷ b'x' ∷ [], MsgType.req_redis_msetnx)
    ∷ (b'p' ∷ b's' ∷ b'e' ∷ b't' ∷ b'e' ∷ b'x' ∷ [], MsgType.req_redis_psetex)
    ∷ (b'h' ∷ b's' ∷ b'e' ∷ b't' ∷ b'n' ∷ b'x' ∷ [], MsgType.req_redis_hsetnx)
    ∷ (b'i' ∷ b'n' ∷ b'c' ∷ b'r' ∷ b'b' ∷ b'y' ∷ [], MsgType.req_redis_incrby)
    ∷ (b'l' ∷ b'i' ∷ b'n' ∷ b'd' ∷ b'e' ∷ b'x' ∷ [], MsgType.req_redis_lindex)
    ∷ (b'l' ∷ b'p' ∷ b'u' ∷ b's' ∷ b'h' ∷ b'x' ∷ [], MsgType.req_redis_lpushx)
    ∷ (b'l' ∷ b'r' ∷ b'a' ∷ b'n' ∷ b'g' ∷ b'e' ∷ [], MsgType.req_redis_lrange)
    ∷ (b'r' ∷ b'p' ∷ b'u' ∷ b's' ∷ b'h' ∷ b'x' ∷ [], MsgType.req_redis_rpushx)
    ∷ (b's' ∷ b'e' ∷ b't' ∷ b'b' ∷ b'i' ∷ b't' ∷ [], MsgType.req_redis_setbit)
    ∷ (b's' ∷ b'i' ∷ b'n' ∷ b't' ∷ b'e' ∷ b'r' ∷ [], MsgType.req_redis_sinter)
    ∷ (b's' ∷ b't' ∷ b'r' ∷ b'l' ∷ b'e' ∷ b'n' ∷ [], MsgType.req_redis_strlen)
    ∷ (b's' ∷ b'u' ∷ b'n' ∷ b'i' ∷ b'o' ∷ b'n' ∷ [], MsgType.req_redis_sunion)
    ∷ (b'z' ∷ b'c' ∷ b'o' ∷ b'u' ∷ b'n' ∷ b't' ∷ [], MsgType.req_redis_zcount)
    ∷ (b'z' ∷ b'r' ∷ b'a' ∷ b'n' ∷ b'g' ∷ b'e' ∷ [], MsgType.req_redis_zrange)
    ∷ (b'z' ∷ b's' ∷ b'c' ∷ b'o' ∷ b'r' ∷ b'e' ∷ [], MsgType.req_redis_zscore)
    ∷ []

unfoldable pub commands_7 : List Command
commands_7 =
    (b'p' ∷ b'e' ∷ b'r' ∷ b's' ∷ b'i' ∷ b's' ∷ b't' ∷ [], MsgType.req_redis_persist)
    ∷ (b'p' ∷ b'e' ∷ b'x' ∷ b'p' ∷ b'i' ∷ b'r' ∷ b'e' ∷ [], MsgType.req_redis_pexpire)
    ∷ (b'h' ∷ b'e' ∷ b'x' ∷ b'i' ∷ b's' ∷ b't' ∷ b's' ∷ [], MsgType.req_redis_hexists)
    ∷ (b'h' ∷ b'g' ∷ b'e' ∷ b't' ∷ b'a' ∷ b'l' ∷ b'l' ∷ [], MsgType.req_redis_hgetall)
    ∷ (b'h' ∷ b'i' ∷ b'n' ∷ b'c' ∷ b'r' ∷ b'b' ∷ b'y' ∷ [], MsgType.req_redis_hincrby)
    ∷ (b'l' ∷ b'i' ∷ b'n' ∷ b's' ∷ b'e' ∷ b'r' ∷ b't' ∷ [], MsgType.req_redis_linsert)
    ∷ (b'z' ∷ b'i' ∷ b'n' ∷ b'c' ∷ b'r' ∷ b'b' ∷ b'y' ∷ [], MsgType.req_redis_zincrby)
    ∷ (b'e' ∷ b'v' ∷ b'a' ∷ b'l' ∷ b's' ∷ b'h' ∷ b'a' ∷ [], MsgType.req_redis_evalsha)
    ∷ (b'r' ∷ b'e' ∷ b's' ∷ b't' ∷ b'o' ∷ b'r' ∷ b'e' ∷ [], MsgType.req_redis_restore)
    ∷ (b'p' ∷ b'f' ∷ b'c' ∷ b'o' ∷ b'u' ∷ b'n' ∷ b't' ∷ [], MsgType.req_redis_pfcount)
    ∷ (b'p' ∷ b'f' ∷ b'm' ∷ b'e' ∷ b'r' ∷ b'g' ∷ b'e' ∷ [], MsgType.req_redis_pfmerge)
    ∷ []

unfoldable pub commands_8 : List Command
commands_8 =
    (b'e' ∷ b'x' ∷ b'p' ∷ b'i' ∷ b'r' ∷ b'e' ∷ b'a' ∷ b't' ∷ [], MsgType.req_redis_expireat)
    ∷ (b'r' ∷ b'e' ∷ b'n' ∷ b'a' ∷ b'm' ∷ b'e' ∷ b'n' ∷ b'x' ∷ [], MsgType.req_redis_renamenx)
    ∷ (b'b' ∷ b'i' ∷ b't' ∷ b'c' ∷ b'o' ∷ b'u' ∷ b'n' ∷ b't' ∷ [], MsgType.req_redis_bitcount)
    ∷ (b'g' ∷ b'e' ∷ b't' ∷ b'r' ∷ b'a' ∷ b'n' ∷ b'g' ∷ b'e' ∷ [], MsgType.req_redis_getrange)
    ∷ (b's' ∷ b'e' ∷ b't' ∷ b'r' ∷ b'a' ∷ b'n' ∷ b'g' ∷ b'e' ∷ [], MsgType.req_redis_setrange)
    ∷ (b's' ∷ b'm' ∷ b'e' ∷ b'm' ∷ b'b' ∷ b'e' ∷ b'r' ∷ b's' ∷ [], MsgType.req_redis_smembers)
    ∷ (b'z' ∷ b'r' ∷ b'e' ∷ b'v' ∷ b'r' ∷ b'a' ∷ b'n' ∷ b'k' ∷ [], MsgType.req_redis_zrevrank)
    ∷ []

unfoldable pub commands_9 : List Command
commands_9 =
    (b'p' ∷ b'e' ∷ b'x' ∷ b'p' ∷ b'i' ∷ b'r' ∷ b'e' ∷ b'a' ∷ b't' ∷ [], MsgType.req_redis_pexpireat)
    ∷ (
      b'r' ∷ b'p' ∷ b'o' ∷ b'p' ∷ b'l' ∷ b'p' ∷ b'u' ∷ b's' ∷ b'h' ∷ [],
      MsgType.req_redis_rpoplpush,
    )
    ∷ (
      b's' ∷ b'i' ∷ b's' ∷ b'm' ∷ b'e' ∷ b'm' ∷ b'b' ∷ b'e' ∷ b'r' ∷ [],
      MsgType.req_redis_sismember,
    )
    ∷ (
      b'z' ∷ b'r' ∷ b'e' ∷ b'v' ∷ b'r' ∷ b'a' ∷ b'n' ∷ b'g' ∷ b'e' ∷ [],
      MsgType.req_redis_zrevrange,
    )
    ∷ (
      b'z' ∷ b'l' ∷ b'e' ∷ b'x' ∷ b'c' ∷ b'o' ∷ b'u' ∷ b'n' ∷ b't' ∷ [],
      MsgType.req_redis_zlexcount,
    )
    ∷ []

unfoldable pub commands_10 : List Command
commands_10 =
    (
      b's' ∷ b'd' ∷ b'i' ∷ b'f' ∷ b'f' ∷ b's' ∷ b't' ∷ b'o' ∷ b'r' ∷ b'e' ∷ [],
      MsgType.req_redis_sdiffstore,
    )
    ∷ []

unfoldable pub commands_11 : List Command
commands_11 =
    (
      b'i' ∷ b'n' ∷ b'c' ∷ b'r' ∷ b'b' ∷ b'y' ∷ b'f' ∷ b'l' ∷ b'o' ∷ b'a' ∷ b't' ∷ [],
      MsgType.req_redis_incrbyfloat,
    )
    ∷ (
      b's' ∷ b'i' ∷ b'n' ∷ b't' ∷ b'e' ∷ b'r' ∷ b's' ∷ b't' ∷ b'o' ∷ b'r' ∷ b'e' ∷ [],
      MsgType.req_redis_sinterstore,
    )
    ∷ (
      b's' ∷ b'r' ∷ b'a' ∷ b'n' ∷ b'd' ∷ b'm' ∷ b'e' ∷ b'm' ∷ b'b' ∷ b'e' ∷ b'r' ∷ [],
      MsgType.req_redis_srandmember,
    )
    ∷ (
      b's' ∷ b'u' ∷ b'n' ∷ b'i' ∷ b'o' ∷ b'n' ∷ b's' ∷ b't' ∷ b'o' ∷ b'r' ∷ b'e' ∷ [],
      MsgType.req_redis_sunionstore,
    )
    ∷ (
      b'z' ∷ b'i' ∷ b'n' ∷ b't' ∷ b'e' ∷ b'r' ∷ b's' ∷ b't' ∷ b'o' ∷ b'r' ∷ b'e' ∷ [],
      MsgType.req_redis_zinterstore,
    )
    ∷ (
      b'z' ∷ b'u' ∷ b'n' ∷ b'i' ∷ b'o' ∷ b'n' ∷ b's' ∷ b't' ∷ b'o' ∷ b'r' ∷ b'e' ∷ [],
      MsgType.req_redis_zunionstore,
    )
    ∷ (
      b'z' ∷ b'r' ∷ b'a' ∷ b'n' ∷ b'g' ∷ b'e' ∷ b'b' ∷ b'y' ∷ b'l' ∷ b'e' ∷ b'x' ∷ [],
      MsgType.req_redis_zrangebylex,
    )
    ∷ []

unfoldable pub commands_12 : List Command
commands_12 =
    (
      b'h' ∷ b'i' ∷ b'n' ∷ b'c' ∷ b'r' ∷ b'b' ∷ b'y' ∷ b'f' ∷ b'l' ∷ b'o' ∷ b'a' ∷ b't' ∷ [],
      MsgType.req_redis_hincrbyfloat,
    )
    ∷ []

unfoldable pub commands_13 : List Command
commands_13 =
    (
      b'z' ∷ b'r' ∷ b'a' ∷ b'n' ∷ b'g' ∷ b'e' ∷ b'b' ∷ b'y' ∷ b's' ∷ b'c' ∷ b'o' ∷ b'r' ∷ b'e' ∷ [],
      MsgType.req_redis_zrangebyscore,
    )
    ∷ []

unfoldable pub commands_14 : List Command
commands_14 =
    (
      b'z' ∷ b'r' ∷ b'e' ∷ b'm' ∷ b'r' ∷ b'a' ∷ b'n' ∷ b'g' ∷ b'e' ∷ b'b' ∷ b'y' ∷ b'l' ∷ b'e'
          ∷ b'x' ∷ [],
      MsgType.req_redis_zremrangebylex,
    )
    ∷ []

unfoldable pub commands_15 : List Command
commands_15 =
    (
      b'z' ∷ b'r' ∷ b'e' ∷ b'm' ∷ b'r' ∷ b'a' ∷ b'n' ∷ b'g' ∷ b'e' ∷ b'b' ∷ b'y' ∷ b'r' ∷ b'a'
          ∷ b'n' ∷ b'k' ∷ [],
      MsgType.req_redis_zremrangebyrank,
    )
    ∷ []

unfoldable pub commands_16 : List Command
commands_16 =
    (
      b'z' ∷ b'r' ∷ b'e' ∷ b'm' ∷ b'r' ∷ b'a' ∷ b'n' ∷ b'g' ∷ b'e' ∷ b'b' ∷ b'y' ∷ b's' ∷ b'c'
          ∷ b'o' ∷ b'r' ∷ b'e' ∷ [],
      MsgType.req_redis_zremrangebyscore,
    )
    ∷ (
      b'z' ∷ b'r' ∷ b'e' ∷ b'v' ∷ b'r' ∷ b'a' ∷ b'n' ∷ b'g' ∷ b'e' ∷ b'b' ∷ b'y' ∷ b's' ∷ b'c'
          ∷ b'o' ∷ b'r' ∷ b'e' ∷ [],
      MsgType.req_redis_zrevrangebyscore,
    )
    ∷ []

unfoldable pub commands_of : ℕ → List Command
commands_of n =
    if n == 3
    then commands_3
    else (if n == 4
        then commands_4
        else (if n == 5
            then commands_5
            else (if n == 6
                then commands_6
                else (if n == 7
                    then commands_7
                    else (if n == 8
                        then commands_8
                        else (if n == 9
                            then commands_9
                            else (if n == 10
                                then commands_10
                                else (if n == 11
                                    then commands_11
                                    else (if n == 12
                                        then commands_12
                                        else (if n == 13
                                            then commands_13
                                            else (if n == 14
                                                then commands_14
                                                else (if n == 15
                                                    then commands_15
                                                    else (if n == 16
                                                        then commands_16
                                                        else ([]))))))))))))))

-- The first command whose name fits.
unfoldable pub find_command : List ℕ → List Command → MsgType
find_command bytes [] = MsgType.unknown
find_command bytes (c ∷ rest) =
    let later = find_command bytes rest in if icmp bytes (c.0) then c.1 else later

unfoldable pub command_type : List ℕ → MsgType
command_type bytes = find_command bytes (commands_of (length bytes))

-- The flags that the tests set beside the type.
unfoldable pub sets_noforward : MsgType → Bool
sets_noforward MsgType.req_redis_ping = true
sets_noforward MsgType.req_redis_auth = true
sets_noforward _ = false

unfoldable pub sets_quit : MsgType → Bool
sets_quit MsgType.req_redis_quit = true
sets_quit _ = false
