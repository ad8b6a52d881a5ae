-- ===== src/Redis/Tables.antt =====
-- The tables of src/proto/nc_redis.c over the types of messages.
use twemproxy.Common.{Bool, true, false}
use twemproxy.Message.{MsgType}

-- Requests that only read.
unfoldable pub redis_readonly : MsgType → Bool
redis_readonly MsgType.req_redis_get = true
redis_readonly MsgType.req_redis_ttl = true
redis_readonly MsgType.req_redis_mget = true
redis_readonly MsgType.req_redis_ping = true
redis_readonly MsgType.req_redis_auth = true
redis_readonly MsgType.req_redis_pttl = true
redis_readonly MsgType.req_redis_type = true
redis_readonly MsgType.req_redis_dump = true
redis_readonly MsgType.req_redis_strlen = true
redis_readonly MsgType.req_redis_exists = true
redis_readonly MsgType.req_redis_getrange = true
redis_readonly MsgType.req_redis_getbit = true
redis_readonly MsgType.req_redis_bitcount = true
redis_readonly MsgType.req_redis_hget = true
redis_readonly MsgType.req_redis_hlen = true
redis_readonly MsgType.req_redis_hvals = true
redis_readonly MsgType.req_redis_hkeys = true
redis_readonly MsgType.req_redis_hscan = true
redis_readonly MsgType.req_redis_hgetall = true
redis_readonly MsgType.req_redis_hexists = true
redis_readonly MsgType.req_redis_llen = true
redis_readonly MsgType.req_redis_lindex = true
redis_readonly MsgType.req_redis_lrange = true
redis_readonly MsgType.req_redis_pfcount = true
redis_readonly MsgType.req_redis_zcard = true
redis_readonly MsgType.req_redis_zrank = true
redis_readonly MsgType.req_redis_zscan = true
redis_readonly MsgType.req_redis_zcount = true
redis_readonly MsgType.req_redis_zrange = true
redis_readonly MsgType.req_redis_zscore = true
redis_readonly MsgType.req_redis_zrevrank = true
redis_readonly MsgType.req_redis_zlexcount = true
redis_readonly MsgType.req_redis_zrevrange = true
redis_readonly MsgType.req_redis_zrangebylex = true
redis_readonly MsgType.req_redis_zrangebyscore = true
redis_readonly MsgType.req_redis_scard = true
redis_readonly MsgType.req_redis_sscan = true
redis_readonly MsgType.req_redis_sdiff = true
redis_readonly MsgType.req_redis_sinter = true
redis_readonly MsgType.req_redis_sunion = true
redis_readonly MsgType.req_redis_smembers = true
redis_readonly MsgType.req_redis_sismember = true
redis_readonly MsgType.req_redis_srandmember = true
redis_readonly _ = false

-- Requests that only a pool with a master takes.
unfoldable pub redis_master_slave_only : MsgType → Bool
redis_master_slave_only MsgType.req_redis_rename = true
redis_master_slave_only MsgType.req_redis_renamenx = true
redis_master_slave_only MsgType.req_redis_scan = true
redis_master_slave_only MsgType.req_redis_bitop = true
redis_master_slave_only MsgType.req_redis_msetnx = true
redis_master_slave_only _ = false

-- No key.
unfoldable pub redis_argz : MsgType → Bool
redis_argz MsgType.req_redis_ping = true
redis_argz MsgType.req_redis_quit = true
redis_argz _ = false

-- A key and no argument.
unfoldable pub redis_arg0 : MsgType → Bool
redis_arg0 MsgType.req_redis_exists = true
redis_arg0 MsgType.req_redis_persist = true
redis_arg0 MsgType.req_redis_pttl = true
redis_arg0 MsgType.req_redis_ttl = true
redis_arg0 MsgType.req_redis_type = true
redis_arg0 MsgType.req_redis_dump = true
redis_arg0 MsgType.req_redis_decr = true
redis_arg0 MsgType.req_redis_get = true
redis_arg0 MsgType.req_redis_incr = true
redis_arg0 MsgType.req_redis_strlen = true
redis_arg0 MsgType.req_redis_hgetall = true
redis_arg0 MsgType.req_redis_hkeys = true
redis_arg0 MsgType.req_redis_hlen = true
redis_arg0 MsgType.req_redis_hvals = true
redis_arg0 MsgType.req_redis_llen = true
redis_arg0 MsgType.req_redis_lpop = true
redis_arg0 MsgType.req_redis_rpop = true
redis_arg0 MsgType.req_redis_scard = true
redis_arg0 MsgType.req_redis_smembers = true
redis_arg0 MsgType.req_redis_spop = true
redis_arg0 MsgType.req_redis_zcard = true
redis_arg0 MsgType.req_redis_pfcount = true
redis_arg0 MsgType.req_redis_auth = true
redis_arg0 _ = false

-- Exactly one argument.
unfoldable pub redis_arg1 : MsgType → Bool
redis_arg1 MsgType.req_redis_expire = true
redis_arg1 MsgType.req_redis_expireat = true
redis_arg1 MsgType.req_redis_pexpire = true
redis_arg1 MsgType.req_redis_pexpireat = true
redis_arg1 MsgType.req_redis_rename = true
redis_arg1 MsgType.req_redis_renamenx = true
redis_arg1 MsgType.req_redis_append = true
redis_arg1 MsgType.req_redis_decrby = true
redis_arg1 MsgType.req_redis_getbit = true
redis_arg1 MsgType.req_redis_getset = true
redis_arg1 MsgType.req_redis_incrby = true
redis_arg1 MsgType.req_redis_incrbyfloat = true
redis_arg1 MsgType.req_redis_setnx = true
redis_arg1 MsgType.req_redis_hexists = true
redis_arg1 MsgType.req_redis_hget = true
redis_arg1 MsgType.req_redis_lindex = true
redis_arg1 MsgType.req_redis_lpushx = true
redis_arg1 MsgType.req_redis_rpoplpush = true
redis_arg1 MsgType.req_redis_rpushx = true
redis_arg1 MsgType.req_redis_sismember = true
redis_arg1 MsgType.req_redis_zrank = true
redis_arg1 MsgType.req_redis_zrevrank = true
redis_arg1 MsgType.req_redis_zscore = true
redis_arg1 _ = false

-- Exactly two arguments.
unfoldable pub redis_arg2 : MsgType → Bool
redis_arg2 MsgType.req_redis_getrange = true
redis_arg2 MsgType.req_redis_psetex = true
redis_arg2 MsgType.req_redis_setbit = true
redis_arg2 MsgType.req_redis_setex = true
redis_arg2 MsgType.req_redis_setrange = true
redis_arg2 MsgType.req_redis_hincrby = true
redis_arg2 MsgType.req_redis_hincrbyfloat = true
redis_arg2 MsgType.req_redis_hset = true
redis_arg2 MsgType.req_redis_hsetnx = true
redis_arg2 MsgType.req_redis_lrange = true
redis_arg2 MsgType.req_redis_lrem = true
redis_arg2 MsgType.req_redis_lset = true
redis_arg2 MsgType.req_redis_ltrim = true
redis_arg2 MsgType.req_redis_smove = true
redis_arg2 MsgType.req_redis_zcount = true
redis_arg2 MsgType.req_redis_zlexcount = true
redis_arg2 MsgType.req_redis_zincrby = true
redis_arg2 MsgType.req_redis_zremrangebylex = true
redis_arg2 MsgType.req_redis_zremrangebyrank = true
redis_arg2 MsgType.req_redis_zremrangebyscore = true
redis_arg2 MsgType.req_redis_restore = true
redis_arg2 _ = false

-- Exactly three arguments.
unfoldable pub redis_arg3 : MsgType → Bool
redis_arg3 MsgType.req_redis_linsert = true
redis_arg3 _ = false

-- Any number of arguments.
unfoldable pub redis_argn : MsgType → Bool
redis_argn MsgType.req_redis_scan = true
redis_argn MsgType.req_redis_sort = true
redis_argn MsgType.req_redis_bitcount = true
redis_argn MsgType.req_redis_bitop = true
redis_argn MsgType.req_redis_bitpos = true
redis_argn MsgType.req_redis_set = true
redis_argn MsgType.req_redis_hdel = true
redis_argn MsgType.req_redis_hmget = true
redis_argn MsgType.req_redis_hmset = true
redis_argn MsgType.req_redis_hscan = true
redis_argn MsgType.req_redis_lpush = true
redis_argn MsgType.req_redis_rpush = true
redis_argn MsgType.req_redis_sadd = true
redis_argn MsgType.req_redis_sdiff = true
redis_argn MsgType.req_redis_sdiffstore = true
redis_argn MsgType.req_redis_sinter = true
redis_argn MsgType.req_redis_sinterstore = true
redis_argn MsgType.req_redis_srem = true
redis_argn MsgType.req_redis_sunion = true
redis_argn MsgType.req_redis_sunionstore = true
redis_argn MsgType.req_redis_srandmember = true
redis_argn MsgType.req_redis_sscan = true
redis_argn MsgType.req_redis_pfadd = true
redis_argn MsgType.req_redis_pfmerge = true
redis_argn MsgType.req_redis_zadd = true
redis_argn MsgType.req_redis_zinterstore = true
redis_argn MsgType.req_redis_zrange = true
redis_argn MsgType.req_redis_zrangebyscore = true
redis_argn MsgType.req_redis_zrem = true
redis_argn MsgType.req_redis_zrevrange = true
redis_argn MsgType.req_redis_zrangebylex = true
redis_argn MsgType.req_redis_zrevrangebyscore = true
redis_argn MsgType.req_redis_zunionstore = true
redis_argn MsgType.req_redis_zscan = true
redis_argn _ = false

-- A vector of keys.
unfoldable pub redis_argx : MsgType → Bool
redis_argx MsgType.req_redis_mget = true
redis_argx MsgType.req_redis_del = true
redis_argx _ = false

-- A vector of keys and values.
unfoldable pub redis_argkvx : MsgType → Bool
redis_argkvx MsgType.req_redis_mset = true
redis_argkvx MsgType.req_redis_msetnx = true
redis_argkvx _ = false

-- EVAL and EVALSHA.
unfoldable pub redis_argeval : MsgType → Bool
redis_argeval MsgType.req_redis_eval = true
redis_argeval MsgType.req_redis_evalsha = true
redis_argeval _ = false

-- Error responses.
unfoldable pub redis_error : MsgType → Bool
redis_error MsgType.rsp_redis_error = true
redis_error MsgType.rsp_redis_error_err = true
redis_error MsgType.rsp_redis_error_oom = true
redis_error MsgType.rsp_redis_error_busy = true
redis_error MsgType.rsp_redis_error_noauth = true
redis_error MsgType.rsp_redis_error_loading = true
redis_error MsgType.rsp_redis_error_busykey = true
redis_error MsgType.rsp_redis_error_misconf = true
redis_error MsgType.rsp_redis_error_noscript = true
redis_error MsgType.rsp_redis_error_readonly = true
redis_error MsgType.rsp_redis_error_wrongtype = true
redis_error MsgType.rsp_redis_error_execabort = true
redis_error MsgType.rsp_redis_error_masterdown = true
redis_error MsgType.rsp_redis_error_noreplicas = true
redis_error _ = false
