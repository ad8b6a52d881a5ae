-- ===== src/Lib.antt =====
-- Twemproxy (nutcracker) is a proxy in front of memcached and redis servers: it takes requests from
-- its clients, chooses a server for each by its key, and sends the responses back. This library
-- models its core in C and proves what makes it correct.
--
-- The parts, and the files that model them:
--   Common              shared names, tests, lists and machine words.
--   Hashkit             the hashes of keys: src/hashkit/nc_crc16.c, nc_crc32.c, nc_fnv.c,
--                       nc_one_at_a_time.c, nc_hsieh.c, nc_murmur.c. A key is a list of bytes.
--   Server              the state: struct server, struct server_pool and struct continuum of
--                       src/nc_server.h.
--   Dist                the distributions of src/hashkit: Census is the loop that counts the live
--                       servers, Cursor the writes to the continuum, Ketama, Modula and Random the
--                       update and the dispatch of each. Search, Fill, Sort, Share, CensusLaws and
--                       Routes hold proofs.
--   Pool                src/nc_server.c: Route is server_pool_run, server_pool_hash,
--                       server_pool_idx and server_pool_update; Failure is server_failure and
--                       server_ok. The rest holds proofs.
--   Mbuf                src/nc_mbuf.c: the free buffers, mbuf_copy, mbuf_split and the queue of a
--                       message; and msg_repair and msg_parsed of src/nc_message.c as splits. Keep
--                       and Count hold proofs.
--   Message             the types of messages and struct msg of src/nc_message.h.
--   Redis               src/proto/nc_redis.c: Tables holds the tables of commands by type, Commands
--                       the names of the commands, and Parse is redis_parse_req: Parse/State its
--                       state, Parse/Steps one round of its loop, Parse/Loop the loop. Parse/Receive
--                       is msg_recv_chain with msg_parse of src/nc_message.c for one request.
--                       Reply is redis_parse_rsp, in the same way: Reply/State, Reply/Steps and
--                       Reply/Loop. Print and Reply/Print write requests and responses. The rest
--                       holds proofs.
--   Request             src/nc_request.c: Done is req_done and req_error, Filter is req_filter and
--                       the choice of the target in req_forward.
--   Exchange            the queues of a connection to a server: Conn is the enqueues, req_send_next and
--                       req_send_done of src/nc_request.c, the order of messages in msg_send_chain of
--                       src/nc_message.c, and rsp_recv_done of src/nc_response.c. The rest holds
--                       proofs.
--   Examples            concrete data on which each theorem is applied.
--
-- Names are those of the source. A pool is a value that each operation returns anew; a result
-- `none` stands for what C leaves undefined (a read or write behind the allocation) or for fuel that
-- ran out, and theorems with `Returns` say that the result is `some`. Numbers are natural numbers,
-- cut by `u32` and `u64` where the source has words; times are microseconds. The binary search of
-- ketama_dispatch has as much fuel as the continuum has points, which is enough since each round
-- makes the interval smaller. The loop of redis_parse_req has as much as there are bytes, which is
-- enough since each round takes one at least; that of redis_parse_rsp has twice as much, since it goes
-- back by a byte at times. In their models a pointer into a buffer stands as the bytes
-- from it on, and a jump of `p` over an argument as the list behind it.
--
-- Parameters: MD5, `qsort` and the share of the points that ketama_update computes in `float` are
-- fields of Dist/Ketama's Calls, with what is relied on in Dist/Sort (`qsort` orders and moves) and
-- Dist/Share (the error of single precision). The clock, the allocator and `random` of the C library
-- are arguments.
--
-- Not modelled: sockets and events, the parsers of memcached, the responses on their way to a client,
-- fragments of requests as the protocols make them, time-outs, the configuration, statistics,
-- logging and the control of processes. They are input and output, or stand behind the parts that
-- are modelled.
pub mod Common
pub mod Hashkit
pub mod Server
pub mod Dist
pub mod Pool
pub mod Mbuf
pub mod Message
pub mod Redis
pub mod Request
pub mod Exchange
pub mod Examples
