-- ===== src/Server.antt =====
-- src/nc_server.h: the state of a server and of a server pool.
use twemproxy.Common.{ℕ, List, Bool}

-- NC_OK, NC_ERROR and NC_ENOMEM of src/nc_core.h.
pub data Status : Type 0 where
  ok error enomem : Status

-- A point of the continuum.
pub record Continuum : Type 0 where
  pub index : ℕ
  pub value : ℕ

-- Times are in microseconds. `s_conn_q` holds the connections by name, the head first.
pub record Server : Type 0 where
  pub name : List ℕ
  pub weight : ℕ
  pub ns_conn_q : ℕ
  pub s_conn_q : List ℕ
  pub next_retry : ℕ
  pub failure_count : ℕ

pub data DistType : Type 0 where
  ketama modula random : DistType

-- `continuum` is the allocated array, of which the first `ncontinuum` points are in use.
-- An array `redis_master` holds at most one server. An empty `hash_tag` is the one not set.
pub record ServerPool : Type 0 where
  pub server : List Server
  pub redis_master : List Server
  pub ncontinuum : ℕ
  pub nserver_continuum : ℕ
  pub continuum : List Continuum
  pub nlive_server : ℕ
  pub next_rebuild : ℕ
  pub dist_type : DistType
  pub key_hash : List ℕ → ℕ
  pub hash_tag : List ℕ
  pub server_connections : ℕ
  pub server_retry_timeout : ℕ
  pub server_failure_limit : ℕ
  pub require_auth : Bool
  pub auto_eject_hosts : Bool
  pub redis : Bool
