-- ===== src/Craq/Startup.antt =====
-- artillery-ddata/src/craq/node.rs and craq_config.rs: how a node connects to the others and becomes
-- a server. Here every server answers: how a node waits for one that is not up yet is in Waiting.
pub mod FirstWrite
pub mod Waiting
pub mod Lock
use artillery.Base.{
  ◌>>=◌, ℕ, ◌+◌, ◌-◌, ◌*◌, ◌%◌, ◌^◌, Bool, List, [], ◌∷◌, Option, none, some, length, ◌==◌,
  if◌then◌else◌, get_elem?,
}
use artillery.Craq.Chain.{
  ChainNode, CraqChain, is_tail, get_tail, get_successor, get_node, get_index, chain_size, last,
}
use artillery.Craq.Server.{
  CrMode, craq, Channel, tail_channel, successor_channel, CraqProtoServer, new,
}

pub record CraqConfig : Type 0 where
  pub fallback_replication_port : ℕ
  pub operation_mode : CrMode
  pub connection_sleep_time : ℕ
  pub connection_pool_size : ℕ
  pub protocol_worker_size : ℕ

-- `CraqConfig::default`.
abbrev pub default_craq_config : CraqConfig
default_craq_config = record {
  fallback_replication_port = 22991;
  operation_mode = craq;
  connection_sleep_time = 1000;
  connection_pool_size = 50;
  protocol_worker_size = 100;
}

-- A connection pool is the channel that it goes through; `tail_idle` and `successor_idle` count the
-- connections in the two channels.
pub record CraqNode : Type 0 where
  pub cr_mode : CrMode
  pub chain : CraqChain
  pub tail_pool_rx : Option Channel
  pub successor_pool_rx : Option Channel
  pub tail_pool_tx : Option Channel
  pub successor_pool_tx : Option Channel
  pub tail_idle : ℕ
  pub successor_idle : ℕ
  pub config : CraqConfig

-- `CraqNode::new_node`.
abbrev pub new_node : CrMode → CraqChain → CraqConfig → CraqNode
new_node cr_mode chain config = record {
  cr_mode = cr_mode;
  chain = chain;
  tail_pool_rx = none;
  successor_pool_rx = none;
  tail_pool_tx = none;
  successor_pool_tx = none;
  tail_idle = 0;
  successor_idle = 0;
  config = config;
}

-- `create_conn_pool`: the iterator that would add more connections is never run, so that the pool
-- holds the first one alone.
abbrev pub pool_size : ℕ
pool_size = 1

abbrev connect_tail : CraqNode → CraqNode
connect_tail n = record n {
  tail_pool_rx = some tail_channel;
  tail_pool_tx = some tail_channel;
  tail_idle = pool_size;
}

-- "Is this the node before the tail?"
abbrev pub before_tail : CraqChain → Bool
before_tail c = get_index c == chain_size c - 2

abbrev connect_successor : Option ChainNode → CraqNode → Option CraqNode
connect_successor none n = none
connect_successor (some successor) n = some (record n {
  successor_pool_rx = some successor_channel;
  successor_pool_tx = some successor_channel;
  successor_idle = pool_size;
})

abbrev connect_behind : Option ChainNode → CraqNode → Option CraqNode
connect_behind none n = none
connect_behind (some tail) n =
    if before_tail n.chain
    then some (record (connect_tail n) {
      successor_pool_rx = some tail_channel;
      successor_pool_tx = some tail_channel;
    })
    else connect_successor (get_successor n.chain) (connect_tail n)

-- A branch marked `unreachable!` is `none`.
unfoldable pub connect : CraqNode → Option CraqNode
unfolding get_tail get_successor
connect n = if is_tail n.chain then some n else connect_behind (get_tail n.chain) n

-- The server that `run_protocol_server` starts.
abbrev pub server_of : CraqNode → CraqProtoServer
server_of n =
    new n.tail_pool_rx n.tail_pool_tx n.successor_pool_rx n.successor_pool_tx n.tail_idle
      n.successor_idle n.chain n.cr_mode

abbrev port_of : Option ChainNode → CraqConfig → ℕ
port_of none config = config.fallback_replication_port
port_of (some n) config = n.host % 2 ^ 16

-- The port of the node in the chain, or the fallback, and the server. A panic of the connecting
-- thread poisons the node's lock, for which the server then waits for ever: that is `none`.
unfoldable pub start : CrMode → CraqChain → CraqConfig → Option (ℕ × CraqProtoServer)
unfolding connect get_node
start cr_mode chain config = do
  connected ← connect (new_node cr_mode chain config)
  some (port_of (get_node chain) config, server_of connected)
