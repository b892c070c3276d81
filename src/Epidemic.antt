-- ===== src/Epidemic.antt =====
-- artillery-core/src/epidemic/state.rs and cluster_config.rs: the messages of the epidemic protocol
-- and the state of the node that speaks it, `ArtilleryEpidemic`.
-- The channels and the socket are what has been sent through them: `requests` is the node's own
-- request channel, `events` the channel to its user, `sent` the datagrams.
pub mod Messages
pub mod Handlers
pub mod Inbound
pub mod Queue
pub mod Acks
pub mod Loop
pub mod Network
pub mod Cluster
pub mod Safety
pub mod Pruning
pub mod Hasty
pub mod OwnRecord
pub mod OwnSeed
pub mod Unheard
pub mod Sending
use Prim.Native.String.{String}
use artillery.Base.{ℕ, ◌*◌, ◌+◌, Bool, true, List, [], ◌∷◌, Option}
use artillery.Member.{
  Uuid, SocketAddr, DateTime, AddDate, ArtilleryMember, ArtilleryStateChange, current, seconds,
}
use artillery.Membership.{ArtilleryMemberList, Platform}
use artillery.Membership

pub record ClusterConfig : Type 0 where
  pub cluster_key : List ℕ
  pub ping_interval : ℕ
  pub network_mtu : ℕ
  pub ping_request_host_count : ℕ
  pub ping_timeout : ℕ
  pub listen_addr : SocketAddr

-- constants.rs.
abbrev pub infection_port : ℕ
infection_port = 27845

abbrev pub packet_size : ℕ
packet_size = 65536

-- `ClusterConfig::default`: the key is the text "default", and the address 127.0.0.1.
abbrev pub default_config : ClusterConfig
default_config = record {
  cluster_key = b'd' ∷ b'e' ∷ b'f' ∷ b'a' ∷ b'u' ∷ b'l' ∷ b't' ∷ [];
  ping_interval = seconds 1;
  network_mtu = packet_size;
  ping_request_host_count = 3;
  ping_timeout = seconds 3;
  listen_addr = 2130706433 * 65536 + infection_port;
}

-- `EncSocketAddr` wraps an address for its encoding.
pub data Request : Type 0 where
  heartbeat ack : Request
  ping : SocketAddr → Request
  ack_host : ArtilleryMember → Request
  payload : Uuid → String → Request

pub record ArtilleryMessage : Type 0 where
  pub sender : Uuid
  pub cluster_key : List ℕ
  pub request : Request
  pub state_changes : List ArtilleryStateChange

pub record TargetedRequest : Type 0 where
  pub request : Request
  pub target : SocketAddr

-- An `Exit` carries the channel to answer on, a number.
pub data ArtilleryClusterRequest : Type 0 where
  add_seed : SocketAddr → ArtilleryClusterRequest
  respond : SocketAddr → ArtilleryMessage → ArtilleryClusterRequest
  react : TargetedRequest → ArtilleryClusterRequest
  leave_cluster : ArtilleryClusterRequest
  exit : ℕ → ArtilleryClusterRequest
  send_payload : Uuid → String → ArtilleryClusterRequest

pub data ArtilleryMemberEvent : Type 0 where
  joined went_up suspected_down went_down departed : ArtilleryMember → ArtilleryMemberEvent
  received : ArtilleryMember → String → ArtilleryMemberEvent

-- An entry of `pending_responses`.
pub record Pending : Type 0 where
  pub deadline : DateTime
  pub host : SocketAddr
  pub state_changes : List ArtilleryStateChange

pub record ArtilleryEpidemic : Type 0 where
  pub host_key : Uuid
  pub config : ClusterConfig
  pub members : ArtilleryMemberList
  pub seed_queue : List SocketAddr
  pub pending_responses : List Pending
  pub state_changes : List ArtilleryStateChange
  pub wait_list : List (SocketAddr × List SocketAddr)
  pub requests : List ArtilleryClusterRequest
  pub events : List (List ArtilleryMember × ArtilleryMemberEvent)
  pub sent : List (SocketAddr × ArtilleryMessage)
  pub running : Bool

-- What one call draws from outside: the random choices, the clock, chrono's addition, whether the
-- receiver of the node's events lives, the length of a message that `serde_json` encodes, and whether
-- the socket takes a datagram.
pub record Env : Type 0 where
  pub platform : Platform
  pub now : DateTime
  pub add_date : AddDate
  pub listening : Bool
  pub encoded_len : ArtilleryMessage → ℕ
  pub send_ok : SocketAddr → ArtilleryMessage → Bool

-- `ArtilleryEpidemic::new`, once the socket is bound.
abbrev pub new : DateTime → Uuid → ClusterConfig → ArtilleryEpidemic
new now host_key config = record {
  host_key = host_key;
  config = config;
  members = Membership.new (current now host_key);
  seed_queue = [];
  pending_responses = [];
  state_changes = record { member = current now host_key } ∷ [];
  wait_list = [];
  requests = [];
  events = [];
  sent = [];
  running = true;
}
