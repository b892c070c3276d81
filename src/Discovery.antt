-- ===== src/Discovery.antt =====
-- artillery-core/src/service_discovery/udp_anycast/state.rs: how a node finds others by broadcast
-- datagrams, `MulticastServiceDiscoveryState`.
-- Sockets, the poll and the encoding of messages are `Io`. A `String` in a message is its bytes, and
-- an observer or an `Exit` carries a channel, a number.
pub mod Sending
pub mod Handlers
pub mod Replies
pub mod Requests
pub mod Steady
pub mod Service
pub mod Mdns
use artillery.Base.{if◌then◌else◌, ℕ, Bool, true, false, List, [], ◌∷◌, Option}
use artillery.Member.{SocketAddr}

pub record ServiceDiscoveryReply : Type 0 where
  pub serialized_data : List ℕ

-- `ServiceDiscoveryReply::default`: the text "DONE".
abbrev pub default_reply_text : ServiceDiscoveryReply
default_reply_text = record { serialized_data = b'D' ∷ b'O' ∷ b'N' ∷ b'E' ∷ [] }

pub data ServiceDiscoveryRequest : Type 0 where
  register_observer : ℕ → ServiceDiscoveryRequest
  set_broadcast_listen : Bool → ServiceDiscoveryRequest
  seek_peers : ServiceDiscoveryRequest
  exit : ℕ → ServiceDiscoveryRequest

pub data ServiceDiscoveryMessage : Type 0 where
  request : ServiceDiscoveryMessage
  response : ℕ → ServiceDiscoveryReply → ServiceDiscoveryMessage

-- `ON_DISCOVERY` and `SEEK_NODES`, and any other token.
pub data Token : Type 0 where
  on_discovery seek_nodes : Token
  other_token : ℕ → Token

pub data Interest : Type 0 where
  readable_interest writable_interest both : Interest

pub record MulticastServiceDiscoveryConfig : Type 0 where
  pub timeout_delta : ℕ
  pub discovery_addr : SocketAddr
  pub seeking_addr : SocketAddr

-- `buf` is the buffer of the event loop. The last four fields are what was done outside: the
-- registration of the socket, the datagrams sent, the number of times that a send was tried, and
-- what observers and the channels of an `Exit` were told.
pub record MulticastServiceDiscoveryState : Type 0 where
  pub config : MulticastServiceDiscoveryConfig
  pub seek_request : List ℕ
  pub observers : List ℕ
  pub seeker_replies : List SocketAddr
  pub default_reply : ServiceDiscoveryReply
  pub uid : ℕ
  pub running : Bool
  pub listen : Bool
  pub buf : List ℕ
  pub registered : Token × Interest
  pub sent : List (List ℕ × SocketAddr)
  pub attempts : ℕ
  pub told : List (ℕ × ServiceDiscoveryReply)
  pub exited : List ℕ

-- `decode_utf8` is the text in a buffer, or none where it is no text; `parse` reads a message from
-- it, once it is trimmed. `send_to` is the outcome of the send with the given number.
pub record Io : Type 0 where
  pub decode_utf8 : List ℕ → Option (List ℕ)
  pub parse : List ℕ → Option ServiceDiscoveryMessage
  pub encode : ServiceDiscoveryMessage → Option (List ℕ)
  pub send_to : ℕ → List ℕ → SocketAddr → Option ℕ
  pub reregister : Token → Interest → Bool
  pub observe : ℕ → ServiceDiscoveryReply → Bool

pub data Failure : Type 0 where
  utf8_error json_error poll_error : Failure

-- A handler's result, with the state that it leaves.
pub data Handled : Type 0 where
  fine : MulticastServiceDiscoveryState → Handled
  failing : Failure → MulticastServiceDiscoveryState → Handled
  panicking : MulticastServiceDiscoveryState → Handled
  out_of_fuel : MulticastServiceDiscoveryState → Handled

-- `poll.registry().reregister(..)?`.
abbrev pub register : Io → Token → Interest → MulticastServiceDiscoveryState → Handled
register io token interest s =
    if io.reregister token interest
    then fine (record s { registered = (token, interest) })
    else failing poll_error s

-- `MulticastServiceDiscoveryState::new`, once the socket is bound and registered; `seek_request` is
-- the encoded request, `uid` a random number, and `buf` the buffer of zeros.
abbrev pub new_state :
    MulticastServiceDiscoveryConfig
    → ServiceDiscoveryReply
    → ℕ
    → List ℕ
    → List ℕ
    → MulticastServiceDiscoveryState
new_state config discovery_reply uid seek_request buf = record {
  config = config;
  seek_request = seek_request;
  observers = [];
  seeker_replies = [];
  default_reply = discovery_reply;
  uid = uid;
  running = true;
  listen = false;
  buf = buf;
  registered = (on_discovery, both);
  sent = [];
  attempts = 0;
  told = [];
  exited = [];
}
