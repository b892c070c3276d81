-- ===== src/Epidemic/Network.antt =====
-- artillery-core/src/epidemic/cluster.rs, what the user of a node may ask of it, and the whole cluster:
-- nodes that run the event loop of state.rs, and the datagrams between them.
-- A node goes by its key. The network may lose datagrams, deliver them late, in any order and more
-- than once. A node that has been told to stop may go on here.
pub mod Nodes
pub mod Safety
pub mod Seeds
use Prim.Native.String.{String}
use artillery.Base.{
  ℕ, Bool, true, List, [], ◌∷◌, ◌++◌, Option, none, some, get_elem?, ◌==◌, if◌then◌else◌, ◌>>=◌,
}
use artillery.Member.{Uuid, SocketAddr}
use artillery.Epidemic.{
  ArtilleryMessage, ArtilleryClusterRequest, add_seed, leave_cluster, exit, send_payload,
  ArtilleryEpidemic, Env,
}
use artillery.Epidemic.Handlers.{Step}
use artillery.Epidemic.Loop.{tick, respond_to, handle_one}

-- `comm.send(..)`, to a node that still runs.
abbrev pub send : ArtilleryClusterRequest → ArtilleryEpidemic → ArtilleryEpidemic
send request s = record s { requests = s.requests ++ request ∷ [] }

-- The methods of `Cluster`. `drop` waits until the node has answered on the channel that it sends.
pub data Command : Type 0 where
  add_seed_node : SocketAddr → Command
  send_payload_to : Uuid → String → Command
  leave : Command
  drop : ℕ → Command

unfoldable pub obey : Command → ArtilleryEpidemic → ArtilleryEpidemic
obey (add_seed_node addr) s = send (add_seed addr) s
obey (send_payload_to id msg) s = send (send_payload id msg) s
obey leave s = send leave_cluster s
obey (drop tx) s = send (exit tx) s

-- What may happen next: the ping interval of a node is over, a node takes the next request off its
-- channel, the datagram that a node sent as its n-th reaches another node, or a user asks for something.
pub data Event : Type 0 where
  ticks works : Uuid → Env → Event
  delivers : Uuid → ℕ → Uuid → Event
  commands : Uuid → Command → Event

abbrev pub Cluster : Type 0
Cluster = Uuid → ArtilleryEpidemic

abbrev pub update : Uuid → ArtilleryEpidemic → Cluster → Cluster
update i s nodes j = if j == i then s else nodes j

-- A round of the loop over the node's own requests.
unfoldable pub work : Env → Step
unfolding handle_one
work env s = elim s.requests [
  | [] ↦ some s
  | msg ∷ rest ↦ handle_one env (λ tx. true) msg (record s { requests = rest })
]

-- A datagram is heard by the node that it is addressed to.
abbrev pub arrive :
    SocketAddr
    → SocketAddr
    → Option (SocketAddr × ArtilleryMessage)
    → ArtilleryEpidemic
    → ArtilleryEpidemic
arrive from here none s = s
arrive from here (some (target, m)) s = if target == here then respond_to from m s else s

-- A panic of any node is `none`; `address` is where each node listens.
unfoldable pub happen : (Uuid → SocketAddr) → Event → Cluster → Option Cluster
unfolding work tick obey
happen address (ticks i env) nodes = do s ← tick env (nodes i); some (update i s nodes)
happen address (works i env) nodes = do s ← work env (nodes i); some (update i s nodes)
happen address (delivers i n j) nodes =
    some (update j (arrive (address i) (address j) (get_elem? (nodes i).sent n) (nodes j)) nodes)
happen address (commands i c) nodes = some (update i (obey c (nodes i)) nodes)

unfoldable pub run : (Uuid → SocketAddr) → List Event → Cluster → Option Cluster
unfolding happen
run address [] nodes = some nodes
run address (event ∷ events) nodes = do
  nodes' ← happen address event nodes
  run address events nodes'
