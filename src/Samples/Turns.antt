-- ===== src/Samples/Turns.antt =====
-- The event loop of a node of the cluster of three: a turn with a datagram, one in which another thread
-- asks the node to stop, and one that is late.
use Prim.Native.String.{String}
use artillery.Base.{none, ℕ, ◌≡◌, refl, true, false, List, [], ◌∷◌, Option, some, arith}
use artillery.Epidemic.{ArtilleryMessage, ArtilleryClusterRequest, react, default_config}
use artillery.Epidemic.Loop.Event.{Turn, enter, timeout_of, udp_server}
use artillery.Epidemic.Loop.Event.Work.{IsSound}
use artillery.Epidemic.Cluster.{
  ClusterThread, runs, add_seed_node, send_payload_to, leave_the_cluster, turn_of_thread, panics,
  drop_cluster,
}
use artillery.Epidemic.Cluster.Ended.{stray_ends}
use artillery.Member.{Uuid, SocketAddr}
use artillery.Samples.Clusters.{cluster-IsWellFormed, in_order-IsPlatform}
use artillery.Samples.Nodes.{env_of, env_of-IsSupportive, node, greeting, hello}
use artillery.Samples.Drains.{short}

abbrev turn_of : ℕ → List ArtilleryClusterRequest → Turn
turn_of now rs = record {
  now = now;
  ticked = now;
  tick_env = env_of 300;
  polled = some (udp_server ∷ []);
  submitted = rs;
  drain_env = λ n. env_of 300;
  socket = λ i. record { datagrams = (b'h' ∷ [], 20) ∷ []; broken = false };
}

abbrev reads : List ℕ → Option ArtilleryMessage
reads bytes = some hello

node-IsSound : IsSound 1 default_config false node
node-IsSound = (cluster-IsWellFormed, (refl, tt, λ a. absurd (cc)))

-- A datagram without bytes is no message.
abbrev reads_some : List ℕ → Option ArtilleryMessage
reads_some [] = none
reads_some (b ∷ bytes) = some hello

abbrev stray_turn : Turn
stray_turn = record (turn_of 5 []) {
  socket = λ i. record { datagrams = (b'h' ∷ [], 20) ∷ ([], 30) ∷ []; broken = false };
}

stray_ends_example :
    (c : ClusterThread) × (turn_of_thread reads_some
        (λ tx. true)
        (timeout_of default_config)
        stray_turn
        (runs (enter 0 node) (react greeting ∷ []))
      ≡ c)
    × ((addr : SocketAddr) → add_seed_node addr c ≡ c)
    × (leave_the_cluster c ≡ c)
    × ((id : Uuid) (msg : String) → send_payload_to id msg c ≡ none)
    × ((next : Turn) (tx : ℕ)
        → drop_cluster reads_some (λ tx. true) (timeout_of default_config) next tx c ≡ panics)
stray_ends_example =
    stray_ends reads_some 1 default_config (λ tx. true) (timeout_of default_config) stray_turn
      (enter 0 node) (react greeting ∷ [])
      (
        in_order-IsPlatform,
        (λ n. (env_of-IsSupportive 300, short, λ a m. refl)),
        omega arith,
        ([], refl),
        ((b'h' ∷ [], 20) ∷ [], [], [], 30, refl, refl),
      )
      (tt, tt) (λ tx. refl) node-IsSound refl
