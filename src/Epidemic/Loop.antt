-- ===== src/Epidemic/Loop.antt =====
-- artillery-core/src/epidemic/state.rs, `event_loop`: what a node does when its ping interval is
-- over, how it works off its own requests, and how it takes datagrams off the socket.
pub mod Rounds
pub mod Load
pub mod Steps
pub mod Reports
pub mod Messages
pub mod Asks
pub mod Kept
pub mod Through
pub mod Drain
pub mod Event
use artillery.Base.{
  ℕ, Bool, true, false, List, [], ◌∷◌, ◌++◌, Option, none, some, ◌>>=◌, if◌then◌else◌,
}
use artillery.Member.{SocketAddr}
use artillery.Epidemic.{
  ArtilleryMessage, ArtilleryClusterRequest, respond, exit, ArtilleryEpidemic, Env,
}
use artillery.Epidemic.Handlers.{Step, enqueue_seed_nodes, enqueue_random_ping}
use artillery.Epidemic.Inbound.{process_internal_request}

-- `elapsed >= timeout`: the seeds are greeted, and one member is pinged.
unfoldable pub tick : Env → Step
unfolding enqueue_seed_nodes enqueue_random_ping
tick env s = do s' ← enqueue_seed_nodes s; enqueue_random_ping env s'

-- Who sent an `Exit` is told, and the node is to stop; `hears` says whose receiver still lives, and a
-- send to a dead one panics.
abbrev pub answer_exit : (ℕ → Bool) → Option ℕ → Step
answer_exit hears none s = some s
answer_exit hears (some exit_tx) s =
    if hears exit_tx then some (record s { running = false }) else none

-- What is done with one request that has been taken off the channel.
unfoldable pub handle_one : Env → (ℕ → Bool) → ArtilleryClusterRequest → Step
unfolding process_internal_request
handle_one env hears msg s = do
  (exit_tx, s') ← process_internal_request env msg s
  answer_exit hears exit_tx s'

-- What the loop over the node's own requests comes to: the channel is empty, a panic, or, for the
-- model alone, the list of what the rounds draw from outside is at its end.
pub data Drained : Type 0 where
  emptied : ArtilleryEpidemic → Drained
  panicked : Drained
  unfinished : ArtilleryEpidemic → Drained

-- The loop `while let Ok(msg) = receiver.try_recv()`, each round of which has an `Env` of its own.
-- What the handlers send on the channel is taken off it by later rounds.
unfoldable pub drain : (ℕ → Bool) → List Env → ArtilleryEpidemic → Drained
unfolding handle_one
drain hears [] s = elim s.requests [ [] ↦ emptied s | _ ∷ _ ↦ unfinished s ]
drain hears (env ∷ envs) s = elim s.requests [
  | [] ↦ emptied s
  | msg ∷ rest ↦ elim (handle_one env hears msg (record s { requests = rest })) [
    | none ↦ panicked
    | some s' ↦ drain hears envs s'
  ]
]

-- What the loop over the socket ends with: there are no more datagrams, or the event loop returns
-- an error.
pub data Received : Type 0 where
  drained : ArtilleryEpidemic → Received
  stopped : ArtilleryEpidemic → Received

abbrev pub respond_to : SocketAddr → ArtilleryMessage → ArtilleryEpidemic → ArtilleryEpidemic
respond_to src_addr m s = record s { requests = s.requests ++ respond src_addr m ∷ [] }

-- The datagrams that wait, and whether the socket then fails rather than asks to wait; `decode` is
-- `serde_json::from_slice`.
unfoldable pub receive_all :
    (List ℕ → Option ArtilleryMessage)
    → List (List ℕ × SocketAddr)
    → Bool
    → ArtilleryEpidemic
    → Received
receive_all decode [] broken s = if broken then stopped s else drained s
receive_all decode ((bytes, src_addr) ∷ datagrams) broken s = elim (decode bytes) [
  | none ↦ stopped s
  | some m ↦ receive_all decode datagrams broken (respond_to src_addr m s)
]
