-- ===== src/Epidemic/Cluster.antt =====
-- artillery-core/src/epidemic/cluster.rs: `Cluster`, the front of the thread that runs a node's event
-- loop. What is sent to the thread while it works off its requests waits for its next turn.
pub mod Ended
use Prim.Native.String.{String}
use artillery.Base.{ℕ, Bool, List, [], ◌∷◌, ◌++◌, Option, none, some, if◌then◌else◌}
use artillery.Member.{Uuid, SocketAddr}
use artillery.Epidemic.{
  ArtilleryMessage, ArtilleryClusterRequest, add_seed, leave_cluster, exit, send_payload,
  ArtilleryEpidemic,
}
use artillery.Epidemic.Loop.Event.{
  Turn, EventLoop, Turned, goes_on, finished, failed, crashed, overrun, turn_once,
}
use artillery.Epidemic.Loop.Event.Turns.{asks_exit}

-- The thread runs, with the requests that were sent to it since its last turn; or it has ended, by
-- `Ok(())` or by the panic that an error of the event loop becomes, and its receiver is gone.
pub data ClusterThread : Type 0 where
  runs : EventLoop → List ArtilleryClusterRequest → ClusterThread
  gone : ClusterThread

-- `comm.send(..)`, an error once the receiver is gone.
unfoldable pub comm_send : ArtilleryClusterRequest → ClusterThread → Option ClusterThread
comm_send request (runs l waiting) = some (runs l (waiting ++ request ∷ []))
comm_send request gone = none

-- `let _ = ..`: an error has no effect.
abbrev ignore : ClusterThread → Option ClusterThread → ClusterThread
ignore c none = c
ignore c (some c') = c'

unfoldable pub add_seed_node : SocketAddr → ClusterThread → ClusterThread
unfolding comm_send
add_seed_node addr c = ignore c (comm_send (add_seed addr) c)

-- `unwrap()`: none is a panic.
unfoldable pub send_payload_to : Uuid → String → ClusterThread → Option ClusterThread
unfolding comm_send
send_payload_to id msg c = comm_send (send_payload id msg) c

unfoldable pub leave_the_cluster : ClusterThread → ClusterThread
unfolding comm_send
leave_the_cluster c = ignore c (comm_send leave_cluster c)

abbrev pub thread_after : Turned → ClusterThread
thread_after (goes_on l) = runs l []
thread_after (finished s) = gone
thread_after (failed s) = gone
thread_after crashed = gone
thread_after overrun = gone

abbrev pub with_submitted : List ArtilleryClusterRequest → Turn → Turn
with_submitted waiting turn = record turn { submitted = waiting }

-- The thread makes a turn, with what was sent to it.
unfoldable pub turn_of_thread :
    (List ℕ → Option ArtilleryMessage) → (ℕ → Bool) → ℕ → Turn → ClusterThread → ClusterThread
unfolding turn_once
turn_of_thread decode hears timeout turn (runs l waiting) =
    thread_after (turn_once decode hears timeout (with_submitted waiting turn) l)
turn_of_thread decode hears timeout turn gone = gone

-- `rx.recv().unwrap()`. The `Exit` has been answered if it does not wait any more when the turn ends,
-- and a panic of the thread may come before the answer or after it.
pub data Dropped : Type 0 where
  returns : ClusterThread → Dropped
  panics : Dropped
  unsettled : Dropped

abbrev unless_waiting : ArtilleryEpidemic → Dropped
unless_waiting s = if asks_exit s.requests then panics else returns gone

abbrev pub answer_after : Turned → Dropped
answer_after (goes_on l) = returns (runs l [])
answer_after (finished s) = panics
answer_after (failed s) = unless_waiting s
answer_after crashed = unsettled
answer_after overrun = unsettled

abbrev pub await_exit :
    (List ℕ → Option ArtilleryMessage) → (ℕ → Bool) → ℕ → Turn → Option ClusterThread → Dropped
await_exit decode hears timeout turn none = panics
await_exit decode hears timeout turn (some gone) = panics
await_exit decode hears timeout turn (some (runs l waiting)) =
    answer_after (turn_once decode hears timeout (with_submitted waiting turn) l)

-- `drop`: the error of the send is ignored, with which the channel of the answer is dropped. The turn
-- is the next one of the thread.
unfoldable pub drop_cluster :
    (List ℕ → Option ArtilleryMessage) → (ℕ → Bool) → ℕ → Turn → ℕ → ClusterThread → Dropped
unfolding comm_send turn_once
drop_cluster decode hears timeout turn tx c =
    await_exit decode hears timeout turn (comm_send (exit tx) c)
