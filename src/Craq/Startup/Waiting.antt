-- ===== src/Craq/Startup/Waiting.antt =====
-- artillery-ddata/src/craq/node.rs, `connect_to_first`: the nodes of a chain are started in any order,
-- and each waits for those that it needs.
pub mod Connecting
pub mod Attempts
pub mod ComesUp
pub mod Remote
use artillery.Base.{
  ℕ, zero, suc, ◌+◌, ◌*◌, ◌%◌, ◌^◌, Bool, true, false, List, [], ◌∷◌, Option, none, some,
  if◌then◌else◌, ◌==◌, ◌&&◌, ◌||◌,
}
use artillery.Member.{SocketAddr}
use artillery.Craq.Chain.{ChainNode, CraqChain, is_tail, get_tail, get_successor}
use artillery.Craq.Startup.{before_tail}

-- How far the `start` of a node has come: it tries to connect to the tail, or to its successor, or its
-- server listens, or its connecting thread has panicked.
pub data Phase : Type 0 where
  to_tail to_successor serving stuck : Phase

abbrev pub is_serving : Phase → Bool
is_serving serving = true
is_serving _ = false

abbrev pub next_phase : CraqChain → Phase
next_phase c = if before_tail c then serving else to_successor

abbrev pub try_tail : (SocketAddr → Bool) → CraqChain → Option ChainNode → Phase
try_tail up c none = stuck
try_tail up c (some tail) = if up tail.host then next_phase c else to_tail

abbrev pub try_successor : (SocketAddr → Bool) → Option ChainNode → Phase
try_successor up none = stuck
try_successor up (some successor) = if up successor.host then serving else to_successor

-- One call of `connect_to_first`: when the server does not answer, the node sleeps, and calls again.
-- `up` says which servers answer.
unfoldable pub attempt : (SocketAddr → Bool) → CraqChain → Phase → Phase
unfolding get_tail get_successor
attempt up c to_tail = if is_tail c then serving else try_tail up c (get_tail c)
attempt up c to_successor = try_successor up (get_successor c)
attempt up c serving = serving
attempt up c stuck = stuck

-- `run_protocol_server` listens on the loopback address, 127.0.0.1, at the port of the node.
abbrev pub server_addr : ChainNode → SocketAddr
server_addr n = 2130706433 * 2 ^ 16 + n.host % 2 ^ 16

-- On one machine, a server answers at an address if a node that listens there serves; `i` is the index
-- of the first of the nodes.
abbrev pub answers : List ChainNode → ℕ → (ℕ → Phase) → SocketAddr → Bool
answers [] i phases a = false
answers (n ∷ nodes) i phases a =
    (server_addr n == a && is_serving (phases i)) || answers nodes (suc i) phases a

abbrev pub set_phase : ℕ → Phase → (ℕ → Phase) → ℕ → Phase
set_phase i p phases j = if j == i then p else phases j

-- The node `i` makes an attempt.
unfoldable pub wake : List ChainNode → ℕ → (ℕ → Phase) → ℕ → Phase
unfolding attempt
wake nodes i phases =
    set_phase i
      (attempt (answers nodes 0 phases) (record { nodes = nodes; node_idx = i }) (phases i)) phases

-- The nodes make attempts in the order given.
unfoldable pub wake_all : List ChainNode → List ℕ → (ℕ → Phase) → ℕ → Phase
unfolding wake
wake_all nodes [] phases = phases
wake_all nodes (i ∷ order) phases = wake_all nodes order (wake nodes i phases)

unfoldable pub rounds : List ChainNode → List (List ℕ) → (ℕ → Phase) → ℕ → Phase
unfolding wake_all
rounds nodes [] phases = phases
rounds nodes (order ∷ orders) phases = rounds nodes orders (wake_all nodes order phases)

abbrev pub all_started : ℕ → Phase
all_started i = to_tail
