-- ===== src/Craq/Chain.antt =====
-- artillery-ddata/src/craq/chain.rs and chain_node.rs: the chain of nodes, as one of them sees it,
-- and the errors of errors.rs.
use Prim.Native.Nat.{min}
use Prim.Native.String.{String}
use artillery.Base.{
  ℕ, ◌+◌, ◌-◌, ◌^◌, Bool, List, [], ◌∷◌, Option, none, some, length, get_elem?, ltb, ◌==◌,
  if◌then◌else◌,
}
use artillery.Member.{SocketAddr}

-- An error that a protocol server reports, `InvalidState`, or one of the transport.
pub data ThriftError : Type 0 where
  invalid_state : String → ThriftError
  transport : String → ThriftError

pub data CraqError : Type 0 where
  io_error : String → CraqError
  socket_addr_error : String → CraqError
  assertion_error : String → CraqError
  protocol_error : ThriftError → CraqError
  read_error : String → CraqError

pub data Result {ℓ} (A : Type ℓ) : Type ℓ where
  ok : A → Result A
  err : CraqError → Result A

pub record ChainNode : Type 0 where
  pub host : SocketAddr

-- The addresses that `to_socket_addrs` resolves, or its error.
unfoldable pub new_chain_node : Result (List SocketAddr) → Result ChainNode
new_chain_node (err e) = err e
new_chain_node (ok []) = err (socket_addr_error "No node address given or parsed.")
new_chain_node (ok (a ∷ _)) = ok (record { host = a })

pub record CraqChain : Type 0 where
  pub nodes : List ChainNode
  pub node_idx : ℕ

unfoldable pub new_chain : List ChainNode → ℕ → Result CraqChain
new_chain nodes node_idx =
    if ltb node_idx (length nodes)
    then ok (record { nodes = nodes; node_idx = node_idx })
    else err (assertion_error "Node index can't be greater than chain length.")

abbrev pub is_head : CraqChain → Bool
is_head c = c.node_idx == 0

abbrev pub is_tail : CraqChain → Bool
is_tail c = c.node_idx == length c.nodes - 1

abbrev pub usize_max : ℕ
usize_max = 2 ^ 64 - 1

unfoldable pub get_successor : CraqChain → Option ChainNode
get_successor c = if is_tail c then none else get_elem? c.nodes (min (c.node_idx + 1) usize_max)

abbrev pub last : List ChainNode → Option ChainNode
last [] = none
last (n ∷ []) = some n
last (n ∷ m ∷ ns) = last (m ∷ ns)

unfoldable pub get_tail : CraqChain → Option ChainNode
get_tail c = last c.nodes

unfoldable pub get_node : CraqChain → Option ChainNode
get_node c = get_elem? c.nodes c.node_idx

abbrev pub get_index : CraqChain → ℕ
get_index c = c.node_idx

abbrev pub chain_size : CraqChain → ℕ
chain_size c = length c.nodes
