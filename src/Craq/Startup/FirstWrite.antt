-- ===== src/Craq/Startup/FirstWrite.antt =====
-- artillery-ddata/src/craq/node.rs: the nodes of a chain are started, and the first write.
use Prim.Native.Nat.{min}
use artillery.Base.{
  All, ℕ, zero, suc, ◌+◌, ◌≤◌, ◌<◌, ◌≡◌, refl, inl, inr, true, false, List, [], ◌∷◌, Option, some,
  arith, length, get_elem?, ◌==◌, Bool-cases, ◌>>=◌,
}
use artillery.Base.Int.{pos}
use artillery.Craq.Chain.{
  ChainNode, CraqChain, is_tail, usize_max, get_successor, get_tail, get_node, last,
}
use artillery.Craq.Server.{
  CraqObject, CraqProtoServer, CrMode, tail_channel, successor_channel, no_version, done,
}
use artillery.Craq.Server.Writes.{handle_write}
use artillery.Craq.Startup.{
  CraqNode, CraqConfig, new_node, connect_tail, before_tail, connect, server_of, port_of, start,
}
use artillery.Craq.Replication.{Downstream, hops}
use artillery.Craq.Replication.Node.{IsPool, InSync}
use artillery.Craq.Replication.Commit.{InSyncFrom}
use artillery.Craq.Replication.Head.{Committed, handle_write-Committed}

last_total : (n : ChainNode) (ns : List ChainNode) → (t : ChainNode) × (last (n ∷ ns) ≡ some t)
last_total n [] = (n, refl)
last_total n (m ∷ ns) = last_total m ns

get_elem?_total {ℓ} :
    {A : Type ℓ} (xs : List A) (i : ℕ) → i < length xs → (x : A) × (get_elem? xs i ≡ some x)
get_elem?_total [] i h = absurd (omega (arith, h))
get_elem?_total (x ∷ xs) zero h = (x, refl)
get_elem?_total (x ∷ xs) (suc i) h = get_elem?_total xs i (omega (arith, h))

last_of : (ns : List ChainNode) → 0 < length ns → (t : ChainNode) × (last ns ≡ some t)
last_of [] h = absurd (omega (arith, h))
last_of (n ∷ ns) h = last_total n ns

pub get_tail_total : (c : CraqChain) → 0 < length c.nodes → (t : ChainNode) × (get_tail c ≡ some t)
unfolding get_tail
get_tail_total c h = last_of c.nodes h

pub get_successor_total :
    (c : CraqChain)
    → suc c.node_idx < length c.nodes
    → length c.nodes ≤ usize_max
    → (t : ChainNode) × (get_successor c ≡ some t)
unfolding get_successor
get_successor_total c more small =
    let inner : is_tail c ≡ false = ground (arith, more) in
    let at : min (c.node_idx + 1) usize_max ≡ suc c.node_idx = omega (arith, more, small) in
    let (t, found) = get_elem?_total c.nodes (suc c.node_idx) more in (t, rw inner (rw at found))

-- A node that is started is in step with no version at all, and stores nothing.
abbrev pub Starts : CrMode → CraqChain → CraqConfig → Type 0
Starts mode c config =
    (port : ℕ) × (s : CraqProtoServer) × (start mode c config ≡ some (port, s))
    × InSync mode (length c.nodes) c.node_idx no_version s
    × (s.objects ≡ [])

-- A server that has just been made of a node is in step where it needs no connections that it lacks.
fresh-InSync :
    (n : CraqNode)
    → (suc n.chain.node_idx < length n.chain.nodes
        → IsPool (server_of n) n.successor_pool_rx n.successor_pool_tx)
    → (suc n.chain.node_idx < length n.chain.nodes
        → IsPool (server_of n) n.tail_pool_rx n.tail_pool_tx)
    → InSync n.cr_mode (length n.chain.nodes) n.chain.node_idx no_version (server_of n)
fresh-InSync n successors tails = record {
  index = refl;
  size = refl;
  in_mode = refl;
  latest = refl;
  clean = refl;
  successors = successors;
  tails = tails;
}

start_tail :
    (mode : CrMode) (c : CraqChain) (config : CraqConfig)
    → suc c.node_idx ≡ length c.nodes
    → Starts mode c config
unfolding start connect
start_tail mode c config end =
    let tail : is_tail c ≡ true = ground (arith, end) in
    (
      port_of (get_node c) config,
      server_of (new_node mode c config),
      rw tail refl,
      fresh-InSync (new_node mode c config) (λ h. absurd (omega (arith, h, end)))
          (λ h. absurd (omega (arith, h, end))),
      refl,
    )

start_inner :
    (mode : CrMode) (c : CraqChain) (config : CraqConfig)
    → suc c.node_idx < length c.nodes
    → length c.nodes ≤ usize_max
    → Starts mode c config
unfolding start connect
start_inner mode c config more small =
    let inner : is_tail c ≡ false = ground (arith, more) in
    let (t, tail) = get_tail_total c (omega (arith, more)) in
    let (u, successor) = get_successor_total c more small in
    let shared : CraqNode = record (connect_tail (new_node mode c config)) {
      successor_pool_rx = some tail_channel;
      successor_pool_tx = some tail_channel;
    } in
    let separate : CraqNode = record (connect_tail (new_node mode c config)) {
      successor_pool_rx = some successor_channel;
      successor_pool_tx = some successor_channel;
      successor_idle = 1;
    } in
    elim (Bool-cases (before_tail c)) [
      | inl before ↦ (
        port_of (get_node c) config,
        server_of shared,
        rw inner (rw tail (rw before refl)),
        fresh-InSync shared (λ h. (tail_channel, refl, refl, omega arith))
            (λ h. (tail_channel, refl, refl, omega arith)),
        refl,
      )
      | inr further ↦ (
        port_of (get_node c) config,
        server_of separate,
        rw inner (rw tail (rw further (rw successor refl))),
        fresh-InSync separate (λ h. (successor_channel, refl, refl, omega arith))
            (λ h. (tail_channel, refl, refl, omega arith)),
        refl,
      )
    ]

-- A node whose index is in the chain starts, and is then in step with the others, at the version -1
-- that stands for no version, and stores nothing.
pub start-InSync :
    (mode : CrMode) (c : CraqChain) (config : CraqConfig)
    → c.node_idx < length c.nodes
    → length c.nodes ≤ usize_max
    → Starts mode c config
start-InSync mode c config within small = elim (Bool-cases (suc c.node_idx == length c.nodes)) [
  | inl end ↦ start_tail mode c config (ground arith)
  | inr more ↦ start_inner mode c config (ground (arith, within)) small
]

-- The nodes from the `i`-th on, `count` of them, each started as a process of its own.
pub launch : CrMode → List ChainNode → CraqConfig → ℕ → ℕ → Option (List CraqProtoServer)
launch mode nodes config i zero = some []
launch mode nodes config i (suc count) = do
  (port, s) ← start mode (record { nodes = nodes; node_idx = i }) config
  ss ← launch mode nodes config (suc i) count
  some (s ∷ ss)

pub launch-InSyncFrom :
    (mode : CrMode) (nodes : List ChainNode) (config : CraqConfig) (i count : ℕ)
    → i + count ≡ length nodes
    → length nodes ≤ usize_max
    → (ss : List CraqProtoServer) × (launch mode nodes config i count ≡ some ss)
      × InSyncFrom mode (length nodes) i no_version ss
      × All (λ s. s.objects ≡ []) ss
unfolding launch
launch-InSyncFrom mode nodes config i zero e small = ([], refl, omega (arith, e), tt)
launch-InSyncFrom mode nodes config i (suc count) e small =
    let c : CraqChain = record { nodes = nodes; node_idx = i } in
    let (ss, launched, rest, none_stored) =
      launch-InSyncFrom mode nodes config (suc i) count (omega (arith, e)) small in
    let (port, s, started, here, nothing) = start-InSync mode c config (omega (arith, e)) small in
    (s ∷ ss, rw started (rw launched refl), (here, rest), (nothing, none_stored))

-- Once all nodes of a chain of at least two have been started, the first write at the head succeeds
-- as version 0 and reaches every node.
pub first_write :
    (mode : CrMode) (nodes : List ChainNode) (config : CraqConfig) (obj : CraqObject)
    → 1 < length nodes
    → length nodes ≤ usize_max
    → (head : CraqProtoServer) × (rest : Downstream) × (launch mode nodes config 0 (length nodes)
        ≡ some (head ∷ rest))
      × (head' : CraqProtoServer) × (rest' : Downstream) × (handle_write
            (hops (length nodes))
            obj
            head
            rest
          ≡ done head' rest' (pos 0))
      × Committed mode (length nodes) (pos 0) obj head' rest'
first_write mode nodes config obj more small =
    let (ss, launched, y, _) =
      launch-InSyncFrom mode nodes config 0 (length nodes) (omega arith) small in
    write_to ss launched y
  where
    write_to :
        (ss : List CraqProtoServer)
        → launch mode nodes config 0 (length nodes) ≡ some ss
        → InSyncFrom mode (length nodes) 0 no_version ss
        → (head : CraqProtoServer) × (rest : Downstream) × (launch mode nodes config 0
              (length nodes)
            ≡ some (head ∷ rest))
          × (head' : CraqProtoServer) × (rest' : Downstream) × (handle_write
                (hops (length nodes))
                obj
                head
                rest
              ≡ done head' rest' (pos 0))
          × Committed mode (length nodes) (pos 0) obj head' rest'
    write_to [] launched y = absurd (omega (arith, y, more))
    write_to (head ∷ rest) launched y =
        let (head', rest', e, c) =
          handle_write-Committed mode (length nodes) (length nodes) no_version obj head rest
            (omega arith) (omega arith) (more, y) in
        (head, rest, launched, head', rest', e, c)
