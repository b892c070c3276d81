-- ===== src/Lib.antt =====
-- Artillery: a library for clusters. `artillery-core` keeps an epidemic membership list, in which
-- every node tells the others what it knows; `artillery-ddata` replicates an object along a chain of
-- nodes with apportioned queries (CRAQ).
--
-- Where each part is modelled:
-- - Member: artillery-core/src/epidemic/member.rs. The record of a member, and
--   `most_uptodate_member_data`. Member/Priority orders the reports on a member.
-- - Membership: artillery-core/src/epidemic/membership.rs, all operations of `ArtilleryMemberList`
--   but one, which has Membership/Changes (`apply_state_changes`). `mut_myself`, which returns a
--   reference or panics, is `find_myself` to read and `update_myself` to write. The proofs are in
--   Membership/WellFormed, Rotation, Timeouts, Revival, Changes/NoPanic, Changes/Myself,
--   Changes/Stale and Changes/Farewell.
-- - Epidemic: artillery-core/src/epidemic/state.rs, with cluster_config.rs and constants.rs.
--   Epidemic/Messages has the free functions and `ack_response`, Epidemic/Handlers what a node sends
--   and how it prunes what it waits for, Epidemic/Inbound what it does with messages and with its
--   own requests. The methods `apply_state_changes` and `mark_node_alive` of `ArtilleryEpidemic` are
--   `apply_changes` and `mark_alive`. The proofs are in Epidemic/Sending, Queue, Acks,
--   Safety, Pruning and Hasty. Epidemic/Loop has the parts
--   of `event_loop`, and Loop/Event the whole, turn by turn: Event/Turns and Event/Work find what a
--   turn keeps and does, Event/Ends how the loop ends. Loop/Rounds is about its start and the socket; Loop/Load measures the work in
--   the node's own requests, Steps, Reports and Messages follow it through the handlers, Asks
--   and Kept find what the handlers leave as it is, and Drain and Through are about the loop over
--   those requests.
--   Epidemic/Network has the requests of artillery-core/src/epidemic/cluster.rs, and a cluster of
--   nodes as a sequence of events, about which Network/Nodes and Network/Safety are. Epidemic/Cluster has
--   the same file with the thread that it starts, and what it does once that has ended. Network/Seeds
--   has `discover_nodes` of artillery-core/src/cluster/ap.rs, and Epidemic/OwnRecord and
--   Epidemic/OwnSeed are about a node that hears itself. Epidemic/Unheard is about one whose user is gone.
-- - Craq/Chain: artillery-ddata/src/craq/chain.rs, chain_node.rs and errors.rs.
-- - Craq/Server: artillery-ddata/src/craq/server.rs. Writes and Reads have the handlers, Faults and
--   Failures proofs on one node.
-- - Craq/Replication: the servers of a chain, each calling the handlers of the next one. Node,
--   Commit, Head, Reads and Consistency prove what a write and the reads after it come to, Storage
--   how many objects a node keeps.
-- - Craq/Interleaving: `write` of server.rs once more, as the steps of several threads at one head.
--   Order and Versions are about any schedule, CleanVersion about one.
-- - Craq/Register: what a chain promises to its clients, a register with a version, and a chain that
--   serves them. Reading, Requests and Refinement compare the two. Craq/Replication/Broken and
--   Register/Partial are about a chain with a broken link.
-- - Craq/Startup: artillery-ddata/src/craq/node.rs and craq_config.rs, from a chain to its servers.
--   Startup/Waiting has `connect_to_first`, the nodes of a chain that wait for one another: Connecting
--   and Attempts are about one attempt, ComesUp about a chain on one machine, Remote about one on several.
--   Startup/Lock: artillery-ddata/src/craq/erwlock.rs.
--   Craq/Client: artillery-ddata/src/craq/client.rs.
-- - Discovery: artillery-core/src/service_discovery/udp_anycast/state.rs. Sending has the loops of
--   `writable`, Handlers the rest, and Discovery/Service the event loop and sd.rs beside it; the
--   proofs are in Replies, Requests, Steady and Service/Shutdown.
-- - Discovery/Mdns: artillery-core/src/service_discovery/mdns/sd.rs. Mdns/Packets and Mdns/Peers
--   are about the addresses that others report.
-- - Site: site/.vuepress/config.js, the configuration of the documentation's site.
-- - Base: lists over native numbers, signed 64-bit integers, and association lists for hash maps.
-- - Samples: a small cluster and a small chain, on which the theorems are applied.
--
-- How the parts interact: `ArtilleryEpidemic` owns the member list and calls its operations; the
-- handlers here take and return the whole state, and a panic of any part is `none`. Sends on its
-- channels and on the socket are appended to lists in that state. A CRAQ server is a state monad
-- with errors and panics that keep the state, since the server outlives them; its remote calls go
-- through `Remote`, a record of operations with a state of their own, which Craq/Replication fills
-- with the servers behind it.
--
-- What is chosen from outside is a parameter: the clock (`now`), the random orders of
-- `bastion_utils` and of hash maps (`Platform`, of which a proof assumes at most that they are
-- permutations), the length of an encoded message, whether the socket takes a datagram, whether the
-- user's `Cluster` still receives events, and chrono's addition of a duration to a date (`Env`).
--
-- Bounds: a `u64` incarnation wraps at 2 ^ 64, an `i64` version at 2 ^ 63. `hops n` lets a call
-- travel n nodes down a chain, and a chain of n nodes has n - 1 hops, so that n is enough. The loop
-- that sends a message by `send_to` has as many rounds as the message has bytes, since each send
-- that does not fail takes a byte. The loop over a node's own requests has a list of what each
-- round draws from outside; it is long enough if it is as long as the `load` of Epidemic/Loop/Load,
-- of which a round takes off more than it adds. All other loops are structural.
--
-- The event loops are functions of a list of turns, each with what it draws from outside: the clock,
-- the events of the poll, what other threads have sent by then and what arrives. A turn of the
-- epidemic loop has as many rounds for the node's own requests as its `load`.
--
-- Not modelled: opening sockets, the poll itself, and starting the threads of cluster.rs, ap.rs and
-- sd.rs; the library that speaks mDNS; the transport and the code that Thrift
-- generates; interleavings of handlers other than writes at one head; the bundles under docs, which
-- are built from the prose under site.
pub mod Base
pub mod Member
pub mod Membership
pub mod Craq
pub mod Epidemic
pub mod Discovery
pub mod Site
pub mod Samples
