-- ===== src/Discovery/Mdns.antt =====
-- artillery-core/src/service_discovery/mdns/sd.rs and state.rs: the thread that answers queries by mDNS
-- and listens to the answers of others. The packets are those of the mDNS library; the addresses that peers
-- report are of IPv4 where a component is `ip4`. The receiver of the events lives as long as the thread.
pub mod Packets
pub mod Peers
use artillery.Base.{
  ℕ, ◌+◌, ◌*◌, ◌/◌, ◌%◌, ◌^◌, List, [], ◌∷◌, ◌++◌, Bool, ltb, Option, none, some, if◌then◌else◌,
}
use artillery.Member.{SocketAddr}

-- A component of a multi-address: an IPv4 number, a UDP port, or another protocol.
pub data Protocol : Type 0 where
  ip4 udp other_protocol : ℕ → Protocol

-- What the library hands over: a query with its identifier, the self-reported addresses of each peer
-- in an answer, or a query for services.
pub data MdnsPacket : Type 0 where
  query : ℕ → MdnsPacket
  response : List (List (List Protocol)) → MdnsPacket
  service_discovery : MdnsPacket

pub record MdnsServiceDiscoveryConfig : Type 0 where
  pub reply_ttl : ℕ
  pub local_service_addr : SocketAddr

-- `events` is what was sent on the channel to the user, `responses` the answers that were enqueued:
-- the identifier of the query, the addresses and the time to live.
pub record MdnsServiceDiscovery : Type 0 where
  pub events : List SocketAddr
  pub responses : List (ℕ × List (List Protocol) × ℕ)

-- The thread goes on, or has panicked.
pub data Listening : Type 0 where
  listens dead : MdnsServiceDiscovery → Listening

-- An address of IPv4 has 32 bits and a port.
abbrev pub is_ipv4 : SocketAddr → Bool
is_ipv4 a = ltb a (2 ^ 48)

-- The text "/ip4/../udp/..", parsed: an address of IPv6 between "/ip4/" and "/udp/" is no
-- multi-address, and the `unwrap` panics.
abbrev pub service_address : SocketAddr → Option (List Protocol)
service_address a = if is_ipv4 a then some (ip4 (a / 2 ^ 16) ∷ udp (a % 2 ^ 16) ∷ []) else none

abbrev answer_query :
    MdnsServiceDiscoveryConfig → ℕ → Option (List Protocol) → MdnsServiceDiscovery → Listening
answer_query config query_id none s = dead s
answer_query config query_id (some address) s =
    listens
      (record s { responses = s.responses ++ (query_id, address ∷ [], config.reply_ttl) ∷ [] })

-- The text "..:..", parsed.
abbrev pub discovered : ℕ → ℕ → SocketAddr
discovered discovered_ip discovered_port = discovered_ip * 2 ^ 16 + discovered_port

abbrev pub send_event : SocketAddr → MdnsServiceDiscovery → MdnsServiceDiscovery
send_event a s = record s { events = s.events ++ a ∷ [] }

-- One address of a peer: `components[0]` and `components[1]` panic when there is no such component.
unfoldable pub handle_address : List Protocol → MdnsServiceDiscovery → Listening
handle_address [] s = dead s
handle_address (ip4 ip ∷ []) s = dead s
handle_address (ip4 ip ∷ udp port ∷ _) s = listens (send_event (discovered ip port) s)
handle_address (ip4 ip ∷ ip4 _ ∷ _) s = listens s
handle_address (ip4 ip ∷ other_protocol _ ∷ _) s = listens s
handle_address (udp _ ∷ _) s = listens s
handle_address (other_protocol _ ∷ _) s = listens s

-- `?` on a thread that has panicked.
abbrev pub on_listening : Listening → (MdnsServiceDiscovery → Listening) → Listening
on_listening (listens s) f = f s
on_listening (dead s) f = dead s

unfoldable pub handle_addresses : List (List Protocol) → MdnsServiceDiscovery → Listening
unfolding handle_address
handle_addresses [] s = listens s
handle_addresses (addr ∷ addrs) s = on_listening (handle_address addr s) (handle_addresses addrs)

unfoldable pub handle_peers : List (List (List Protocol)) → MdnsServiceDiscovery → Listening
unfolding handle_addresses
handle_peers [] s = listens s
handle_peers (peer ∷ peers) s = on_listening (handle_addresses peer s) (handle_peers peers)

unfoldable pub handle_packet :
    MdnsServiceDiscoveryConfig → MdnsPacket → MdnsServiceDiscovery → Listening
unfolding handle_peers
handle_packet config (query query_id) s =
    answer_query config query_id (service_address config.local_service_addr) s
handle_packet config (response peers) s = handle_peers peers s
handle_packet config service_discovery s = listens s

-- The loop over the packets that arrive.
unfoldable pub handle_packets :
    MdnsServiceDiscoveryConfig → List MdnsPacket → MdnsServiceDiscovery → Listening
unfolding handle_packet
handle_packets config [] s = listens s
handle_packets config (packet ∷ packets) s =
    on_listening (handle_packet config packet s) (handle_packets config packets)
