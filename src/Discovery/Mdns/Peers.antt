-- ===== src/Discovery/Mdns/Peers.antt =====
-- artillery-core/src/service_discovery/mdns/sd.rs: what the thread makes of the addresses that others report.
use mathlib.Core.List.{append-nil}
use artillery.Base.{
  ℕ, ◌≡◌, refl, sym, ap, ◌∙◌, true, false, List, [], ◌∷◌, ◌++◌, All, any, filter_map,
}
use artillery.Discovery.Mdns.{
  Protocol, ip4, udp, other_protocol, MdnsPacket, query, response, MdnsServiceDiscoveryConfig,
  MdnsServiceDiscovery, dead, is_ipv4, handle_address, on_listening, handle_addresses,
  handle_packet, handle_packets,
}
use artillery.Discovery.Mdns.Packets.{
  is_complete, socket_of, joined, reported, on_listening_assoc, on_listening_ext,
  handle_addresses-append, handle_peers-joined, heard, heard-then, handle_addresses_complete,
  answers_to, answers_to-nobody, handle_packets_lem, is_query, CanAnswer,
}

handle_addresses_incomplete :
    (good : List (List Protocol)) (bad : List Protocol) (rest : List (List Protocol))
    (s : MdnsServiceDiscovery)
    → All (λ addr. is_complete addr ≡ true) good
    → is_complete bad ≡ false
    → handle_addresses (good ++ bad ∷ rest) s ≡ dead (heard good s)
unfolding handle_addresses handle_address
handle_addresses_incomplete good bad rest s all short =
    handle_addresses-append good (bad ∷ rest) s
    ∙ ap (λ l. on_listening l (handle_addresses (bad ∷ rest)))
        (handle_addresses_complete good s all)
    ∙ ap (λ l. on_listening l (handle_addresses rest)) (dies bad (heard good s) short)
  where
    dies :
        (addr : List Protocol) (t : MdnsServiceDiscovery)
        → is_complete addr ≡ false
        → handle_address addr t ≡ dead t
    dies [] t e = refl
    dies (ip4 ip ∷ []) t e = refl
    dies (ip4 ip ∷ p ∷ rest) t e = cc
    dies (udp _ ∷ rest) t e = cc
    dies (other_protocol _ ∷ rest) t e = cc

handle_packets-append :
    (config : MdnsServiceDiscoveryConfig) (packets more : List MdnsPacket)
    (s : MdnsServiceDiscovery)
    → handle_packets config (packets ++ more) s
      ≡ on_listening (handle_packets config packets s) (handle_packets config more)
unfolding handle_packets
handle_packets-append config [] more s = refl
handle_packets-append config (packet ∷ packets) more s =
    on_listening_ext (handle_packet config packet s) _ _
      (λ t. handle_packets-append config packets more t)
    ∙ sym (
        on_listening_assoc (handle_packet config packet s) (handle_packets config packets)
          (handle_packets config more))

-- One address that is empty, or an IPv4 number and nothing else, stops the thread: whatever packets
-- came before and come after, it panics there, having reported the addresses before that one alone,
-- provided that none of those is such an address, and that the service's own address is of IPv4 or
-- nobody asked for it before.
pub handle_packets-dead :
    (config : MdnsServiceDiscoveryConfig) (before after : List MdnsPacket)
    (peers : List (List (List Protocol))) (good : List (List Protocol)) (bad : List Protocol)
    (rest : List (List Protocol)) (s : MdnsServiceDiscovery)
    → CanAnswer config before
    → All (λ addr. is_complete addr ≡ true) (reported before)
    → joined peers ≡ good ++ bad ∷ rest
    → All (λ addr. is_complete addr ≡ true) good
    → is_complete bad ≡ false
    → (t : MdnsServiceDiscovery) × (handle_packets config (before ++ response peers ∷ after) s
        ≡ dead t)
      × (t.events ≡ s.events ++ filter_map socket_of (reported before ++ good))
unfolding handle_packets handle_packet
handle_packets-dead config before after peers good bad rest s can all splits fine short =
    let u : MdnsServiceDiscovery = record s {
      events = s.events ++ filter_map socket_of (reported before);
      responses = s.responses ++ answers_to config before;
    } in
    (
      heard good u,
      handle_packets-append config before (response peers ∷ after) s
          ∙ ap (λ l. on_listening l (handle_packets config (response peers ∷ after)))
              (handle_packets_lem config before s can all)
          ∙ ap (λ l. on_listening l (handle_packets config after))
              (handle_peers-joined peers u
                ∙ ap (λ addrs. handle_addresses addrs u) splits
                ∙ handle_addresses_incomplete good bad rest u fine short),
      ap (λ t. t.events) (heard-then (reported before) good s),
    )

-- A service whose own address is of IPv6 stops its thread at the first query of anybody: whatever
-- packets without a query came before, none of which reports an address that is empty or an IPv4
-- number alone, and whatever comes after, the thread panics at the query, having reported the
-- addresses before it and answered nothing.
pub query-dead :
    (config : MdnsServiceDiscoveryConfig) (before after : List MdnsPacket) (query_id : ℕ)
    (s : MdnsServiceDiscovery)
    → is_ipv4 config.local_service_addr ≡ false
    → any is_query before ≡ false
    → All (λ addr. is_complete addr ≡ true) (reported before)
    → handle_packets config (before ++ query query_id ∷ after) s
      ≡ dead (record s { events = s.events ++ filter_map socket_of (reported before) })
unfolding handle_packets handle_packet
query-dead config before after query_id s six unasked all =
    let rest = handle_packets config (query query_id ∷ after) in
    let events = s.events ++ filter_map socket_of (reported before) in
    handle_packets-append config before (query query_id ∷ after) s
    ∙ ap (λ l. on_listening l rest) (handle_packets_lem config before s (rw unasked refl) all)
    ∙ rw six (
        ap (λ rs. dead (record s { events = events; responses = rs }))
          (ap (λ more. s.responses ++ more) (answers_to-nobody config before unasked)
            ∙ append-nil s.responses))
