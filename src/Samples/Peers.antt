-- ===== src/Samples/Peers.antt =====
-- The theorems on discovery by mDNS, on two services, and on the end of a service of udp_anycast.
use artillery.Base.{ℕ, ◌≡◌, refl, List, [], ◌∷◌, ◌++◌, ◌+◌, ◌*◌, ◌^◌, some, filter_map}
use artillery.Discovery.{register_observer}
use artillery.Discovery.Service.{
  Turn, EventLoop, Thread, alive, advance, returned, panicked, shutdown, drop_service,
}
use artillery.Discovery.Service.Shutdown.{shutdown-drop}
use artillery.Discovery.Mdns.{
  ip4, udp, other_protocol, MdnsPacket, query, response, service_discovery,
  MdnsServiceDiscoveryConfig, MdnsServiceDiscovery, dead, handle_packets,
}
use artillery.Discovery.Mdns.Peers.{handle_packets-dead, query-dead}
use artillery.Discovery.Mdns.Packets.{socket_of, reported}
use artillery.Samples.Seekers.{two_sends, two_sends-TakesSome, seeker_node}

abbrev here : MdnsServiceDiscoveryConfig
here = record { reply_ttl = 120; local_service_addr = 2130706433 * 65536 + 27845 }

abbrev fresh : MdnsServiceDiscovery
fresh = record { events = []; responses = [] }

abbrev chatter : List MdnsPacket
chatter =
    query 5
    ∷ response (((ip4 7 ∷ udp 8 ∷ []) ∷ (other_protocol 1 ∷ []) ∷ []) ∷ [])
    ∷ service_discovery
    ∷ []

handle_packets-dead_example :
    (t : MdnsServiceDiscovery) × (handle_packets here
        (chatter ++ response (((ip4 9 ∷ udp 9 ∷ []) ∷ (ip4 3 ∷ []) ∷ []) ∷ []) ∷ chatter)
        fresh
      ≡ dead t)
    × (t.events ≡ [] ++ filter_map socket_of (reported chatter ++ (ip4 9 ∷ udp 9 ∷ []) ∷ []))
handle_packets-dead_example =
    handle_packets-dead here chatter chatter (((ip4 9 ∷ udp 9 ∷ []) ∷ (ip4 3 ∷ []) ∷ []) ∷ [])
      ((ip4 9 ∷ udp 9 ∷ []) ∷ []) (ip4 3 ∷ []) [] fresh refl (refl, (refl, tt)) refl (refl, tt) refl

abbrev six : MdnsServiceDiscoveryConfig
six = record { reply_ttl = 120; local_service_addr = 2 ^ 125 }

abbrev greetings : List MdnsPacket
greetings = response (((ip4 7 ∷ udp 8 ∷ []) ∷ []) ∷ []) ∷ []

query-dead_example :
    handle_packets six (greetings ++ query 5 ∷ chatter) fresh
    ≡ dead (record fresh { events = [] ++ filter_map socket_of (reported greetings) })
query-dead_example = query-dead six greetings chatter 5 fresh refl refl (refl, tt)

abbrev quiet : ℕ → Turn
quiet now = record { now = now; restarted = now; polled = some []; io = two_sends }

abbrev resting : EventLoop
resting = record { state = seeker_node; start = 0; events = [] }

shutdown-drop_example :
    (t : Thread) × (shutdown 1000 7 (quiet 5 ∷ []) (alive resting (register_observer 3 ∷ []))
      ≡ returned t)
    × (drop_service 1000 8 (quiet 20 ∷ []) (advance 1000 (quiet 10) t) ≡ panicked)
shutdown-drop_example =
    shutdown-drop 1000 7 8 (quiet 5) (quiet 10) [] (quiet 20 ∷ []) (register_observer 3 ∷ [])
      resting (([], refl), two_sends-TakesSome) refl
