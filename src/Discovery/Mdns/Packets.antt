-- ===== src/Discovery/Mdns/Packets.antt =====
-- artillery-core/src/service_discovery/mdns/sd.rs: what the thread makes of packets whose addresses all
-- have the components that it looks for.
use mathlib.Core.List.{append-nil, append_assoc}
use artillery.Base.{
  ℕ, ◌≡◌, refl, sym, ap, ◌∙◌, Bool, true, false, List, [], ◌∷◌, ◌++◌, All, Option, none, some,
  filter_map, Option-cases, Bool-cases, inl, inr, any, not, ◌&&◌, ◌/◌, ◌%◌, ◌^◌,
}
use artillery.Member.{SocketAddr}
use artillery.Discovery.Mdns.{
  Protocol, ip4, udp, other_protocol, MdnsPacket, query, response, service_discovery,
  MdnsServiceDiscoveryConfig, MdnsServiceDiscovery, Listening, listens, dead, is_ipv4, discovered,
  handle_address, on_listening, handle_addresses, handle_peers, handle_packet, handle_packets,
}

-- An address that is neither empty nor an IPv4 address alone.
abbrev pub is_complete : List Protocol → Bool
is_complete [] = false
is_complete (ip4 _ ∷ []) = false
is_complete (ip4 _ ∷ _ ∷ _) = true
is_complete (udp _ ∷ _) = true
is_complete (other_protocol _ ∷ _) = true

-- The socket address of IPv4 and UDP that a multi-address begins with.
abbrev pub socket_of : List Protocol → Option SocketAddr
socket_of (ip4 ip ∷ udp p ∷ _) = some (discovered ip p)
socket_of _ = none

abbrev pub joined : List (List (List Protocol)) → List (List Protocol)
joined [] = []
joined (addrs ∷ peers) = addrs ++ joined peers

-- All addresses that the packets report, in order.
abbrev pub reported : List MdnsPacket → List (List Protocol)
reported [] = []
reported (query _ ∷ packets) = reported packets
reported (response peers ∷ packets) = joined peers ++ reported packets
reported (service_discovery ∷ packets) = reported packets

All-split {ℓ κ} :
    {A : Type ℓ} (P : A → Type κ) (xs ys : List A) → All P (xs ++ ys) → All P xs × All P ys
All-split P [] ys all = (tt, all)
All-split P (x ∷ xs) ys (p, all) = let (front, back) = All-split P xs ys all in ((p, front), back)

pub on_listening_assoc :
    (l : Listening) (f g : MdnsServiceDiscovery → Listening)
    → on_listening (on_listening l f) g ≡ on_listening l (λ s. on_listening (f s) g)
on_listening_assoc (listens s) f g = refl
on_listening_assoc (dead s) f g = refl

pub on_listening_ext :
    (l : Listening) (f g : MdnsServiceDiscovery → Listening)
    → ((s : MdnsServiceDiscovery) → f s ≡ g s)
    → on_listening l f ≡ on_listening l g
on_listening_ext (listens s) f g same = same s
on_listening_ext (dead s) f g same = refl

pub handle_addresses-append :
    (addrs more : List (List Protocol)) (s : MdnsServiceDiscovery)
    → handle_addresses (addrs ++ more) s
      ≡ on_listening (handle_addresses addrs s) (handle_addresses more)
unfolding handle_addresses
handle_addresses-append [] more s = refl
handle_addresses-append (addr ∷ addrs) more s =
    on_listening_ext (handle_address addr s) _ _ (λ t. handle_addresses-append addrs more t)
    ∙ sym (
        on_listening_assoc (handle_address addr s) (handle_addresses addrs) (handle_addresses more))

pub handle_peers-joined :
    (peers : List (List (List Protocol))) (s : MdnsServiceDiscovery)
    → handle_peers peers s ≡ handle_addresses (joined peers) s
unfolding handle_peers handle_addresses
handle_peers-joined [] s = refl
handle_peers-joined (peer ∷ peers) s =
    on_listening_ext (handle_addresses peer s) _ _ (λ t. handle_peers-joined peers t)
    ∙ sym (handle_addresses-append peer (joined peers) s)

abbrev pub heard : List (List Protocol) → MdnsServiceDiscovery → MdnsServiceDiscovery
heard addrs s = record s { events = s.events ++ filter_map socket_of addrs }

filter_map-append {ℓ κ} :
    {A : Type ℓ} {B : Type κ} (f : A → Option B) (xs ys : List A)
    → filter_map f (xs ++ ys) ≡ filter_map f xs ++ filter_map f ys
filter_map-append f [] ys = refl
filter_map-append f (x ∷ xs) ys = elim (Option-cases (f x)) [
  | inl miss ↦ rw (miss, filter_map) (filter_map-append f xs ys)
  | inr (y, hit) ↦ rw (hit, filter_map) (ap (λ zs. y ∷ zs) (filter_map-append f xs ys))
]

pub heard-then :
    (addrs more : List (List Protocol)) (s : MdnsServiceDiscovery)
    → heard more (heard addrs s) ≡ heard (addrs ++ more) s
heard-then addrs more s =
    ap (λ es. record s { events = es })
      (append_assoc s.events (filter_map socket_of addrs) (filter_map socket_of more)
        ∙ ap (λ es. s.events ++ es) (sym (filter_map-append socket_of addrs more)))

pub nothing : (s : MdnsServiceDiscovery) → listens s ≡ listens (heard [] s)
nothing s = ap (λ es. listens (record s { events = es })) (sym (append-nil s.events))

handle_address_complete :
    (addr : List Protocol) (s : MdnsServiceDiscovery)
    → is_complete addr ≡ true
    → handle_address addr s ≡ listens (heard (addr ∷ []) s)
unfolding handle_address
handle_address_complete [] s c = cc
handle_address_complete (ip4 ip ∷ []) s c = cc
handle_address_complete (ip4 ip ∷ udp p ∷ rest) s c = refl
handle_address_complete (ip4 ip ∷ ip4 _ ∷ rest) s c = nothing s
handle_address_complete (ip4 ip ∷ other_protocol _ ∷ rest) s c = nothing s
handle_address_complete (udp _ ∷ rest) s c = nothing s
handle_address_complete (other_protocol _ ∷ rest) s c = nothing s

pub handle_addresses_complete :
    (addrs : List (List Protocol)) (s : MdnsServiceDiscovery)
    → All (λ addr. is_complete addr ≡ true) addrs
    → handle_addresses addrs s ≡ listens (heard addrs s)
unfolding handle_addresses
handle_addresses_complete [] s all = nothing s
handle_addresses_complete (addr ∷ addrs) s (c, all) =
    ap (λ l. on_listening l (handle_addresses addrs)) (handle_address_complete addr s c)
    ∙ handle_addresses_complete addrs (heard (addr ∷ []) s) all
    ∙ ap listens (heard-then (addr ∷ []) addrs s)

abbrev pub is_query : MdnsPacket → Bool
is_query (query _) = true
is_query (response _) = false
is_query service_discovery = false

-- What a service of IPv4 announces.
abbrev pub announced : SocketAddr → List Protocol
announced a = ip4 (a / 2 ^ 16) ∷ udp (a % 2 ^ 16) ∷ []

-- The answers that the packets ask for.
abbrev pub answers_to :
    MdnsServiceDiscoveryConfig → List MdnsPacket → List (ℕ × List (List Protocol) × ℕ)
answers_to config [] = []
answers_to config (query id ∷ packets) =
    (id, announced config.local_service_addr ∷ [], config.reply_ttl) ∷ answers_to config packets
answers_to config (response peers ∷ packets) = answers_to config packets
answers_to config (service_discovery ∷ packets) = answers_to config packets

pub answers_to-nobody :
    (config : MdnsServiceDiscoveryConfig) (packets : List MdnsPacket)
    → any is_query packets ≡ false
    → answers_to config packets ≡ []
answers_to-nobody config [] h = refl
answers_to-nobody config (query id ∷ packets) h = cc
answers_to-nobody config (response peers ∷ packets) h = answers_to-nobody config packets h
answers_to-nobody config (service_discovery ∷ packets) h = answers_to-nobody config packets h

-- The service's own address is of IPv4, or nobody asks for it.
abbrev pub CanAnswer : MdnsServiceDiscoveryConfig → List MdnsPacket → Type 0
CanAnswer config packets = (any is_query packets && not (is_ipv4 config.local_service_addr)) ≡ false

not-false : (b : Bool) → not b ≡ false → b ≡ true
not-false true h = refl
not-false false h = cc

CanAnswer-rest :
    (config : MdnsServiceDiscoveryConfig) (packets : List MdnsPacket)
    → is_ipv4 config.local_service_addr ≡ true
    → CanAnswer config packets
CanAnswer-rest config packets h = rw h (elim (Bool-cases (any is_query packets)) [
  | inl some_query ↦ rw some_query refl
  | inr no_query ↦ rw no_query refl
])

-- As long as the service's address is of IPv4 or nobody asks for it, every address that peers report has a
-- second component or does not begin with an IPv4 number, and none is empty, the thread goes on: it answers every query, in order, with the service's own
-- address, and sends on an event for each reported address of IPv4 and UDP, in order, and for no other.
pub handle_packets_lem :
    (config : MdnsServiceDiscoveryConfig) (packets : List MdnsPacket) (s : MdnsServiceDiscovery)
    → CanAnswer config packets
    → All (λ addr. is_complete addr ≡ true) (reported packets)
    → handle_packets config packets s
      ≡ listens (record s {
        events = s.events ++ filter_map socket_of (reported packets);
        responses = s.responses ++ answers_to config packets;
      })
unfolding handle_packets handle_packet
handle_packets_lem config [] s can all = rw (append-nil s.events, append-nil s.responses) refl
handle_packets_lem config (query id ∷ packets) s can all =
    let four : is_ipv4 config.local_service_addr ≡ true = not-false _ can in
    let answer = (id, announced config.local_service_addr ∷ [], config.reply_ttl) ∷ [] in
    let events = s.events ++ filter_map socket_of (reported packets) in
    rw four (
      handle_packets_lem config packets (record s { responses = s.responses ++ answer })
        (CanAnswer-rest config packets four) all)
    ∙ ap (λ rs. listens (record s { events = events; responses = rs }))
        (append_assoc s.responses answer (answers_to config packets))
handle_packets_lem config (response peers ∷ packets) s can all =
    let (front, back) =
      All-split (λ addr. is_complete addr ≡ true) (joined peers) (reported packets) all in
    let rest = handle_packets config packets in
    ap (λ l. on_listening l rest)
      (handle_peers-joined peers s ∙ handle_addresses_complete (joined peers) s front)
    ∙ handle_packets_lem config packets (heard (joined peers) s) can back
    ∙ ap (λ t. listens (record t { responses = s.responses ++ answers_to config packets }))
        (heard-then (joined peers) (reported packets) s)
handle_packets_lem config (service_discovery ∷ packets) s can all =
    handle_packets_lem config packets s can all
