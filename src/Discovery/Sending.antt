-- ===== src/Discovery/Sending.antt =====
-- artillery-core/src/service_discovery/udp_anycast/state.rs, `writable`: the loops that send.
use artillery.Base.{
  ℕ, zero, suc, List, [], ◌∷◌, ◌++◌, Option, none, some, length, take, drop, ltb, if◌then◌else◌,
}
use artillery.Member.{SocketAddr}
use artillery.Discovery.{
  MulticastServiceDiscoveryState, Io, Token, on_discovery, seek_nodes, other_token,
  writable_interest, response, Handled, failing, panicking, out_of_fuel, json_error, register,
}

-- How a loop over one message ends: all bytes are sent; the socket refuses; a socket that claims
-- more bytes than it was given makes the next slice panic; or the rounds allowed are used up.
pub data Progress : Type 0 where
  complete blocked overrun starved : Progress

abbrev pub tried : MulticastServiceDiscoveryState → MulticastServiceDiscoveryState
tried s = record s { attempts = suc s.attempts }

abbrev pub sent_to :
    SocketAddr → List ℕ → MulticastServiceDiscoveryState → MulticastServiceDiscoveryState
sent_to peer_addr bytes s = record s {
  attempts = suc s.attempts;
  sent = s.sent ++ (bytes, peer_addr) ∷ [];
}

-- What follows a send of `bytes`; `more` goes on with the bytes that are left.
abbrev pub after_send :
    Option ℕ
    → List ℕ
    → SocketAddr
    → MulticastServiceDiscoveryState
    → (List ℕ → MulticastServiceDiscoveryState → Progress × MulticastServiceDiscoveryState)
    → Progress × MulticastServiceDiscoveryState
after_send none bytes peer_addr s more = (blocked, tried s)
after_send (some n) bytes peer_addr s more =
    let next = sent_to peer_addr (take n bytes) s in
    if ltb (length bytes) n then (overrun, next) else more (drop n bytes) next

-- `while sent_bytes != len`, on the bytes still to be sent.
unfoldable pub send_all :
    Io
    → ℕ
    → List ℕ
    → SocketAddr
    → MulticastServiceDiscoveryState
    → Progress × MulticastServiceDiscoveryState
send_all io zero [] peer_addr s = (complete, s)
send_all io zero (b ∷ bytes) peer_addr s = (starved, s)
send_all io (suc fuel) [] peer_addr s = (complete, s)
send_all io (suc fuel) (b ∷ bytes) peer_addr s =
    after_send (io.send_to s.attempts (b ∷ bytes) peer_addr) (b ∷ bytes) peer_addr s
      (λ rest s'. send_all io fuel rest peer_addr s')

abbrev pub after_reply :
    Progress
    → MulticastServiceDiscoveryState
    → Progress × MulticastServiceDiscoveryState
    → Progress × MulticastServiceDiscoveryState
after_reply complete s rest = rest
after_reply blocked s rest = (blocked, s)
after_reply overrun s rest = (overrun, s)
after_reply starved s rest = (starved, s)

-- The loop over the seekers: each is taken off the queue before it is answered.
unfoldable pub reply_loop :
    Io
    → List ℕ
    → List SocketAddr
    → MulticastServiceDiscoveryState
    → Progress × MulticastServiceDiscoveryState
unfolding send_all
reply_loop io discovery_reply [] s = (complete, s)
reply_loop io discovery_reply (peer_addr ∷ seekers) s =
    let (progress, s') =
      send_all io (length discovery_reply) discovery_reply peer_addr
        (record s { seeker_replies = seekers }) in
    after_reply progress s' (reply_loop io discovery_reply seekers s')

-- After a loop: a socket that refuses is registered under the token again, and a message that has
-- gone out leaves the socket registered for discovery.
abbrev pub after_sending : Io → Token → Progress × MulticastServiceDiscoveryState → Handled
after_sending io token r = elim (r.0) [
  | complete ↦ register io on_discovery writable_interest (r.1)
  | blocked ↦ register io token writable_interest (r.1)
  | overrun ↦ panicking (r.1)
  | starved ↦ out_of_fuel (r.1)
]

unfoldable pub writable : Io → Token → MulticastServiceDiscoveryState → Handled
unfolding reply_loop send_all
writable io on_discovery s = elim (io.encode (response s.uid s.default_reply)) [
  | none ↦ failing json_error s
  | some discovery_reply ↦
      after_sending io on_discovery (reply_loop io discovery_reply s.seeker_replies s)
]
writable io seek_nodes s =
    after_sending io seek_nodes
      (send_all io (length s.seek_request) s.seek_request s.config.seeking_addr s)
writable io (other_token n) s = register io on_discovery writable_interest s
