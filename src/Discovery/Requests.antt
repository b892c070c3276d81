-- ===== src/Discovery/Requests.antt =====
-- artillery-core/src/service_discovery/udp_anycast/state.rs, `process_internal_request` and the loop
-- that calls it.
use mathlib.Core.List.{append-nil, append_assoc}
use artillery.Base.{
  ℕ, ◌≡◌, refl, sym, ap, ◌∙◌, inl, inr, Bool, false, List, [], ◌∷◌, ◌++◌, Option, none, some,
  filter_map, Bool-cases,
}
use artillery.Discovery.{
  ServiceDiscoveryRequest, register_observer, set_broadcast_listen, seek_peers, exit,
  MulticastServiceDiscoveryState, Io, on_discovery, seek_nodes, readable_interest,
  writable_interest,
}
use artillery.Discovery.Handlers.{seek, process_internal_request, process_requests}

abbrev pub observer_of : ServiceDiscoveryRequest → Option ℕ
observer_of (register_observer sender) = some sender
observer_of (set_broadcast_listen b) = none
observer_of seek_peers = none
observer_of (exit tx) = none

abbrev pub exit_of : ServiceDiscoveryRequest → Option ℕ
exit_of (register_observer sender) = none
exit_of (set_broadcast_listen b) = none
exit_of seek_peers = none
exit_of (exit tx) = some tx

-- The last request to listen or not to listen, if there is one.
abbrev pub listen_after : Bool → List ServiceDiscoveryRequest → Bool
listen_after listen [] = listen
listen_after listen (register_observer sender ∷ msgs) = listen_after listen msgs
listen_after listen (set_broadcast_listen b ∷ msgs) = listen_after b msgs
listen_after listen (seek_peers ∷ msgs) = listen_after listen msgs
listen_after listen (exit tx ∷ msgs) = listen_after listen msgs

seek_keeps :
    (io : Io) (r : Option ℕ) (s : MulticastServiceDiscoveryState)
    → ((seek io r s).observers ≡ s.observers)
      × ((seek io r s).exited ≡ s.exited)
      × ((seek io r s).listen ≡ s.listen)
seek_keeps io none s = elim (Bool-cases (io.reregister seek_nodes writable_interest)) [
  | inl taken ↦ rw taken (refl, refl, refl)
  | inr refused ↦ rw refused (refl, refl, refl)
]
seek_keeps io (some n) s = elim (Bool-cases (io.reregister on_discovery readable_interest)) [
  | inl taken ↦ rw taken (refl, refl, refl)
  | inr refused ↦ rw refused (refl, refl, refl)
]

-- What the requests add to a state `s` that becomes `t`.
abbrev pub Collected :
    List ServiceDiscoveryRequest
    → MulticastServiceDiscoveryState
    → MulticastServiceDiscoveryState
    → Type 0
Collected msgs s t =
    (t.observers ≡ s.observers ++ filter_map observer_of msgs)
    × (t.exited ≡ s.exited ++ filter_map exit_of msgs)
    × (t.listen ≡ listen_after s.listen msgs)

Collected-same :
    (msgs : List ServiceDiscoveryRequest) (s s' t : MulticastServiceDiscoveryState)
    → (s'.observers ≡ s.observers) × (s'.exited ≡ s.exited) × (s'.listen ≡ s.listen)
    → Collected msgs s' t
    → Collected msgs s t
Collected-same msgs s s' t (o, x, l) (observers, exited, listen) = (
  observers ∙ ap (λ os. os ++ filter_map observer_of msgs) o,
  exited ∙ ap (λ xs. xs ++ filter_map exit_of msgs) x,
  listen ∙ ap (λ b. listen_after b msgs) l,
)

-- After the requests that wait are processed, the node has the observers that were registered, in
-- order, behind those it had, has answered every `Exit`, in order, and listens as the last request
-- about it says, whatever sends and registrations failed on the way.
pub process_requests_lem :
    (io : Io) (msgs : List ServiceDiscoveryRequest) (s : MulticastServiceDiscoveryState)
    → Collected msgs s (process_requests io msgs s)
unfolding process_requests process_internal_request
process_requests_lem io [] s = (sym (append-nil _), sym (append-nil _), refl)
process_requests_lem io (register_observer sender ∷ msgs) s =
    let (observers, exited, listen) =
      process_requests_lem io msgs (record s { observers = s.observers ++ sender ∷ [] }) in
    (
      observers ∙ append_assoc s.observers (sender ∷ []) (filter_map observer_of msgs),
      exited,
      listen,
    )
process_requests_lem io (set_broadcast_listen b ∷ msgs) s =
    process_requests_lem io msgs (record s { listen = b })
process_requests_lem io (seek_peers ∷ msgs) s =
    let r = io.send_to s.attempts s.seek_request s.config.seeking_addr in
    Collected-same msgs s (seek io r s) (process_requests io msgs (seek io r s)) (seek_keeps io r s)
      (process_requests_lem io msgs (seek io r s))
process_requests_lem io (exit tx ∷ msgs) s =
    let (observers, exited, listen) =
      process_requests_lem io msgs (record s { running = false; exited = s.exited ++ tx ∷ [] }) in
    (observers, exited ∙ append_assoc s.exited (tx ∷ []) (filter_map exit_of msgs), listen)
