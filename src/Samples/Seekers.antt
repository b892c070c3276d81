-- ===== src/Samples/Seekers.antt =====
-- The theorems on discovery, on a node with two seekers in its queue.
use artillery.Base.{
  refl, inl, inr, true, List, [], ◌∷◌, some, none, length, arith, ltb, if◌then◌else◌, Bool-cases,
}
use artillery.Discovery.{
  MulticastServiceDiscoveryState, Io, new_state, default_reply_text, register_observer, exit,
  seek_peers, set_broadcast_listen, ServiceDiscoveryRequest,
}
use artillery.Discovery.Sending.{reply_loop}
use artillery.Discovery.Replies.{TakesSome, TakesWhole, Answered, reply_loop-Answered}

-- A socket that takes the first two datagrams and refuses all others.
abbrev pub two_sends : Io
two_sends = record {
  decode_utf8 = λ b. some b;
  parse = λ b. none;
  encode = λ m. some (1 ∷ []);
  send_to = λ k bytes a. if ltb k 2 then some (length bytes) else none;
  reregister = λ t i. true;
  observe = λ o r. true;
}

abbrev pub seeker_node : MulticastServiceDiscoveryState
seeker_node =
    record (new_state (record { timeout_delta = 1000; discovery_addr = 1; seeking_addr = 2 })
      default_reply_text 7 (8 ∷ 9 ∷ []) []) { seeker_replies = 20 ∷ 30 ∷ 40 ∷ [] }

two_sends-TakesWhole : TakesWhole two_sends
two_sends-TakesWhole k bytes a = elim (Bool-cases (ltb k 2)) [
  | inl early ↦ rw early (inr refl)
  | inr late ↦ rw late (inl refl)
]

pub two_sends-TakesSome : TakesSome two_sends
two_sends-TakesSome k b bytes a = elim (Bool-cases (ltb k 2)) [
  | inl early ↦ rw early (inr (length (b ∷ bytes), refl, omega arith, omega arith))
  | inr late ↦ rw late (inl refl)
]

reply_loop-Answered_example :
    Answered
      (8 ∷ 9 ∷ [])
      (20 ∷ 30 ∷ 40 ∷ [])
      seeker_node
      (reply_loop two_sends (8 ∷ 9 ∷ []) (20 ∷ 30 ∷ 40 ∷ []) seeker_node)
reply_loop-Answered_example =
    reply_loop-Answered two_sends 8 (9 ∷ []) (20 ∷ 30 ∷ 40 ∷ []) seeker_node two_sends-TakesWhole
      refl

abbrev asked : List ServiceDiscoveryRequest
asked = register_observer 5 ∷ set_broadcast_listen true ∷ seek_peers ∷ exit 6 ∷ []
