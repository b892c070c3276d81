-- ===== src/Discovery/Replies.antt =====
-- artillery-core/src/service_discovery/udp_anycast/state.rs, `writable`: the answers to seekers, and
-- the end of the loops.
use mathlib.Core.List.{append-nil, append_assoc}
use artillery.Base.{
  ℕ, zero, suc, ◌≤◌, ◌<◌, ◌≡◌, refl, sym, ap, ◌∙◌, ◌⊎◌, inl, inr, false, List, [], ◌∷◌, ◌++◌, none,
  some, arith, length, take, drop, map, ltb, take-length, drop-length, length-drop,
}
use artillery.Member.{SocketAddr}
use artillery.Discovery.{MulticastServiceDiscoveryState, Io}
use artillery.Discovery.Sending.{
  Progress, complete, blocked, tried, sent_to, send_all, after_send, reply_loop,
}

-- A send fails, or takes some bytes and at most those that it is given.
abbrev pub TakesSome : Io → Type 0
TakesSome io =
    (k : ℕ) (b : ℕ) (bytes : List ℕ) (a : SocketAddr)
    → (io.send_to k (b ∷ bytes) a ≡ none)
      ⊎ ((n : ℕ) × (io.send_to k (b ∷ bytes) a ≡ some n) × (0 < n) × (n ≤ length (b ∷ bytes)))

-- As many rounds as there are bytes are enough for the loop over one message: on a socket that
-- takes at least one byte with each send that does not fail, it sends all bytes or is refused.
pub send_all_ends :
    (io : Io) (fuel : ℕ) (bytes : List ℕ) (peer_addr : SocketAddr)
    (s : MulticastServiceDiscoveryState)
    → TakesSome io
    → length bytes ≤ fuel
    → let r = send_all io fuel bytes peer_addr s in (r.0 ≡ complete) ⊎ (r.0 ≡ blocked)
unfolding send_all
send_all_ends io zero [] a s takes room = inl refl
send_all_ends io (suc fuel) [] a s takes room = inl refl
send_all_ends io zero (b ∷ bytes) a s takes room = absurd (omega (arith, room))
send_all_ends io (suc fuel) (b ∷ bytes) a s takes room = elim (takes s.attempts b bytes a) [
  | inl refuses ↦ rw refuses (inr refl)
  | inr (n, takes_n, some_bytes, fits) ↦
      let within : ltb (length (b ∷ bytes)) n ≡ false = ground (arith, fits) in
      rw takes_n (
        rw within (
          send_all_ends io fuel (drop n (b ∷ bytes)) a (sent_to a (take n (b ∷ bytes)) s) takes
            (omega (arith, length-drop n (b ∷ bytes)))))
]

-- A datagram is taken whole, or the send fails.
abbrev pub TakesWhole : Io → Type 0
TakesWhole io =
    (k : ℕ) (bytes : List ℕ) (a : SocketAddr)
    → (io.send_to k bytes a ≡ none) ⊎ (io.send_to k bytes a ≡ some (length bytes))

send_all_nothing :
    (io : Io) (fuel : ℕ) (a : SocketAddr) (s : MulticastServiceDiscoveryState)
    → send_all io fuel [] a s ≡ (complete, s)
unfolding send_all
send_all_nothing io zero a s = refl
send_all_nothing io (suc fuel) a s = refl

after_send_whole :
    (bytes : List ℕ) (a : SocketAddr) (s : MulticastServiceDiscoveryState)
    (more : List ℕ → MulticastServiceDiscoveryState → Progress × MulticastServiceDiscoveryState)
    → after_send (some (length bytes)) bytes a s more ≡ more [] (sent_to a bytes s)
after_send_whole bytes a s more =
    let within : ltb (length bytes) (length bytes) ≡ false = ground arith in
    rw (within, take-length bytes, drop-length bytes) refl

send_all_whole :
    (io : Io) (b : ℕ) (bytes : List ℕ) (a : SocketAddr) (s : MulticastServiceDiscoveryState)
    → TakesWhole io
    → let r = send_all io (length (b ∷ bytes)) (b ∷ bytes) a s in
      (r ≡ (complete, sent_to a (b ∷ bytes) s)) ⊎ (r ≡ (blocked, tried s))
unfolding send_all
send_all_whole io b bytes a s takes = elim (takes s.attempts (b ∷ bytes) a) [
  | inl refuses ↦ rw refuses (inr refl)
  | inr whole ↦ rw whole (
      inl (
        after_send_whole (b ∷ bytes) a s (λ rest t. send_all io (length bytes) rest a t)
        ∙ send_all_nothing io (length bytes) a (sent_to a (b ∷ bytes) s)))
]

abbrev pub answers : List ℕ → List SocketAddr → List (List ℕ × SocketAddr)
answers reply = map (λ a. (reply, a))

-- Either all seekers are answered and none is left, or one is refused: those before it are answered,
-- those behind it are left, and it is neither answered nor left.
abbrev pub Answered :
    List ℕ
    → List SocketAddr
    → MulticastServiceDiscoveryState
    → Progress × MulticastServiceDiscoveryState
    → Type 0
Answered reply seekers s r =
    ((r.0 ≡ complete) × (r.1.seeker_replies ≡ []) × (r.1.sent ≡ s.sent ++ answers reply seekers))
    ⊎ ((r.0 ≡ blocked)
        × (answered : List SocketAddr) × (lost : SocketAddr) × (seekers
            ≡ answered ++ lost ∷ r.1.seeker_replies)
        × (r.1.sent ≡ s.sent ++ answers reply answered))

-- On a socket that takes a datagram whole or refuses it, a reply that is not empty goes once to each
-- seeker, in the order of the queue, up to the first refusal; the seeker that is refused has been
-- taken off the queue and is never answered.
pub reply_loop-Answered :
    (io : Io) (b : ℕ) (bytes : List ℕ) (seekers : List SocketAddr)
    (s : MulticastServiceDiscoveryState)
    → TakesWhole io
    → s.seeker_replies ≡ seekers
    → Answered (b ∷ bytes) seekers s (reply_loop io (b ∷ bytes) seekers s)
unfolding reply_loop
reply_loop-Answered io b bytes [] s takes e = inl (refl, e, sym (append-nil _))
reply_loop-Answered io b bytes (a ∷ seekers) s takes e =
    let popped : MulticastServiceDiscoveryState = record s { seeker_replies = seekers } in
    elim (send_all_whole io b bytes a popped takes) [
      | inl done ↦
          rw done
            (elim (reply_loop-Answered io b bytes seekers (sent_to a (b ∷ bytes) popped) takes
              refl) [
                | inl (all, empty, sent) ↦ inl (
                  all,
                  empty,
                  sent ∙ append_assoc s.sent ((b ∷ bytes, a) ∷ []) (answers (b ∷ bytes) seekers),
                )
                | inr (stopped, answered, lost, split, sent) ↦ inr (
                  stopped,
                  a ∷ answered,
                  lost,
                  ap (λ t. a ∷ t) split,
                  sent ∙ append_assoc s.sent ((b ∷ bytes, a) ∷ []) (answers (b ∷ bytes) answered),
                )
              ])
      | inr refused ↦ rw refused (inr (refl, [], a, refl, sym (append-nil _)))
    ]
