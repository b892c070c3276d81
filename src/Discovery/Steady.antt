-- ===== src/Discovery/Steady.antt =====
-- artillery-core/src/service_discovery/udp_anycast/state.rs: what datagrams and sends leave as it is.
use artillery.Base.{
  ℕ, zero, suc, ◌≡◌, refl, ◌∙◌, inl, inr, ◌⊎◌, List, [], ◌∷◌, Option, none, some, length, take,
  drop, arith, ltb, Bool-cases, Option-cases, ◌==◌, ◌&&◌, if◌then◌else◌,
}
use artillery.Member.{SocketAddr}
use artillery.Discovery.{
  ServiceDiscoveryMessage, request, response, MulticastServiceDiscoveryState, Io, Token,
  on_discovery, seek_nodes, other_token, Interest, readable_interest, writable_interest, Handled,
  fine, failing, panicking, out_of_fuel, register,
}
use artillery.Discovery.Sending.{
  Progress, complete, blocked, sent_to, send_all, reply_loop, after_sending, writable,
}
use artillery.Discovery.Handlers.{
  tell_observers, handle_message, parsed, receive, decoded, readable, Event, is_discovery,
  process_event, process_events,
}
use artillery.Discovery.Replies.{TakesSome, send_all_ends}

-- The node goes on or not as before, and has answered nobody in the meantime.
abbrev pub Same : MulticastServiceDiscoveryState → MulticastServiceDiscoveryState → Type 0
Same s t = (t.running ≡ s.running) × (t.exited ≡ s.exited)

Same-then : (s t u : MulticastServiceDiscoveryState) → Same s t → Same t u → Same s u
Same-then s t u (run, ex) (run', ex') = (run' ∙ run, ex' ∙ ex)

-- A handler comes to an end without a panic.
abbrev Survives : MulticastServiceDiscoveryState → Handled → Type 0
Survives s (fine t) = Same s t
Survives s (failing e t) = Same s t
Survives s (panicking t) = ⊥
Survives s (out_of_fuel t) = ⊥

Survives-then :
    (s t : MulticastServiceDiscoveryState) (h : Handled) → Same s t → Survives t h → Survives s h
Survives-then s t (fine u) same h = Same-then s t u same h
Survives-then s t (failing e u) same h = Same-then s t u same h
Survives-then s t (panicking u) same h = h
Survives-then s t (out_of_fuel u) same h = h

register-Survives :
    (io : Io) (token : Token) (interest : Interest) (s t : MulticastServiceDiscoveryState)
    → Same s t
    → Survives s (register io token interest t)
register-Survives io token interest s t same = elim (Bool-cases (io.reregister token interest)) [
  | inl taken ↦ rw taken same
  | inr refused ↦ rw refused same
]

readable-Survives :
    (io : Io) (received : Option (List ℕ × SocketAddr)) (s : MulticastServiceDiscoveryState)
    → Survives s (readable io received s)
unfolding readable handle_message tell_observers
readable-Survives io none s = (refl, refl)
readable-Survives io (some received) s = read (io.decode_utf8 (receive received.0 s).buf)
  where
    read : (text : Option (List ℕ)) → Survives s (decoded io received.1 text (receive received.0 s))
    read none = (refl, refl)
    read (some text) = heard (io.parse text)
      where
        heard :
            (msg : Option ServiceDiscoveryMessage)
            → Survives s (parsed io received.1 msg (receive received.0 s))
        heard none = (refl, refl)
        heard (some request) = elim (Bool-cases s.listen) [
          | inl hears ↦
              rw hears (register-Survives io on_discovery writable_interest s _ (refl, refl))
          | inr deaf ↦
              rw deaf (register-Survives io on_discovery readable_interest s _ (refl, refl))
        ]
        heard (some (response uid content)) = elim (Bool-cases (uid == s.uid)) [
          | inl own ↦ rw own (register-Survives io on_discovery readable_interest s _ (refl, refl))
          | inr other ↦
              rw other (register-Survives io on_discovery readable_interest s _ (refl, refl))
        ]

send_all-Same :
    (io : Io) (fuel : ℕ) (bytes : List ℕ) (a : SocketAddr) (s : MulticastServiceDiscoveryState)
    → Same s (send_all io fuel bytes a s).1
unfolding send_all
send_all-Same io zero [] a s = (refl, refl)
send_all-Same io zero (b ∷ bytes) a s = (refl, refl)
send_all-Same io (suc fuel) [] a s = (refl, refl)
send_all-Same io (suc fuel) (b ∷ bytes) a s =
    elim (Option-cases (io.send_to s.attempts (b ∷ bytes) a)) [
      | inl refuses ↦ rw refuses (refl, refl)
      | inr (n, takes) ↦ elim (Bool-cases (ltb (length (b ∷ bytes)) n)) [
        | inl over ↦ rw takes (rw over (refl, refl))
        | inr within ↦ rw takes (
            rw within (
              let s' = sent_to a (take n (b ∷ bytes)) s in
              Same-then s s' (send_all io fuel (drop n (b ∷ bytes)) a s').1 (refl, refl)
                (send_all-Same io fuel (drop n (b ∷ bytes)) a s')))
      ]
    ]

-- A loop that sends is over, because all has gone out or the socket refuses.
abbrev Ends : MulticastServiceDiscoveryState → Progress × MulticastServiceDiscoveryState → Type 0
Ends s r = ((r.0 ≡ complete) ⊎ (r.0 ≡ blocked)) × Same s r.1

send_all-Ends :
    (io : Io) (bytes : List ℕ) (a : SocketAddr) (s : MulticastServiceDiscoveryState)
    → TakesSome io
    → Ends s (send_all io (length bytes) bytes a s)
send_all-Ends io bytes a s takes = (
  send_all_ends io (length bytes) bytes a s takes (omega arith),
  send_all-Same io (length bytes) bytes a s,
)

reply_loop-Ends :
    (io : Io) (reply : List ℕ) (seekers : List SocketAddr) (s : MulticastServiceDiscoveryState)
    → TakesSome io
    → Ends s (reply_loop io reply seekers s)
unfolding reply_loop
reply_loop-Ends io reply [] s takes = (inl refl, (refl, refl))
reply_loop-Ends io reply (a ∷ seekers) s takes =
    let start : MulticastServiceDiscoveryState = record s { seeker_replies = seekers } in
    let r = send_all io (length reply) reply a start in
    let (over, same) = send_all-Ends io reply a start takes in
    let (later, same') = reply_loop-Ends io reply seekers r.1 takes in
    elim over [
      | inl out ↦ rw out (later, Same-then s r.1 (reply_loop io reply seekers r.1).1 same same')
      | inr refused ↦ rw refused (inr refl, same)
    ]

after_sending-Survives :
    (io : Io) (token : Token) (s : MulticastServiceDiscoveryState)
    (r : Progress × MulticastServiceDiscoveryState)
    → Ends s r
    → Survives s (after_sending io token r)
after_sending-Survives io token s r (inl out, same) =
    rw out (register-Survives io on_discovery writable_interest s r.1 same)
after_sending-Survives io token s r (inr refused, same) =
    rw refused (register-Survives io token writable_interest s r.1 same)

writable-Survives :
    (io : Io) (token : Token) (s : MulticastServiceDiscoveryState)
    → TakesSome io
    → Survives s (writable io token s)
unfolding writable
writable-Survives io on_discovery s takes =
    elim (Option-cases (io.encode (response s.uid s.default_reply))) [
      | inl fails ↦ rw (fails, Survives) (refl, refl)
      | inr (reply, encodes) ↦
          rw (encodes, Survives)
            (after_sending-Survives io on_discovery s _
              (reply_loop-Ends io reply s.seeker_replies s takes))
    ]
writable-Survives io seek_nodes s takes =
    after_sending-Survives io seek_nodes s _
      (send_all-Ends io s.seek_request s.config.seeking_addr s takes)
writable-Survives io (other_token n) s takes =
    register-Survives io on_discovery writable_interest s s (refl, refl)

process_event-Survives :
    (io : Io) (event : Event) (s : MulticastServiceDiscoveryState)
    → TakesSome io
    → Survives s (process_event io event s)
unfolding process_event
process_event-Survives io event s takes =
    elim (Bool-cases (event.is_readable && is_discovery event.token)) [
      | inr other ↦ rw (other, Survives) (answer s (refl, refl))
      | inl reads ↦
          rw (reads, Survives)
            (after (readable io event.received s) (readable-Survives io event.received s))
    ]
  where
    answer :
        (t : MulticastServiceDiscoveryState)
        → Same s t
        → Survives s (if event.is_writable then writable io event.token t else fine t)
    answer t same = elim (Bool-cases event.is_writable) [
      | inr quiet ↦ rw quiet same
      | inl writes ↦ rw writes (
          Survives-then s t (writable io event.token t) same
            (writable-Survives io event.token t takes))
    ]

    after :
        (h : Handled)
        → Survives s h
        → Survives s (elim h [
          | fine s' ↦ if event.is_writable then writable io event.token s' else fine s'
          | failing e s' ↦ failing e s'
          | panicking s' ↦ panicking s'
          | out_of_fuel s' ↦ out_of_fuel s'
        ])
    after (fine t) same = answer t same
    after (failing e t) same = same
    after (panicking t) h = h
    after (out_of_fuel t) h = h

-- On a socket that takes at least one byte with each send that does not fail, the events of a poll are
-- worked off without a panic, and leave `running` and the answers to an `Exit` as they are.
pub process_events-Same :
    (io : Io) (events : List Event) (s : MulticastServiceDiscoveryState)
    → TakesSome io
    → (t : MulticastServiceDiscoveryState) × (process_events io events s ≡ fine t) × Same s t
unfolding process_events
process_events-Same io [] s takes = (s, refl, (refl, refl))
process_events-Same io (event ∷ events) s takes =
    after (process_event io event s) (process_event-Survives io event s takes)
      (λ t. process_events-Same io events t takes)
  where
    after :
        (h : Handled)
        → Survives s h
        → ((t : MulticastServiceDiscoveryState)
            → (u : MulticastServiceDiscoveryState) × (process_events io events t ≡ fine u)
              × Same t u)
        → (u : MulticastServiceDiscoveryState) × (elim h [
          | fine s' ↦ process_events io events s'
          | failing e s' ↦ fine s'
          | panicking s' ↦ panicking s'
          | out_of_fuel s' ↦ out_of_fuel s'
        ]
            ≡ fine u)
          × Same s u
    after (fine t) same rest =
        let (u, ends, same') = rest t in (u, ends, Same-then s t u same same')
    after (failing e t) same rest = (t, refl, same)
    after (panicking t) h rest = absurd h
    after (out_of_fuel t) h rest = absurd h
