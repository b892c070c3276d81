-- ===== src/Epidemic/Loop/Messages.antt =====
-- artillery-core/src/epidemic/state.rs, `respond_to_message`: what a message from another node adds to
-- the load of the loop over the node's own requests.
use artillery.Base.{
  ℕ, ◌+◌, ◌≡◌, refl, ap, ◌∙◌, inl, inr, Option, none, some, List, [], ◌∷◌, arith, Bool-cases,
  Option-cases, length, length-append,
}
use artillery.Base.Dict.{lookup, nat_eq}
use artillery.Member.{SocketAddr, ArtilleryMember}
use artillery.Membership.{mark_loop, mark_node_alive, get_member}
use artillery.Membership.WellFormed.{IsPlatform}
use artillery.Epidemic.{
  Request, heartbeat, ack, ping, ack_host, payload, ArtilleryMessage, went_up, received,
  ArtilleryEpidemic, Env, respond,
}
use artillery.Epidemic.Messages.{
  add_to_wait_list, ack_response, push_waiting, remove_potential_seed,
}
use artillery.Epidemic.Handlers.{send_request, enqueue, send_member_event, for_each}
use artillery.Epidemic.Inbound.{
  tell_waiting, went_alive, mark_alive, handle_request, accept_message, same_bytes,
  respond_to_message,
}
use artillery.Epidemic.Loop.Load.{
  each, waiters, gain, vigor_of-mark_loop, count_waiting, waiters-insert,
}
use artillery.Epidemic.Loop.Steps.{
  Fits, Leaves, Leaves-then, Leaves-mono, send_request-Fits, send_member_event-Leaves,
}
use artillery.Epidemic.Loop.Reports.{apply_changes-Leaves, ensure_node_is_member-Leaves}

-- The requests to those who wait leave the wait list as it is.
sends_total :
    (c n : ℕ) (request : Request) (targets : List SocketAddr) (s : ArtilleryEpidemic)
    → Fits c n s
    → (t : ArtilleryEpidemic) × (for_each
          (λ target u. some (send_request request target u))
          targets
          s
        ≡ some t)
      × (t.wait_list ≡ s.wait_list)
      × Fits c (n + length targets) t
unfolding for_each
sends_total c n request [] s (count, low) = (s, refl, refl, (count, omega (arith, low)))
sends_total c n request (a ∷ targets) s h =
    let (t, goes, same, (count, low)) =
      sends_total c (n + 1) request targets (send_request request a s)
        (send_request-Fits c n request a s h) in
    (t, goes, same, (count, omega (arith, low)))

-- Those who waited are counted as requests now.
tell_waiting-Leaves :
    (c n : ℕ) (m : ArtilleryMember) (from : SocketAddr) (o : Option (List SocketAddr))
    (s : ArtilleryEpidemic)
    → lookup from s.wait_list ≡ o
    → Fits c n s
    → Leaves c n (tell_waiting m from o s)
tell_waiting-Leaves c n m from none s found h = h
tell_waiting-Leaves c n m from (some hosts) s found h =
    let (t, goes, same, (count, low)) = sends_total c n (ack_host m) hosts s h in
    let gone = waiters-insert from [] t.wait_list in
    let there : count_waiting (lookup from t.wait_list) ≡ length hosts =
      ap (λ w. count_waiting (lookup from w)) same ∙ ap count_waiting found in
    rw goes (count, omega (arith, low, gone, there))

went_alive-Leaves :
    (c n : ℕ) (env : Env) (from : SocketAddr) (o : Option ArtilleryMember) (s : ArtilleryEpidemic)
    → Fits c n s
    → Leaves c n (went_alive env from o s)
went_alive-Leaves c n env from none s h = h
went_alive-Leaves c n env from (some m) s h =
    Leaves-then c n n (tell_waiting m from (lookup from s.wait_list) s) _
      (tell_waiting-Leaves c n m from (lookup from s.wait_list) s refl h)
      (λ t fits. send_member_event-Leaves c n env (went_up m) (enqueue (m ∷ []) t) fits)

mark_alive-Leaves :
    (c n : ℕ) (env : Env) (from : SocketAddr) (s : ArtilleryEpidemic)
    → Fits c n s
    → Leaves c (n + c) (mark_alive env from s)
unfolding mark_alive mark_node_alive
mark_alive-Leaves c n env from s (count, low) =
    went_alive-Leaves c (n + c) env from (mark_loop env.now from s.members.members).0 _
      (count, omega (arith, low, vigor_of-mark_loop c env.now from s.members.members))

waiters-add_to_wait_list :
    (w : List (SocketAddr × List SocketAddr)) (dest from : SocketAddr)
    → waiters (add_to_wait_list w dest from) ≡ waiters w + 1
unfolding add_to_wait_list
waiters-add_to_wait_list w dest from =
    let kept = waiters-insert dest (push_waiting from (lookup dest w)) w in
    elim (Option-cases (lookup dest w)) [
      | inl new ↦ ground (arith, kept, new)
      | inr (hosts, known) ↦ ground (arith, kept, known, length-append hosts (from ∷ []))
    ]

-- Who asks for another node waits for it.
handle_ping-Fits :
    (c n : ℕ) (from dest : SocketAddr) (s : ArtilleryEpidemic)
    → Fits c n s
    → Fits c (n + 1) (record s { wait_list = add_to_wait_list s.wait_list dest from })
handle_ping-Fits c n from dest s (count, low) =
    (count, omega (arith, low, waiters-add_to_wait_list s.wait_list dest from))

handle_request-Leaves :
    (c n : ℕ) (env : Env) (from : SocketAddr) (request : Request) (s : ArtilleryEpidemic)
    → Fits c n s
    → Leaves c (n + 2 + c) (handle_request env from request s)
unfolding ack_response
handle_request-Leaves c n env from heartbeat s h =
    Leaves-mono c (n + 1) (n + 2 + c) (some (send_request ack from s)) (omega arith)
      (send_request-Fits c n ack from s h)
handle_request-Leaves c n env from ack s h =
    Leaves-mono c (n + c) (n + 2 + c) (mark_alive env from (ack_response from s)) (omega arith)
      (mark_alive-Leaves c n env from (ack_response from s) h)
handle_request-Leaves c n env from (ping dest) s h =
    Leaves-mono c (n + 1 + 1) (n + 2 + c) (handle_request env from (ping dest) s) (omega arith) (
      send_request-Fits c (n + 1) heartbeat dest
        (record s { wait_list = add_to_wait_list s.wait_list dest from })
        (handle_ping-Fits c n from dest s h))
handle_request-Leaves c n env from (ack_host m) s h = elim (Option-cases m.remote_host) [
  | inl absent ↦ rw absent tt
  | inr (host, there) ↦ rw there (
      Leaves-mono c (n + c) (n + 2 + c) (mark_alive env host (ack_response host s)) (omega arith)
        (mark_alive-Leaves c n env host (ack_response host s) h))
]
handle_request-Leaves c n env from (payload id msg) s h =
    elim (Option-cases (get_member id s.members)) [
      | inl absent ↦ rw absent (h.0, omega (arith, h.1))
      | inr (m, there) ↦ rw there (
          Leaves-mono c n (n + 2 + c) (send_member_event env (received m msg) s) (omega arith)
            (send_member_event-Leaves c n env (received m msg) s h))
    ]

pub respond_to_message-Leaves :
    (c n : ℕ) (env : Env) (from : SocketAddr) (m : ArtilleryMessage) (s : ArtilleryEpidemic)
    → IsPlatform env.platform
    → Fits c n s
    → Leaves c (n + gain c (respond from m)) (respond_to_message env from m s)
unfolding respond_to_message accept_message
respond_to_message-Leaves c n env from m s p (count, low) =
    elim (Bool-cases (same_bytes m.cluster_key s.config.cluster_key)) [
      | inr strange ↦ rw strange (count, omega (arith, low))
      | inl known ↦ rw known (
          Leaves-then c (n + each c m.state_changes) (n + gain c (respond from m)) _ _
            (apply_changes-Leaves c n env m.state_changes from s p (count, low))
            (λ t fits.
              Leaves-then c (n + each c m.state_changes + c) (n + gain c (respond from m)) _ _
                (ensure_node_is_member-Leaves c (n + each c m.state_changes) env from m.sender
                  (record t { seed_queue = remove_potential_seed t.seed_queue from }) fits)
                (λ u more.
                  Leaves-mono c (n + each c m.state_changes + c + 2 + c)
                    (n + gain c (respond from m)) (handle_request env from m.request u)
                    (omega arith)
                    (handle_request-Leaves c (n + each c m.state_changes + c) env from m.request u
                      more))))
    ]
