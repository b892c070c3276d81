-- ===== src/Epidemic/Sending.antt =====
-- artillery-core/src/epidemic/state.rs, `build_message` and `process_request`: what is sent, and when
-- sending panics.
use artillery.Base.{
  ℕ, zero, suc, ◌+◌, ◌≤◌, ◌<◌, ◌≡◌, ◌∙◌, ap, ◌⊎◌, inl, inr, true, false, List, [], ◌∷◌, ◌++◌, none,
  some, arith, length, take, ltb, leb, Bool-cases, take-length,
}
use artillery.Member.{Uuid, ArtilleryStateChange}
use artillery.Epidemic.{Request, ArtilleryMessage, TargetedRequest, ArtilleryEpidemic, Env}
use artillery.Epidemic.Messages.{message, build_loop, build_message}
use artillery.Epidemic.Handlers.{message_for, await, process_request}

-- The loop returns a prefix that reaches the limit, or goes through to the last one.
build_loop_lem :
    (env : Env) (sender : Uuid) (key : List ℕ) (request : Request)
    (changes : List ArtilleryStateChange) (mtu i rounds : ℕ)
    → let m = build_loop env sender key request changes mtu i rounds in
      (m ≡ message sender key request (take (i + rounds) changes)) ⊎ (mtu ≤ env.encoded_len m)
unfolding build_loop
build_loop_lem env sender key request changes mtu i zero =
    inl (ap (λ n. message sender key request (take n changes)) (omega arith))
build_loop_lem env sender key request changes mtu i (suc rounds) =
    elim (Bool-cases (leb mtu (env.encoded_len (message sender key request (take i changes))))) [
      | inl full ↦ rw full (inr (ground arith))
      | inr room ↦
          rw room (elim (build_loop_lem env sender key request changes mtu (suc i) rounds) [
            | inl e ↦ inl (e ∙ ap (λ n. message sender key request (take n changes)) (omega arith))
            | inr over ↦ inr over
          ])
    ]

-- A built message carries all the changes, or is at least as long as the network allows.
pub build_message_lem :
    (env : Env) (sender : Uuid) (key : List ℕ) (request : Request)
    (changes : List ArtilleryStateChange) (mtu : ℕ)
    → let m = build_message env sender key request changes mtu in
      (m ≡ message sender key request changes) ⊎ (mtu ≤ env.encoded_len m)
unfolding build_message
build_message_lem env sender key request changes mtu =
    elim (build_loop_lem env sender key request changes mtu 0 (length changes)) [
      | inl e ↦ inl (
          e
          ∙ ap (λ n. message sender key request (take n changes)) (omega arith)
          ∙ ap (message sender key request) (take-length changes))
      | inr over ↦ inr over
    ]

-- The message that would carry all the changes.
abbrev pub full_message : TargetedRequest → ArtilleryEpidemic → ArtilleryMessage
full_message request s = message s.host_key s.config.cluster_key request.request s.state_changes

-- A node whose changes do not all fit into one message does not send a part of them: whenever the
-- message that carries all the changes reaches the network's limit, `process_request` panics.
pub process_request_overflow :
    (env : Env) (request : TargetedRequest) (s : ArtilleryEpidemic)
    → s.config.network_mtu ≤ env.encoded_len (full_message request s)
    → process_request env request s ≡ none
unfolding process_request
process_request_overflow env request s h =
    let over : ltb (env.encoded_len (message_for env request s)) s.config.network_mtu ≡ false =
      elim (build_message_lem env s.host_key s.config.cluster_key request.request s.state_changes
        s.config.network_mtu) [ inl e ↦ rw e (ground arith) | inr long ↦ ground arith ] in
    rw over

-- Every prefix of the changes fits the network's limit.
abbrev pub Fits : Env → TargetedRequest → ArtilleryEpidemic → Type 0
Fits env request s =
    (i : ℕ)
    → env.encoded_len
        (message s.host_key s.config.cluster_key request.request (take i s.state_changes))
      < s.config.network_mtu

build_loop_fits :
    (env : Env) (sender : Uuid) (key : List ℕ) (request : Request)
    (changes : List ArtilleryStateChange) (mtu i rounds : ℕ)
    → ((j : ℕ) → env.encoded_len (message sender key request (take j changes)) < mtu)
    → build_loop env sender key request changes mtu i rounds
      ≡ message sender key request (take (i + rounds) changes)
unfolding build_loop
build_loop_fits env sender key request changes mtu i zero h =
    ap (λ n. message sender key request (take n changes)) (omega arith)
build_loop_fits env sender key request changes mtu i (suc rounds) h =
    let room : leb mtu (env.encoded_len (message sender key request (take i changes))) ≡ false =
      ground (arith, h i) in
    rw room (
      build_loop_fits env sender key request changes mtu (suc i) rounds h
      ∙ ap (λ n. message sender key request (take n changes)) (omega arith))

build_message-Fits :
    (env : Env) (request : TargetedRequest) (s : ArtilleryEpidemic)
    → Fits env request s
    → message_for env request s ≡ full_message request s
unfolding build_message
build_message-Fits env request s h =
    build_loop_fits env s.host_key s.config.cluster_key request.request s.state_changes
      s.config.network_mtu 0 (length s.state_changes) h
    ∙ ap (λ n. message s.host_key s.config.cluster_key request.request (take n s.state_changes))
        (omega arith)
    ∙ ap (message s.host_key s.config.cluster_key request.request) (take-length s.state_changes)

-- Where every prefix of the changes fits, and the socket takes the message, exactly one message is
-- sent to the target, with all the changes in it; for a heartbeat, and for no other request, the
-- node then waits for an answer until the configured time has passed.
pub process_request_sends :
    (env : Env) (request : TargetedRequest) (s : ArtilleryEpidemic)
    → Fits env request s
    → env.send_ok request.target (full_message request s) ≡ true
    → process_request env request s
      ≡ some (record (await env request (full_message request s) s) {
        sent = s.sent ++ (request.target, full_message request s) ∷ [];
      })
unfolding process_request
process_request_sends env request s fits taken =
    let short : ltb (env.encoded_len (full_message request s)) s.config.network_mtu ≡ true =
      let all : take (length s.state_changes) s.state_changes ≡ s.state_changes =
        take-length s.state_changes in
      let f = fits (length s.state_changes) in
      let g : env.encoded_len (full_message request s) < s.config.network_mtu = rw all at f in
      ground arith in
    rw (build_message-Fits env request s fits) (rw (short, taken))
