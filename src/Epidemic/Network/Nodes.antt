-- ===== src/Epidemic/Network/Nodes.antt =====
-- artillery-core/src/epidemic: what holds of one node of a cluster, whatever happens to it.
use artillery.Base.{
  ℕ, zero, suc, ◌<◌, ◌≡◌, ◌≢◌, ◌∙◌, refl, sym, inl, inr, true, Option, none, some, List, [], ◌∷◌,
  ◌++◌, Bool-cases, List-cases, subst, All, All-append, get_elem?, ◌==◌,
}
use mathlib.Core.Option.{some-injective}
use artillery.Member.{Uuid, SocketAddr}
use artillery.Membership.WellFormed.{IsPlatform}
use artillery.Epidemic.{
  ClusterConfig, ArtilleryMessage, ArtilleryClusterRequest, respond, react, add_seed, send_payload,
  leave_cluster, exit, ArtilleryEpidemic, Env,
}
use artillery.Epidemic.Safety.{IsSafe, IsSupportive, IsAnswerable}
use artillery.Epidemic.Loop.{tick}
use artillery.Epidemic.Loop.Rounds.{tick_through}
use artillery.Epidemic.Loop.Steps.{After}
use artillery.Epidemic.Loop.Kept.{tick-Keeps, handle_one-Keeps}
use artillery.Epidemic.Loop.Through.{IsTakeable, IsTakeable-IsAsked, handle_one_through}
use artillery.Epidemic.Network.{
  Command, add_seed_node, send_payload_to, leave, drop, obey, Event, ticks, works, delivers,
  commands, work, arrive,
}

-- A datagram of the node with the key `k`.
abbrev pub IsSent : Uuid → SocketAddr × ArtilleryMessage → Type 0
IsSent k d = (d.1.sender ≡ k) × IsAnswerable d.1.request

-- What holds of a node's key and configuration, its channel and its datagrams.
abbrev Tidy :
    Uuid
    → ℕ
    → Uuid
    → ClusterConfig
    → List ArtilleryClusterRequest
    → List (SocketAddr × ArtilleryMessage)
    → Type 0
Tidy k mtu own config rs ds =
    (own ≡ k) × (config.network_mtu ≡ mtu) × All (IsTakeable k) rs × All (IsSent k) ds

abbrev IsTidy : Uuid → ℕ → ArtilleryEpidemic → Type 0
IsTidy k mtu s = Tidy k mtu s.host_key s.config s.requests s.sent

-- A node between two events.
abbrev pub IsSound : ℕ → Uuid → ArtilleryEpidemic → Type 0
IsSound mtu k s = IsTidy k mtu s × IsSafe k s

-- The network takes what the nodes send, every message that a node builds encodes to less than the
-- limit, nothing that a node uses panics, and no node is brought its own datagrams.
abbrev pub IsFair : ℕ → Event → Type 0
IsFair mtu (ticks i env) = IsPlatform env.platform
IsFair mtu (works i env) =
    IsSupportive env
    × ((m : ArtilleryMessage) → env.encoded_len m < mtu)
    × ((a : SocketAddr) (m : ArtilleryMessage) → env.send_ok a m ≡ true)
IsFair mtu (delivers i n j) = i ≢ j
IsFair mtu (commands i c) = Unit

asked :
    (k : Uuid) (mtu : ℕ) (own : Uuid) (config : ClusterConfig) (rs : List ArtilleryClusterRequest)
    (ds : List (SocketAddr × ArtilleryMessage)) (r : ArtilleryClusterRequest)
    → IsTakeable k r
    → Tidy k mtu own config rs ds
    → Tidy k mtu own config (rs ++ r ∷ []) ds
asked k mtu own config rs ds r fine (key, size, takes, sent) =
    (key, size, All-append (IsTakeable k) rs (r ∷ []) takes (fine, tt), sent)

sent_too :
    (k : Uuid) (mtu : ℕ) (own : Uuid) (config : ClusterConfig) (rs : List ArtilleryClusterRequest)
    (ds : List (SocketAddr × ArtilleryMessage)) (a : SocketAddr) (m : ArtilleryMessage)
    → m.sender ≡ own
    → IsAnswerable m.request
    → Tidy k mtu own config rs ds
    → Tidy k mtu own config rs (ds ++ (a, m) ∷ [])
sent_too k mtu own config rs ds a m mine fine (key, size, takes, sent) =
    (key, size, takes, All-append (IsSent k) ds ((a, m) ∷ []) sent ((mine ∙ key, fine), tt))

-- A step of a node that leaves it sound.
abbrev Goes : ℕ → Uuid → Option ArtilleryEpidemic → Type 0
Goes mtu k r = (t : ArtilleryEpidemic) × (r ≡ some t) × IsSound mtu k t

pub tick-IsSound :
    (mtu : ℕ) (k : Uuid) (env : Env) (s : ArtilleryEpidemic)
    → IsPlatform env.platform
    → IsSound mtu k s
    → Goes mtu k (tick env s)
tick-IsSound mtu k env s p (tidy, safe) =
    let (t, goes, safe') = tick_through k env s p safe in
    (
      t,
      goes,
      (
        subst (After (IsTidy k mtu)) goes (
            tick-Keeps (λ own run. Tidy k mtu own)
              (λ own run config rs ds r. asked k mtu own config rs ds (react r))
              (λ own run. sent_too k mtu own) env s tidy),
        safe',
      ),
    )

pub work-IsSound :
    (mtu : ℕ) (k : Uuid) (env : Env) (s : ArtilleryEpidemic)
    → IsFair mtu (works k env)
    → IsSound mtu k s
    → Goes mtu k (work env s)
unfolding work
work-IsSound mtu k env s (p, fits, sends) ((key, size, takes, sent), safe) =
    elim (List-cases s.requests) [
      | inl empty ↦ (s, rw empty refl, ((key, size, takes, sent), safe))
      | inr (msg, rest, waits) ↦
          let s' : ArtilleryEpidemic = record s { requests = rest } in
          let takeable : All (IsTakeable k) (msg ∷ rest) = subst (All (IsTakeable k)) waits takes in
          let (t, goes, safe') =
            handle_one_through k env (λ tx. true) msg s' (p, (λ m. rw size (fits m)), sends)
              (λ tx. refl) takeable.0 safe in
          (
            t,
            rw (waits, work) goes,
            (
              subst (After (IsTidy k mtu)) goes (
                  handle_one-Keeps (λ own run. Tidy k mtu own)
                    (λ own run config rs ds r. asked k mtu own config rs ds (react r))
                    (λ own run. sent_too k mtu own) (λ own run config rs ds h. h) env (λ tx. true)
                    msg (IsTakeable-IsAsked k msg takeable.0) s' (key, size, takeable.1, sent)),
              safe',
            ),
          )
    ]

pub All-get_elem? {ℓ κ} :
    {A : Type ℓ} (P : A → Type κ) (xs : List A) (n : ℕ) (x : A)
    → All P xs
    → get_elem? xs n ≡ some x
    → P x
All-get_elem? P [] n x h found = cc
All-get_elem? P (y ∷ xs) zero x h found = subst P (some-injective y x found) h.0
All-get_elem? P (y ∷ xs) (suc n) x h found = All-get_elem? P xs n x h.1 found

-- A datagram of another node.
pub arrive-IsSound :
    (mtu : ℕ) (i j : Uuid) (from here : SocketAddr) (d : Option (SocketAddr × ArtilleryMessage))
    (s : ArtilleryEpidemic)
    → i ≢ j
    → ((e : SocketAddr × ArtilleryMessage) → d ≡ some e → IsSent i e)
    → IsSound mtu j s
    → IsSound mtu j (arrive from here d s)
arrive-IsSound mtu i j from here none s other fine h = h
arrive-IsSound mtu i j from here (some (target, m)) s other fine (tidy, safe) =
    let (key, answerable) = fine (target, m) refl in
    elim (Bool-cases (target == here)) [
      | inl hears ↦ rw hears (
        asked j mtu s.host_key s.config s.requests s.sent (respond from m)
            ((λ same. other (sym key ∙ same)), answerable) tidy,
        safe,
      )
      | inr lost ↦ rw lost (tidy, safe)
    ]

pub obey-IsSound :
    (mtu : ℕ) (k : Uuid) (c : Command) (s : ArtilleryEpidemic)
    → IsSound mtu k s
    → IsSound mtu k (obey c s)
unfolding obey
obey-IsSound mtu k (add_seed_node a) s (tidy, safe) =
    (asked k mtu s.host_key s.config s.requests s.sent (add_seed a) tt tidy, safe)
obey-IsSound mtu k (send_payload_to id msg) s (tidy, safe) =
    (asked k mtu s.host_key s.config s.requests s.sent (send_payload id msg) tt tidy, safe)
obey-IsSound mtu k leave s (tidy, safe) =
    (asked k mtu s.host_key s.config s.requests s.sent leave_cluster tt tidy, safe)
obey-IsSound mtu k (drop tx) s (tidy, safe) =
    (asked k mtu s.host_key s.config s.requests s.sent (exit tx) tt tidy, safe)
