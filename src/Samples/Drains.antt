-- ===== src/Samples/Drains.antt =====
-- The loop over a node's own requests, on a node of the cluster of three: a message has come, a ping is
-- to be sent, and the node is to stop.
use artillery.Base.{ℕ, zero, suc, ◌<◌, false, List, [], ◌∷◌, arith, All}
use artillery.Member.{ArtilleryStateChange}
use artillery.Epidemic.{
  ArtilleryEpidemic, ArtilleryMessage, Env, respond, react, exit, leave_cluster, heartbeat,
  default_config,
}
use artillery.Epidemic.Loop.{drain}
use artillery.Epidemic.Loop.Drain.{IsOver, drain_ends}
use artillery.Epidemic.Messages.{message}
use artillery.Membership.WellFormed.{IsPlatform}
use artillery.Samples.Clusters.{in_order-IsPlatform}
use artillery.Samples.Nodes.{env_of, node, greeting, hello}

abbrev busy : ArtilleryEpidemic
busy = record node { requests = react greeting ∷ respond 20 hello ∷ leave_cluster ∷ exit 7 ∷ [] }

-- So many rounds on the same network.
abbrev rounds : ℕ → List Env
rounds zero = []
rounds (suc n) = env_of 300 ∷ rounds n

pub short : (m : ArtilleryMessage) → (env_of 300).encoded_len m < 65536
short m = short_changes m.state_changes
  where
    short_changes : (cs : List ArtilleryStateChange) → elim cs [ [] ↦ 100 | c ∷ rest ↦ 300 ] < 65536
    short_changes [] = omega arith
    short_changes (c ∷ cs) = omega arith

All-rounds {ℓ} : (P : Env → Type ℓ) (n : ℕ) → P (env_of 300) → All P (rounds n)
All-rounds P zero h = tt
All-rounds P (suc n) h = (h, All-rounds P n h)

drain_ends_example : IsOver (drain (λ tx. false) (rounds 40) busy)
drain_ends_example =
    drain_ends (λ tx. false) (rounds 40) busy
      (All-rounds (λ env. IsPlatform env.platform) 40 in_order-IsPlatform) (omega arith)

-- The user's `Cluster` is gone.
abbrev deaf : Env
deaf = record (env_of 300) { listening = false }

abbrev stranger : ArtilleryMessage
stranger = message 9 default_config.cluster_key heartbeat []

abbrev leaving_node : ArtilleryEpidemic
leaving_node = record node { requests = exit 7 ∷ respond 99 stranger ∷ leave_cluster ∷ [] }
