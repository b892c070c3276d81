-- ===== src/Samples/Answers.antt =====
-- The answers that a node waits for, on a node of the cluster of three.
use artillery.Base.{ℕ, ◌+◌, ◌≡◌, refl, not, [], ◌∷◌, some, arith, retain, get_elem?, ◌==◌}
use artillery.Member.{suspect, set_state}
use artillery.Membership.Timeouts.{All-IsDatable}
use artillery.Epidemic.{ArtilleryEpidemic, Pending}
use artillery.Epidemic.Messages.{ack_response}
use artillery.Epidemic.Handlers.{prune_timed_out_responses}
use artillery.Epidemic.Acks.{is_carried, ack_response_lem}
use artillery.Epidemic.Hasty.{prune-hasty}
use artillery.Samples.Clusters.{me, second, third, news, cluster, cluster-IsWellFormed}
use artillery.Samples.Nodes.{env_of, node}

abbrev entry : ℕ → ℕ → Pending
entry deadline host = record { deadline = deadline; host = host; state_changes = news }

abbrev expecting : ArtilleryEpidemic
expecting = record node { pending_responses = entry 3 30 ∷ entry 9 20 ∷ [] }

ack_response_lem_example : ack_response 20 expecting ≡ record expecting {
  pending_responses = retain (λ p. not (p.host == 20)) expecting.pending_responses;
  state_changes =
      retain (λ c. not (is_carried 20 expecting.pending_responses c)) expecting.state_changes;
}
ack_response_lem_example = ack_response_lem 20 expecting

prune-hasty_example :
    (s' : ArtilleryEpidemic) × (prune_timed_out_responses (env_of 300) expecting ≡ some s')
    × (get_elem? s'.members.members 0 ≡ some (set_state 5 suspect second))
prune-hasty_example =
    prune-hasty 1 (env_of 300) expecting (entry 3 30 ∷ []) [] (entry 9 20) [] (me ∷ third ∷ [])
      second cluster-IsWellFormed refl
      (All-IsDatable (λ d n. some (d + n)) cluster.members (λ d. refl)) refl (omega arith) refl refl
      refl
