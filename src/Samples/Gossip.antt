-- ===== src/Samples/Gossip.antt =====
-- A cluster in which the first node is told of the second one, and a node that hears itself.
use artillery.Base.{◌*◌, ◌≡◌, refl, List, [], ◌∷◌, Option, none, some, map}
use artillery.Member.{Uuid, current}
use artillery.Epidemic.{ArtilleryMessage, heartbeat, default_config, new}
use artillery.Epidemic.Network.{
  Event, ticks, works, delivers, commands, add_seed_node, Cluster, run,
}
use artillery.Epidemic.Network
use artillery.Epidemic.Messages.{message, build_message, ack_response}
use artillery.Membership.{find_myself, to_map, has_member, leave}
use artillery.Membership.Changes.{
  apply_state_changes, apply_loop, apply_one, apply_vacant, apply_to_myself,
}
use artillery.Base.Dict.{lookup}
use artillery.Samples.Nodes.{env_of}

abbrev start : Cluster
start k = new 0 k default_config

-- The first node greets the second, which answers, and then leaves.
abbrev greetings : List Event
greetings =
    commands 1 (add_seed_node 20)
    ∷ works 1 (env_of 300)
    ∷ ticks 1 (env_of 300)
    ∷ works 1 (env_of 300)
    ∷ delivers 1 0 2
    ∷ works 2 (env_of 300)
    ∷ works 2 (env_of 300)
    ∷ delivers 2 0 1
    ∷ works 1 (env_of 300)
    ∷ commands 1 Network.leave
    ∷ works 1 (env_of 300)
    ∷ []

abbrev keys : Option Cluster → Uuid → List Uuid
keys none k = []
keys (some nodes) k = map (λ m. m.host_key) (nodes k).members.members

second_knows_first : keys (run (λ k. k * 10) greetings start) 2 ≡ 2 ∷ 1 ∷ []
unfolding run build_message apply_state_changes find_myself apply_loop apply_one lookup to_map
    apply_vacant has_member apply_to_myself ack_response leave
second_knows_first = refl

first_knows_second : keys (run (λ k. k * 10) greetings start) 1 ≡ 1 ∷ 2 ∷ []
unfolding run build_message apply_state_changes find_myself apply_loop apply_one lookup to_map
    apply_vacant has_member apply_to_myself ack_response leave
first_knows_second = refl

-- A node that has just started, and that its own address has been given as a seed.
abbrev hello_me : ArtilleryMessage
hello_me = message 1 default_config.cluster_key heartbeat (record { member = current 0 1 } ∷ [])
