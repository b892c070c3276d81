-- ===== src/Samples/Nodes.antt =====
-- The theorems on the epidemic protocol, on a node of the cluster of three.
use artillery.Base.{
  Option, ◌+◌, ◌++◌, ℕ, map, ◌≡◌, refl, true, List, [], ◌∷◌, some, none, ◌<◌, take, arith,
}
use artillery.Member.{ArtilleryStateChange}
use artillery.Epidemic.{
  ArtilleryEpidemic, ArtilleryMessage, TargetedRequest, Env, heartbeat, ack, new, default_config,
}
use artillery.Epidemic.Messages.{enqueue_state_change, update_change, message}
use artillery.Epidemic.Handlers.{prune_timed_out_responses, process_request}
use artillery.Epidemic.Inbound.{respond_to_message}
use artillery.Epidemic.Sending.{Fits, process_request_overflow}
use artillery.Epidemic.Safety.{GoesThrough, IsSupportive, respond_to_message_through}
use artillery.Epidemic.Queue.{change, enqueue_state_change-drops}
use artillery.Epidemic.Pruning.{prune-overdue}
use artillery.Samples.Clusters.{
  me, second, third, cluster, cluster-IsWellFormed, in_order, in_order-IsPlatform, news,
}

-- Every change takes so many bytes.
abbrev pub env_of : ℕ → Env
env_of change_len = record {
  platform = in_order;
  now = 5;
  add_date = λ d n. some (d + n);
  listening = true;
  encoded_len = λ m. elim m.state_changes [ [] ↦ 100 | c ∷ cs ↦ change_len ];
  send_ok = λ a m. true;
}

pub env_of-IsSupportive : (change_len : ℕ) → IsSupportive (env_of change_len)
env_of-IsSupportive change_len = record {
  platform = in_order-IsPlatform;
  heard = refl;
  adds = λ d. refl;
}

abbrev pub node : ArtilleryEpidemic
node = record (new 0 1 default_config) { members = cluster; state_changes = news }

abbrev pub greeting : TargetedRequest
greeting = record { request = heartbeat; target = 20 }

abbrev pub hello : ArtilleryMessage
hello = message 2 default_config.cluster_key ack news

process_request_overflow_example : process_request (env_of 70000) greeting node ≡ none
process_request_overflow_example =
    process_request_overflow (env_of 70000) greeting node (omega arith)

short_enough :
    (cs : List ArtilleryStateChange)
    → (env_of 300).encoded_len (message 1 default_config.cluster_key heartbeat cs) < 65536
short_enough [] = omega arith
short_enough (c ∷ cs) = omega arith

news_fit : Fits (env_of 300) greeting node
news_fit i = short_enough (take i news)

respond_to_message_through_example : GoesThrough 1 (respond_to_message (env_of 300) 20 hello node)
respond_to_message_through_example =
    respond_to_message_through 1 (env_of 300) 20 hello node (env_of-IsSupportive 300) (omega arith)
      tt cluster-IsWellFormed

enqueue_state_change-drops_example :
    enqueue_state_change news ((third ∷ []) ++ second ∷ me ∷ [])
    ≡ update_change second (news ++ map change (third ∷ []))
enqueue_state_change-drops_example =
    enqueue_state_change-drops news (third ∷ []) (me ∷ []) second (refl, tt) refl

-- The node waits for an answer until the time stamp given.
abbrev waiting_until : ℕ → ArtilleryEpidemic
waiting_until deadline = record node {
  pending_responses = record { deadline = deadline; host = 20; state_changes = [] } ∷ [];
}

prune-overdue_example :
    prune_timed_out_responses (env_of 300) (waiting_until 3) ≡ some (waiting_until 3)
prune-overdue_example = prune-overdue (env_of 300) (waiting_until 3) (omega arith, tt)

-- An empty datagram is no message.
abbrev decode_some : List ℕ → Option ArtilleryMessage
decode_some [] = none
decode_some (b ∷ bytes) = some hello
