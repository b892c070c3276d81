-- ===== src/Samples/Chains.antt =====
-- The theorems on CRAQ, on a chain of three nodes at version 4.
use artillery.Base.{List, inr, ℕ, suc, ◌≡◌, ◌≢◌, refl, [], ◌∷◌, some, false, inl, arith, All}
use artillery.Base.Int.{pos}
use artillery.Base.Dict.{lookup, int_eq}
use artillery.Craq.Chain.{ok, transport, CraqChain}
use artillery.Craq.Server.{
  Remote, answer, refusal, failed, CraqObject, CraqProtoServer, craq, debug, tail_channel,
  successor_channel, no_version, done, eventual,
}
use artillery.Craq.Server.Writes.{handle_write, handle_test_and_set}
use artillery.Craq.Server.Reads.{handle_read}
use artillery.Craq.Server.Faults.{debug_read_fails}
use artillery.Craq.Server.Failures.{AllPanic, handle_write-after_refusal}
use artillery.Craq.Client.{client_write}
use artillery.Craq.Client.RoundTrip.{ReadsValue, client_read-client_write}
use artillery.Craq.Replication.{Downstream, hops}
use artillery.Craq.Replication.Node.{InSync, Holds}
use artillery.Craq.Replication.Head.{
  IsChain, Committed, handle_write-Committed, handle_test_and_set_rejects,
  handle_test_and_set-Committed,
}
use artillery.Craq.Replication.Consistency.{Reads, write_then_read}

abbrev pub object_of : ℕ → CraqObject
object_of byte = record { value = some (byte ∷ []); dirty = some false }

abbrev pub chain_at : ℕ → CraqChain
chain_at i = record {
  nodes = record { host = 10 } ∷ record { host = 20 } ∷ record { host = 30 } ∷ [];
  node_idx = i;
}

-- A node that has its connections; those to the tail go through the other channel on the head.
abbrev pub node_at : ℕ → CraqProtoServer
node_at i = record {
  tp_rx = some tail_channel;
  sp_rx = some successor_channel;
  tp_tx = some tail_channel;
  sp_tx = some successor_channel;
  tail_idle = 1;
  successor_idle = 1;
  chain_ref = chain_at i;
  objects = (pos 4, object_of 7) ∷ [];
  latest_version = pos 4;
  latest_clean_version = pos 4;
  cr_mode = craq;
}

pub node_at-InSync : (i : ℕ) → InSync craq 3 i (pos 4) (node_at i)
node_at-InSync i = record {
  index = refl;
  size = refl;
  in_mode = refl;
  latest = refl;
  clean = refl;
  successors = λ h. (successor_channel, refl, refl, omega arith);
  tails = λ h. (tail_channel, refl, refl, omega arith);
}

abbrev pub behind : Downstream
behind = node_at 1 ∷ node_at 2 ∷ []

IsChain-in_step : IsChain craq 3 (pos 4) (node_at 0) behind
IsChain-in_step = (omega arith, (node_at-InSync 0, (node_at-InSync 1, (node_at-InSync 2, refl))))

handle_write-Committed_example :
    (head' : CraqProtoServer) × (rest' : Downstream) × (handle_write
        (hops 3)
        (object_of 9)
        (node_at 0)
        behind
      ≡ done head' rest' (pos 5))
    × Committed craq 3 (pos 5) (object_of 9) head' rest'
handle_write-Committed_example =
    handle_write-Committed craq 3 3 (pos 4) (object_of 9) (node_at 0) behind (omega arith)
      (omega arith) IsChain-in_step

handle_test_and_set_rejects_example :
    handle_test_and_set (hops 3) (object_of 9) (pos 3) (node_at 0) behind
    ≡ done (node_at 0) behind no_version
handle_test_and_set_rejects_example =
    handle_test_and_set_rejects craq 3 3 (pos 4) (pos 3) (object_of 9) (node_at 0) behind
      IsChain-in_step (λ e. ground arith) (λ e. ground arith)

handle_test_and_set-Committed_example :
    (head' : CraqProtoServer) × (rest' : Downstream) × (handle_test_and_set
        (hops 3)
        (object_of 9)
        (pos 4)
        (node_at 0)
        behind
      ≡ done head' rest' (pos 5))
    × Committed craq 3 (pos 5) (object_of 9) head' rest'
handle_test_and_set-Committed_example =
    handle_test_and_set-Committed craq 3 3 (pos 4) (object_of 9) (node_at 0) behind (omega arith)
      (omega arith) IsChain-in_step

middle-Holds : Holds (pos 4) (object_of 7) (node_at 1)
unfolding lookup
middle-Holds = refl

write_then_read_example :
    (head' : CraqProtoServer) × (rest' : Downstream) × (handle_write
        (hops 3)
        (object_of 9)
        (node_at 0)
        behind
      ≡ done head' rest' (pos 5))
    × All (Reads (hops 1) [] (pos 2) (object_of 9)) (head' ∷ rest')
write_then_read_example =
    write_then_read 3 3 (pos 4) (pos 2) (object_of 9) (node_at 0) behind (hops 1) [] (omega arith)
      (omega arith) (omega arith) (omega arith) IsChain-in_step

debug_read_fails_example :
    handle_read (hops 1) debug (pos 2) (node_at 1) [] ≢ done (node_at 1) [] (object_of 7)
debug_read_fails_example =
    debug_read_fails (hops 1) (pos 2) (node_at 1) (node_at 1) [] [] (object_of 7) refl refl

abbrev refusing : Remote ℕ
refusing = record {
  write_versioned = λ obj version w. (refusal (transport "gone"), suc w);
  version_query = λ w. (refusal (transport "gone"), suc w);
}

abbrev pub answering : Remote ℕ
answering = record {
  write_versioned = λ obj version w. (answer tt, suc w);
  version_query = λ w. (answer (pos 4), suc w);
}

abbrev later : List (Remote ℕ × CraqObject)
later = (answering, object_of 8) ∷ (refusing, object_of 7) ∷ []

handle_write-after_refusal_example :
    (s' : CraqProtoServer) × (handle_write refusing (object_of 9) (node_at 0) 0
      ≡ failed s' 1 (transport "gone"))
    × AllPanic later s' 1
handle_write-after_refusal_example =
    handle_write-after_refusal refusing successor_channel (object_of 9) later (transport "gone")
      (node_at 0) 0 1 (refl, refl, refl, refl) refl refl

client_read-client_write_example :
    let a = client_write (hops 3) (1 ∷ 2 ∷ []) (node_at 0) behind in
    (a.result ≡ ok (pos 5))
    × All (ReadsValue (hops 1) [] eventual (pos 2) (1 ∷ 2 ∷ [])) (a.server ∷ a.others)
client_read-client_write_example =
    client_read-client_write 3 3 (pos 4) (pos 2) (1 ∷ 2 ∷ []) eventual (node_at 0) behind (hops 1)
      [] (omega arith) (omega arith) (omega arith) (omega arith) (inr (inl refl)) IsChain-in_step
