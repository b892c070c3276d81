-- ===== src/Craq/Client/RoundTrip.antt =====
-- artillery-ddata/src/craq/client.rs: a client's reads after a client's write.
use artillery.Base.{ℕ, ◌≤◌, ◌≡◌, refl, List, [], ◌∷◌, false, All, ◌⊎◌, inl, inr}
use artillery.Base.Int.{ℤ, pos, ◌<ℤ◌, ◌≤ℤ◌, i64_max, next_i64}
use artillery.Craq.Chain.{ok}
use artillery.Craq.Server.{
  CraqProtoServer, CraqConsistencyModel, strong, eventual, eventual_max_bounded, craq, Remote,
  no_version, done, copy_object,
}
use artillery.Craq.Server.Reads.{handle_read}
use artillery.Craq.Replication.{Downstream, hops}
use artillery.Craq.Replication.Head.{IsChain}
use artillery.Craq.Replication.Consistency.{Reads, write_then_read}
use artillery.Craq.Client.{object_with, client_write, client_read}

-- Any model but `Debug`.
abbrev pub IsServed : CraqConsistencyModel → Type 0
IsServed model = (model ≡ strong) ⊎ ((model ≡ eventual) ⊎ (model ≡ eventual_max_bounded))

-- A client that reads from the server gets the value, as a clean one.
abbrev pub ReadsValue :
    Remote Downstream → Downstream → CraqConsistencyModel → ℤ → List ℕ → CraqProtoServer → Type 0
ReadsValue r others model bound value s =
    (client_read r model bound s others).result ≡ ok (record { value = value; dirty = false })

client_read-done :
    (r : Remote Downstream) (others : Downstream) (model : CraqConsistencyModel) (bound : ℤ)
    (value : List ℕ) (s : CraqProtoServer)
    → handle_read r model bound s others ≡ done s others (copy_object (object_with value) false)
    → ReadsValue r others model bound value s
unfolding client_read
client_read-done r others model bound value s e = rw e refl

ReadsValue-Reads :
    (r : Remote Downstream) (others : Downstream) (model : CraqConsistencyModel) (bound : ℤ)
    (value : List ℕ) (ss : List CraqProtoServer)
    → IsServed model
    → All (Reads r others bound (object_with value)) ss
    → All (ReadsValue r others model bound value) ss
ReadsValue-Reads r others model bound value [] m h = tt
ReadsValue-Reads r others model bound value (s ∷ ss) m h = (
  elim m [
    | inl e ↦ client_read-done r others model bound value s (rw e (h.0.0))
    | inr (inl e) ↦ client_read-done r others model bound value s (rw e (h.0.1))
    | inr (inr e) ↦ client_read-done r others model bound value s (rw e (h.0.2))
  ],
  ReadsValue-Reads r others model bound value ss m h.1,
)

-- On a chain of at least two nodes in the mode `Craq` that are in step at a version from -1 to
-- below the top of the `i64`s, with as many hops allowed as there are nodes, a client that writes
-- bytes at the head is answered with the next version, and a client that then reads from any node,
-- under any model but `Debug` and with a bound that is not negative, gets the same bytes, marked as
-- clean.
pub client_read-client_write :
    (n k : ℕ) (v bound : ℤ) (value : List ℕ) (model : CraqConsistencyModel) (head : CraqProtoServer)
    (rest : Downstream) (r : Remote Downstream) (others : Downstream)
    → no_version ≤ℤ v
    → v <ℤ i64_max
    → n ≤ k
    → pos 0 ≤ℤ bound
    → IsServed model
    → IsChain craq n v head rest
    → let a = client_write (hops k) value head rest in
      (a.result ≡ ok (next_i64 v))
      × All (ReadsValue r others model bound value) (a.server ∷ a.others)
unfolding client_write
client_read-client_write n k v bound value model head rest r others low top room b m chain =
    let (head', rest', e, reads) =
      write_then_read n k v bound (object_with value) head rest r others low top room b chain in
    rw e (refl, ReadsValue-Reads r others model bound value (head' ∷ rest') m reads)
