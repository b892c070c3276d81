-- ===== src/Craq/Client.antt =====
-- artillery-ddata/src/craq/client.rs: the client of a server. A call of the client runs the server's
-- handler; a handler that panics closes the connection. `connect` opens the first address that the
-- name of the server resolves to.
pub mod RoundTrip
use artillery.Base.{ℕ, Bool, List, [], ◌∷◌, Option, none, some}
use artillery.Member.{SocketAddr}
use artillery.Base.Int.{ℤ}
use artillery.Craq.Chain.{
  CraqError, transport, Result, ok, err, protocol_error, read_error, socket_addr_error,
}
use artillery.Craq.Server.{
  CraqObject, default_object, CraqConsistencyModel, CraqProtoServer, Remote, Outcome, done, failed,
  panicked,
}
use artillery.Craq.Server.Writes.{handle_write, handle_test_and_set}
use artillery.Craq.Server.Reads.{handle_read}

pub record ReadObject : Type 0 where
  pub value : List ℕ
  pub dirty : Bool

-- `DDataCraqClient`, which goes by the address that it is connected to.
pub record DDataCraqClient : Type 0 where
  pub host : SocketAddr

-- The outcome of opening a connection to an address, none where it succeeds.
abbrev opened : SocketAddr → Option CraqError → Result DDataCraqClient
opened host none = ok (record { host = host })
opened host (some e) = err e

-- The addresses that `to_socket_addrs` resolves, or its error; only the first of them is tried. A
-- server connects to another, `connect_to_server` of node.rs, in the same way.
unfoldable pub connect :
    (SocketAddr → Option CraqError) → Result (List SocketAddr) → Result DDataCraqClient
connect dial (err e) = err e
connect dial (ok []) = err (socket_addr_error "No node address given or parsed.")
connect dial (ok (host ∷ _)) = opened host (dial host)

-- What the client gets, and what the server and the nodes behind it become.
pub record Answer (W : Type 0) (A : Type 0) : Type 0 where
  pub result : Result A
  pub server : CraqProtoServer
  pub others : W

abbrev pub answer_of : {W A : Type 0} → Outcome W A → Answer W A
answer_of (done s w a) = record { result = ok a; server = s; others = w }
answer_of (failed s w e) = record { result = err (protocol_error e); server = s; others = w }
answer_of (panicked s w) = record {
  result = err (protocol_error (transport "connection closed"));
  server = s;
  others = w;
}

-- The object that carries a client's bytes.
abbrev pub object_with : List ℕ → CraqObject
object_with value = record default_object { value = some value }

unfoldable pub client_write : {W : Type 0} → Remote W → List ℕ → CraqProtoServer → W → Answer W ℤ
client_write r value s w = answer_of (handle_write r (object_with value) s w)

abbrev pub read_object : Option (List ℕ) → Option Bool → Result ReadObject
read_object none dirty = err (read_error "Read request failed")
read_object (some v) none = err (read_error "Read request failed")
read_object (some v) (some d) = ok (record { value = v; dirty = d })

abbrev pub object_read : Result CraqObject → Result ReadObject
object_read (ok obj) = read_object obj.value obj.dirty
object_read (err e) = err e

unfoldable pub client_read :
    {W : Type 0} → Remote W → CraqConsistencyModel → ℤ → CraqProtoServer → W → Answer W ReadObject
client_read r model version_bound s w =
    let a = answer_of (handle_read r model version_bound s w) in
    record { result = object_read a.result; server = a.server; others = a.others }

unfoldable pub client_test_and_set :
    {W : Type 0} → Remote W → List ℕ → ℤ → CraqProtoServer → W → Answer W ℤ
client_test_and_set r value expected_version s w =
    answer_of (handle_test_and_set r (object_with value) expected_version s w)
