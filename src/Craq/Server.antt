-- ===== src/Craq/Server.antt =====
-- artillery-ddata/src/craq/server.rs: the protocol server of one node, `CraqProtoServer`.
-- A handler runs to its end before the next starts. Its remote calls go through `Remote`: the
-- transport and the other nodes, with a state of their own. An error or a panic keeps what the
-- handler has changed so far, since the server outlives it.
pub mod Writes
pub mod Reads
pub mod Faults
pub mod Failures
use Prim.Native.String.{String}
use artillery.Base.{
  ℕ, zero, suc, Bool, true, false, not, ◌&&◌, ◌||◌, List, [], ◌∷◌, Option, none, some, retain,
  if◌then◌else◌, is_some,
}
use artillery.Base.Int.{
  ℤ, pos, negsuc, ltb_ℤ, leb_ℤ, eqb_ℤ, min_ℤ, saturating_add, saturating_sub, next_i64,
}
use artillery.Base.Dict.{lookup, insert, int_eq}
use artillery.Craq.Chain.{ThriftError, invalid_state, CraqChain, is_head, is_tail}

-- The binary value is a list of bytes.
pub record CraqObject : Type 0 where
  pub value : Option (List ℕ)
  pub dirty : Option Bool

abbrev pub default_object : CraqObject
default_object = record { value = some []; dirty = some false }

pub data CraqConsistencyModel : Type 0 where
  strong eventual eventual_max_bounded debug : CraqConsistencyModel

pub data CrMode : Type 0 where
  cr craq : CrMode

abbrev pub is_cr : CrMode → Bool
is_cr cr = true
is_cr craq = false

-- The two channels of connections. The node before the tail uses one channel for both pools.
pub data Channel : Type 0 where
  tail_channel successor_channel : Channel

-- Of a channel only the number of idle connections in it matters.
pub record CraqProtoServer : Type 0 where
  pub tp_rx : Option Channel
  pub sp_rx : Option Channel
  pub tp_tx : Option Channel
  pub sp_tx : Option Channel
  pub tail_idle : ℕ
  pub successor_idle : ℕ
  pub chain_ref : CraqChain
  pub objects : List (ℤ × CraqObject)
  pub latest_version : ℤ
  pub latest_clean_version : ℤ
  pub cr_mode : CrMode

-- `!0`, which stands for no version.
abbrev pub no_version : ℤ
no_version = negsuc 0

pub data Reply {ℓ} (A : Type ℓ) : Type ℓ where
  answer : A → Reply A
  refusal : ThriftError → Reply A

-- What a server needs of the nodes that its connections lead to.
pub record Remote (W : Type 0) : Type 0 where
  pub write_versioned : CraqObject → ℤ → W → Reply (Unit {0}) × W
  pub version_query : W → Reply ℤ × W

pub data Outcome (W : Type 0) (A : Type 0) : Type 0 where
  done : CraqProtoServer → W → A → Outcome W A
  failed : CraqProtoServer → W → ThriftError → Outcome W A
  panicked : CraqProtoServer → W → Outcome W A

abbrev pub M : Type 0 → Type 0 → Type 0
M W A = CraqProtoServer → W → Outcome W A

infixl 5 ◌>>=◌ ◌>>◌
abbrev pub ◌>>=◌ : {W A B : Type 0} → M W A → (A → M W B) → M W B
◌>>=◌ m f s w = elim (m s w) [
  | done s' w' a ↦ f a s' w'
  | failed s' w' e ↦ failed s' w' e
  | panicked s' w' ↦ panicked s' w'
]

abbrev pub ◌>>◌ : {W B : Type 0} → M W (Unit {0}) → M W B → M W B
m >> k = m >>= λ _. k

abbrev pub pure : {W A : Type 0} → A → M W A
pure a s w = done s w a

abbrev pub state_error : {W A : Type 0} → String → M W A
state_error reason s w = failed s w (invalid_state reason)

abbrev pub modify : {W : Type 0} → (CraqProtoServer → CraqProtoServer) → M W (Unit {0})
modify f s w = done (f s) w tt

abbrev pub get : {W : Type 0} → M W CraqProtoServer
get s w = done s w s

abbrev pub panic : {W A : Type 0} → M W A
panic s w = panicked s w

-- `CraqProtoServer::new`.
abbrev pub new :
    Option Channel
    → Option Channel
    → Option Channel
    → Option Channel
    → ℕ
    → ℕ
    → CraqChain
    → CrMode
    → CraqProtoServer
new tp_rx tp_tx sp_rx sp_tx tail_idle successor_idle chain_ref cr_mode = record {
  tp_rx = tp_rx;
  sp_rx = sp_rx;
  tp_tx = tp_tx;
  sp_tx = sp_tx;
  tail_idle = tail_idle;
  successor_idle = successor_idle;
  chain_ref = chain_ref;
  objects = [];
  latest_version = no_version;
  latest_clean_version = no_version;
  cr_mode = cr_mode;
}

abbrev pub is_connected : CraqProtoServer → Bool
is_connected s = is_some s.tp_tx && (is_some s.tp_rx && (is_some s.sp_tx && is_some s.sp_rx))

abbrev pub copy_object : CraqObject → Bool → CraqObject
copy_object obj dirty = record obj { dirty = some dirty }

abbrev pub idle : Channel → CraqProtoServer → ℕ
idle tail_channel s = s.tail_idle
idle successor_channel s = s.successor_idle

abbrev pub set_idle : Channel → ℕ → CraqProtoServer → CraqProtoServer
set_idle tail_channel n s = record s { tail_idle = n }
set_idle successor_channel n s = record s { successor_idle = n }

abbrev take_from : {W : Type 0} → Channel → ℕ → M W (Unit {0})
take_from c zero = panic
take_from c (suc n) = modify (set_idle c n)

-- `try_recv().unwrap()` on a pool that may be missing.
abbrev pub try_recv : {W : Type 0} → Option Channel → M W (Unit {0})
try_recv none s w = panicked s w
try_recv (some c) s w = take_from c (idle c s) s w

-- `try_send` on an unbounded channel.
abbrev pub try_send : {W : Type 0} → Option Channel → M W (Unit {0})
try_send none s w = panicked s w
try_send (some c) s w = done (set_idle c (suc (idle c s)) s) w tt

-- A remote call: its error is the handler's.
abbrev pub call : {W A : Type 0} → (W → Reply A × W) → M W A
call f s w = let r = f w in elim (r.0) [ answer a ↦ done s (r.1) a | refusal e ↦ failed s (r.1) e ]

-- Both ends of the pool are unwrapped before a connection is taken.
abbrev pub unwrap_pool : {W : Type 0} → Option Channel → Option Channel → M W (Unit {0})
unwrap_pool none tx = panic
unwrap_pool (some rx) none = panic
unwrap_pool (some rx) (some tx) = pure tt

-- "Send down chain".
unfoldable pub send_down : {W : Type 0} → Remote W → CraqObject → ℤ → M W (Unit {0})
send_down r obj version = do
  s ← get
  unwrap_pool s.sp_rx s.sp_tx
  try_recv s.sp_rx
  call (r.write_versioned obj version)
  try_send s.sp_tx

abbrev pub remove_old_versions : ℤ → CraqProtoServer → CraqProtoServer
remove_old_versions latest_clean_ver s = record s {
  objects = retain (λ e. leb_ℤ latest_clean_ver e.0) s.objects;
}

-- The new clean version, stored where it is the greater one, and the value of `old_clean_ver`.
abbrev pub old_clean_ver : ℤ → CraqProtoServer → ℤ
old_clean_ver version s =
    if ltb_ℤ s.latest_clean_version version then version else s.latest_clean_version

abbrev pub mark_clean : ℤ → CraqProtoServer → CraqProtoServer
mark_clean version s = record s { latest_clean_version = old_clean_ver version s }

abbrev pub store_object : ℤ → CraqObject → CraqProtoServer → CraqProtoServer
store_object version obj s = record s { objects = insert version obj s.objects }
