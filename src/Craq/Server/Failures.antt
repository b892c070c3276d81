-- ===== src/Craq/Server/Failures.antt =====
-- artillery-ddata/src/craq/server.rs: what is left of a node when the node behind it fails.
use artillery.Base.{◌≡◌, refl, true, some, arith, List, [], ◌∷◌}
use artillery.Base.Int.{ℤ, next_i64}
use artillery.Craq.Chain.{ThriftError, is_head}
use artillery.Craq.Server.{
  CraqObject, CraqProtoServer, Channel, tail_channel, successor_channel, refusal, Remote, failed,
  panicked, M, ◌>>=◌, is_connected, idle, set_idle, send_down, store_object,
}
use artillery.Craq.Server.Writes.{accept_write, handle_write}

-- The pool of the successor holds its one connection.
abbrev pub HasOneConnection : Channel → CraqProtoServer → Type 0
HasOneConnection c s =
    (s.sp_rx ≡ some c) × (s.sp_tx ≡ some c) × (idle c s ≡ 1) × (is_connected s ≡ true)

-- The head after a write that its successor refuses: the version is used up and dirty, and the
-- connection is not put back.
unfoldable pub refused : Channel → CraqObject → CraqProtoServer → CraqProtoServer
refused c obj s =
    let version = next_i64 s.latest_version in
    set_idle c 0 (store_object version obj (record s { latest_version = version }))

pub bind_failed :
    {W A B : Type 0} (m : M W A) (f : A → M W B) {s s' : CraqProtoServer} {w w' : W}
    {e : ThriftError}
    → m s w ≡ failed s' w' e
    → (m >>= f) s w ≡ failed s' w' e
bind_failed m f h = rw (h, ◌>>=◌)

bind_panicked :
    {W A B : Type 0} (m : M W A) (f : A → M W B) {s s' : CraqProtoServer} {w w' : W}
    → m s w ≡ panicked s' w'
    → (m >>= f) s w ≡ panicked s' w'
bind_panicked m f h = rw (h, ◌>>=◌)

send_down_refused :
    {W : Type 0} (r : Remote W) (c : Channel) (obj : CraqObject) (version : ℤ) (e : ThriftError)
    (s : CraqProtoServer) (w w' : W)
    → (s.sp_rx ≡ some c) × (s.sp_tx ≡ some c) × (idle c s ≡ 1)
    → r.write_versioned obj version w ≡ (refusal e, w')
    → send_down r obj version s w ≡ failed (set_idle c 0 s) w' e
unfolding send_down
send_down_refused r tail_channel obj version e s w w' (rx, tx, one) refusing = ground arith
send_down_refused r successor_channel obj version e s w w' (rx, tx, one) refusing = ground arith

send_down_empty :
    {W : Type 0} (r : Remote W) (c : Channel) (obj : CraqObject) (version : ℤ) (s : CraqProtoServer)
    (w : W)
    → (s.sp_rx ≡ some c) × (s.sp_tx ≡ some c) × (idle c s ≡ 0)
    → send_down r obj version s w ≡ panicked s w
unfolding send_down
send_down_empty r tail_channel obj version s w (rx, tx, empty) = ground arith
send_down_empty r successor_channel obj version s w (rx, tx, empty) = ground arith

-- A write that has passed the checks, up to the call down the chain.
abbrev recorded_as : CraqObject → CraqProtoServer → CraqProtoServer
recorded_as obj s =
    let version = next_i64 s.latest_version in
    store_object version obj (record s { latest_version = version })

handle_write-refused :
    {W : Type 0} (r : Remote W) (c : Channel) (obj : CraqObject) (e : ThriftError)
    (s : CraqProtoServer) (w w' : W)
    → HasOneConnection c s
    → is_head s.chain_ref ≡ true
    → r.write_versioned obj (next_i64 s.latest_version) w ≡ (refusal e, w')
    → handle_write r obj s w ≡ failed (refused c obj s) w' e
unfolding handle_write accept_write refused
handle_write-refused r tail_channel obj e s w w' (rx, tx, one, ready) head refusing =
    rw (ready, head)
      (bind_failed (send_down r obj (next_i64 s.latest_version)) _ (
        send_down_refused r tail_channel obj (next_i64 s.latest_version) e (recorded_as obj s) w w'
          (rx, tx, one) refusing))
handle_write-refused r successor_channel obj e s w w' (rx, tx, one, ready) head refusing =
    rw (ready, head)
      (bind_failed (send_down r obj (next_i64 s.latest_version)) _ (
        send_down_refused r successor_channel obj (next_i64 s.latest_version) e (recorded_as obj s)
          w w' (rx, tx, one) refusing))

empty_pool_panics :
    {W : Type 0} (r : Remote W) (c : Channel) (obj : CraqObject) (s : CraqProtoServer) (w : W)
    → (s.sp_rx ≡ some c) × (s.sp_tx ≡ some c) × (idle c s ≡ 0) × (is_connected s ≡ true)
    → is_head s.chain_ref ≡ true
    → handle_write r obj s w ≡ panicked (recorded_as obj s) w
unfolding handle_write accept_write
empty_pool_panics r tail_channel obj s w (rx, tx, empty, ready) head =
    rw (ready, head)
      (bind_panicked (send_down r obj (next_i64 s.latest_version)) _ (
        send_down_empty r tail_channel obj (next_i64 s.latest_version) (recorded_as obj s) w
          (rx, tx, empty)))
empty_pool_panics r successor_channel obj s w (rx, tx, empty, ready) head =
    rw (ready, head)
      (bind_panicked (send_down r obj (next_i64 s.latest_version)) _ (
        send_down_empty r successor_channel obj (next_i64 s.latest_version) (recorded_as obj s) w
          (rx, tx, empty)))

-- The pool of the channel is empty.
abbrev HasNoConnection : Channel → CraqProtoServer → Type 0
HasNoConnection c s =
    (s.sp_rx ≡ some c) × (s.sp_tx ≡ some c) × (idle c s ≡ 0) × (is_connected s ≡ true)

-- Each of the writes, one after the other, panics.
abbrev pub AllPanic : {W : Type 0} → List (Remote W × CraqObject) → CraqProtoServer → W → Type 0
AllPanic [] s w = Unit
AllPanic ((r, obj) ∷ writes) s w =
    (t : CraqProtoServer) × (handle_write r obj s w ≡ panicked t w) × AllPanic writes t w

recorded-HasNoConnection :
    (c : Channel) (obj : CraqObject) (s : CraqProtoServer)
    → HasNoConnection c s
    → HasNoConnection c (recorded_as obj s)
recorded-HasNoConnection tail_channel obj s h = h
recorded-HasNoConnection successor_channel obj s h = h

empty_pool-AllPanic :
    {W : Type 0} (c : Channel) (writes : List (Remote W × CraqObject)) (s : CraqProtoServer) (w : W)
    → HasNoConnection c s
    → is_head s.chain_ref ≡ true
    → AllPanic writes s w
empty_pool-AllPanic c [] s w empty head = tt
empty_pool-AllPanic c ((r, obj) ∷ writes) s w empty head = (
  recorded_as obj s,
  empty_pool_panics r c obj s w empty head,
  empty_pool-AllPanic c writes (recorded_as obj s) w (recorded-HasNoConnection c obj s empty) head,
)

refused-HasNoConnection :
    (c : Channel) (obj : CraqObject) (s : CraqProtoServer)
    → HasOneConnection c s
    → HasNoConnection c (refused c obj s)
unfolding refused
refused-HasNoConnection tail_channel obj s (rx, tx, one, ready) = (rx, tx, refl, ready)
refused-HasNoConnection successor_channel obj s (rx, tx, one, ready) = (rx, tx, refl, ready)

refused-is_head :
    (c : Channel) (obj : CraqObject) (s : CraqProtoServer)
    → is_head s.chain_ref ≡ true
    → is_head (refused c obj s).chain_ref ≡ true
unfolding refused
refused-is_head tail_channel obj s h = h
refused-is_head successor_channel obj s h = h

-- One refusal ends all writing: on a head whose pool holds its one connection, a write that the
-- successor refuses fails with the successor's error, and every one of any number of later writes, of
-- any objects and however the successor would answer them, panics.
pub handle_write-after_refusal :
    {W : Type 0} (r : Remote W) (c : Channel) (obj : CraqObject)
    (later : List (Remote W × CraqObject)) (e : ThriftError) (s : CraqProtoServer) (w w' : W)
    → HasOneConnection c s
    → is_head s.chain_ref ≡ true
    → r.write_versioned obj (next_i64 s.latest_version) w ≡ (refusal e, w')
    → (s' : CraqProtoServer) × (handle_write r obj s w ≡ failed s' w' e) × AllPanic later s' w'
handle_write-after_refusal r c obj later e s w w' pool head refusing = (
  refused c obj s,
  handle_write-refused r c obj e s w w' pool head refusing,
  empty_pool-AllPanic c later (refused c obj s) w' (refused-HasNoConnection c obj s pool)
      (refused-is_head c obj s head),
)
