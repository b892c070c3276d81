-- ===== src/Craq/Interleaving.antt =====
-- artillery-ddata/src/craq/server.rs, `write`: several writes at one head, whose threads interleave.
-- The server is shared by the worker threads of `TServer`. A step is what no other thread can get
-- between: an operation on an atomic number, on the locked map or on a channel, or a remote call.
-- The number of a thread in the list `writers` is its name, and a schedule is a list of such names.
pub mod Order
pub mod Versions
pub mod CleanVersion
use artillery.Base.{ℕ, zero, suc, Bool, List, [], ◌∷◌, Option, none, some, if◌then◌else◌}
use artillery.Base.Int.{ℤ, ltb_ℤ, next_i64}
use artillery.Craq.Chain.{ThriftError}
use artillery.Craq.Server.{
  CraqObject, CraqProtoServer, Channel, Reply, answer, refusal, Remote, idle, set_idle,
  store_object, remove_old_versions,
}

-- Where a write stands, behind its checks: it has a version; its object is stored; it holds a
-- connection; the successor has answered; the connection is back; the clean version is loaded; the
-- clean version is stored. It ends with its version, with the error of the successor, or in a panic;
-- the version that it was given stands in its state in any case.
pub data Pc : Type 0 where
  checked : Pc
  numbered recorded connected answered returned : ℤ → Pc
  loaded updated : ℤ → ℤ → Pc
  finished : ℤ → Pc
  refused : ℤ → ThriftError → Pc
  crashed : ℤ → Pc

abbrev pub take_connection : Channel → ℤ → ℕ → CraqProtoServer → Pc × CraqProtoServer
take_connection c v zero s = (crashed v, s)
take_connection c v (suc n) s = (connected v, set_idle c n s)

-- `unwrap` of both ends, then `try_recv().unwrap()`.
abbrev pub connect_pool :
    ℤ → Option Channel → Option Channel → CraqProtoServer → Pc × CraqProtoServer
connect_pool v none tx s = (crashed v, s)
connect_pool v (some c) none s = (crashed v, s)
connect_pool v (some c) (some d) s = take_connection c v (idle c s) s

abbrev pub return_connection : ℤ → Option Channel → CraqProtoServer → Pc × CraqProtoServer
return_connection v none s = (crashed v, s)
return_connection v (some c) s = (returned v, set_idle c (suc (idle c s)) s)

abbrev pub replied : ℤ → Reply (Unit {0}) → Pc
replied v (answer _) = answered v
replied v (refusal e) = refused v e

-- One step of a write of `obj`.
unfoldable pub micro :
    {W : Type 0} → Remote W → CraqObject → Pc → CraqProtoServer → W → (Pc × CraqProtoServer) × W
micro r obj checked s w =
    let v = next_i64 s.latest_version in ((numbered v, record s { latest_version = v }), w)
micro r obj (numbered v) s w = ((recorded v, store_object v obj s), w)
micro r obj (recorded v) s w = (connect_pool v s.sp_rx s.sp_tx s, w)
micro r obj (connected v) s w =
    let reply = r.write_versioned obj v w in ((replied v reply.0, s), reply.1)
micro r obj (answered v) s w = (return_connection v s.sp_tx s, w)
micro r obj (returned v) s w = ((loaded v s.latest_clean_version, s), w)
micro r obj (loaded v clean) s w =
    if ltb_ℤ clean v
    then ((updated v v, record s { latest_clean_version = v }), w)
    else ((updated v clean, s), w)
micro r obj (updated v old_clean_ver) s w =
    if ltb_ℤ old_clean_ver v
    then ((finished v, remove_old_versions s.latest_clean_version s), w)
    else ((finished v, s), w)
micro r obj (finished v) s w = ((finished v, s), w)
micro r obj (refused v e) s w = ((refused v e, s), w)
micro r obj (crashed v) s w = ((crashed v, s), w)

pub record Writer : Type 0 where
  pub object : CraqObject
  pub pc : Pc

-- The head, the nodes behind it, and the writes that go on.
pub record System (W : Type 0) : Type 0 where
  pub server : CraqProtoServer
  pub others : W
  pub writers : List Writer

-- A step of the `i`-th of the writes; a name without a write does nothing.
unfoldable pub step_list :
    {W : Type 0}
    → Remote W
    → ℕ
    → CraqProtoServer
    → W
    → List Writer
    → (CraqProtoServer × W) × List Writer
unfolding micro
step_list r i s w [] = ((s, w), [])
step_list r zero s w (x ∷ xs) =
    let ((pc, s'), w') = micro r x.object x.pc s w in ((s', w'), record x { pc = pc } ∷ xs)
step_list r (suc i) s w (x ∷ xs) = let (after, xs') = step_list r i s w xs in (after, x ∷ xs')

unfoldable pub step : {W : Type 0} → Remote W → ℕ → System W → System W
unfolding step_list
step r i y =
    let ((s, w), xs) = step_list r i y.server y.others y.writers in
    record { server = s; others = w; writers = xs }

unfoldable pub run : {W : Type 0} → Remote W → List ℕ → System W → System W
unfolding step
run r [] y = y
run r (i ∷ schedule) y = run r schedule (step r i y)
