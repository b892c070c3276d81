-- ===== src/Craq/Replication/Reads.antt =====
-- artillery-ddata/src/craq: what a read returns on a chain whose nodes are in step.
use Prim.Native.String.{String}
use artillery.Base.{
  ℕ, suc, ◌<◌, ◌≡◌, refl, ap, ◌∙◌, ◌⊎◌, inl, inr, true, false, not, ◌&&◌, List, [], ◌∷◌, some,
  arith, Bool-cases,
}
use artillery.Base.Int.{
  ℤ, pos, ◌≤ℤ◌, ltb_ℤ, i64_max, saturating_sub_self, min_ℤ_zero, saturating_add_zero,
}
use artillery.Base.Dict.{lookup, int_eq}
use artillery.Craq.Chain.{is_tail}
use artillery.Craq.Server.{
  CraqObject, CraqProtoServer, CrMode, craq, is_cr, Remote, done, is_connected, copy_object, strong,
  eventual, eventual_max_bounded,
}
use artillery.Craq.Server.Reads.{
  handle_read, bounded_version, or_error, object_at, copied, is_empty,
}
use artillery.Craq.Replication.Node.{InSync, Holds}
use artillery.Craq.Replication.Head.{is_connected_of}

-- The node may answer reads: in the mode `Cr` the tail alone may.
abbrev pub MayRead : CrMode → ℕ → ℕ → Type 0
MayRead mode n i = (mode ≡ craq) ⊎ (suc i ≡ n)

pub nonempty_of_lookup :
    (v : ℤ) (obj : CraqObject) (m : List (ℤ × CraqObject))
    → lookup v m ≡ some obj
    → is_empty m ≡ false
unfolding lookup
nonempty_of_lookup v obj [] e = cc
nonempty_of_lookup v obj (x ∷ m) e = refl

is_tail_of :
    (mode : CrMode) (n i : ℕ) (v : ℤ) (s : CraqProtoServer)
    → InSync mode n i v s
    → suc i ≡ n
    → is_tail s.chain_ref ≡ true
is_tail_of mode n i v s y e = ground (arith, y.index, y.size)

before_tail_of :
    (mode : CrMode) (n i : ℕ) (v : ℤ) (s : CraqProtoServer)
    → InSync mode n i v s
    → i < n
    → is_tail s.chain_ref ≡ false
    → suc i < n
before_tail_of mode n i v s y lt e = ground (arith, y.index, y.size)

pub passes_connected :
    (mode : CrMode) (n i : ℕ) (v : ℤ) (s : CraqProtoServer)
    → InSync mode n i v s
    → i < n
    → (not (is_tail s.chain_ref) && not (is_connected s)) ≡ false
passes_connected mode n i v s y lt = elim (Bool-cases (is_tail s.chain_ref)) [
  | inl tail ↦ rw tail
  | inr more ↦ rw (more, is_connected_of mode n i v s y (before_tail_of mode n i v s y lt more))
]

passes_mode :
    (mode : CrMode) (n i : ℕ) (v : ℤ) (s : CraqProtoServer)
    → InSync mode n i v s
    → MayRead mode n i
    → (is_cr s.cr_mode && not (is_tail s.chain_ref)) ≡ false
passes_mode mode n i v s y (inl e) = let m : s.cr_mode ≡ craq = y.in_mode ∙ e in ground arith
passes_mode mode n i v s y (inr e) = let t = is_tail_of mode n i v s y e in ground (arith, t)

-- A version is within the range of an `i64` and is no negative number.
abbrev pub IsVersion : ℤ → Type 0
IsVersion v = (pos 0 ≤ℤ v) × (v ≤ℤ i64_max)

copied_found :
    {W : Type 0} (k : ℤ) (reason : String) (obj : CraqObject) (s : CraqProtoServer) (w : W)
    → lookup k s.objects ≡ some obj
    → copied (or_error (object_at k s) reason) false s w ≡ done s w (copy_object obj false)
copied_found k reason obj s w e = ground (arith, e)

bounded_version_in_sync :
    (v bound : ℤ) (s : CraqProtoServer)
    → s.latest_version ≡ v
    → s.latest_clean_version ≡ v
    → IsVersion v
    → pos 0 ≤ℤ bound
    → bounded_version bound s ≡ v
bounded_version_in_sync v bound s latest clean x b =
    rw (latest, clean)
      (rw (saturating_sub_self v, min_ℤ_zero bound b) (saturating_add_zero v x.0 x.1))

-- On a node that is in step at a version and holds its object, a strong, an eventual and a bounded
-- read, the last with a bound that is not negative, all return the object, marked as clean, and
-- change nothing, provided that the version is not negative and the node may answer reads.
pub handle_read-InSync :
    {W : Type 0} (r : Remote W) (mode : CrMode) (n i : ℕ) (v bound : ℤ) (obj : CraqObject)
    (s : CraqProtoServer) (w : W)
    → InSync mode n i v s
    → MayRead mode n i
    → i < n
    → IsVersion v
    → pos 0 ≤ℤ bound
    → Holds v obj s
    → (handle_read r strong bound s w ≡ done s w (copy_object obj false))
      × (handle_read r eventual bound s w ≡ done s w (copy_object obj false))
      × (handle_read r eventual_max_bounded bound s w ≡ done s w (copy_object obj false))
unfolding handle_read
handle_read-InSync r mode n i v bound obj s w y may lt version bounded holds =
    let stored = nonempty_of_lookup v obj s.objects holds in
    let connected = passes_connected mode n i v s y lt in
    let allowed = passes_mode mode n i v s y may in
    let caught_up : ltb_ℤ s.latest_clean_version s.latest_version ≡ false =
      ground (arith, y.latest, y.clean) in
    let valid : ltb_ℤ s.latest_clean_version (pos 0) ≡ false = ground (arith, y.clean, version.0) in
    let latest = ap (λ k. lookup k s.objects) y.latest ∙ holds in
    let clean = ap (λ k. lookup k s.objects) y.clean ∙ holds in
    let at_bound =
      ap (λ k. lookup k s.objects)
        (bounded_version_in_sync v bound s y.latest y.clean version bounded)
      ∙ holds in
    (
      rw (connected, allowed, stored)
          (rw (caught_up, valid)
            (elim (Bool-cases (is_tail s.chain_ref)) [
              | inl tail ↦ rw tail (copied_found s.latest_version _ obj s w latest)
              | inr more ↦ rw more (copied_found s.latest_clean_version _ obj s w clean)
            ])),
      rw (connected, allowed, stored) (copied_found s.latest_version _ obj s w latest),
      rw (connected, allowed, stored) (copied_found (bounded_version bound s) _ obj s w at_bound),
    )
