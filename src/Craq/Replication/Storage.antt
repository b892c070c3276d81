-- ===== src/Craq/Replication/Storage.antt =====
-- artillery-ddata/src/craq/server.rs: how many objects a node stores in the course of versioned
-- writes.
use artillery.Base.{
  ◌+◌, ◌≤◌, ◌≡◌, refl, ap, ◌∙◌, true, false, List, [], ◌∷◌, ◌++◌, arith, All, All-append, length,
  length-append, retain, if◌then◌else◌,
}
use artillery.Base.Int.{ℤ, ◌<ℤ◌, ◌≤ℤ◌, ltb_ℤ, leb_ℤ, eqb_ℤ}
use artillery.Base.Dict.{insert, int_eq}
use artillery.Craq.Chain.{is_head, is_tail}
use artillery.Craq.Server.{
  CraqObject, CraqProtoServer, tail_channel, successor_channel, Remote, answer, done, M, ◌>>◌,
  modify, pure, send_down, store_object,
}
use artillery.Craq.Replication.Node.{IsPool, bind_done, send_down_answered}
use artillery.Craq.Server.Writes.{raise_latest, commit, handle_write_versioned}

-- Versioned writes, one after the other.
pub deliveries : {W : Type 0} → Remote W → List (ℤ × CraqObject) → M W (Unit {0})
deliveries r [] = pure tt
deliveries r ((version, obj) ∷ writes) = do
  handle_write_versioned r obj version
  deliveries r writes

-- The versions ascend from above `v`.
abbrev pub Ascends : ℤ → List (ℤ × CraqObject) → Type 0
Ascends v [] = Unit
Ascends v ((w, obj) ∷ writes) = (v <ℤ w) × Ascends w writes

abbrev pub UpTo : ℤ → List (ℤ × CraqObject) → Type 0
UpTo v = All (λ e. e.0 ≤ℤ v)

insert_fresh :
    (v w : ℤ) (obj : CraqObject) (m : List (ℤ × CraqObject))
    → v <ℤ w
    → UpTo v m
    → insert w obj m ≡ m ++ (w, obj) ∷ []
unfolding insert
insert_fresh v w obj [] lt h = refl
insert_fresh v w obj ((k, x) ∷ m) lt h =
    let other : eqb_ℤ k w ≡ false = ground (arith, h.0, lt) in
    rw other (ap (λ t. (k, x) ∷ t) (insert_fresh v w obj m lt h.1))

retain_fresh :
    (v w : ℤ) (obj : CraqObject) (m : List (ℤ × CraqObject))
    → v <ℤ w
    → UpTo v m
    → retain (λ e. leb_ℤ w e.0) (m ++ (w, obj) ∷ []) ≡ (w, obj) ∷ []
retain_fresh v w obj [] lt h = let kept : leb_ℤ w w ≡ true = ground arith in rw kept refl
retain_fresh v w obj ((k, x) ∷ m) lt h =
    let gone : leb_ℤ w k ≡ false = ground (arith, h.0, lt) in
    rw gone (retain_fresh v w obj m lt h.1)

-- What a versioned write that goes through makes of a node.
abbrev delivered : ℤ → CraqObject → CraqProtoServer → CraqProtoServer
delivered w obj s = commit w (raise_latest w (store_object w obj s))

tail_write :
    {W : Type 0} (r : Remote W) (w : ℤ) (obj : CraqObject) (s : CraqProtoServer) (others : W)
    → is_head s.chain_ref ≡ false
    → is_tail s.chain_ref ≡ true
    → handle_write_versioned r obj w s others ≡ done (delivered w obj s) others tt
unfolding handle_write_versioned
tail_write r w obj s others head tail = rw (head, tail) refl

stored_by_tail :
    (v w : ℤ) (obj : CraqObject) (s : CraqProtoServer)
    → is_tail s.chain_ref ≡ true
    → v <ℤ w
    → s.latest_clean_version ≤ℤ v
    → UpTo v s.objects
    → ((delivered w obj s).objects ≡ (w, obj) ∷ [])
      × ((delivered w obj s).latest_clean_version ≡ w)
      × ((delivered w obj s).chain_ref ≡ s.chain_ref)
unfolding commit raise_latest
stored_by_tail v w obj s tail lt clean up =
    let newer : ltb_ℤ s.latest_clean_version w ≡ true = ground (arith, lt, clean) in
    let same : ltb_ℤ w w ≡ false = ground arith in
    rw (newer, same, tail)
      (rw (insert_fresh v w obj s.objects lt up) (retain_fresh v w obj s.objects lt up), refl, refl)

-- The tail stores one object at most: where it does, and stores no version above the clean one that
-- the writes ascend from, it takes any number of versioned writes with ascending versions, and still
-- stores at most one object afterwards.
pub deliveries-tail :
    {W : Type 0} (r : Remote W) (v : ℤ) (writes : List (ℤ × CraqObject)) (s : CraqProtoServer)
    (others : W)
    → is_head s.chain_ref ≡ false
    → is_tail s.chain_ref ≡ true
    → s.latest_clean_version ≤ℤ v
    → UpTo v s.objects
    → Ascends v writes
    → length s.objects ≤ 1
    → (s' : CraqProtoServer) × (deliveries r writes s others ≡ done s' others tt)
      × (length s'.objects ≤ 1)
unfolding deliveries
deliveries-tail r v [] s others head tail clean up ascends few = (s, refl, few)
deliveries-tail r v ((w, obj) ∷ writes) s others head tail clean up ascends few =
    let (one, marked, same) = stored_by_tail v w obj s tail ascends.0 clean up in
    let (s', e, few') =
      deliveries-tail r w writes (delivered w obj s) others (ap is_head same ∙ head)
        (ap is_tail same ∙ tail) (rw marked (omega arith)) (rw one (omega arith, tt)) ascends.1
        (rw one (omega arith)) in
    (
      s',
      bind_done (handle_write_versioned r obj w) (λ _. deliveries r writes)
            (tail_write r w obj s others head tail)
          ∙ e,
      few',
    )

stored_by_middle :
    (v w : ℤ) (obj : CraqObject) (s : CraqProtoServer)
    → is_tail s.chain_ref ≡ false
    → v <ℤ w
    → s.latest_clean_version ≤ℤ v
    → UpTo v s.objects
    → (delivered w obj s ≡ record s {
      objects = s.objects ++ (w, obj) ∷ [];
      latest_version = if ltb_ℤ s.latest_version w then w else s.latest_version;
      latest_clean_version = w;
    })
unfolding commit raise_latest
stored_by_middle v w obj s inner lt clean up =
    let newer : ltb_ℤ s.latest_clean_version w ≡ true = ground (arith, lt, clean) in
    let same : ltb_ℤ w w ≡ false = ground arith in
    rw (newer, same, inner) (rw (insert_fresh v w obj s.objects lt up) refl)

-- The nodes behind accept every write.
abbrev pub Accepts : {W : Type 0} → Remote W → Type 0
Accepts {W = W} r =
    (obj : CraqObject) (version : ℤ) (others : W)
    → (others' : W) × (r.write_versioned obj version others ≡ (answer tt, others'))

UpTo-mono : (v w : ℤ) (m : List (ℤ × CraqObject)) → v ≤ℤ w → UpTo v m → UpTo w m
UpTo-mono v w [] le h = tt
UpTo-mono v w (e ∷ m) le h = (omega (arith, le, h.0), UpTo-mono v w m le h.1)

middle_write :
    {W : Type 0} (r : Remote W) (w : ℤ) (obj : CraqObject) (s : CraqProtoServer)
    (others others' : W)
    → is_head s.chain_ref ≡ false
    → is_tail s.chain_ref ≡ false
    → IsPool s s.sp_rx s.sp_tx
    → r.write_versioned obj w others ≡ (answer tt, others')
    → handle_write_versioned r obj w s others ≡ done (delivered w obj s) others' tt
unfolding handle_write_versioned raise_latest
middle_write r w obj s others others' head tail (tail_channel, rx, tx, some_idle) e =
    rw (head, tail)
      (bind_done (send_down r obj w) (λ _. modify (commit w))
        (send_down_answered r obj w (raise_latest w (store_object w obj s)) others others'
          (tail_channel, rx, tx, some_idle) e))
middle_write r w obj s others others' head tail (successor_channel, rx, tx, some_idle) e =
    rw (head, tail)
      (bind_done (send_down r obj w) (λ _. modify (commit w))
        (send_down_answered r obj w (raise_latest w (store_object w obj s)) others others'
          (successor_channel, rx, tx, some_idle) e))

grown : ℤ → CraqObject → CraqProtoServer → CraqProtoServer
grown w obj s = record s {
  objects = s.objects ++ (w, obj) ∷ [];
  latest_version = if ltb_ℤ s.latest_version w then w else s.latest_version;
  latest_clean_version = w;
}

IsPool-grown :
    (w : ℤ) (obj : CraqObject) (s : CraqProtoServer)
    → IsPool s s.sp_rx s.sp_tx
    → IsPool (grown w obj s) s.sp_rx s.sp_tx
unfolding grown
IsPool-grown w obj s (tail_channel, rx, tx, more) = (tail_channel, rx, tx, more)
IsPool-grown w obj s (successor_channel, rx, tx, more) = (successor_channel, rx, tx, more)

-- The nodes before the tail store every object for ever: a node that is neither head nor tail, whose
-- pool holds a connection and whose successors accept every write, stores one object more for each
-- versioned write that it takes, with versions that ascend from those that it has.
pub deliveries-middle :
    {W : Type 0} (r : Remote W) (v : ℤ) (writes : List (ℤ × CraqObject)) (s : CraqProtoServer)
    (others : W)
    → Accepts r
    → is_head s.chain_ref ≡ false
    → is_tail s.chain_ref ≡ false
    → IsPool s s.sp_rx s.sp_tx
    → s.latest_clean_version ≤ℤ v
    → UpTo v s.objects
    → Ascends v writes
    → (s' : CraqProtoServer) × (others' : W) × (deliveries r writes s others ≡ done s' others' tt)
      × (length s'.objects ≡ length s.objects + length writes)
unfolding deliveries grown
deliveries-middle r v [] s others accepts head tail pool clean up ascends =
    (s, others, refl, omega arith)
deliveries-middle r v ((w, obj) ∷ writes) s others accepts head tail pool clean up ascends =
    let (others1, accepted) = accepts obj w others in
    let s1 = grown w obj s in
    let (s', others', e, count) =
      deliveries-middle r w writes s1 others1 accepts head tail (IsPool-grown w obj s pool)
        (omega arith)
        (All-append (λ x. x.0 ≤ℤ w) s.objects ((w, obj) ∷ [])
          (UpTo-mono v w s.objects (omega (arith, ascends.0)) up) (omega arith, tt))
        ascends.1 in
    (
      s',
      others',
      bind_done (handle_write_versioned r obj w) (λ _. deliveries r writes)
            (middle_write r w obj s others others1 head tail pool accepted
              ∙ ap (λ t. done t others1 tt) (stored_by_middle v w obj s tail ascends.0 clean up))
          ∙ e,
      omega (arith, count, length-append s.objects ((w, obj) ∷ [])),
    )
