-- ===== src/Epidemic/OwnSeed.antt =====
-- artillery-core/src/epidemic/state.rs and membership.rs: a node that hears its own heartbeat, as one does
-- that has been given its own address as a seed.
use artillery.Base.{
  ◌≡◌, ◌∙◌, refl, sym, true, false, List, [], ◌∷◌, arith, Bool, map, All, any, any-perm,
}
use artillery.Base.Dict.{nat_eq}
use artillery.Member.{Uuid, SocketAddr}
use artillery.Membership.{ArtilleryMemberList, collect, to_map, has_host, has_member}
use artillery.Membership.WellFormed.{IsPlatform}
use artillery.Membership.Changes.{values}
use artillery.Epidemic.{ArtilleryMessage, heartbeat, ArtilleryEpidemic, Env}
use artillery.Epidemic.Inbound.{same_bytes}
use artillery.Epidemic.OwnRecord.{IsOwnNews, collect-All}

-- A heartbeat of this node that says nothing but that the node is alive.
abbrev pub IsOwnHeartbeat : Uuid → ArtilleryEpidemic → ArtilleryMessage → Type 0
IsOwnHeartbeat my s m =
    (m.sender ≡ my)
    × (same_bytes m.cluster_key s.config.cluster_key ≡ true)
    × (m.request ≡ heartbeat)
    × All (IsOwnNews my) m.state_changes

-- The list once it has been put through a hash map.
abbrev pub rehashed : Env → ArtilleryMemberList → ArtilleryMemberList
rehashed env l = record l { members = env.platform.hash_order (values (to_map l)) }

none-All {ℓ} :
    {A : Type ℓ} (p : A → Bool) (xs : List A) → any p xs ≡ false → All (λ x. p x ≡ false) xs
none-All p [] h = tt
none-All p (x ∷ xs) h = (ground (arith, h), none-All p xs (ground (arith, h)))

All-none {ℓ} :
    {A : Type ℓ} (p : A → Bool) (xs : List (Uuid × A))
    → All (λ e. p e.1 ≡ false) xs
    → any p (map (λ e. e.1) xs) ≡ false
All-none p [] h = refl
All-none p (x ∷ xs) h = rw (h.0) (All-none p xs h.1)

pub rehashed-unknown :
    (env : Env) (a : SocketAddr) (l : ArtilleryMemberList)
    → IsPlatform env.platform
    → has_member a l ≡ false
    → has_member a (rehashed env l) ≡ false
unfolding has_member to_map
rehashed-unknown env a l p unknown =
    sym (any-perm (has_host a) (p.hash_perm (values (collect [] l.members))))
    ∙ All-none (has_host a) (collect [] l.members) (
        collect-All (λ e. has_host a e.1 ≡ false) [] l.members tt
          (none-All (has_host a) l.members unknown))
