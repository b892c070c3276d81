-- ===== src/Epidemic/Network/Seeds.antt =====
-- artillery-core/src/cluster/ap.rs, `discover_nodes`: the addresses that a node discovers become its
-- seeds, but for those with the port of its own address.
use artillery.Base.{
  ℕ, ◌%◌, ◌^◌, ◌≡◌, ◌∙◌, sym, ap, inl, inr, Bool-cases, not, List, [], ◌∷◌, ◌++◌, map, retain, ◌==◌,
  if◌then◌else◌,
}
use mathlib.Core.List.{append-nil, append_assoc}
use artillery.Member.{SocketAddr}
use artillery.Epidemic.{add_seed, ArtilleryEpidemic}
use artillery.Epidemic.Network.{add_seed_node, obey}

-- An address is an IP number and a port of 16 bits.
abbrev pub port : SocketAddr → ℕ
port a = a % 2 ^ 16

unfoldable pub discover_nodes : SocketAddr → List SocketAddr → ArtilleryEpidemic → ArtilleryEpidemic
unfolding obey
discover_nodes local_service_addr [] s = s
discover_nodes local_service_addr (a ∷ discovered) s =
    discover_nodes local_service_addr discovered
      (if port a == port local_service_addr then s else obey (add_seed_node a) s)

-- Those with another port become seeds, in the order in which they are discovered, and nothing else
-- happens: a node on another host with the same port never becomes one.
pub discover_nodes_lem :
    (local_service_addr : SocketAddr) (discovered : List SocketAddr) (s : ArtilleryEpidemic)
    → discover_nodes local_service_addr discovered s ≡ record s {
      requests =
          s.requests
          ++ map add_seed (retain (λ a. not (port a == port local_service_addr)) discovered);
    }
unfolding discover_nodes obey
discover_nodes_lem here [] s = ap (λ rs. record s { requests = rs }) (sym (append-nil s.requests))
discover_nodes_lem here (a ∷ discovered) s = elim (Bool-cases (port a == port here)) [
  | inl same ↦ rw same (discover_nodes_lem here discovered s)
  | inr other ↦ rw other (
      discover_nodes_lem here discovered (obey (add_seed_node a) s)
      ∙ ap (λ rs. record s { requests = rs })
          (append_assoc s.requests (add_seed a ∷ [])
            (map add_seed (retain (λ x. not (port x == port here)) discovered))))
]
