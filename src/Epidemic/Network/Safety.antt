-- ===== src/Epidemic/Network/Safety.antt =====
-- artillery-core/src/epidemic: what holds in a cluster of nodes, whatever happens in it.
use artillery.Base.{ℕ}
use artillery.Member.{Uuid}
use artillery.Epidemic.Network.{Cluster}
use artillery.Epidemic.Network.Nodes.{IsSound}

-- A cluster whose nodes are sound.
abbrev pub AllSound : ℕ → Cluster → Type 0
AllSound mtu nodes = (k : Uuid) → IsSound mtu k (nodes k)
