-- ===== src/Cluster/Discovery.antt =====
-- internal/cluster/discovery.go: the reconciliation of the peer table with what a name resolves to.
-- A set is a list without repetitions. `canonical` is net.ParseIP with the address's String, `none`
-- where it does not parse; `join` is net.JoinHostPort, and `sort` sort.Strings.
use aqueduct.Base.{none, ◌++◌, ◌==◌, [], length, some, List, Option, if◌then◌else◌, ◌∷◌}
use aqueduct.Base.Bytes.{Bytes}
use aqueduct.Cluster.{PeerManager, contains, add_peer, remove_peer}

pub record Discovery : Type 0 where
  pub port : Bytes
  pub known_ips : List Bytes
  pub manager : PeerManager

abbrev default_port : Bytes
default_port = 0x34 ∷ 0x32 ∷ 0x34 ∷ 0x32 ∷ []

unfoldable pub new_discovery : Bytes → PeerManager → Discovery
new_discovery port manager = record {
  port = if length port == 0 then default_port else port;
  known_ips = [];
  manager = manager;
}

module _ (canonical : Bytes → Option Bytes) where
  abbrev pub insert : List Bytes → Option Bytes → List Bytes
  insert ips none = ips
  insert ips (some ip) = if contains ips ip then ips else ips ++ ip ∷ []

  abbrev pub normalize_into : List Bytes → List Bytes → List Bytes
  normalize_into [] found = found
  normalize_into (ip ∷ ips) found = normalize_into ips (insert found (canonical ip))

  unfoldable pub normalize : List Bytes → List Bytes
  unfolding contains
  normalize ips = normalize_into ips []

module _ (join : Bytes → Bytes → Bytes) where
  -- A peer for each resolved address that was not known.
  unfoldable pub add_found : Bytes → List Bytes → List Bytes → PeerManager → PeerManager
  unfolding contains add_peer
  add_found port known [] m = m
  add_found port known (ip ∷ ips) m =
      add_found port known ips (if contains known ip then m else add_peer m (join ip port))

  unfoldable pub remove_lost : Bytes → List Bytes → List Bytes → PeerManager → PeerManager
  unfolding contains remove_peer
  remove_lost port resolved [] m = m
  remove_lost port resolved (ip ∷ ips) m =
      remove_lost port resolved ips
        (if contains resolved ip then m else remove_peer m (join ip port))

  abbrev pub joined : Bytes → List Bytes → List Bytes
  joined port [] = []
  joined port (ip ∷ ips) = join ip port ∷ joined port ips

  unfoldable pub known_peers : (List Bytes → List Bytes) → Discovery → List Bytes
  known_peers sort d = sort (joined d.port d.known_ips)

-- A lookup that fails changes nothing.
unfoldable pub resolve :
    (Bytes → Option Bytes) → (Bytes → Bytes → Bytes) → Discovery → Option (List Bytes) → Discovery
unfolding normalize add_found remove_lost
resolve canonical join d none = d
resolve canonical join d (some ips) =
    let resolved = normalize canonical ips in
    let m = add_found join d.port d.known_ips resolved d.manager in
    record d { known_ips = resolved; manager = remove_lost join d.port resolved d.known_ips m }
