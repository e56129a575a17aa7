-- ===== src/Cluster/Resolve.antt =====
-- internal/cluster/discovery.go, resolve: which addresses are managed afterwards.
use aqueduct.Base.{
  refl, ◌∙◌, inr, inl, Bool-cases, sym, [], ap, not, some, ◌||◌, arith, false, if◌then◌else◌, true,
  ◌&&◌, Option, ◌∷◌, ◌≡◌, List,
}
use aqueduct.Base.Bytes.{bytes_equal→eq, bytes_equal, Bytes}
use aqueduct.Cluster.{PeerManager, contains, add_peer, remove_peer}
use aqueduct.Cluster.Peers.{contains-append, contains-without_addr}
use aqueduct.Cluster.Discovery.{Discovery, add_found, remove_lost, resolve, normalize, joined}

contains_same :
    (xs : List Bytes) (x a : Bytes) → bytes_equal x a ≡ true → contains xs a ≡ contains xs x
contains_same xs x a h = ap (contains xs) (sym (bytes_equal→eq x a h))

add_peer-contains :
    (m : PeerManager) (x a : Bytes)
    → m.closed ≡ false
    → contains (add_peer m x).addr_set a ≡ (contains m.addr_set a || bytes_equal x a)
unfolding add_peer
add_peer-contains m x a opened = elim (Bool-cases (contains m.addr_set x)) [
  | inl there ↦ rw (opened, there) (ground (arith, contains_same m.addr_set x a))
  | inr new ↦ rw (opened, new) (contains-append m.addr_set x a)
]

add_peer-closed : (m : PeerManager) (x : Bytes) → (add_peer m x).closed ≡ m.closed
unfolding add_peer
add_peer-closed m x = ground arith

remove_peer-contains :
    (m : PeerManager) (x a : Bytes)
    → contains (remove_peer m x).addr_set a ≡ (contains m.addr_set a && not (bytes_equal x a))
unfolding remove_peer
remove_peer-contains m x a = elim (Bool-cases (contains m.addr_set x)) [
  | inl there ↦ rw there (contains-without_addr m.addr_set x a)
  | inr missing ↦ rw missing (ground (arith, contains_same m.addr_set x a))
]

module _ (join : Bytes → Bytes → Bytes) (port : Bytes) where
  -- Different addresses stay different with a port behind them.
  abbrev pub Joins : Type 0
  Joins = (x y : Bytes) → bytes_equal (join x port) (join y port) ≡ bytes_equal x y

  -- The addresses that the other list does not have.
  abbrev minus : List Bytes → List Bytes → List Bytes
  minus [] ys = []
  minus (x ∷ xs) ys = let rest = minus xs ys in if contains ys x then rest else x ∷ rest

  add_found-contains :
      (known ips : List Bytes) (m : PeerManager) (a : Bytes)
      → m.closed ≡ false
      → contains (add_found join port known ips m).addr_set a
        ≡ (contains m.addr_set a || contains (joined join port (minus ips known)) a)
  unfolding add_found contains
  add_found-contains known [] m a opened = ground arith
  add_found-contains known (ip ∷ ips) m a opened = elim (Bool-cases (contains known ip)) [
    | inl there ↦ rw (there, add_found) (add_found-contains known ips m a opened)
    | inr new ↦
        rw (new, add_found)
          (let m1 = add_peer m (join ip port) in
            let rest =
              add_found-contains known ips m1 a (add_peer-closed m (join ip port) ∙ opened) in
            rest ∙ ground (arith, add_peer-contains m (join ip port) a opened))
  ]

  remove_lost-contains :
      (resolved ips : List Bytes) (m : PeerManager) (a : Bytes)
      → contains (remove_lost join port resolved ips m).addr_set a
        ≡ (contains m.addr_set a && not (contains (joined join port (minus ips resolved)) a))
  unfolding remove_lost contains
  remove_lost-contains resolved [] m a = ground arith
  remove_lost-contains resolved (ip ∷ ips) m a = elim (Bool-cases (contains resolved ip)) [
    | inl there ↦ rw (there, remove_lost) (remove_lost-contains resolved ips m a)
    | inr lost ↦
        rw (lost, remove_lost)
          (remove_lost-contains resolved ips (remove_peer m (join ip port)) a
            ∙ ground (arith, remove_peer-contains m (join ip port) a))
  ]

  module _ (joins : Joins) where
    contains-joined :
        (ys : List Bytes) (x : Bytes) → contains (joined join port ys) (join x port) ≡ contains ys x
    unfolding contains
    contains-joined [] x = refl
    contains-joined (y ∷ ys) x = ground (arith, joins y x, contains-joined ys x)

    contains-minus :
        (xs ys : List Bytes) (a : Bytes)
        → contains (joined join port (minus xs ys)) a
          ≡ (contains (joined join port xs) a && not (contains (joined join port ys) a))
    unfolding contains
    contains-minus [] ys a = refl
    contains-minus (x ∷ xs) ys a = ground (
      arith,
      contains-minus xs ys a,
      contains_same (joined join port ys) (join x port) a,
      contains-joined ys x,
    )

-- After a lookup that succeeds, an address is managed where it resolved just now, or where it was
-- managed and not known from the lookup before. The manager is not closed, the addresses known from
-- before are managed, and a port behind different addresses leaves them different; the parser and
-- printer of addresses may be any.
pub resolve-contains :
    (canonical : Bytes → Option Bytes) (join : Bytes → Bytes → Bytes) (d : Discovery)
    (ips : List Bytes) (a : Bytes)
    → d.manager.closed ≡ false
    → Joins join d.port
    → (contains (joined join d.port d.known_ips) a ≡ true → contains d.manager.addr_set a ≡ true)
    → contains (resolve canonical join d (some ips)).manager.addr_set a ≡ (
        contains (joined join d.port (normalize canonical ips)) a
        || (contains d.manager.addr_set a && not (contains (joined join d.port d.known_ips) a)))
unfolding resolve
resolve-contains canonical join d ips a opened joins known =
    let resolved = normalize canonical ips in
    ground (
      arith,
      remove_lost-contains join d.port resolved d.known_ips
          (add_found join d.port d.known_ips resolved d.manager) a,
      add_found-contains join d.port d.known_ips resolved d.manager a opened,
      contains-minus join d.port joins resolved d.known_ips a,
      contains-minus join d.port joins d.known_ips resolved a,
    )
