-- ===== src/Cluster/Peers.antt =====
-- internal/cluster/cluster.go: the peers and the keys of addrSet agree, and no address is managed
-- twice.
use aqueduct.Base.{
  if◌then◌else◌, append_assoc, append-nil, none, subst, some, sym, true, ◌+◌, ◌∙◌, ap, arith, inr,
  refl, ◌==◌, Option, [], inl, not, ◌||◌, Bool-cases, false, ℕ, ◌&&◌, ◌++◌, ◌∷◌, List, ◌≡◌,
}
use aqueduct.Base.Bytes.{bytes_equal→eq, Bytes, bytes_equal}
use aqueduct.Cluster.{
  new_peer, PeerManager, Peer, contains, add_peer, remove_peer, without_addr, without_peer,
  open_stream, close_stream, set_stream, new_peer_manager, keys_of, peers_from,
}

bytes_equal_sym : (x y : Bytes) → bytes_equal x y ≡ bytes_equal y x
unfolding bytes_equal
bytes_equal_sym [] [] = refl
bytes_equal_sym [] (b ∷ y) = refl
bytes_equal_sym (a ∷ x) [] = refl
bytes_equal_sym (a ∷ x) (b ∷ y) = ground (arith, bytes_equal_sym x y)

bytes_equal-same : (x y a : Bytes) → bytes_equal x y ≡ true → bytes_equal x a ≡ bytes_equal y a
bytes_equal-same x y a h = ap (λ z. bytes_equal z a) (bytes_equal→eq x y h)

bytes_equal-apart :
    (x y a : Bytes) → bytes_equal x y ≡ false → bytes_equal x a ≡ true → bytes_equal y a ≡ false
bytes_equal-apart x y a h e =
    ap (bytes_equal y) (sym (bytes_equal→eq x a e)) ∙ (bytes_equal_sym y x ∙ h)

pub contains-append :
    (xs : List Bytes) (y a : Bytes) → contains (xs ++ y ∷ []) a ≡ (contains xs a || bytes_equal y a)
unfolding contains
contains-append [] y a = ground arith
contains-append (x ∷ xs) y a = ground (arith, contains-append xs y a)

pub contains-without_addr :
    (xs : List Bytes) (y a : Bytes)
    → contains (without_addr xs y) a ≡ (contains xs a && not (bytes_equal y a))
unfolding contains without_addr
contains-without_addr [] y a = refl
contains-without_addr (x ∷ xs) y a =
    ground (arith, contains-without_addr xs y a, bytes_equal-same x y a, bytes_equal-apart x y a)

-- No address stands twice in a list.
abbrev pub IsSimple : List Bytes → Type 0
IsSimple [] = Unit {0}
IsSimple (x ∷ xs) = (contains xs x ≡ false) × IsSimple xs

abbrev pub addresses : List Peer → List Bytes
addresses [] = []
addresses (p ∷ ps) = p.addr ∷ addresses ps

-- The keys are the peers' addresses, in the order of their additions.
pub record IsManaged (m : PeerManager) : Type 0 where
  pub same : addresses m.peers ≡ m.addr_set
  pub simple : IsSimple m.addr_set

IsSimple-append :
    (xs : List Bytes) (a : Bytes) → contains xs a ≡ false → IsSimple xs → IsSimple (xs ++ a ∷ [])
unfolding contains
IsSimple-append [] a h s = (refl, tt)
IsSimple-append (x ∷ xs) a h s = (
  ground (arith, contains-append xs a x, s.0, bytes_equal_sym x a),
  IsSimple-append xs a (ground arith) s.1,
)

IsSimple-without_addr : (xs : List Bytes) (a : Bytes) → IsSimple xs → IsSimple (without_addr xs a)
unfolding without_addr
IsSimple-without_addr [] a s = tt
IsSimple-without_addr (x ∷ xs) a s = elim (Bool-cases (bytes_equal x a)) [
  | inl gone ↦ rw gone (IsSimple-without_addr xs a s.1)
  | inr kept ↦
      rw kept (ground (arith, contains-without_addr xs a x, s.0), IsSimple-without_addr xs a s.1)
]

addresses-append :
    (ps : List Peer) (p : Peer) → addresses (ps ++ p ∷ []) ≡ addresses ps ++ p.addr ∷ []
addresses-append [] p = refl
addresses-append (q ∷ ps) p = ap (λ x. q.addr ∷ x) (addresses-append ps p)

addresses-without_peer :
    (ps : List Peer) (a : Bytes) → addresses (without_peer ps a) ≡ without_addr (addresses ps) a
unfolding without_peer without_addr
addresses-without_peer [] a = refl
addresses-without_peer (p ∷ ps) a = elim (Bool-cases (bytes_equal p.addr a)) [
  | inl gone ↦ rw gone (addresses-without_peer ps a)
  | inr kept ↦ rw kept (ap (λ x. p.addr ∷ x) (addresses-without_peer ps a))
]

addresses-set_stream :
    (ps : List Peer) (ref : ℕ) (s : Option ℕ) → addresses (set_stream ps ref s) ≡ addresses ps
addresses-set_stream [] ref s = refl
addresses-set_stream (p ∷ ps) ref s = elim (Bool-cases (p.ref == ref)) [
  | inl this ↦ rw this (ap (λ x. p.addr ∷ x) (addresses-set_stream ps ref s))
  | inr other ↦ rw other (ap (λ x. p.addr ∷ x) (addresses-set_stream ps ref s))
]

pub add_peer-IsManaged : (m : PeerManager) (a : Bytes) → IsManaged m → IsManaged (add_peer m a)
unfolding add_peer
add_peer-IsManaged m a i = elim (Bool-cases (m.closed || contains m.addr_set a)) [
  | inl there ↦ rw there i
  | inr added ↦ rw added (record {
    same = addresses-append m.peers (new_peer m.next a) ∙ ap (λ x. x ++ a ∷ []) i.same;
    simple = IsSimple-append m.addr_set a (ground arith) i.simple;
  })
]

pub remove_peer-IsManaged :
    (m : PeerManager) (a : Bytes) → IsManaged m → IsManaged (remove_peer m a)
unfolding remove_peer
remove_peer-IsManaged m a i = elim (Bool-cases (not (contains m.addr_set a))) [
  | inl missing ↦ rw missing i
  | inr there ↦ rw there (record {
    same = addresses-without_peer m.peers a ∙ ap (λ x. without_addr x a) i.same;
    simple = IsSimple-without_addr m.addr_set a i.simple;
  })
]

-- The calls on a manager before its `Close`, and what the loops of its peers do to it.
pub data PeerStep : PeerManager → PeerManager → Type 0 where
  adds : (m : PeerManager) (a : Bytes) → PeerStep m (add_peer m a)
  removes : (m : PeerManager) (a : Bytes) → PeerStep m (remove_peer m a)
  opens : (m : PeerManager) (ref stream : ℕ) → PeerStep m (open_stream m ref stream)
  closes : (m : PeerManager) (ref : ℕ) → PeerStep m (close_stream m ref)

pub data PeerSteps : PeerManager → PeerManager → Type 0 where
  halt : (m : PeerManager) → PeerSteps m m
  step : (m n k : PeerManager) → PeerStep m n → PeerSteps n k → PeerSteps m k

PeerStep-IsManaged : {m n : PeerManager} → PeerStep m n → IsManaged m → IsManaged n
unfolding open_stream close_stream
PeerStep-IsManaged (adds m a) i = add_peer-IsManaged m a i
PeerStep-IsManaged (removes m a) i = remove_peer-IsManaged m a i
PeerStep-IsManaged (opens m ref stream) i = record {
  same = addresses-set_stream m.peers ref (some stream) ∙ i.same;
  simple = i.simple;
}
PeerStep-IsManaged (closes m ref) i = record {
  same = addresses-set_stream m.peers ref none ∙ i.same;
  simple = i.simple;
}

PeerSteps-IsManaged : {m n : PeerManager} → PeerSteps m n → IsManaged m → IsManaged n
PeerSteps-IsManaged (halt m) i = i
PeerSteps-IsManaged (step m n k one rest) i = PeerSteps-IsManaged rest (PeerStep-IsManaged one i)

addresses-peers_from : (ref : ℕ) (addrs : List Bytes) → addresses (peers_from ref addrs) ≡ addrs
addresses-peers_from ref [] = refl
addresses-peers_from ref (a ∷ addrs) = ap (λ x. a ∷ x) (addresses-peers_from (ref + 1) addrs)

-- Addresses that differ from each other and from the keys.
abbrev pub IsFresh : List Bytes → List Bytes → Type 0
IsFresh [] keys = Unit {0}
IsFresh (a ∷ addrs) keys = (contains keys a ≡ false) × IsFresh addrs (keys ++ a ∷ [])

keys_of-fresh :
    (addrs keys : List Bytes)
    → IsFresh addrs keys
    → IsSimple keys
    → (keys_of addrs keys ≡ keys ++ addrs) × IsSimple (keys ++ addrs)
keys_of-fresh [] keys f s = (sym (append-nil keys), subst IsSimple (sym (append-nil keys)) s)
keys_of-fresh (a ∷ addrs) keys f s =
    let next = keys_of-fresh addrs (keys ++ a ∷ []) f.1 (IsSimple-append keys a f.0 s) in
    let e = append_assoc keys (a ∷ []) addrs in
    (
      ap (λ b. keys_of addrs (if b then keys else keys ++ a ∷ [])) f.0 ∙ (next.0 ∙ e),
      subst IsSimple e next.1,
    )

-- Where the configured addresses differ from each other, in every state before `Close` the addresses of
-- the peers, in their order, are the keys of addrSet, and none stands twice: after any additions,
-- removals, and openings and endings of streams.
pub reachable-IsManaged :
    (addrs : List Bytes) (m : PeerManager)
    → IsFresh addrs []
    → PeerSteps (new_peer_manager addrs) m
    → (addresses m.peers ≡ m.addr_set) × IsSimple (addresses m.peers)
unfolding new_peer_manager
reachable-IsManaged addrs m fresh steps =
    let k = keys_of-fresh addrs [] fresh tt in
    let start : IsManaged (new_peer_manager addrs) = record {
      same = addresses-peers_from 0 addrs ∙ sym k.0;
      simple = subst IsSimple (sym k.0) k.1;
    } in
    let i = PeerSteps-IsManaged steps start in (i.same, subst IsSimple (sym i.same) i.simple)
