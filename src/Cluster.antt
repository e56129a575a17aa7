-- ===== src/Cluster.antt =====
-- internal/cluster/cluster.go: the peer table and the forwarding of frames. A peer is a record with
-- the number of its PeerRef, and a stream is a number; dialing and the streams' reads are left out,
-- and what they do to the table are the steps `open_stream` and `close_stream`.
pub mod Discovery
pub mod Peers
pub mod Resolve
pub mod Forwarding
pub mod Backoff
mod Tests
use aqueduct.Base.{
  set, reject, ◌++◌, ◌+◌, ◌==◌, ◌>>=◌, Option, false, length, ltb, none, not, ok, some, true, ◌>>◌,
  ◌||◌, ◌∷◌, Bool, List, Outcome, [], if◌then◌else◌, ℕ,
}
use aqueduct.Base.Bytes.{Bytes, bytes_equal, at}
use aqueduct.Protocol.Command.{header_size, set_forwarded}

pub record Peer : Type 0 where
  pub ref : ℕ
  pub addr : Bytes
  pub stream : Option ℕ

-- `addr_set` lists the keys of addrSet; `next` numbers the PeerRefs.
pub record PeerManager : Type 0 where
  pub peers : List Peer
  pub addr_set : List Bytes
  pub next : ℕ
  pub closed : Bool

unfoldable pub contains : List Bytes → Bytes → Bool
unfolding bytes_equal
contains [] a = false
contains (x ∷ xs) a = bytes_equal x a || contains xs a

-- `delete(set, addr)`
unfoldable pub without_addr : List Bytes → Bytes → List Bytes
unfolding bytes_equal
without_addr [] a = []
without_addr (x ∷ xs) a = let rest = without_addr xs a in if bytes_equal x a then rest else x ∷ rest

abbrev pub new_peer : ℕ → Bytes → Peer
new_peer ref addr = record { ref = ref; addr = addr; stream = none }

abbrev pub peers_from : ℕ → List Bytes → List Peer
peers_from ref [] = []
peers_from ref (a ∷ addrs) = new_peer ref a ∷ peers_from (ref + 1) addrs

-- A key that is set again stays one key.
abbrev pub keys_of : List Bytes → List Bytes → List Bytes
keys_of [] keys = keys
keys_of (a ∷ addrs) keys = keys_of addrs (if contains keys a then keys else keys ++ a ∷ [])

-- `NewWithLogger`: a peer for every address, and a key for every different one.
unfoldable pub new_peer_manager : List Bytes → PeerManager
unfolding contains
new_peer_manager addrs = record {
  peers = peers_from 0 addrs;
  addr_set = keys_of addrs [];
  next = length addrs;
  closed = false;
}

unfoldable pub add_peer : PeerManager → Bytes → PeerManager
unfolding contains
add_peer m addr = if m.closed || contains m.addr_set addr then m else record m {
  peers = m.peers ++ new_peer m.next addr ∷ [];
  addr_set = m.addr_set ++ addr ∷ [];
  next = m.next + 1;
}

unfoldable pub without_peer : List Peer → Bytes → List Peer
unfolding bytes_equal
without_peer [] a = []
without_peer (p ∷ ps) a =
    let rest = without_peer ps a in if bytes_equal p.addr a then rest else p ∷ rest

unfoldable pub remove_peer : PeerManager → Bytes → PeerManager
unfolding contains without_addr without_peer
remove_peer m addr =
    if not (contains m.addr_set addr)
    then m
    else record m { peers = without_peer m.peers addr; addr_set = without_addr m.addr_set addr }

-- What `runPeerStream` does to the stream of its own PeerRef.
abbrev pub set_stream : List Peer → ℕ → Option ℕ → List Peer
set_stream [] ref s = []
set_stream (p ∷ ps) ref s =
    (if p.ref == ref then record p { stream = s } else p) ∷ set_stream ps ref s

unfoldable pub open_stream : PeerManager → ℕ → ℕ → PeerManager
open_stream m ref stream = record m { peers = set_stream m.peers ref (some stream) }

unfoldable pub close_stream : PeerManager → ℕ → PeerManager
close_stream m ref = record m { peers = set_stream m.peers ref none }

unfoldable pub active_peers : List Peer → ℕ
active_peers [] = 0
active_peers (p ∷ ps) =
    let rest = active_peers ps in elim p.stream [ none ↦ rest | some s ↦ rest + 1 ]

unfoldable pub peer_count : PeerManager → ℕ
peer_count m = length m.peers

abbrev pub silenced : List Peer → List Peer
silenced [] = []
silenced (p ∷ ps) = record p { stream = none } ∷ silenced ps

-- `Close`, without the wait for the loops.
unfoldable pub close_manager : PeerManager → PeerManager
close_manager m = record m { peers = silenced m.peers; addr_set = []; closed = true }

-- The buffer, which the caller owns, and the writes to streams so far, oldest first.
abbrev pub Forwarded : Type 0
Forwarded = Bytes × List (ℕ × Bytes)

-- One write: the byte is marked, and restored behind the write.
unfoldable pub forward_to : Bool → ℕ → Forwarded → Outcome ⊥ Forwarded
unfolding set_forwarded
forward_to false s (buf, writes) = ok (buf, writes ++ (s, buf) ∷ [])
forward_to true s (buf, writes) = do
  orig ← at buf 1
  (let marked = set buf 1 (set_forwarded orig) in
      ok (set marked 1 orig, writes ++ (s, marked) ∷ []))

-- A write that fails is passed over like one that does not.
unfoldable pub forward_loop : Bool → List Peer → Forwarded → Outcome ⊥ Forwarded
unfolding forward_to
forward_loop mark [] f = ok f
forward_loop mark (p ∷ ps) f = elim p.stream [
  | none ↦ forward_loop mark ps f
  | some s ↦ forward_to mark s f >>= forward_loop mark ps
]

unfoldable pub forward : PeerManager → Bytes → Bool → Outcome ⊥ Forwarded
unfolding forward_loop
forward m buf mark =
    if ltb (length buf) header_size then ok (buf, []) else forward_loop mark m.peers (buf, [])

pub data ForwardError : Type 0 where
  short_buffer : ForwardError

abbrev pub raw_writes : List Peer → Bytes → List (ℕ × Bytes)
raw_writes [] buf = []
raw_writes (p ∷ ps) buf =
    let rest = raw_writes ps buf in elim p.stream [ none ↦ rest | some s ↦ (s, buf) ∷ rest ]

unfoldable pub forward_raw : PeerManager → Bytes → Outcome ForwardError (List (ℕ × Bytes))
forward_raw m buf = do
  reject (ltb (length buf) header_size) short_buffer
  ok (raw_writes m.peers buf)
