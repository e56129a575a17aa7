-- ===== src/Cluster/Tests.antt =====
-- internal/cluster: the theorems on two peers.
use aqueduct.Protocol.Frame.{finish_frame, parse_extensions, parse_frame}
use aqueduct.Base.Bytes.{le32, le32_at, Bytes, bytes_equal}
use aqueduct.Base.{
  not, length, refl, ◌&&◌, arith, false, ok, ◌+◌, ◌||◌, get_elem?, some, ◌≡◌, All, List, [], true,
  ◌∷◌,
}
use aqueduct.Protocol.Command.{has_extensions_bit, set_forwarded, unknown_opcode, opcode_of}
use aqueduct.Cluster.{
  new_peer_manager, add_peer, open_stream, forward, raw_writes, active_peers, contains,
}
use aqueduct.Cluster.Peers.{reachable-IsManaged, addresses, IsSimple, adds, halt, step}
use aqueduct.Cluster.Discovery.{Discovery, resolve, normalize, joined}
use aqueduct.Cluster.Resolve.{resolve-contains}
use aqueduct.Cluster.Forwarding.{forward-marked, marked, parse_frame-marked}
use aqueduct.Cluster.Backoff.{
  reconnect_loop, reconnect_loop-waits, IsWait, initial_backoff, max_backoff, failures, dial_failed,
  stream_ended,
}

abbrev first_addr : Bytes
first_addr = 97 ∷ []

abbrev second_addr : Bytes
second_addr = 98 ∷ []

abbrev both : List Bytes
both = first_addr ∷ second_addr ∷ []

apart : contains (first_addr ∷ []) second_addr ≡ false
unfolding contains bytes_equal
apart = refl

nothing_there : (a : Bytes) → contains [] a ≡ false
unfolding contains
nothing_there a = refl

reachable-IsManaged_example :
    (addresses (add_peer (new_peer_manager both) (99 ∷ [])).peers
      ≡ (add_peer (new_peer_manager both) (99 ∷ [])).addr_set)
    × IsSimple (addresses (add_peer (new_peer_manager both) (99 ∷ [])).peers)
reachable-IsManaged_example =
    reachable-IsManaged both (add_peer (new_peer_manager both) (99 ∷ []))
      (nothing_there first_addr, (apart, tt))
      (step (new_peer_manager both) (add_peer (new_peer_manager both) (99 ∷ []))
        (add_peer (new_peer_manager both) (99 ∷ [])) (adds (new_peer_manager both) (99 ∷ []))
        (halt (add_peer (new_peer_manager both) (99 ∷ []))))

-- A port is put in front.
abbrev in_front : Bytes → Bytes → Bytes
in_front ip port = 58 ∷ ip

in_front-Joins : (x y : Bytes) → bytes_equal (in_front x []) (in_front y []) ≡ bytes_equal x y
unfolding bytes_equal
in_front-Joins x y = ground arith

abbrev found_before : Discovery
found_before = record {
  port = [];
  known_ips = first_addr ∷ [];
  manager = new_peer_manager ((58 ∷ first_addr) ∷ []);
}

resolve-contains_example :
    contains
      (resolve (λ ip. some ip) in_front found_before (some (second_addr ∷ []))).manager.addr_set
      (58 ∷ first_addr)
    ≡ (contains
          (joined in_front [] (normalize (λ ip. some ip) (second_addr ∷ [])))
          (58 ∷ first_addr)
        || (contains (new_peer_manager ((58 ∷ first_addr) ∷ [])).addr_set (58 ∷ first_addr)
            && not (contains (joined in_front [] (first_addr ∷ [])) (58 ∷ first_addr))))
unfolding new_peer_manager contains bytes_equal
resolve-contains_example =
    resolve-contains (λ ip. some ip) in_front found_before (second_addr ∷ []) (58 ∷ first_addr) refl
      in_front-Joins (λ e. refl)

-- A publish without a payload.
abbrev empty_publish : Bytes
empty_publish = 0x1f ∷ 1 ∷ 0 ∷ 0 ∷ 0 ∷ 0 ∷ 0 ∷ 0 ∷ 0 ∷ 0 ∷ []

forward-marked_example :
    (forward (open_stream (new_peer_manager both) 1 4) empty_publish true
      ≡ ok (
        empty_publish,
        raw_writes (open_stream (new_peer_manager both) 1 4).peers (marked empty_publish),
      ))
    × (length (raw_writes (open_stream (new_peer_manager both) 1 4).peers (marked empty_publish))
        ≡ active_peers (open_stream (new_peer_manager both) 1 4).peers)
forward-marked_example =
    forward-marked (open_stream (new_peer_manager both) 1 4) empty_publish (omega arith)

empty_publish_parses :
    parse_frame empty_publish
    ≡ ok (record { command = 1; stream_id = 0; payload_len = 0; payload = []; extensions = [] })
unfolding parse_frame opcode_of unknown_opcode has_extensions_bit le32_at le32 parse_extensions
    finish_frame
empty_publish_parses = refl

parse_frame-marked_example :
    parse_frame (marked empty_publish)
    ≡ ok (record {
      command = set_forwarded 1;
      stream_id = 0;
      payload_len = 0;
      payload = [];
      extensions = [];
    })
parse_frame-marked_example =
    parse_frame-marked empty_publish
      (record { command = 1; stream_id = 0; payload_len = 0; payload = []; extensions = [] })
      (omega arith) empty_publish_parses

reconnect_loop-waits_example :
    All IsWait (reconnect_loop initial_backoff (dial_failed ∷ stream_ended ∷ dial_failed ∷ []))
    × (get_elem? (reconnect_loop initial_backoff (failures 8)) 7 ≡ some (max_backoff + 2000000000))
reconnect_loop-waits_example = reconnect_loop-waits (dial_failed ∷ stream_ended ∷ dial_failed ∷ [])
