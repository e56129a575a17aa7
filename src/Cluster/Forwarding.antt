-- ===== src/Cluster/Forwarding.antt =====
-- internal/cluster/cluster.go, Forward and ForwardRaw: what the peers receive.
use aqueduct.Protocol.Command.{
  unknown_opcode-IsKnown, magic_byte, has_extensions_bit-div, set_forwarded, set_forwarded-mod,
  IsKnown, has_extensions_bit,
}
use aqueduct.Base.{
  append_assoc, ◌==◌, inr, ◌∙◌, inl, All, Option-cases, append-nil, zero, arith, refl, sym, [], ap,
  le→ltb, suc, ◌++◌, ok, ◌∷◌, true, ◌≡◌, get_or, length, ◌<◌, set, ℕ, ◌≤◌, List,
}
use aqueduct.Protocol.Frame.Body.{parse_frame-fields, split_data}
use aqueduct.Base.Bytes.{IsByte, at-get_or, Bytes}
use aqueduct.Cluster.{
  PeerManager, Peer, forward, forward_loop, forward_to, active_peers, raw_writes,
}
use aqueduct.Protocol.Frame.{Frame, parse_frame}
use aqueduct.Protocol.Frame.Inversion.{parse_frame-Parsed}

-- The frame that the receiving node sees.
abbrev pub marked : Bytes → Bytes
marked buf = set buf 1 (set_forwarded (get_or buf 1 0))

set_back : (xs : Bytes) (i v : ℕ) → set (set xs i v) i (get_or xs i 0) ≡ xs
set_back [] i v = refl
set_back (x ∷ xs) zero v = refl
set_back (x ∷ xs) (suc i) v = ap (λ ys. x ∷ ys) (set_back xs i v)

forward_to-marked :
    (s : ℕ) (buf : Bytes) (writes : List (ℕ × Bytes))
    → 1 < length buf
    → forward_to true s (buf, writes) ≡ ok (buf, writes ++ (s, marked buf) ∷ [])
unfolding forward_to
forward_to-marked s buf writes h = rw (at-get_or {E = ⊥} buf 1 h) (
    ap (λ b. ok (b, writes ++ (s, marked buf) ∷ []))
      (set_back buf 1 (set_forwarded (get_or buf 1 0))))

forward_loop-raw_writes :
    (ps : List Peer) (buf : Bytes) (writes : List (ℕ × Bytes))
    → 1 < length buf
    → forward_loop true ps (buf, writes) ≡ ok (buf, writes ++ raw_writes ps (marked buf))
unfolding forward_loop
forward_loop-raw_writes [] buf writes h = ap (λ w. ok (buf, w)) (sym (append-nil writes))
forward_loop-raw_writes (p ∷ ps) buf writes h = elim (Option-cases p.stream) [
  | inl e ↦ rw (e, forward_loop) (forward_loop-raw_writes ps buf writes h)
  | inr (s, e) ↦
      let entry : List (ℕ × Bytes) = (s, marked buf) ∷ [] in
      rw (e, forward_loop, forward_to-marked s buf writes h)
        (forward_loop-raw_writes ps buf (writes ++ entry) h
          ∙ ap (λ w. ok (buf, w)) (append_assoc writes entry (raw_writes ps (marked buf))))
]

length-raw_writes : (ps : List Peer) (buf : Bytes) → length (raw_writes ps buf) ≡ active_peers ps
unfolding active_peers
length-raw_writes [] buf = refl
length-raw_writes (p ∷ ps) buf = ground (arith, length-raw_writes ps buf)

-- A forwarded buffer of at least a header is handed to every connected peer once, in the order of the
-- table, with the forwarding bit set in its command, and is afterwards as it was; the writes are as
-- many as ActivePeers counts.
pub forward-marked :
    (m : PeerManager) (buf : Bytes)
    → 10 ≤ length buf
    → (forward m buf true ≡ ok (buf, raw_writes m.peers (marked buf)))
      × (length (raw_writes m.peers (marked buf)) ≡ active_peers m.peers)
unfolding forward
forward-marked m buf h = (
  rw (le→ltb (length buf) 10 h) (forward_loop-raw_writes m.peers buf [] (omega arith)),
  length-raw_writes m.peers (marked buf),
)

split_data-marked :
    (c len : ℕ) (rest : Bytes)
    → c < 256
    → split_data (set_forwarded c) len rest ≡ split_data c len rest
unfolding split_data
split_data-marked c len rest h =
    let bit : has_extensions_bit (set_forwarded c) ≡ has_extensions_bit c =
      has_extensions_bit-div (set_forwarded c) (omega (arith, set_forwarded-mod c h))
      ∙ (ap (λ k. k == 1) (omega (arith, set_forwarded-mod c h))
          ∙ sym (has_extensions_bit-div c h)) in
    rw bit refl

set_forwarded-IsKnown : (c : ℕ) → IsKnown c → IsKnown (set_forwarded c)
set_forwarded-IsKnown c (h, lo, hi) = omega (arith, set_forwarded-mod c h)

-- A node that gets a marked frame parses the frame that the sender parsed, with the forwarding bit in
-- its command and nothing else changed: for any bytes that parse.
pub parse_frame-marked :
    (buf : Bytes) (f : Frame)
    → All IsByte buf
    → parse_frame buf ≡ ok f
    → parse_frame (marked buf) ≡ ok (record f { command = set_forwarded f.command })
parse_frame-marked buf f all e =
    let q = parse_frame-Parsed buf f all e in
    let c = set_forwarded f.command in
    ap (λ b. parse_frame (marked b)) q.buffer
    ∙ (parse_frame-fields magic_byte c f.stream_id q.len q.rest q.id_fits q.len_fits
        ∙ ground (
          arith,
          unknown_opcode-IsKnown c (set_forwarded-IsKnown f.command q.known),
          q.enough,
          split_data-marked f.command q.len q.rest q.known.0,
          q.split,
          q.measured,
        ))
