-- ===== src/Aal/Stream.antt =====
-- internal/aal/aal.go, decodeReplayChunk and Replay: a log of whole records is replayed frame by
-- frame, wherever the reads cut it.
use aqueduct.Base.{
  append_assoc, sym, subst, ◌∙◌, ltb→le, lt→ltb, ltb→lt, true, ltb, zero, inr, le→ltb,
  length-append, ap, inl, Bool-cases, refl, suc, arith, drop-append_eq, [], if◌then◌else◌, drop,
  ◌++◌, ◌+◌, ◌<◌, All, false, ◌∷◌, ◌≡◌, length, ℕ, List, Bool, Option,
}
use aqueduct.Aal.Reads.{
  next_piece-whole, split_front, length-record_bytes, next_piece-partial, record_bytes, log_of,
  IsItem, Item,
}
use aqueduct.Aal.Replay.{
  decode_replay_chunk, after_handler, decrypt_replay_record, handle_record, failed, finished,
  DecodeEnd, Decoded, decode_loop,
}
use aqueduct.Base.Bytes.{Bytes}
use aqueduct.Aal.{Aead}

module _ {S : Type 0} (aead : Option Aead) (handler : Bytes → S → S × Bool) where
  -- What a replay is for: the handler on each frame in turn, until it returns an error. The frames
  -- handled, the state, and how it ends.
  unfoldable pub deliver : List Item → ℕ → S → ℕ × S × DecodeEnd
  deliver [] count s = (count, s, finished)
  deliver (w ∷ ws) count s =
      let rest = deliver ws (count + 1) (handler w.plain s).0 in
      if (handler w.plain s).1 then (count, (handler w.plain s).0, failed) else rest

  -- Less than one record is kept.
  abbrev pub IsShort : Bytes → List Item → Type 0
  IsShort x [] = length x ≡ 0
  IsShort x (w ∷ ws) = length x < 4 + length w.body

  -- How a chunk leaves a log of which it is the front and y the back.
  pub data Chunked (ws : List Item) (y : Bytes) (buf : Bytes) (count : ℕ) (s : S) (d : Decoded S)
      : Type 0 where
    fails :
        d.ended ≡ failed
        → deliver ws count s ≡ (d.count, d.state, failed)
        → Chunked ws y buf count s d
    goes :
        d.ended ≡ finished
        → (left : List Item) → All (IsItem aead) left
        → drop d.consumed buf ++ y ≡ log_of left
        → IsShort (drop d.consumed buf) left
        → deliver ws count s ≡ deliver left d.count d.state
        → Chunked ws y buf count s d

  stops_here :
      (front x y : Bytes) (ws : List Item) (c count : ℕ) (s : S)
      → c ≡ length front
      → All (IsItem aead) ws
      → x ++ y ≡ log_of ws
      → IsShort x ws
      → Chunked ws y
          (front ++ x)
          count
          s
          (record { consumed = c; count = count; state = s; ended = finished })
  stops_here front x y ws c count s e all cut short =
      let left = drop-append_eq c front x e in goes refl ws all (rw left cut) (rw left short) refl

  -- What follows a record is what follows the chunk's remainder.
  passes :
      (w : Item) (ws : List Item) (y buf : Bytes) (count : ℕ) (s : S) (d : Decoded S)
      → (handler w.plain s).1 ≡ false
      → Chunked ws y buf (count + 1) (handler w.plain s).0 d
      → Chunked (w ∷ ws) y buf count s d
  unfolding deliver
  passes w ws y buf count s d on (fails a e) = fails a (rw on e)
  passes w ws y buf count s d on (goes a left all cut short e) = goes a left all cut short (rw on e)

  handle :
      (w : Item) (ws : List Item) (y buf : Bytes) (c count : ℕ) (s : S)
      (continue : ℕ → S → Decoded S)
      → IsItem aead w
      → Chunked ws y buf
          (count + 1)
          (handler w.plain s).0
          (continue (count + 1) (handler w.plain s).0)
      → Chunked
          (w ∷ ws)
          y
          buf
          count
          s
          (handle_record aead handler c count s (decrypt_replay_record aead w.body) continue)
  unfolding deliver
  handle w ws y buf c count s continue i k = rw i.2 (elim (Bool-cases (handler w.plain s).1) [
    | inl bad ↦ rw (bad, after_handler) (fails refl (rw bad refl))
    | inr good ↦ rw (good, after_handler) (passes w ws y buf count s _ good k)
  ])

  short_chunk :
      (fuel : ℕ) (front x y : Bytes) (w : Item) (ws : List Item) (c count : ℕ) (s : S)
      → c ≡ length front
      → All (IsItem aead) (w ∷ ws)
      → x ++ y ≡ log_of (w ∷ ws)
      → length x < 4 + length w.body
      → Chunked
          (w ∷ ws)
          y
          (front ++ x)
          count
          s
          (decode_loop aead handler (suc fuel) (front ++ x) c count s)
  unfolding decode_loop
  short_chunk fuel front x y w ws c count s e all cut short =
      let here = stops_here front x y (w ∷ ws) c count s e all cut short in
      elim (Bool-cases (ltb c (length (front ++ x)))) [
        | inr past ↦ rw (past, decode_loop) here
        | inl more ↦
            rw (more, decode_loop)
              (rw (next_piece-partial front x y w.body (log_of ws) c e cut short all.0.0 all.0.1)
                here)
      ]

  first_record :
      (fuel : ℕ) (front x y : Bytes) (w : Item) (ws : List Item) (c count : ℕ) (s : S)
      → c ≡ length front
      → IsItem aead w
      → Chunked ws y (front ++ (record_bytes w.body ++ x)) (count + 1) (handler w.plain s).0 (
          decode_loop aead handler fuel
            (front ++ (record_bytes w.body ++ x))
            (c + (4 + length w.body))
            (count + 1)
            (handler w.plain s).0)
      → Chunked
          (w ∷ ws)
          y
          (front ++ (record_bytes w.body ++ x))
          count
          s
          (decode_loop aead handler (suc fuel) (front ++ (record_bytes w.body ++ x)) c count s)
  unfolding decode_loop
  first_record fuel front x y w ws c count s e i k =
      let buf = front ++ (record_bytes w.body ++ x) in
      let inside : ltb c (length buf) ≡ true = lt→ltb c (length buf) (
        omega (
          arith,
          length-append front (record_bytes w.body ++ x),
          length-append (record_bytes w.body) x,
          length-record_bytes w.body,
        )) in
      rw (inside, decode_loop)
        (rw (next_piece-whole front w.body x c e i.0 i.1) (
          handle w ws y buf c count s (decode_loop aead handler fuel buf (c + (4 + length w.body)))
            i k))

  decode_loop-Chunked :
      (fuel : ℕ) (front x y : Bytes) (ws : List Item) (c count : ℕ) (s : S)
      → c ≡ length front
      → All (IsItem aead) ws
      → x ++ y ≡ log_of ws
      → length x < fuel
      → Chunked ws y (front ++ x) count s (decode_loop aead handler fuel (front ++ x) c count s)
  unfolding decode_loop
  decode_loop-Chunked zero front x y ws c count s e all cut f = absurd (omega arith)
  decode_loop-Chunked (suc fuel) front x y [] c count s e all cut f =
      let empty : length x ≡ 0 =
        omega (arith, ap (λ (l : Bytes). length l) cut, length-append x y) in
      rw (le→ltb c (length (front ++ x)) (omega (arith, length-append front x, empty)), decode_loop)
        (stops_here front x y [] c count s e all cut empty)
  decode_loop-Chunked (suc fuel) front x y (w ∷ ws) c count s e all cut f =
      let body = w.body in
      elim (Bool-cases (ltb (length x) (4 + length body))) [
        | inl part ↦
            short_chunk fuel front x y w ws c count s e all cut
              (ltb→lt (length x) (4 + length body) part)
        | inr room ↦
            let k = length-record_bytes body in
            let r =
              split_front (record_bytes body) (log_of ws) x y cut
                (omega (arith, k, ltb→le (length x) (4 + length body) room)) in
            let kept = drop (length (record_bytes body)) x in
            let shorter : length x ≡ 4 + length body + length kept =
              ap (λ (l : Bytes). length l) r.0
              ∙ omega (arith, length-append (record_bytes body) kept, k) in
            subst
              (λ b.
                Chunked (w ∷ ws) y (front ++ b) count s
                  (decode_loop aead handler (suc fuel) (front ++ b) c count s))
              (sym r.0)
              (first_record fuel front kept y w ws c count s e all.0 (
                subst
                  (λ b. Chunked ws y b (count + 1) (handler w.plain s).0 (
                    decode_loop aead handler fuel b (c + (4 + length body)) (count + 1)
                      (handler w.plain s).0))
                  (append_assoc front (record_bytes body) kept)
                  (decode_loop-Chunked fuel (front ++ record_bytes body) kept y ws
                    (c + (4 + length body)) (count + 1) (handler w.plain s).0
                    (omega (arith, length-append front (record_bytes body), k)) all.1 r.1
                    (omega (arith, shorter)))))
      ]

  -- One chunk, from its start.
  pub chunk-Chunked :
      (x y : Bytes) (ws : List Item) (count : ℕ) (s : S)
      → All (IsItem aead) ws
      → x ++ y ≡ log_of ws
      → Chunked ws y x count s (decode_replay_chunk aead handler x count s)
  unfolding decode_replay_chunk
  chunk-Chunked x y ws count s all cut =
      decode_loop-Chunked (length x + 1) [] x y ws 0 count s refl all cut (omega arith)
