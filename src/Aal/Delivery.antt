-- ===== src/Aal/Delivery.antt =====
-- internal/aal/aal.go, Replay: the whole loop over a file, and where it stops without an end.
use aqueduct.Base.{
  ◌*◌, subst, length-drop, ltb, ◌&&◌, ◌+◌, take-append-drop, ◌∙◌, append-nil, append_assoc,
  length-append, drop, sym, take, ◌==◌, ap, false, ◌-◌, refl, zero, ◌∷◌, suc, arith, length, true,
  ◌≡◌, [], ◌++◌, All, List, Bool, ◌<◌, ◌≤◌, Option, ℕ,
}
use aqueduct.Aal.Replay.{replay, after_chunk, Decoded, Replayed, DecodeEnd, replay_loop}
use aqueduct.Base.Buffers.{empty_of_length}
use aqueduct.Aal.Stream.{chunk-Chunked, IsShort, goes, fails, deliver, Chunked}
use aqueduct.Aal.Reads.{length-record_bytes, record_bytes, log_of, IsItem, Item}
use aqueduct.Base.Bytes.{Bytes}
use aqueduct.Aal.{Aead}

-- What is relied on of a read from a file: it fits the space and the file, and takes something
-- where there are both.
pub record IsReader (amount : ℕ → ℕ → ℕ) : Type 0 where
  pub fits : (space left : ℕ) → amount space left ≤ space
  pub exists_there : (space left : ℕ) → amount space left ≤ left
  pub moves : (space left : ℕ) → 0 < space → 0 < left → 0 < amount space left

module _ {S : Type 0} (aead : Option Aead) (handler : Bytes → S → S × Bool)
    (amount : ℕ → ℕ → ℕ) where
  abbrev pub replayed : ℕ × S × DecodeEnd → Replayed aead handler
  replayed (count, s, e) = record { total = count; result = s; stopped = e }

  -- The last chunk: nothing of the file is left.
  all_read :
      (x rest : Bytes) (ws : List Item) (count : ℕ) (s : S) (d : Decoded S)
      (continue : Bytes → ℕ → S → Replayed aead handler)
      → Chunked aead handler ws [] x count s d
      → after_chunk aead handler amount x rest true d continue
        ≡ replayed (deliver aead handler ws count s)
  all_read x rest ws count s d continue (fails a e) = rw (a, after_chunk) (rw e refl)
  all_read x rest ws count s d continue (goes a [] all cut short e) =
      rw (a, after_chunk) (rw e (unfold deliver in refl))
  all_read x rest ws count s d continue (goes a (w ∷ left) all cut short e) = absurd (
      omega (
        arith,
        short,
        ap (λ (l : Bytes). length l) (sym (append-nil (drop d.consumed x)) ∙ cut),
        length-append (record_bytes w.body) (log_of left),
        length-record_bytes w.body,
      ))

  short_room :
      (x : Bytes) (left : List Item)
      → All (IsItem aead) left
      → IsShort aead handler x left
      → length x < 65536
  short_room x [] all h = omega arith
  short_room x (w ∷ left) all h = omega (arith, h, all.0.1)

  -- A chunk that others follow.
  more_read :
      (x y rest : Bytes) (ws : List Item) (count : ℕ) (s : S) (d : Decoded S)
      (continue : Bytes → ℕ → S → Replayed aead handler)
      → Chunked aead handler ws y x count s d
      → ((kept : Bytes) (left : List Item) (n : ℕ) (t : S)
          → All (IsItem aead) left
          → kept ++ y ≡ log_of left
          → length kept < 65536
          → continue kept n t ≡ replayed (deliver aead handler left n t))
      → after_chunk aead handler amount x rest false d continue
        ≡ replayed (deliver aead handler ws count s)
  more_read x y rest ws count s d continue (fails a e) k = rw (a, after_chunk) (rw e refl)
  more_read x y rest ws count s d continue (goes a left all cut short e) k =
      rw (a, after_chunk)
        (rw e (
          k (drop d.consumed x) left d.count d.state all cut
            (short_room (drop d.consumed x) left all short)))

  chunk_read :
      (at_end : Bool) (x y rest : Bytes) (ws : List Item) (count : ℕ) (s : S) (d : Decoded S)
      (continue : Bytes → ℕ → S → Replayed aead handler)
      → Chunked aead handler ws y x count s d
      → (at_end ≡ true → y ≡ [])
      → (at_end ≡ false
          → (kept : Bytes) (left : List Item) (n : ℕ) (t : S) → All (IsItem aead) left
          → kept ++ y ≡ log_of left
          → length kept < 65536
          → continue kept n t ≡ replayed (deliver aead handler left n t))
      → after_chunk aead handler amount x rest at_end d continue
        ≡ replayed (deliver aead handler ws count s)
  chunk_read true x y rest ws count s d continue c none_left k =
      all_read x rest ws count s d continue
        (subst (λ z. Chunked aead handler ws z x count s d) (none_left refl) c)
  chunk_read false x y rest ws count s d continue c none_left k =
      more_read x y rest ws count s d continue c (k refl)

  module _ (r : IsReader amount) where
    replay_loop-deliver :
        (fuel : ℕ) (buf rest : Bytes) (ws : List Item) (count : ℕ) (s : S)
        → All (IsItem aead) ws
        → buf ++ rest ≡ log_of ws
        → length buf < 65536
        → length rest < fuel
        → replay_loop aead handler amount fuel buf rest count s
          ≡ replayed (deliver aead handler ws count s)
    unfolding replay_loop
    replay_loop-deliver zero buf rest ws count s all cut room f = absurd (omega arith)
    replay_loop-deliver (suc fuel) buf rest ws count s all cut room f =
        let space = 64 * 1024 - length buf in
        let n = amount space (length rest) in
        let filled = buf ++ take n rest in
        let whole_cut : filled ++ drop n rest ≡ log_of ws =
          append_assoc buf (take n rest) (drop n rest)
          ∙ ap (λ l. buf ++ l) (take-append-drop n rest)
          ∙ cut in
        let d = chunk-Chunked aead handler filled (drop n rest) ws count s all whole_cut in
        chunk_read (length rest == 0 && ltb 0 space) filled (drop n rest) rest ws count s _ _ d
          (λ done. empty_of_length (drop n rest) (ground (arith, length-drop n rest, done)))
          (λ more kept left k t all' cut' room'.
            replay_loop-deliver fuel kept (drop n rest) left k t all' cut' room' (
              ground (
                arith,
                more,
                length-drop n rest,
                r.exists_there space (length rest),
                r.moves space (length rest),
              )))

    -- Replay of a file of whole records, each of which decrypts and fits the 64 KB buffer, hands
    -- every frame to the handler in order, until the handler returns an error, and ends by itself,
    -- wherever the reads cut the file.
    pub replay-deliver :
        (ws : List Item) (s : S)
        → All (IsItem aead) ws
        → replay aead handler amount (log_of ws) s ≡ replayed (deliver aead handler ws 0 s)
    unfolding replay
    replay-deliver [] s all = unfold deliver in refl
    replay-deliver (w ∷ ws) s all =
        let file = log_of (w ∷ ws) in
        let filled : (length file == 0) ≡ false =
          ground
            (arith, length-append (record_bytes w.body) (log_of ws), length-record_bytes w.body) in
        rw (filled, replay)
          (replay_loop-deliver (length file + 2) [] file (w ∷ ws) 0 s all refl (omega arith)
            (omega arith))
