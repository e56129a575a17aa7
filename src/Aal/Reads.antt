-- ===== src/Aal/Reads.antt =====
-- internal/aal/aal.go, decodeReplayChunk and Replay: a log of whole records is replayed frame by
-- frame, wherever the reads cut it.
use aqueduct.Base.Bytes.{slice-append, le32-put, slice, at-append, at, Bytes, le32_at, put_le32}
use aqueduct.Base.{
  append_assoc, ◌∙◌, ap, length-append, refl, ap₂, some, sym, zero, drop, ok, suc, arith, ◌^◌, ◌≤◌,
  [], ◌+◌, ◌<◌, ◌≡◌, length, ℕ, ◌++◌, ◌∷◌, List, Option,
}
use aqueduct.Aal.Replay.{partial, whole, decrypt_replay_record, next_piece}
use aqueduct.Aal.{Aead}

-- A record's body, and the frame that it decrypts to.
pub record Item : Type 0 where
  pub body : Bytes
  pub plain : Bytes

abbrev pub record_bytes : Bytes → Bytes
record_bytes body = put_le32 (length body) ++ body

abbrev pub log_of : List Item → Bytes
log_of [] = []
log_of (w ∷ ws) = record_bytes w.body ++ log_of ws

-- A record that fits the replay buffer and decrypts.
abbrev pub IsItem : Option Aead → Item → Type 0
IsItem aead w =
    (0 < length w.body)
    × (length w.body ≤ 65532)
    × (decrypt_replay_record aead w.body ≡ some w.plain)

pub length-record_bytes : (b : Bytes) → length (record_bytes b) ≡ 4 + length b
unfolding put_le32
length-record_bytes b = omega arith

-- Two cuts of one text.
pub split_front :
    (a b x y : Bytes)
    → x ++ y ≡ a ++ b
    → length a ≤ length x
    → (x ≡ a ++ drop (length a) x) × (drop (length a) x ++ y ≡ b)
split_front [] b x y e h = (refl, e)
split_front (c ∷ a) b [] y e h = absurd (omega arith)
split_front (c ∷ a) b (d ∷ x) y e h =
    let same : d ≡ c = cc e in
    let tails : x ++ y ≡ a ++ b = cc e in
    let r = split_front a b x y tails (omega arith) in (ap₂ (λ p q. p ∷ q) same r.0, r.1)

at_front : (x y : Bytes) (i : ℕ) → i < length x → at {E = ⊥} (x ++ y) i ≡ at x i
at_front [] y i h = absurd (omega arith)
at_front (c ∷ x) y zero h = refl
at_front (c ∷ x) y (suc i) h = at_front x y i (omega arith)

le32_at-front : (x y : Bytes) (i : ℕ) → i + 4 ≤ length x → le32_at {E = ⊥} (x ++ y) i ≡ le32_at x i
unfolding le32_at
le32_at-front x y i h = rw (
  at_front x y i (omega arith),
  at_front x y (i + 1) (omega arith),
  at_front x y (i + 2) (omega arith),
  at_front x y (i + 3) (omega arith),
)

pub le32_at-record :
    (front more : Bytes) (n c : ℕ)
    → c ≡ length front
    → n < 2 ^ 32
    → le32_at {E = ⊥} (front ++ (put_le32 n ++ more)) c ≡ ok n
unfolding le32_at put_le32
le32_at-record front more n c e h =
    let r = put_le32 n ++ more in
    rw
      (
        at-append {E = ⊥} front r 0 c (omega arith),
        at-append {E = ⊥} front r 1 (c + 1) (omega arith),
        at-append {E = ⊥} front r 2 (c + 2) (omega arith),
        at-append {E = ⊥} front r 3 (c + 3) (omega arith),
      )
      (ap ok (le32-put n h))

-- The length of a record that is there with its first four bytes at least.
le32_at-cut :
    (front x y body tail : Bytes) (c : ℕ)
    → c ≡ length front
    → x ++ y ≡ record_bytes body ++ tail
    → 4 ≤ length x
    → length body < 2 ^ 32
    → le32_at {E = ⊥} (front ++ x) c ≡ ok (length body)
le32_at-cut front x y body tail c e cut four small =
    sym (le32_at-front (front ++ x) y c (omega (arith, length-append front x)))
    ∙ ap (λ b. le32_at {E = ⊥} b c)
        (append_assoc front x y
          ∙ ap (λ b. front ++ b) (cut ∙ append_assoc (put_le32 (length body)) body tail))
    ∙ le32_at-record front (body ++ tail) (length body) c e small

pub next_piece-partial :
    (front x y body tail : Bytes) (c : ℕ)
    → c ≡ length front
    → x ++ y ≡ record_bytes body ++ tail
    → length x < 4 + length body
    → 0 < length body
    → length body ≤ 65532
    → next_piece (front ++ x) c ≡ ok partial
unfolding next_piece
next_piece-partial front x y body tail c e cut short pos small =
    ground (arith, length-append front x, le32_at-cut front x y body tail c e cut)

pub next_piece-whole :
    (front body x : Bytes) (c : ℕ)
    → c ≡ length front
    → 0 < length body
    → length body ≤ 65532
    → next_piece (front ++ (record_bytes body ++ x)) c ≡ ok (whole body (c + (4 + length body)))
unfolding next_piece put_le32
next_piece-whole front body x c e pos small =
    let n = length body in
    let four = put_le32 n in
    ground (
      arith,
      length-append front (record_bytes body ++ x),
      length-append (record_bytes body) x,
      length-record_bytes body,
      le32_at-record front (body ++ x) n c,
      slice_body,
    )
  where
    slice_body :
        slice {E = ⊥} (front ++ (record_bytes body ++ x)) (c + 4) (c + 4 + length body) ≡ ok body
    slice_body =
        ap (λ b. slice {E = ⊥} b (c + 4) (c + 4 + length body))
          (sym (append_assoc front (put_le32 (length body)) (body ++ x)))
        ∙ slice-append (front ++ put_le32 (length body)) body x (c + 4) (c + 4 + length body)
            (omega (arith, length-append front (put_le32 (length body)), e))
            (omega (arith, length-append front (put_le32 (length body)), e))
