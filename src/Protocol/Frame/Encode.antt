-- ===== src/Protocol/Frame/Encode.antt =====
-- internal/protocol/frame.go: what the serializers write, as a plain concatenation.
use aqueduct.Base.Buffers.{copy_at-append, copy_at, write_part}
use aqueduct.Base.{
  ℕ, ◌+◌, ◌%◌, ◌^◌, ◌≤◌, ◌<◌, ◌≡◌, refl, sym, ap, ◌∙◌, [], ◌∷◌, ◌++◌, append_assoc, append-nil,
  arith, ltb, if◌then◌else◌, length, take, drop, length-append, length-drop, take-append-drop,
  length-take_le,
}
use aqueduct.Base.Bytes.{Bytes, put_le32}
use aqueduct.Protocol.Command.{magic_byte, set_extensions}
use aqueduct.Protocol.Frame.{write_header, serialize_frame, serialize_with_extensions}

abbrev pub header : ℕ → ℕ → ℕ → Bytes
header cmd id len = magic_byte ∷ cmd ∷ (put_le32 id ++ put_le32 len)

-- The wire form of a frame over its data segment.
abbrev pub encode : ℕ → ℕ → Bytes → Bytes
encode cmd id body = header cmd id (length body) ++ body

-- Whatever the recycled buffer held, its first ten bytes become the header.
pub write_header-header :
    (buf : Bytes) (cmd id len : ℕ)
    → 10 ≤ length buf
    → write_header buf cmd id len ≡ header cmd id len ++ drop 10 buf
unfolding write_header put_le32
write_header-header (a ∷ b ∷ c ∷ d ∷ e ∷ f ∷ g ∷ h ∷ i ∷ j ∷ rest) cmd id len p =
    ap (λ v. copy_at v 6 (put_le32 len))
      (copy_at-append (magic_byte ∷ cmd ∷ []) (c ∷ d ∷ e ∷ f ∷ []) (g ∷ h ∷ i ∷ j ∷ rest)
        (put_le32 id) 2 refl refl)
    ∙ copy_at-append (magic_byte ∷ cmd ∷ put_le32 id) (g ∷ h ∷ i ∷ j ∷ []) rest (put_le32 len) 6
        refl refl
write_header-header buf cmd id len p = absurd (omega arith)

small : (n : ℕ) → n < 2 ^ 32 → n % 2 ^ 32 ≡ n
small n h = omega arith

-- A frame in a recycled buffer of its size does not depend on what the buffer held.
pub serialize_frame-encode :
    (buf : Bytes) (cmd id : ℕ) (payload : Bytes)
    → length buf ≡ 10 + length payload
    → length payload < 2 ^ 32
    → serialize_frame buf cmd id payload ≡ encode cmd id payload
unfolding serialize_frame
serialize_frame-encode buf cmd id payload p q =
    rw (small (length payload) q, write_header-header buf cmd id (length payload) (omega arith))
      (simp append-nil at (
        write_part (header cmd id (length payload)) (drop 10 buf) [] payload 10 refl
          (omega (arith, length-drop 10 buf))))

pub write_first :
    (h y first rest : Bytes)
    → length y ≡ length first + length rest
    → (if ltb 0 (length first) then copy_at (h ++ y) (length h) first else h ++ y)
      ≡ (h ++ first) ++ drop (length first) y
write_first h y first rest e =
    ap (λ t. if ltb 0 (length first) then copy_at (h ++ t) (length h) first else h ++ t)
      (sym (take-append-drop (length first) y))
    ∙ write_part h (take (length first) y) (drop (length first) y) first (length h) refl
        (sym (length-take_le (length first) y (omega arith)))
    ∙ sym (append_assoc h first (drop (length first) y))

write_both :
    (h y first rest : Bytes)
    → length y ≡ length first + length rest
    → (let c = if ltb 0 (length first) then copy_at (h ++ y) (length h) first else h ++ y in
        if ltb 0 (length rest) then copy_at c (length h + length first) rest else c)
      ≡ h ++ (first ++ rest)
write_both h y first rest e = rw (write_first h y first rest e) (
    simp append-nil at (
      write_part (h ++ first) (drop (length first) y) [] rest (length h + length first)
        (sym (length-append h first)) (omega (arith, length-drop (length first) y)))
    ∙ append_assoc h first rest)

pub serialize_with_extensions-encode :
    (buf : Bytes) (cmd id : ℕ) (extensions payload : Bytes)
    → length buf ≡ 10 + length extensions + length payload
    → length extensions + length payload < 2 ^ 32
    → serialize_with_extensions buf cmd id extensions payload
      ≡ encode (set_extensions cmd) id (extensions ++ payload)
unfolding serialize_with_extensions
serialize_with_extensions-encode buf cmd id extensions payload p q =
    rw
      (
        small (length extensions) (omega arith),
        small (length payload) (omega arith),
        small (length extensions + length payload) q,
        write_header-header buf (set_extensions cmd) id (length extensions + length payload)
            (omega arith),
        length-append extensions payload,
      )
      (write_both (header (set_extensions cmd) id (length extensions + length payload))
        (drop 10 buf) extensions payload (omega (arith, length-drop 10 buf)))
