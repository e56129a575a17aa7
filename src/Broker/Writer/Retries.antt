-- ===== src/Broker/Writer/Retries.antt =====
-- internal/broker/router.go, handleNack and the retry extension that runSubscriberWriter reads.
use aqueduct.Broker.Writer.Offsets.{le64_at-put_le64, length-put_le64}
use aqueduct.Base.{
  inr, ==_refl, inl, Bool-cases, lt→ltb, true, append-nil, arith, sym, le→ltb, ltb, ◌∙◌, Option, ap,
  if◌then◌else◌, ◌%◌, some, ◌++◌, ◌≤◌, refl, [], ok, ◌+◌, ◌∷◌, ◌^◌, ◌<◌, ◌≡◌, length, ℕ,
}
use aqueduct.Broker.Writer.Nacks.{
  below_limit, bump, forget, dlq_frame, handle_cached, NackCounters, ignore_error, retry_frame,
  retry_extension, nack_key,
}
use aqueduct.Broker.Refs.{update}
use aqueduct.Protocol.Frame.{serialize_with_extensions, Frame, has_extensions}
use aqueduct.Protocol.Extensions.Find.{find_extension-first_value}
use aqueduct.Protocol.Command.{header_size, cmd_publish, has_extensions_bit, set_extensions}
use aqueduct.Broker.Writer.{le64_at, original_or, zero_bytes, delivery_offset, put_le64}
use aqueduct.Broker.Router.Publish.{publish_with_client_id, Outside, serialize_message}
use aqueduct.Protocol.Frame.Encode.{serialize_with_extensions-encode, encode}
use aqueduct.Protocol.Extensions.{find_extension, ext_retry_offset}
use aqueduct.Protocol.Extensions.Entries.{first_value, entries_bytes, block_of, Entry}
use aqueduct.Broker.Router.{Router}
use aqueduct.Base.Bytes.{Bytes, put_le32, put_le16}
use aqueduct.Base.Buffers.{copy_at}
use aqueduct.Protocol.Extensions.Build.{set_ext_total_len}

abbrev retry_entry : ℕ → Entry
retry_entry offset = record { typ = ext_retry_offset; value = put_le64 offset }

retry_extension-block_of :
    (offset : ℕ) → retry_extension offset ≡ block_of (entries_bytes (retry_entry offset ∷ []))
unfolding retry_extension set_ext_total_len put_le16 copy_at put_le64 put_le32 zero_bytes
retry_extension-block_of offset = refl

first_value-retry_entry :
    (offset : ℕ) → first_value (retry_entry offset ∷ []) ext_retry_offset ≡ some (put_le64 offset)
unfolding first_value put_le64 put_le32
first_value-retry_entry offset = refl

delivery_offset-encode :
    (id own : ℕ) (body : Bytes) (found : Option Bytes)
    → find_extension body ext_retry_offset ≡ ok found
    → delivery_offset (encode (set_extensions cmd_publish) id body) own ≡ original_or own found
unfolding delivery_offset put_le32 set_extensions has_extensions_bit
delivery_offset-encode id own body found e =
    rw (le→ltb (length (encode (set_extensions cmd_publish) id body)) header_size (omega arith), e)
      refl

original_or-put_le64 :
    (own offset : ℕ) → offset < 2 ^ 64 → original_or own (some (put_le64 offset)) ≡ ok offset
original_or-put_le64 own offset h =
    rw (length-put_le64 offset)
      (ap (λ x. le64_at x 0) (sym (append-nil (put_le64 offset))) ∙ le64_at-put_le64 offset [] h)

extended :
    (o : Outside) (f : Frame) (topic : Bytes)
    → has_extensions f ≡ true
    → serialize_message o f topic
      ≡ serialize_with_extensions
          (o.slab (header_size + length f.extensions + length topic))
          cmd_publish
          0
          f.extensions
          topic
unfolding serialize_message
extended o f topic e = rw e refl

extensions-retry_frame :
    (topic : Bytes) (offset : ℕ) → (retry_frame topic offset).extensions ≡ retry_extension offset
unfolding retry_frame
extensions-retry_frame topic offset = refl

length-retry_extension : (offset : ℕ) → length (retry_extension offset) ≡ 12
unfolding put_le64 put_le32 put_le16
length-retry_extension offset = ap (λ b. length b) (retry_extension-block_of offset)

has_extensions-long : (f : Frame) → 0 < length f.extensions → has_extensions f ≡ true
unfolding has_extensions
has_extensions-long f h = lt→ltb 0 (length f.extensions) h

serialized :
    (o : Outside) (f : Frame) (topic : Bytes)
    → ((n : ℕ) → length (o.slab n) ≡ n)
    → 0 < length f.extensions
    → length f.extensions + length topic < 2 ^ 32
    → serialize_message o f topic ≡ encode (set_extensions cmd_publish) 0 (f.extensions ++ topic)
serialized o f topic slab there fits =
    extended o f topic (has_extensions-long f there)
    ∙ serialize_with_extensions-encode (o.slab (header_size + length f.extensions + length topic))
        cmd_publish 0 f.extensions topic (slab (header_size + length f.extensions + length topic))
        fits

-- The writer that delivers a retried message takes the offset of the message that was NACKed, and
-- not the retry's own: from what the broker serializes for a retry, whatever the slab's buffer held,
-- where the offset is a uint64 and the topic leaves room in the length field.
pub delivery_offset-retry_frame :
    (o : Outside) (topic clean : Bytes) (offset own : ℕ)
    → ((n : ℕ) → length (o.slab n) ≡ n)
    → offset < 2 ^ 64
    → length clean + 12 < 2 ^ 32
    → delivery_offset (serialize_message o (retry_frame topic offset) clean) own ≡ ok offset
unfolding put_le64 put_le32
delivery_offset-retry_frame o topic clean offset own slab h fits =
    let es = retry_entry offset ∷ [] in
    let found : find_extension (retry_extension offset ++ clean) ext_retry_offset
        ≡ ok (some (put_le64 offset)) =
      ap (λ b. find_extension (b ++ clean) ext_retry_offset) (retry_extension-block_of offset)
      ∙ (find_extension-first_value ext_retry_offset es clean
            (omega (arith, length-put_le64 offset))
          ∙ ap ok (first_value-retry_entry offset)) in
    let block = extensions-retry_frame topic offset in
    let len : length (retry_frame topic offset).extensions ≡ 12 =
      ap (λ b. length b) block ∙ length-retry_extension offset in
    let frame =
      serialized o (retry_frame topic offset) clean slab (omega (arith, len))
        (omega (arith, len)) in
    ap (λ b. delivery_offset b own) frame
    ∙ (ap (λ b. delivery_offset (encode (set_extensions cmd_publish) 0 (b ++ clean)) own) block
        ∙ (delivery_offset-encode 0 own (retry_extension offset ++ clean) (some (put_le64 offset))
              found
            ∙ original_or-put_le64 own offset h))

update-same {ℓ} : {A : Type ℓ} (f : ℕ → A) (i : ℕ) (a : A) → update f i a i ≡ a
update-same f i a = rw (==_refl i) refl

bump-same :
    (counters : NackCounters) (key offset c : ℕ)
    → counters key offset ≡ c
    → c < 127
    → bump counters key offset key offset ≡ c + 1
bump-same counters key offset c e h =
    let n = (counters key offset + 1) % 256 in
    ap (λ t. t offset) (update-same counters key (update (counters key) offset n))
    ∙ (update-same (counters key) offset n ∙ omega (arith, e))

forget-same : (counters : NackCounters) (key offset : ℕ) → forget counters key offset key offset ≡ 0
forget-same counters key offset =
    ap (λ t. t offset) (update-same counters key (update (counters key) offset 0))
    ∙ update-same (counters key) offset 0

below_limit-ltb :
    (c limit : ℕ) → c < limit → limit ≤ 127 → below_limit (c + 1) limit ≡ ltb (c + 1) limit
below_limit-ltb c limit h small = ground arith

module _ (limit : ℕ) (o : Outside) (r : Router) (counters : NackCounters) where
  -- What a NACK publishes, by the count that it reaches.
  abbrev pub reaction : ℕ → Bytes → ℕ → Frame
  reaction count topic offset =
      if ltb count limit then retry_frame topic offset else dlq_frame topic

  pub handle_cached-lem :
      (offset : ℕ) (topic : Bytes) (c : ℕ)
      → counters (nack_key topic) offset ≡ c
      → c < limit
      → limit ≤ 127
      → ((handle_cached limit o r counters offset topic).1 (nack_key topic) offset
          ≡ (if ltb (c + 1) limit then c + 1 else 0))
        × ((handle_cached limit o r counters offset topic).0
            ≡ ignore_error r (publish_with_client_id o r (reaction (c + 1) topic offset) []))
  unfolding handle_cached
  handle_cached-lem offset topic c e h small =
      let key = nack_key topic in
      let count = bump-same counters key offset c e (omega arith) in
      elim (Bool-cases (ltb (c + 1) limit)) [
        | inl below ↦ rw (count, below_limit-ltb c limit h small, below) (count, refl)
        | inr at_limit ↦
            rw (count, below_limit-ltb c limit h small, at_limit)
              (forget-same (bump counters key offset) key offset, refl)
      ]
