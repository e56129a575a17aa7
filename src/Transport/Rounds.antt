-- ===== src/Transport/Rounds.antt =====
-- internal/transport/broker.go: what one round of `dispatchFrames` does, by cases.
use aqueduct.Base.{
  tests, drop, ◌∙◌, ap, subst, length-take_le, refl, ltb→le, ltb→lt, inr, fault, inl, ltb,
  Bool-cases, arith, err, take, Outcome, ◌+◌, ◌<◌, ◌≡◌, ◌⊎◌, length, ℕ, ◌≤◌, ok,
}
use aqueduct.Transport.{
  bad_frame, decompress_frame, log_frame, read_payload_len, oversized_payload, buffer_exceeded,
  decompression_failed, unauthorized, prepared, refused, Prepared, admit_frame, DecompressError,
  StreamError, admit_parsed, incomplete, admit_expanded, finish_prepare, Session, Broker,
  prepare_frame,
}
use aqueduct.Protocol.Frame.{ParseError, parse_frame, Frame}
use aqueduct.Transport.Route.{
  after_route, dispatch_step, route_frame, no_fuel, crashed, rejected, left, Dispatched,
}
use aqueduct.Protocol.Command.{header_size}
use aqueduct.Base.Bytes.{Bytes}

-- The bytes that a frame's header asks for; ten where the header is not there yet.
abbrev pub wanted : Bytes → ℕ
wanted x = header_size + read_payload_len x

-- No whole frame yet, and none that the limit forbids.
abbrev pub IsCut : Broker → Bytes → Type 0
IsCut b x = (length x < wanted x) × ((length x < 10) ⊎ (wanted x ≤ b.max_buf_size))

-- A whole frame within the limit.
pub record IsWhole (b : Broker) (x : Bytes) : Type 0 where
  pub header : 10 ≤ length x
  pub small : wanted x ≤ b.max_buf_size
  pub here : wanted x ≤ length x

abbrev pub IsStop : Dispatched → Type 0
IsStop (left z) = ⊥
IsStop (rejected e) = Unit
IsStop crashed = Unit
IsStop no_fuel = ⊥

pub prepare_frame-IsWhole :
    (b : Broker) (client : Bytes) (s : Session) (x : Bytes)
    → IsWhole b x
    → prepare_frame b client s x ≡ admit_parsed b client s (take (wanted x) x) (parse_frame x)
unfolding prepare_frame
prepare_frame-IsWhole b client s x w = ground (arith, w.header, w.small, w.here)

pub prepare_frame-cases :
    (b : Broker) (client : Bytes) (s : Session) (x : Bytes)
    → IsWhole b x
      ⊎ ((IsCut b x × (prepare_frame b client s x ≡ (s, ok incomplete)))
          ⊎ ((e : StreamError) × (prepare_frame b client s x ≡ (s, err e))
              × ((b.max_buf_size < 10) ⊎ ((10 ≤ length x) × (b.max_buf_size < wanted x)))))
unfolding prepare_frame read_payload_len
prepare_frame-cases b client s x = elim (Bool-cases (ltb (length x) 10)) [
  | inl short ↦ elim (Bool-cases (ltb b.max_buf_size (length x))) [
    | inl over ↦
        inr (inr (buffer_exceeded, rw (short, over, prepare_frame) refl, inl (omega tests)))
    | inr fits ↦
        let less = ltb→lt (length x) 10 short in
        inr (
          inl ((rw (short, read_payload_len) less, inl less), rw (short, fits, prepare_frame) refl))
  ]
  | inr header ↦ elim (Bool-cases (ltb b.max_buf_size (wanted x))) [
    | inl over ↦ inr (inr (oversized_payload, ground (arith, header, over), inr (omega tests)))
    | inr fits ↦ elim (Bool-cases (ltb (length x) (wanted x))) [
      | inl more ↦ inr (
          inl (
            (ltb→lt (length x) (wanted x) more, inr (ltb→le b.max_buf_size (wanted x) fits)),
            ground (arith, header, fits, more),
          ))
      | inr here ↦ inl (record {
        header = ltb→le (length x) 10 header;
        small = ltb→le b.max_buf_size (wanted x) fits;
        here = ltb→le (length x) (wanted x) here;
      })
    ]
  ]
]

module _ (b : Broker) (client : Bytes) (stream : ℕ) where
  -- What admission says of the frame that it was given.
  data Admitted (f : Frame) (n : ℕ) : Session × Outcome StreamError Prepared → Type 0 where
    passes : (t : Session) → Admitted f n (t, ok (prepared f n))
    denies : (t : Session) (e : StreamError) → Admitted f n (t, err e)
    breaks : (t : Session) → Admitted f n (t, fault)

  finish_prepare-Admitted :
      (f : Frame) (n : ℕ) (s : Session) (o : Outcome ⊥ Session)
      → Admitted f n (finish_prepare f n s o)
  unfolding finish_prepare
  finish_prepare-Admitted f n s (ok t) = passes t
  finish_prepare-Admitted f n s (err e) = absurd e
  finish_prepare-Admitted f n s fault = breaks s

  expanded-Admitted :
      (s : Session) (f : Frame) (bytes : Bytes) (r : ℕ × Outcome DecompressError Frame)
      → Admitted f (length bytes) (admit_expanded b client s f bytes r)
  unfolding admit_expanded
  expanded-Admitted s f bytes (spent, ok g) = elim (Bool-cases (refused b client f)) [
    | inl e ↦ rw e (denies _ unauthorized)
    | inr e ↦ rw e (
        let t = record s { decompressed = spent } in
        finish_prepare-Admitted f (length bytes) t (log_frame b t f bytes))
  ]
  expanded-Admitted s f bytes (spent, err e) = denies _ decompression_failed
  expanded-Admitted s f bytes (spent, fault) = breaks _

  pub data Round (s : Session) (x : Bytes) : Type 0 where
    stays : IsCut b x → prepare_frame b client s x ≡ (s, ok incomplete) → Round s x
    takes :
        (f : Frame) (t u : Session)
        → IsWhole b x
        → parse_frame x ≡ ok f
        → admit_frame b client s f (take (wanted x) x) ≡ (t, ok (prepared f (wanted x)))
        → route_frame b client stream t f ≡ ok u
        → Round s x
    stops :
        (t : Session) (d : Dispatched)
        → IsStop d
        → ((k : Session → Bytes → Session × Dispatched)
            → dispatch_step b client stream x (prepare_frame b client s x) k ≡ (t, d))
        → Round s x

  admit_frame-Admitted :
      (s : Session) (f : Frame) (bytes : Bytes)
      → Admitted f (length bytes) (admit_frame b client s f bytes)
  unfolding admit_frame
  admit_frame-Admitted s f bytes = expanded-Admitted s f bytes (decompress_frame b f s.decompressed)

  routed :
      (s : Session) (x : Bytes) (f : Frame) (t : Session) (o : Outcome ⊥ Session)
      → IsWhole b x
      → parse_frame x ≡ ok f
      → admit_frame b client s f (take (wanted x) x) ≡ (t, ok (prepared f (wanted x)))
      → prepare_frame b client s x ≡ (t, ok (prepared f (wanted x)))
      → route_frame b client stream t f ≡ o
      → Round s x
  unfolding dispatch_step after_route
  routed s x f t (ok u) w e a p r = takes f t u w e a r
  routed s x f t (err e') w e a p r = absurd e'
  routed s x f t fault w e a p r = stops t crashed tt (λ k.
      ap (λ q. dispatch_step b client stream x q k) p
      ∙ ap (λ o. after_route t o (λ u. k u (drop (wanted x) x))) r)

  admitted :
      (s : Session) (x : Bytes) (f : Frame) (q : Session × Outcome StreamError Prepared)
      → IsWhole b x
      → parse_frame x ≡ ok f
      → Admitted f (wanted x) q
      → admit_frame b client s f (take (wanted x) x) ≡ q
      → prepare_frame b client s x ≡ q
      → Round s x
  unfolding dispatch_step
  admitted s x f q w e (passes t) a p =
      routed s x f t (route_frame b client stream t f) w e a p refl
  admitted s x f q w e (denies t e') a p =
      stops t (rejected e') tt (λ k. ap (λ q. dispatch_step b client stream x q k) p)
  admitted s x f q w e (breaks t) a p =
      stops t crashed tt (λ k. ap (λ q. dispatch_step b client stream x q k) p)

  parsed :
      (s : Session) (x : Bytes) (o : Outcome ParseError Frame)
      → IsWhole b x
      → parse_frame x ≡ o
      → prepare_frame b client s x ≡ admit_parsed b client s (take (wanted x) x) o
      → Round s x
  unfolding dispatch_step admit_parsed
  parsed s x (ok f) w e p =
      let n = length-take_le (wanted x) x w.here in
      admitted s x f (admit_frame b client s f (take (wanted x) x)) w e
        (subst (λ m. Admitted f m (admit_frame b client s f (take (wanted x) x))) n
          (admit_frame-Admitted s f (take (wanted x) x)))
        refl p
  parsed s x (err e') w e p =
      stops s (rejected (bad_frame e')) tt (λ k. ap (λ q. dispatch_step b client stream x q k) p)
  parsed s x fault w e p = stops s crashed tt (λ k. ap (λ q. dispatch_step b client stream x q k) p)

  pub Round-cases : (s : Session) (x : Bytes) → Round s x
  unfolding dispatch_step
  Round-cases s x = elim (prepare_frame-cases b client s x) [
    | inl w ↦ let p = prepare_frame-IsWhole b client s x w in parsed s x (parse_frame x) w refl p
    | inr (inl (cut, e)) ↦ stays cut e
    | inr (inr (e, p, _)) ↦
        stops s (rejected e) tt (λ k. ap (λ q. dispatch_step b client stream x q k) p)
  ]
