-- ===== src/Transport/Prefixes.antt =====
-- internal/transport/broker.go, dispatchFrames: a stop is a stop, whatever comes behind it.
use aqueduct.Base.{
  fault, zero, All-drop, length-drop, drop, err, [], suc, ◌+◌, Outcome, take-append_le, take, ap₂,
  ◌⊎◌, subst, sym, length-append, ◌∙◌, ap, inr, inl, arith, ◌≡◌, ◌++◌, ◌∷◌, length, ◌^◌, ◌<◌, ◌≤◌,
  ℕ, All, ok,
}
use aqueduct.Transport.Rounds.{
  stops, takes, stays, Round-cases, IsStop, prepare_frame-IsWhole, prepare_frame-cases, wanted,
}
use aqueduct.Transport.Dispatch.{takes_eq, takes_append, stays_eq, stops_eq, IsWhole-append}
use aqueduct.Transport.Route.{
  route_frame, left, Dispatched, after_route, dispatch_frames, dispatch_loop, dispatch_step,
}
use aqueduct.Transport.{
  prepared, Prepared, StreamError, admit_parsed, incomplete, Session, Broker, prepare_frame,
  read_payload_len,
}
use aqueduct.Base.Bytes.{le32_or-front, le32-put, IsByte, put_le32, Bytes}
use aqueduct.Protocol.Frame.Safety.{split_data-append}
use aqueduct.Protocol.Frame.Body.{parse_frame-fields, fields-append, header_cases}
use aqueduct.Protocol.Frame.{parse_frame}

pub fields_len :
    (m raw id len : ℕ) (rest : Bytes)
    → len < 2 ^ 32
    → read_payload_len (m ∷ raw ∷ (put_le32 id ++ (put_le32 len ++ rest))) ≡ len
unfolding read_payload_len put_le32
fields_len m raw id len rest h = ground (arith, le32-put len h)

fields_here :
    (m raw id len : ℕ) (rest : Bytes)
    → len < 2 ^ 32
    → wanted (m ∷ raw ∷ (put_le32 id ++ (put_le32 len ++ rest)))
      ≤ length (m ∷ raw ∷ (put_le32 id ++ (put_le32 len ++ rest)))
    → len ≤ length rest
unfolding put_le32
fields_here m raw id len rest q h = omega (arith, h, fields_len m raw id len rest q)

read_payload_len-append :
    (x y : Bytes) → 10 ≤ length x → read_payload_len (x ++ y) ≡ read_payload_len x
unfolding read_payload_len
read_payload_len-append x y h = ground (arith, h, length-append x y, le32_or-front x y 6)

-- Bytes behind a whole frame do not change how it parses, right or wrong.
parse_frame-append_whole :
    (x y : Bytes)
    → All IsByte x
    → 10 ≤ length x
    → wanted x ≤ length x
    → parse_frame (x ++ y) ≡ parse_frame x
parse_frame-append_whole x y all header here = elim (header_cases x all) [
  | inl short ↦ absurd (omega (arith, header, short))
  | inr (m, raw, id, len, rest, e, a, b, p, q, more) ↦
      let enough = fields_here m raw id len rest q (subst (λ l. wanted l ≤ length l) e here) in
      ap parse_frame (ap (λ l. l ++ y) e ∙ fields-append m raw id len rest y)
      ∙ parse_frame-fields m raw id len (rest ++ y) p q
      ∙ ground (arith, enough, length-append rest y, split_data-append raw len rest y enough)
      ∙ sym (ap parse_frame e ∙ parse_frame-fields m raw id len rest p q)
]

oversized_append :
    (b : Broker) (client : Bytes) (s : Session) (x y : Bytes)
    → 10 ≤ length x
    → b.max_buf_size < wanted x
    → prepare_frame b client s (x ++ y) ≡ prepare_frame b client s x
unfolding prepare_frame
oversized_append b client s x y header over =
    let same : read_payload_len (x ++ y) ≡ read_payload_len x =
      read_payload_len-append x y header in
    let long = length-append x y in rw same (ground (arith, header, over, long))

-- Either more bytes are waited for, or further ones do not matter.
prepare_frame-append :
    (b : Broker) (client : Bytes) (s : Session) (x y : Bytes)
    → 10 ≤ b.max_buf_size
    → All IsByte x
    → (prepare_frame b client s x ≡ (s, ok incomplete))
      ⊎ (prepare_frame b client s (x ++ y) ≡ prepare_frame b client s x)
prepare_frame-append b client s x y big all = elim (prepare_frame-cases b client s x) [
  | inl w ↦
      let (w', same) = IsWhole-append b client 0 x y w in
      inr (
        prepare_frame-IsWhole b client s (x ++ y) w'
        ∙ ap₂ (λ l o. admit_parsed b client s l o)
            (ap (λ n. take n (x ++ y)) same ∙ take-append_le (wanted x) x y w.here)
            (parse_frame-append_whole x y all w.header w.here)
        ∙ sym (prepare_frame-IsWhole b client s x w))
  | inr (inl (cut, e)) ↦ inl e
  | inr (inr (e, p, inl small)) ↦ absurd (omega (arith, big, small))
  | inr (inr (e, p, inr (header, over))) ↦ inr (oversized_append b client s x y header over)
]

module _ (b : Broker) (client : Bytes) (stream : ℕ) where
  abbrev Goes : Bytes → Session × Outcome StreamError Prepared → Session → Dispatched → Type 0
  Goes x q t d =
      (k : Session → Bytes → Session × Dispatched) → dispatch_step b client stream x q k ≡ (t, d)

  no_left :
      (u t : Session) (z : Bytes) (d : Dispatched)
      → IsStop d
      → ◌≡◌ {A = Session × Dispatched} (u, left z) (t, d)
      → ⊥
  no_left u t z d i e = subst (λ v. IsStop v) (sym (ap (λ v. v.1) e)) i

  routed_stop :
      (s : Session) (o : Outcome ⊥ Session) (t : Session) (d : Dispatched) (r r' : Bytes)
      → IsStop d
      → ((k : Session → Bytes → Session × Dispatched) → after_route s o (λ u. k u r) ≡ (t, d))
      → (k : Session → Bytes → Session × Dispatched) → after_route s o (λ u. k u r') ≡ (t, d)
  unfolding after_route
  routed_stop s (ok u) t d r r' i g k = absurd (no_left u t [] d i (g (λ v rest. (v, left []))))
  routed_stop s (err e) t d r r' i g k = absurd e
  routed_stop s fault t d r r' i g k = g k

  step_stop :
      (x x' : Bytes) (q : Session × Outcome StreamError Prepared) (t : Session) (d : Dispatched)
      → IsStop d
      → Goes x q t d
      → Goes x' q t d
  unfolding dispatch_step
  step_stop x x' (s, ok incomplete) t d i g =
      absurd (no_left s t x d i (g (λ v rest. (v, left []))))
  step_stop x x' (s, ok (prepared f n)) t d i g =
      routed_stop s (route_frame b client stream s f) t d (drop n x) (drop n x') i g
  step_stop x x' (s, err e) t d i g = g
  step_stop x x' (s, fault) t d i g = g

  stops_append :
      (m : ℕ) (s : Session) (x y : Bytes) (t : Session) (d : Dispatched)
      → 10 ≤ b.max_buf_size
      → All IsByte x
      → 0 < length x
      → IsStop d
      → Goes x (prepare_frame b client s x) t d
      → dispatch_loop b client stream (suc m) s (x ++ y) ≡ (t, d)
  unfolding dispatch_step
  stops_append m s x y t d big all some_left i g =
      elim (prepare_frame-append b client s x y big all) [
        | inl e ↦ absurd (
            no_left s t x d i (
              sym (ap (λ q. dispatch_step b client stream x q (λ v rest. (v, left []))) e)
              ∙ g (λ v rest. (v, left []))))
        | inr e ↦
            stops_eq b client stream m s (x ++ y) t d (omega (arith, some_left, length-append x y))
              (λ k.
                ap (λ q. dispatch_step b client stream (x ++ y) q k) e
                ∙ step_stop x (x ++ y) (prepare_frame b client s x) t d i g k)
      ]

  stop_stays :
      (n m : ℕ) (s : Session) (x y : Bytes) (t : Session) (d : Dispatched)
      → 10 ≤ b.max_buf_size
      → All IsByte x
      → length x < n
      → length (x ++ y) < m
      → IsStop d
      → dispatch_loop b client stream n s x ≡ (t, d)
      → dispatch_loop b client stream m s (x ++ y) ≡ (t, d)
  unfolding dispatch_loop
  stop_stays zero m s x y t d big all p q i e = absurd (omega arith)
  stop_stays (suc n) zero s x y t d big all p q i e = absurd (omega arith)
  stop_stays (suc n) (suc m) s [] y t d big all p q i e = absurd (no_left s t [] d i e)
  stop_stays (suc n) (suc m) s (c' ∷ x') y t d big all p q i e =
      let x = c' ∷ x' in
      elim (Round-cases b client stream s x) [
        | stays cut c ↦ absurd (no_left s t x d i (sym (stays_eq b client stream n s x c) ∙ e))
        | takes f u v w parsed a r ↦
            let short = length-drop (wanted x) x in
            let head = w.header in
            takes_append b client stream m s x y f u v all w parsed a r
            ∙ stop_stays n m v (drop (wanted x) x) y t d big (All-drop IsByte (wanted x) x all)
                (omega (arith, short, head))
                (omega (arith, length-append (drop (wanted x) x) y, length-append x y, short, head))
                i (sym (takes_eq b client stream n s x f u v w parsed a r) ∙ e)
        | stops u d' i' g ↦
            let same = sym (stops_eq b client stream n s x u d' (omega arith) g) ∙ e in
            stops_append m s x y u d' big all (omega arith) i' g ∙ same
      ]

  -- With a limit of ten bytes or more, a walk that ends with an error or a fault ends with it
  -- whatever bytes come behind, and leaves the same session.
  pub dispatch_frames-stop :
      (s : Session) (x y : Bytes) (t : Session) (d : Dispatched)
      → 10 ≤ b.max_buf_size
      → All IsByte x
      → IsStop d
      → dispatch_frames b client stream s x ≡ (t, d)
      → dispatch_frames b client stream s (x ++ y) ≡ (t, d)
  unfolding dispatch_frames
  dispatch_frames-stop s x y t d big all i e =
      stop_stays (length x + 1) (length (x ++ y) + 1) s x y t d big all (omega arith) (omega arith)
        i e
