-- ===== src/Transport/Dispatch.antt =====
-- internal/transport/broker.go, dispatchFrames: the walk ends, and does not depend on where the
-- reads cut the stream.
use aqueduct.Base.Bytes.{le32_or-front, IsByte, Bytes}
use aqueduct.Base.{
  All-drop, drop-append_le, take-append_le, length-append, All, ◌++◌, inr, inl, ltb, subst,
  Bool-cases, drop-drop, lt→ltb, zero, length-drop, sym, take, refl, ◌∙◌, [], ap, suc, arith, drop,
  ◌≡◌, ◌+◌, ◌<◌, ◌∷◌, ◌≤◌, length, ℕ, ok,
}
use aqueduct.Protocol.Frame.Safety.{parse_frame-append}
use aqueduct.Transport.{
  read_payload_len, prepared, admit_frame, incomplete, admit_parsed, prepare_frame, Session, Broker,
}
use aqueduct.Transport.Rounds.{
  prepare_frame-IsWhole, stops, wanted, takes, stays, IsStop, IsWhole, Round-cases, IsCut,
}
use aqueduct.Transport.Route.{
  route_frame, left, after_route, Dispatched, dispatch_step, dispatch_frames, dispatch_loop,
}
use aqueduct.Protocol.Frame.{parse_frame, Frame}

left_injective : {x z : Bytes} → left x ≡ left z → x ≡ z
left_injective e = cc e

module _ (b : Broker) (client : Bytes) (stream : ℕ) where
  -- Whatever stands in the buffer.
  pub stays_eq :
      (fuel : ℕ) (s : Session) (x : Bytes)
      → prepare_frame b client s x ≡ (s, ok incomplete)
      → dispatch_loop b client stream (suc fuel) s x ≡ (s, left x)
  unfolding dispatch_loop dispatch_step
  stays_eq fuel s x e = elim (Bool-cases (ltb 0 (length x))) [
    | inl some_left ↦
        rw (some_left, dispatch_loop)
          (ap (λ q. dispatch_step b client stream x q (dispatch_loop b client stream fuel)) e)
    | inr none_left ↦ rw (none_left, dispatch_loop) refl
  ]

  pub takes_eq :
      (fuel : ℕ) (s : Session) (x : Bytes) (f : Frame) (t u : Session)
      → IsWhole b x
      → parse_frame x ≡ ok f
      → admit_frame b client s f (take (wanted x) x) ≡ (t, ok (prepared f (wanted x)))
      → route_frame b client stream t f ≡ ok u
      → dispatch_loop b client stream (suc fuel) s x
        ≡ dispatch_loop b client stream fuel u (drop (wanted x) x)
  unfolding dispatch_loop dispatch_step after_route admit_parsed
  takes_eq fuel s x f t u w p a r =
      let filled = lt→ltb 0 (length x) (omega (arith, w.header)) in
      let next = dispatch_loop b client stream fuel in
      rw (filled, dispatch_loop)
        (ap (λ q. dispatch_step b client stream x q next)
            (prepare_frame-IsWhole b client s x w
              ∙ ap (admit_parsed b client s (take (wanted x) x)) p
              ∙ a)
          ∙ ap (λ o. after_route t o (λ v. next v (drop (wanted x) x))) r)

  pub stops_eq :
      (fuel : ℕ) (s : Session) (x : Bytes) (t : Session) (d : Dispatched)
      → 0 < length x
      → ((k : Session → Bytes → Session × Dispatched)
          → dispatch_step b client stream x (prepare_frame b client s x) k ≡ (t, d))
      → dispatch_loop b client stream (suc fuel) s x ≡ (t, d)
  unfolding dispatch_loop
  stops_eq fuel s x t d some_left e =
      rw (lt→ltb 0 (length x) some_left, dispatch_loop) (e (dispatch_loop b client stream fuel))

  -- More fuel changes nothing.
  pub fuel_enough :
      (n m : ℕ) (s : Session) (x : Bytes)
      → length x < n
      → length x < m
      → dispatch_loop b client stream n s x ≡ dispatch_loop b client stream m s x
  unfolding dispatch_loop
  fuel_enough zero m s x p q = absurd (omega arith)
  fuel_enough (suc n) zero s x p q = absurd (omega arith)
  fuel_enough (suc n) (suc m) s [] p q = refl
  fuel_enough (suc n) (suc m) s (c ∷ x) p q = elim (Round-cases b client stream s (c ∷ x)) [
    | stays cut e ↦ stays_eq n s (c ∷ x) e ∙ sym (stays_eq m s (c ∷ x) e)
    | takes f t u w e a r ↦
        let shorter = length-drop (wanted (c ∷ x)) (c ∷ x) in
        takes_eq n s (c ∷ x) f t u w e a r
        ∙ fuel_enough n m u (drop (wanted (c ∷ x)) (c ∷ x)) (omega (arith, shorter))
            (omega (arith, shorter))
        ∙ sym (takes_eq m s (c ∷ x) f t u w e a r)
    | stops t d i e ↦
        stops_eq n s (c ∷ x) t d (omega arith) e ∙ sym (stops_eq m s (c ∷ x) t d (omega arith) e)
  ]

  -- Where a walk ends on its own: with a cut frame that is the buffer's tail, or with a stop.
  pub data Ended (x : Bytes) : Session × Dispatched → Type 0 where
    waits : (t : Session) (k : ℕ) → k ≤ length x → IsCut b (drop k x) → Ended x (t, left (drop k x))
    gives_up : (t : Session) (d : Dispatched) → IsStop d → Ended x (t, d)

  later_end :
      (x : Bytes) (n : ℕ) (r : Session × Dispatched) → n ≤ length x → Ended (drop n x) r → Ended x r
  later_end x n r h (waits t k p cut) =
      let same = drop-drop k n x in
      subst (λ z. Ended x (t, left z)) (sym same)
        (waits t (n + k) (omega (arith, length-drop n x)) (subst (λ z. IsCut b z) same cut))
  later_end x n r h (gives_up t d i) = gives_up t d i

  dispatch_loop-Ended :
      (fuel : ℕ) (s : Session) (x : Bytes)
      → length x < fuel
      → Ended x (dispatch_loop b client stream fuel s x)
  unfolding dispatch_loop read_payload_len
  dispatch_loop-Ended zero s x p = absurd (omega arith)
  dispatch_loop-Ended (suc n) s [] p = waits s 0 (omega arith) (omega arith, inl (omega arith))
  dispatch_loop-Ended (suc n) s (c ∷ x') p =
      let x = c ∷ x' in
      elim (Round-cases b client stream s x) [
        | stays cut e ↦ rw (stays_eq n s x e) (waits s 0 (omega arith) cut)
        | takes f t u w e a r ↦ rw (takes_eq n s x f t u w e a r) (
            later_end x (wanted x) _ w.here (
              dispatch_loop-Ended n u (drop (wanted x) x)
                (omega (arith, length-drop (wanted x) x, w.here))))
        | stops t d i e ↦ rw (stops_eq n s x t d (omega arith) e) (gives_up t d i)
      ]

  -- Whatever the buffer holds, the walk ends by itself: with an error, a fault, or a tail of the
  -- buffer that is no whole frame, where the frame that it starts is within the limit.
  pub dispatch_frames-Ended :
      (s : Session) (x : Bytes) → Ended x (dispatch_frames b client stream s x)
  unfolding dispatch_frames
  dispatch_frames-Ended s x = dispatch_loop-Ended (length x + 1) s x (omega arith)

  pub IsWhole-append :
      (x y : Bytes) → IsWhole b x → IsWhole b (x ++ y) × (wanted (x ++ y) ≡ wanted x)
  unfolding read_payload_len
  IsWhole-append x y w =
      let long = length-append x y in
      let same : wanted (x ++ y) ≡ wanted x = ground (arith, w.header, long, le32_or-front x y 6) in
      (
        record {
          header = omega (arith, w.header, long);
          small = omega (arith, w.small, same);
          here = omega (arith, w.here, same, long);
        },
        same,
      )

  -- The same frame is taken where more bytes follow.
  pub takes_append :
      (m : ℕ) (s : Session) (x y : Bytes) (f : Frame) (u v : Session)
      → All IsByte x
      → IsWhole b x
      → parse_frame x ≡ ok f
      → admit_frame b client s f (take (wanted x) x) ≡ (u, ok (prepared f (wanted x)))
      → route_frame b client stream u f ≡ ok v
      → dispatch_loop b client stream (suc m) s (x ++ y)
        ≡ dispatch_loop b client stream m v (drop (wanted x) x ++ y)
  takes_append m s x y f u v all w parsed a r =
      let (w', same) = IsWhole-append x y w in
      let longer = parse_frame-append x y f all parsed in
      let first : take (wanted (x ++ y)) (x ++ y) ≡ take (wanted x) x =
        rw same (take-append_le (wanted x) x y w.here) in
      let a' : admit_frame b client s f (take (wanted (x ++ y)) (x ++ y))
          ≡ (u, ok (prepared f (wanted (x ++ y)))) =
        rw (first, same) a in
      let kept : drop (wanted (x ++ y)) (x ++ y) ≡ drop (wanted x) x ++ y =
        rw same (drop-append_le (wanted x) x y w.here) in
      takes_eq m s (x ++ y) f u v w' longer a' r
      ∙ ap (λ l. dispatch_loop b client stream m v l) kept

  stopped_left :
      (n : ℕ) (s : Session) (x z : Bytes) (t u : Session) (d : Dispatched)
      → 0 < length x
      → IsStop d
      → ((k : Session → Bytes → Session × Dispatched)
          → dispatch_step b client stream x (prepare_frame b client s x) k ≡ (u, d))
      → dispatch_loop b client stream (suc n) s x ≡ (t, left z)
      → ⊥
  stopped_left n s x z t u d some_left i g e =
      subst (λ v. IsStop v) (ap (λ v. v.1) (sym (stops_eq n s x u d some_left g) ∙ e)) i

  -- The walk over more bytes goes on where the walk over the first ones stopped.
  goes_on :
      (n m : ℕ) (s : Session) (x y z : Bytes) (t : Session)
      → All IsByte x
      → length x < n
      → length (x ++ y) < m
      → dispatch_loop b client stream n s x ≡ (t, left z)
      → dispatch_loop b client stream m s (x ++ y)
        ≡ dispatch_loop b client stream (length (z ++ y) + 1) t (z ++ y)
  unfolding dispatch_loop
  goes_on zero m s x y z t all p q e = absurd (omega arith)
  goes_on (suc n) zero s x y z t all p q e = absurd (omega arith)
  goes_on (suc n) (suc m) s [] y z t all p q e =
      let same_session : s ≡ t = ap (λ v. v.0) e in
      let same_left : [] ≡ z = left_injective (ap (λ v. v.1) e) in
      rw (sym same_session, sym same_left) (fuel_enough (suc m) (length y + 1) s y q (omega arith))
  goes_on (suc n) (suc m) s (c' ∷ x') y z t all p q e =
      let x = c' ∷ x' in
      elim (Round-cases b client stream s x) [
        | stays cut c ↦
            let r : (s, left x) ≡ (t, left z) = sym (stays_eq n s x c) ∙ e in
            let same_session : s ≡ t = ap (λ v. v.0) r in
            let same_left : x ≡ z = left_injective (ap (λ v. v.1) r) in
            rw (sym same_session, sym same_left)
              (fuel_enough (suc m) (length (x ++ y) + 1) s (x ++ y) q (omega arith))
        | takes f u v w parsed a r ↦
            let short = length-drop (wanted x) x in
            let head = w.header in
            takes_append m s x y f u v all w parsed a r
            ∙ goes_on n m v (drop (wanted x) x) y z t (All-drop IsByte (wanted x) x all)
                (omega (arith, short, head))
                (omega (arith, length-append (drop (wanted x) x) y, length-append x y, short, head))
                (sym (takes_eq n s x f u v w parsed a r) ∙ e)
        | stops u d i g ↦ absurd (stopped_left n s x z t u d (omega arith) i g e)
      ]

  -- Where the walk over some bytes leaves a rest, the walk over these bytes and further ones is the
  -- walk over the rest and the further ones: dispatching does not depend on where the reads cut the
  -- stream.
  pub dispatch_frames-append :
      (s : Session) (x y z : Bytes) (t : Session)
      → All IsByte x
      → dispatch_frames b client stream s x ≡ (t, left z)
      → dispatch_frames b client stream s (x ++ y) ≡ dispatch_frames b client stream t (z ++ y)
  unfolding dispatch_frames
  dispatch_frames-append s x y z t all e =
      goes_on (length x + 1) (length (x ++ y) + 1) s x y z t all (omega arith) (omega arith) e
