-- ===== src/Transport/Walk.antt =====
-- internal/transport/broker.go, dispatchFrames: no bytes make the walk fault.
use aqueduct.Base.{
  zero, [], length-drop, All-drop, take, Option-cases, inr, length-take_le, sym, ◌||◌, inl, subst,
  ◌+◌, ◌∷◌, drop, refl, suc, ◌==◌, Bool-cases, arith, err, fault, ◌>>=◌, ◌≢◌, All, Outcome, some,
  ◌<◌, ◌≤◌, none, length, ◌≡◌, ℕ, ok,
}
use aqueduct.Transport.Dispatch.{stops_eq, takes_eq, stays_eq}
use aqueduct.Transport.Rounds.{
  stops, takes, prepare_frame-IsWhole, stays, wanted, Round-cases, prepare_frame-cases,
}
use aqueduct.Protocol.Frame.Safety.{parse_frame-ne-fault}
use aqueduct.Protocol.Frame.{parse_frame, ParseError, Frame}
use aqueduct.Transport.{
  incomplete, prepared, refused, Prepared, admit_expanded, prepare_frame, StreamError,
  decompress_frame, admit_frame, admit_parsed, finish_prepare, Session, Broker, log_frame,
}
use aqueduct.Protocol.Command.{cmd_publish_batch, cmd_publish}
use aqueduct.Aal.Write.{write_frame-appended}
use aqueduct.Transport.Safety.{route_frame-IsSafe, IsSafe, HasRoom}
use aqueduct.Transport.Route.{
  route_frame, no_fuel, crashed, rejected, left, Dispatched, after_route, dispatch_frames,
  dispatch_loop, dispatch_step,
}
use aqueduct.Aal.{write_frame, pool_buffer_size, Log}
use aqueduct.Base.Bytes.{IsByte, Bytes}

logged-IsSafe :
    (b : Broker) (s : Session) (bytes : Bytes) (l : Log)
    → length b.pool ≡ pool_buffer_size
    → HasRoom (some l)
    → 0 < length bytes
    → length bytes ≤ 65504
    → IsSafe (do l' ← write_frame l b.pool bytes; ok (record s { log = some l' }))
logged-IsSafe b s bytes l pool room some_bytes small =
    subst (λ o. IsSafe (o >>= λ l'. ok (record s { log = some l' })))
      (sym (write_frame-appended l b.pool bytes pool (some_bytes, small, room.0, room.1))) room

log_frame-IsSafe :
    (b : Broker) (s : Session) (f : Frame) (bytes : Bytes)
    → length b.pool ≡ pool_buffer_size
    → HasRoom s.log
    → 0 < length bytes
    → length bytes ≤ 65504
    → IsSafe (log_frame b s f bytes)
unfolding log_frame
log_frame-IsSafe b s f bytes pool room some_bytes small =
    elim (Bool-cases (f.command == cmd_publish || f.command == cmd_publish_batch)) [
      | inr off ↦ rw (off, log_frame) room
      | inl on ↦ elim (Option-cases s.log) [
        | inl e ↦ rw (on, log_frame) (rw (e) room)
        | inr (l, e) ↦
            rw (on, log_frame)
              (rw e (logged-IsSafe b s bytes l pool (subst HasRoom e room) some_bytes small))
      ]
    ]

module _ (b : Broker) (client : Bytes) (stream : ℕ) (plain : b.decompress ≡ none)
    (pool : length b.pool ≡ pool_buffer_size) (limit : b.max_buf_size ≤ 65504) where
  -- What a preparation may give.
  abbrev IsSound : Session × Outcome StreamError Prepared → Type 0
  IsSound (t, ok p) = HasRoom t.log
  IsSound (t, err e) = HasRoom t.log
  IsSound (t, fault) = ⊥

  finish-IsSound :
      (f : Frame) (n : ℕ) (s : Session) (o : Outcome ⊥ Session)
      → IsSafe o
      → IsSound (finish_prepare f n s o)
  unfolding finish_prepare
  finish-IsSound f n s (ok t) h = h
  finish-IsSound f n s (err e) h = absurd e
  finish-IsSound f n s fault h = h

  admit_frame-IsSound :
      (s : Session) (f : Frame) (bytes : Bytes)
      → HasRoom s.log
      → 0 < length bytes
      → length bytes ≤ 65504
      → IsSound (admit_frame b client s f bytes)
  unfolding admit_frame decompress_frame admit_expanded
  admit_frame-IsSound s f bytes room some_bytes small =
      rw (plain, decompress_frame)
        (elim (Bool-cases (refused b client f)) [
          | inl e ↦ rw e room
          | inr e ↦ rw e (
              finish-IsSound f (length bytes) s (log_frame b s f bytes)
                (log_frame-IsSafe b s f bytes pool room some_bytes small))
        ])

  parsed-IsSound :
      (s : Session) (bytes : Bytes) (o : Outcome ParseError Frame)
      → o ≢ fault
      → HasRoom s.log
      → 0 < length bytes
      → length bytes ≤ 65504
      → IsSound (admit_parsed b client s bytes o)
  unfolding admit_parsed
  parsed-IsSound s bytes (ok f) h room p q = admit_frame-IsSound s f bytes room p q
  parsed-IsSound s bytes (err e) h room p q = room
  parsed-IsSound s bytes fault h room p q = h refl

  prepare_frame-IsSound :
      (s : Session) (x : Bytes)
      → HasRoom s.log
      → All IsByte x
      → IsSound (prepare_frame b client s x)
  prepare_frame-IsSound s x room all = elim (prepare_frame-cases b client s x) [
    | inl w ↦
        let n = length-take_le (wanted x) x w.here in
        subst IsSound (sym (prepare_frame-IsWhole b client s x w)) (
          parsed-IsSound s (take (wanted x) x) (parse_frame x) (parse_frame-ne-fault x all) room
            (omega (arith, n)) (omega (arith, n, w.small, limit)))
    | inr (inl (cut, e)) ↦ subst IsSound (sym e) room
    | inr (inr (e, p, _)) ↦ subst IsSound (sym p) room
  ]

  -- No walk crashes or runs out of fuel.
  abbrev IsCalm : Session × Dispatched → Type 0
  IsCalm (t, left z) = HasRoom t.log
  IsCalm (t, rejected e) = HasRoom t.log
  IsCalm (t, crashed) = ⊥
  IsCalm (t, no_fuel) = ⊥

  calm_of :
      (q : Session × Dispatched) → IsCalm q → (q.1 ≢ crashed) × (q.1 ≢ no_fuel) × HasRoom q.0.log
  calm_of (t, left z) h = (λ e. cc (e), λ e. cc (e), h)
  calm_of (t, rejected e) h = (λ p. cc (p), λ p. cc (p), h)
  calm_of (t, crashed) h = absurd h
  calm_of (t, no_fuel) h = absurd h

  routed-IsCalm :
      (s : Session) (o : Outcome ⊥ Session) (continue : Session → Session × Dispatched)
      → IsSafe o
      → ((t : Session) → HasRoom t.log → IsCalm (continue t))
      → IsCalm (after_route s o continue)
  unfolding after_route
  routed-IsCalm s (ok t) continue h k = k t h
  routed-IsCalm s (err e) continue h k = absurd e
  routed-IsCalm s fault continue h k = absurd h

  step-IsCalm :
      (rest : Bytes) (q : Session × Outcome StreamError Prepared)
      (continue : Session → Bytes → Session × Dispatched)
      → IsSound q
      → ((u : Session) (n : ℕ) → HasRoom u.log → IsCalm (continue u (drop n rest)))
      → IsCalm (dispatch_step b client stream rest q continue)
  unfolding dispatch_step
  step-IsCalm rest (s, ok incomplete) continue h k = h
  step-IsCalm rest (s, ok (prepared f n)) continue h k =
      routed-IsCalm s (route_frame b client stream s f) (λ t. continue t (drop n rest))
        (route_frame-IsSafe b client stream s f h) (λ t room. k t n room)
  step-IsCalm rest (s, err e) continue h k = h
  step-IsCalm rest (s, fault) continue h k = absurd h

  dispatch_loop-IsCalm :
      (fuel : ℕ) (s : Session) (x : Bytes)
      → HasRoom s.log
      → All IsByte x
      → length x < fuel
      → IsCalm (dispatch_loop b client stream fuel s x)
  unfolding dispatch_loop
  dispatch_loop-IsCalm zero s x room all p = absurd (omega arith)
  dispatch_loop-IsCalm (suc n) s [] room all p = room
  dispatch_loop-IsCalm (suc n) s (c ∷ cs) room all p =
      let x = c ∷ cs in
      elim (Round-cases b client stream s x) [
        | stays cut e ↦ rw (stays_eq b client stream n s x e) room
        | takes f t u w e a r ↦
            let m = length-take_le (wanted x) x w.here in
            let logged =
              admit_frame-IsSound s f (take (wanted x) x) room (omega (arith, m))
                (omega (arith, m, w.small, limit)) in
            let kept = route_frame-IsSafe b client stream t f (subst IsSound a logged) in
            rw (takes_eq b client stream n s x f t u w e a r) (
              dispatch_loop-IsCalm n u (drop (wanted x) x) (subst IsSafe r kept)
                (All-drop IsByte (wanted x) x all)
                (omega (arith, length-drop (wanted x) x, w.header)))
        | stops t d i g ↦ rw (stops_eq b client stream n s x t d (omega arith) g) (
            subst IsCalm (g (λ u rest. (u, left []))) (
              step-IsCalm x (prepare_frame b client s x) (λ u rest. (u, left []))
                (prepare_frame-IsSound s x room all) (λ u m h. h)))
      ]

  -- Without a compression engine, with no log or one whose cipher opens what it sealed and adds 16
  -- bytes and whose nonce prefix has four, with pooled buffers of their size and a limit of at most
  -- 65504 bytes, no bytes of any client crash the walk, and it ends by itself: with an error value
  -- or with what is left. The log stays as it should be.
  pub dispatch_frames-calm :
      (s : Session) (x : Bytes)
      → HasRoom s.log
      → All IsByte x
      → ((dispatch_frames b client stream s x).1 ≢ crashed)
        × ((dispatch_frames b client stream s x).1 ≢ no_fuel)
        × HasRoom (dispatch_frames b client stream s x).0.log
  unfolding dispatch_frames
  dispatch_frames-calm s x room all =
      calm_of (dispatch_loop b client stream (length x + 1) s x)
        (dispatch_loop-IsCalm (length x + 1) s x room all (omega arith))
