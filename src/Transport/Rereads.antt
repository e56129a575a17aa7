-- ===== src/Transport/Rereads.antt =====
-- internal/transport/broker.go, runStreamReadLoop: one read and the walk behind it.
use aqueduct.Transport.Streams.{
  after_read, after_dispatch, read_round, hung, broken, cancelled, Buffer, closed, Served,
  StreamEnd, handle_dispatch_error,
}
use aqueduct.Base.{
  take-append-drop, append_assoc, All-take, ◌&&◌, length-take_le, append-nil, Bool, ltb, ◌==◌, ap₂,
  lt→ltb, zero, false, take, true, ◌-◌, sym, ap, ◌∙◌, length-append, length-drop, All-drop, drop,
  inr, All-append, [], inl, arith, refl, ◌∷◌, suc, ◌++◌, ◌+◌, ◌<◌, length, All, ◌≡◌, ◌≤◌, ℕ, ok,
}
use aqueduct.Transport.{incomplete, prepare_frame, Broker, Session}
use aqueduct.Transport.Dispatch.{
  dispatch_frames-Ended, gives_up, dispatch_frames-append, stays_eq, waits, Ended,
}
use aqueduct.Transport.Prefixes.{dispatch_frames-stop}
use aqueduct.Transport.Rounds.{prepare_frame-cases, IsStop, IsCut}
use aqueduct.Transport.Route.{no_fuel, crashed, dispatch_frames, rejected, left, Dispatched}
use aqueduct.Base.Bytes.{IsByte, Bytes}
use aqueduct.Aal.Delivery.{IsReader}

-- The end of the stream that the end of a walk over all of it makes.
unfoldable pub end_of : Dispatched → StreamEnd
unfolding handle_dispatch_error
end_of (left z) = closed
end_of (rejected e) = cancelled (handle_dispatch_error e)
end_of crashed = broken
end_of no_fuel = hung

abbrev pub served : Session × Dispatched → Served
served (s, d) = (s, end_of d)

module _ (b : Broker) (client : Bytes) (stream : ℕ) (amount : ℕ → ℕ → ℕ) (r : IsReader amount)
    (big : 10 ≤ b.max_buf_size) where
  take-nil : (n : ℕ) → take {A = ℕ} n [] ≡ []
  take-nil zero = refl
  take-nil (suc n) = refl

  -- What holds between the rounds: no whole frame waits in the buffer.
  pub record Ready (buf : Buffer) : Type 0 where
    pub cut : IsCut b buf.live
    pub bytes : All IsByte buf.live
    pub even : buf.size ≡ buf.capacity
    pub room : length buf.live ≤ buf.size
    pub filled : 0 < buf.size

  waits_for_more :
      (s : Session) (x : Bytes) → IsCut b x → prepare_frame b client s x ≡ (s, ok incomplete)
  waits_for_more s x c = elim (prepare_frame-cases b client s x) [
    | inl w ↦ absurd (omega (arith, w.here, c.0))
    | inr (inl (_, e)) ↦ e
    | inr (inr (_, _, inl small)) ↦ absurd (omega (arith, big, small))
    | inr (inr (_, _, inr (header, over))) ↦ elim c.1 [
      | inl short ↦ absurd (omega (arith, header, short))
      | inr fits ↦ absurd (omega (arith, over, fits))
    ]
  ]

  pub settled :
      (s : Session) (x : Bytes) → IsCut b x → dispatch_frames b client stream s x ≡ (s, left x)
  unfolding dispatch_frames
  settled s x c =
      let more : length x + 1 ≡ suc (length x) = omega arith in
      rw more (stays_eq b client stream (length x) s x (waits_for_more s x c))

  stop_end :
      (buf : Buffer) (t : Session) (d : Dispatched) (continue : Session → Buffer → Served)
      → IsStop d
      → after_dispatch buf (t, d) continue ≡ served (t, d)
  unfolding after_dispatch end_of
  stop_end buf t (left z) continue i = absurd i
  stop_end buf t (rejected e) continue i = refl
  stop_end buf t crashed continue i = refl
  stop_end buf t no_fuel continue i = absurd i

  -- The rounds that follow.
  abbrev pub Follows : ℕ → (Bytes → Session → Buffer → Served) → Type 0
  Follows n again =
      (more : Bytes) (t : Session) (rest : Buffer)
      → length more < n
      → All IsByte more
      → Ready rest
      → again more t rest ≡ served (dispatch_frames b client stream t (rest.live ++ more))

  walked :
      (s : Session) (buf : Buffer) (got more : Bytes) (q : Session × Dispatched) (n : ℕ)
      (again : Bytes → Session → Buffer → Served)
      → Ready buf
      → All IsByte got
      → All IsByte more
      → length buf.live + length got ≤ buf.size
      → length more < n
      → Follows n again
      → Ended b client stream (buf.live ++ got) q
      → dispatch_frames b client stream s (buf.live ++ got) ≡ q
      → after_dispatch (record buf { live = buf.live ++ got }) q (again more)
        ≡ served (dispatch_frames b client stream s ((buf.live ++ got) ++ more))
  unfolding after_dispatch
  walked s buf got more q n again ready gb mb room f k (waits t i h cut) e =
      let x = buf.live ++ got in
      let xb = All-append IsByte buf.live got ready.bytes gb in
      k more t (record buf { live = drop i x }) f mb
        (record {
          cut = cut;
          bytes = All-drop IsByte i x xb;
          even = ready.even;
          room = omega (arith, length-drop i x, length-append buf.live got, room);
          filled = ready.filled;
        })
      ∙ ap served (sym (dispatch_frames-append b client stream s x more (drop i x) t xb e))
  walked s buf got more q n again ready gb mb room f k (gives_up t d i) e =
      let x = buf.live ++ got in
      let xb = All-append IsByte buf.live got ready.bytes gb in
      stop_end (record buf { live = x }) t d (again more) i
      ∙ ap served (sym (dispatch_frames-stop b client stream s x more t d big xb i e))

  after_read-closed :
      (s : Session) (buf : Buffer) (continue : Session → Buffer → Served)
      → after_read b client stream s buf [] true continue ≡ (s, closed)
  unfolding after_read
  after_read-closed s buf continue = refl

  after_read-some :
      (s : Session) (buf : Buffer) (got : Bytes) (continue : Session → Buffer → Served)
      → 0 < length got
      → after_read b client stream s buf got false continue
        ≡ after_dispatch
            (record buf { live = buf.live ++ got })
            (dispatch_frames b client stream s (buf.live ++ got))
            continue
  unfolding after_read
  after_read-some s buf got continue h = rw (lt→ltb 0 (length got) h, after_read) refl

  pub read_round-served :
      (s : Session) (buf : Buffer) (incoming : Bytes) (n : ℕ)
      (again : Bytes → Session → Buffer → Served)
      → Ready buf
      → All IsByte incoming
      → length buf.live < buf.size
      → length incoming ≤ n
      → Follows n again
      → read_round b client stream amount s buf incoming again
        ≡ served (dispatch_frames b client stream s (buf.live ++ incoming))
  unfolding read_round end_of
  read_round-served s buf [] n again ready all space f k =
      let room = buf.size - length buf.live in
      let n0 = amount room 0 in
      ap₂ (λ (g : Bytes) (e : Bool). after_read b client stream s buf g e (again (drop n0 [])))
        (take-nil n0) (lt→ltb 0 room (omega arith))
      ∙ after_read-closed s buf (again (drop n0 []))
      ∙ ap served (
          sym (settled s buf.live ready.cut)
          ∙ ap (λ x. dispatch_frames b client stream s x) (sym (append-nil buf.live)))
  read_round-served s buf (c ∷ cs) n again ready all space f k =
      let room = buf.size - length buf.live in
      let incoming = c ∷ cs in
      let n0 = amount room (length incoming) in
      let got = take n0 incoming in
      let more = drop n0 incoming in
      let fits = r.fits room (length incoming) in
      let there = r.exists_there room (length incoming) in
      let moves = r.moves room (length incoming) (omega arith) (omega arith) in
      let taken : length got ≡ n0 = length-take_le n0 incoming there in
      let going : (length incoming == 0 && ltb 0 room) ≡ false = ground arith in
      let x = buf.live ++ got in
      ap (λ e. after_read b client stream s buf got e (again more)) going
      ∙ after_read-some s buf got (again more) (omega (arith, taken, moves))
      ∙ walked s buf got more (dispatch_frames b client stream s x) n again ready
          (All-take IsByte n0 incoming all) (All-drop IsByte n0 incoming all)
          (omega (arith, taken, fits, space))
          (omega (arith, length-drop n0 incoming, there, moves, f)) k
          (dispatch_frames-Ended b client stream s x) refl
      ∙ ap (λ l. served (dispatch_frames b client stream s l))
          (append_assoc buf.live got more ∙ ap (λ l. buf.live ++ l) (take-append-drop n0 incoming))
