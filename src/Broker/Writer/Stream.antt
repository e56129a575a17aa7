-- ===== src/Broker/Writer/Stream.antt =====
-- internal/broker/router.go, runSubscriberWriter: what a subscriber reads is the frames of the
-- messages that its writer fetched, in their order.
use aqueduct.Broker.Writer.Offsets.{delivery_offset-ne-fault, outgoing-ne-fault}
use aqueduct.Base.{
  ◌∷◌, false, ap₂, true, [], append_assoc, inr, ◌==◌, append-nil, inl, length, get_elem?, none,
  refl, subst, sym, ◌>>=◌, ◌||◌, ◌∙◌, Bool-cases, Option-cases, ap, err, fault, some, Option,
  if◌then◌else◌, ok, ◌++◌, ◌≢◌, Bool, ℕ, ◌≡◌,
}
use aqueduct.Broker.Writer.Wire.{
  flush-buf, going_false, Sends, sent, Lossless, Succeeds, accumulate-Sends, flush-Sends,
}
use aqueduct.Broker.Writer.Nacks.{NackCounters}
use aqueduct.Broker.Writer.{
  flush, panics, returns, goes_on, Going, delivery_offset, outgoing, new_writer,
}
use aqueduct.Broker.Writer.Rounds.{
  timer_fired, dropped, nack_received, notice_received, cancelled, remember, take_nack, is_expired,
  next_rounds, on_nack, timer_event, Wakeup, message_of, Settings, Running, Moments, run_rounds,
  writer_round, deliver_message, deliver_at, deliver_frame, handle_event, after_fetch, finish,
  run_subscriber_writer,
}
use aqueduct.Broker.Router.{Router, Message}
use aqueduct.Base.Bytes.{Bytes}
use aqueduct.Broker.Router.Slots.{writer_fetch}
use aqueduct.Broker.Router.Publish.{Outside}
use aqueduct.Protocol.Extensions.{Total}

abbrev frame_of : Total Bytes → Bytes
frame_of (ok frame) = frame
frame_of (err e) = absurd e
frame_of fault = []

-- The frame of a message, without the accumulator: nothing for an expired or an empty one.
abbrev pub message_frame : Settings → ℕ → Message → Bytes
message_frame c now x =
    if is_expired x now || length x.buf == 0
    then []
    else frame_of (delivery_offset x.buf x.offset >>= outgoing c.group x.buf)

abbrev fetched_frame : Settings → ℕ → Running → Option (ℕ × ℕ) → Bytes
fetched_frame c now s none = []
fetched_frame c now s (some (m, p)) = message_frame c now (message_of s.router.messages m)

-- The frame of the message that a round fetches.
abbrev pub round_frame : Settings → Outside → Running → Bytes
round_frame c o s = fetched_frame c o.now s (writer_fetch s.router c.idx).1

abbrev next_frames : Running × Going → (Running → Bytes) → Bytes
next_frames (s, goes_on) continue = continue s
next_frames (s, returns) continue = []
next_frames (s, panics) continue = []

-- The frames of the messages that the rounds fetch, one after the other.
unfoldable pub run_frames : Settings → Moments → Running → Bytes
unfolding writer_round
run_frames c [] s = []
run_frames c ((o, e) ∷ es) s =
    round_frame c o s ++ next_frames (writer_round c o s e) (run_frames c es)

module _ (c : Settings) where
  abbrev SendsRound : Running → Bytes → Running × Going → Type 0
  SendsRound s frame after =
      Sends c.attempt (sent s.writer ++ frame) after.0.writer (Lossless c.attempt after.1)

  silent :
      (s : Running) (after : Running × Going)
      → sent after.0.writer ≡ sent s.writer
      → SendsRound s [] after
  silent s after e = record { missing = []; stream = ap (λ x. x ++ []) e; whole = λ l. refl }

  deliver_frame-Sends :
      (s : Running) (m : ℕ) (frame : Total Bytes)
      → frame ≢ fault
      → SendsRound s (frame_of frame) (deliver_frame c s m frame)
  deliver_frame-Sends s m (ok frame) h = accumulate-Sends c.attempt m frame s.writer s.router.refs
  deliver_frame-Sends s m (err e) h = absurd e
  deliver_frame-Sends s m fault h = absurd (h refl)

  deliver_at-Sends :
      (s : Running) (x : Message) (m : ℕ) (offset : Total ℕ)
      → offset ≢ fault
      → SendsRound s (frame_of (offset >>= outgoing c.group x.buf)) (deliver_at c s x m offset)
  deliver_at-Sends s x m (ok offset) h =
      deliver_frame-Sends (remember s offset c.topic) m (outgoing c.group x.buf offset)
        (outgoing-ne-fault c.group x.buf offset)
  deliver_at-Sends s x m (err e) h = absurd e
  deliver_at-Sends s x m fault h = absurd (h refl)

  deliver_message-Sends :
      (now : ℕ) (s : Running) (m : ℕ)
      → SendsRound s
          (message_frame c now (message_of s.router.messages m))
          (deliver_message c now s m)
  unfolding deliver_message
  deliver_message-Sends now s m =
      let x = message_of s.router.messages m in
      elim (Bool-cases (is_expired x now || length x.buf == 0)) [
        | inl skipped ↦ rw skipped (silent s (dropped s m) refl)
        | inr there ↦ rw there (
            deliver_at-Sends s x m (delivery_offset x.buf x.offset)
              (delivery_offset-ne-fault x.buf x.offset))
      ]

  timer_event-Sends : (s : Running) (armed : Bool) → SendsRound s [] (timer_event c s armed)
  timer_event-Sends s true =
      let f = flush-Sends c.attempt s.writer s.router.refs in
      record {
        missing = f.missing;
        stream = f.stream ∙ sym (append-nil (sent s.writer));
        whole = λ l. f.whole (going_false c.attempt (flush c.attempt s.writer s.router.refs).2 l);
      }
  timer_event-Sends s false = silent s (s, goes_on) refl

  on_nack-Sends :
      (o : Outside) (s : Running) (got : Router × Option ℕ) → SendsRound s [] (on_nack c o s got)
  on_nack-Sends o s (r, none) = silent s (on_nack c o s (r, none)) refl
  on_nack-Sends o s (r, some offset) = silent s (on_nack c o s (r, some offset)) refl

  handle_event-Sends :
      (o : Outside) (s : Running) (e : Wakeup) → SendsRound s [] (handle_event c o s e)
  unfolding handle_event
  handle_event-Sends o s cancelled = silent s (s, returns) refl
  handle_event-Sends o s notice_received = silent s (handle_event c o s notice_received) refl
  handle_event-Sends o s nack_received = on_nack-Sends o s (take_nack s.router c.idx)
  handle_event-Sends o s timer_fired = timer_event-Sends s s.writer.timer

  after_fetch-Sends :
      (o : Outside) (e : Wakeup) (s : Running) (got : Router × Option (ℕ × ℕ))
      → got.0.messages ≡ s.router.messages
      → SendsRound s (fetched_frame c o.now s got.1) (after_fetch c o e s got)
  after_fetch-Sends o e s (r, none) same = handle_event-Sends o (record s { router = r }) e
  after_fetch-Sends o e s (r, some (m, p)) same =
      subst
        (λ ms.
          SendsRound s (message_frame c o.now (message_of ms m))
            (after_fetch c o e s (r, some (m, p))))
        same (deliver_message-Sends o.now (record s { router = r }) m)

  fetch-messages : (r : Router) → (writer_fetch r c.idx).0.messages ≡ r.messages
  unfolding writer_fetch
  fetch-messages r = elim (Option-cases (get_elem? r.slots c.idx)) [
    | inl e ↦ rw (e, writer_fetch) refl
    | inr (s, e) ↦ rw (e, writer_fetch) refl
  ]

  pub writer_round-Sends :
      (o : Outside) (s : Running) (e : Wakeup)
      → SendsRound s (round_frame c o s) (writer_round c o s e)
  unfolding writer_round
  writer_round-Sends o s e =
      after_fetch-Sends o e s (writer_fetch s.router c.idx) (fetch-messages s.router)

  later :
      (es : Moments) (s : Running) (frame : Bytes) (after : Running × Going)
      → SendsRound s frame after
      → ((t : Running) → SendsRound t (run_frames c es t) (run_rounds c es t))
      → SendsRound s
          (frame ++ next_frames after (run_frames c es))
          (next_rounds after (run_rounds c es))
  later es s frame (t, goes_on) now rest =
      let kept : sent t.writer ≡ sent s.writer ++ frame =
        sym (append-nil (sent t.writer))
        ∙ (ap (λ x. sent t.writer ++ x) (sym (now.whole (inl refl))) ∙ now.stream) in
      let r = rest t in
      record {
        missing = r.missing;
        stream =
            r.stream
            ∙ (ap (λ x. x ++ run_frames c es t) kept
                ∙ append_assoc (sent s.writer) frame (run_frames c es t));
        whole = r.whole;
      }
  later es s frame (t, returns) now rest = record {
    missing = now.missing;
    stream = now.stream ∙ ap (λ x. sent s.writer ++ x) (sym (append-nil frame));
    whole = now.whole;
  }
  later es s frame (t, panics) now rest = record {
    missing = now.missing;
    stream = now.stream ∙ ap (λ x. sent s.writer ++ x) (sym (append-nil frame));
    whole = now.whole;
  }

  run_rounds-Sends :
      (es : Moments) (s : Running) → SendsRound s (run_frames c es s) (run_rounds c es s)
  unfolding run_rounds run_frames
  run_rounds-Sends [] s = silent s (s, goes_on) refl
  run_rounds-Sends ((o, e) ∷ es) s =
      later es s (round_frame c o s) (writer_round c o s e) (writer_round-Sends o s e)
        (run_rounds-Sends es)

  -- Between rounds a writer that handed over everything or waits to do so.
  abbrev start : Router → NackCounters → Running
  start r counters = record { router = r; counters = counters; writer = new_writer c.batch_size }

  finish-sent :
      (s : Running)
      → (missing : Bytes) × ((finish c s).writer.wire ++ missing ≡ sent s.writer)
        × (Succeeds c.attempt → missing ≡ [])
  unfolding finish
  finish-sent s =
      let f = flush-Sends c.attempt s.writer s.router.refs in
      let w = (flush c.attempt s.writer s.router.refs).0 in
      (
        f.missing,
        ap (λ x. x ++ f.missing)
              (sym (append-nil w.wire)
                ∙ ap (λ x. w.wire ++ x) (sym (flush-buf c.attempt s.writer s.router.refs)))
            ∙ f.stream,
        λ all. f.whole (inr all),
      )

  -- What a writer hands to its stream, from its start to its end, is the beginning of the frames of
  -- the messages that its rounds fetch, one after the other in the order of the fetches, and all of
  -- them where every write succeeds. The rounds may meet any events, and any write may fail.
  pub run_subscriber_writer-wire :
      (es : Moments) (r : Router) (counters : NackCounters)
      → (missing : Bytes) × ((run_subscriber_writer c es r counters).writer.wire ++ missing
          ≡ run_frames c es (start r counters))
        × (Succeeds c.attempt → missing ≡ [])
  unfolding run_subscriber_writer new_writer
  run_subscriber_writer-wire es r counters =
      let s = start r counters in
      let rounds = run_rounds-Sends es s in
      let end = finish-sent (run_rounds c es s).0 in
      (
        end.0 ++ rounds.missing,
        sym (append_assoc (run_subscriber_writer c es r counters).writer.wire end.0 rounds.missing)
            ∙ (ap (λ x. x ++ rounds.missing) end.1 ∙ rounds.stream),
        λ all. ap₂ (λ x y. x ++ y) (end.2 all) (rounds.whole (inr all)),
      )
