-- ===== src/Broker/Writer/Bounds.antt =====
-- internal/broker/router.go, runSubscriberWriter: the accumulator stays below its size between
-- rounds, holds references only with their frames, and the cache of offsets stays bounded.
use aqueduct.Base.{
  ==_iff, none, some, ◌||◌, false, fault, err, true, ok, ◌&&◌, Bool, ltb, length-drop, refl, drop,
  inr, inl, leb, ◌∷◌, length-append, ◌==◌, Bool-cases, arith, ◌+◌, ◌<◌, [], ◌≤◌, Option, ◌≡◌, List,
  length, ℕ,
}
use aqueduct.Broker.Writer.Rounds.{
  timer_fired, nack_received, notice_received, cancelled, remember, after_fetch, deliver_at,
  is_expired, on_nack, take_nack, Wakeup, deliver_frame, message_of, timer_event, Running,
  deliver_message, handle_event, writer_round, Settings,
}
use aqueduct.Broker.Writer.{
  delivery_offset, after_flush, outgoing, nack_cache_size, Writer, flush, accumulate,
  append_and_flush, append_frame, store_frame,
}
use aqueduct.Broker.Router.Slots.{writer_fetch}
use aqueduct.Base.Bytes.{Bytes}
use aqueduct.Broker.Router.{Message, Router}
use aqueduct.Broker.Router.Publish.{Outside}
use aqueduct.Protocol.Extensions.{Total}
use aqueduct.Broker.Refs.{Refs}
use aqueduct.Broker.Writer.Filled.{Filled, outgoing-Filled}

-- What holds of a writer between two rounds.
pub record IsTidy (w : Writer) : Type 0 where
  pub settled : length w.buf ≡ 0 → w.pending ≡ []
  pub room : length w.buf < w.max_size
  pub bounded : length w.cache ≤ nack_cache_size

store_frame-bounded :
    (cache : List (ℕ × Bytes)) (offset : ℕ) (topic : Bytes)
    → length cache ≤ nack_cache_size
    → length (store_frame cache offset topic) ≤ nack_cache_size
unfolding store_frame
store_frame-bounded cache offset topic h = ground (
  arith,
  length-append cache ((offset, topic) ∷ []),
  length-append (drop 1 cache) ((offset, topic) ∷ []),
  length-drop 1 cache,
)

module _ (attempt : ℕ → Option ℕ) where
  flush-IsTidy :
      (w : Writer) (refs : Refs)
      → 0 < w.max_size
      → length w.cache ≤ nack_cache_size
      → 0 < length w.buf
      → IsTidy (flush attempt w refs).0
  unfolding flush
  flush-IsTidy w refs h k there = elim (Bool-cases (length w.buf == 0)) [
    | inl nothing ↦ ground arith
    | inr there ↦ rw there (record { settled = λ e. refl; room = h; bounded = k })
  ]

  append_and_flush-IsTidy :
      (m : ℕ) (frame : Bytes) (w : Writer) (refs : Refs)
      → IsTidy w
      → 0 < length frame
      → IsTidy (append_and_flush attempt m frame (w, refs)).0
  unfolding append_and_flush append_frame
  append_and_flush-IsTidy m frame w refs t there =
      let w1 = append_frame w m frame in
      let size : length w1.buf ≡ length w.buf + length frame = length-append w.buf frame in
      elim (Bool-cases (leb w1.max_size (length w1.buf))) [
        | inl full ↦
            rw full (flush-IsTidy w1 refs (omega (arith, t.room)) t.bounded (omega (arith, size)))
        | inr short ↦ rw short (record {
          settled = λ e. absurd (omega (arith, size, e));
          room = ground arith;
          bounded = t.bounded;
        })
      ]

  after_flush-IsTidy :
      (m : ℕ) (frame : Bytes) (f : Writer × Refs × Bool)
      → IsTidy f.0
      → 0 < length frame
      → IsTidy (after_flush attempt m frame f).0
  after_flush-IsTidy m frame (w, refs, true) t there = t
  after_flush-IsTidy m frame (w, refs, false) t there =
      append_and_flush-IsTidy m frame w refs t there

  flushed-IsTidy : (w : Writer) (refs : Refs) → IsTidy w → IsTidy (flush attempt w refs).0
  unfolding flush
  flushed-IsTidy w refs t = elim (Bool-cases (length w.buf == 0)) [
    | inl nothing ↦ rw nothing t
    | inr there ↦
        rw there (record { settled = λ e. refl; room = omega (arith, t.room); bounded = t.bounded })
  ]

  pub flush-pending : (w : Writer) (refs : Refs) → IsTidy w → (flush attempt w refs).0.pending ≡ []
  unfolding flush
  flush-pending w refs t = elim (Bool-cases (length w.buf == 0)) [
    | inl nothing ↦ rw nothing (t.settled ((==_iff (length w.buf) 0).0 nothing))
    | inr there ↦ rw there refl
  ]

  accumulate-IsTidy :
      (m : ℕ) (frame : Bytes) (w : Writer) (refs : Refs)
      → IsTidy w
      → 0 < length frame
      → IsTidy (accumulate attempt m frame w refs).0
  unfolding accumulate
  accumulate-IsTidy m frame w refs t there =
      elim (Bool-cases (ltb 0 (length w.buf) && ltb w.max_size (length w.buf + length frame))) [
        | inl full ↦
            rw full
              (after_flush-IsTidy m frame (flush attempt w refs) (flushed-IsTidy w refs t) there)
        | inr fits ↦ rw fits (append_and_flush-IsTidy m frame w refs t there)
      ]

module _ (c : Settings) where
  deliver_frame-IsTidy :
      (s : Running) (m : ℕ) (frame : Total Bytes)
      → Filled frame
      → IsTidy s.writer
      → IsTidy (deliver_frame c s m frame).0.writer
  deliver_frame-IsTidy s m (ok frame) h t =
      accumulate-IsTidy c.attempt m frame s.writer s.router.refs t h
  deliver_frame-IsTidy s m (err e) h t = absurd e
  deliver_frame-IsTidy s m fault h t = t

  deliver_at-IsTidy :
      (s : Running) (x : Message) (m : ℕ) (offset : Total ℕ)
      → 0 < length x.buf
      → IsTidy s.writer
      → IsTidy (deliver_at c s x m offset).0.writer
  deliver_at-IsTidy s x m (ok offset) h t =
      deliver_frame-IsTidy (remember s offset c.topic) m (outgoing c.group x.buf offset)
        (outgoing-Filled c.group x.buf offset h)
        (record {
          settled = t.settled;
          room = t.room;
          bounded = store_frame-bounded s.writer.cache offset c.topic t.bounded;
        })
  deliver_at-IsTidy s x m (err e) h t = absurd e
  deliver_at-IsTidy s x m fault h t = t

  deliver_message-IsTidy :
      (now : ℕ) (s : Running) (m : ℕ)
      → IsTidy s.writer
      → IsTidy (deliver_message c now s m).0.writer
  unfolding deliver_message
  deliver_message-IsTidy now s m t =
      let x = message_of s.router.messages m in
      elim (Bool-cases (is_expired x now || length x.buf == 0)) [
        | inl skipped ↦ rw skipped t
        | inr there ↦
            rw there (deliver_at-IsTidy s x m (delivery_offset x.buf x.offset) (ground arith) t)
      ]

  timer_event-IsTidy :
      (s : Running) (armed : Bool) → IsTidy s.writer → IsTidy (timer_event c s armed).0.writer
  timer_event-IsTidy s true t =
      let f = flushed-IsTidy c.attempt s.writer s.router.refs t in
      record { settled = f.settled; room = f.room; bounded = f.bounded }
  timer_event-IsTidy s false t = t

  on_nack-IsTidy :
      (o : Outside) (s : Running) (got : Router × Option ℕ)
      → IsTidy s.writer
      → IsTidy (on_nack c o s got).0.writer
  on_nack-IsTidy o s (r, none) t = t
  on_nack-IsTidy o s (r, some offset) t = t

  handle_event-IsTidy :
      (o : Outside) (s : Running) (e : Wakeup)
      → IsTidy s.writer
      → IsTidy (handle_event c o s e).0.writer
  unfolding handle_event
  handle_event-IsTidy o s cancelled t = t
  handle_event-IsTidy o s notice_received t = t
  handle_event-IsTidy o s nack_received t = on_nack-IsTidy o s (take_nack s.router c.idx) t
  handle_event-IsTidy o s timer_fired t = timer_event-IsTidy s s.writer.timer t

  after_fetch-IsTidy :
      (o : Outside) (e : Wakeup) (s : Running) (got : Router × Option (ℕ × ℕ))
      → IsTidy s.writer
      → IsTidy (after_fetch c o e s got).0.writer
  after_fetch-IsTidy o e s (r, none) t = handle_event-IsTidy o (record s { router = r }) e t
  after_fetch-IsTidy o e s (r, some (m, p)) t =
      deliver_message-IsTidy o.now (record s { router = r }) m t

  -- A round keeps the accumulator below its size, with no reference held where it is empty, and at
  -- most 256 offsets in the cache, whatever it fetched, whatever event came, and whether its writes
  -- failed.
  pub writer_round-IsTidy :
      (o : Outside) (s : Running) (e : Wakeup)
      → IsTidy s.writer
      → IsTidy (writer_round c o s e).0.writer
  unfolding writer_round
  writer_round-IsTidy o s e t = after_fetch-IsTidy o e s (writer_fetch s.router c.idx) t
