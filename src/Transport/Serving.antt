-- ===== src/Transport/Serving.antt =====
-- internal/transport/broker.go, runStreamReadLoop: the loop is one walk over the whole stream.
use aqueduct.Transport.Rereads.{read_round-served, settled, Ready, served}
use aqueduct.Transport.Streams.{
  leave, get_buf, handle_stream, maybe_grow, drain_and_maybe_grow, grow_buffer, read_loop,
  after_dispatch, read_round, Buffer, Served,
}
use aqueduct.Base.{
  none, some, Option, subst, take_all, ◌*◌, ltb, ◌==◌, Bool-cases, if◌then◌else◌, zero, take, sym,
  ap, ◌∙◌, inr, [], inl, arith, refl, suc, ◌++◌, ◌+◌, ◌<◌, length, All, ◌≡◌, ◌≤◌, ℕ,
}
use aqueduct.Transport.{read_payload_len, Broker, Session}
use aqueduct.Transport.Rounds.{IsCut}
use aqueduct.Transport.Route.{dispatch_frames}
use aqueduct.Base.Bytes.{IsByte, Bytes}
use aqueduct.Aal.Delivery.{IsReader}

module _ (b : Broker) (client : Bytes) (stream : ℕ) (amount : ℕ → ℕ → ℕ) (r : IsReader amount)
    (big : 10 ≤ b.max_buf_size) where
  grown :
      (buf : Buffer)
      → Ready b client stream amount r big buf
      → length buf.live ≡ buf.capacity
      → Ready b client stream amount r big (grow_buffer b buf)
        × ((grow_buffer b buf).live ≡ buf.live)
        × (length buf.live < (grow_buffer b buf).size)
        × (buf.capacity < b.max_buf_size)
  unfolding grow_buffer
  grown buf ready full =
      let below : buf.capacity < b.max_buf_size = elim ready.cut.1 [
        | inl short ↦ omega (arith, short, big, full)
        | inr fits ↦ omega (arith, ready.cut.0, fits, full)
      ] in
      let cap =
        if ltb b.max_buf_size (buf.capacity * 2) then b.max_buf_size else buf.capacity * 2 in
      let larger : buf.capacity < cap = ground (arith, below, ready.filled, ready.even) in
      let same : take cap buf.live ≡ buf.live =
        take_all cap buf.live (omega (arith, larger, full)) in
      (
        record {
          cut = subst (λ x. IsCut b x) (sym same) ready.cut;
          bytes = subst (λ x. All IsByte x) (sym same) ready.bytes;
          even = refl;
          room = rw same (omega (arith, larger, full));
          filled = omega (arith, larger);
        },
        same,
        omega (arith, larger, full),
        below,
      )

  growing :
      (s : Session) (buf : Buffer) (continue : Session → Buffer → Served)
      → length buf.live ≡ buf.capacity
      → buf.capacity < b.max_buf_size
      → maybe_grow b s buf continue ≡ continue s (grow_buffer b buf)
  unfolding maybe_grow
  growing s buf continue full below = ground (arith, full, below)

  drained :
      (s : Session) (buf : Buffer) (continue : Session → Buffer → Served)
      → Ready b client stream amount r big buf
      → length buf.live ≡ buf.capacity
      → drain_and_maybe_grow b client stream s buf continue ≡ continue s (grow_buffer b buf)
  unfolding drain_and_maybe_grow after_dispatch maybe_grow
  drained s buf continue ready full =
      let (_, _, _, below) = grown buf ready full in
      ap (λ q. after_dispatch buf q (λ t rest. maybe_grow b t rest continue))
        (settled b client stream amount r big s buf.live ready.cut)
      ∙ growing s buf continue full below

  read_loop-served :
      (fuel : ℕ) (s : Session) (buf : Buffer) (incoming : Bytes)
      → Ready b client stream amount r big buf
      → All IsByte incoming
      → length incoming < fuel
      → read_loop b client stream amount fuel s buf incoming
        ≡ served (dispatch_frames b client stream s (buf.live ++ incoming))
  unfolding read_loop
  read_loop-served zero s buf incoming ready all f = absurd (omega arith)
  read_loop-served (suc fuel) s buf incoming ready all f =
      let again = λ (more : Bytes) (t : Session) (rest : Buffer).
        read_loop b client stream amount fuel t rest more in
      let follows =
        λ (more : Bytes) (t : Session) (rest : Buffer) (g : length more < fuel)
            (mb : All IsByte more) (q : Ready b client stream amount r big rest).
          read_loop-served fuel t rest more q mb g in
      elim (Bool-cases (length buf.live == buf.capacity)) [
        | inl e ↦
            let full : length buf.live ≡ buf.capacity = ground (arith, e) in
            let (ready', same, space, _) = grown buf ready full in
            rw (e, read_loop)
              (drained s buf (λ t rest. read_round b client stream amount t rest incoming again)
                  ready full
                ∙ read_round-served b client stream amount r big s (grow_buffer b buf) incoming fuel
                    again ready' all (rw same space) (omega arith) follows
                ∙ ap (λ x. served (dispatch_frames b client stream s (x ++ incoming))) same)
        | inr e ↦
            rw (e, read_loop)
              (read_round-served b client stream amount r big s buf incoming fuel again ready all
                (ground (arith, e, ready.room, ready.even)) (omega arith) follows)
      ]

  fresh-Ready :
      (pooled : Option ℕ) (size : ℕ)
      → ((cap : ℕ) → pooled ≡ some cap → cap ≤ size)
      → 0 < size
      → Ready b client stream amount r big (get_buf pooled size) × ((get_buf pooled size).live ≡ [])
  unfolding get_buf read_payload_len
  fresh-Ready none size fits pos = (
    record {
      cut = (omega arith, inl (omega arith));
      bytes = tt;
      even = refl;
      room = omega arith;
      filled = pos;
    },
    refl,
  )
  fresh-Ready (some cap) size fits pos = (
    record {
      cut = (omega arith, inl (omega arith));
      bytes = tt;
      even = ground (arith, fits cap refl);
      room = omega arith;
      filled = pos;
    },
    refl,
  )

  -- With a limit of ten bytes or more, a first buffer that is not empty and as large as its array,
  -- and reads that take something where something is left, serving a stream of bytes is one walk
  -- over all of them, wherever the reads cut them, with the subscriptions of the stream dropped
  -- behind it: the loop ends by itself, with the end of the stream or with the error of the walk.
  pub handle_stream-served :
      (pooled : Option ℕ) (size : ℕ) (s : Session) (incoming : Bytes)
      → ((cap : ℕ) → pooled ≡ some cap → cap ≤ size)
      → 0 < size
      → All IsByte incoming
      → handle_stream b client stream amount pooled size s incoming
        ≡ leave stream (served (dispatch_frames b client stream s incoming))
  unfolding handle_stream
  handle_stream-served pooled size s incoming fits pos all =
      let (ready, empty) = fresh-Ready pooled size fits pos in
      ap (leave stream) (
        read_loop-served (length incoming + 2) s (get_buf pooled size) incoming ready all
          (omega arith)
        ∙ ap (λ x. served (dispatch_frames b client stream s (x ++ incoming))) empty)
