-- ===== src/Transport/Hang.antt =====
-- internal/transport/broker.go and processor.go: a first buffer that is shorter than its array.
use aqueduct.Base.{
  zero, ap, ◌∙◌, ltb, ◌&&◌, drop, take, ◌-◌, arith, true, refl, ◌==◌, suc, ◌∷◌, false, [], ◌<◌, ◌≡◌,
  length, Bool, ℕ,
}
use aqueduct.Transport.Streams.{hung, Served, Buffer, read_round, after_read, read_loop}
use aqueduct.Aal.Delivery.{IsReader}
use aqueduct.Transport.{Session, Broker}
use aqueduct.Base.Bytes.{Bytes}

module _ (b : Broker) (client : Bytes) (stream : ℕ) (amount : ℕ → ℕ → ℕ) where
  no_room :
      (s : Session) (buf : Buffer) (got : Bytes) (eof : Bool) (continue : Session → Buffer → Served)
      → got ≡ []
      → eof ≡ false
      → after_read b client stream s buf got eof continue ≡ continue s buf
  unfolding after_read
  no_room s buf [] false continue e f = refl
  no_room s buf [] true continue e f = absurd (cc (f))
  no_room s buf (c ∷ cs) eof continue e f = absurd (cc (e))

  -- Once a buffer that is shorter than its backing array is full, the read loop never ends while its
  -- reads do not fail, whatever the client has still sent: for reads that fit the space they are
  -- given, it runs out of any fuel, and the session stays as it is.
  pub read_loop-hangs :
      (fuel : ℕ) (s : Session) (buf : Buffer) (incoming : Bytes)
      → IsReader amount
      → length buf.live ≡ buf.size
      → buf.size < buf.capacity
      → read_loop b client stream amount fuel s buf incoming ≡ (s, hung)
  unfolding read_loop read_round
  read_loop-hangs zero s buf incoming r full short = refl
  read_loop-hangs (suc fuel) s buf incoming r full short =
      let uneven : (length buf.live == buf.capacity) ≡ false = ground (arith, full, short) in
      let room = buf.size - length buf.live in
      let n = amount room (length incoming) in
      let none_read : n ≡ 0 = omega (arith, r.fits room (length incoming), full) in
      let nothing : take n incoming ≡ [] = rw none_read refl in
      let all_left : drop n incoming ≡ incoming = rw none_read refl in
      let no_end : (length incoming == 0 && ltb 0 room) ≡ false = ground (arith, full) in
      rw (uneven, read_loop)
        (no_room s buf (take n incoming) (length incoming == 0 && ltb 0 room)
            (λ t rest. read_loop b client stream amount fuel t rest (drop n incoming)) nothing
            no_end
          ∙ ap (λ x. read_loop b client stream amount fuel s buf x) all_left
          ∙ read_loop-hangs fuel s buf incoming r full short)
