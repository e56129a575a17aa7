-- ===== src/Transport/Streams.antt =====
-- internal/transport/broker.go and processor.go: the read loop of one stream and its buffer. A read
-- takes `amount space left` of the bytes still to come, as the log's replay does.
use aqueduct.Transport.Route.{no_fuel, rejected, crashed, left, Dispatched, dispatch_frames}
use aqueduct.Base.{
  drop, leb, zero, ◌&&◌, take, ◌++◌, ◌+◌, ◌==◌, Bool, length, ltb, not, some, suc, ◌-◌, [],
  if◌then◌else◌, none, ◌*◌, Option, ℕ,
}
use aqueduct.Transport.{unauthorized, Broker, Session, StreamError}
use aqueduct.Base.Bytes.{Bytes}
use aqueduct.Broker.Router.Slots.{unsubscribe}

-- A buffer of `size` bytes in a backing array of `capacity`; `live` is its part up to `off`.
pub record Buffer : Type 0 where
  pub size : ℕ
  pub capacity : ℕ
  pub live : Bytes

-- `GetBuf`: an array of the pool that is large enough, or a new one.
unfoldable pub get_buf : Option ℕ → ℕ → Buffer
get_buf none min_cap = record { size = min_cap; capacity = min_cap; live = [] }
get_buf (some cap) min_cap = record {
  size = min_cap;
  capacity = if ltb cap min_cap then min_cap else cap;
  live = [];
}

unfoldable pub grow_buffer : Broker → Buffer → Buffer
grow_buffer b buf =
    let doubled = buf.capacity * 2 in
    let new_cap = if ltb b.max_buf_size doubled then b.max_buf_size else doubled in
    record { size = new_cap; capacity = new_cap; live = take new_cap buf.live }

-- The code that the stream is cancelled with.
unfoldable pub handle_dispatch_error : StreamError → ℕ
handle_dispatch_error unauthorized = 401
handle_dispatch_error other = 1

-- How the loop ends: with the stream's end, cancelled, with a fault, or without fuel.
pub data StreamEnd : Type 0 where
  closed : StreamEnd
  cancelled : ℕ → StreamEnd
  broken hung : StreamEnd

abbrev pub Served : Type 0
Served = Session × StreamEnd

-- The end that a walk forces, or the buffer with what the walk left.
unfoldable pub after_dispatch : Buffer → Session × Dispatched → (Session → Buffer → Served) → Served
unfolding handle_dispatch_error
after_dispatch buf (s, left rest) continue = continue s (record buf { live = rest })
after_dispatch buf (s, rejected e) continue = (s, cancelled (handle_dispatch_error e))
after_dispatch buf (s, crashed) continue = (s, broken)
after_dispatch buf (s, no_fuel) continue = (s, hung)

-- The part of `drainAndMaybeGrow` behind the walk.
unfoldable pub maybe_grow : Broker → Session → Buffer → (Session → Buffer → Served) → Served
unfolding grow_buffer
maybe_grow b s buf continue =
    if not (length buf.live == buf.capacity)
    then continue s buf
    else if leb b.max_buf_size buf.capacity
    then (s, cancelled 1)
    else continue s (grow_buffer b buf)

unfoldable pub drain_and_maybe_grow :
    Broker → Bytes → ℕ → Session → Buffer → (Session → Buffer → Served) → Served
unfolding dispatch_frames after_dispatch maybe_grow
drain_and_maybe_grow b client stream s buf continue =
    after_dispatch buf (dispatch_frames b client stream s buf.live)
      (λ t rest. maybe_grow b t rest continue)

-- One read and the walk behind it; `eof` is the error that comes with the last bytes.
unfoldable pub after_read :
    Broker → Bytes → ℕ → Session → Buffer → Bytes → Bool → (Session → Buffer → Served) → Served
unfolding dispatch_frames after_dispatch
after_read b client stream s buf got eof continue =
    let next = λ (t : Session) (rest : Buffer). if eof then (t, closed) else continue t rest in
    if ltb 0 (length got)
    then after_dispatch (record buf { live = buf.live ++ got })
        (dispatch_frames b client stream s (buf.live ++ got)) next
    else next s buf

unfoldable pub read_round :
    Broker
    → Bytes
    → ℕ
    → (ℕ → ℕ → ℕ)
    → Session
    → Buffer
    → Bytes
    → (Bytes → Session → Buffer → Served)
    → Served
unfolding after_read
read_round b client stream amount s buf incoming continue =
    let space = buf.size - length buf.live in
    let n = amount space (length incoming) in
    after_read b client stream s buf (take n incoming) (length incoming == 0 && ltb 0 space)
      (continue (drop n incoming))

unfoldable pub read_loop : Broker → Bytes → ℕ → (ℕ → ℕ → ℕ) → ℕ → Session → Buffer → Bytes → Served
unfolding drain_and_maybe_grow read_round
read_loop b client stream amount zero s buf incoming = (s, hung)
read_loop b client stream amount (suc fuel) s buf incoming =
    let again = λ (more : Bytes) (t : Session) (rest : Buffer).
      read_loop b client stream amount fuel t rest more in
    if length buf.live == buf.capacity
    then drain_and_maybe_grow b client stream s buf
        (λ t grown. read_round b client stream amount t grown incoming again)
    else read_round b client stream amount s buf incoming again

-- The deferred `Unsubscribe`.
abbrev pub leave : ℕ → Served → Served
leave stream (s, e) = elim s.router [
  | none ↦ (s, e)
  | some r ↦ (record s { router = some (unsubscribe r stream) }, e)
]

-- A round that does not end takes a byte.
unfoldable pub handle_stream :
    Broker → Bytes → ℕ → (ℕ → ℕ → ℕ) → Option ℕ → ℕ → Session → Bytes → Served
unfolding read_loop get_buf unsubscribe
handle_stream b client stream amount pooled read_buf_size s incoming = leave stream (
    read_loop b client stream amount (length incoming + 2) s (get_buf pooled read_buf_size)
      incoming)
