-- ===== src/Broker/Writer.antt =====
-- internal/broker/router.go, batchAccumulator and the local part of runSubscriberWriter: the
-- accumulator that coalesces frames into writes, the cache of the offsets that a NACK may name, and
-- the frame that a message becomes. The stream is a parameter: `attempt n` is how the writer's n-th
-- write ends, `none` for success and `some k` for an error after k bytes.
use aqueduct.Base.Buffers.{copy_at}
use aqueduct.Base.{
  not, ◌*◌, drop, zero, ◌&&◌, ◌+◌, ◌/◌, ◌==◌, ◌||◌, leb, length, ltb, suc, take, true, ◌>>=◌, ◌^◌,
  ◌∷◌, Outcome, [], false, if◌then◌else◌, none, ok, some, ◌%◌, ◌++◌, Bool, List, Option, ℕ,
}
use aqueduct.Protocol.Command.{header_size, has_extensions_bit}
use aqueduct.Broker.Refs.{Refs, release}
use aqueduct.Broker.Queue.{drain}
mod Tests
pub mod Redelivery
pub mod Nacks
pub mod Rounds
pub mod Frames
pub mod Offsets
pub mod Filled
pub mod Publishes
pub mod Wire
pub mod Ends
pub mod Bounds
pub mod Stream
pub mod Accounts
pub mod Balance
pub mod Retries
use aqueduct.Base.Bytes.{Bytes, at, le32_at, put_le32}
use aqueduct.Protocol.Extensions.{Total, find_extension, ext_retry_offset}

-- `timer` says that the timer is armed; `writes` counts the calls of the stream's Write, and `wire`
-- is what they handed over. `cache` is oldest first: frameCacheKeys with frameCache's topics.
pub record Writer : Type 0 where
  pub max_size : ℕ
  pub buf : Bytes
  pub pending : List ℕ
  pub timer : Bool
  pub writes : ℕ
  pub wire : Bytes
  pub cache : List (ℕ × Bytes)

unfoldable pub new_writer : ℕ → Writer
new_writer max_size = record {
  max_size = max_size;
  buf = [];
  pending = [];
  timer = false;
  writes = 0;
  wire = [];
  cache = [];
}

-- What of the buffer a write hands over.
abbrev pub accepted_bytes : Option ℕ → Bytes → Bytes
accepted_bytes none buf = buf
accepted_bytes (some k) buf = take k buf

abbrev pub is_some {ℓ} : {A : Type ℓ} → Option A → Bool
is_some none = false
is_some (some a) = true

-- `flush`, and whether it returned an error. It leaves the timer alone.
unfoldable pub flush : (ℕ → Option ℕ) → Writer → Refs → Writer × Refs × Bool
unfolding drain
flush attempt w refs = if length w.buf == 0 then (w, refs, false) else (
  record w {
    buf = [];
    pending = [];
    writes = w.writes + 1;
    wire = w.wire ++ accepted_bytes (attempt w.writes) w.buf;
  },
  drain w.pending refs,
  is_some (attempt w.writes),
)

abbrev pub nack_cache_size : ℕ
nack_cache_size = 256

unfoldable pub cached : List (ℕ × Bytes) → ℕ → Option Bytes
cached [] offset = none
cached ((k, topic) ∷ cache) offset = if k == offset then some topic else cached cache offset

unfoldable pub store_frame : List (ℕ × Bytes) → ℕ → Bytes → List (ℕ × Bytes)
unfolding cached
store_frame cache offset topic =
    if is_some (cached cache offset)
    then cache
    else (if leb nack_cache_size (length cache) then drop 1 cache else cache)
      ++ (offset, topic) ∷ []

-- binary.LittleEndian on eight bytes.
unfoldable pub put_le64 : ℕ → Bytes
put_le64 v = put_le32 (v % 2 ^ 32) ++ put_le32 (v / 2 ^ 32 % 2 ^ 32)

unfoldable pub le64_at : {E : Type 0} → Bytes → ℕ → Outcome E ℕ
unfolding le32_at
le64_at buf i = do low ← le32_at buf i; high ← le32_at buf (i + 4); ok (low + 2 ^ 32 * high)

-- The value of the retry extension, where it has eight bytes.
abbrev pub original_or : ℕ → Option Bytes → Total ℕ
original_or offset none = ok offset
original_or offset (some value) = if leb 8 (length value) then le64_at value 0 else ok offset

-- The offset that a subscriber acknowledges: a retried message keeps the one it had.
unfoldable pub delivery_offset : Bytes → ℕ → Total ℕ
unfolding find_extension le64_at has_extensions_bit
delivery_offset buf offset = if ltb (length buf) header_size then ok offset else do
  raw ← at buf 1
  (if not (has_extensions_bit raw) then ok offset else do
    found ← find_extension (drop header_size buf) ext_retry_offset
    original_or offset found)

-- `make([]byte, n)`
unfoldable pub zero_bytes : ℕ → Bytes
zero_bytes zero = []
zero_bytes (suc n) = 0 ∷ zero_bytes n

-- A consumer group's member gets the offset behind the payload.
unfoldable pub append_offset : Bytes → ℕ → Total Bytes
unfolding le32_at put_le64 zero_bytes
append_offset buf offset = if ltb (length buf) header_size then ok buf else do
  len ← le32_at buf 6
  (let total = header_size + len in
      ok (
        if ltb (length buf) total
        then buf
        else (let fresh = copy_at (zero_bytes (total + 8)) 0 (take total buf) in
            copy_at (copy_at fresh 6 (put_le32 ((len + 8) % 2 ^ 32))) total (put_le64 offset))))

-- What goes on the wire for a message.
unfoldable pub outgoing : Bytes → Bytes → ℕ → Total Bytes
unfolding append_offset
outgoing group buf offset = if length group == 0 then ok buf else append_offset buf offset

-- The end of a round: the loop goes on, the writer returns, or a read out of bounds stops it.
pub data Going : Type 0 where
  goes_on returns panics : Going

-- The accumulator's part of a delivery: a flush in front of a frame that would pass the size, the
-- frame, and a flush at the size. The reference is the writer's own on every way out.
unfoldable pub append_frame : Writer → ℕ → Bytes → Writer
append_frame w m frame = record w {
  buf = w.buf ++ frame;
  pending = w.pending ++ m ∷ [];
  timer = w.timer || length w.buf == 0;
}

abbrev pub going_of : Bool → Going
going_of failure = if failure then returns else goes_on

unfoldable pub append_and_flush : (ℕ → Option ℕ) → ℕ → Bytes → Writer × Refs → Writer × Refs × Going
unfolding append_frame flush
append_and_flush attempt m frame (w, refs) =
    let w1 = append_frame w m frame in
    let (w2, refs2, failure) = flush attempt w1 refs in
    if leb w1.max_size (length w1.buf) then (w2, refs2, going_of failure) else (w1, refs, goes_on)

-- The flush in front, which ends the writer on an error.
abbrev pub after_flush : (ℕ → Option ℕ) → ℕ → Bytes → Writer × Refs × Bool → Writer × Refs × Going
after_flush attempt m frame (w, refs, failure) =
    if failure then (w, release refs m, returns) else append_and_flush attempt m frame (w, refs)

unfoldable pub accumulate : (ℕ → Option ℕ) → ℕ → Bytes → Writer → Refs → Writer × Refs × Going
unfolding append_and_flush flush release
accumulate attempt m frame w refs =
    if ltb 0 (length w.buf) && ltb w.max_size (length w.buf + length frame)
    then after_flush attempt m frame (flush attempt w refs)
    else append_and_flush attempt m frame (w, refs)
