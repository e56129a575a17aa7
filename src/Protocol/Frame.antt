-- ===== src/Protocol/Frame.antt =====
-- internal/protocol/frame.go: the frame, its parser and its serializers. `int` has 64 bits, so
-- lengths read from the wire do not overflow it.
pub mod Encode
pub mod Body
pub mod Inversion
pub mod Safety
pub mod RoundTrip
pub mod Canonical
use aqueduct.Base.Buffers.{copy_at}
use aqueduct.Base.{
  ℕ, ◌+◌, ◌-◌, ◌%◌, ◌^◌, Bool, not, [], ◌++◌, ltb, ◌==◌, if◌then◌else◌, length, take, drop, set,
  Outcome, ok, reject, ◌>>=◌, ◌>>◌,
}
use aqueduct.Base.Bytes.{Bytes, at, slice, le32_at, put_le32}
use aqueduct.Protocol.Command.{
  magic_byte, header_size, opcode_of, has_extensions_bit, set_extensions, unknown_opcode,
}
use aqueduct.Protocol.Extensions.{ext_header_len, max_ext_total_len, ext_total_len, ext_block_size}

pub record Frame : Type 0 where
  pub command : ℕ
  pub stream_id : ℕ
  pub payload_len : ℕ
  pub payload : Bytes
  pub extensions : Bytes

pub data ParseError : Type 0 where
  short_header invalid_magic unknown_command truncated : ParseError
  short_extensions oversized_extensions excess_extensions : ParseError

-- uint32(len(f.Extensions)) + f.PayloadLen, which wraps.
unfoldable pub data_len : Frame → ℕ
data_len f =
    if ltb 0 (length f.extensions)
    then (length f.extensions % 2 ^ 32 + f.payload_len) % 2 ^ 32
    else f.payload_len

unfoldable pub size : Frame → ℕ
unfolding data_len
size f = header_size + data_len f

unfoldable pub has_extensions : Frame → Bool
has_extensions f = ltb 0 (length f.extensions)

-- The extension block, the position of the payload and its length.
unfoldable pub parse_extensions : Bytes → ℕ → ℕ → Outcome ParseError (Bytes × ℕ × ℕ)
parse_extensions buf raw len =
    if not (has_extensions_bit raw) then ok ([], header_size, len) else do
      reject (ltb len ext_header_len) short_extensions
      total ← ext_total_len buf header_size
      reject (ltb max_ext_total_len total) oversized_extensions
      reject (ltb (header_size + len) (header_size + ext_block_size total)) excess_extensions
      block ← slice buf header_size (header_size + ext_block_size total)
      ok (block, header_size + ext_block_size total, (len + 2 ^ 32 - ext_block_size total) % 2 ^ 32)

-- The frame over the parts that the header and the extension block gave.
unfoldable pub finish_frame : Bytes → ℕ → ℕ → Bytes × ℕ × ℕ → Outcome ParseError Frame
finish_frame buf raw id (block, start, len) =
    if len == 0
    then ok (record {
      command = raw;
      stream_id = id;
      payload_len = 0;
      payload = [];
      extensions = block;
    })
    else do
      payload ← slice buf start (start + len)
      ok (record {
        command = raw;
        stream_id = id;
        payload_len = len;
        payload = payload;
        extensions = block;
      })

unfoldable pub parse_frame : Bytes → Outcome ParseError Frame
parse_frame buf = do
  reject (ltb (length buf) header_size) short_header
  magic ← at buf 0
  reject (not (magic == magic_byte)) invalid_magic
  raw ← at buf 1
  reject (unknown_opcode (opcode_of raw)) unknown_command
  id ← le32_at buf 2
  len ← le32_at buf 6
  reject (ltb (length buf) (header_size + len)) truncated
  parts ← parse_extensions buf raw len
  finish_frame buf raw id parts

-- The ten header bytes, written into a recycled buffer.
unfoldable pub write_header : Bytes → ℕ → ℕ → ℕ → Bytes
unfolding put_le32
write_header buf cmd id len =
    copy_at (copy_at (set (set buf 0 magic_byte) 1 cmd) 2 (put_le32 id)) 6 (put_le32 len)

-- `buf` is what the slab allocator or the pool hands out, of the frame's length and with any
-- content.
unfoldable pub serialize_frame : Bytes → ℕ → ℕ → Bytes → Bytes
unfolding write_header
serialize_frame buf cmd id payload =
    let len = length payload % 2 ^ 32 in
    let b = write_header buf cmd id len in if ltb 0 len then copy_at b header_size payload else b

unfoldable pub serialize_with_extensions : Bytes → ℕ → ℕ → Bytes → Bytes → Bytes
unfolding write_header set_extensions
serialize_with_extensions buf cmd id extensions payload =
    let len = length payload % 2 ^ 32 in
    let total = (length extensions % 2 ^ 32 + len) % 2 ^ 32 in
    let b = write_header buf (set_extensions cmd) id total in
    let c = if ltb 0 (length extensions) then copy_at b header_size extensions else b in
    if ltb 0 len then copy_at c (header_size + length extensions) payload else c
