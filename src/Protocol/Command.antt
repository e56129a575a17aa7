-- ===== src/Protocol/Command.antt =====
-- internal/protocol/frame.go: the command byte. Bits 7 and 6 are control bits, the lower six hold
-- the opcode.
use aqueduct.Base.{
  ℕ, ◌+◌, ◌/◌, ◌%◌, ◌≤◌, ◌<◌, ◌≡◌, Bool, false, not, ◌||◌, arith, ltb, ◌==◌, bit_and, bit_or,
}
use aqueduct.Base.Bits.{clear_control, bit_six, bit_seven, set_bit_six, set_bit_seven}

abbrev pub magic_byte : ℕ
magic_byte = 0x1f

abbrev pub header_size : ℕ
header_size = 10

-- The opcodes, from 1 on.
abbrev pub cmd_publish : ℕ
cmd_publish = 1

abbrev pub cmd_subscribe : ℕ
cmd_subscribe = 2

abbrev pub cmd_unsubscribe : ℕ
cmd_unsubscribe = 3

abbrev pub cmd_ack : ℕ
cmd_ack = 4

abbrev pub cmd_publish_batch : ℕ
cmd_publish_batch = 5

abbrev pub cmd_nack : ℕ
cmd_nack = 6

unfoldable pub is_forwarded : ℕ → Bool
is_forwarded cmd = not (bit_and cmd 0x80 == 0)

unfoldable pub set_forwarded : ℕ → ℕ
set_forwarded cmd = bit_or cmd 0x80

-- `cmd & ^MeshForwardedBit & ^HasExtensionsBit`
unfoldable pub opcode_of : ℕ → ℕ
opcode_of cmd = bit_and (bit_and cmd 0x7f) 0xbf

-- `rawCmd & HasExtensionsBit != 0`
unfoldable pub has_extensions_bit : ℕ → Bool
has_extensions_bit cmd = not (bit_and cmd 0x40 == 0)

-- `cmd | HasExtensionsBit`
unfoldable pub set_extensions : ℕ → ℕ
set_extensions cmd = bit_or cmd 0x40

-- `cmd < CmdPublish || cmd > CmdNack`
unfoldable pub unknown_opcode : ℕ → Bool
unknown_opcode op = ltb op cmd_publish || ltb cmd_nack op

-- A command byte that the parser accepts.
abbrev pub IsKnown : ℕ → Type 0
IsKnown cmd = (cmd < 256) × (1 ≤ cmd % 64) × (cmd % 64 ≤ 6)

pub opcode_of-mod : (c : ℕ) → c < 256 → opcode_of c ≡ c % 64
unfolding opcode_of
opcode_of-mod c h = clear_control c h

pub has_extensions_bit-div : (c : ℕ) → c < 256 → has_extensions_bit c ≡ (c / 64 % 2 == 1)
unfolding has_extensions_bit
has_extensions_bit-div c h = ground (arith, bit_six c h)

pub is_forwarded-div : (c : ℕ) → c < 256 → is_forwarded c ≡ (c / 128 == 1)
unfolding is_forwarded
is_forwarded-div c h = ground (arith, bit_seven c h)

pub set_forwarded-mod : (c : ℕ) → c < 256 → set_forwarded c ≡ c % 128 + 128
unfolding set_forwarded
set_forwarded-mod c h = set_bit_seven c h

pub set_extensions-off : (c : ℕ) → c < 256 → c / 64 % 2 ≡ 0 → set_extensions c ≡ c + 64
unfolding set_extensions
set_extensions-off c h off = omega (arith, set_bit_six c h)

pub set_extensions-on : (c : ℕ) → c < 256 → c / 64 % 2 ≡ 1 → set_extensions c ≡ c
unfolding set_extensions
set_extensions-on c h on = omega (arith, set_bit_six c h)

pub unknown_opcode-IsKnown : (c : ℕ) → IsKnown c → unknown_opcode (opcode_of c) ≡ false
unfolding unknown_opcode
unknown_opcode-IsKnown c h = ground (arith, opcode_of-mod c h.0)

pub IsKnown-of_opcode : (c : ℕ) → c < 256 → unknown_opcode (opcode_of c) ≡ false → IsKnown c
unfolding unknown_opcode
IsKnown-of_opcode c h e = ground (arith, opcode_of-mod c h)

pub set_extensions-bit : (c : ℕ) → c < 256 → set_extensions c / 64 % 2 ≡ 1
unfolding set_extensions
set_extensions-bit c h = omega (arith, set_bit_six c h)

pub set_extensions-IsKnown : (c : ℕ) → IsKnown c → IsKnown (set_extensions c)
unfolding set_extensions
set_extensions-IsKnown c (h, lo, hi) = omega (arith, set_bit_six c h)
