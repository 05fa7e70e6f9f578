-- ===== src/Messages/Raw.antt =====
-- include/ulog_cpp/raw_messages.hpp: the message types and the packed structs, as bytes in memory.
use my_ulog.Base.{
  ℕ, ◌/◌, ◌%◌, ◌^◌, ◌<◌, ◌≡◌, ◌++◌, ◌<◌, refl, [], ◌∷◌, Bool, false, ◌+◌, ◌≤◌, ◌≢◌, length, ◌&&◌,
  Option, none, some, arith, ltb, ◌==◌, if◌then◌else◌,
}
use my_ulog.Base.Bytes.{Bytes}
use my_ulog.Base.Memory.{read_u16, u16_at, byte_at}
use my_ulog.Base.Result.{ok}

-- `ULogMessageType`.
pub data UlogMessageType : Type 0 where
  format logged_data info info_multiple parameter parameter_default : UlogMessageType
  add_logged_msg remove_logged_msg sync dropout logging logging_tagged flag_bits : UlogMessageType

-- `static_cast<uint8_t>` of a message type.
abbrev pub to_byte : UlogMessageType → ℕ
to_byte UlogMessageType.format = b'F'
to_byte UlogMessageType.logged_data = b'D'
to_byte UlogMessageType.info = b'I'
to_byte UlogMessageType.info_multiple = b'M'
to_byte UlogMessageType.parameter = b'P'
to_byte UlogMessageType.parameter_default = b'Q'
to_byte UlogMessageType.add_logged_msg = b'A'
to_byte UlogMessageType.remove_logged_msg = b'R'
to_byte UlogMessageType.sync = b'S'
to_byte UlogMessageType.dropout = b'O'
to_byte UlogMessageType.logging = b'L'
to_byte UlogMessageType.logging_tagged = b'C'
to_byte UlogMessageType.flag_bits = b'B'

-- `static_cast<ULogMessageType>` of a byte; `none` where no enumerator has the value, which every
-- switch over it sends to its default.
unfoldable pub of_byte : ℕ → Option UlogMessageType
of_byte b =
    if b == b'F'
    then some UlogMessageType.format
    else if b == b'D'
    then some UlogMessageType.logged_data
    else if b == b'I'
    then some UlogMessageType.info
    else if b == b'M'
    then some UlogMessageType.info_multiple
    else if b == b'P'
    then some UlogMessageType.parameter
    else if b == b'Q'
    then some UlogMessageType.parameter_default
    else if b == b'A'
    then some UlogMessageType.add_logged_msg
    else if b == b'R'
    then some UlogMessageType.remove_logged_msg
    else if b == b'S'
    then some UlogMessageType.sync
    else if b == b'O'
    then some UlogMessageType.dropout
    else if b == b'L'
    then some UlogMessageType.logging
    else if b == b'C'
    then some UlogMessageType.logging_tagged
    else if b == b'B'
    then some UlogMessageType.flag_bits
    else none

pub of_byte-to_byte : (t : UlogMessageType) → of_byte (to_byte t) ≡ some t
unfolding of_byte
of_byte-to_byte UlogMessageType.format = refl
of_byte-to_byte _ = refl

-- `ulog_file_magic_bytes`.
abbrev pub file_magic_bytes : Bytes
file_magic_bytes = b'U' ∷ b'L' ∷ b'o' ∷ b'g' ∷ 0x01 ∷ 0x12 ∷ 0x35 ∷ []

-- A uint16_t in memory.
abbrev pub u16_bytes : ℕ → Bytes
u16_bytes n = (n % 256) ∷ (n / 256 % 256) ∷ []

-- The three bytes of `ulog_message_header_s`; the size is a uint16_t.
abbrev pub message_header : ℕ → ℕ → Bytes
message_header msg_size msg_type = (msg_size % 256) ∷ (msg_size / 256 % 256) ∷ msg_type ∷ []

-- `(int)size > std::numeric_limits<uint16_t>::max()` for a size_t: the conversion to int keeps the
-- low 32 bits and reads them as a signed number.
unfoldable pub exceeds_u16 : ℕ → Bool
exceeds_u16 size = ltb (size % 2 ^ 32) (2 ^ 31) && ltb 65535 (size % 2 ^ 32)

-- Below 2 GiB the test is exact.
pub exceeds_u16_exact : (size : ℕ) → size < 2 ^ 31 → exceeds_u16 size ≡ ltb 65535 size
unfolding exceeds_u16
exceeds_u16_exact size h = ground arith

pub exceeds_u16-false : (size : ℕ) → size < 2 ^ 31 → exceeds_u16 size ≡ false → size < 65536
unfolding exceeds_u16
exceeds_u16-false size h e = ground arith

-- The size in a header is read back.
pub read_u16-header :
    (size type : ℕ) (rest : Bytes)
    → size < 65536
    → read_u16 0 (message_header size type ++ rest) ≡ ok size
unfolding read_u16
read_u16-header size type rest h = ground arith

-- One whole message and nothing else, with a payload and a type as `Reader::readChunk` wants them.
pub record IsFrame (m : Bytes) : Type 0 where
  pub exact : u16_at 0 m + 3 ≡ length m
  pub payload : 1 ≤ u16_at 0 m
  pub typed : byte_at 2 m ≢ 0

pub header-IsFrame :
    (size type : ℕ) (payload : Bytes)
    → size < 65536
    → 1 ≤ size
    → size ≡ length payload
    → type ≢ 0
    → IsFrame (message_header size type ++ payload)
header-IsFrame size type payload small nonempty e typed = record {
  exact = omega arith;
  payload = omega arith;
  typed = typed;
}

pub to_byte-ne-zero : (t : UlogMessageType) → to_byte t ≢ 0
to_byte-ne-zero UlogMessageType.format = omega arith
to_byte-ne-zero _ = omega arith
