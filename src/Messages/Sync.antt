-- ===== src/Messages/Sync.antt =====
-- src/messages.cpp, `Sync`: a message with fixed bytes, by which a position in a log is known again.
use my_ulog.Base.{◌≡◌, refl, List, [], ◌∷◌, ◌++◌, arith, ltb, if◌then◌else◌}
use my_ulog.Base.Bytes.{Bytes, flatten, bytes_eq}
use my_ulog.Base.Memory.{byte_at, read_u16, read_bytes, IsComplete}
use my_ulog.Base.Result.{
  Result, ok, throw, parsing, ◌>>=◌, ◌>>◌, throw_if, message_too_short, IsSound, invalid_sync,
}
use my_ulog.Messages.Raw.{UlogMessageType, to_byte, message_header, IsFrame}

-- `Sync` has no state.
pub record Sync : Type 0 where

-- `Sync::kSyncMagicBytes`.
abbrev pub sync_magic_bytes : Bytes
sync_magic_bytes = 0x2F ∷ 0x73 ∷ 0x13 ∷ 0x20 ∷ 0x25 ∷ 0x0C ∷ 0xBB ∷ 0x12 ∷ []

-- `Sync::Sync(const uint8_t* msg)`.
unfoldable pub parse_sync : Bytes → Result Sync
unfolding bytes_eq
parse_sync msg = do
  msg_size ← read_u16 0 msg
  throw_if (ltb msg_size 8) (parsing message_too_short)
  sync_magic ← read_bytes 3 8 msg
  if bytes_eq sync_magic sync_magic_bytes then ok (record {}) else throw (parsing invalid_sync)

-- `Sync::serialize`: one write of the whole struct.
unfoldable pub serialize_sync : Sync → Result (List Bytes)
serialize_sync s = ok ((message_header 8 (to_byte UlogMessageType.sync) ++ sync_magic_bytes) ∷ [])

-- What `serialize` wrote is one frame of its type, and is parsed back, whatever follows it.
pub parse_sync-serialize :
    (s : Sync) (rest : Bytes)
    → (ws : List Bytes) × (serialize_sync s ≡ ok ws)
      × IsFrame (flatten ws)
      × (byte_at 2 (flatten ws) ≡ to_byte UlogMessageType.sync)
      × (parse_sync (flatten ws ++ rest) ≡ ok s)
unfolding parse_sync serialize_sync read_u16 read_bytes
parse_sync-serialize s rest = (
  _,
  refl,
  record { exact = omega arith; payload = omega arith; typed = omega arith },
  refl,
  ground arith,
)

pub parse_sync-IsSound : (msg : Bytes) → IsComplete msg → IsSound (parse_sync msg)
unfolding parse_sync read_u16 read_bytes
parse_sync-IsSound msg h = ground arith
