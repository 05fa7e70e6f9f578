-- ===== src/Messages/Dropout.antt =====
-- src/messages.cpp, `Dropout`: a gap in the log.
use my_ulog.Base.{ℕ, ◌<◌, ◌≡◌, refl, List, [], ◌∷◌, ◌++◌, arith, ltb}
use my_ulog.Base.Bytes.{Bytes, flatten}
use my_ulog.Base.Memory.{byte_at, read_u16, IsComplete}
use my_ulog.Base.Result.{Result, ok, parsing, ◌>>=◌, ◌>>◌, throw_if, message_too_short, IsSound}
use my_ulog.Messages.Raw.{UlogMessageType, to_byte, u16_bytes, message_header, IsFrame}

pub record Dropout : Type 0 where
  pub duration_ms : ℕ

-- `Dropout::Dropout(const uint8_t* msg)`.
unfoldable pub parse_dropout : Bytes → Result Dropout
parse_dropout msg = do
  msg_size ← read_u16 0 msg
  throw_if (ltb msg_size 2) (parsing message_too_short)
  duration ← read_u16 3 msg
  ok (record { duration_ms = duration })

-- `Dropout::serialize`: one write of the whole struct, whose payload is a uint16_t.
unfoldable pub serialize_dropout : Dropout → Result (List Bytes)
serialize_dropout d =
    ok ((message_header 2 (to_byte UlogMessageType.dropout) ++ u16_bytes d.duration_ms) ∷ [])

-- What `serialize` wrote is one frame of its type, and is parsed back, whatever follows it.
-- The duration is one of a uint16_t.
pub parse_dropout-serialize :
    (d : Dropout) (rest : Bytes)
    → d.duration_ms < 65536
    → (ws : List Bytes) × (serialize_dropout d ≡ ok ws)
      × IsFrame (flatten ws)
      × (byte_at 2 (flatten ws) ≡ to_byte UlogMessageType.dropout)
      × (parse_dropout (flatten ws ++ rest) ≡ ok d)
unfolding parse_dropout serialize_dropout read_u16
parse_dropout-serialize d rest h = (
  _,
  refl,
  record { exact = omega arith; payload = omega arith; typed = omega arith },
  refl,
  ground arith,
)

pub parse_dropout-IsSound : (msg : Bytes) → IsComplete msg → IsSound (parse_dropout msg)
unfolding parse_dropout read_u16
parse_dropout-IsSound msg h = ground arith
