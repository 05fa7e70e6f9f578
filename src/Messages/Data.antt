-- ===== src/Messages/Data.antt =====
-- src/messages.cpp, `Data`: the payload of one sample of a topic.
use my_ulog.Base.{
  ℕ, ◌+◌, ◌-◌, ◌^◌, ◌<◌, ◌≡◌, refl, List, [], ◌∷◌, ◌++◌, append-nil, arith, ltb, ◌==◌,
  if◌then◌else◌, length, length-append,
}
use my_ulog.Base.Bytes.{Bytes, flatten, flatten_pair}
use my_ulog.Base.Memory.{
  byte_at, u16_at, read_u16, read_u16-eq, read_bytes, read_bytes_part, IsComplete,
}
use my_ulog.Base.Result.{
  Result, ok, throw, parsing, ◌>>=◌, ◌>>◌, throw_if, message_too_short, message_too_long, IsSound,
  else_ok,
}
use my_ulog.Messages.Raw.{
  UlogMessageType, to_byte, u16_bytes, message_header, exceeds_u16, exceeds_u16-false,
  read_u16-header, IsFrame, header-IsFrame,
}

pub record Data : Type 0 where
  pub msg_id : ℕ
  pub payload : Bytes

-- `Data::Data(const uint8_t* msg)`.
unfoldable pub parse_data : Bytes → Result Data
parse_data msg = do
  msg_size ← read_u16 0 msg
  throw_if (ltb msg_size 3) (parsing message_too_short)
  msg_id ← read_u16 3 msg
  payload ← read_bytes 5 (msg_size - 2) msg
  ok (record { msg_id = msg_id; payload = payload })

abbrev pub data_head : ℕ → ℕ → Bytes
data_head size msg_id =
    message_header size (to_byte UlogMessageType.logged_data) ++ u16_bytes msg_id

-- `Data::serialize`: the writes that it makes.
unfoldable pub serialize_data : Data → Result (List Bytes)
serialize_data d =
    let msg_size = length d.payload + 2 in
    if exceeds_u16 msg_size
    then throw (parsing message_too_long)
    else ok (data_head msg_size d.msg_id ∷ d.payload ∷ [])

-- The range of the id's type, and a payload that fits in memory.
pub record IsData (d : Data) : Type 0 where
  pub msg_id_range : d.msg_id < 65536
  pub in_memory : length d.payload + 2 < 2 ^ 31

-- What `serialize` wrote is parsed back, whatever follows it, but for an empty payload: that message
-- is written, and refused by the parser.
-- The values fit the format, as `IsData` says.
pub parse_data-serialize :
    (d : Data) (rest : Bytes) (ws : List Bytes)
    → IsData d
    → serialize_data d ≡ ok ws
    → parse_data (flatten ws ++ rest)
      ≡ (if length d.payload == 0 then throw (parsing message_too_short) else ok d)
unfolding parse_data serialize_data
parse_data-serialize d rest ws h e =
    let payload = d.payload in
    let size = length payload + 2 in
    let head = data_head size d.msg_id in
    let m = head ++ (payload ++ rest) in
    let id : u16_at 3 m ≡ d.msg_id = omega (arith, h.msg_id_range) in
    let (pass, same) = else_ok _ _ e in
    rw
      (
        ← same,
        flatten_pair,
        read_u16-header size b'D' _ (exceeds_u16-false size h.in_memory pass),
        read_u16-eq 3 m (omega arith),
        id,
        read_bytes_part head payload rest {m = m} {i = 5} {n = size - 2} refl refl (omega arith),
      )
      (ground arith)

-- What `serialize` wrote is one frame of its type.
pub serialize_data-IsFrame :
    (d : Data) (ws : List Bytes)
    → IsData d
    → serialize_data d ≡ ok ws
    → IsFrame (flatten ws) × (byte_at 2 (flatten ws) ≡ to_byte UlogMessageType.logged_data)
unfolding serialize_data
serialize_data-IsFrame d ws h e =
    let (pass, same) = else_ok _ _ e in
    let payload = d.payload in
    let size = length payload + 2 in
    rw (← same, ← append-nil (flatten _), flatten_pair)
      (
        header-IsFrame size b'D' (u16_bytes d.msg_id ++ (payload ++ []))
            (exceeds_u16-false size h.in_memory pass) (omega arith)
            (omega (arith, length-append payload [])) (omega arith),
        refl,
      )

-- A complete message is parsed, or refused by an exception: no byte outside it is read.
pub parse_data-IsSound : (msg : Bytes) → IsComplete msg → IsSound (parse_data msg)
unfolding parse_data read_u16 read_bytes
parse_data-IsSound msg h = ground arith
