-- ===== src/Messages/AddLogged.antt =====
-- src/messages.cpp, `AddLoggedMessage`: the subscription of a message id to a topic.
use my_ulog.Base.{
  ℕ, ◌+◌, ◌-◌, ◌^◌, ◌<◌, ◌≡◌, refl, List, [], ◌∷◌, ◌++◌, append-nil, arith, ltb, ◌==◌,
  if◌then◌else◌, length, length-append,
}
use my_ulog.Base.Bytes.{Bytes, flatten, flatten_pair}
use my_ulog.Base.Memory.{
  byte_at, u16_at, read_u8, read_u16, read_u8-eq, read_u16-eq, read_bytes, read_bytes_part,
  IsComplete,
}
use my_ulog.Base.Result.{
  Result, ok, throw, parsing, ◌>>=◌, ◌>>◌, throw_if, message_too_short, message_too_long, IsSound,
  else_ok,
}
use my_ulog.Messages.Raw.{
  UlogMessageType, to_byte, u16_bytes, message_header, exceeds_u16, exceeds_u16-false,
  read_u16-header, IsFrame, header-IsFrame,
}

pub record AddLoggedMessage : Type 0 where
  pub multi_id : ℕ
  pub msg_id : ℕ
  pub message_name : Bytes

-- `AddLoggedMessage::AddLoggedMessage(const uint8_t* msg)`.
unfoldable pub parse_add_logged : Bytes → Result AddLoggedMessage
parse_add_logged msg = do
  msg_size ← read_u16 0 msg
  throw_if (ltb msg_size 4) (parsing message_too_short)
  multi_id ← read_u8 3 msg
  msg_id ← read_u16 4 msg
  message_name ← read_bytes 6 (msg_size - 3) msg
  ok (record { multi_id = multi_id; msg_id = msg_id; message_name = message_name })

abbrev add_logged_head : ℕ → ℕ → ℕ → Bytes
add_logged_head size multi_id msg_id =
    message_header size (to_byte UlogMessageType.add_logged_msg) ++ (multi_id ∷ u16_bytes msg_id)

-- `AddLoggedMessage::serialize`: the writes that it makes.
unfoldable pub serialize_add_logged : AddLoggedMessage → Result (List Bytes)
serialize_add_logged a =
    let msg_size = length a.message_name + 3 in
    if exceeds_u16 msg_size
    then throw (parsing message_too_long)
    else ok (add_logged_head msg_size a.multi_id a.msg_id ∷ a.message_name ∷ [])

-- The ranges of the fields' types, and a name that fits in memory.
pub record IsAddLogged (a : AddLoggedMessage) : Type 0 where
  pub msg_id_range : a.msg_id < 65536
  pub in_memory : length a.message_name + 3 < 2 ^ 31

-- What `serialize` wrote is parsed back, whatever follows it, but for an empty name: that message is
-- written, and refused by the parser.
-- The values fit the format, as `IsAddLogged` says.
pub parse_add_logged-serialize :
    (a : AddLoggedMessage) (rest : Bytes) (ws : List Bytes)
    → IsAddLogged a
    → serialize_add_logged a ≡ ok ws
    → parse_add_logged (flatten ws ++ rest)
      ≡ (if length a.message_name == 0 then throw (parsing message_too_short) else ok a)
unfolding parse_add_logged serialize_add_logged
parse_add_logged-serialize a rest ws h e =
    let name = a.message_name in
    let size = length name + 3 in
    let head = add_logged_head size a.multi_id a.msg_id in
    let m = head ++ (name ++ rest) in
    let id : u16_at 4 m ≡ a.msg_id = omega (arith, h.msg_id_range) in
    let (pass, same) = else_ok _ _ e in
    rw
      (
        ← same,
        flatten_pair,
        read_u16-header size b'A' _ (exceeds_u16-false size h.in_memory pass),
        read_u8-eq 3 m (omega arith),
        read_u16-eq 4 m (omega arith),
        id,
        read_bytes_part head name rest {m = m} {i = 6} {n = size - 3} refl refl (omega arith),
      )
      (ground arith)

-- What `serialize` wrote is one frame of its type.
pub serialize_add_logged-IsFrame :
    (a : AddLoggedMessage) (ws : List Bytes)
    → IsAddLogged a
    → serialize_add_logged a ≡ ok ws
    → IsFrame (flatten ws) × (byte_at 2 (flatten ws) ≡ to_byte UlogMessageType.add_logged_msg)
unfolding serialize_add_logged
serialize_add_logged-IsFrame a ws h e =
    let (pass, same) = else_ok _ _ e in
    let name = a.message_name in
    let size = length name + 3 in
    rw (← same, ← append-nil (flatten _), flatten_pair)
      (
        header-IsFrame size b'A' (a.multi_id ∷ (u16_bytes a.msg_id ++ (name ++ [])))
            (exceeds_u16-false size h.in_memory pass) (omega arith)
            (omega (arith, length-append name [])) (omega arith),
        refl,
      )

-- A complete message is parsed, or refused by an exception: no byte outside it is read.
pub parse_add_logged-IsSound : (msg : Bytes) → IsComplete msg → IsSound (parse_add_logged msg)
unfolding parse_add_logged read_u16 read_u8 read_bytes
parse_add_logged-IsSound msg h = ground arith
