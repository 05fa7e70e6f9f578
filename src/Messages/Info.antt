-- ===== src/Messages/Info.antt =====
-- src/messages.cpp, `MessageInfo`: information messages, and parameters, which share the class.
pub mod RoundTrip
use my_ulog.Base.{
  ℕ, zero, suc, ◌+◌, ◌-◌, ◌*◌, ◌/◌, ◌%◌, ◌^◌, ◌≤◌, ◌<◌, ◌≡◌, refl, ap, ◌∙◌, List, [], ◌∷◌, ◌++◌,
  Bool, true, false, not, ◌||◌, Option, none, some, append_assoc, append-nil, arith, ltb, leb,
  ge→ltb, ◌==◌, if◌then◌else◌, ℤ, pos, negsuc, length, take, drop, length-append,
}
use my_ulog.Base.Bytes.{Bytes, codes, le_bytes, flatten, flatten_triple}
use my_ulog.Base.Memory.{
  byte_at, u16_at, read_u8, read_u16, read_u8-eq, read_bytes, read_bytes_part, IsComplete,
}
use my_ulog.Base.Result.{
  Result, ok, throw, parsing, ◌>>=◌, ◌>>◌, throw_if, message_too_short, key_too_long,
  message_too_long, IsSound, else_ok, or_false,
}
use my_ulog.Messages.Raw.{
  UlogMessageType, to_byte, message_header, exceeds_u16, exceeds_u16-false, read_u16-header,
}
use my_ulog.Messages.Field.{
  Field, parse_field, encode, IsEncodable, parse_field-encode, parse_field-IsSound,
  length-encode_pos,
}

pub record MessageInfo : Type 0 where
  pub field : Field
  pub value : Bytes
  pub continued : Bool
  pub is_multi : Bool

-- `MessageInfo::MessageInfo(const uint8_t* msg, bool is_multi)` with its `initValues`.
unfoldable pub parse_info : Bool → Bytes → Result MessageInfo
parse_info true msg = do
  msg_size ← read_u16 0 msg
  throw_if (ltb msg_size 3) (parsing message_too_short)
  is_continued ← read_u8 3 msg
  key_len ← read_u8 4 msg
  throw_if (ltb (msg_size - 2) key_len) (parsing key_too_long)
  key ← read_bytes 5 key_len msg
  field ← parse_field key
  value ← read_bytes (5 + key_len) (msg_size - key_len - 2) msg
  ok (record { field = field; value = value; continued = not (is_continued == 0); is_multi = true })
parse_info false msg = do
  msg_size ← read_u16 0 msg
  throw_if (ltb msg_size 2) (parsing message_too_short)
  key_len ← read_u8 3 msg
  throw_if (ltb (msg_size - 1) key_len) (parsing key_too_long)
  key ← read_bytes 4 key_len msg
  field ← parse_field key
  value ← read_bytes (4 + key_len) (msg_size - key_len - 1) msg
  ok (record { field = field; value = value; continued = false; is_multi = false })

-- `MessageInfo(const std::string& key, int32_t value)`; the value is its 32-bit pattern.
unfoldable pub info_int32 : Bytes → ℕ → MessageInfo
info_int32 key value = record {
  field = record { type = codes "int32_t"; array_length = negsuc 0; name = key };
  value = le_bytes 4 value;
  continued = false;
  is_multi = false;
}

-- `MessageInfo(const std::string& key, float value)`; the value is its 32-bit pattern.
unfoldable pub info_float : Bytes → ℕ → MessageInfo
info_float key value = record {
  field = record { type = codes "float"; array_length = negsuc 0; name = key };
  value = le_bytes 4 value;
  continued = false;
  is_multi = false;
}

-- A size_t that is cut to an int.
abbrev to_int : ℕ → ℤ
to_int n = if ltb (n % 2 ^ 32) (2 ^ 31) then pos (n % 2 ^ 32) else negsuc (2 ^ 32 - 1 - n % 2 ^ 32)

-- `MessageInfo(const std::string& key, const std::string& value)`.
unfoldable pub info_string : Bytes → Bytes → MessageInfo
info_string key value = record {
  field = record { type = codes "char"; array_length = to_int (length value); name = key };
  value = value;
  continued = false;
  is_multi = false;
}

abbrev bool_byte : Bool → ℕ
bool_byte true = 1
bool_byte false = 0

-- The key and value behind the fixed bytes of either layout.
serialize_parts : Bool → Bool → UlogMessageType → Bytes → Bytes → Result (List Bytes)
serialize_parts true continued type key value =
    let msg_size = length key + length value + 2 in
    if exceeds_u16 msg_size || ltb 255 (length key)
    then throw (parsing message_too_long)
    else ok (
        (message_header msg_size (to_byte UlogMessageType.info_multiple)
          ++ (bool_byte continued ∷ length key ∷ []))
        ∷ key
        ∷ value
        ∷ [])
serialize_parts false continued type key value =
    let msg_size = length key + length value + 1 in
    if exceeds_u16 msg_size || ltb 255 (length key)
    then throw (parsing message_too_long)
    else ok ((message_header msg_size (to_byte type) ++ (length key ∷ [])) ∷ key ∷ value ∷ [])

-- `MessageInfo::serialize`: the writes that it makes. A multi message ignores `type`.
unfoldable pub serialize_info : MessageInfo → UlogMessageType → Result (List Bytes)
unfolding serialize_parts
serialize_info info type =
    serialize_parts info.is_multi info.continued type (encode info.field) info.value

-- A complete message is parsed, or refused by an exception: no byte outside it is read.
pub parse_info-IsSound :
    (multi : Bool) (msg : Bytes) → IsComplete msg → IsSound (parse_info multi msg)
unfolding parse_info read_u16 read_u8 read_bytes
parse_info-IsSound true msg h =
    ground (arith, parse_field-IsSound (take (byte_at 4 msg) (drop 5 msg)))
parse_info-IsSound false msg h =
    ground (arith, parse_field-IsSound (take (byte_at 3 msg) (drop 4 msg)))
