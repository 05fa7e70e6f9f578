-- ===== src/Messages/ParameterDefault.antt =====
-- src/messages.cpp, `ParameterDefault`.
use my_ulog.Base.{
  ℕ, ◌+◌, ◌-◌, ◌^◌, ◌≤◌, ◌<◌, ◌≡◌, refl, List, [], ◌∷◌, ◌++◌, ◌||◌, append-nil, arith, ltb, ge→ltb,
  if◌then◌else◌, length, take, drop, length-append,
}
use my_ulog.Base.Bytes.{Bytes, flatten, flatten_triple}
use my_ulog.Base.Memory.{
  byte_at, read_u8, read_u16, read_u8-eq, read_bytes, read_bytes_part, IsComplete,
}
use my_ulog.Base.Result.{
  Result, ok, throw, parsing, ◌>>=◌, ◌>>◌, throw_if, message_too_short, key_too_long,
  message_too_long, IsSound, else_ok, or_false,
}
use my_ulog.Messages.Raw.{
  UlogMessageType, to_byte, message_header, exceeds_u16, exceeds_u16-false, read_u16-header,
  IsFrame, header-IsFrame,
}
use my_ulog.Messages.Field.{
  Field, parse_field, encode, IsEncodable, parse_field-encode, parse_field-IsSound,
  length-encode_pos,
}

-- `default_types` is the byte of `ulog_parameter_default_type_t`, a set of two flags.
pub record ParameterDefault : Type 0 where
  pub field : Field
  pub value : Bytes
  pub default_types : ℕ

-- `ParameterDefault::ParameterDefault(const uint8_t* msg)` with its `initValues`.
unfoldable pub parse_parameter_default : Bytes → Result ParameterDefault
parse_parameter_default msg = do
  msg_size ← read_u16 0 msg
  throw_if (ltb msg_size 3) (parsing message_too_short)
  default_types ← read_u8 3 msg
  key_len ← read_u8 4 msg
  throw_if (ltb (msg_size - 2) key_len) (parsing key_too_long)
  key ← read_bytes 5 key_len msg
  field ← parse_field key
  value ← read_bytes (5 + key_len) (msg_size - key_len - 2) msg
  ok (record { field = field; value = value; default_types = default_types })

abbrev default_head : ℕ → ℕ → Bytes → Bytes
default_head size default_types key =
    message_header size (to_byte UlogMessageType.parameter_default)
    ++ (default_types ∷ length key ∷ [])

-- `ParameterDefault::serialize`: the writes that it makes.
unfoldable pub serialize_parameter_default : ParameterDefault → Result (List Bytes)
serialize_parameter_default p =
    let key = encode p.field in
    let msg_size = length key + length p.value + 2 in
    if exceeds_u16 msg_size || ltb 255 (length key)
    then throw (parsing message_too_long)
    else ok (default_head msg_size p.default_types key ∷ key ∷ p.value ∷ [])

-- An encodable key, and a value that fits in memory.
pub record IsParameterDefault (p : ParameterDefault) : Type 0 where
  pub key : IsEncodable p.field
  pub in_memory : length (encode p.field) + length p.value + 2 < 2 ^ 31

parse_parameter_default_parts :
    (key value rest : Bytes) (size types : ℕ) (f : Field)
    → size ≡ length key + length value + 2
    → size < 65536
    → 1 ≤ length key
    → parse_field key ≡ ok f
    → parse_parameter_default (default_head size types key ++ (key ++ (value ++ rest)))
      ≡ ok (record { field = f; value = value; default_types = types })
unfolding parse_parameter_default
parse_parameter_default_parts key value rest size types f e small nonempty parsed =
    let head = default_head size types key in
    let m = head ++ (key ++ (value ++ rest)) in
    rw (
      read_u16-header size b'Q' _ small,
      ge→ltb size 3 (omega arith),
      read_u8-eq 3 m (omega arith),
      read_u8-eq 4 m (omega arith),
      ge→ltb (size - 2) (length key) (omega arith),
      read_bytes_part head key (value ++ rest) {m = m} {i = 5} refl refl refl,
      parsed,
      read_bytes_part (head ++ key) value rest {m = m} {i = 5 + length key}
          {n = size - length key - 2} refl (omega arith) (omega arith),
    )

-- What `serialize` wrote is parsed back, whatever follows it.
-- The values fit the format, as `IsParameterDefault` says.
pub parse_parameter_default-serialize :
    (p : ParameterDefault) (rest : Bytes) (ws : List Bytes)
    → IsParameterDefault p
    → serialize_parameter_default p ≡ ok ws
    → parse_parameter_default (flatten ws ++ rest) ≡ ok p
unfolding serialize_parameter_default
parse_parameter_default-serialize p rest ws h e =
    let (pass, same) = else_ok _ _ e in
    let size = length (encode p.field) + length p.value + 2 in
    rw (← same, flatten_triple)
      (parse_parameter_default_parts (encode p.field) p.value rest size p.default_types p.field refl
        (exceeds_u16-false size h.in_memory (or_false _ _ pass).0) (length-encode_pos p.field)
        (parse_field-encode p.field h.key))

-- What `serialize` wrote is one frame of its type.
pub serialize_parameter_default-IsFrame :
    (p : ParameterDefault) (ws : List Bytes)
    → IsParameterDefault p
    → serialize_parameter_default p ≡ ok ws
    → IsFrame (flatten ws) × (byte_at 2 (flatten ws) ≡ to_byte UlogMessageType.parameter_default)
unfolding serialize_parameter_default
serialize_parameter_default-IsFrame p ws h e =
    let (pass, same) = else_ok _ _ e in
    let key = encode p.field in
    let size = length key + length p.value + 2 in
    rw (← same, ← append-nil (flatten _), flatten_triple)
      (
        header-IsFrame size b'Q' (p.default_types ∷ length key ∷ (key ++ (p.value ++ [])))
            (exceeds_u16-false size h.in_memory (or_false _ _ pass).0) (omega arith)
            (omega (arith, length-append key (p.value ++ []), length-append p.value []))
            (omega arith),
        refl,
      )

-- A complete message is parsed, or refused by an exception: no byte outside it is read.
pub parse_parameter_default-IsSound :
    (msg : Bytes) → IsComplete msg → IsSound (parse_parameter_default msg)
unfolding parse_parameter_default read_u16 read_u8 read_bytes
parse_parameter_default-IsSound msg h =
    ground (arith, parse_field-IsSound (take (byte_at 4 msg) (drop 5 msg)))
