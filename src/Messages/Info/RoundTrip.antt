-- ===== src/Messages/Info/RoundTrip.antt =====
-- What `MessageInfo::serialize` writes is one frame, and is parsed back.
use my_ulog.Base.{
  ℕ, ◌+◌, ◌-◌, ◌^◌, ◌≤◌, ◌<◌, ◌≡◌, refl, List, [], ◌∷◌, ◌++◌, Bool, true, false, not, append-nil,
  arith, ge→ltb, ◌==◌, if◌then◌else◌, length, length-append,
}
use my_ulog.Base.Bytes.{Bytes, flatten, flatten_triple}
use my_ulog.Base.Memory.{byte_at, read_u8-eq, read_bytes_part}
use my_ulog.Base.Result.{ok, else_ok, or_false}
use my_ulog.Messages.Raw.{
  UlogMessageType, to_byte, message_header, exceeds_u16-false, read_u16-header,
}
use my_ulog.Messages.Field.{
  Field, parse_field, encode, IsEncodable, parse_field-encode, length-encode_pos,
}
use my_ulog.Messages.Raw.{IsFrame, header-IsFrame, to_byte-ne-zero}
use my_ulog.Messages.Info.{MessageInfo, parse_info, bool_byte, serialize_parts, serialize_info}

abbrev multi_head : ℕ → ℕ → Bool → Bytes → Bytes
multi_head size type continued key =
    message_header size type ++ (bool_byte continued ∷ length key ∷ [])

abbrev single_head : ℕ → ℕ → Bytes → Bytes
single_head size type key = message_header size type ++ (length key ∷ [])

bool_byte-not : (b : Bool) → not (bool_byte b == 0) ≡ b
bool_byte-not true = refl
bool_byte-not false = refl

-- A frame with the layout of a multi message is parsed into its parts.
parse_info_multi :
    (key value rest : Bytes) (size type : ℕ) (continued : Bool) (f : Field)
    → size ≡ length key + length value + 2
    → size < 65536
    → 1 ≤ length key
    → parse_field key ≡ ok f
    → parse_info true (multi_head size type continued key ++ (key ++ (value ++ rest)))
      ≡ ok (record { field = f; value = value; continued = continued; is_multi = true })
unfolding parse_info
parse_info_multi key value rest size type continued f e small nonempty parsed =
    let head = multi_head size type continued key in
    let m = head ++ (key ++ (value ++ rest)) in
    rw (
      read_u16-header size type _ small,
      ge→ltb size 3 (omega arith),
      read_u8-eq 3 m (omega arith),
      read_u8-eq 4 m (omega arith),
      ge→ltb (size - 2) (length key) (omega arith),
      read_bytes_part head key (value ++ rest) {m = m} {i = 5} refl refl refl,
      parsed,
      read_bytes_part (head ++ key) value rest {m = m} {i = 5 + length key}
          {n = size - length key - 2} refl (omega arith) (omega arith),
      bool_byte-not continued,
    )

parse_info_single :
    (key value rest : Bytes) (size type : ℕ) (f : Field)
    → size ≡ length key + length value + 1
    → size < 65536
    → 1 ≤ length key
    → parse_field key ≡ ok f
    → parse_info false (single_head size type key ++ (key ++ (value ++ rest)))
      ≡ ok (record { field = f; value = value; continued = false; is_multi = false })
unfolding parse_info
parse_info_single key value rest size type f e small nonempty parsed =
    let head = single_head size type key in
    let m = head ++ (key ++ (value ++ rest)) in
    rw (
      read_u16-header size type _ small,
      ge→ltb size 2 (omega arith),
      read_u8-eq 3 m (omega arith),
      ge→ltb (size - 1) (length key) (omega arith),
      read_bytes_part head key (value ++ rest) {m = m} {i = 4} refl refl refl,
      parsed,
      read_bytes_part (head ++ key) value rest {m = m} {i = 4 + length key}
          {n = size - length key - 1} refl (omega arith) (omega arith),
    )

-- What the constructors of the class guarantee, with a value that fits in memory: an encodable key,
-- and no continuation but of a multi message.
pub record IsInfo (info : MessageInfo) : Type 0 where
  pub key : IsEncodable info.field
  pub single : info.is_multi ≡ false → info.continued ≡ false
  pub in_memory : length (encode info.field) + length info.value + 2 < 2 ^ 31

serialize_parts-parse :
    (f : Field) (multi continued : Bool) (type : UlogMessageType) (value rest : Bytes)
    (ws : List Bytes)
    → IsEncodable f
    → (multi ≡ false → continued ≡ false)
    → length (encode f) + length value + 2 < 2 ^ 31
    → serialize_parts multi continued type (encode f) value ≡ ok ws
    → parse_info multi (flatten ws ++ rest)
      ≡ ok (record { field = f; value = value; continued = continued; is_multi = multi })
unfolding serialize_parts
serialize_parts-parse f true continued type value rest ws key single fits e =
    let (pass, same) = else_ok _ _ e in
    let size = length (encode f) + length value + 2 in
    rw (← same, flatten_triple)
      (parse_info_multi (encode f) value rest size (to_byte UlogMessageType.info_multiple) continued
        f refl (exceeds_u16-false size fits (or_false _ _ pass).0) (length-encode_pos f)
        (parse_field-encode f key))
serialize_parts-parse f false continued type value rest ws key single fits e =
    let (pass, same) = else_ok _ _ e in
    let size = length (encode f) + length value + 1 in
    rw (← same, flatten_triple, single refl)
      (parse_info_single (encode f) value rest size (to_byte type) f refl
        (exceeds_u16-false size (omega arith) (or_false _ _ pass).0) (length-encode_pos f)
        (parse_field-encode f key))

serialize_parts-IsFrame :
    (multi continued : Bool) (type : UlogMessageType) (key value : Bytes) (ws : List Bytes)
    → length key + length value + 2 < 2 ^ 31
    → 1 ≤ length key
    → serialize_parts multi continued type key value ≡ ok ws
    → IsFrame (flatten ws)
      × (byte_at 2 (flatten ws) ≡ to_byte (if multi then UlogMessageType.info_multiple else type))
unfolding serialize_parts
serialize_parts-IsFrame true continued type key value ws fits nonempty e =
    let (pass, same) = else_ok _ _ e in
    let size = length key + length value + 2 in
    rw (← same, ← append-nil (flatten _), flatten_triple)
      (
        header-IsFrame size b'M' (bool_byte continued ∷ length key ∷ (key ++ (value ++ [])))
            (exceeds_u16-false size fits (or_false _ _ pass).0) (omega arith)
            (omega (arith, length-append key (value ++ []), length-append value [])) (omega arith),
        refl,
      )
serialize_parts-IsFrame false continued type key value ws fits nonempty e =
    let (pass, same) = else_ok _ _ e in
    let size = length key + length value + 1 in
    rw (← same, ← append-nil (flatten _), flatten_triple)
      (
        header-IsFrame size (to_byte type) (length key ∷ (key ++ (value ++ [])))
            (exceeds_u16-false size (omega arith) (or_false _ _ pass).0) (omega arith)
            (omega (arith, length-append key (value ++ []), length-append value []))
            (to_byte-ne-zero type),
        refl,
      )

-- What `serialize` wrote, under either message type, is parsed back, whatever follows it.
-- The values fit the format, as `IsInfo` says.
pub parse_info-serialize :
    (info : MessageInfo) (type : UlogMessageType) (rest : Bytes) (ws : List Bytes)
    → IsInfo info
    → serialize_info info type ≡ ok ws
    → parse_info info.is_multi (flatten ws ++ rest) ≡ ok info
unfolding serialize_info
parse_info-serialize info type rest ws h e =
    serialize_parts-parse info.field info.is_multi info.continued type info.value rest ws h.key
      h.single h.in_memory e

-- What `serialize` wrote is one frame, of the type that the message asks for.
-- The values fit the format, as `IsInfo` says.
pub serialize_info-IsFrame :
    (info : MessageInfo) (type : UlogMessageType) (ws : List Bytes)
    → IsInfo info
    → serialize_info info type ≡ ok ws
    → IsFrame (flatten ws)
      × (byte_at 2 (flatten ws)
          ≡ to_byte (if info.is_multi then UlogMessageType.info_multiple else type))
unfolding serialize_info
serialize_info-IsFrame info type ws h e =
    serialize_parts-IsFrame info.is_multi info.continued type (encode info.field) info.value ws
      h.in_memory (length-encode_pos info.field) e
