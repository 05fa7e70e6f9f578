-- ===== src/Messages/Format.antt =====
-- src/messages.cpp, `MessageFormat`: the definition `<name>:<field0>;<field1>; ...` of a topic.
use my_ulog.Base.{
  ℕ, zero, suc, ◌^◌, ◌≤◌, ◌<◌, ◌≡◌, refl, List, [], ◌∷◌, ◌++◌, Option, none, some, append-nil,
  arith, if◌then◌else◌, length, take, drop, length-append, All, take-length, drop-suc-length,
  length-drop, inl, inr, Option-cases,
}
use my_ulog.Base.Bytes.{Bytes, flatten, flatten_pair, find, Lacks, find-append}
use my_ulog.Base.Memory.{byte_at, u16_at, read_u16, read_bytes, read_bytes_part, IsComplete}
use my_ulog.Base.Result.{
  Result, ok, throw, parsing, ◌>>=◌, out_of_fuel, message_too_long, no_colon, no_semicolon, IsSound,
  else_ok,
}
use my_ulog.Messages.Raw.{
  UlogMessageType, to_byte, message_header, exceeds_u16, exceeds_u16-false, read_u16-header,
  IsFrame, header-IsFrame,
}
use my_ulog.Messages.Field.{
  Field, parse_field, encode, IsEncodable, parse_field-encode, parse_field-IsSound,
}

pub record MessageFormat : Type 0 where
  pub name : Bytes
  pub fields : List Field

-- The `while (!format_str.empty())` loop. Each round takes a semicolon at least, so the length of the
-- text is enough fuel.
parse_fields : ℕ → Bytes → Result (List Field)
parse_fields fuel [] = ok []
parse_fields zero (c ∷ s) = out_of_fuel
parse_fields (suc fuel) (c ∷ s) = elim (find b';' (c ∷ s)) [
  | none ↦ throw (parsing no_semicolon)
  | some semicolon ↦ do
    field ← parse_field (take semicolon (c ∷ s))
    fields ← parse_fields fuel (drop (suc semicolon) (c ∷ s))
    ok (field ∷ fields)
]

parse_definition : Bytes → Option ℕ → Result MessageFormat
unfolding parse_fields
parse_definition format_str none = throw (parsing no_colon)
parse_definition format_str (some colon) = do
  fields ← parse_fields (length format_str) (drop (suc colon) format_str)
  ok (record { name = take colon format_str; fields = fields })

-- `MessageFormat::MessageFormat(const uint8_t* msg)`.
unfoldable pub parse_format : Bytes → Result MessageFormat
unfolding parse_definition
parse_format msg = do
  msg_size ← read_u16 0 msg
  format_str ← read_bytes 3 msg_size msg
  parse_definition format_str (find b':' format_str)

encode_fields : List Field → Bytes
encode_fields [] = []
encode_fields (f ∷ fs) = encode f ++ (b';' ∷ encode_fields fs)

unfoldable pub definition : MessageFormat → Bytes
unfolding encode_fields
definition format = format.name ++ (b':' ∷ encode_fields format.fields)

-- `MessageFormat::serialize`: the writes that it makes.
unfoldable pub serialize_format : MessageFormat → Result (List Bytes)
unfolding definition
serialize_format format =
    let format_str = definition format in
    if exceeds_u16 (length format_str)
    then throw (parsing message_too_long)
    else ok (message_header (length format_str) (to_byte UlogMessageType.format) ∷ format_str ∷ [])

-- Fields that can be told apart in a definition.
pub record IsMember (f : Field) : Type 0 where
  pub key : IsEncodable f
  pub no_semicolon : Lacks b';' (encode f)

-- A definition that can be taken apart, and fits in memory.
pub record IsFormat (format : MessageFormat) : Type 0 where
  pub no_colon : Lacks b':' format.name
  pub members : All IsMember format.fields
  pub in_memory : length (definition format) < 2 ^ 31

parse_fields_step :
    (fuel : ℕ) (s : Bytes) (k : ℕ)
    → find b';' s ≡ some k
    → parse_fields (suc fuel) s ≡ (
        parse_field (take k s) >>= λ field.
        parse_fields fuel (drop (suc k) s) >>= λ fields. ok (field ∷ fields))
unfolding parse_fields
parse_fields_step fuel [] k e = unfold find in cc
parse_fields_step fuel (c ∷ s) k e = rw (e, parse_fields)

length-encode_fields :
    (f : Field) (fs : List Field) → length (encode_fields fs) < length (encode_fields (f ∷ fs))
unfolding encode_fields
length-encode_fields f fs = omega (arith, length-append (encode f) (b';' ∷ encode_fields fs))

length-definition_pos : (format : MessageFormat) → 1 ≤ length (definition format)
unfolding definition
length-definition_pos format =
    omega (arith, length-append format.name (b':' ∷ encode_fields format.fields))

parse_fields-encode :
    (fuel : ℕ) (fs : List Field)
    → All IsMember fs
    → length (encode_fields fs) ≤ fuel
    → parse_fields fuel (encode_fields fs) ≡ ok fs
unfolding encode_fields
parse_fields-encode fuel [] h enough = unfold parse_fields in refl
parse_fields-encode zero (f ∷ fs) h enough = absurd (omega (arith, length-encode_fields f fs))
parse_fields-encode (suc fuel) (f ∷ fs) h enough =
    let tail = encode_fields fs in
    rw (
      parse_fields_step fuel (encode f ++ (b';' ∷ tail)) (length (encode f))
          (find-append b';' (encode f) tail h.0.no_semicolon),
      take-length (encode f) (b';' ∷ tail),
      drop-suc-length (encode f) tail b';',
      parse_field-encode f h.0.key,
      parse_fields-encode fuel fs h.1 (omega (arith, length-encode_fields f fs)),
    )

parse_definition-definition :
    (format : MessageFormat)
    → IsFormat format
    → parse_definition (definition format) (find b':' (definition format)) ≡ ok format
unfolding parse_definition definition
parse_definition-definition format h =
    let tail = encode_fields format.fields in
    rw (
      find-append b':' format.name tail h.no_colon,
      drop-suc-length format.name tail b':',
      parse_fields-encode (length (format.name ++ (b':' ∷ tail))) format.fields h.members
          (omega (arith, length-append format.name (b':' ∷ tail))),
      take-length format.name (b':' ∷ tail),
    )

-- What `serialize` wrote is parsed back, whatever follows it.
-- The values fit the format, as `IsFormat` says.
pub parse_format-serialize :
    (format : MessageFormat) (rest : Bytes) (ws : List Bytes)
    → IsFormat format
    → serialize_format format ≡ ok ws
    → parse_format (flatten ws ++ rest) ≡ ok format
unfolding parse_format serialize_format
parse_format-serialize format rest ws h e =
    let (pass, same) = else_ok _ _ e in
    let text = definition format in
    let head = message_header (length text) b'F' in
    rw
      (
        ← same,
        flatten_pair,
        read_u16-header (length text) b'F' (text ++ rest)
            (exceeds_u16-false (length text) h.in_memory pass),
        read_bytes_part head text rest {m = head ++ (text ++ rest)} {i = 3} refl refl refl,
      )
      (parse_definition-definition format h)

-- What `serialize` wrote is one frame of its type.
pub serialize_format-IsFrame :
    (format : MessageFormat) (ws : List Bytes)
    → IsFormat format
    → serialize_format format ≡ ok ws
    → IsFrame (flatten ws) × (byte_at 2 (flatten ws) ≡ to_byte UlogMessageType.format)
unfolding serialize_format
serialize_format-IsFrame format ws h e =
    let (pass, same) = else_ok _ _ e in
    let text = definition format in
    rw (← same, ← append-nil (flatten _), flatten_pair)
      (
        header-IsFrame (length text) b'F' (text ++ [])
            (exceeds_u16-false (length text) h.in_memory pass) (length-definition_pos format)
            (omega (arith, length-append text [])) (omega arith),
        refl,
      )

parse_fields-IsSound : (fuel : ℕ) (s : Bytes) → length s ≤ fuel → IsSound (parse_fields fuel s)
unfolding parse_fields
parse_fields-IsSound fuel [] h = tt
parse_fields-IsSound zero (c ∷ s) h = elim h [ ]
parse_fields-IsSound (suc fuel) (c ∷ s) h = elim (Option-cases (find b';' (c ∷ s))) [
  | inl missing ↦ rw (missing, parse_fields) tt
  | inr (k, e) ↦ rw (parse_fields_step fuel (c ∷ s) k e) (
      ground (
        arith,
        parse_field-IsSound (take k (c ∷ s)),
        parse_fields-IsSound fuel (drop (suc k) (c ∷ s)) (omega (arith, length-drop k s)),
      ))
]

parse_definition-IsSound : (s : Bytes) (colon : Option ℕ) → IsSound (parse_definition s colon)
unfolding parse_definition
parse_definition-IsSound s none = tt
parse_definition-IsSound s (some colon) = ground (
  arith,
  parse_fields-IsSound (length s) (drop (suc colon) s) (omega (arith, length-drop (suc colon) s)),
)

-- A complete message is parsed, or refused by an exception: the loop ends, and no byte outside the
-- message is read.
pub parse_format-IsSound : (msg : Bytes) → IsComplete msg → IsSound (parse_format msg)
unfolding parse_format read_u16 read_bytes
parse_format-IsSound msg h =
    let text = take (u16_at 0 msg) (drop 3 msg) in
    ground (arith, parse_definition-IsSound text (find b':' text))
