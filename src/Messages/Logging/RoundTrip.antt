-- ===== src/Messages/Logging/RoundTrip.antt =====
-- What `Logging::serialize` writes is one frame, and is parsed back, but for an empty text.
use my_ulog.Base.{
  ℕ, ◌+◌, ◌-◌, ◌^◌, ◌<◌, ◌≡◌, refl, sym, ap, ◌∙◌, List, [], ◌∷◌, ◌++◌, Bool, true, false,
  append-nil, arith, ◌==◌, if◌then◌else◌, length, length-append,
}
use my_ulog.Base.Bytes.{Bytes, le_bytes, length-le_bytes, flatten, flatten_pair}
use my_ulog.Base.Memory.{read_u64_part, byte_at, u16_at, read_u8-eq, read_u16-eq, read_bytes_part}
use my_ulog.Base.Result.{Result, ok, throw, parsing, message_too_short, else_ok}
use my_ulog.Messages.Raw.{
  UlogMessageType, to_byte, u16_bytes, message_header, exceeds_u16-false, read_u16-header, IsFrame,
  header-IsFrame,
}
use my_ulog.Messages.Logging.{
  Level, level_byte, level_of_byte-level_byte, Logging, parse_logging, tagged_head, plain_head,
  serialize_text, serialize_logging,
}

-- The ranges of the fields' types, no tag where the message has none, and a text that fits in memory.
pub record IsLogging (l : Logging) : Type 0 where
  pub tag_range : l.tag < 65536
  pub untagged : l.has_tag ≡ false → l.tag ≡ 0
  pub timestamp_range : l.timestamp < 2 ^ 64
  pub in_memory : length l.message + 11 < 2 ^ 31

parse_tagged :
    (text rest : Bytes) (size tag timestamp : ℕ) (level : Level)
    → size ≡ length text + 11
    → size < 65536
    → tag < 65536
    → timestamp < 2 ^ 64
    → parse_logging true (tagged_head size level tag timestamp ++ (text ++ rest)) ≡ (
        if length text == 0
        then throw (parsing message_too_short)
        else ok (record {
          log_level = level;
          tag = tag;
          has_tag = true;
          timestamp = timestamp;
          message = text;
        }))
unfolding parse_logging
parse_tagged text rest size tag timestamp level e small tag_range time_range =
    let head = tagged_head size level tag timestamp in
    let front : Bytes = message_header size b'C' ++ (level_byte level ∷ u16_bytes tag) in
    let m = head ++ (text ++ rest) in
    let tag_read : u16_at 4 m ≡ tag = omega arith in
    rw
      (
        read_u16-header size b'C' _ small,
        read_u8-eq 3 m (omega arith),
        read_u16-eq 4 m (omega arith),
        tag_read,
        read_u64_part front (text ++ rest) timestamp {m = m} {i = 6} refl refl time_range,
        read_bytes_part head text rest {m = m} {i = 14} {n = size - 11} refl
            (omega (arith, length-le_bytes 8 timestamp)) (omega arith),
        level_of_byte-level_byte level,
      )
      (ground arith)

parse_plain :
    (text rest : Bytes) (size timestamp : ℕ) (level : Level)
    → size ≡ length text + 9
    → size < 65536
    → timestamp < 2 ^ 64
    → parse_logging false (plain_head size level timestamp ++ (text ++ rest)) ≡ (
        if length text == 0
        then throw (parsing message_too_short)
        else ok (record {
          log_level = level;
          tag = 0;
          has_tag = false;
          timestamp = timestamp;
          message = text;
        }))
unfolding parse_logging
parse_plain text rest size timestamp level e small time_range =
    let head = plain_head size level timestamp in
    let front : Bytes = message_header size b'L' ++ (level_byte level ∷ []) in
    let m = head ++ (text ++ rest) in
    rw
      (
        read_u16-header size b'L' _ small,
        read_u8-eq 3 m (omega arith),
        read_u64_part front (text ++ rest) timestamp {m = m} {i = 4} refl refl time_range,
        read_bytes_part head text rest {m = m} {i = 12} {n = size - 9} refl
            (omega (arith, length-le_bytes 8 timestamp)) (omega arith),
        level_of_byte-level_byte level,
      )
      (ground arith)

-- The records that the two layouts give back.
tagged_record : (l : Logging) → l.has_tag ≡ true → record l { has_tag = true } ≡ l
tagged_record l e = λ i. record l { has_tag = sym e i }

plain_record :
    (l : Logging) → l.has_tag ≡ false → l.tag ≡ 0 → record l { tag = 0; has_tag = false } ≡ l
plain_record l e t = λ i. record l { tag = sym t i; has_tag = sym e i }

abbrev accepted : Logging → Result Logging → Result Logging
accepted l r = if length l.message == 0 then throw (parsing message_too_short) else r

serialize_text-parse :
    (tagged : Bool) (l : Logging) (rest : Bytes) (ws : List Bytes)
    → l.has_tag ≡ tagged
    → IsLogging l
    → serialize_text tagged l ≡ ok ws
    → parse_logging tagged (flatten ws ++ rest) ≡ accepted l (ok l)
unfolding serialize_text
serialize_text-parse true l rest ws tagged h e =
    let (pass, same) = else_ok _ _ e in
    let size = length l.message + 11 in
    rw (← same, flatten_pair)
      (parse_tagged l.message rest size l.tag l.timestamp l.log_level refl
          (exceeds_u16-false size h.in_memory pass) h.tag_range h.timestamp_range
        ∙ ap (λ r. accepted l (ok r)) (tagged_record l tagged))
serialize_text-parse false l rest ws tagged h e =
    let (pass, same) = else_ok _ _ e in
    let size = length l.message + 9 in
    rw (← same, flatten_pair)
      (parse_plain l.message rest size l.timestamp l.log_level refl
          (exceeds_u16-false size (omega (arith, h.in_memory)) pass) h.timestamp_range
        ∙ ap (λ r. accepted l (ok r)) (plain_record l tagged (h.untagged tagged)))

-- What `serialize` wrote, tagged or not, is parsed back, whatever follows it, but for an empty text:
-- that message is written, and refused by the parser.
-- The values fit the format, as `IsLogging` says.
pub parse_logging-serialize :
    (l : Logging) (rest : Bytes) (ws : List Bytes)
    → IsLogging l
    → serialize_logging l ≡ ok ws
    → parse_logging l.has_tag (flatten ws ++ rest)
      ≡ (if length l.message == 0 then throw (parsing message_too_short) else ok l)
unfolding serialize_logging
parse_logging-serialize l rest ws h e = serialize_text-parse l.has_tag l rest ws refl h e

serialize_text-IsFrame :
    (tagged : Bool) (l : Logging) (ws : List Bytes)
    → IsLogging l
    → serialize_text tagged l ≡ ok ws
    → IsFrame (flatten ws)
      × (byte_at 2 (flatten ws)
          ≡ to_byte (if tagged then UlogMessageType.logging_tagged else UlogMessageType.logging))
unfolding serialize_text
serialize_text-IsFrame true l ws h e =
    let (pass, same) = else_ok _ _ e in
    let size = length l.message + 11 in
    let time = le_bytes 8 l.timestamp in
    let tail : Bytes = level_byte l.log_level ∷ ((u16_bytes l.tag ++ time) ++ (l.message ++ [])) in
    rw (← same, ← append-nil (flatten _), flatten_pair)
      (
        header-IsFrame size b'C' tail (exceeds_u16-false size h.in_memory pass) (omega arith)
            (omega (
              arith,
              length-append time (l.message ++ []),
              length-append l.message [],
              length-le_bytes 8 l.timestamp,
            ))
            (omega arith),
        refl,
      )
serialize_text-IsFrame false l ws h e =
    let (pass, same) = else_ok _ _ e in
    let size = length l.message + 9 in
    let time = le_bytes 8 l.timestamp in
    rw (← same, ← append-nil (flatten _), flatten_pair)
      (
        header-IsFrame size b'L' (level_byte l.log_level ∷ (time ++ (l.message ++ [])))
            (exceeds_u16-false size (omega (arith, h.in_memory)) pass) (omega arith)
            (omega (
              arith,
              length-append time (l.message ++ []),
              length-append l.message [],
              length-le_bytes 8 l.timestamp,
            ))
            (omega arith),
        refl,
      )

-- What `serialize` wrote is one frame of its type.
pub serialize_logging-IsFrame :
    (l : Logging) (ws : List Bytes)
    → IsLogging l
    → serialize_logging l ≡ ok ws
    → IsFrame (flatten ws)
      × (byte_at 2 (flatten ws)
          ≡ to_byte (if l.has_tag then UlogMessageType.logging_tagged else UlogMessageType.logging))
unfolding serialize_logging
serialize_logging-IsFrame l ws h e = serialize_text-IsFrame l.has_tag l ws h e
