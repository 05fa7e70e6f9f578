-- ===== src/Messages/Logging.antt =====
-- src/messages.cpp, `Logging`: text messages with a level and a time, and optionally a tag.
pub mod RoundTrip
use my_ulog.Base.{
  ℕ, zero, suc, ◌+◌, ◌-◌, ◌*◌, ◌/◌, ◌%◌, ◌^◌, ◌≤◌, ◌<◌, ◌≡◌, refl, ap, ◌∙◌, List, [], ◌∷◌, ◌++◌,
  Bool, ◌&&◌, true, false, not, ◌||◌, append_assoc, append-nil, arith, ltb, leb, ge→ltb, lt→ltb,
  ◌==◌, if◌then◌else◌, length, take, drop, length-append,
}
use my_ulog.Base.Bytes.{Bytes, le_bytes, length-le_bytes, flatten, flatten_pair, bytes_eq}
use my_ulog.Base.Memory.{
  read_u64, read_u64_part, byte_at, u16_at, read_u8, read_u16, read_u8-eq, read_u16-eq, read_bytes,
  read_bytes_part, IsComplete,
}
use my_ulog.Base.Result.{
  Result, ok, throw, parsing, ◌>>=◌, ◌>>◌, throw_if, message_too_short, message_too_long, IsSound,
  else_ok, invalid_sync,
}
use my_ulog.Messages.Raw.{
  UlogMessageType, to_byte, u16_bytes, message_header, exceeds_u16, exceeds_u16-false,
  read_u16-header, IsFrame, header-IsFrame,
}

-- `Logging::Level`.
pub data Level : Type 0 where
  emergency alert critical error warning notice info debug : Level

-- `static_cast<uint8_t>` of a level.
abbrev pub level_byte : Level → ℕ
level_byte Level.emergency = b'0'
level_byte Level.alert = b'1'
level_byte Level.critical = b'2'
level_byte Level.error = b'3'
level_byte Level.warning = b'4'
level_byte Level.notice = b'5'
level_byte Level.info = b'6'
level_byte Level.debug = b'7'

-- The level of a byte; one below `Emergency` or above `Debug` is read as `Debug`.
unfoldable pub level_of_byte : ℕ → Level
level_of_byte b =
    if b == b'0'
    then Level.emergency
    else if b == b'1'
    then Level.alert
    else if b == b'2'
    then Level.critical
    else if b == b'3'
    then Level.error
    else if b == b'4'
    then Level.warning
    else if b == b'5'
    then Level.notice
    else if b == b'6'
    then Level.info
    else Level.debug

pub level_of_byte-level_byte : (l : Level) → level_of_byte (level_byte l) ≡ l
unfolding level_of_byte
level_of_byte-level_byte Level.emergency = refl
level_of_byte-level_byte _ = refl

pub record Logging : Type 0 where
  pub log_level : Level
  pub tag : ℕ
  pub has_tag : Bool
  pub timestamp : ℕ
  pub message : Bytes

-- `Logging::Logging(const uint8_t* msg, bool is_tagged)`.
unfoldable pub parse_logging : Bool → Bytes → Result Logging
parse_logging true msg = do
  msg_size ← read_u16 0 msg
  throw_if (ltb msg_size 12) (parsing message_too_short)
  log_level ← read_u8 3 msg
  tag ← read_u16 4 msg
  timestamp ← read_u64 6 msg
  message ← read_bytes 14 (msg_size - 11) msg
  ok (record {
    log_level = level_of_byte log_level;
    tag = tag;
    has_tag = true;
    timestamp = timestamp;
    message = message;
  })
parse_logging false msg = do
  msg_size ← read_u16 0 msg
  throw_if (ltb msg_size 10) (parsing message_too_short)
  log_level ← read_u8 3 msg
  timestamp ← read_u64 4 msg
  message ← read_bytes 12 (msg_size - 9) msg
  ok (record {
    log_level = level_of_byte log_level;
    tag = 0;
    has_tag = false;
    timestamp = timestamp;
    message = message;
  })

abbrev pub tagged_head : ℕ → Level → ℕ → ℕ → Bytes
tagged_head size level tag timestamp =
    message_header size (to_byte UlogMessageType.logging_tagged)
    ++ (level_byte level ∷ (u16_bytes tag ++ le_bytes 8 timestamp))

abbrev pub plain_head : ℕ → Level → ℕ → Bytes
plain_head size level timestamp =
    message_header size (to_byte UlogMessageType.logging)
    ++ (level_byte level ∷ le_bytes 8 timestamp)

serialize_text : Bool → Logging → Result (List Bytes)
serialize_text true l =
    let msg_size = length l.message + 11 in
    if exceeds_u16 msg_size
    then throw (parsing message_too_long)
    else ok (tagged_head msg_size l.log_level l.tag l.timestamp ∷ l.message ∷ [])
serialize_text false l =
    let msg_size = length l.message + 9 in
    if exceeds_u16 msg_size
    then throw (parsing message_too_long)
    else ok (plain_head msg_size l.log_level l.timestamp ∷ l.message ∷ [])

-- `Logging::serialize`: the writes that it makes.
unfoldable pub serialize_logging : Logging → Result (List Bytes)
unfolding serialize_text
serialize_logging l = serialize_text l.has_tag l

-- A complete message is parsed, or refused by an exception: no byte outside it is read.
pub parse_logging-IsSound :
    (tagged : Bool) (msg : Bytes) → IsComplete msg → IsSound (parse_logging tagged msg)
unfolding parse_logging read_u16 read_u8 read_u64 read_bytes
parse_logging-IsSound true msg h = ground arith
parse_logging-IsSound false msg h = ground arith
