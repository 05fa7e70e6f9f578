-- ===== src/Messages/FileHeader.antt =====
-- src/messages.cpp, `FileHeader`: the first bytes of a file, and the flag message behind them.
use my_ulog.Base.{ℕ, ◌-◌, List, [], ◌∷◌, ◌++◌, Bool, true, false, if◌then◌else◌, replicate}
use my_ulog.Base.Bytes.{Bytes, le_bytes}
use my_ulog.Messages.Raw.{file_magic_bytes, UlogMessageType, to_byte, message_header}

-- `ulog_file_header_s`.
pub record RawFileHeader : Type 0 where
  pub magic : Bytes
  pub timestamp : ℕ

-- `ulog_message_flag_bits_s`.
pub record FlagBits : Type 0 where
  pub msg_size : ℕ
  pub msg_type : ℕ
  pub compat_flags : Bytes
  pub incompat_flags : Bytes
  pub appended_offsets : List ℕ

pub record FileHeader : Type 0 where
  pub header : RawFileHeader
  pub flag_bits : FlagBits
  pub has_flag_bits : Bool

-- `ulog_message_flag_bits_s{}`: everything is zero but the type, which has an initialiser.
abbrev pub zero_flag_bits : FlagBits
zero_flag_bits = record {
  msg_size = 0;
  msg_type = to_byte UlogMessageType.flag_bits;
  compat_flags = replicate 8 0;
  incompat_flags = replicate 8 0;
  appended_offsets = replicate 3 0;
}

-- `sizeof(ulog_file_header_s)` and `sizeof(ulog_message_flag_bits_s)`.
abbrev pub file_header_size : ℕ
file_header_size = 16

abbrev pub flag_bits_size : ℕ
flag_bits_size = 43

-- `FileHeader(const ulog_file_header_s&, const ulog_message_flag_bits_s&)`.
abbrev pub header_with_flags : RawFileHeader → FlagBits → FileHeader
header_with_flags header flag_bits = record {
  header = header;
  flag_bits = flag_bits;
  has_flag_bits = true;
}

-- `FileHeader(const ulog_file_header_s&)`.
abbrev pub header_without_flags : RawFileHeader → FileHeader
header_without_flags header = record {
  header = header;
  flag_bits = zero_flag_bits;
  has_flag_bits = false;
}

-- `FileHeader(uint64_t timestamp, bool has_default_parameters)`: file version 1.
unfoldable pub new_file_header : ℕ → Bool → FileHeader
new_file_header timestamp has_default_parameters = record {
  header = record { magic = file_magic_bytes ++ (1 ∷ []); timestamp = timestamp };
  flag_bits = record zero_flag_bits {
    msg_size = flag_bits_size - 3;
    compat_flags = (if has_default_parameters then 1 else 0) ∷ replicate 7 0;
  };
  has_flag_bits = true;
}

abbrev pub raw_header_bytes : RawFileHeader → Bytes
raw_header_bytes h = h.magic ++ le_bytes 8 h.timestamp

abbrev words : List ℕ → Bytes
words [] = []
words (w ∷ ws) = le_bytes 8 w ++ words ws

-- The packed struct in memory.
abbrev pub flag_bits_bytes : FlagBits → Bytes
flag_bits_bytes f =
    message_header f.msg_size f.msg_type
    ++ (f.compat_flags ++ (f.incompat_flags ++ words f.appended_offsets))

-- `FileHeader::serialize`: the writes that it makes. The size in the flags is written anew.
unfoldable pub serialize_file_header : FileHeader → List Bytes
serialize_file_header h =
    if h.has_flag_bits
    then raw_header_bytes h.header
      ∷ flag_bits_bytes (record (h.flag_bits) { msg_size = flag_bits_size - 3 })
      ∷ []
    else raw_header_bytes h.header ∷ []
