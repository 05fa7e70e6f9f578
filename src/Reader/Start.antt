-- ===== src/Reader/Start.antt =====
-- src/reader.cpp, `readMagic` and `readFlagBits`: the first bytes of a file.
use Prim.Native.Nat.{bit_and}
use my_ulog.Base.{
  ℕ, ◌+◌, Bool, true, false, not, ◌||◌, [], ◌∷◌, if◌then◌else◌, length, take, ltb, ◌==◌,
}
use my_ulog.Base.Bytes.{Bytes, bytes_eq}
use my_ulog.Base.Memory.{read_u8, read_u16, read_u64, read_bytes, byte_at}
use my_ulog.Base.Result.{
  Result, ok, short_magic, bad_magic, short_flags, appended_offsets, unknown_flags,
}
use my_ulog.Base.Result
use my_ulog.Base.Action.{Action, ◌>>=◌, ◌>>◌, modify, lift, pure}
use my_ulog.Handler.{DataHandler}
use my_ulog.Messages.Raw.{UlogMessageType, to_byte, file_magic_bytes}
use my_ulog.Messages.FileHeader.{
  RawFileHeader, FlagBits, file_header_size, flag_bits_size, header_with_flags,
  header_without_flags,
}
use my_ulog.Reader.State.{Phase, Reader, call, set_state}

-- `*reinterpret_cast<const ulog_file_header_s*>(data)`.
unfoldable pub raw_file_header : Bytes → Result RawFileHeader
raw_file_header chunk = Result.◌>>=◌ (read_bytes 0 8 chunk) λ magic.
    Result.◌>>=◌ (read_u64 8 chunk)
      λ timestamp. ok (record { magic = magic; timestamp = timestamp })

-- `*reinterpret_cast<const ulog_message_flag_bits_s*>(data)`.
unfoldable pub raw_flag_bits : Bytes → Result FlagBits
raw_flag_bits chunk = Result.◌>>=◌ (read_u16 0 chunk) λ msg_size.
    Result.◌>>=◌ (read_u8 2 chunk) λ msg_type. Result.◌>>=◌ (read_bytes 3 8 chunk) λ compat_flags.
      Result.◌>>=◌ (read_bytes 11 8 chunk) λ incompat_flags.
        Result.◌>>=◌ (read_u64 19 chunk) λ offset0. Result.◌>>=◌ (read_u64 27 chunk) λ offset1.
          Result.◌>>=◌ (read_u64 35 chunk) λ offset2. ok (record {
            msg_size = msg_size;
            msg_type = msg_type;
            compat_flags = compat_flags;
            incompat_flags = incompat_flags;
            appended_offsets = offset0 ∷ offset1 ∷ offset2 ∷ [];
          })

abbrev any_set : Bytes → Bool
any_set [] = false
any_set (b ∷ bs) = not (b == 0) || any_set bs

-- A flag other than the lowest of the first byte, which says that data was appended.
unfoldable pub has_incompat_flags : Bytes → Bool
has_incompat_flags [] = false
has_incompat_flags (b ∷ bs) = not (bit_and b 0xFE == 0) || any_set bs

module _ {H : Type 0} (handler : DataHandler H) where
  -- `error(msg, false); _state = State::InvalidData; return 0;`
  unfoldable pub give_up : Result.Reason → Action (Reader H) ℕ
  give_up msg = do call (handler.error msg false); set_state Phase.invalid_data; pure 0

  -- `Reader::readMagic`: the number of bytes read.
  unfoldable pub read_magic : Bytes → Action (Reader H) ℕ
  read_magic chunk = if ltb (length chunk) file_header_size then give_up short_magic else (do
    header ← lift (raw_file_header chunk)
    if bytes_eq (take 7 header.magic) file_magic_bytes
        then (do
          set_state Phase.read_flag_bits
          modify (λ r. record r { file_header = header })
          pure file_header_size)
        else give_up bad_magic)

  -- What is done with a flag message.
  unfoldable pub accept_flags : FlagBits → Action (Reader H) ℕ
  accept_flags flags = do
    if byte_at 0 flags.appended_offsets == 0
        then pure tt
        else call (handler.error appended_offsets true)
    if has_incompat_flags flags.incompat_flags then give_up unknown_flags else (do
      header ← (λ r. (ok r.file_header, r))
      call (handler.file_header (header_with_flags header flags))
      set_state Phase.read_header
      pure (flags.msg_size + 3))

  -- `Reader::readFlagBits`: the number of bytes read. The message is optional.
  unfoldable pub read_flag_bits : Bytes → Action (Reader H) ℕ
  read_flag_bits chunk = if ltb (length chunk) flag_bits_size then give_up short_flags else (do
    flags ← lift (raw_flag_bits chunk)
    if flags.msg_type == to_byte UlogMessageType.flag_bits then accept_flags flags else (do
      header ← (λ r. (ok r.file_header, r))
      call (handler.file_header (header_without_flags header))
      set_state Phase.read_header
      pure 0))
