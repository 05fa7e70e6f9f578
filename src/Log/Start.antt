-- ===== src/Log/Start.antt =====
-- The start of a file, as a writer writes it and a reader reads it.
use my_ulog.Base.{
  ℕ, ◌+◌, ◌^◌, ◌<◌, ◌≡◌, refl, [], ◌∷◌, ◌++◌, Bool, true, false, arith, length, drop, append_assoc,
  ge→ltb, lt→ltb,
}
use my_ulog.Base.Bytes.{Bytes, flatten, le_bytes, bytes_eq}
use my_ulog.Base.Memory.{read_u8, read_u16, read_u64, read_bytes, read_bytes_part, read_u64_part}
use my_ulog.Base.Result.{ok}
use my_ulog.Base.Action.{proceed}
use my_ulog.Handler.{DataHandler}
use my_ulog.Messages.Raw.{file_magic_bytes}
use my_ulog.Messages.FileHeader.{FlagBits, new_file_header, serialize_file_header, flag_bits_bytes}
use my_ulog.Reader.State.{Phase, Reader, new_reader}
use my_ulog.Reader.Start.{
  raw_file_header, raw_flag_bits, read_magic, read_flag_bits, accept_flags, has_incompat_flags,
}
use my_ulog.Reader.Chunk.{start_magic, start_flags}

abbrev magic : Bytes
magic = file_magic_bytes ++ (1 ∷ [])

abbrev flags_of : Bool → FlagBits
flags_of d = (new_file_header 0 d).flag_bits

raw_file_header-eq :
    (timestamp : ℕ) (rest : Bytes)
    → timestamp < 2 ^ 64
    → raw_file_header ((magic ++ le_bytes 8 timestamp) ++ rest)
      ≡ ok (record { magic = magic; timestamp = timestamp })
unfolding raw_file_header
raw_file_header-eq timestamp rest h = rw (
  read_bytes_part [] magic (le_bytes 8 timestamp ++ rest)
      {m = (magic ++ le_bytes 8 timestamp) ++ rest} {i = 0} {n = 8} refl refl refl,
  read_u64_part magic rest timestamp {m = (magic ++ le_bytes 8 timestamp) ++ rest} {i = 8} refl refl
      h,
)

flag_bytes : Bool → Bytes
unfolding new_file_header le_bytes
flag_bytes d = flag_bits_bytes (flags_of d)

raw_flag_bits-eq :
    (d : Bool) (rest : Bytes) → raw_flag_bits (flag_bytes d ++ rest) ≡ ok (flags_of d)
unfolding raw_flag_bits flag_bytes new_file_header le_bytes read_u8 read_u16 read_u64 read_bytes
raw_flag_bits-eq true rest = ground arith
raw_flag_bits-eq false rest = ground arith

header_text :
    (timestamp : ℕ) (d : Bool)
    → flatten (serialize_file_header (new_file_header timestamp d))
      ≡ (magic ++ le_bytes 8 timestamp) ++ flag_bytes d
unfolding serialize_file_header new_file_header flag_bytes le_bytes
header_text timestamp true = refl
header_text timestamp false = refl

length-flag_bytes : (d : Bool) (rest : Bytes) → length (flag_bytes d ++ rest) ≡ 43 + length rest
unfolding flag_bytes new_file_header le_bytes
length-flag_bytes true rest = omega arith
length-flag_bytes false rest = omega arith

drop-flag_bytes : (d : Bool) (rest : Bytes) → drop 43 (flag_bytes d ++ rest) ≡ rest
unfolding flag_bytes new_file_header le_bytes
drop-flag_bytes true rest = refl
drop-flag_bytes false rest = refl

length-start :
    (timestamp : ℕ) (rest : Bytes)
    → length ((magic ++ le_bytes 8 timestamp) ++ rest) ≡ 16 + length rest
unfolding le_bytes
length-start timestamp rest = omega arith

drop-start :
    (timestamp : ℕ) (rest : Bytes) → drop 16 ((magic ++ le_bytes 8 timestamp) ++ rest) ≡ rest
unfolding le_bytes
drop-start timestamp rest = refl

pub length-header_text :
    (timestamp : ℕ) (d : Bool)
    → length (flatten (serialize_file_header (new_file_header timestamp d))) ≡ 59
unfolding flag_bytes new_file_header le_bytes
length-header_text timestamp true = rw (header_text timestamp true) (omega arith)
length-header_text timestamp false = rw (header_text timestamp false) (omega arith)

module _ {H : Type 0} (handler : DataHandler H) where
  -- The reader behind the first bytes.
  abbrev behind_magic : ℕ → H → Reader H
  behind_magic timestamp h = record (new_reader h) {
    state = Phase.read_flag_bits;
    file_header = record { magic = magic; timestamp = timestamp };
    total_num_read = 16;
  }

  magic_read :
      (timestamp : ℕ) (rest : Bytes) (h : H)
      → timestamp < 2 ^ 64
      → start_magic handler ((magic ++ le_bytes 8 timestamp) ++ rest) (new_reader h)
        ≡ (ok rest, behind_magic timestamp h)
  unfolding start_magic read_magic bytes_eq
  magic_read timestamp rest h small =
      let text = (magic ++ le_bytes 8 timestamp) ++ rest in
      rw (
        ge→ltb (length text) 16 (omega (arith, length-start timestamp rest)),
        raw_file_header-eq timestamp rest small,
        drop-start timestamp rest,
      )

  flags_read :
      (timestamp : ℕ) (d : Bool) (rest : Bytes) (h k : H)
      → handler.file_header (new_file_header timestamp d) h ≡ (ok tt, k)
      → start_flags handler (flag_bytes d ++ rest) (behind_magic timestamp h) ≡ (
        ok rest,
        record (behind_magic timestamp h) {
          state = Phase.read_header;
          handler = k;
          total_num_read = 59;
        },
      )
  unfolding start_flags read_flag_bits accept_flags has_incompat_flags new_file_header
  flags_read timestamp true rest h k called =
      let text = flag_bytes true ++ rest in
      rw (
        lt→ltb 0 (length text) (omega (arith, length-flag_bytes true rest)),
        ge→ltb (length text) 43 (omega (arith, length-flag_bytes true rest)),
        raw_flag_bits-eq true rest,
        called,
        drop-flag_bytes true rest,
      )
  flags_read timestamp false rest h k called =
      let text = flag_bytes false ++ rest in
      rw (
        lt→ltb 0 (length text) (omega (arith, length-flag_bytes false rest)),
        ge→ltb (length text) 43 (omega (arith, length-flag_bytes false rest)),
        raw_flag_bits-eq false rest,
        called,
        drop-flag_bytes false rest,
      )

  -- The reader behind the start of the file.
  abbrev pub behind_start : ℕ → H → Reader H
  behind_start timestamp k = record (behind_magic timestamp k) {
    state = Phase.read_header;
    total_num_read = 59;
  }

  pub start_read :
      (timestamp : ℕ) (d : Bool) (rest : Bytes) (h k : H)
      → timestamp < 2 ^ 64
      → handler.file_header (new_file_header timestamp d) h ≡ (ok tt, k)
      → proceed
          (start_magic handler
            (flatten (serialize_file_header (new_file_header timestamp d)) ++ rest)
            (new_reader h))
          (start_flags handler)
        ≡ (ok rest, behind_start timestamp k)
  start_read timestamp d rest h k small called =
      rw
        (
          header_text timestamp d,
          append_assoc (magic ++ le_bytes 8 timestamp) (flag_bytes d) rest,
          magic_read timestamp (flag_bytes d ++ rest) h small,
        )
        (flags_read timestamp d rest h k called)
