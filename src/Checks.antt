-- ===== src/Checks.antt =====
-- What the two checked writers (src/simple_writer.cpp, src/zz_data_log.cpp) ask of a message format.
pub mod Accepted
pub mod Writable
pub mod Sizes
use my_ulog.Base.{
  ℕ, ◌+◌, ◌*◌, ◌%◌, ◌^◌, Bool, true, false, not, ◌&&◌, ◌||◌, Option, none, some, List, [], ◌∷◌,
  ◌==◌, leb, if◌then◌else◌, ℤ, pos, negsuc, is_minus_one, is_positive,
}
use my_ulog.Base.Bytes.{Bytes, codes, bytes_eq}
use my_ulog.Base.Dict.{bytes_key, lookup}
use my_ulog.Base.Result.{
  Result, ok, throw, usage, ◌>>=◌, ◌>>◌, throw_if, header_already_complete,
  first_field_not_timestamp, duplicate_format_name, invalid_name, invalid_field_name,
  invalid_field_type, requires_padding,
}
use my_ulog.Messages.Field.{Field}
use my_ulog.Messages.Value.{basic_types, basic_size}

abbrev is_lower : ℕ → Bool
is_lower c = leb b'a' c && leb c b'z'

abbrev is_upper : ℕ → Bool
is_upper c = leb b'A' c && leb c b'Z'

abbrev is_number : ℕ → Bool
is_number c = leb b'0' c && leb c b'9'

-- The class of `kFormatNameRegex`, "[a-zA-Z0-9_\-/]".
abbrev pub format_name_char : ℕ → Bool
format_name_char c = is_lower c || is_upper c || is_number c || c == b'_' || c == b'-' || c == b'/'

-- The class of `kFieldNameRegex`, "[a-z0-9_]".
abbrev pub field_name_char : ℕ → Bool
field_name_char c = is_lower c || is_number c || c == b'_'

-- The class of the rotating logger's `kFieldNameRegex`, "[a-zA-Z0-9_]".
abbrev pub any_case_char : ℕ → Bool
any_case_char c = is_lower c || is_upper c || is_number c || c == b'_'

unfoldable pub all_in : (ℕ → Bool) → Bytes → Bool
all_in class [] = true
all_in class (c ∷ s) = class c && all_in class s

-- `std::regex_match` of a text with one or more characters of a class.
unfoldable pub matches : (ℕ → Bool) → Bytes → Bool
unfolding all_in
matches class [] = false
matches class (c ∷ s) = all_in class (c ∷ s)

-- The first field is the 64 bit timestamp.
unfoldable pub starts_with_timestamp : List Field → Bool
starts_with_timestamp [] = false
starts_with_timestamp (f ∷ fs) =
    bytes_eq f.name (codes "timestamp")
    && bytes_eq f.type (codes "uint64_t")
    && is_minus_one f.array_length

abbrev pub is_some : {V : Type 0} → Option V → Bool
is_some none = false
is_some (some v) = true

-- `find(name) != end()`.
abbrev pub is_known : {V : Type 0} → Bytes → List (Bytes × V) → Bool
is_known name m = is_some (lookup name m)

-- The loop over the names of the fields.
unfoldable pub check_names : (ℕ → Bool) → List Field → Result (Unit {0})
check_names class [] = ok tt
check_names class (f ∷ fs) = do
  throw_if (not (matches class f.name)) (usage (invalid_field_name f.name))
  check_names class fs

-- `field.array_length <= 0 ? 1 : field.array_length`.
abbrev pub array_size : ℤ → ℕ
array_size (pos n) = if n == 0 then 1 else n
array_size (negsuc n) = 1

-- The size of one field behind `message_size` bytes. The size is an unsigned int and wraps around.
unfoldable pub add_field : ℕ → Field → Option ℕ → Result ℕ
add_field message_size f none = throw (usage (invalid_field_type f.type))
add_field message_size f (some size) = do
  throw_if (not (message_size % size == 0)) (usage (requires_padding f.name))
  ok ((message_size + array_size f.array_length * size) % 2 ^ 32)

-- The loop that checks types and padding: the size of a message.
unfoldable pub sum_fields : ℕ → List Field → Result ℕ
sum_fields message_size [] = ok message_size
sum_fields message_size (f ∷ fs) = do
  message_size' ← add_field message_size f (basic_size basic_types f.type)
  sum_fields message_size' fs

-- `writeMessageFormat` up to the entry in the table of formats: the size of a message.
unfoldable pub check_format : (ℕ → Bool) → Bool → List (Bytes × ℕ) → Bytes → List Field → Result ℕ
check_format class header_complete formats name fields = do
  throw_if header_complete (usage header_already_complete)
  throw_if (not (starts_with_timestamp fields)) (usage first_field_not_timestamp)
  throw_if (is_known name formats) (usage (duplicate_format_name name))
  throw_if (not (matches format_name_char name)) (usage (invalid_name name))
  check_names class fields
  sum_fields 0 fields
