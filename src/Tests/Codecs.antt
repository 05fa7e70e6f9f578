-- ===== src/Tests/Codecs.antt =====
-- The theorems about the codecs at concrete messages.
use my_ulog.Base.{◌≡◌, refl, false, List, [], ◌∷◌, ◌++◌, negsuc, arith, some}
use my_ulog.Base.Bytes.{Bytes, codes, flatten, le_bytes, bytes_eq}
use my_ulog.Base.Memory.{byte_at}
use my_ulog.Base.Decimal.{to_string}
use my_ulog.Base.Result.{ok, throw, parsing, message_too_short}
use my_ulog.Messages.Raw.{UlogMessageType, exceeds_u16, IsFrame, message_header}
use my_ulog.Messages.Field.{parse_field, encode, IsEncodable, parse_field-encode}
use my_ulog.Messages.Info.{parse_info, serialize_info}
use my_ulog.Messages.Info.RoundTrip.{IsInfo, parse_info-serialize, serialize_info-IsFrame}
use my_ulog.Messages.Format.{
  parse_format, serialize_format, definition, IsFormat, parse_format-serialize,
}
use my_ulog.Messages.ParameterDefault.{
  ParameterDefault, parse_parameter_default, serialize_parameter_default, IsParameterDefault,
  parse_parameter_default-serialize,
}
use my_ulog.Messages.AddLogged.{parse_add_logged, serialize_add_logged, parse_add_logged-serialize}
use my_ulog.Messages.Logging.{Logging, parse_logging, serialize_logging}
use my_ulog.Messages.Logging.RoundTrip.{parse_logging-serialize}
use my_ulog.Messages.Data.{parse_data, serialize_data, parse_data-serialize}
use my_ulog.Messages.Dropout.{parse_dropout, serialize_dropout, parse_dropout-serialize}
use my_ulog.Messages.Sync.{parse_sync, serialize_sync, parse_sync-serialize}
use my_ulog.Messages.Value.{value_of, scalar, SizeDecides, basic_size, basic_types, value_of_basic}
use my_ulog.Tests.Logs.{axes_field, topic, system_info, subscription, sample, text}

axes_field-IsEncodable : IsEncodable axes_field
axes_field-IsEncodable = record {
  no_space = omega arith;
  no_bracket = omega arith;
  in_range = omega arith;
}

parse_field-encode_example : parse_field (encode axes_field) ≡ ok axes_field
parse_field-encode_example = parse_field-encode axes_field axes_field-IsEncodable

abbrev info_writes : List Bytes
info_writes = (message_header 15 b'I' ++ (11 ∷ [])) ∷ codes "char[3] sys" ∷ codes "PX4" ∷ []

info_written : serialize_info system_info UlogMessageType.info ≡ ok info_writes
unfolding serialize_info encode to_string exceeds_u16
info_written = refl

pub system_info-IsInfo : IsInfo system_info
unfolding encode to_string
system_info-IsInfo = record {
  key = record { no_space = omega arith; no_bracket = omega arith; in_range = omega arith };
  single = λ e. refl;
  in_memory = omega arith;
}

parse_info-serialize_example : parse_info false (flatten info_writes ++ (1 ∷ [])) ≡ ok system_info
parse_info-serialize_example =
    parse_info-serialize system_info UlogMessageType.info (1 ∷ []) info_writes system_info-IsInfo
      info_written

serialize_info-IsFrame_example :
    IsFrame (flatten info_writes) × (byte_at 2 (flatten info_writes) ≡ b'I')
serialize_info-IsFrame_example =
    serialize_info-IsFrame system_info UlogMessageType.info info_writes system_info-IsInfo
      info_written

abbrev format_text : Bytes
format_text = codes "imu:uint64_t timestamp;int16_t[3] axes;"

abbrev format_writes : List Bytes
format_writes = message_header 39 b'F' ∷ format_text ∷ []

format_written : serialize_format topic ≡ ok format_writes
unfolding serialize_format definition encode to_string exceeds_u16
format_written = refl

pub topic-IsFormat : IsFormat topic
unfolding definition encode to_string
topic-IsFormat = record {
  no_colon = omega arith;
  members = (
    record {
      key = record { no_space = omega arith; no_bracket = omega arith; in_range = omega arith };
      no_semicolon = omega arith;
    },
    (
      record {
        key = record { no_space = omega arith; no_bracket = omega arith; in_range = omega arith };
        no_semicolon = omega arith;
      },
      tt,
    ),
  );
  in_memory = omega arith;
}

parse_format-serialize_example : parse_format (flatten format_writes ++ (9 ∷ [])) ≡ ok topic
parse_format-serialize_example =
    parse_format-serialize topic (9 ∷ []) format_writes topic-IsFormat format_written

abbrev default_gain : ParameterDefault
default_gain = record {
  field = record { type = codes "float"; array_length = negsuc 0; name = codes "K" };
  value = 0 ∷ 0 ∷ 128 ∷ 63 ∷ [];
  default_types = 1;
}

abbrev default_writes : List Bytes
default_writes =
    (message_header 13 b'Q' ++ (1 ∷ 7 ∷ [])) ∷ codes "float K" ∷ (0 ∷ 0 ∷ 128 ∷ 63 ∷ []) ∷ []

default_written : serialize_parameter_default default_gain ≡ ok default_writes
unfolding serialize_parameter_default encode to_string exceeds_u16
default_written = refl

default_gain-IsParameterDefault : IsParameterDefault default_gain
unfolding encode to_string
default_gain-IsParameterDefault = record {
  key = record { no_space = omega arith; no_bracket = omega arith; in_range = omega arith };
  in_memory = omega arith;
}

parse_parameter_default-serialize_example :
    parse_parameter_default (flatten default_writes ++ []) ≡ ok default_gain
parse_parameter_default-serialize_example =
    parse_parameter_default-serialize default_gain [] default_writes default_gain-IsParameterDefault
      default_written

abbrev subscription_writes : List Bytes
subscription_writes = (message_header 6 b'A' ++ (0 ∷ 7 ∷ 0 ∷ [])) ∷ codes "imu" ∷ []

subscription_written : serialize_add_logged subscription ≡ ok subscription_writes
unfolding serialize_add_logged exceeds_u16
subscription_written = refl

parse_add_logged-serialize_example :
    parse_add_logged (flatten subscription_writes ++ (3 ∷ [])) ≡ ok subscription
parse_add_logged-serialize_example =
    parse_add_logged-serialize subscription (3 ∷ []) subscription_writes
      (record { msg_id_range = omega arith; in_memory = omega arith }) subscription_written

abbrev empty_text : Logging
empty_text = record text { message = [] }

abbrev empty_writes : List Bytes
empty_writes = (message_header 9 b'L' ++ (b'4' ∷ 57 ∷ 48 ∷ 0 ∷ 0 ∷ 0 ∷ 0 ∷ 0 ∷ 0 ∷ [])) ∷ [] ∷ []

empty_written : serialize_logging empty_text ≡ ok empty_writes
unfolding serialize_logging exceeds_u16 le_bytes
empty_written = refl

-- An empty text is written, and refused when it is read.
parse_logging-serialize_example :
    parse_logging false (flatten empty_writes ++ (3 ∷ [])) ≡ throw (parsing message_too_short)
parse_logging-serialize_example =
    parse_logging-serialize empty_text (3 ∷ []) empty_writes
      (record {
        tag_range = omega arith;
        untagged = λ e. refl;
        timestamp_range = omega arith;
        in_memory = omega arith;
      })
      empty_written

abbrev sample_writes : List Bytes
sample_writes =
    (message_header 12 b'D' ++ (7 ∷ 0 ∷ [])) ∷ (1 ∷ 0 ∷ 0 ∷ 0 ∷ 0 ∷ 0 ∷ 0 ∷ 0 ∷ 5 ∷ 6 ∷ []) ∷ []

sample_written : serialize_data sample ≡ ok sample_writes
unfolding serialize_data exceeds_u16
sample_written = refl

parse_data-serialize_example : parse_data (flatten sample_writes ++ (3 ∷ [])) ≡ ok sample
parse_data-serialize_example =
    parse_data-serialize sample (3 ∷ []) sample_writes
      (record { msg_id_range = omega arith; in_memory = omega arith }) sample_written

float_size : basic_size basic_types (codes "float") ≡ some 4
unfolding basic_size bytes_eq
float_size = refl

value_of_basic_example :
    SizeDecides 4 (1 ∷ 2 ∷ []) (value_of (scalar (codes "float") (codes "K")) (1 ∷ 2 ∷ []))
value_of_basic_example = value_of_basic (codes "float") (codes "K") (1 ∷ 2 ∷ []) 4 float_size

parse_dropout-serialize_example :
    (ws : List Bytes) × (serialize_dropout (record { duration_ms = 250 }) ≡ ok ws)
    × IsFrame (flatten ws)
    × (byte_at 2 (flatten ws) ≡ b'O')
    × (parse_dropout (flatten ws ++ (9 ∷ [])) ≡ ok (record { duration_ms = 250 }))
parse_dropout-serialize_example =
    parse_dropout-serialize (record { duration_ms = 250 }) (9 ∷ []) (omega arith)

parse_sync-serialize_example :
    (ws : List Bytes) × (serialize_sync (record {}) ≡ ok ws)
    × IsFrame (flatten ws)
    × (byte_at 2 (flatten ws) ≡ b'S')
    × (parse_sync (flatten ws ++ (9 ∷ [])) ≡ ok (record {}))
parse_sync-serialize_example = parse_sync-serialize (record {}) (9 ∷ [])
