-- ===== src/SimpleWriter.antt =====
-- src/simple_writer.cpp: the writer that checks the order of calls, the formats and the sizes of samples.
pub mod Trace
pub mod Flag
pub mod Consistent
pub mod Tables
pub mod Told
pub mod Specified
use my_ulog.Base.{
  ℕ, ◌%◌, ◌^◌, Bool, true, false, not, Option, none, some, List, [], ◌∷◌, ◌++◌, ltb, leb,
  if◌then◌else◌, length, take, get_elem?,
}
use my_ulog.Base.Bytes.{Bytes}
use my_ulog.Base.Dict.{bytes_key, lookup, put}
use my_ulog.Base.Result.{
  parsing, failed_to_open, ok, Result, ok, throw, parsing, usage, header_already_complete,
  header_not_complete, invalid_id, sizeof_too_small, format_not_found, failed_to_open,
}
use my_ulog.Base.Action.{Action, ◌>>=◌, ◌>>◌, proceed, pure, lift, modify, raise_if}
use my_ulog.Checks.{field_name_char, check_format}
use my_ulog.Messages.FileHeader.{new_file_header}
use my_ulog.Messages.Field.{Field}
use my_ulog.Messages.Info.{MessageInfo, info_int32, info_float, info_string}
use my_ulog.Messages.Logging.{Level}
use my_ulog.Writer
use my_ulog.Writer.{Writer, new_writer}

-- `_formats` holds the message size of each format, and `_subscriptions` of each subscription.
pub record SimpleWriter : Type 0 where
  pub writer : Writer
  pub header_complete : Bool
  pub formats : List (Bytes × ℕ)
  pub subscriptions : List ℕ

-- The values that an information message or a parameter can have; a number is its bit pattern.
pub data Setting : Type 0 where
  int32 float : ℕ → Setting
  string : Bytes → Setting

-- `MessageInfo(key, value)`.
abbrev pub setting_info : Bytes → Setting → MessageInfo
setting_info key (Setting.int32 value) = info_int32 key value
setting_info key (Setting.float value) = info_float key value
setting_info key (Setting.string value) = info_string key value

-- A call through `_writer`.
unfoldable pub on_writer : Action Writer (Unit {0}) → Action SimpleWriter (Unit {0})
on_writer m s = let (result, w) = m s.writer in (result, record s { writer = w })

-- `SimpleWriter::SimpleWriter(DataWriteCB, uint64_t)`.
unfoldable pub new_simple_writer : ℕ → Result (Unit {0}) × SimpleWriter
unfolding on_writer
new_simple_writer timestamp =
    on_writer (Writer.write_file_header (new_file_header timestamp false))
      (record { writer = new_writer; header_complete = false; formats = []; subscriptions = [] })

-- `writeInfo`.
unfoldable pub write_info : Bytes → Setting → Action SimpleWriter (Unit {0})
write_info key value s =
    (raise_if s.header_complete (usage header_already_complete)
        >> on_writer (Writer.write_message_info (setting_info key value)))
      s

-- `writeParameter`.
unfoldable pub write_parameter : Bytes → Setting → Action SimpleWriter (Unit {0})
write_parameter key value s =
    (raise_if s.header_complete (usage header_already_complete)
        >> on_writer (Writer.write_parameter (setting_info key value)))
      s

-- `writeMessageFormat`. The entry in the table stays if the writer throws.
unfoldable pub write_message_format : Bytes → List Field → Action SimpleWriter (Unit {0})
write_message_format name fields s =
    (lift (check_format field_name_char s.header_complete s.formats name fields) >>= λ message_size.
    modify (λ t. record t { formats = put name message_size t.formats })
    >> on_writer (Writer.write_message_format (record { name = name; fields = fields })))
      s

-- `headerComplete`.
unfoldable pub header_complete : Action SimpleWriter (Unit {0})
header_complete s =
    (raise_if s.header_complete (usage header_already_complete)
        >> (on_writer Writer.write_header_complete
            >> modify (λ t. record t { header_complete = true })))
      s

-- `writeParameterChange`.
unfoldable pub write_parameter_change : Bytes → Setting → Action SimpleWriter (Unit {0})
write_parameter_change key value s =
    (raise_if (not s.header_complete) (usage header_not_complete)
        >> on_writer (Writer.write_parameter (setting_info key value)))
      s

-- `writeTextMessage`.
unfoldable pub write_text_message : Level → Bytes → ℕ → Action SimpleWriter (Unit {0})
write_text_message level message timestamp s =
    (raise_if (not s.header_complete) (usage header_not_complete)
        >> on_writer (
            Writer.write_logging (record {
              log_level = level;
              tag = 0;
              has_tag = false;
              timestamp = timestamp;
              message = message;
            })))
      s

unfoldable pub subscribe : Bytes → ℕ → Option ℕ → Action SimpleWriter ℕ
subscribe message_format_name multi_id none s =
    (throw (usage (format_not_found message_format_name)), s)
subscribe message_format_name multi_id (some message_size) s =
    let msg_id = length s.subscriptions % 2 ^ 16 in
    (modify (λ t. record t { subscriptions = t.subscriptions ++ (message_size ∷ []) })
        >> on_writer (
            Writer.write_add_logged_message
              (record { multi_id = multi_id; msg_id = msg_id; message_name = message_format_name }))
        >> pure msg_id)
      s

-- `writeAddLoggedMessage`: the message id, the number of subscriptions as a uint16_t.
unfoldable pub write_add_logged_message : Bytes → ℕ → Action SimpleWriter ℕ
unfolding subscribe
write_add_logged_message message_format_name multi_id s =
    (raise_if (not s.header_complete) (usage header_not_complete)
        >> subscribe message_format_name multi_id (lookup message_format_name s.formats))
      s

unfoldable pub send : ℕ → Bytes → Option ℕ → Action SimpleWriter (Unit {0})
send id bytes none = lift (throw (usage invalid_id))
send id bytes (some expected_size) =
    raise_if (ltb (length bytes) expected_size) (usage sizeof_too_small)
    >> on_writer (Writer.write_data (record { msg_id = id; payload = take expected_size bytes }))

-- `writeDataImpl`; `bytes` is the memory of the `length` bytes from `data` on. An id is found exactly if
-- it is below the number of subscriptions.
unfoldable pub write_data_impl : ℕ → Bytes → Action SimpleWriter (Unit {0})
unfolding send
write_data_impl id bytes s =
    (raise_if (not s.header_complete) (usage header_not_complete)
        >> send id bytes (get_elem? s.subscriptions id))
      s

-- The calls of the public methods, as data.
pub data Call : Type 0 where
  info parameter : Bytes → Setting → Call
  format : Bytes → List Field → Call
  complete : Call
  parameter_change : Bytes → Setting → Call
  add_logged : Bytes → ℕ → Call
  text : Level → Bytes → ℕ → Call
  sample : ℕ → Bytes → Call

abbrev pub perform : Call → Action SimpleWriter (Unit {0})
perform (Call.info key value) = write_info key value
perform (Call.parameter key value) = write_parameter key value
perform (Call.format name fields) = write_message_format name fields
perform Call.complete = header_complete
perform (Call.parameter_change key value) = write_parameter_change key value
perform (Call.add_logged name multi_id) = write_add_logged_message name multi_id >>= λ id. pure tt
perform (Call.text level message timestamp) = write_text_message level message timestamp
perform (Call.sample id bytes) = write_data_impl id bytes

-- Calls one after another, up to the first that throws.
unfoldable pub perform_all : List Call → Action SimpleWriter (Unit {0})
perform_all [] = pure tt
perform_all (c ∷ cs) = perform c >> perform_all cs

-- `SimpleWriter::SimpleWriter(const std::string&, uint64_t)`, where `opens` says whether `fopen` opens the
-- file: an object is there only if it returns.
unfoldable pub open_simple_writer : Bool → ℕ → Result SimpleWriter
open_simple_writer opens timestamp =
    if opens then ok (new_simple_writer timestamp).1 else throw (parsing failed_to_open)
