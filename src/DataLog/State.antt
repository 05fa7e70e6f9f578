-- ===== src/DataLog/State.antt =====
-- src/zz_data_log.cpp: the logger's state, and the methods that it has in common with `SimpleWriter`.
use my_ulog.Base.{
  ℕ, ◌*◌, ◌%◌, ◌^◌, Bool, true, false, not, Option, none, some, List, [], ◌∷◌, ◌++◌, length,
}
use my_ulog.Base.Bytes.{Bytes}
use my_ulog.Base.Dict.{bytes_key, lookup, put}
use my_ulog.Base.Result.{
  throw, fault, usage, header_already_complete, header_not_complete, format_not_found,
}
use my_ulog.Base.Action.{Action, ◌>>=◌, ◌>>◌, pure, lift, modify, raise_if}
use my_ulog.Checks.{any_case_char, check_format}
use my_ulog.Messages.Field.{Field}
use my_ulog.Messages.Logging.{Level}
use my_ulog.SimpleWriter.{Setting, setting_info}
use my_ulog.Writer
use my_ulog.Writer.{Writer, new_writer}

pub record StructInfo : Type 0 where
  pub message_name : Bytes
  pub fields : List Field

pub record InitParams : Type 0 where
  pub file_name : Bytes
  pub key : Bytes
  pub key_value : Bytes
  pub all_structs : List StructInfo

-- `writer` is none while there is none to write with. `closed` are the files that were closed, and
-- `opened` counts the calls of `fopen`.
pub record DataLog : Type 0 where
  pub writer : Option Writer
  pub header_complete : Bool
  pub formats : List (Bytes × ℕ)
  pub subscriptions : List ℕ
  pub id_map : List (Bytes × ℕ)
  pub enabled : Bool
  pub current_file_size : ℕ
  pub init_params : InitParams
  pub closed : List (Bytes × List Bytes)
  pub opened : ℕ

-- `kMaxFileSize`: 10 MB.
abbrev pub max_file_size : ℕ
max_file_size = 10 * 1024 * 1024

-- A call through `_writer`; through a null pointer it is a fault.
pub via : Action Writer (Unit {0}) → Option Writer → Action DataLog (Unit {0})
via m none d = (fault, d)
via m (some w) d = let (result, w') = m w in (result, record d { writer = some w' })

unfoldable pub on_writer : Action Writer (Unit {0}) → Action DataLog (Unit {0})
unfolding via
on_writer m d = via m d.writer d

-- `writeInfo`.
unfoldable pub write_info : Bytes → Setting → Action DataLog (Unit {0})
write_info key value d =
    (raise_if d.header_complete (usage header_already_complete)
        >> on_writer (Writer.write_message_info (setting_info key value)))
      d

-- `writeParameter`.
unfoldable pub write_parameter : Bytes → Setting → Action DataLog (Unit {0})
write_parameter key value d =
    (raise_if d.header_complete (usage header_already_complete)
        >> on_writer (Writer.write_parameter (setting_info key value)))
      d

-- `writeParameterChange`.
unfoldable pub write_parameter_change : Bytes → Setting → Action DataLog (Unit {0})
write_parameter_change key value d =
    (raise_if (not d.header_complete) (usage header_not_complete)
        >> on_writer (Writer.write_parameter (setting_info key value)))
      d

-- `writeMessageFormat`.
unfoldable pub write_message_format : Bytes → List Field → Action DataLog (Unit {0})
write_message_format name fields d =
    (lift (check_format any_case_char d.header_complete d.formats name fields) >>= λ message_size.
    modify (λ t. record t { formats = put name message_size t.formats })
    >> on_writer (Writer.write_message_format (record { name = name; fields = fields })))
      d

-- `headerComplete`.
unfoldable pub header_complete : Action DataLog (Unit {0})
header_complete d =
    (raise_if d.header_complete (usage header_already_complete)
        >> (on_writer Writer.write_header_complete
            >> modify (λ t. record t { header_complete = true })))
      d

-- `writeTextMessage`.
unfoldable pub write_text_message : Level → Bytes → ℕ → Action DataLog (Unit {0})
write_text_message level message timestamp d =
    (raise_if (not d.header_complete) (usage header_not_complete)
        >> on_writer (
            Writer.write_logging (record {
              log_level = level;
              tag = 0;
              has_tag = false;
              timestamp = timestamp;
              message = message;
            })))
      d

unfoldable pub subscribe : Bytes → ℕ → Option ℕ → Action DataLog ℕ
subscribe message_format_name multi_id none d =
    (throw (usage (format_not_found message_format_name)), d)
subscribe message_format_name multi_id (some message_size) d =
    let msg_id = length d.subscriptions % 2 ^ 16 in
    (modify (λ t. record t { subscriptions = t.subscriptions ++ (message_size ∷ []) })
        >> on_writer (
            Writer.write_add_logged_message
              (record { multi_id = multi_id; msg_id = msg_id; message_name = message_format_name }))
        >> pure msg_id)
      d

-- `writeAddLoggedMessage`.
unfoldable pub write_add_logged_message : Bytes → ℕ → Action DataLog ℕ
unfolding subscribe
write_add_logged_message message_format_name multi_id d =
    (raise_if (not d.header_complete) (usage header_not_complete)
        >> subscribe message_format_name multi_id (lookup message_format_name d.formats))
      d
