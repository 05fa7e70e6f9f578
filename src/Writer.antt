-- ===== src/Writer.antt =====
-- src/writer.cpp: the handler that serialises what it is given. The state holds the flag and the writes
-- that the callback was given so far.
use my_ulog.Base.{Bool, true, false, not, List, [], ◌++◌}
use my_ulog.Base.Bytes.{Bytes}
use my_ulog.Base.Result.{
  Result, ok, throw, fault, out_of_fuel, parsing, formats_after_header, subscription_before_header,
}
use my_ulog.Base.Action.{Action, pure, raise_if, ◌>>◌}
use my_ulog.Handler.{DataHandler}
use my_ulog.Messages.Raw.{UlogMessageType}
use my_ulog.Messages.FileHeader.{FileHeader, serialize_file_header}
use my_ulog.Messages.Info.{MessageInfo, serialize_info}
use my_ulog.Messages.Format.{MessageFormat, serialize_format}
use my_ulog.Messages.ParameterDefault.{ParameterDefault, serialize_parameter_default}
use my_ulog.Messages.AddLogged.{AddLoggedMessage, serialize_add_logged}
use my_ulog.Messages.Logging.{Logging, serialize_logging}
use my_ulog.Messages.Data.{Data, serialize_data}
use my_ulog.Messages.Dropout.{Dropout, serialize_dropout}
use my_ulog.Messages.Sync.{Sync, serialize_sync}

pub record Writer : Type 0 where
  pub header_complete : Bool
  pub output : List Bytes

-- `Writer::Writer`, on a little-endian machine.
abbrev pub new_writer : Writer
new_writer = record { header_complete = false; output = [] }

-- `x.serialize(_data_write_cb)`: every serialiser throws before its first write, if it throws.
unfoldable pub emit : Result (List Bytes) → Action Writer (Unit {0})
emit (ok ws) w = (ok tt, record w { output = w.output ++ ws })
emit (throw e) w = (throw e, w)
emit fault w = (fault, w)
emit out_of_fuel w = (out_of_fuel, w)

unfoldable pub write_header_complete : Action Writer (Unit {0})
write_header_complete w = (ok tt, record w { header_complete = true })

unfoldable pub write_file_header : FileHeader → Action Writer (Unit {0})
unfolding emit
write_file_header header = emit (ok (serialize_file_header header))

unfoldable pub write_message_info : MessageInfo → Action Writer (Unit {0})
unfolding emit
write_message_info info = emit (serialize_info info UlogMessageType.info)

unfoldable pub write_message_format : MessageFormat → Action Writer (Unit {0})
unfolding emit
write_message_format format w =
    (raise_if w.header_complete (parsing formats_after_header) >> emit (serialize_format format)) w

unfoldable pub write_parameter : MessageInfo → Action Writer (Unit {0})
unfolding emit
write_parameter p = emit (serialize_info p UlogMessageType.parameter)

unfoldable pub write_parameter_default : ParameterDefault → Action Writer (Unit {0})
unfolding emit
write_parameter_default p = emit (serialize_parameter_default p)

unfoldable pub write_add_logged_message : AddLoggedMessage → Action Writer (Unit {0})
unfolding emit
write_add_logged_message a w =
    (raise_if (not w.header_complete) (parsing subscription_before_header)
        >> emit (serialize_add_logged a))
      w

unfoldable pub write_logging : Logging → Action Writer (Unit {0})
unfolding emit
write_logging l = emit (serialize_logging l)

unfoldable pub write_data : Data → Action Writer (Unit {0})
unfolding emit
write_data d = emit (serialize_data d)

unfoldable pub write_dropout : Dropout → Action Writer (Unit {0})
unfolding emit
write_dropout d = emit (serialize_dropout d)

unfoldable pub write_sync : Sync → Action Writer (Unit {0})
unfolding emit
write_sync s = emit (serialize_sync s)

-- The virtual methods; `error` is the base class's.
abbrev pub writer_handler : DataHandler Writer
writer_handler = record {
  header_complete = write_header_complete;
  error = λ msg is_recoverable. pure tt;
  file_header = write_file_header;
  message_info = write_message_info;
  message_format = write_message_format;
  parameter = write_parameter;
  parameter_default = write_parameter_default;
  add_logged_message = write_add_logged_message;
  logging = write_logging;
  logged_data = write_data;
  dropout = write_dropout;
  sync = write_sync;
}
