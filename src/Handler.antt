-- ===== src/Handler.antt =====
-- include/ulog_cpp/data_handler_interface.hpp: what a reader calls for every message that it parsed, and
-- what a writer offers. The virtual methods are a record over the state of the implementing class.
use my_ulog.Base.{Bool, List, [], ◌∷◌}
use my_ulog.Base.Result.{Reason}
use my_ulog.Base.Action.{Action, ◌>>◌, pure}
use my_ulog.Messages.FileHeader.{FileHeader}
use my_ulog.Messages.Info.{MessageInfo}
use my_ulog.Messages.Format.{MessageFormat}
use my_ulog.Messages.ParameterDefault.{ParameterDefault}
use my_ulog.Messages.AddLogged.{AddLoggedMessage}
use my_ulog.Messages.Logging.{Logging}
use my_ulog.Messages.Data.{Data}
use my_ulog.Messages.Dropout.{Dropout}
use my_ulog.Messages.Sync.{Sync}

-- `DataHandlerInterface`.
pub record DataHandler (H : Type 0) : Type 0 where
  pub header_complete : Action H (Unit {0})
  pub error : Reason → Bool → Action H (Unit {0})
  pub file_header : FileHeader → Action H (Unit {0})
  pub message_info : MessageInfo → Action H (Unit {0})
  pub message_format : MessageFormat → Action H (Unit {0})
  pub parameter : MessageInfo → Action H (Unit {0})
  pub parameter_default : ParameterDefault → Action H (Unit {0})
  pub add_logged_message : AddLoggedMessage → Action H (Unit {0})
  pub logging : Logging → Action H (Unit {0})
  pub logged_data : Data → Action H (Unit {0})
  pub dropout : Dropout → Action H (Unit {0})
  pub sync : Sync → Action H (Unit {0})

-- The calls, as data.
pub data Event : Type 0 where
  header_complete : Event
  error : Reason → Bool → Event
  file_header : FileHeader → Event
  message_info parameter : MessageInfo → Event
  message_format : MessageFormat → Event
  parameter_default : ParameterDefault → Event
  add_logged_message : AddLoggedMessage → Event
  logging : Logging → Event
  logged_data : Data → Event
  dropout : Dropout → Event
  sync : Sync → Event

module _ {H : Type 0} (handler : DataHandler H) where
  -- The virtual call.
  abbrev pub dispatch : Event → Action H (Unit {0})
  dispatch Event.header_complete = handler.header_complete
  dispatch (Event.error msg is_recoverable) = handler.error msg is_recoverable
  dispatch (Event.file_header x) = handler.file_header x
  dispatch (Event.message_info x) = handler.message_info x
  dispatch (Event.parameter x) = handler.parameter x
  dispatch (Event.message_format x) = handler.message_format x
  dispatch (Event.parameter_default x) = handler.parameter_default x
  dispatch (Event.add_logged_message x) = handler.add_logged_message x
  dispatch (Event.logging x) = handler.logging x
  dispatch (Event.logged_data x) = handler.logged_data x
  dispatch (Event.dropout x) = handler.dropout x
  dispatch (Event.sync x) = handler.sync x

  -- Calls one after another, up to the first that throws.
  unfoldable pub run : List Event → Action H (Unit {0})
  run [] = pure tt
  run (e ∷ es) = dispatch e >> run es

-- The base class, whose methods do nothing.
abbrev pub silent : {H : Type 0} → DataHandler H
silent = record {
  header_complete = pure tt;
  error = λ _ _. pure tt;
  file_header = λ _. pure tt;
  message_info = λ _. pure tt;
  message_format = λ _. pure tt;
  parameter = λ _. pure tt;
  parameter_default = λ _. pure tt;
  add_logged_message = λ _. pure tt;
  logging = λ _. pure tt;
  logged_data = λ _. pure tt;
  dropout = λ _. pure tt;
  sync = λ _. pure tt;
}
