-- ===== src/Tests/Logs.antt =====
-- A small log, and a handler that records its calls.
use my_ulog.Base.{false, List, [], ◌∷◌, ◌++◌, negsuc, pos}
use my_ulog.Base.Bytes.{codes}
use my_ulog.Base.Result.{IsSound, ok}
use my_ulog.Base.Action.{Action}
use my_ulog.Handler.{DataHandler, dispatch, Event}
use my_ulog.Messages.FileHeader.{new_file_header}
use my_ulog.Reader.Keeps.{IsSoundHandler}
use my_ulog.Messages.Field.{Field}
use my_ulog.Messages.Info.{MessageInfo}
use my_ulog.Messages.Format.{MessageFormat}
use my_ulog.Messages.AddLogged.{AddLoggedMessage}
use my_ulog.Messages.Logging.{Level, Logging}
use my_ulog.Messages.Data.{Data}

abbrev record_event : Event → Action (List Event) (Unit {0})
record_event e es = (ok tt, es ++ (e ∷ []))

abbrev pub recorder : DataHandler (List Event)
recorder = record {
  header_complete = record_event Event.header_complete;
  error = λ msg is_recoverable. record_event (Event.error msg is_recoverable);
  file_header = λ x. record_event (Event.file_header x);
  message_info = λ x. record_event (Event.message_info x);
  message_format = λ x. record_event (Event.message_format x);
  parameter = λ x. record_event (Event.parameter x);
  parameter_default = λ x. record_event (Event.parameter_default x);
  add_logged_message = λ x. record_event (Event.add_logged_message x);
  logging = λ x. record_event (Event.logging x);
  logged_data = λ x. record_event (Event.logged_data x);
  dropout = λ x. record_event (Event.dropout x);
  sync = λ x. record_event (Event.sync x);
}

recorder-IsSound : (e : Event) (es : List Event) → IsSound (dispatch recorder e es).0
recorder-IsSound Event.header_complete es = tt
recorder-IsSound _ es = tt

pub recorder-IsSoundHandler : IsSoundHandler recorder
recorder-IsSoundHandler = record { sound = recorder-IsSound }

abbrev pub timestamp_field : Field
timestamp_field = record {
  type = codes "uint64_t";
  array_length = negsuc 0;
  name = codes "timestamp";
}

abbrev pub axes_field : Field
axes_field = record { type = codes "int16_t"; array_length = pos 3; name = codes "axes" }

abbrev pub topic : MessageFormat
topic = record { name = codes "imu"; fields = timestamp_field ∷ axes_field ∷ [] }

abbrev pub system_info : MessageInfo
system_info = record {
  field = record { type = codes "char"; array_length = pos 3; name = codes "sys" };
  value = codes "PX4";
  continued = false;
  is_multi = false;
}

abbrev pub subscription : AddLoggedMessage
subscription = record { multi_id = 0; msg_id = 7; message_name = codes "imu" }

abbrev pub sample : Data
sample = record { msg_id = 7; payload = 1 ∷ 0 ∷ 0 ∷ 0 ∷ 0 ∷ 0 ∷ 0 ∷ 0 ∷ 5 ∷ 6 ∷ [] }

abbrev pub text : Logging
text = record {
  log_level = Level.warning;
  tag = 0;
  has_tag = false;
  timestamp = 12345;
  message = codes "low battery";
}

abbrev pub header_events : List Event
header_events = Event.message_info system_info ∷ Event.message_format topic ∷ []

abbrev pub data_events : List Event
data_events =
    Event.add_logged_message subscription
    ∷ Event.logged_data sample
    ∷ Event.logging text
    ∷ Event.logged_data sample
    ∷ []

abbrev pub log_events : List Event
log_events =
    Event.file_header (new_file_header 1000 false)
    ∷ (header_events ++ (Event.header_complete ∷ data_events))
