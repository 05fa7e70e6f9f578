-- ===== src/Container.antt =====
-- src/data_container.cpp: the handler that keeps a log in memory.
pub mod Order
pub mod Sound
use my_ulog.Base.{ℕ, Bool, true, false, ◌&&◌, none, some, List, [], ◌∷◌, ◌++◌, if◌then◌else◌}
use my_ulog.Base.Bytes.{Bytes}
use my_ulog.Base.Dict.{nat_key, bytes_key, lookup, put, insert}
use my_ulog.Base.Result.{
  ok, throw, Reason, parsing, continued_without_previous, duplicate_format, duplicate_msg_id,
  invalid_subscription,
}
use my_ulog.Base.Action.{Action, pure}
use my_ulog.Handler.{DataHandler}
use my_ulog.Messages.FileHeader.{FileHeader, new_file_header}
use my_ulog.Messages.Info.{MessageInfo}
use my_ulog.Messages.Format.{MessageFormat}
use my_ulog.Messages.ParameterDefault.{ParameterDefault}
use my_ulog.Messages.AddLogged.{AddLoggedMessage}
use my_ulog.Messages.Logging.{Logging}
use my_ulog.Messages.Data.{Data}
use my_ulog.Messages.Dropout.{Dropout}

-- `DataContainer::StorageConfig`.
pub data StorageConfig : Type 0 where
  header full_log : StorageConfig

-- `DataContainer::Subscription`.
pub record Subscription : Type 0 where
  pub add_logged_message : AddLoggedMessage
  pub samples : List Data

pub record Container : Type 0 where
  pub storage_config : StorageConfig
  pub header_complete : Bool
  pub had_fatal_error : Bool
  pub parsing_errors : List Reason
  pub file_header : FileHeader
  pub message_info : List (Bytes × MessageInfo)
  pub message_info_multi : List (Bytes × List (List MessageInfo))
  pub message_formats : List (Bytes × MessageFormat)
  pub initial_parameters : List (Bytes × MessageInfo)
  pub default_parameters : List (Bytes × ParameterDefault)
  pub changed_parameters : List MessageInfo
  pub subscriptions : List (ℕ × Subscription)
  pub logging : List Logging
  pub dropouts : List Dropout

-- `DataContainer::DataContainer`.
abbrev pub new_container : StorageConfig → Container
new_container storage_config = record {
  storage_config = storage_config;
  header_complete = false;
  had_fatal_error = false;
  parsing_errors = [];
  file_header = new_file_header 0 false;
  message_info = [];
  message_info_multi = [];
  message_formats = [];
  initial_parameters = [];
  default_parameters = [];
  changed_parameters = [];
  subscriptions = [];
  logging = [];
  dropouts = [];
}

abbrev pub is_header : StorageConfig → Bool
is_header StorageConfig.header = true
is_header StorageConfig.full_log = false

-- `_header_complete && _storage_config == StorageConfig::Header`.
abbrev pub skips : Container → Bool
skips c = c.header_complete && is_header c.storage_config

unfoldable pub on_error : Reason → Bool → Action Container (Unit {0})
on_error msg is_recoverable c = (
  ok tt,
  record c {
    had_fatal_error = if is_recoverable then c.had_fatal_error else true;
    parsing_errors = c.parsing_errors ++ (msg ∷ []);
  },
)

unfoldable pub on_header_complete : Action Container (Unit {0})
on_header_complete c = (ok tt, record c { header_complete = true })

unfoldable pub on_file_header : FileHeader → Action Container (Unit {0})
on_file_header h c = (ok tt, record c { file_header = h })

-- `_message_info_multi[name]`: a missing entry is created, empty.
abbrev pub groups : Bytes → Container → List (List MessageInfo)
groups name c = elim (lookup name c.message_info_multi) [ none ↦ [] | some gs ↦ gs ]

-- `messages[messages.size() - 1].push_back(info)`.
unfoldable pub append_to_last : List (List MessageInfo) → MessageInfo → List (List MessageInfo)
append_to_last [] info = []
append_to_last (g ∷ []) info = (g ++ (info ∷ [])) ∷ []
append_to_last (g ∷ (h ∷ gs)) info = g ∷ append_to_last (h ∷ gs) info

set_groups : Bytes → List (List MessageInfo) → Container → Container
set_groups name gs c = record c { message_info_multi = put name gs c.message_info_multi }

-- The entry that `operator[]` created stays behind when the message is refused.
continue_last : MessageInfo → List (List MessageInfo) → Action Container (Unit {0})
unfolding set_groups append_to_last
continue_last info [] c =
    (throw (parsing continued_without_previous), set_groups info.field.name [] c)
continue_last info (g ∷ gs) c = (ok tt, set_groups info.field.name (append_to_last (g ∷ gs) info) c)

unfoldable pub on_message_info : MessageInfo → Action Container (Unit {0})
unfolding continue_last
on_message_info info c =
    if skips c
    then (ok tt, c)
    else if info.is_multi
    then if info.continued
      then continue_last info (groups info.field.name c) c
      else (ok tt, set_groups info.field.name (groups info.field.name c ++ ((info ∷ []) ∷ [])) c)
    else (ok tt, record c { message_info = insert info.field.name info c.message_info })

unfoldable pub on_message_format : MessageFormat → Action Container (Unit {0})
on_message_format format c = elim (lookup format.name c.message_formats) [
  | some f ↦ (throw (parsing duplicate_format), c)
  | none ↦ (ok tt, record c { message_formats = insert format.name format c.message_formats })
]

unfoldable pub on_parameter : MessageInfo → Action Container (Unit {0})
on_parameter p c =
    if skips c
    then (ok tt, c)
    else if c.header_complete
    then (ok tt, record c { changed_parameters = c.changed_parameters ++ (p ∷ []) })
    else (ok tt, record c { initial_parameters = insert p.field.name p c.initial_parameters })

unfoldable pub on_parameter_default : ParameterDefault → Action Container (Unit {0})
on_parameter_default p c =
    (ok tt, record c { default_parameters = insert p.field.name p c.default_parameters })

unfoldable pub on_add_logged_message : AddLoggedMessage → Action Container (Unit {0})
on_add_logged_message a c = if skips c then (ok tt, c) else elim (lookup a.msg_id c.subscriptions) [
  | some s ↦ (throw (parsing duplicate_msg_id), c)
  | none ↦ (
    ok tt,
    record c {
      subscriptions =
          insert a.msg_id (record { add_logged_message = a; samples = [] }) c.subscriptions;
    },
  )
]

unfoldable pub on_logging : Logging → Action Container (Unit {0})
on_logging l c =
    if skips c then (ok tt, c) else (ok tt, record c { logging = c.logging ++ (l ∷ []) })

abbrev pub add_sample : Data → Subscription → Subscription
add_sample d s = record s { samples = s.samples ++ (d ∷ []) }

-- Samples are dropped in header mode also before the header is complete.
unfoldable pub on_data : Data → Action Container (Unit {0})
on_data d c =
    if is_header c.storage_config then (ok tt, c) else elim (lookup d.msg_id c.subscriptions) [
      | none ↦ (throw (parsing invalid_subscription), c)
      | some s ↦ (ok tt, record c { subscriptions = put d.msg_id (add_sample d s) c.subscriptions })
    ]

unfoldable pub on_dropout : Dropout → Action Container (Unit {0})
on_dropout d c =
    if skips c then (ok tt, c) else (ok tt, record c { dropouts = c.dropouts ++ (d ∷ []) })

-- The virtual methods; `sync` is the base class's.
abbrev pub container_handler : DataHandler Container
container_handler = record {
  header_complete = on_header_complete;
  error = on_error;
  file_header = on_file_header;
  message_info = on_message_info;
  message_format = on_message_format;
  parameter = on_parameter;
  parameter_default = on_parameter_default;
  add_logged_message = on_add_logged_message;
  logging = on_logging;
  logged_data = on_data;
  dropout = on_dropout;
  sync = λ s. pure tt;
}
