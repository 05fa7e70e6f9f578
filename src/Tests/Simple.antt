-- ===== src/Tests/Simple.antt =====
-- A session of `SimpleWriter`, and what a reader makes of it.
use my_ulog.Base.{
  ℕ, ◌≤◌, false, ◌≡◌, ◌↔◌, refl, ap, ◌∙◌, List, [], ◌∷◌, ◌++◌, arith, length, take, drop,
  take-append-drop, append-nil, ◌^◌,
}
use my_ulog.Base.Bytes.{Bytes, codes, flatten, le_bytes, bytes_eq}
use my_ulog.Base.Decimal.{to_string}
use my_ulog.Base.Dict.{nat_key, lookup, put}
use my_ulog.Base.Result.{ok}
use my_ulog.Handler.{Event, run}
use my_ulog.Messages.Raw.{exceeds_u16}
use my_ulog.Messages.Field.{encode}
use my_ulog.Messages.FileHeader.{new_file_header, serialize_file_header}
use my_ulog.Messages.Info.{serialize_info, info_string}
use my_ulog.Messages.Format.{serialize_format, definition}
use my_ulog.Messages.Value.{basic_size}
use my_ulog.Messages.AddLogged.{serialize_add_logged}
use my_ulog.Messages.Logging.{Level, serialize_logging}
use my_ulog.Messages.Data.{serialize_data}
use my_ulog.Writer
use my_ulog.Writer.{Writer, new_writer, writer_handler, emit}
use my_ulog.Checks.{
  all_in, matches, starts_with_timestamp, check_names, add_field, sum_fields, check_format,
}
use my_ulog.SimpleWriter.{
  SimpleWriter, Setting, Call, on_writer, new_simple_writer, write_info, write_message_format,
  header_complete, write_add_logged_message, subscribe, send, write_data_impl, write_text_message,
  perform, perform_all,
}
use my_ulog.Log.Protocol.{IsSerializable}
use my_ulog.Container.{StorageConfig, Container, new_container, container_handler}
use my_ulog.Container.Order.{texts, data_of, samples_of}
use my_ulog.Log.Stored.{read_chunks-stored}
use my_ulog.Log.SimpleProtocol.{IsMet, perform_iff}
use my_ulog.SimpleWriter.Trace.{event_of, trace}
use my_ulog.SimpleWriter.Specified.{messages, perform_all-messages}
use my_ulog.SimpleWriter.Consistent.{IsConsistent, perform_all-IsConsistent}
use my_ulog.Reader.State.{Phase, new_reader}
use my_ulog.Reader.Chunks.{read_chunks, IsAtEnd}
use my_ulog.Log.Simple.{FitAll}
use my_ulog.Log.SimpleLog.{session, read_chunks-simple_writer}
use my_ulog.Tests.Logs.{recorder, recorder-IsSoundHandler, timestamp_field, axes_field}
use my_ulog.Tests.Codecs.{system_info-IsInfo}

abbrev definitions : List Call
definitions =
    Call.info (codes "sys") (Setting.string (codes "PX4"))
    ∷ Call.format (codes "imu") (timestamp_field ∷ axes_field ∷ [])
    ∷ []

-- The struct in memory has two bytes of padding.
abbrev sample_memory : Bytes
sample_memory = 1 ∷ 0 ∷ 0 ∷ 0 ∷ 0 ∷ 0 ∷ 0 ∷ 0 ∷ 5 ∷ 6 ∷ 7 ∷ 8 ∷ 9 ∷ 10 ∷ 0 ∷ 0 ∷ []

abbrev logged : List Call
logged = Call.sample 0 sample_memory ∷ Call.text Level.warning (codes "low") 5 ∷ []

abbrev calls : List Call
calls = session definitions (Call.add_logged (codes "imu") 0) logged

abbrev begun : SimpleWriter
begun = (new_simple_writer 1000).1

abbrev ended : SimpleWriter
ended = (perform_all calls begun).1

abbrev file : Bytes
file = flatten (ended.writer).output

performed : perform_all calls begun ≡ (ok tt, ended)
unfolding perform_all new_simple_writer on_writer write_info write_message_format header_complete
    write_add_logged_message subscribe send write_data_impl write_text_message check_format
    check_names sum_fields add_field starts_with_timestamp matches all_in basic_size lookup put
    bytes_eq Writer.write_file_header Writer.write_message_info Writer.write_message_format
    Writer.write_header_complete Writer.write_add_logged_message Writer.write_data
    Writer.write_logging emit serialize_info serialize_format serialize_add_logged serialize_logging
    serialize_data definition encode to_string exceeds_u16 info_string
performed = refl

perform_all-messages_example :
    run writer_handler
      (Event.file_header (new_file_header 1000 false) ∷ messages calls [] [])
      new_writer
    ≡ (ok tt, ended.writer)
perform_all-messages_example = perform_all-messages 1000 calls ended performed

perform_all-IsConsistent_example : IsConsistent ended
perform_all-IsConsistent_example = perform_all-IsConsistent 1000 calls

calls-FitAll : FitAll calls begun
unfolding FitAll perform_all new_simple_writer on_writer write_info write_message_format
    header_complete write_add_logged_message subscribe send write_data_impl write_text_message
    check_format check_names sum_fields add_field starts_with_timestamp matches all_in basic_size
    lookup put bytes_eq Writer.write_file_header Writer.write_message_info
    Writer.write_message_format Writer.write_header_complete Writer.write_add_logged_message
    Writer.write_data Writer.write_logging emit serialize_info serialize_format serialize_add_logged
    serialize_logging serialize_data definition encode to_string exceeds_u16 info_string
calls-FitAll = (
  system_info-IsInfo,
  (
    ((refl, (omega arith, tt)), omega arith),
    (
      tt,
      (
        omega arith,
        ((omega arith, omega arith, omega arith), ((omega arith, omega arith, omega arith), tt)),
      ),
    ),
  ),
)

long_enough : 59 ≤ length (take 70 file)
unfolding FitAll perform_all new_simple_writer on_writer write_info write_message_format
    header_complete write_add_logged_message subscribe send write_data_impl write_text_message
    check_format check_names sum_fields add_field starts_with_timestamp matches all_in basic_size
    lookup put bytes_eq Writer.write_file_header Writer.write_message_info
    Writer.write_message_format Writer.write_header_complete Writer.write_add_logged_message
    Writer.write_data Writer.write_logging emit serialize_info serialize_format serialize_add_logged
    serialize_logging serialize_data definition encode to_string exceeds_u16 info_string
    serialize_file_header new_file_header le_bytes
long_enough = omega arith

abbrev read : List Event
read = Event.file_header (new_file_header 1000 false) ∷ trace calls begun

read_recorded : run recorder read [] ≡ (ok tt, read)
unfolding run trace
read_recorded = refl

read_chunks-simple_writer_example :
    IsAtEnd recorder Phase.read_data read
      (read_chunks recorder (take 70 file ∷ (drop 70 file ∷ [])) (new_reader []))
read_chunks-simple_writer_example =
    read_chunks-simple_writer recorder 1000 definitions (Call.add_logged (codes "imu") 0) logged
      ended [] read (take 70 file) (drop 70 file ∷ []) recorder-IsSoundHandler (omega arith)
      (tt, (tt, tt)) tt (tt, (tt, tt)) calls-FitAll performed read_recorded long_enough
      (ap (λ t. take 70 file ++ t) (append-nil (drop 70 file)) ∙ take-append-drop 70 file)

perform_iff_example :
    ((s : SimpleWriter) × (perform (Call.sample 0 sample_memory) ended ≡ (ok tt, s))) ↔ (
      IsMet (Call.sample 0 sample_memory) ended
      × IsSerializable (event_of (Call.sample 0 sample_memory) ended))
perform_iff_example =
    perform_iff (Call.sample 0 sample_memory) ended (perform_all-IsConsistent 1000 calls)

few : length ended.subscriptions ≤ 2 ^ 16
unfolding FitAll perform_all new_simple_writer on_writer write_info write_message_format
    header_complete write_add_logged_message subscribe send write_data_impl write_text_message
    check_format check_names sum_fields add_field starts_with_timestamp matches all_in basic_size
    lookup put bytes_eq Writer.write_file_header Writer.write_message_info
    Writer.write_message_format Writer.write_header_complete Writer.write_add_logged_message
    Writer.write_data Writer.write_logging emit serialize_info serialize_format serialize_add_logged
    serialize_logging serialize_data definition encode to_string exceeds_u16 info_string
    serialize_file_header new_file_header le_bytes
few = omega arith

read_chunks-stored_example :
    (c : Container) × IsAtEnd container_handler Phase.read_data c (
      read_chunks container_handler
        (take 70 file ∷ (drop 70 file ∷ []))
        (new_reader (new_container StorageConfig.full_log)))
    × (c.logging ≡ texts (trace calls begun))
    × ((id : ℕ) → samples_of (lookup id c.subscriptions) ≡ data_of id (trace calls begun))
read_chunks-stored_example =
    read_chunks-stored 1000 definitions (Call.add_logged (codes "imu") 0) logged ended
      (take 70 file) (drop 70 file ∷ []) (omega arith) (tt, (tt, tt)) tt (tt, (tt, tt)) calls-FitAll
      performed few long_enough
      (ap (λ t. take 70 file ++ t) (append-nil (drop 70 file)) ∙ take-append-drop 70 file)
