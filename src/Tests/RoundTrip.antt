-- ===== src/Tests/RoundTrip.antt =====
-- A small log, written, and read in two chunks.
use my_ulog.Base.{
  false, ◌≤◌, ◌≡◌, ◌↔◌, All, refl, ap, ◌∙◌, List, [], ◌∷◌, ◌++◌, arith, length, take, drop,
  take-append-drop, append-nil,
}
use my_ulog.Base.Bytes.{Bytes, flatten, le_bytes}
use my_ulog.Base.Decimal.{to_string}
use my_ulog.Base.Result.{ok}
use my_ulog.Handler.{Event, run}
use my_ulog.Messages.Raw.{exceeds_u16, message_header}
use my_ulog.Messages.Field.{encode}
use my_ulog.Messages.FileHeader.{new_file_header, serialize_file_header}
use my_ulog.Messages.Info.{serialize_info}
use my_ulog.Messages.Format.{serialize_format, definition}
use my_ulog.Messages.AddLogged.{serialize_add_logged}
use my_ulog.Messages.Logging.{serialize_logging}
use my_ulog.Messages.Data.{serialize_data}
use my_ulog.Writer.{
  Writer, new_writer, writer_handler, emit, write_header_complete, write_file_header,
  write_message_info, write_message_format, write_add_logged_message, write_logging, write_data,
}
use my_ulog.Reader.State.{Phase, Reader, new_reader}
use my_ulog.Reader.Chunks.{read_chunks, IsAtEnd, read_chunks-frames}
use my_ulog.Reader.Stream.{TakesAll}
use my_ulog.Reader.Delivery.{data-Takes}
use my_ulog.Messages.Sync.{serialize_sync, sync_magic_bytes}
use my_ulog.Log.Frames.{data-Reads}
use my_ulog.Log.RoundTrip.{log_calls, IsLog, read_chunks-writer}
use my_ulog.Log.Protocol.{IsOrdered, IsSerializable, run-writer_iff}
use my_ulog.Tests.Logs.{
  recorder, recorder-IsSoundHandler, header_events, subscription, sample, text,
}
use my_ulog.Tests.Codecs.{system_info-IsInfo, topic-IsFormat}

abbrev datums : List Event
datums = Event.logged_data sample ∷ Event.logging text ∷ []

abbrev pub calls : List Event
calls = log_calls 1000 false header_events (Event.add_logged_message subscription) datums

abbrev writer : Writer
writer = (run writer_handler calls new_writer).1

abbrev file : Bytes
file = flatten (writer.output)

calls-IsLog : IsLog 1000 header_events (Event.add_logged_message subscription) datums
calls-IsLog = record {
  timestamp_range = omega arith;
  definitions_fit = (system_info-IsInfo, (topic-IsFormat, tt));
  definitions_placed = (tt, (tt, tt));
  first_placed = tt;
  data_fit = (
    (record { msg_id_range = omega arith; in_memory = omega arith }, omega arith),
    (
      (record { msg_id_range = omega arith; in_memory = omega arith }, omega arith),
      (
        (
          record {
            tag_range = omega arith;
            untagged = λ e. refl;
            timestamp_range = omega arith;
            in_memory = omega arith;
          },
          omega arith,
        ),
        tt,
      ),
    ),
  );
  data_placed = (tt, (tt, (tt, tt)));
}

calls_written : run writer_handler calls new_writer ≡ (ok tt, writer)
unfolding run emit write_header_complete write_file_header write_message_info write_message_format
    write_add_logged_message write_logging write_data serialize_info serialize_format
    serialize_add_logged serialize_logging serialize_data definition encode to_string exceeds_u16
calls_written = refl

calls_recorded : run recorder calls [] ≡ (ok tt, calls)
unfolding run
calls_recorded = refl

long_enough : 59 ≤ length (take 70 file)
unfolding run emit write_header_complete write_file_header write_message_info write_message_format
    write_add_logged_message write_logging write_data serialize_info serialize_format
    serialize_add_logged serialize_logging serialize_data definition encode to_string exceeds_u16
    serialize_file_header new_file_header le_bytes
long_enough = omega arith

read_chunks-writer_example :
    IsAtEnd recorder Phase.read_data calls
      (read_chunks recorder (take 70 file ∷ (drop 70 file ∷ [])) (new_reader []))
read_chunks-writer_example =
    read_chunks-writer recorder 1000 false header_events (Event.add_logged_message subscription)
      datums writer [] calls (take 70 file) (drop 70 file ∷ []) recorder-IsSoundHandler calls-IsLog
      calls_written calls_recorded long_enough
      (ap (λ t. take 70 file ++ t) (append-nil (drop 70 file)) ∙ take-append-drop 70 file)

abbrev sync_writes : List Bytes
sync_writes = (message_header 8 b'S' ++ sync_magic_bytes) ∷ []

sync_written : serialize_sync (record {}) ≡ ok sync_writes
unfolding serialize_sync
sync_written = refl

abbrev in_data : Reader (List Event)
in_data = record (new_reader []) { state = Phase.read_data }

sync-TakesAll :
    TakesAll recorder
      (flatten sync_writes ∷ [])
      Phase.read_data
      []
      Phase.read_data
      (Event.sync (record {}) ∷ [])
sync-TakesAll =
    let (m, type, reads) =
      data-Reads recorder (Event.sync (record {})) sync_writes tt tt sync_written in
    (
      Phase.read_data,
      Event.sync (record {}) ∷ [],
      data-Takes recorder (Event.sync (record {})) (flatten sync_writes) []
          (Event.sync (record {}) ∷ []) m reads refl,
      (tt, refl, refl),
    )

-- One message, cut in its header.
read_chunks-frames_example : IsAtEnd recorder Phase.read_data (Event.sync (record {}) ∷ []) (
    read_chunks recorder
      (take 2 (flatten sync_writes) ∷ (drop 2 (flatten sync_writes) ∷ []))
      in_data)
read_chunks-frames_example =
    read_chunks-frames recorder Phase.read_data (Event.sync (record {}) ∷ [])
      (flatten sync_writes ∷ [])
      (take 2 (flatten sync_writes) ∷ (drop 2 (flatten sync_writes) ∷ [])) in_data
      recorder-IsSoundHandler (record { fits = omega arith; room = omega arith }) refl refl
      sync-TakesAll refl

run-writer_iff_example :
    ((v : Writer) × (run writer_handler calls new_writer ≡ (ok tt, v)))
    ↔ (IsOrdered false calls × All IsSerializable calls)
run-writer_iff_example = run-writer_iff calls new_writer
