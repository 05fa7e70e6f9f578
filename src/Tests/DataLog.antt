-- ===== src/Tests/DataLog.antt =====
-- A logger whose file grows too large.
use my_ulog.Base.{
  none, ◌-◌, ◌*◌, ◌<◌, ◌≡◌, refl, true, false, some, List, [], ◌∷◌, ◌++◌, arith, pos, take,
  get_elem?,
}
use my_ulog.Base.Bytes.{Bytes, codes, bytes_eq, Lacks}
use my_ulog.Base.Decimal.{to_string, stoi, read_positive}
use my_ulog.Base.Dict.{bytes_key, lookup, put}
use my_ulog.Base.Result.{ok, throw, usage, invalid_argument, id_not_found}
use my_ulog.Messages.Raw.{exceeds_u16}
use my_ulog.Messages.Field.{encode}
use my_ulog.Messages.FileHeader.{new_file_header, serialize_file_header}
use my_ulog.Messages.Info.{serialize_info, info_string}
use my_ulog.Messages.Format.{serialize_format, definition}
use my_ulog.Messages.Value.{basic_size}
use my_ulog.Messages.AddLogged.{serialize_add_logged}
use my_ulog.Messages.Data.{Data, serialize_data}
use my_ulog.Writer
use my_ulog.Writer.{emit}
use my_ulog.Checks.{
  all_in, matches, starts_with_timestamp, check_names, add_field, sum_fields, check_format,
}
use my_ulog.DataLog.Names.{
  last_of, rfind, rfind_before, is_valid_filename, versioned, next_version, new_path_in,
  generate_new_filename, generate_new_path_or_filename,
}
use my_ulog.DataLog.State.{
  StructInfo, DataLog, max_file_size, on_writer, write_info, write_message_format, header_complete,
  write_add_logged_message, subscribe,
}
use my_ulog.DataLog.Init.{
  init, init_again, declare_structs, subscribe_structs, write_formats, add_subscriptions,
}
use my_ulog.DataLog.Rotate.{
  System, output_of, close_file, open_file, rotate, created, create_instance, new_data_log,
  send_sample, send, write_data_impl, write_known, write,
}
use my_ulog.DataLog.Alike.{tables}
use my_ulog.DataLog.Ready.{IsBegun, IsReady, init-IsReady}
use my_ulog.DataLog.Samples.{CanRotate, IsSent, recounted, write-IsSent}
use my_ulog.DataLog.Invariant.{write-IsReady}
use my_ulog.DataLog.Described.{described}
use my_ulog.DataLog.Files.{AreFiles, files_of, all_of, recorded}
use my_ulog.DataLog.Session.{write_all, write_all-AreFiles}
use my_ulog.DataLog.Numbering.{generate_new_path_or_filename-versioned}
use my_ulog.DataLog.Instance.{HasInstance, create_instance-HasInstance}
use my_ulog.DataLog.Failure.{IsClosed, write-unversioned}
use my_ulog.Tests.Logs.{timestamp_field, axes_field}

abbrev system : System
system = record { opens = λ n name. true; now = λ n. 1000 * n }

abbrev imu : StructInfo
imu = record { message_name = codes "imu"; fields = timestamp_field ∷ axes_field ∷ [] }

abbrev filename : Bytes
filename = codes "/tmp/a.1.ulg"

abbrev made : DataLog
made = (new_data_log system filename).1

made_ok : new_data_log system filename ≡ (ok tt, made)
unfolding new_data_log is_valid_filename rfind last_of bytes_eq open_file on_writer
    Writer.write_file_header emit
made_ok = refl

abbrev enabled : DataLog
enabled = record made { enabled = true }

abbrev ready : DataLog
ready = (init (codes "sys") (codes "PX4") (imu ∷ []) enabled).1

ready_ok : init (codes "sys") (codes "PX4") (imu ∷ []) enabled ≡ (ok true, ready)
unfolding new_data_log is_valid_filename rfind last_of bytes_eq open_file on_writer
    Writer.write_file_header emit init declare_structs subscribe_structs write_info
    write_message_format header_complete write_add_logged_message subscribe check_format check_names
    sum_fields add_field starts_with_timestamp matches all_in basic_size lookup put
    Writer.write_message_info Writer.write_message_format Writer.write_header_complete
    Writer.write_add_logged_message serialize_info serialize_format serialize_add_logged definition
    encode to_string exceeds_u16 info_string
ready_ok = refl

enabled-IsBegun : IsBegun (serialize_file_header (new_file_header 0 false)) enabled
unfolding new_data_log is_valid_filename rfind last_of bytes_eq open_file on_writer
    Writer.write_file_header emit
enabled-IsBegun = record { clear = refl; begun = refl }

ready-IsReady :
    (defs : List Bytes) × IsReady defs ready
    × (output_of ready.writer ≡ serialize_file_header (new_file_header 0 false) ++ defs)
    × (ready.closed ≡ [])
    × (ready.enabled ≡ true)
unfolding new_data_log is_valid_filename rfind last_of bytes_eq open_file on_writer
    Writer.write_file_header emit
ready-IsReady =
    init-IsReady (codes "sys") (codes "PX4") (imu ∷ []) 0 enabled ready enabled-IsBegun refl refl
      (omega arith) ready_ok

-- Room for ten bytes more.
abbrev nearly_full : DataLog
nearly_full = record ready { current_file_size = 10 * 1024 * 1024 - 10 }

nearly_full-IsReady : IsReady ready-IsReady.0 nearly_full
nearly_full-IsReady = record {
  defined = recounted ready-IsReady.0 _ ready (ready-IsReady.1).defined;
  small = omega arith;
}

abbrev sample : Bytes
sample = 1 ∷ 0 ∷ 0 ∷ 0 ∷ 0 ∷ 0 ∷ 0 ∷ 0 ∷ 5 ∷ 6 ∷ 7 ∷ 8 ∷ 9 ∷ 10 ∷ 0 ∷ 0 ∷ []

known : lookup (codes "imu") nearly_full.id_map ≡ some 0
unfolding new_data_log is_valid_filename rfind last_of bytes_eq open_file on_writer
    Writer.write_file_header emit init declare_structs subscribe_structs write_info
    write_message_format header_complete write_add_logged_message subscribe check_format check_names
    sum_fields add_field starts_with_timestamp matches all_in basic_size lookup put
    Writer.write_message_info Writer.write_message_format Writer.write_header_complete
    Writer.write_add_logged_message serialize_info serialize_format serialize_add_logged definition
    encode to_string exceeds_u16 info_string
known = refl

subscribed : get_elem? nearly_full.subscriptions 0 ≡ some 14
unfolding new_data_log is_valid_filename rfind last_of bytes_eq open_file on_writer
    Writer.write_file_header emit init declare_structs subscribe_structs write_info
    write_message_format header_complete write_add_logged_message subscribe check_format check_names
    sum_fields add_field starts_with_timestamp matches all_in basic_size lookup put
    Writer.write_message_info Writer.write_message_format Writer.write_header_complete
    Writer.write_add_logged_message serialize_info serialize_format serialize_add_logged definition
    encode to_string exceeds_u16 info_string
subscribed = refl

enabled_still : nearly_full.enabled ≡ true
unfolding new_data_log is_valid_filename rfind last_of bytes_eq open_file on_writer
    Writer.write_file_header emit init declare_structs subscribe_structs write_info
    write_message_format header_complete write_add_logged_message subscribe check_format check_names
    sum_fields add_field starts_with_timestamp matches all_in basic_size lookup put
    Writer.write_message_info Writer.write_message_format Writer.write_header_complete
    Writer.write_add_logged_message serialize_info serialize_format serialize_add_logged definition
    encode to_string exceeds_u16 info_string
enabled_still = refl

nearly_full-CanRotate : CanRotate system nearly_full
unfolding CanRotate generate_new_path_or_filename new_path_in next_version rfind_before stoi
    read_positive new_data_log is_valid_filename rfind last_of bytes_eq open_file on_writer
    Writer.write_file_header emit init declare_structs subscribe_structs write_info
    write_message_format header_complete write_add_logged_message subscribe check_format check_names
    sum_fields add_field starts_with_timestamp matches all_in basic_size lookup put
    Writer.write_message_info Writer.write_message_format Writer.write_header_complete
    Writer.write_add_logged_message serialize_info serialize_format serialize_add_logged definition
    encode to_string exceeds_u16 info_string
nearly_full-CanRotate = (codes "/tmp/a.2.ulg", refl, refl)

write-IsSent_example :
    (d' : DataLog) × (ws : List Bytes) × (write system (codes "imu") sample nearly_full
      ≡ (ok tt, d'))
    × (serialize_data (record { msg_id = 0; payload = take 14 sample }) ≡ ok ws)
    × IsSent ready-IsReady.0 ws nearly_full d'
write-IsSent_example =
    write-IsSent system ready-IsReady.0 (codes "imu") sample 0 14 nearly_full nearly_full-IsReady
      enabled_still known subscribed (omega arith) (omega arith) (λ full. nearly_full-CanRotate)

abbrev rotated : DataLog
rotated = (write system (codes "imu") sample nearly_full).1

rotated_ok : write system (codes "imu") sample nearly_full ≡ (ok tt, rotated)
unfolding new_data_log is_valid_filename rfind last_of bytes_eq open_file on_writer
    Writer.write_file_header emit init declare_structs subscribe_structs write_info
    write_message_format header_complete write_add_logged_message subscribe check_format check_names
    sum_fields add_field starts_with_timestamp matches all_in basic_size lookup put
    Writer.write_message_info Writer.write_message_format Writer.write_header_complete
    Writer.write_add_logged_message serialize_info serialize_format serialize_add_logged definition
    encode to_string exceeds_u16 info_string write_all write write_known write_data_impl send
    send_sample rotate close_file init_again write_formats add_subscriptions Writer.write_data
    serialize_data generate_new_path_or_filename generate_new_filename new_path_in next_version
    rfind_before stoi read_positive
rotated_ok = refl

-- The second file begins at the time 1000, and holds what the first one began with.
rotated_file : (rotated.init_params).file_name ≡ codes "/tmp/a.2.ulg"
unfolding new_data_log is_valid_filename rfind last_of bytes_eq open_file on_writer
    Writer.write_file_header emit init declare_structs subscribe_structs write_info
    write_message_format header_complete write_add_logged_message subscribe check_format check_names
    sum_fields add_field starts_with_timestamp matches all_in basic_size lookup put
    Writer.write_message_info Writer.write_message_format Writer.write_header_complete
    Writer.write_add_logged_message serialize_info serialize_format serialize_add_logged definition
    encode to_string exceeds_u16 info_string write_all write write_known write_data_impl send
    send_sample rotate close_file init_again write_formats add_subscriptions Writer.write_data
    serialize_data generate_new_path_or_filename generate_new_filename new_path_in next_version
    rfind_before stoi read_positive
rotated_file = refl

write-IsReady_example : IsReady ready-IsReady.0 rotated × (tables rotated ≡ tables nearly_full)
write-IsReady_example =
    write-IsReady system ready-IsReady.0 (codes "imu") sample nearly_full rotated
      nearly_full-IsReady rotated_ok

abbrev samples : List (Bytes × Bytes)
samples = (codes "imu", sample) ∷ (codes "imu", sample) ∷ []

abbrev logged : DataLog
logged = (write_all system samples ready).1

logged_ok : write_all system samples ready ≡ (ok tt, logged)
unfolding new_data_log is_valid_filename rfind last_of bytes_eq open_file on_writer
    Writer.write_file_header emit init declare_structs subscribe_structs write_info
    write_message_format header_complete write_add_logged_message subscribe check_format check_names
    sum_fields add_field starts_with_timestamp matches all_in basic_size lookup put
    Writer.write_message_info Writer.write_message_format Writer.write_header_complete
    Writer.write_add_logged_message serialize_info serialize_format serialize_add_logged definition
    encode to_string exceeds_u16 info_string write_all write write_known write_data_impl send
    send_sample rotate close_file init_again write_formats add_subscriptions Writer.write_data
    serialize_data generate_new_path_or_filename generate_new_filename new_path_in next_version
    rfind_before stoi read_positive
logged_ok = refl

write_all-AreFiles_example :
    (logged.current_file_size < max_file_size)
    × (tables logged ≡ described (imu ∷ []))
    × ((defs : List Bytes) × (groups : List (List Data)) × (output_of ready.writer
          ≡ serialize_file_header (new_file_header (system.now 0) false) ++ defs)
        × AreFiles defs groups (files_of logged)
        × (all_of groups ≡ recorded true (described (imu ∷ [])) samples))
write_all-AreFiles_example =
    write_all-AreFiles system filename (codes "sys") (codes "PX4") (imu ∷ []) true samples made
      ready logged made_ok ready_ok (omega arith, (omega arith, tt)) logged_ok

generate_new_path_or_filename-versioned_example :
    generate_new_path_or_filename (codes "/tmp" ++ (b'/' ∷ versioned (codes "a") (pos 9)))
    ≡ ok (codes "/tmp" ++ (b'/' ∷ versioned (codes "a") (pos 10)))
generate_new_path_or_filename-versioned_example =
    generate_new_path_or_filename-versioned (codes "/tmp") (codes "a") 9
      ((λ e. omega (arith, e)), tt) (omega arith)

abbrev unversioned : DataLog
unversioned = record nearly_full {
  init_params = record (nearly_full.init_params) { file_name = codes "test.ulg" };
}

test-Lacks : Lacks b'.' (codes "test") × Lacks b'/' (codes "test")
test-Lacks = (
  (
    (λ e. omega (arith, e)),
    ((λ e. omega (arith, e)), ((λ e. omega (arith, e)), ((λ e. omega (arith, e)), tt))),
  ),
  (
    (λ e. omega (arith, e)),
    ((λ e. omega (arith, e)), ((λ e. omega (arith, e)), ((λ e. omega (arith, e)), tt))),
  ),
)

complete : unversioned.header_complete ≡ true
unfolding new_data_log is_valid_filename rfind last_of bytes_eq open_file on_writer
    Writer.write_file_header emit init declare_structs subscribe_structs write_info
    write_message_format header_complete write_add_logged_message subscribe check_format check_names
    sum_fields add_field starts_with_timestamp matches all_in basic_size lookup put
    Writer.write_message_info Writer.write_message_format Writer.write_header_complete
    Writer.write_add_logged_message serialize_info serialize_format serialize_add_logged definition
    encode to_string exceeds_u16 info_string
complete = refl

write-unversioned_example :
    (d' : DataLog) × (write system (codes "imu") sample unversioned ≡ (throw invalid_argument, d'))
    × IsClosed unversioned d'
    × ((other more : Bytes) → write system other more d' ≡ (throw (usage id_not_found), d'))
write-unversioned_example =
    write-unversioned system (codes "imu") sample 0 14 b't' (codes "est") unversioned refl
      test-Lacks.0 test-Lacks.1 refl complete enabled_still known subscribed (omega arith) refl

created_ok : create_instance system filename true none ≡ (ok tt, some enabled)
unfolding new_data_log is_valid_filename rfind last_of bytes_eq open_file on_writer
    Writer.write_file_header emit create_instance created
created_ok = refl

create_instance-HasInstance_example : HasInstance system true none (some enabled)
create_instance-HasInstance_example =
    create_instance-HasInstance system filename true none (some enabled) created_ok
