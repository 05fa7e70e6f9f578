-- ===== src/Tests/Container.antt =====
-- The container over a small log.
use my_ulog.Base.{◌≡◌, refl}
use my_ulog.Base.Bytes.{bytes_eq}
use my_ulog.Base.Dict.{nat_key, bytes_key, lookup, put, insert}
use my_ulog.Base.Result.{ok}
use my_ulog.Handler.{run}
use my_ulog.Container.{
  StorageConfig, Container, new_container, container_handler, on_header_complete, on_file_header,
  on_message_info, on_message_format, on_add_logged_message, on_logging, on_data,
}
use my_ulog.Container.Order.{Kept, run-Kept}
use my_ulog.Tests.RoundTrip.{calls}

abbrev kept : Container
kept = (run container_handler calls (new_container StorageConfig.full_log)).1

calls_kept : run container_handler calls (new_container StorageConfig.full_log) ≡ (ok tt, kept)
unfolding run on_header_complete on_file_header on_message_info on_message_format
    on_add_logged_message on_logging on_data lookup put insert bytes_eq
calls_kept = refl

run-Kept_example : Kept calls (new_container StorageConfig.full_log) kept
run-Kept_example = run-Kept calls (new_container StorageConfig.full_log) kept refl calls_kept
