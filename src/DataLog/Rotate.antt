-- ===== src/DataLog/Rotate.antt =====
-- src/zz_data_log.cpp: samples, the start of a new file, and the instance.
use my_ulog.Base.{
  ℕ, ◌+◌, ◌%◌, ◌^◌, Bool, false, not, Option, none, some, List, [], ◌∷◌, ◌++◌, ltb, leb,
  if◌then◌else◌, length, take, get_elem?,
}
use my_ulog.Base.Bytes.{Bytes}
use my_ulog.Base.Dict.{bytes_key, lookup}
use my_ulog.Base.Result.{
  Result, ok, throw, fault, parsing, usage, header_not_complete, invalid_id, sizeof_too_small,
  empty_filename, not_initialized, invalid_filename, failed_to_open, id_not_found, init_failed,
}
use my_ulog.Base.Action.{Action, ◌>>=◌, ◌>>◌, pure, modify, raise, raise_if}
use my_ulog.Messages.FileHeader.{new_file_header}
use my_ulog.Writer
use my_ulog.Writer.{Writer, new_writer}
use my_ulog.DataLog.Names.{is_valid_filename, generate_new_path_or_filename}
use my_ulog.DataLog.State.{DataLog, max_file_size, on_writer}
use my_ulog.DataLog.Init.{is_empty, init_again}

-- What the operating system answers: whether the file of the n-th `fopen` can be opened, and the time
-- that the clock shows behind it.
pub record System : Type 0 where
  pub opens : ℕ → Bytes → Bool
  pub now : ℕ → ℕ

-- The writes of a writer, if there is one.
abbrev pub output_of : Option Writer → List Bytes
output_of none = []
output_of (some w) = w.output

-- `_writer.reset(); fclose(_file);` and the tables that belong to the file.
unfoldable pub close_file : Action DataLog (Unit {0})
close_file = modify (λ d. record d {
  writer = none;
  closed = d.closed ++ (((d.init_params).file_name, output_of d.writer) ∷ []);
  header_complete = false;
  subscriptions = [];
  formats = [];
  id_map = [];
})

module _ (system : System) where
  -- `fopen`, and the time.
  unfoldable pub open_file : Bytes → Action DataLog ℕ
  open_file filename d =
      if system.opens d.opened filename
      then (ok (system.now d.opened), record d { opened = d.opened + 1 })
      else (throw (parsing failed_to_open), record d { opened = d.opened + 1 })

  abbrev pub start_writer : ℕ → Action DataLog (Unit {0})
  start_writer timestamp =
      modify (λ t. record t { writer = some new_writer })
      >> on_writer (Writer.write_file_header (new_file_header timestamp false))

  -- The start of a new file, in `writeDataImpl`.
  unfoldable pub rotate : Action DataLog (Unit {0})
  rotate = do
    close_file
    new_filename ← (λ d. (generate_new_path_or_filename (d.init_params).file_name, d))
    modify (λ d. record d { init_params = record (d.init_params) { file_name = new_filename } })
    timestamp ← open_file new_filename
    modify (λ d. record d { current_file_size = 0 })
    start_writer timestamp
    done ← (λ d. init_again d.init_params d)
    raise_if (not done) (usage (init_failed new_filename))

  -- What `writeDataImpl` does with a sample of the right size.
  unfoldable pub send_sample : ℕ → Bytes → ℕ → Action DataLog (Unit {0})
  send_sample id bytes expected_size d =
      let grown = record d { current_file_size = (d.current_file_size + length bytes) % 2 ^ 64 } in
      ((if leb max_file_size grown.current_file_size then rotate else pure tt)
          >> on_writer
              (Writer.write_data (record { msg_id = id; payload = take expected_size bytes })))
        grown

  unfoldable pub send : ℕ → Bytes → Option ℕ → Action DataLog (Unit {0})
  send id bytes none = raise (usage invalid_id)
  send id bytes (some expected_size) =
      raise_if (ltb (length bytes) expected_size) (usage sizeof_too_small)
      >> send_sample id bytes expected_size

  -- `writeDataImpl`; `bytes` is the memory of the `length` bytes from `data` on.
  unfoldable pub write_data_impl : ℕ → Bytes → Action DataLog (Unit {0})
  write_data_impl id bytes d =
      (raise_if (not d.header_complete) (usage header_not_complete)
          >> send id bytes (get_elem? d.subscriptions id))
        d

  unfoldable pub write_known : Bytes → Option ℕ → Action DataLog (Unit {0})
  write_known bytes none d = (throw (usage id_not_found), d)
  write_known bytes (some id) d = if d.enabled then write_data_impl id bytes d else (ok tt, d)

  -- `Write`, for a struct of that name in memory.
  unfoldable pub write : Bytes → Bytes → Action DataLog (Unit {0})
  write message_name bytes d = write_known bytes (lookup message_name d.id_map) d

  abbrev pub empty_log : Bytes → DataLog
  empty_log filename = record {
    writer = none;
    header_complete = false;
    formats = [];
    subscriptions = [];
    id_map = [];
    enabled = false;
    current_file_size = 0;
    init_params = record { file_name = filename; key = []; key_value = []; all_structs = [] };
    closed = [];
    opened = 0;
  }

  -- `zz_data_log::zz_data_log(const std::string&)`: an object is there only if it returns.
  unfoldable pub new_data_log : Bytes → Result (Unit {0}) × DataLog
  new_data_log filename =
      (raise_if (not (is_valid_filename filename)) (usage invalid_filename)
          >> open_file filename
          >>= start_writer)
        (empty_log filename)

  -- The static `instance_`.
  abbrev set_enabled : Bool → Action (Option DataLog) (Unit {0})
  set_enabled on none = (ok tt, none)
  set_enabled on (some d) = (ok tt, some (record d { enabled = on }))

  unfoldable pub created : Result (Unit {0}) × DataLog → Bool → Action (Option DataLog) (Unit {0})
  created (ok u, d) on none = set_enabled on (some d)
  created (throw e, d) on none = (throw e, none)
  created (fault, d) on none = (fault, none)
  created (Result.out_of_fuel, d) on none = (Result.out_of_fuel, none)
  created out on (some d) = set_enabled on (some d)

  -- `CreateInstance`: the one that is there stays.
  unfoldable pub create_instance : Bytes → Bool → Action (Option DataLog) (Unit {0})
  create_instance filename on =
      raise_if (is_empty filename) (usage empty_filename) >> created (new_data_log filename) on

-- `GetInstance`.
unfoldable pub get_instance : Action (Option DataLog) DataLog
get_instance none = (throw (usage not_initialized), none)
get_instance (some d) = (ok d, some d)
