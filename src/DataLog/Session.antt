-- ===== src/DataLog/Session.antt =====
-- A logger from its constructor on: `Init`, and any number of `Write`.
use my_ulog.Base.{
  ℕ, ◌+◌, if◌then◌else◌, ◌<◌, ◌≡◌, refl, ap, subst, ◌∙◌, Bool, true, false, not, List, [], ◌∷◌,
  ◌++◌, append-nil, append_assoc, length, ◌^◌, sym, All, arith,
}
use my_ulog.Base.Bytes.{Bytes}
use my_ulog.Base.Result.{ok, throw, parsing, usage, invalid_filename, failed_to_open}
use my_ulog.Base.Action.{Action, proceed, proceed-ok, ◌>>◌, pure, raise_if, returned}
use my_ulog.Messages.FileHeader.{new_file_header, serialize_file_header}
use my_ulog.Writer
use my_ulog.Writer.{Writer, emit}
use my_ulog.DataLog.Names.{is_valid_filename}
use my_ulog.DataLog.State.{StructInfo, DataLog, on_writer, max_file_size}
use my_ulog.DataLog.Init.{init}
use my_ulog.DataLog.Rotate.{
  System, open_file, output_of, write, new_data_log, start_writer, empty_log,
}
use my_ulog.DataLog.Alike.{tables}
use my_ulog.DataLog.Ready.{IsReady, IsBegun, init-IsReady}
use my_ulog.DataLog.Invariant.{write-IsReady}
use my_ulog.Messages.Data.{Data}
use my_ulog.DataLog.Described.{described, init-described}
use my_ulog.DataLog.Filed.{write-IsFiled}
use my_ulog.DataLog.Files.{
  AreFiles, IsFiled, IsFiled-AreFiles, files_of, all_of, recorded, sample_of, writes_of, bytes_of,
}

-- A logger that was just made.
pub record IsNew (timestamp : ℕ) (d : DataLog) : Type 0 where
  pub begun : IsBegun (serialize_file_header (new_file_header timestamp false)) d
  pub no_files : d.closed ≡ []
  pub no_structs : (d.init_params).all_structs ≡ []
  pub no_bytes : d.current_file_size ≡ 0

module _ (system : System) where
  -- Calls of `Write` one after another, up to the first that throws.
  unfoldable pub write_all : List (Bytes × Bytes) → Action DataLog (Unit {0})
  write_all [] = pure tt
  write_all ((message_name, bytes) ∷ samples) = write system message_name bytes >> write_all samples

  pub new_data_log-IsNew :
      (filename : Bytes) (d : DataLog)
      → new_data_log system filename ≡ (ok tt, d)
      → IsNew (system.now 0) d
  unfolding new_data_log open_file on_writer Writer.write_file_header emit
  new_data_log-IsNew filename d e = by_valid (not (is_valid_filename filename)) e
    where
      by_answer :
          (opens : Bool)
          → proceed
              (if opens
                then (ok (system.now 0), record (empty_log system filename) { opened = 0 + 1 })
                else (
                  throw (parsing failed_to_open),
                  record (empty_log system filename) { opened = 0 + 1 },
                ))
              (start_writer system)
            ≡ (ok tt, d)
          → IsNew (system.now 0) d
      by_answer true e = subst (IsNew (system.now 0)) (ap (λ p. p.1) e) (record {
        begun = record { clear = refl; begun = refl };
        no_files = refl;
        no_structs = refl;
        no_bytes = refl;
      })
      by_answer false e = absurd (returned _ tt d e)

      by_valid :
          (invalid : Bool)
          → proceed
              (proceed
                (raise_if invalid (usage invalid_filename) (empty_log system filename))
                (λ _. open_file system filename))
              (start_writer system)
            ≡ (ok tt, d)
          → IsNew (system.now 0) d
      by_valid true e = absurd (returned _ tt d e)
      by_valid false e = by_answer (system.opens 0 filename) e

  write_all-IsFiled :
      (defs : List Bytes) (on : Bool) (done : List Data) (samples : List (Bytes × Bytes))
      (d d' : DataLog)
      → IsReady defs d
      → All (λ x. length x.1 + 2 < 2 ^ 31) samples
      → IsFiled defs on done d
      → write_all samples d ≡ (ok tt, d')
      → IsReady defs d'
        × (tables d' ≡ tables d)
        × IsFiled defs on (done ++ recorded on (tables d) samples) d'
  unfolding write_all recorded
  write_all-IsFiled defs on done [] d d' ready memory h e =
      subst (λ t. IsReady defs t × (tables t ≡ tables d) × IsFiled defs on (done ++ []) t)
        (ap (λ p. p.1) e)
        (ready, refl, subst (λ xs. IsFiled defs on xs d) (sym (append-nil done)) h)
  write_all-IsFiled defs on done ((message_name, bytes) ∷ samples) d d' ready (fits, memory) h e =
      let (u, k, first, more) = proceed-ok (write system message_name bytes d) _ tt d' e in
      let (ready', same) = write-IsReady system defs message_name bytes d k ready first in
      let x = (if on then sample_of (tables d) (message_name, bytes) ∷ [] else []) in
      let (after, same', filed) =
        write_all-IsFiled defs on (done ++ x) samples k d' ready' memory
          (write-IsFiled system defs on done message_name bytes d k ready fits h first) more in
      (
        after,
        same' ∙ same,
        subst (λ xs. IsFiled defs on xs d')
            (append_assoc done x (recorded on (tables k) samples)
              ∙ ap (λ t. done ++ (x ++ recorded on t samples)) same)
            filed,
      )

  -- A logger that was made and initialised, and whose calls of `Write` have all returned, each for a
  -- struct of less than 2 GiB. Its tables are those that the structs describe, whatever files were begun:
  -- the sizes of their fields, as unsigned ints and with one element for an array of length 0, and their
  -- ids counted from 0, as uint16_t. Every file, closed or not, is a header, the
  -- definitions that `Init` wrote to the first file, and samples, whose payloads have fewer bytes than the
  -- limit plus 2 ^ 16: the sample that begins a file is not counted. The samples of the files one after
  -- another are those of the calls, each once and in order, with the id and the size of the struct; there
  -- are none if the logger is switched off.
  pub write_all-AreFiles :
      (filename key key_value : Bytes) (all_structs : List StructInfo) (on : Bool)
      (samples : List (Bytes × Bytes)) (d0 d1 d : DataLog)
      → new_data_log system filename ≡ (ok tt, d0)
      → init key key_value all_structs (record d0 { enabled = on }) ≡ (ok true, d1)
      → All (λ x. length x.1 + 2 < 2 ^ 31) samples
      → write_all samples d1 ≡ (ok tt, d)
      → (d.current_file_size < max_file_size)
        × (tables d ≡ described all_structs)
        × ((defs : List Bytes) × (groups : List (List Data)) × (output_of d1.writer
              ≡ serialize_file_header (new_file_header (system.now 0) false) ++ defs)
            × AreFiles defs groups (files_of d)
            × (all_of groups ≡ recorded on (described all_structs) samples))
  unfolding AreFiles writes_of bytes_of
  write_all-AreFiles filename key key_value all_structs on samples d0 d1 d made initialised memory
        wrote =
      let new = new_data_log-IsNew filename d0 made in
      let head = serialize_file_header (new_file_header (system.now 0) false) in
      let (defs, ready, begun, no_files, still) =
        init-IsReady key key_value all_structs (system.now 0) (record d0 { enabled = on }) d1
          (record { clear = (new.begun).clear; begun = (new.begun).begun }) new.no_files
          new.no_structs (omega (arith, new.no_bytes)) initialised in
      let made_of : tables d1 ≡ described all_structs =
        init-described key key_value all_structs (record d0 { enabled = on }) d1 (new.begun).clear
          initialised in
      let (after, same, filed) =
        write_all-IsFiled defs on [] samples d1 d ready memory
          (record {
            closed_samples = [];
            files = subst (AreFiles defs []) (sym no_files) tt;
            last = [];
            begun = (system.now 0, begun ∙ ap (λ o. head ++ o) (sym (append-nil defs)));
            counted = omega arith;
            complete = refl;
            switched = still;
          })
          wrote in
      let (groups, files, all) =
        IsFiled-AreFiles defs on (recorded on (tables d1) samples) d filed after.small in
      (
        after.small,
        same ∙ made_of,
        (defs, groups, begun, files, all ∙ ap (λ t. recorded on t samples) made_of),
      )
