-- ===== src/DataLog/Ready.antt =====
-- The logger between two samples: its tables are those that its parameters give in every file.
use my_ulog.Base.{
  ℕ, ◌+◌, ◌<◌, ◌≡◌, refl, sym, ap, subst, ◌∙◌, Bool, true, false, some, List, [], ◌∷◌, ◌++◌,
  append-nil, length, drop, drop-length, All, All-append, arith,
}
use my_ulog.Base.Bytes.{Bytes}
use my_ulog.Base.Result.{ok}
use my_ulog.Messages.FileHeader.{new_file_header, serialize_file_header}
use my_ulog.Writer
use my_ulog.Writer.{Writer, emit, new_writer}
use my_ulog.DataLog.Names.{generate_new_path_or_filename}
use my_ulog.DataLog.State.{StructInfo, InitParams, DataLog, on_writer, max_file_size}
use my_ulog.DataLog.Init.{init_again, init}
use my_ulog.DataLog.Rotate.{System, output_of, close_file, open_file, rotate}
use my_ulog.DataLog.Alike.{IsAlike, Simulates, tables}
use my_ulog.DataLog.Again.{init-Simulates}
use my_ulog.DataLog.Kept.{Moves, Rest, init-Moves, init_again-Moves}

-- A logger whose file has been begun with these writes, and nothing defined.
pub record IsBegun (out : List Bytes) (d : DataLog) : Type 0 where
  pub clear : tables d ≡ (false, [], [], [])
  pub begun : d.writer ≡ some (record { header_complete = false; output = out })

-- A file of a logger: a header, the definitions, and what was logged.
unfoldable pub IsFile : List Bytes → List Bytes → Type 0
IsFile defs writes =
    (timestamp : ℕ) × (more : List Bytes) × (writes
      ≡ serialize_file_header (new_file_header timestamp false) ++ (defs ++ more))

-- `Init` with the parameters that are kept returns on every file that has been begun, writes `defs`, and
-- reaches the tables that the logger has; its file and those that it has closed have `defs`.
pub record IsDefined (defs : List Bytes) (d : DataLog) : Type 0 where
  pub again :
      (out : List Bytes) (b : DataLog)
      → IsBegun out b
      → (c : DataLog) × (flag : Bool) × (init_again d.init_params b ≡ (ok true, c))
        × (tables c ≡ tables d)
        × (c.writer ≡ some (record { header_complete = flag; output = out ++ defs }))
  pub complete : d.header_complete ≡ true
  pub current :
      (flag : Bool) × (writes : List Bytes) × IsFile defs writes
      × (d.writer ≡ some (record { header_complete = flag; output = writes }))
  pub files : All (λ f. IsFile defs f.1) d.closed

-- And the count of the bytes of the samples is below the limit.
pub record IsReady (defs : List Bytes) (d : DataLog) : Type 0 where
  pub defined : IsDefined defs d
  pub small : d.current_file_size < max_file_size

IsBegun-IsAlike :
    (head out : List Bytes) (d b : DataLog) → IsBegun head d → IsBegun out b → IsAlike head out d b
IsBegun-IsAlike head out d b h k = record {
  same = h.clear ∙ sym k.clear;
  flag = false;
  shared = [];
  left =
      h.begun
      ∙ ap (λ o. some (record { header_complete = false; output = o })) (sym (append-nil head));
  right =
      k.begun
      ∙ ap (λ o. some (record { header_complete = false; output = o })) (sym (append-nil out));
}

abbrev params_of : DataLog → Bytes → Bytes → List StructInfo → InitParams
params_of d key key_value is = record {
  file_name = (d.init_params).file_name;
  key = key;
  key_value = key_value;
  all_structs = is;
}

-- After the first `Init`, on a file that has been begun.
pub init-IsReady :
    (key key_value : Bytes) (is : List StructInfo) (timestamp : ℕ) (d d' : DataLog)
    → IsBegun (serialize_file_header (new_file_header timestamp false)) d
    → d.closed ≡ []
    → (d.init_params).all_structs ≡ []
    → d.current_file_size < max_file_size
    → init key key_value is d ≡ (ok true, d')
    → (defs : List Bytes) × IsReady defs d'
      × (output_of d'.writer ≡ serialize_file_header (new_file_header timestamp false) ++ defs)
      × (d'.closed ≡ [])
      × (d'.enabled ≡ d.enabled)
unfolding Simulates Moves IsFile
init-IsReady key key_value is timestamp d d' h no_files none_kept below e =
    let head = serialize_file_header (new_file_header timestamp false) in
    let moved = init-Moves key key_value is d true d' e in
    let kept : d'.init_params ≡ params_of d key key_value is =
      ap (λ (r : Rest). r.1) moved
      ∙ ap
          (λ (s : List StructInfo). record (params_of d key key_value is) { all_structs = s ++ is })
          none_kept in
    let defs = drop (length head) (output_of d'.writer) in
    let here =
      init-Simulates head head key key_value is (d.init_params).file_name d d
        (IsBegun-IsAlike head head d d h h) true d' e in
    let shared_defs : (s : List Bytes) (f : Bool)
        → d'.writer ≡ some (record { header_complete = f; output = head ++ s })
        → defs ≡ s =
      λ s f w. ap (λ o. drop (length head) (output_of o)) w ∙ drop-length head s in
    (
      defs,
      record {
        defined = record {
          again = λ out b k.
              let (c, f, alike) =
                init-Simulates head out key key_value is (d.init_params).file_name d b
                  (IsBegun-IsAlike head out d b h k) true d' e in
              (
                c,
                alike.flag,
                ap (λ p. init_again p b) kept ∙ f,
                sym alike.same,
                alike.right
                    ∙ ap (λ s. some (record { header_complete = alike.flag; output = out ++ s }))
                        (sym (shared_defs alike.shared alike.flag alike.left)),
              );
          complete = ap (λ (r : Rest). r.0) moved;
          current = (
            here.2.flag,
            head ++ defs,
            (timestamp, [], ap (λ s. head ++ s) (sym (append-nil defs))),
            here.2.left
                ∙ ap (λ s. some (record { header_complete = here.2.flag; output = head ++ s }))
                    (sym (shared_defs here.2.shared here.2.flag here.2.left)),
          );
          files =
              subst (All (λ f. IsFile defs f.1)) (sym (ap (λ (r : Rest). r.4) moved ∙ no_files)) tt;
        };
        small = subst (λ n. n < max_file_size) (sym (ap (λ (r : Rest). r.3) moved)) below;
      },
      ap output_of here.2.left
          ∙ ap (λ s. head ++ s) (sym (shared_defs here.2.shared here.2.flag here.2.left)),
      ap (λ (r : Rest). r.4) moved ∙ no_files,
      ap (λ (r : Rest). r.2) moved,
    )

-- What a rotation leaves: the old file closed, the next one with the definitions alone.
pub record IsRotated (defs : List Bytes) (name : Bytes) (timestamp : ℕ) (d d' : DataLog)
    : Type 0 where
  pub same_tables : tables d' ≡ tables d
  pub file_closed : d'.closed ≡ d.closed ++ (((d.init_params).file_name, output_of d.writer) ∷ [])
  pub file_begun :
      output_of d'.writer ≡ serialize_file_header (new_file_header timestamp false) ++ defs
  pub params_kept : d'.init_params ≡ record (d.init_params) { file_name = name }
  pub emptied : d'.current_file_size ≡ 0
  pub still_enabled : d'.enabled ≡ d.enabled
  pub file_opened : d'.opened ≡ d.opened + 1

-- The logger in a rotation, before `Init`.
abbrev begun_log : Bytes → ℕ → DataLog → DataLog
begun_log name timestamp d = record {
  writer = some (record {
    header_complete = false;
    output = serialize_file_header (new_file_header timestamp false);
  });
  header_complete = false;
  formats = [];
  subscriptions = [];
  id_map = [];
  enabled = d.enabled;
  current_file_size = 0;
  init_params = record (d.init_params) { file_name = name };
  closed = d.closed ++ (((d.init_params).file_name, output_of d.writer) ∷ []);
  opened = d.opened + 1;
}

-- The file that a rotation closes.
pub closes : {defs : List Bytes} {d : DataLog} → IsDefined defs d → IsFile defs (output_of d.writer)
closes {defs} h =
    let (flag, writes, file, w) = h.current in subst (IsFile defs) (sym (ap output_of w)) file

module _ (system : System) where
  pub rotate-IsReady :
      (defs : List Bytes) (d : DataLog) (name : Bytes)
      → IsDefined defs d
      → generate_new_path_or_filename (d.init_params).file_name ≡ ok name
      → system.opens d.opened name ≡ true
      → (d' : DataLog) × (rotate system d ≡ (ok tt, d'))
        × IsReady defs d'
        × IsRotated defs name (system.now d.opened) d d'
  unfolding rotate close_file open_file on_writer Writer.write_file_header emit Moves init_again
      IsFile
  rotate-IsReady defs d name h named opens =
      let start = serialize_file_header (new_file_header (system.now d.opened) false) in
      let b = begun_log name (system.now d.opened) d in
      let (c, flag, begins, same, wrote) =
        h.again start b (record { clear = refl; begun = refl }) in
      let moved = init_again-Moves b.init_params b true c begins in
      (
        c,
        rw (named, opens, begins) refl,
        record {
          defined = record {
            again = λ out k kb.
                let (c2, flag2, begins2, same2, wrote2) = h.again out k kb in
                (
                  c2,
                  flag2,
                  ap (λ p. init_again p k) (ap (λ (r : Rest). r.1) moved) ∙ begins2,
                  same2 ∙ sym same,
                  wrote2,
                );
            complete = ap (λ (r : Rest). r.0) moved;
            current = (
              flag,
              start ++ defs,
              (system.now d.opened, [], ap (λ s. start ++ s) (sym (append-nil defs))),
              wrote,
            );
            files =
                subst (All (λ f. IsFile defs f.1)) (sym (ap (λ (r : Rest). r.4) moved))
                  (All-append (λ f. IsFile defs f.1) d.closed _ h.files (closes h, tt));
          };
          small = subst (λ n. n < max_file_size) (sym (ap (λ (r : Rest). r.3) moved)) (omega arith);
        },
        record {
          same_tables = same;
          file_closed = ap (λ (r : Rest). r.4) moved;
          file_begun = ap output_of wrote;
          params_kept = ap (λ (r : Rest). r.1) moved;
          emptied = ap (λ (r : Rest). r.3) moved;
          still_enabled = ap (λ (r : Rest). r.2) moved;
          file_opened = ap (λ (r : Rest). r.5) moved;
        },
      )
