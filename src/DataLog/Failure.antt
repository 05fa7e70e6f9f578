-- ===== src/DataLog/Failure.antt =====
-- A rotation that finds no name for the next file.
use my_ulog.Base.{
  ℕ, ◌≤◌, ◌≡◌, ◌≢◌, refl, ap, ◌∙◌, true, false, none, some, [], ◌∷◌, ◌++◌, length, get_elem?, arith,
  All-append,
}
use my_ulog.Base.Bytes.{Bytes, codes, Lacks}
use my_ulog.Base.Dict.{bytes_key, lookup}
use my_ulog.Base.Result.{throw, usage, Exception, invalid_argument, id_not_found}
use my_ulog.DataLog.Names.{generate_new_path_or_filename}
use my_ulog.DataLog.State.{DataLog}
use my_ulog.DataLog.Rotate.{System, close_file, rotate, send_sample, write, write_known, output_of}
use my_ulog.DataLog.Samples.{is_full, grown, write-eq}
use my_ulog.DataLog.Numbering.{
  is_number_start, generate_new_filename-unversioned, generate_new_path_or_filename-plain,
}

-- A logger that has closed its file and has no other.
pub record IsClosed (d d' : DataLog) : Type 0 where
  pub no_writer : d'.writer ≡ none
  pub no_formats : d'.formats ≡ []
  pub file_closed : d'.closed ≡ d.closed ++ (((d.init_params).file_name, output_of d.writer) ∷ [])
  pub unopened : d'.opened ≡ d.opened

next_unnamed :
    (c : ℕ) (stem : Bytes)
    → Lacks b'.' (c ∷ stem)
    → Lacks b'/' (c ∷ stem)
    → is_number_start c ≡ false
    → generate_new_path_or_filename ((c ∷ stem) ++ codes ".ulg") ≡ throw invalid_argument
next_unnamed c stem no_dot no_slash no_number =
    generate_new_path_or_filename-plain c (stem ++ codes ".ulg") (
      All-append (λ b. b ≢ b'/') (c ∷ stem) (codes ".ulg") no_slash
        (
          (λ e. omega (arith, e)),
          ((λ e. omega (arith, e)), ((λ e. omega (arith, e)), ((λ e. omega (arith, e)), tt))),
        ))
    ∙ generate_new_filename-unversioned c stem no_dot no_number

module _ (system : System) where
  rotate-fails :
      (d : DataLog) (x : Exception)
      → generate_new_path_or_filename (d.init_params).file_name ≡ throw x
      → rotate system d ≡ (throw x, (close_file d).1)
  unfolding rotate close_file
  rotate-fails d x e = rw e refl

  send_sample-fails :
      (id size : ℕ) (bytes : Bytes) (d : DataLog) (x : Exception)
      → is_full bytes d ≡ true
      → generate_new_path_or_filename (d.init_params).file_name ≡ throw x
      → send_sample system id bytes size d ≡ (throw x, (close_file (grown bytes d)).1)
  unfolding send_sample
  send_sample-fails id size bytes d x full e = rw (full, rotate-fails (grown bytes d) x e) refl

  -- A name like `test.ulg`, which the constructor accepts, has no next name: the `Write` that would
  -- begin a new file closes the current one and throws `std::invalid_argument`; the sample is in no
  -- file, no other file is opened, and every `Write` after it throws that there is no such id.
  pub write-unversioned :
      (message_name bytes : Bytes) (id size c : ℕ) (stem : Bytes) (d : DataLog)
      → (d.init_params).file_name ≡ (c ∷ stem) ++ codes ".ulg"
      → Lacks b'.' (c ∷ stem)
      → Lacks b'/' (c ∷ stem)
      → is_number_start c ≡ false
      → d.header_complete ≡ true
      → d.enabled ≡ true
      → lookup message_name d.id_map ≡ some id
      → get_elem? d.subscriptions id ≡ some size
      → size ≤ length bytes
      → is_full bytes d ≡ true
      → (d' : DataLog) × (write system message_name bytes d ≡ (throw invalid_argument, d'))
        × IsClosed d d'
        × ((other more : Bytes) → write system other more d' ≡ (throw (usage id_not_found), d'))
  unfolding close_file write write_known lookup
  write-unversioned message_name bytes id size c stem d file no_dot no_slash no_number complete on
        known subscribed enough full =
      (
        (close_file (grown bytes d)).1,
        write-eq system message_name bytes id size d complete on known subscribed enough
            ∙ send_sample-fails id size bytes d invalid_argument full (
                ap generate_new_path_or_filename file
                ∙ next_unnamed c stem no_dot no_slash no_number),
        record { no_writer = refl; no_formats = refl; file_closed = refl; unopened = refl },
        λ other more. refl,
      )
