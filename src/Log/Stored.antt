-- ===== src/Log/Stored.antt =====
-- A session of `SimpleWriter`, read into a `DataContainer`.
use my_ulog.Base.{ℕ, ◌^◌, ◌≤◌, ◌<◌, ◌≡◌, refl, sym, false, List, ◌∷◌, length, All, subst}
use my_ulog.Base.Bytes.{Bytes, flatten}
use my_ulog.Base.Dict.{bytes_key, nat_key, lookup}
use my_ulog.Base.Result.{ok}
use my_ulog.Handler.{Event, run}
use my_ulog.Messages.FileHeader.{new_file_header}
use my_ulog.Writer
use my_ulog.Writer.{Writer, emit}
use my_ulog.Container.{StorageConfig, Container, new_container, container_handler, on_file_header}
use my_ulog.Container.Order.{run-Kept, texts, data_of, samples_of}
use my_ulog.Container.Sound.{container_handler-IsSoundHandler}
use my_ulog.Reader.State.{Phase, new_reader}
use my_ulog.Reader.Chunks.{read_chunks, IsAtEnd}
use my_ulog.Log.SimpleLog.{session, read_chunks-simple_writer}
use my_ulog.SimpleWriter.{SimpleWriter, Call, on_writer, perform_all, new_simple_writer}
use my_ulog.SimpleWriter.Trace.{trace}
use my_ulog.Log.Simple.{FitAll, IsHeaderCall, IsDataCall, IsFirstCall}
use my_ulog.Log.Mirror.{IsMirror}
use my_ulog.Log.Follow.{trace-taken}

begun-IsMirror :
    (timestamp : ℕ) (c : Container)
    → c ≡ record (new_container StorageConfig.full_log) {
      file_header = new_file_header timestamp false;
    }
    → IsMirror (new_simple_writer timestamp).1 c
unfolding new_simple_writer on_writer Writer.write_file_header emit lookup
begun-IsMirror timestamp c e = subst (IsMirror (new_simple_writer timestamp).1) (sym e) (record {
  full = refl;
  formats = λ name e. refl;
  free = λ id e. refl;
  taken = λ id e. elim e [ ];
})

-- The calls of `SimpleWriter` and then `Reader` and `DataContainer`: a session whose calls all return,
-- with values that fit a file and at most 65536 subscriptions. What it wrote, read in chunks cut anywhere
-- behind the first 59 bytes into a container for a full log, leaves there the texts of the session and
-- for each id its samples, in the order of the calls; every call of `readChunk` returns.
pub read_chunks-stored :
    (timestamp : ℕ) (definitions : List Call) (x : Call) (logged : List Call) (s : SimpleWriter)
    (chunk : Bytes) (cs : List Bytes)
    → timestamp < 2 ^ 64
    → All IsHeaderCall definitions
    → IsFirstCall x
    → All IsDataCall logged
    → FitAll (session definitions x logged) (new_simple_writer timestamp).1
    → perform_all (session definitions x logged) (new_simple_writer timestamp).1 ≡ (ok tt, s)
    → length s.subscriptions ≤ 2 ^ 16
    → 59 ≤ length chunk
    → flatten (chunk ∷ cs) ≡ flatten (s.writer).output
    → (c : Container) × IsAtEnd container_handler Phase.read_data c (
        read_chunks container_handler
          (chunk ∷ cs)
          (new_reader (new_container StorageConfig.full_log)))
      × (c.logging ≡ texts (trace (session definitions x logged) (new_simple_writer timestamp).1))
      × ((id : ℕ)
          → samples_of (lookup id c.subscriptions)
            ≡ data_of id (trace (session definitions x logged) (new_simple_writer timestamp).1))
unfolding run on_file_header lookup
read_chunks-stored timestamp definitions x logged s chunk cs range dh fx dl fits done few long e =
    let start = new_container StorageConfig.full_log in
    let calls = session definitions x logged in
    let header = Event.file_header (new_file_header timestamp false) in
    let s0 = (new_simple_writer timestamp).1 in
    let (c, handled) = trace-taken calls s0 s _ done few (begun-IsMirror timestamp _ refl) in
    let kept = run-Kept (header ∷ trace calls s0) start c refl handled in
    (
      c,
      read_chunks-simple_writer container_handler timestamp definitions x logged s start c chunk cs
          container_handler-IsSoundHandler range dh fx dl fits done handled long e,
      kept.logging,
      kept.samples,
    )
