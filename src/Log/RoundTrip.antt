-- ===== src/Log/RoundTrip.antt =====
-- A log that `Writer` wrote, read by `Reader`.
use my_ulog.Base.{
  ℕ, ◌^◌, ◌≤◌, ◌<◌, ◌≡◌, refl, sym, ap, ◌∙◌, List, ◌∷◌, ◌++◌, Bool, All, arith, length, drop,
  append_assoc,
}
use my_ulog.Base.Bytes.{Bytes, flatten}
use my_ulog.Base.Result.{ok}
use my_ulog.Base.Action.{proceed-ok}
use my_ulog.Handler.{DataHandler, Event, dispatch, run}
use my_ulog.Messages.FileHeader.{new_file_header, serialize_file_header}
use my_ulog.Writer.{
  Writer, new_writer, emit, writer_handler, write_file_header, write_header_complete,
}
use my_ulog.Reader.State.{Phase, Reader, new_reader}
use my_ulog.Reader.Keeps.{IsSoundHandler}
use my_ulog.Reader.Stream.{split_prefix}
use my_ulog.Reader.Chunks.{read_chunks, read_chunks-start, IsAtEnd}
use my_ulog.Log.Frames.{serialized, IsWritable, IsDefinition, IsFirst, IsDatum}
use my_ulog.Log.Runs.{
  frames, run-append, Appended, run-Appended, flatten-append, TakesAll-append, header_run-TakesAll,
  first_run-TakesAll,
}
use my_ulog.Log.Start.{start_read, length-header_text, behind_start}

-- The calls that make a log: the start of the file, the definitions, the end of the header, and data
-- with `x` as the first.
abbrev pub log_calls : ℕ → Bool → List Event → Event → List Event → List Event
log_calls timestamp defaults definitions x logged =
    Event.file_header (new_file_header timestamp defaults)
    ∷ (definitions ++ (Event.header_complete ∷ (x ∷ logged)))

-- Calls with messages that have a form in a file, each where a reader looks for it. The data begin with
-- a subscription or a text, by which a reader knows that the definitions have ended.
pub record IsLog (timestamp : ℕ) (definitions : List Event) (x : Event) (logged : List Event)
    : Type 0 where
  pub timestamp_range : timestamp < 2 ^ 64
  pub definitions_fit : All IsWritable definitions
  pub definitions_placed : All IsDefinition definitions
  pub first_placed : IsFirst x
  pub data_fit : All IsWritable (x ∷ logged)
  pub data_placed : All IsDatum (x ∷ logged)

-- A run over the calls of a log, in its parts.
record Parts {H : Type 0} (handler : DataHandler H) (timestamp : ℕ) (defaults : Bool)
    (definitions logged : List Event) (h h' : H) : Type 0 where
  started : H
  defined : H
  completed : H
  start : handler.file_header (new_file_header timestamp defaults) h ≡ (ok tt, started)
  define : run handler definitions started ≡ (ok tt, defined)
  complete : handler.header_complete defined ≡ (ok tt, completed)
  log : run handler logged completed ≡ (ok tt, h')

run-Parts :
    {H : Type 0} (handler : DataHandler H) (timestamp : ℕ) (defaults : Bool)
    (definitions : List Event) (x : Event) (logged : List Event) (h h' : H)
    → run handler (log_calls timestamp defaults definitions x logged) h ≡ (ok tt, h')
    → Parts handler timestamp defaults definitions (x ∷ logged) h h'
unfolding run
run-Parts {H} handler timestamp defaults definitions x logged h h' e =
    let header = Event.file_header (new_file_header timestamp defaults) in
    let (u, started, start, later) = proceed-ok (dispatch handler header h) _ tt h' e in
    let tail = Event.header_complete ∷ (x ∷ logged) in
    let (v, defined, define, later') =
      proceed-ok (run handler definitions started) (λ _. run handler tail) tt h'
        (sym (run-append handler definitions tail started) ∙ later) in
    let (z, completed, complete, log) =
      proceed-ok (handler.header_complete defined) _ tt h' later' in
    record {
      started = started;
      defined = defined;
      completed = completed;
      start = start;
      define = define;
      complete = complete;
      log = log;
    }

writer-Appended :
    (timestamp : ℕ) (defaults : Bool) (definitions : List Event) (x : Event) (logged : List Event)
    (w : Writer)
    → IsLog timestamp definitions x logged
    → Parts writer_handler timestamp defaults definitions (x ∷ logged) new_writer w
    → All (λ e. (ws : List Bytes) × (serialized e ≡ ok ws)) definitions
      × All (λ e. (ws : List Bytes) × (serialized e ≡ ok ws)) (x ∷ logged)
      × (flatten w.output
          ≡ flatten (serialize_file_header (new_file_header timestamp defaults))
            ++ flatten (frames definitions ++ frames (x ∷ logged)))
unfolding emit write_file_header write_header_complete Appended
writer-Appended timestamp defaults definitions x logged w h parts =
    let (ds, grown) =
      run-Appended definitions parts.started parts.defined h.definitions_fit parts.define in
    let (es, grown') = run-Appended (x ∷ logged) parts.completed w h.data_fit parts.log in
    let head = serialize_file_header (new_file_header timestamp defaults) in
    let begun : head ≡ parts.started.output = ap (λ p. (p.1).output) parts.start in
    let same : parts.defined.output ≡ parts.completed.output =
      ap (λ p. (p.1).output) parts.complete in
    (
      ds,
      es,
      grown'
          ∙ ap (λ t. t ++ flatten (frames (x ∷ logged)))
              (ap flatten (sym same)
                ∙ grown
                ∙ ap (λ t. flatten t ++ flatten (frames definitions)) (sym begun))
          ∙ append_assoc (flatten head) (flatten (frames definitions))
              (flatten (frames (x ∷ logged)))
          ∙ ap (λ t. flatten head ++ t)
              (sym (flatten-append (frames definitions) (frames (x ∷ logged)))),
    )

-- What a writer wrote for the calls of a log that fit the format (`IsLog`), where the writer and another
-- handler both return on all these calls, read in chunks cut anywhere behind the first 59 bytes: every
-- call of `readChunk` returns, and the handler, whose methods return or throw, ends in the state in
-- which the same calls, made directly, leave it. Nothing is left in the partial buffer.
pub read_chunks-writer :
    {H : Type 0} (handler : DataHandler H) (timestamp : ℕ) (defaults : Bool)
    (definitions : List Event) (x : Event) (logged : List Event) (w : Writer) (h h' : H)
    (chunk : Bytes) (cs : List Bytes)
    → IsSoundHandler handler
    → IsLog timestamp definitions x logged
    → run writer_handler (log_calls timestamp defaults definitions x logged) new_writer ≡ (ok tt, w)
    → run handler (log_calls timestamp defaults definitions x logged) h ≡ (ok tt, h')
    → 59 ≤ length chunk
    → flatten (chunk ∷ cs) ≡ flatten w.output
    → IsAtEnd handler Phase.read_data h' (read_chunks handler (chunk ∷ cs) (new_reader h))
read_chunks-writer {H} handler timestamp defaults definitions x logged w h h' chunk cs good log
      wrote handled long e =
    let (ds, es, out) =
      writer-Appended timestamp defaults definitions x logged w log
        (run-Parts writer_handler timestamp defaults definitions x logged new_writer w wrote) in
    let parts = run-Parts handler timestamp defaults definitions x logged h h' handled in
    let head = flatten (serialize_file_header (new_file_header timestamp defaults)) in
    let fs = frames definitions ++ frames (x ∷ logged) in
    let (front, rest) =
      split_prefix chunk (flatten cs) head (flatten fs) (e ∙ out)
        (omega (arith, length-header_text timestamp defaults, long)) in
    let behind = drop (length head) chunk in
    let s : Reader H = behind_start handler timestamp parts.started in
    read_chunks-start handler Phase.read_data h' fs cs chunk behind (new_reader h) s good
      (record { fits = omega arith; room = omega arith }) refl
      (rw (← front) at (
        start_read handler timestamp defaults behind h parts.started log.timestamp_range
          parts.start))
      refl refl
      (TakesAll-append handler (frames definitions) (frames (x ∷ logged)) Phase.read_header
        Phase.read_header Phase.read_data parts.started parts.defined h'
        (header_run-TakesAll handler definitions parts.started parts.defined log.definitions_fit
          log.definitions_placed ds parts.define)
        (first_run-TakesAll handler x logged parts.defined parts.completed h' log.data_fit
          log.first_placed log.data_placed es parts.complete parts.log))
      rest
