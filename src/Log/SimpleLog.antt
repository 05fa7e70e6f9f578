-- ===== src/Log/SimpleLog.antt =====
-- A log that `SimpleWriter` wrote, read by `Reader`.
use my_ulog.Base.{
  ℕ, ◌^◌, ◌≤◌, ◌<◌, ◌≡◌, refl, ap, subst, ◌∙◌, List, [], ◌∷◌, ◌++◌, false, All, length,
}
use my_ulog.Base.Bytes.{Bytes, flatten}
use my_ulog.Base.Dict.{bytes_key}
use my_ulog.Base.Result.{ok}
use my_ulog.Base.Action.{proceed-ok, proceed}
use my_ulog.Handler.{DataHandler, Event, run}
use my_ulog.Messages.FileHeader.{new_file_header}
use my_ulog.Writer.{new_writer, writer_handler}
use my_ulog.SimpleWriter.{SimpleWriter, Call, perform, perform_all, new_simple_writer}
use my_ulog.SimpleWriter.Trace.{trace, event_of, perform_all-trace}
use my_ulog.SimpleWriter.Specified.{start_written}
use my_ulog.SimpleWriter.Consistent.{IsConsistent, perform-IsConsistent, perform_all-IsConsistent}
use my_ulog.Reader.State.{Phase, new_reader}
use my_ulog.Reader.Keeps.{IsSoundHandler}
use my_ulog.Reader.Chunks.{read_chunks, IsAtEnd}
use my_ulog.Log.Frames.{IsFirst}
use my_ulog.Log.RoundTrip.{read_chunks-writer}
use my_ulog.Log.Simple.{
  FitAll, IsHeaderCall, IsDataCall, IsFirstCall, next_state, header_calls-IsWritable,
  data_calls-IsWritable,
}

-- The calls that make a log.
abbrev pub session : List Call → Call → List Call → List Call
session definitions x logged = definitions ++ (Call.complete ∷ (x ∷ logged))

perform_all-append :
    (xs ys : List Call) (s s' : SimpleWriter)
    → perform_all (xs ++ ys) s ≡ (ok tt, s')
    → (t : SimpleWriter) × (perform_all xs s ≡ (ok tt, t)) × (perform_all ys t ≡ (ok tt, s'))
unfolding perform_all
perform_all-append [] ys s s' e = (s, refl, e)
perform_all-append (x ∷ xs) ys s s' e =
    let (u, k, first, rest) = proceed-ok (perform x s) _ tt s' e in
    let (t, before, behind) = perform_all-append xs ys k s' rest in
    (t, ap (λ out. proceed out (λ _. perform_all xs)) first ∙ before, behind)

trace-append :
    (xs ys : List Call) (s t : SimpleWriter)
    → perform_all xs s ≡ (ok tt, t)
    → trace (xs ++ ys) s ≡ trace xs s ++ trace ys t
unfolding trace perform_all
trace-append [] ys s t e = ap (λ p. trace ys p.1) e
trace-append (x ∷ xs) ys s t e =
    let (u, k, first, rest) = proceed-ok (perform x s) _ tt t e in
    ap (λ es. event_of x s ∷ es)
      (trace-append xs ys (perform x s).1 t (next_state xs x s k t first rest))

FitAll-append :
    (xs ys : List Call) (s t : SimpleWriter)
    → perform_all xs s ≡ (ok tt, t)
    → FitAll (xs ++ ys) s
    → FitAll xs s × FitAll ys t
unfolding FitAll perform_all
FitAll-append [] ys s t e fits = (tt, subst (λ p. FitAll ys p.1) e fits)
FitAll-append (x ∷ xs) ys s t e (fit, fits) =
    let (u, k, first, rest) = proceed-ok (perform x s) _ tt t e in
    let (before, behind) =
      FitAll-append xs ys (perform x s).1 t (next_state xs x s k t first rest) fits in
    ((fit, before), behind)

IsFirstCall-IsFirst : (x : Call) (s : SimpleWriter) → IsFirstCall x → IsFirst (event_of x s)
IsFirstCall-IsFirst (Call.add_logged name multi_id) s h = tt
IsFirstCall-IsFirst (Call.text level message timestamp) s h = tt
IsFirstCall-IsFirst (Call.info key value) s h = absurd h
IsFirstCall-IsFirst (Call.parameter key value) s h = absurd h
IsFirstCall-IsFirst (Call.format name fields) s h = absurd h
IsFirstCall-IsFirst Call.complete s h = absurd h
IsFirstCall-IsFirst (Call.parameter_change key value) s h = absurd h
IsFirstCall-IsFirst (Call.sample id bytes) s h = absurd h

IsFirstCall-IsDataCall : (x : Call) → IsFirstCall x → IsDataCall x
IsFirstCall-IsDataCall (Call.add_logged name multi_id) h = tt
IsFirstCall-IsDataCall (Call.text level message timestamp) h = tt
IsFirstCall-IsDataCall (Call.info key value) h = absurd h
IsFirstCall-IsDataCall (Call.parameter key value) h = absurd h
IsFirstCall-IsDataCall (Call.format name fields) h = absurd h
IsFirstCall-IsDataCall Call.complete h = absurd h
IsFirstCall-IsDataCall (Call.parameter_change key value) h = absurd h
IsFirstCall-IsDataCall (Call.sample id bytes) h = absurd h

-- Calls of `SimpleWriter` that all return, with values that fit a file: definitions, the end of the
-- header, and data that begin with a subscription or a text. What they wrote, read in chunks cut
-- anywhere behind the first 59 bytes, makes the calls of the trace: every call of `readChunk` returns,
-- and the handler, whose methods return or throw, ends in the state in which the same calls leave it.
pub read_chunks-simple_writer :
    {H : Type 0} (handler : DataHandler H) (timestamp : ℕ) (definitions : List Call) (x : Call)
    (logged : List Call) (s : SimpleWriter) (h h' : H) (chunk : Bytes) (cs : List Bytes)
    → IsSoundHandler handler
    → timestamp < 2 ^ 64
    → All IsHeaderCall definitions
    → IsFirstCall x
    → All IsDataCall logged
    → FitAll (session definitions x logged) (new_simple_writer timestamp).1
    → perform_all (session definitions x logged) (new_simple_writer timestamp).1 ≡ (ok tt, s)
    → run handler
        (Event.file_header (new_file_header timestamp false)
          ∷ trace (session definitions x logged) (new_simple_writer timestamp).1)
        h
      ≡ (ok tt, h')
    → 59 ≤ length chunk
    → flatten (chunk ∷ cs) ≡ flatten (s.writer).output
    → IsAtEnd handler Phase.read_data h' (read_chunks handler (chunk ∷ cs) (new_reader h))
unfolding trace FitAll perform_all
read_chunks-simple_writer handler timestamp definitions x logged s h h' chunk cs good range dh fx dl
      fits done handled long e =
    let s0 : SimpleWriter = (new_simple_writer timestamp).1 in
    let tail = Call.complete ∷ (x ∷ logged) in
    let (s1, before, behind) = perform_all-append definitions tail s0 s done in
    let traced = trace-append definitions tail s0 s1 before in
    let (fit1, fit2) = FitAll-append definitions tail s0 s1 before fits in
    let (u, s2, completed, rest) = proceed-ok (perform Call.complete s1) _ tt s behind in
    let t : SimpleWriter = (perform Call.complete s1).1 in
    let data_done = next_state (x ∷ logged) Call.complete s1 s2 s completed rest in
    let consistent =
      perform-IsConsistent Call.complete s1
        (subst (λ p. IsConsistent p.1) before (perform_all-IsConsistent timestamp definitions)) in
    let (w1, p1) = header_calls-IsWritable definitions s0 s1 dh fit1 before in
    let (w2, p2) =
      data_calls-IsWritable (x ∷ logged) t s consistent (IsFirstCall-IsDataCall x fx, dl) fit2.1
        data_done in
    let header = Event.file_header (new_file_header timestamp false) in
    read_chunks-writer handler timestamp false (trace definitions s0) (event_of x t)
      (trace logged (perform x t).1) s.writer h h' chunk cs good
      (record {
        timestamp_range = range;
        definitions_fit = w1;
        definitions_placed = p1;
        first_placed = IsFirstCall-IsFirst x t fx;
        data_fit = w2;
        data_placed = p2;
      })
      (subst (λ es. run writer_handler (header ∷ es) new_writer ≡ (ok tt, s.writer)) traced
        (start_written timestamp (trace (session definitions x logged) s0) s.writer
          (perform_all-trace (session definitions x logged) s0 s done)))
      (subst (λ es. run handler (header ∷ es) h ≡ (ok tt, h')) traced handled) long e
