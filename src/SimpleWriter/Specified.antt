-- ===== src/SimpleWriter/Specified.antt =====
-- What `SimpleWriter` has to ask of its `Writer`, told by its calls alone.
use my_ulog.Base.{
  or_zero, ℕ, zero, suc, ◌%◌, ◌^◌, ◌≡◌, refl, ap, ◌∙◌, subst, false, List, [], ◌∷◌, length, take,
  get_elem?, arith,
}
use my_ulog.Base.Dict.{bytes_key}
use my_ulog.Base.Result.{ok}
use my_ulog.Base.Action.{proceed-ok}
use my_ulog.Handler.{Event, run}
use my_ulog.Messages.FileHeader.{new_file_header}
use my_ulog.Messages.Field.{Field}
use my_ulog.Checks.Sizes.{packed_size, empty_arrays, sample_size}
use my_ulog.Writer
use my_ulog.Writer.{Writer, new_writer, writer_handler, emit}
use my_ulog.SimpleWriter.{
  SimpleWriter, Call, setting_info, on_writer, perform, perform_all, new_simple_writer,
}
use my_ulog.SimpleWriter.Trace.{trace, event_of, perform_all-trace}
use my_ulog.SimpleWriter.Told.{
  Formats, bytes_of, fields_of, declare, subscribe_to, sizes_of, IsTold, length-sizes_of,
  perform-IsTold, new-IsTold,
}

-- The message of a call: a subscription has the next id, and a sample as many bytes as its topic's
-- fields.
abbrev message : Call → List (List Field) → Event
message (Call.info key value) topics = Event.message_info (setting_info key value)
message (Call.parameter key value) topics = Event.parameter (setting_info key value)
message (Call.format name fields) topics =
    Event.message_format (record { name = name; fields = fields })
message Call.complete topics = Event.header_complete
message (Call.parameter_change key value) topics = Event.parameter (setting_info key value)
message (Call.add_logged name multi_id) topics =
    Event.add_logged_message
      (record { multi_id = multi_id; msg_id = length topics % 2 ^ 16; message_name = name })
message (Call.text level text timestamp) topics =
    Event.logging (record {
      log_level = level;
      tag = 0;
      has_tag = false;
      timestamp = timestamp;
      message = text;
    })
message (Call.sample id bytes) topics =
    Event.logged_data
      (record { msg_id = id; payload = take (bytes_of (fields_of (get_elem? topics id))) bytes })

-- The messages of calls one after another.
unfoldable pub messages : List Call → Formats → List (List Field) → List Event
messages [] formats topics = []
messages (x ∷ cs) formats topics =
    message x topics ∷ messages cs (declare x formats) (subscribe_to x formats topics)

expected-bytes_of :
    (topics : List (List Field)) (id : ℕ)
    → or_zero (get_elem? (sizes_of topics) id) ≡ bytes_of (fields_of (get_elem? topics id))
unfolding sample_size packed_size empty_arrays
expected-bytes_of [] zero = omega arith
expected-bytes_of [] (suc id) = omega arith
expected-bytes_of (t ∷ topics) zero = refl
expected-bytes_of (t ∷ topics) (suc id) = expected-bytes_of topics id

-- A writer with these tables is asked for that message.
event-message :
    (x : Call) (formats : Formats) (topics : List (List Field)) (s : SimpleWriter)
    → IsTold formats topics s
    → event_of x s ≡ message x topics
event-message (Call.info key value) formats topics s h = refl
event-message (Call.parameter key value) formats topics s h = refl
event-message (Call.format name fields) formats topics s h = refl
event-message Call.complete formats topics s h = refl
event-message (Call.parameter_change key value) formats topics s h = refl
event-message (Call.add_logged name multi_id) formats topics s h =
    ap
      (λ n.
        Event.add_logged_message
          (record { multi_id = multi_id; msg_id = n % 2 ^ 16; message_name = name }))
      (ap length h.subscriptions ∙ length-sizes_of topics)
event-message (Call.text level text timestamp) formats topics s h = refl
event-message (Call.sample id bytes) formats topics s h =
    ap (λ n. Event.logged_data (record { msg_id = id; payload = take n bytes }))
      (ap (λ xs. or_zero (get_elem? xs id)) h.subscriptions ∙ expected-bytes_of topics id)

trace-messages :
    (cs : List Call) (formats : Formats) (topics : List (List Field)) (s t : SimpleWriter)
    → perform_all cs s ≡ (ok tt, t)
    → IsTold formats topics s
    → trace cs s ≡ messages cs formats topics
unfolding trace messages perform_all
trace-messages [] formats topics s t e h = refl
trace-messages (x ∷ cs) formats topics s t e h =
    let (u, k, first, rest) = proceed-ok (perform x s) _ tt t e in
    ap (λ y. y ∷ trace cs (perform x s).1) (event-message x formats topics s h)
    ∙ ap (λ es. message x topics ∷ es)
        (ap (λ p. trace cs p.1) first
          ∙ trace-messages cs (declare x formats) (subscribe_to x formats topics) k t rest
              (perform-IsTold x formats topics s k first h))

-- The start of a simple writer is that of a plain writer.
pub start_written :
    (timestamp : ℕ) (es : List Event) (w : Writer)
    → run writer_handler es (new_simple_writer timestamp).1.writer ≡ (ok tt, w)
    → run writer_handler (Event.file_header (new_file_header timestamp false) ∷ es) new_writer
      ≡ (ok tt, w)
unfolding run new_simple_writer on_writer Writer.write_file_header emit
start_written timestamp es w e = e

-- A simple writer on which all the calls return has written what a plain writer writes that is asked for
-- the file header and for the messages of the calls. These are told from the calls alone: the values as
-- they were given, the ids of the subscriptions counted from 0, and of the bytes of a sample as many as
-- the fields have that were declared last for its topic (an array of length 0 as one element, and the
-- sum as an unsigned int).
pub perform_all-messages :
    (timestamp : ℕ) (cs : List Call) (s : SimpleWriter)
    → perform_all cs (new_simple_writer timestamp).1 ≡ (ok tt, s)
    → run writer_handler
        (Event.file_header (new_file_header timestamp false) ∷ messages cs [] [])
        new_writer
      ≡ (ok tt, s.writer)
perform_all-messages timestamp cs s e =
    let s0 : SimpleWriter = (new_simple_writer timestamp).1 in
    subst
      (λ es.
        run writer_handler (Event.file_header (new_file_header timestamp false) ∷ es) new_writer
        ≡ (ok tt, s.writer))
      (trace-messages cs [] [] s0 s e (new-IsTold timestamp))
      (start_written timestamp (trace cs s0) s.writer (perform_all-trace cs s0 s e))
