-- ===== src/SimpleWriter/Trace.antt =====
-- A simple writer does what a plain writer does, on calls that the checks let through.
use my_ulog.Base.{
  or_zero, ℕ, ◌%◌, ◌^◌, ◌≤◌, ◌≡◌, refl, ap, ◌∙◌, Bool, true, false, not, Option, none, some, List,
  [], ◌∷◌, ◌++◌, length, take, get_elem?, ltb, arith,
}
use my_ulog.Base.Bytes.{Bytes}
use my_ulog.Base.Dict.{bytes_key, lookup, put}
use my_ulog.Base.Result.{Result, ok, throw, fault, out_of_fuel, Exception}
use my_ulog.Base.Action.{proceed-ok, Action, proceed, pure, modify, raise_if, returned}
use my_ulog.Handler.{Event, dispatch, run}
use my_ulog.Checks.{field_name_char, check_format}
use my_ulog.Messages.Field.{Field}
use my_ulog.Writer
use my_ulog.Writer.{Writer, writer_handler}
use my_ulog.SimpleWriter.{
  SimpleWriter, Call, setting_info, on_writer, write_info, write_parameter, write_message_format,
  header_complete, write_parameter_change, write_text_message, write_add_logged_message,
  write_data_impl, perform, perform_all, subscribe, send,
}

-- The size of the samples that a subscription has.
abbrev pub expected_size : ℕ → SimpleWriter → ℕ
expected_size id s = or_zero (get_elem? s.subscriptions id)

-- What a call asks of the plain writer.
abbrev pub event_of : Call → SimpleWriter → Event
event_of (Call.info key value) s = Event.message_info (setting_info key value)
event_of (Call.parameter key value) s = Event.parameter (setting_info key value)
event_of (Call.format name fields) s =
    Event.message_format (record { name = name; fields = fields })
event_of Call.complete s = Event.header_complete
event_of (Call.parameter_change key value) s = Event.parameter (setting_info key value)
event_of (Call.add_logged name multi_id) s =
    Event.add_logged_message (record {
      multi_id = multi_id;
      msg_id = length s.subscriptions % 2 ^ 16;
      message_name = name;
    })
event_of (Call.text level message timestamp) s = Event.logging (record {
  log_level = level;
  tag = 0;
  has_tag = false;
  timestamp = timestamp;
  message = message;
})
event_of (Call.sample id bytes) s =
    Event.logged_data (record { msg_id = id; payload = take (expected_size id s) bytes })

unfoldable pub trace : List Call → SimpleWriter → List Event
trace [] s = []
trace (c ∷ cs) s = event_of c s ∷ trace cs (perform c s).1

-- A guard that let a call through.
pub guard_passed :
    {S A : Type 0} (b : Bool) (x : Exception) (m : Action S A) (s s' : S) (a : A)
    → proceed (raise_if b x s) (λ _. m) ≡ (ok a, s')
    → (b ≡ false) × (m s ≡ (ok a, s'))
guard_passed true x m s s' a e = absurd (returned (throw x, s) a s' e)
guard_passed false x m s s' a e = (refl, e)

pub written :
    (m : Action Writer (Unit {0})) (s s' : SimpleWriter)
    → on_writer m s ≡ (ok tt, s')
    → m s.writer ≡ (ok tt, s'.writer)
unfolding on_writer
written m s s' e = ap (λ p. (p.0, (p.1).writer)) e

-- A call of the writer that returned, with more to do behind it.
written_then :
    {B : Type 0} (m : Action Writer (Unit {0})) (s s' : SimpleWriter)
    (f : Unit {0} → Action SimpleWriter B) (b : B)
    → proceed (on_writer m s) f ≡ (ok b, s')
    → (w : Writer) × (m s.writer ≡ (ok tt, w)) × (f tt (record s { writer = w }) ≡ (ok b, s'))
unfolding on_writer
written_then m s s' f b e = by_outcome (m s.writer) e
  where
    by_outcome :
        (out : Result (Unit {0}) × Writer)
        → proceed (out.0, record s { writer = out.1 }) f ≡ (ok b, s')
        → (w : Writer) × (out ≡ (ok tt, w)) × (f tt (record s { writer = w }) ≡ (ok b, s'))
    by_outcome (ok u, w) e = (w, refl, e)
    by_outcome (throw x, w) e = absurd (returned _ b s' e)
    by_outcome (fault, w) e = absurd (returned _ b s' e)
    by_outcome (out_of_fuel, w) e = absurd (returned _ b s' e)

subscribe-event :
    (name : Bytes) (multi_id id : ℕ) (o : Option ℕ) (s s' : SimpleWriter)
    → subscribe name multi_id o s ≡ (ok id, s')
    → dispatch writer_handler (event_of (Call.add_logged name multi_id) s) s.writer
      ≡ (ok tt, s'.writer)
unfolding subscribe
subscribe-event name multi_id id none s s' e = absurd (returned _ id s' e)
subscribe-event name multi_id id (some size) s s' e =
    let (w, sent, last) =
      written_then (dispatch writer_handler (event_of (Call.add_logged name multi_id) s))
        (record s { subscriptions = s.subscriptions ++ (size ∷ []) }) s'
        (λ _. pure (length s.subscriptions % 2 ^ 16)) id e in
    sent ∙ ap (λ p. (ok tt, (p.1).writer)) last

send-event :
    (id : ℕ) (bytes : Bytes) (o : Option ℕ) (s s' : SimpleWriter)
    → get_elem? s.subscriptions id ≡ o
    → send id bytes o s ≡ (ok tt, s')
    → dispatch writer_handler (event_of (Call.sample id bytes) s) s.writer ≡ (ok tt, s'.writer)
unfolding send
send-event id bytes none s s' found e = absurd (returned _ tt s' e)
send-event id bytes (some size) s s' found e =
    let (enough, sent) = guard_passed (ltb (length bytes) size) _ _ s s' tt e in
    ap
      (λ o.
        dispatch writer_handler
          (Event.logged_data (record { msg_id = id; payload = take (or_zero o) bytes })) s.writer)
      found
    ∙ written (Writer.write_data (record { msg_id = id; payload = take size bytes })) s s' sent

-- A format that was accepted, with the entry for it.
pub format_written :
    (name : Bytes) (fields : List Field) (s s' : SimpleWriter)
    → write_message_format name fields s ≡ (ok tt, s')
    → (size : ℕ) × (check_format field_name_char s.header_complete s.formats name fields ≡ ok size)
      × (on_writer
            (Writer.write_message_format (record { name = name; fields = fields }))
            (record s { formats = put name size s.formats })
          ≡ (ok tt, s'))
unfolding write_message_format
format_written name fields s s' e =
    by_check (check_format field_name_char s.header_complete s.formats name fields) e
  where
    by_check :
        (out : Result ℕ)
        → proceed
            (out, s)
            (λ size t.
              on_writer
                (Writer.write_message_format (record { name = name; fields = fields }))
                (record t { formats = put name size t.formats }))
          ≡ (ok tt, s')
        → (size : ℕ) × (out ≡ ok size)
          × (on_writer
                (Writer.write_message_format (record { name = name; fields = fields }))
                (record s { formats = put name size s.formats })
              ≡ (ok tt, s'))
    by_check (ok size) e = (size, refl, e)
    by_check (throw x) e = absurd (returned _ tt s' e)
    by_check fault e = absurd (returned _ tt s' e)
    by_check out_of_fuel e = absurd (returned _ tt s' e)

-- A call that returned did on its writer what the plain writer does.
pub perform-event :
    (c : Call) (s s' : SimpleWriter)
    → perform c s ≡ (ok tt, s')
    → dispatch writer_handler (event_of c s) s.writer ≡ (ok tt, s'.writer)
unfolding write_info write_parameter header_complete write_parameter_change write_text_message
    write_add_logged_message write_data_impl
perform-event (Call.info key value) s s' e =
    written (dispatch writer_handler (event_of (Call.info key value) s)) s s'
      (guard_passed s.header_complete _ _ s s' tt e).1
perform-event (Call.parameter key value) s s' e =
    written (dispatch writer_handler (event_of (Call.parameter key value) s)) s s'
      (guard_passed s.header_complete _ _ s s' tt e).1
perform-event (Call.format name fields) s s' e =
    let (size, checked, sent) = format_written name fields s s' e in
    written (Writer.write_message_format (record { name = name; fields = fields }))
      (record s { formats = put name size s.formats }) s' sent
perform-event Call.complete s s' e =
    let (w, sent, last) =
      written_then Writer.write_header_complete s s'
        (λ _. modify (λ t. record t { header_complete = true })) tt
        (guard_passed s.header_complete _ _ s s' tt e).1 in
    sent ∙ ap (λ p. (ok tt, (p.1).writer)) last
perform-event (Call.parameter_change key value) s s' e =
    written (dispatch writer_handler (event_of (Call.parameter_change key value) s)) s s'
      (guard_passed (not s.header_complete) _ _ s s' tt e).1
perform-event (Call.text level message timestamp) s s' e =
    written (dispatch writer_handler (event_of (Call.text level message timestamp) s)) s s'
      (guard_passed (not s.header_complete) _ _ s s' tt e).1
perform-event (Call.add_logged name multi_id) s s' e =
    let (id, k, added, last) = proceed-ok (write_add_logged_message name multi_id s) _ tt s' e in
    subscribe-event name multi_id id (lookup name s.formats) s k
      (guard_passed (not s.header_complete) _ _ s k id added).1
    ∙ ap (λ p. (ok tt, (p.1).writer)) last
perform-event (Call.sample id bytes) s s' e =
    send-event id bytes (get_elem? s.subscriptions id) s s' refl
      (guard_passed (not s.header_complete) _ _ s s' tt e).1

-- Calls of a simple writer that all return write what the plain writer writes for their trace, which
-- accepts every call of it.
pub perform_all-trace :
    (cs : List Call) (s s' : SimpleWriter)
    → perform_all cs s ≡ (ok tt, s')
    → run writer_handler (trace cs s) s.writer ≡ (ok tt, s'.writer)
unfolding run perform_all trace
perform_all-trace [] s s' e = ap (λ p. (ok tt, (p.1).writer)) e
perform_all-trace (c ∷ cs) s s' e =
    let (u, k, first, rest) = proceed-ok (perform c s) _ tt s' e in
    ap (λ out. proceed out (λ _. run writer_handler (trace cs (perform c s).1)))
      (perform-event c s k first)
    ∙ ap (λ t. run writer_handler (trace cs t) k.writer) (ap (λ p. p.1) first)
    ∙ perform_all-trace cs k s' rest

ltb-false : (a b : ℕ) → ltb a b ≡ false → b ≤ a
ltb-false a b e = ground (arith, e)

-- A sample that was accepted has as many bytes as its subscription asks for, or more.
pub sample_enough :
    (id : ℕ) (bytes : Bytes) (s s' : SimpleWriter)
    → perform (Call.sample id bytes) s ≡ (ok tt, s')
    → (get_elem? s.subscriptions id ≡ some (expected_size id s))
      × (expected_size id s ≤ length bytes)
unfolding write_data_impl
sample_enough id bytes s s' e =
    by_size (get_elem? s.subscriptions id) (guard_passed (not s.header_complete) _ _ s s' tt e).1
  where
    by_size :
        (o : Option ℕ)
        → send id bytes o s ≡ (ok tt, s')
        → (o ≡ some (or_zero o)) × (or_zero o ≤ length bytes)
    by_size none e = absurd (returned _ tt s' e)
    by_size (some size) e = (
      refl,
      ltb-false (length bytes) size (guard_passed (ltb (length bytes) size) _ _ s s' tt e).0,
    )

-- A subscription that was accepted is for a format that was defined.
pub add_logged_known :
    (name : Bytes) (multi_id : ℕ) (s s' : SimpleWriter)
    → perform (Call.add_logged name multi_id) s ≡ (ok tt, s')
    → (size : ℕ) × (lookup name s.formats ≡ some size)
unfolding write_add_logged_message
add_logged_known name multi_id s s' e =
    let (id, k, added, last) = proceed-ok (write_add_logged_message name multi_id s) _ tt s' e in
    by_size (lookup name s.formats) k id (guard_passed (not s.header_complete) _ _ s k id added).1
  where
    by_size :
        (o : Option ℕ) (k : SimpleWriter) (id : ℕ)
        → subscribe name multi_id o s ≡ (ok id, k)
        → (size : ℕ) × (o ≡ some size)
    by_size none k id e = absurd (returned _ id k e)
    by_size (some size) k id e = (size, refl)
