-- ===== src/Log/SimpleProtocol.antt =====
-- src/simple_writer.cpp: the calls that a simple writer accepts.
use my_ulog.Base.{
  or_zero, ℕ, ◌%◌, ◌^◌, ◌≤◌, ◌≡◌, refl, sym, ap, ◌∙◌, ◌↔◌, Bool, true, false, not, some, List, [],
  ◌∷◌, ◌++◌, length, take, get_elem?, ltb, ge→ltb,
}
use my_ulog.Base.Bytes.{Bytes}
use my_ulog.Base.Dict.{bytes_key, lookup, put}
use my_ulog.Base.Result.{Result, ok, Exception}
use my_ulog.Base.Action.{Action, proceed, pure, modify, raise_if, proceed-ok}
use my_ulog.Handler.{Event, dispatch}
use my_ulog.Messages.Field.{Field}
use my_ulog.Checks.{field_name_char, check_format}
use my_ulog.Checks.Accepted.{IsAccepted, check_format-IsAccepted, not-false}
use my_ulog.Writer
use my_ulog.Writer.{Writer, writer_handler}
use my_ulog.SimpleWriter.{
  SimpleWriter, Call, setting_info, on_writer, write_info, write_parameter, write_message_format,
  header_complete, write_parameter_change, write_text_message, write_add_logged_message,
  write_data_impl, perform, subscribe, send,
}
use my_ulog.SimpleWriter.Trace.{
  event_of, expected_size, perform-event, guard_passed, format_written, sample_enough,
  add_logged_known,
}
use my_ulog.SimpleWriter.Consistent.{IsConsistent}
use my_ulog.Log.Protocol.{Allowed, IsSerializable, call-Accepted, call-Returns}

-- What a call asks of the state of the writer.
abbrev pub IsMet : Call → SimpleWriter → Type 0
IsMet (Call.info key value) s = s.header_complete ≡ false
IsMet (Call.parameter key value) s = s.header_complete ≡ false
IsMet (Call.format name fields) s =
    (size : ℕ) × (s.header_complete ≡ false) × IsAccepted field_name_char s.formats name fields size
IsMet Call.complete s = s.header_complete ≡ false
IsMet (Call.parameter_change key value) s = s.header_complete ≡ true
IsMet (Call.add_logged name multi_id) s =
    (size : ℕ) × (s.header_complete ≡ true) × (lookup name s.formats ≡ some size)
IsMet (Call.text level message timestamp) s = s.header_complete ≡ true
IsMet (Call.sample id bytes) s =
    (size : ℕ) × (s.header_complete ≡ true)
    × (get_elem? s.subscriptions id ≡ some size)
    × (size ≤ length bytes)

perform-IsMet : (c : Call) (s s' : SimpleWriter) → perform c s ≡ (ok tt, s') → IsMet c s
unfolding write_info write_parameter header_complete write_parameter_change write_text_message
    write_add_logged_message write_data_impl
perform-IsMet (Call.info key value) s s' e = (guard_passed s.header_complete _ _ s s' tt e).0
perform-IsMet (Call.parameter key value) s s' e = (guard_passed s.header_complete _ _ s s' tt e).0
perform-IsMet (Call.format name fields) s s' e =
    let (size, checked, sent) = format_written name fields s s' e in
    let (early, accepted) =
      check_format-IsAccepted field_name_char s.header_complete s.formats name fields size
        checked in
    (size, early, accepted)
perform-IsMet Call.complete s s' e = (guard_passed s.header_complete _ _ s s' tt e).0
perform-IsMet (Call.parameter_change key value) s s' e =
    not-false s.header_complete (guard_passed (not s.header_complete) _ _ s s' tt e).0
perform-IsMet (Call.text level message timestamp) s s' e =
    not-false s.header_complete (guard_passed (not s.header_complete) _ _ s s' tt e).0
perform-IsMet (Call.add_logged name multi_id) s s' e =
    let (size, known) = add_logged_known name multi_id s s' e in
    let (id, k, added, last) = proceed-ok (write_add_logged_message name multi_id s) _ tt s' e in
    (
      size,
      not-false s.header_complete (guard_passed (not s.header_complete) _ _ s k id added).0,
      known,
    )
perform-IsMet (Call.sample id bytes) s s' e =
    let (subscribed, enough) = sample_enough id bytes s s' e in
    (
      expected_size id s,
      not-false s.header_complete (guard_passed (not s.header_complete) _ _ s s' tt e).0,
      subscribed,
      enough,
    )

-- The call of the plain writer comes where it may.
IsMet-Allowed :
    (c : Call) (s : SimpleWriter)
    → IsConsistent s
    → IsMet c s
    → Allowed (s.writer).header_complete (event_of c s)
IsMet-Allowed (Call.format name fields) s h (size, early, accepted) = sym h.flag ∙ early
IsMet-Allowed (Call.add_logged name multi_id) s h (size, late, known) = sym h.flag ∙ late
IsMet-Allowed (Call.info key value) s h m = tt
IsMet-Allowed (Call.parameter key value) s h m = tt
IsMet-Allowed Call.complete s h m = tt
IsMet-Allowed (Call.parameter_change key value) s h m = tt
IsMet-Allowed (Call.text level message timestamp) s h m = tt
IsMet-Allowed (Call.sample id bytes) s h m = tt

IsAccepted-check_format :
    (class : ℕ → Bool) (complete : Bool) (formats : List (Bytes × ℕ)) (name : Bytes)
    (fields : List Field) (size : ℕ)
    → complete ≡ false
    → IsAccepted class formats name fields size
    → check_format class complete formats name fields ≡ ok size
unfolding check_format
IsAccepted-check_format class complete formats name fields size early h =
    rw (early, h.timestamp_first, h.new_name, h.valid_name, h.valid_fields) h.summed

-- A guard that lets a call through.
passes :
    {S A : Type 0} (b : Bool) (x : Exception) (m : Action S A) (s : S) (out : Result A × S)
    → b ≡ false
    → m s ≡ out
    → proceed (raise_if b x s) (λ _. m) ≡ out
passes b x m s out e f = ap (λ t. proceed (raise_if t x s) (λ _. m)) e ∙ f

writes :
    (m : Action Writer (Unit {0})) (s : SimpleWriter) (v : Writer)
    → m s.writer ≡ (ok tt, v)
    → on_writer m s ≡ (ok tt, record s { writer = v })
unfolding on_writer
writes m s v e = ap (λ p. (p.0, record s { writer = p.1 })) e

writes_then :
    {B : Type 0} (m : Action Writer (Unit {0})) (s : SimpleWriter) (v : Writer)
    (f : Unit {0} → Action SimpleWriter B) (out : Result B × SimpleWriter)
    → m s.writer ≡ (ok tt, v)
    → f tt (record s { writer = v }) ≡ out
    → proceed (on_writer m s) f ≡ out
writes_then m s v f out e k = ap (λ p. proceed p f) (writes m s v e) ∙ k

sent :
    (c : Call) (s : SimpleWriter) (v : Writer)
    → IsMet c s
    → dispatch writer_handler (event_of c s) s.writer ≡ (ok tt, v)
    → (s' : SimpleWriter) × (perform c s ≡ (ok tt, s'))
unfolding write_info write_parameter header_complete write_parameter_change write_text_message
    write_add_logged_message write_data_impl write_message_format subscribe send
sent (Call.info key value) s v m e = (
  _,
  passes s.header_complete _ _ s _ m
      (writes (Writer.write_message_info (setting_info key value)) s v e),
)
sent (Call.parameter key value) s v m e = (
  _,
  passes s.header_complete _ _ s _ m
      (writes (Writer.write_parameter (setting_info key value)) s v e),
)
sent (Call.format name fields) s v (size, early, accepted) e =
    let write = Writer.write_message_format (record { name = name; fields = fields }) in
    (
      _,
      ap
            (λ out.
              proceed (out, s)
                (λ n t. on_writer write (record t { formats = put name n t.formats })))
            (IsAccepted-check_format field_name_char s.header_complete s.formats name fields size
              early accepted)
          ∙ writes write (record s { formats = put name size s.formats }) v e,
    )
sent Call.complete s v m e = (
  _,
  passes s.header_complete _ _ s _ m (
      writes_then Writer.write_header_complete s v
        (λ _. modify (λ t. record t { header_complete = true })) _ e refl),
)
sent (Call.parameter_change key value) s v m e = (
  _,
  passes (not s.header_complete) _ _ s _ (ap not m)
      (writes (Writer.write_parameter (setting_info key value)) s v e),
)
sent (Call.text level message timestamp) s v m e = (
  _,
  passes (not s.header_complete) _ _ s _ (ap not m)
      (writes (dispatch writer_handler (event_of (Call.text level message timestamp) s)) s v e),
)
sent (Call.add_logged name multi_id) s v (size, late, known) e =
    let id = length s.subscriptions % 2 ^ 16 in
    let k = record s { subscriptions = s.subscriptions ++ (size ∷ []) } in
    let added : subscribe name multi_id (lookup name s.formats) s
        ≡ (ok id, record k { writer = v }) =
      ap (λ o. subscribe name multi_id o s) known
      ∙ writes_then
          (Writer.write_add_logged_message
            (record { multi_id = multi_id; msg_id = id; message_name = name }))
          k v (λ _. pure id) _ e refl in
    (
      _,
      ap (λ p. proceed p (λ _. pure tt))
          (passes (not s.header_complete) _ _ s _ (ap not late) added),
    )
sent (Call.sample id bytes) s v (size, late, subscribed, enough) e =
    let here =
      ap
        (λ o.
          dispatch writer_handler
            (Event.logged_data (record { msg_id = id; payload = take (or_zero o) bytes })) s.writer)
        (sym subscribed)
      ∙ e in
    (
      _,
      passes (not s.header_complete) _ _ s _ (ap not late) (
          ap (λ o. send id bytes o s) subscribed
          ∙ passes (ltb (length bytes) size) _ _ s _ (ge→ltb (length bytes) size enough) (
              writes (Writer.write_data (record { msg_id = id; payload = take size bytes })) s v
                here)),
    )

-- A call of a simple writer whose state is consistent, as after any calls, returns exactly if it comes
-- where it may: definitions in front of the end of the header, and with a format that the checks accept,
-- all else behind it, with a format or an id that is known and memory that is large enough; and if the
-- serialiser of its message returns.
pub perform_iff :
    (c : Call) (s : SimpleWriter)
    → IsConsistent s
    → ((s' : SimpleWriter) × (perform c s ≡ (ok tt, s')))
      ↔ (IsMet c s × IsSerializable (event_of c s))
perform_iff c s h = (
  λ (s', e). (
    perform-IsMet c s s' e,
    (call-Accepted (event_of c s) s.writer s'.writer (perform-event c s s' e)).1,
  ),
  λ (m, serializable).
      let (v, e, flag) =
        call-Returns (event_of c s) s.writer (IsMet-Allowed c s h m) serializable in
      sent c s v m e,
)
