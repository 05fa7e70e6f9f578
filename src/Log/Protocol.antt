-- ===== src/Log/Protocol.antt =====
-- src/writer.cpp: the order of calls that a writer accepts.
use my_ulog.Base.{
  ◌≡◌, refl, sym, ap, subst, ◌∙◌, ◌↔◌, List, [], ◌∷◌, ◌++◌, Bool, true, false, not, All, arith,
}
use my_ulog.Base.Bytes.{Bytes}
use my_ulog.Base.Result.{Result, ok, Exception}
use my_ulog.Base.Action.{proceed-ok, proceed, raise_if}
use my_ulog.Handler.{Event, dispatch, run}
use my_ulog.Writer.{
  Writer, emit, writer_handler, write_header_complete, write_file_header, write_message_info,
  write_message_format, write_parameter, write_parameter_default, write_add_logged_message,
  write_logging, write_data, write_dropout, write_sync,
}
use my_ulog.Log.Frames.{serialized}
use my_ulog.Log.Runs.{Wrote, emit-Wrote, guarded}

-- Formats belong in front of the end of the header, subscriptions behind it.
abbrev pub Allowed : Bool → Event → Type 0
Allowed complete (Event.message_format x) = complete ≡ false
Allowed complete (Event.add_logged_message x) = complete ≡ true
Allowed complete _ = Unit

abbrev pub after : Bool → Event → Bool
after complete Event.header_complete = true
after complete _ = complete

abbrev pub IsOrdered : Bool → List Event → Type 0
IsOrdered complete [] = Unit
IsOrdered complete (e ∷ es) = Allowed complete e × IsOrdered (after complete e) es

-- The serialiser of the call's message returns.
abbrev pub IsSerializable : Event → Type 0
IsSerializable e = (ws : List Bytes) × (serialized e ≡ ok ws)

-- What a call that returned says, and what makes it return.
abbrev pub Accepted : Event → Writer → Writer → Type 0
Accepted e w v =
    Allowed w.header_complete e × IsSerializable e × (v.header_complete ≡ after w.header_complete e)

not-false : (b : Bool) → not b ≡ false → b ≡ true
not-false b e = ground (arith, e)

written-Accepted :
    (written : Result (List Bytes)) (w v : Writer)
    → Wrote written w v
    → ((ws : List Bytes) × (written ≡ ok ws)) × (v.header_complete ≡ w.header_complete)
unfolding Wrote
written-Accepted written w v (ws, e, out, flag) = ((ws, e), flag)

emitted :
    (written : Result (List Bytes)) (w v : Writer)
    → emit written w ≡ (ok tt, v)
    → Unit {0} × ((ws : List Bytes) × (written ≡ ok ws)) × (v.header_complete ≡ w.header_complete)
emitted written w v e =
    let (serializable, flag) = written-Accepted written w v (emit-Wrote written w v e) in
    (tt, serializable, flag)

pub call-Accepted :
    (e : Event) (w v : Writer) → dispatch writer_handler e w ≡ (ok tt, v) → Accepted e w v
unfolding write_header_complete write_file_header write_message_info write_message_format
    write_parameter write_parameter_default write_add_logged_message write_logging write_data
    write_dropout write_sync
call-Accepted Event.header_complete w v e =
    (tt, ([], refl), sym (ap (λ p. (p.1).header_complete) e))
call-Accepted (Event.error x y) w v e = (tt, ([], refl), sym (ap (λ p. (p.1).header_complete) e))
call-Accepted (Event.message_format x) w v e =
    let (allowed, wrote) = guarded w.header_complete _ _ w v e in
    let (serializable, flag) = written-Accepted _ w v wrote in (allowed, serializable, flag)
call-Accepted (Event.add_logged_message x) w v e =
    let (allowed, wrote) = guarded (not w.header_complete) _ _ w v e in
    let (serializable, flag) = written-Accepted _ w v wrote in
    (not-false w.header_complete allowed, serializable, flag)
call-Accepted (Event.file_header x) w v e = emitted _ w v e
call-Accepted (Event.message_info x) w v e = emitted _ w v e
call-Accepted (Event.parameter x) w v e = emitted _ w v e
call-Accepted (Event.parameter_default x) w v e = emitted _ w v e
call-Accepted (Event.logging x) w v e = emitted _ w v e
call-Accepted (Event.logged_data x) w v e = emitted _ w v e
call-Accepted (Event.dropout x) w v e = emitted _ w v e
call-Accepted (Event.sync x) w v e = emitted _ w v e

-- A call that returns, with the flag that it leaves.
abbrev pub Returns : Event → Writer → Type 0
Returns e w =
    (v : Writer) × (dispatch writer_handler e w ≡ (ok tt, v))
    × (v.header_complete ≡ after w.header_complete e)

emit-Returns :
    (written : Result (List Bytes)) (w : Writer) (ws : List Bytes)
    → written ≡ ok ws
    → (v : Writer) × (emit written w ≡ (ok tt, v)) × (v.header_complete ≡ w.header_complete)
unfolding emit
emit-Returns written w ws e = (record w { output = w.output ++ ws }, ap (λ r. emit r w) e, refl)

guarded-Returns :
    (b : Bool) (x : Exception) (written : Result (List Bytes)) (w : Writer) (ws : List Bytes)
    → b ≡ false
    → written ≡ ok ws
    → (v : Writer) × (proceed (raise_if b x w) (λ _. emit written) ≡ (ok tt, v))
      × (v.header_complete ≡ w.header_complete)
guarded-Returns true x written w ws e h = absurd (ground (arith, e))
guarded-Returns false x written w ws e h = emit-Returns written w ws h

pub call-Returns :
    (e : Event) (w : Writer) → Allowed w.header_complete e → IsSerializable e → Returns e w
unfolding write_header_complete write_file_header write_message_info write_message_format
    write_parameter write_parameter_default write_add_logged_message write_logging write_data
    write_dropout write_sync
call-Returns Event.header_complete w a s = (_, refl, refl)
call-Returns (Event.error x y) w a s = (w, refl, refl)
call-Returns (Event.message_format x) w a (ws, s) = guarded-Returns w.header_complete _ _ w ws a s
call-Returns (Event.add_logged_message x) w a (ws, s) =
    guarded-Returns (not w.header_complete) _ _ w ws (ap not a) s
call-Returns (Event.file_header x) w a (ws, s) = emit-Returns _ w ws s
call-Returns (Event.message_info x) w a (ws, s) = emit-Returns _ w ws s
call-Returns (Event.parameter x) w a (ws, s) = emit-Returns _ w ws s
call-Returns (Event.parameter_default x) w a (ws, s) = emit-Returns _ w ws s
call-Returns (Event.logging x) w a (ws, s) = emit-Returns _ w ws s
call-Returns (Event.logged_data x) w a (ws, s) = emit-Returns _ w ws s
call-Returns (Event.dropout x) w a (ws, s) = emit-Returns _ w ws s
call-Returns (Event.sync x) w a (ws, s) = emit-Returns _ w ws s

run-IsOrdered :
    (es : List Event) (w v : Writer)
    → run writer_handler es w ≡ (ok tt, v)
    → IsOrdered w.header_complete es × All IsSerializable es
unfolding run
run-IsOrdered [] w v e = (tt, tt)
run-IsOrdered (x ∷ xs) w v e =
    let (u, k, first, rest) = proceed-ok (dispatch writer_handler x w) _ tt v e in
    let (allowed, serializable, flag) = call-Accepted x w k first in
    let (ordered, all) = run-IsOrdered xs k v rest in
    ((allowed, subst (λ b. IsOrdered b xs) flag ordered), (serializable, all))

IsOrdered-run :
    (es : List Event) (w : Writer)
    → IsOrdered w.header_complete es
    → All IsSerializable es
    → (v : Writer) × (run writer_handler es w ≡ (ok tt, v))
unfolding run
IsOrdered-run [] w o s = (w, refl)
IsOrdered-run (x ∷ xs) w (allowed, ordered) (serializable, all) =
    let (k, first, flag) = call-Returns x w allowed serializable in
    let (v, rest) = IsOrdered-run xs k (subst (λ b. IsOrdered b xs) (sym flag) ordered) all in
    (v, ap (λ out. proceed out (λ _. run writer_handler xs)) first ∙ rest)

-- A run of a writer returns exactly if no format comes behind the end of the header, no subscription in
-- front of it, and the serialiser of every message returns.
pub run-writer_iff :
    (es : List Event) (w : Writer)
    → ((v : Writer) × (run writer_handler es w ≡ (ok tt, v)))
      ↔ (IsOrdered w.header_complete es × All IsSerializable es)
run-writer_iff es w = (λ (v, e). run-IsOrdered es w v e, λ (o, s). IsOrdered-run es w o s)
