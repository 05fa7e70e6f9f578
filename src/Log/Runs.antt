-- ===== src/Log/Runs.antt =====
-- Runs of a writer and of any other handler over the same calls: the writer's output is the messages
-- that take a reader through the other run.
use my_ulog.Base.{
  ◌≡◌, refl, sym, ap, ◌∙◌, List, [], ◌∷◌, ◌++◌, Bool, true, false, not, All, append_assoc,
  append-nil, some,
}
use my_ulog.Base.Bytes.{Bytes, flatten}
use my_ulog.Base.Result.{Result, ok, throw, fault, out_of_fuel, Exception}
use my_ulog.Base.Action.{Action, proceed, raise_if, returned, proceed-ok}
use my_ulog.Handler.{DataHandler, Event, dispatch, run}
use my_ulog.Writer.{
  Writer, emit, writer_handler, write_message_info, write_message_format, write_parameter,
  write_parameter_default, write_add_logged_message, write_logging, write_data, write_dropout,
  write_sync,
}
use my_ulog.Reader.State.{Phase}
use my_ulog.Reader.Message.{header_message}
use my_ulog.Reader.Stream.{TakesAll}
use my_ulog.Reader.Delivery.{header-Takes, data-Takes, first-Takes}
use my_ulog.Log.Frames.{
  serialized, IsWritable, IsDefinition, IsFirst, IsDatum, header-Reads, data-Reads, first-completes,
}

-- The bytes of a call's message.
abbrev pub frame_of : Result (List Bytes) → Bytes
frame_of (ok ws) = flatten ws
frame_of _ = []

abbrev pub frames : List Event → List Bytes
frames [] = []
frames (e ∷ es) = frame_of (serialized e) ∷ frames es

pub flatten-append : (xs ys : List Bytes) → flatten (xs ++ ys) ≡ flatten xs ++ flatten ys
flatten-append [] ys = refl
flatten-append (x ∷ xs) ys =
    ap (λ t. x ++ t) (flatten-append xs ys) ∙ sym (append_assoc x (flatten xs) (flatten ys))

proceed_assoc :
    {S A B C : Type 0} (out : Result A × S) (f : A → Action S B) (g : B → Action S C)
    → proceed out (λ a s. proceed (f a s) g) ≡ proceed (proceed out f) g
proceed_assoc (ok a, s) f g = refl
proceed_assoc (throw x, s) f g = refl
proceed_assoc (fault, s) f g = refl
proceed_assoc (out_of_fuel, s) f g = refl

proceed_ext :
    {S A B : Type 0} (out : Result A × S) (f g : A → Action S B)
    → ((a : A) (s : S) → f a s ≡ g a s)
    → proceed out f ≡ proceed out g
proceed_ext (ok a, s) f g same = same a s
proceed_ext (throw x, s) f g same = refl
proceed_ext (fault, s) f g same = refl
proceed_ext (out_of_fuel, s) f g same = refl

pub run-append :
    {H : Type 0} (handler : DataHandler H) (xs ys : List Event) (h : H)
    → run handler (xs ++ ys) h ≡ proceed (run handler xs h) (λ _. run handler ys)
unfolding run
run-append handler [] ys h = refl
run-append {H} handler (x ∷ xs) ys h =
    proceed_ext (dispatch handler x h) (λ _. run handler (xs ++ ys))
      (λ _ k. proceed (run handler xs k) (λ _. run handler ys)) (λ _ k. run-append handler xs ys k)
    ∙ proceed_assoc (dispatch handler x h) (λ u. run handler xs) (λ u. run handler ys)

-- What a write that returned has appended.
unfoldable pub Wrote : Result (List Bytes) → Writer → Writer → Type 0
Wrote written w w' =
    (ws : List Bytes) × (written ≡ ok ws)
    × (w'.output ≡ w.output ++ ws)
    × (w'.header_complete ≡ w.header_complete)

pub emit-Wrote :
    (written : Result (List Bytes)) (w w' : Writer)
    → emit written w ≡ (ok tt, w')
    → Wrote written w w'
unfolding emit Wrote
emit-Wrote (ok ws) w w' e =
    let same = ap (λ p. p.1) e in
    (ws, refl, sym (ap (λ v. v.output) same), sym (ap (λ v. v.header_complete) same))
emit-Wrote (throw x) w w' e = absurd (returned (throw x, w) tt w' e)
emit-Wrote fault w w' e = absurd (returned (fault, w) tt w' e)
emit-Wrote out_of_fuel w w' e = absurd (returned (out_of_fuel, w) tt w' e)

pub guarded :
    (b : Bool) (x : Exception) (written : Result (List Bytes)) (w w' : Writer)
    → proceed (raise_if b x w) (λ _. emit written) ≡ (ok tt, w')
    → (b ≡ false) × Wrote written w w'
guarded true x written w w' e = absurd (returned (throw x, w) tt w' e)
guarded false x written w w' e = (refl, emit-Wrote written w w' e)

-- A method of the writer that returned has appended the call's message.
pub write-Wrote :
    (e : Event) (w w' : Writer)
    → IsWritable e
    → dispatch writer_handler e w ≡ (ok tt, w')
    → Wrote (serialized e) w w'
unfolding write_message_info write_message_format write_parameter write_parameter_default
    write_add_logged_message write_logging write_data write_dropout write_sync
write-Wrote (Event.message_info x) w w' h e = emit-Wrote _ w w' e
write-Wrote (Event.parameter x) w w' h e = emit-Wrote _ w w' e
write-Wrote (Event.message_format x) w w' h e = (guarded w.header_complete _ _ w w' e).1
write-Wrote (Event.parameter_default x) w w' h e = emit-Wrote _ w w' e
write-Wrote (Event.add_logged_message x) w w' h e = (guarded (not w.header_complete) _ _ w w' e).1
write-Wrote (Event.logging x) w w' h e = emit-Wrote _ w w' e
write-Wrote (Event.logged_data x) w w' h e = emit-Wrote _ w w' e
write-Wrote (Event.dropout x) w w' h e = emit-Wrote _ w w' e
write-Wrote (Event.sync x) w w' h e = emit-Wrote _ w w' e
write-Wrote Event.header_complete w w' h e = absurd h
write-Wrote (Event.error x y) w w' h e = absurd h
write-Wrote (Event.file_header x) w w' h e = absurd h

-- What a run of the writer appends.
unfoldable pub Appended : List Event → Writer → Writer → Type 0
Appended es w w' =
    All (λ e. (ws : List Bytes) × (serialized e ≡ ok ws)) es
    × (flatten w'.output ≡ flatten w.output ++ flatten (frames es))

pub run-Appended :
    (es : List Event) (w w' : Writer)
    → All IsWritable es
    → run writer_handler es w ≡ (ok tt, w')
    → Appended es w w'
unfolding run Appended Wrote
run-Appended [] w w' h e =
    (tt, ap (λ p. flatten ((p.1).output)) (sym e) ∙ sym (append-nil (flatten w.output)))
run-Appended (x ∷ xs) w w' (h, hs) e =
    let (u, v, first, rest) = proceed-ok (dispatch writer_handler x w) _ tt w' e in
    let (ws, written, out, flag) = write-Wrote x w v h first in
    let (all_written, grown) = run-Appended xs v w' hs rest in
    (
      ((ws, written), all_written),
      grown
          ∙ ap (λ t. t ++ flatten (frames xs))
              (ap flatten out
                ∙ flatten-append w.output ws
                ∙ ap (λ t. flatten w.output ++ frame_of t) (sym written))
          ∙ append_assoc (flatten w.output) (frame_of (serialized x)) (flatten (frames xs)),
    )

module _ {H : Type 0} (handler : DataHandler H) where
  pub TakesAll-append :
      (fs gs : List Bytes) (p q r : Phase) (h k l : H)
      → TakesAll handler fs p h q k
      → TakesAll handler gs q k r l
      → TakesAll handler (fs ++ gs) p h r l
  TakesAll-append [] gs p q r h k l (reading, e, e') t = rw (e, e') t
  TakesAll-append (f ∷ fs) gs p q r h k l (p1, h1, take, takes) t =
      (p1, h1, take, TakesAll-append fs gs p1 q r h1 k l takes t)

  -- The definitions, and then the data.
  pub header_run-TakesAll :
      (es : List Event) (h h' : H)
      → All IsWritable es
      → All IsDefinition es
      → All (λ e. (ws : List Bytes) × (serialized e ≡ ok ws)) es
      → run handler es h ≡ (ok tt, h')
      → TakesAll handler (frames es) Phase.read_header h Phase.read_header h'
  unfolding run
  header_run-TakesAll [] h h' hs ds ws e = (tt, refl, ap (λ p. p.1) e)
  header_run-TakesAll (x ∷ xs) h h' (hx, hs) (dx, ds) ((w, written), ws) e =
      let (u, k, first, rest) = proceed-ok (dispatch handler x h) _ tt h' e in
      let (m, type, calls) = header-Reads handler x w hx dx written in
      (
        Phase.read_header,
        k,
        rw written (header-Takes handler x (flatten w) h k m calls first),
        header_run-TakesAll xs k h' hs ds ws rest,
      )

  pub data_run-TakesAll :
      (es : List Event) (h h' : H)
      → All IsWritable es
      → All IsDatum es
      → All (λ e. (ws : List Bytes) × (serialized e ≡ ok ws)) es
      → run handler es h ≡ (ok tt, h')
      → TakesAll handler (frames es) Phase.read_data h Phase.read_data h'
  unfolding run
  data_run-TakesAll [] h h' hs ds ws e = (tt, refl, ap (λ p. p.1) e)
  data_run-TakesAll (x ∷ xs) h h' (hx, hs) (dx, ds) ((w, written), ws) e =
      let (u, k, first, rest) = proceed-ok (dispatch handler x h) _ tt h' e in
      let (m, type, calls) = data-Reads handler x w hx dx written in
      (
        Phase.read_data,
        k,
        rw written (data-Takes handler x (flatten w) h k m calls first),
        data_run-TakesAll xs k h' hs ds ws rest,
      )

  -- The data as a reader finds it behind the definitions.
  pub first_run-TakesAll :
      (x : Event) (es : List Event) (h k h' : H)
      → All IsWritable (x ∷ es)
      → IsFirst x
      → All IsDatum (x ∷ es)
      → All (λ e. (ws : List Bytes) × (serialized e ≡ ok ws)) (x ∷ es)
      → handler.header_complete h ≡ (ok tt, k)
      → run handler (x ∷ es) k ≡ (ok tt, h')
      → TakesAll handler (frames (x ∷ es)) Phase.read_header h Phase.read_data h'
  unfolding run
  first_run-TakesAll x xs h k h' (hx, hs) fx (dx, ds) ((w, written), ws) completed e =
      let (u, l, first, rest) = proceed-ok (dispatch handler x k) _ tt h' e in
      let (m, type, calls) = data-Reads handler x w hx dx written in
      (
        Phase.read_data,
        l,
        rw written (
            first-Takes handler x (flatten w) h k l m
              (λ tail r.
                ap (λ t. header_message handler (some t) (flatten w ++ tail) r) type
                ∙ first-completes handler x (flatten w ++ tail) r fx)
              calls completed first),
        data_run-TakesAll xs l h' hs ds ws rest,
      )
