-- ===== src/Log/Frames.antt =====
-- The message of each call of a handler: its bytes, and the call that the reader makes for them.
use my_ulog.Base.{
  ℕ, ◌≤◌, ◌<◌, ◌≡◌, refl, sym, ap, ◌∙◌, List, [], ◌++◌, Bool, true, false, some, arith, length,
  if◌then◌else◌, ◌==◌,
}
use my_ulog.Base.Bytes.{Bytes, flatten}
use my_ulog.Base.Result.{Result, ok, throw, parsing, message_too_short, ok-injective}
use my_ulog.Base.Action.{Action}
use my_ulog.Handler.{DataHandler, Event}
use my_ulog.Messages.Raw.{UlogMessageType}
use my_ulog.Messages.FileHeader.{serialize_file_header}
use my_ulog.Messages.Info.{parse_info, serialize_info}
use my_ulog.Messages.Info.RoundTrip.{IsInfo, parse_info-serialize, serialize_info-IsFrame}
use my_ulog.Messages.Format.{
  serialize_format, IsFormat, parse_format-serialize, serialize_format-IsFrame,
}
use my_ulog.Messages.ParameterDefault.{
  serialize_parameter_default, IsParameterDefault, parse_parameter_default-serialize,
  serialize_parameter_default-IsFrame,
}
use my_ulog.Messages.AddLogged.{
  serialize_add_logged, IsAddLogged, parse_add_logged-serialize, serialize_add_logged-IsFrame,
}
use my_ulog.Messages.Logging.{parse_logging, serialize_logging}
use my_ulog.Messages.Logging.RoundTrip.{
  IsLogging, parse_logging-serialize, serialize_logging-IsFrame,
}
use my_ulog.Messages.Data.{serialize_data, IsData, parse_data-serialize, serialize_data-IsFrame}
use my_ulog.Messages.Dropout.{Dropout, parse_dropout, serialize_dropout, parse_dropout-serialize}
use my_ulog.Messages.Sync.{Sync, parse_sync, serialize_sync, parse_sync-serialize}
use my_ulog.Reader.State.{Reader, call}
use my_ulog.Reader.Message.{deliver, complete_header, header_message, data_message}
use my_ulog.Reader.Delivery.{IsMessage, Calls}

-- What a writer writes for a call of one of its methods.
abbrev pub serialized : Event → Result (List Bytes)
serialized Event.header_complete = ok []
serialized (Event.error msg is_recoverable) = ok []
serialized (Event.file_header x) = ok (serialize_file_header x)
serialized (Event.message_info x) = serialize_info x UlogMessageType.info
serialized (Event.parameter x) = serialize_info x UlogMessageType.parameter
serialized (Event.message_format x) = serialize_format x
serialized (Event.parameter_default x) = serialize_parameter_default x
serialized (Event.add_logged_message x) = serialize_add_logged x
serialized (Event.logging x) = serialize_logging x
serialized (Event.logged_data x) = serialize_data x
serialized (Event.dropout x) = serialize_dropout x
serialized (Event.sync x) = serialize_sync x

-- The type of the message.
abbrev pub message_type : Event → UlogMessageType
message_type (Event.message_info x) =
    if x.is_multi then UlogMessageType.info_multiple else UlogMessageType.info
message_type (Event.parameter x) = UlogMessageType.parameter
message_type (Event.message_format x) = UlogMessageType.format
message_type (Event.parameter_default x) = UlogMessageType.parameter_default
message_type (Event.add_logged_message x) = UlogMessageType.add_logged_msg
message_type (Event.logging x) =
    if x.has_tag then UlogMessageType.logging_tagged else UlogMessageType.logging
message_type (Event.logged_data x) = UlogMessageType.logged_data
message_type (Event.dropout x) = UlogMessageType.dropout
message_type (Event.sync x) = UlogMessageType.sync
message_type _ = UlogMessageType.flag_bits

-- A call with a message that has a form of its own in a file: the values fit their types, and nothing
-- is empty that the parser wants to be there. A multi message is written as an information message.
abbrev pub IsWritable : Event → Type 0
IsWritable (Event.message_info x) = IsInfo x
IsWritable (Event.parameter x) = IsInfo x × (x.is_multi ≡ false)
IsWritable (Event.message_format x) = IsFormat x
IsWritable (Event.parameter_default x) = IsParameterDefault x
IsWritable (Event.add_logged_message x) = IsAddLogged x × (1 ≤ length x.message_name)
IsWritable (Event.logging x) = IsLogging x × (1 ≤ length x.message)
IsWritable (Event.logged_data x) = IsData x × (1 ≤ length x.payload)
IsWritable (Event.dropout x) = x.duration_ms < 65536
IsWritable (Event.sync x) = Unit
IsWritable _ = ⊥

-- A call that belongs to the definitions.
abbrev pub IsDefinition : Event → Type 0
IsDefinition (Event.message_info x) = Unit
IsDefinition (Event.parameter x) = Unit
IsDefinition (Event.message_format x) = Unit
IsDefinition (Event.parameter_default x) = Unit
IsDefinition _ = ⊥

-- A call by which a reader knows that the definitions have ended.
abbrev pub IsFirst : Event → Type 0
IsFirst (Event.add_logged_message x) = Unit
IsFirst (Event.logging x) = Unit
IsFirst _ = ⊥

-- A call that belongs to the data.
abbrev pub IsDatum : Event → Type 0
IsDatum (Event.message_format x) = ⊥
IsDatum _ = Unit

passes :
    {A : Type 0} (x : A) (n : ℕ)
    → 1 ≤ n
    → (if n == 0 then throw (parsing message_too_short) else ok x) ≡ ok x
passes x n h = ground arith

dropout_parsed :
    (x : Dropout) (ws : List Bytes) (rest : Bytes)
    → x.duration_ms < 65536
    → serialize_dropout x ≡ ok ws
    → parse_dropout (flatten ws ++ rest) ≡ ok x
dropout_parsed x ws rest h e =
    let (vs, written, frame, typed, parsed) = parse_dropout-serialize x rest h in
    let same : vs ≡ ws = ok-injective (sym written ∙ e) in rw same at parsed

sync_parsed :
    (x : Sync) (ws : List Bytes) (rest : Bytes)
    → serialize_sync x ≡ ok ws
    → parse_sync (flatten ws ++ rest) ≡ ok x
sync_parsed x ws rest e =
    let (vs, written, frame, typed, parsed) = parse_sync-serialize x rest in
    let same : vs ≡ ws = ok-injective (sym written ∙ e) in rw same at parsed

module _ {H : Type 0} (handler : DataHandler H) where
  -- The message and what is read for it.
  abbrev pub Reads :
      (UlogMessageType → Bytes → Action (Reader H) (Unit {0})) → Event → Bytes → Type 0
  Reads read e f =
      (m : IsMessage handler e f) × (m.type ≡ message_type e) × Calls handler read e f m.type

  abbrev pub in_header : UlogMessageType → Bytes → Action (Reader H) (Unit {0})
  in_header t = header_message handler (some t)

  abbrev pub in_data : UlogMessageType → Bytes → Action (Reader H) (Unit {0})
  in_data t = data_message handler (some t)

  delivered :
      {X : Type 0} {parsed : Result X} {x : X} (method : X → Action H (Unit {0})) (r : Reader H)
      → parsed ≡ ok x
      → deliver handler parsed method r ≡ call (method x) r
  delivered method r e = ap (λ p. deliver handler p method r) e

  info_in_header :
      (multi : Bool) (msg : Bytes) (r : Reader H)
      → in_header (if multi then UlogMessageType.info_multiple else UlogMessageType.info) msg r
        ≡ deliver handler (parse_info multi msg) handler.message_info r
  unfolding header_message
  info_in_header true msg r = refl
  info_in_header false msg r = refl

  info_in_data :
      (multi : Bool) (msg : Bytes) (r : Reader H)
      → in_data (if multi then UlogMessageType.info_multiple else UlogMessageType.info) msg r
        ≡ deliver handler (parse_info multi msg) handler.message_info r
  unfolding data_message
  info_in_data true msg r = refl
  info_in_data false msg r = refl

  text_in_data :
      (tagged : Bool) (msg : Bytes) (r : Reader H)
      → in_data (if tagged then UlogMessageType.logging_tagged else UlogMessageType.logging) msg r
        ≡ deliver handler (parse_logging tagged msg) handler.logging r
  unfolding data_message
  text_in_data true msg r = refl
  text_in_data false msg r = refl

  pub header-Reads :
      (e : Event) (ws : List Bytes)
      → IsWritable e
      → IsDefinition e
      → serialized e ≡ ok ws
      → Reads in_header e (flatten ws)
  unfolding header_message
  header-Reads (Event.message_info x) ws h d e =
      let (frame, typed) = serialize_info-IsFrame x UlogMessageType.info ws h e in
      (
        record { type = _; frame = frame; typed = typed },
        refl,
        λ rest r.
            info_in_header x.is_multi (flatten ws ++ rest) r
            ∙ delivered handler.message_info r
                (parse_info-serialize x UlogMessageType.info rest ws h e),
      )
  header-Reads (Event.parameter x) ws (h, single) d e =
      let (frame, typed) = serialize_info-IsFrame x UlogMessageType.parameter ws h e in
      (
        record { type = UlogMessageType.parameter; frame = frame; typed = rw single at typed },
        refl,
        λ rest r. delivered handler.parameter r (
            sym (ap (λ b. parse_info b (flatten ws ++ rest)) single)
            ∙ parse_info-serialize x UlogMessageType.parameter rest ws h e),
      )
  header-Reads (Event.message_format x) ws h d e =
      let (frame, typed) = serialize_format-IsFrame x ws h e in
      (
        record { type = UlogMessageType.format; frame = frame; typed = typed },
        refl,
        λ rest r. delivered handler.message_format r (parse_format-serialize x rest ws h e),
      )
  header-Reads (Event.parameter_default x) ws h d e =
      let (frame, typed) = serialize_parameter_default-IsFrame x ws h e in
      (
        record { type = UlogMessageType.parameter_default; frame = frame; typed = typed },
        refl,
        λ rest r.
            delivered handler.parameter_default r (parse_parameter_default-serialize x rest ws h e),
      )
  header-Reads Event.header_complete ws h d e = absurd d
  header-Reads (Event.error x y) ws h d e = absurd d
  header-Reads (Event.file_header x) ws h d e = absurd d
  header-Reads (Event.add_logged_message x) ws h d e = absurd d
  header-Reads (Event.logging x) ws h d e = absurd d
  header-Reads (Event.logged_data x) ws h d e = absurd d
  header-Reads (Event.dropout x) ws h d e = absurd d
  header-Reads (Event.sync x) ws h d e = absurd d

  pub data-Reads :
      (e : Event) (ws : List Bytes)
      → IsWritable e
      → IsDatum e
      → serialized e ≡ ok ws
      → Reads in_data e (flatten ws)
  unfolding data_message
  data-Reads (Event.message_info x) ws h d e =
      let (frame, typed) = serialize_info-IsFrame x UlogMessageType.info ws h e in
      (
        record { type = _; frame = frame; typed = typed },
        refl,
        λ rest r.
            info_in_data x.is_multi (flatten ws ++ rest) r
            ∙ delivered handler.message_info r
                (parse_info-serialize x UlogMessageType.info rest ws h e),
      )
  data-Reads (Event.parameter x) ws (h, single) d e =
      let (frame, typed) = serialize_info-IsFrame x UlogMessageType.parameter ws h e in
      (
        record { type = UlogMessageType.parameter; frame = frame; typed = rw single at typed },
        refl,
        λ rest r. delivered handler.parameter r (
            sym (ap (λ b. parse_info b (flatten ws ++ rest)) single)
            ∙ parse_info-serialize x UlogMessageType.parameter rest ws h e),
      )
  data-Reads (Event.parameter_default x) ws h d e =
      let (frame, typed) = serialize_parameter_default-IsFrame x ws h e in
      (
        record { type = UlogMessageType.parameter_default; frame = frame; typed = typed },
        refl,
        λ rest r.
            delivered handler.parameter_default r (parse_parameter_default-serialize x rest ws h e),
      )
  data-Reads (Event.add_logged_message x) ws (h, named) d e =
      let (frame, typed) = serialize_add_logged-IsFrame x ws h e in
      (
        record { type = UlogMessageType.add_logged_msg; frame = frame; typed = typed },
        refl,
        λ rest r.
            delivered handler.add_logged_message r
              (parse_add_logged-serialize x rest ws h e ∙ passes x _ named),
      )
  data-Reads (Event.logging x) ws (h, some_text) d e =
      let (frame, typed) = serialize_logging-IsFrame x ws h e in
      (
        record { type = _; frame = frame; typed = typed },
        refl,
        λ rest r.
            text_in_data x.has_tag (flatten ws ++ rest) r
            ∙ delivered handler.logging r
                (parse_logging-serialize x rest ws h e ∙ passes x _ some_text),
      )
  data-Reads (Event.logged_data x) ws (h, some_bytes) d e =
      let (frame, typed) = serialize_data-IsFrame x ws h e in
      (
        record { type = UlogMessageType.logged_data; frame = frame; typed = typed },
        refl,
        λ rest r.
            delivered handler.logged_data r
              (parse_data-serialize x rest ws h e ∙ passes x _ some_bytes),
      )
  data-Reads (Event.dropout x) ws h d e =
      let (vs, written, frame, typed, parsed) = parse_dropout-serialize x [] h in
      let same : vs ≡ ws = ok-injective (sym written ∙ e) in
      (
        record {
          type = UlogMessageType.dropout;
          frame = rw same at frame;
          typed = rw same at typed;
        },
        refl,
        λ rest r. delivered handler.dropout r (dropout_parsed x ws rest h e),
      )
  data-Reads (Event.sync x) ws h d e =
      let (vs, written, frame, typed, parsed) = parse_sync-serialize x [] in
      let same : vs ≡ ws = ok-injective (sym written ∙ e) in
      (
        record { type = UlogMessageType.sync; frame = rw same at frame; typed = rw same at typed },
        refl,
        λ rest r. delivered handler.sync r (sync_parsed x ws rest e),
      )
  data-Reads Event.header_complete ws h d e = absurd h
  data-Reads (Event.error x y) ws h d e = absurd h
  data-Reads (Event.file_header x) ws h d e = absurd h
  data-Reads (Event.message_format x) ws h d e = absurd d

  -- In the header, the first message of the data ends the header.
  pub first-completes :
      (e : Event) (msg : Bytes) (r : Reader H)
      → IsFirst e
      → in_header (message_type e) msg r ≡ complete_header handler r
  unfolding header_message
  first-completes (Event.add_logged_message x) msg r h = refl
  first-completes (Event.logging x) msg r h = by_tag x.has_tag
    where
      by_tag :
          (b : Bool)
          → in_header (if b then UlogMessageType.logging_tagged else UlogMessageType.logging) msg r
            ≡ complete_header handler r
      by_tag true = refl
      by_tag false = refl
  first-completes Event.header_complete msg r h = absurd h
  first-completes (Event.error x y) msg r h = absurd h
  first-completes (Event.file_header x) msg r h = absurd h
  first-completes (Event.message_info x) msg r h = absurd h
  first-completes (Event.parameter x) msg r h = absurd h
  first-completes (Event.message_format x) msg r h = absurd h
  first-completes (Event.parameter_default x) msg r h = absurd h
  first-completes (Event.logged_data x) msg r h = absurd h
  first-completes (Event.dropout x) msg r h = absurd h
  first-completes (Event.sync x) msg r h = absurd h
