-- ===== src/Reader/Delivery.antt =====
-- What the reader does with one whole message: a call of the handler.
use my_ulog.Base.{
  ℕ, zero, suc, ◌<◌, ◌≡◌, refl, ap, ◌∙◌, [], ◌∷◌, ◌++◌, Bool, true, false, ◌||◌, some,
  if◌then◌else◌, arith, length, length-append, ◌==◌,
}
use my_ulog.Base.Bytes.{Bytes}
use my_ulog.Base.Memory.{byte_at, u16_at, read_u8, read_u16, read_u8-eq, read_u16-eq}
use my_ulog.Base.Result.{Result, ok}
use my_ulog.Base.Action.{Action, proceed, pure}
use my_ulog.Handler.{DataHandler, Event, dispatch}
use my_ulog.Messages.Raw.{UlogMessageType, to_byte, of_byte-to_byte, IsFrame}
use my_ulog.Reader.State.{Phase, Reader, call}
use my_ulog.Reader.Message.{
  complete_header, header_message, read_header_message, data_message, read_data_message,
  parse_message, catch_parsing, handle_message, process_message, in_header, in_data,
}
use my_ulog.Reader.PartialRound.{u16_at-append}
use my_ulog.Reader.Stream.{Used, Takes}

byte_at-append : (i : ℕ) (xs ys : Bytes) → i < length xs → byte_at i (xs ++ ys) ≡ byte_at i xs
byte_at-append i [] ys h = elim h [ ]
byte_at-append zero (x ∷ xs) ys h = refl
byte_at-append (suc i) (x ∷ xs) ys h = byte_at-append i xs ys (omega arith)

read_size : (f rest : Bytes) → IsFrame f → read_u16 0 (f ++ rest) ≡ ok (u16_at 0 f)
read_size f rest h =
    read_u16-eq 0 (f ++ rest) (omega (arith, length-append f rest, h.exact, h.payload))
    ∙ ap ok (u16_at-append f rest (omega (arith, h.exact)))

read_type : (f rest : Bytes) → IsFrame f → read_u8 2 (f ++ rest) ≡ ok (byte_at 2 f)
read_type f rest h =
    read_u8-eq 2 (f ++ rest) (omega (arith, length-append f rest, h.exact, h.payload))
    ∙ ap ok (byte_at-append 2 f rest (omega (arith, h.exact)))

module _ {H : Type 0} (handler : DataHandler H) where
  -- A whole message that makes one call of the handler: in the definitions, in the data, or as the
  -- first message of the data.
  pub record IsMessage (e : Event) (f : Bytes) : Type 0 where
    pub type : UlogMessageType
    pub frame : IsFrame f
    pub typed : byte_at 2 f ≡ to_byte type

  abbrev pub Calls :
      (UlogMessageType → Bytes → Action (Reader H) (Unit {0}))
      → Event
      → Bytes
      → UlogMessageType
      → Type 0
  Calls read e f t =
      (rest : Bytes) (r : Reader H) → read t (f ++ rest) r ≡ call (dispatch handler e) r

  process_frame :
      (f rest : Bytes) (r : Reader H)
      → IsFrame f
      → process_message handler (f ++ rest) r
        ≡ proceed
            (catch_parsing handler (parse_message handler (f ++ rest) r))
            (λ _. pure (length f))
  unfolding process_message handle_message
  process_frame f rest r h = rw (read_size f rest h, read_type f rest h, sane, h.exact)
    where
      sane : (u16_at 0 f == 0 || byte_at 2 f == 0) ≡ false
      sane = ground (arith, h.payload, h.typed)

  header_frame :
      (f rest : Bytes) (r : Reader H) (t : UlogMessageType)
      → IsFrame f
      → byte_at 2 f ≡ to_byte t
      → read_header_message handler (f ++ rest) r ≡ header_message handler (some t) (f ++ rest) r
  unfolding read_header_message
  header_frame f rest r t h e = rw (read_type f rest h, e, of_byte-to_byte t)

  data_frame :
      (f rest : Bytes) (r : Reader H) (t : UlogMessageType)
      → IsFrame f
      → byte_at 2 f ≡ to_byte t
      → read_data_message handler (f ++ rest) r ≡ data_message handler (some t) (f ++ rest) r
  unfolding read_data_message
  data_frame f rest r t h e = rw (read_type f rest h, e, of_byte-to_byte t)

if_true : {A : Type 0} (b : Bool) (x y : A) → b ≡ true → (if b then x else y) ≡ x
if_true true x y e = refl
if_true false x y e = absurd (ground (arith, e))

if_false : {A : Type 0} (b : Bool) (x y : A) → b ≡ false → (if b then x else y) ≡ y
if_false true x y e = absurd (ground (arith, e))
if_false false x y e = refl

module _ {H : Type 0} (handler : DataHandler H) where
  call_ok :
      (m : Action H (Unit {0})) (r : Reader H) (h : H)
      → m r.handler ≡ (ok tt, h)
      → call m r ≡ (ok tt, record r { handler = h })
  call_ok m r h e = ap (λ out. (out.0, record r { handler = out.1 })) e

  -- What stands behind the header's part of the `try`.
  abbrev then_data : Bytes → Result (Unit {0}) × Reader H → Result (Unit {0}) × Reader H
  then_data msg out =
      proceed out
        (λ _ r'. if in_data r'.state then read_data_message handler msg r' else (ok tt, r'))

  parse_in_header :
      (msg : Bytes) (r s : Reader H)
      → r.state ≡ Phase.read_header
      → read_header_message handler msg r ≡ (ok tt, s)
      → s.state ≡ Phase.read_header
      → parse_message handler msg r ≡ (ok tt, s)
  unfolding parse_message
  parse_in_header msg r s e done es =
      ap (then_data msg) (if_true (in_header r.state) _ _ (ap in_header e) ∙ done)
      ∙ if_false (in_data s.state) _ _ (ap in_data es)

  parse_first :
      (msg : Bytes) (r s : Reader H)
      → r.state ≡ Phase.read_header
      → read_header_message handler msg r ≡ (ok tt, s)
      → s.state ≡ Phase.read_data
      → parse_message handler msg r ≡ read_data_message handler msg s
  unfolding parse_message
  parse_first msg r s e done es =
      ap (then_data msg) (if_true (in_header r.state) _ _ (ap in_header e) ∙ done)
      ∙ if_true (in_data s.state) _ _ (ap in_data es)

  parse_in_data :
      (msg : Bytes) (r : Reader H)
      → r.state ≡ Phase.read_data
      → parse_message handler msg r ≡ read_data_message handler msg r
  unfolding parse_message
  parse_in_data msg r e =
      ap (then_data msg) (
        if_false (in_header r.state) (read_header_message handler msg r) (ok tt, r)
          (ap in_header e))
      ∙ if_true (in_data r.state) _ _ (ap in_data e)

  parsed-Used :
      (f rest : Bytes) (r s : Reader H) (p : Phase) (h : H)
      → IsFrame f
      → parse_message handler (f ++ rest) r ≡ (ok tt, s)
      → s.state ≡ p
      → s.handler ≡ h
      → s.partial ≡ r.partial
      → s.need_recovery ≡ r.need_recovery
      → Used f p h r (process_message handler (f ++ rest) r)
  unfolding catch_parsing
  parsed-Used f rest r s p h frame e ep eh same clear =
      rw (process_frame handler f rest r frame, e) (refl, ep, eh, same, clear)

  -- A message of the definitions, read in the header.
  pub header-Takes :
      (e : Event) (f : Bytes) (h h' : H) (m : IsMessage handler e f)
      → Calls handler (λ t. header_message handler (some t)) e f m.type
      → dispatch handler e h ≡ (ok tt, h')
      → Takes handler f Phase.read_header h Phase.read_header h'
  header-Takes e f h h' m calls d = record {
    frame = m.frame;
    reading = tt;
    used = λ rest r er eh.
        parsed-Used f rest r (record r { handler = h' }) Phase.read_header h' m.frame
          (parse_in_header (f ++ rest) r (record r { handler = h' }) er
            (header_frame handler f rest r m.type m.frame m.typed
              ∙ calls rest r
              ∙ call_ok (dispatch handler e) r h' (ap (dispatch handler e) eh ∙ d))
            er)
          er refl refl refl;
  }

  -- A message of the data, read in the data.
  pub data-Takes :
      (e : Event) (f : Bytes) (h h' : H) (m : IsMessage handler e f)
      → Calls handler (λ t. data_message handler (some t)) e f m.type
      → dispatch handler e h ≡ (ok tt, h')
      → Takes handler f Phase.read_data h Phase.read_data h'
  data-Takes e f h h' m calls d = record {
    frame = m.frame;
    reading = tt;
    used = λ rest r er eh.
        parsed-Used f rest r (record r { handler = h' }) Phase.read_data h' m.frame
          (parse_in_data (f ++ rest) r er
            ∙ data_frame handler f rest r m.type m.frame m.typed
            ∙ calls rest r
            ∙ call_ok (dispatch handler e) r h' (ap (dispatch handler e) eh ∙ d))
          er refl refl refl;
  }

  -- The first message of the data, read in the header: the end of the header is reported before it.
  pub first-Takes :
      (e : Event) (f : Bytes) (h k h' : H) (m : IsMessage handler e f)
      → ((rest : Bytes) (r : Reader H)
          → header_message handler (some m.type) (f ++ rest) r ≡ complete_header handler r)
      → Calls handler (λ t. data_message handler (some t)) e f m.type
      → handler.header_complete h ≡ (ok tt, k)
      → dispatch handler e k ≡ (ok tt, h')
      → Takes handler f Phase.read_header h Phase.read_data h'
  unfolding complete_header
  first-Takes e f h k h' m completes calls c d = record {
    frame = m.frame;
    reading = tt;
    used = λ rest r er eh.
        let s : Reader H = record r { state = Phase.read_data; handler = k } in
        parsed-Used f rest r (record s { handler = h' }) Phase.read_data h' m.frame
          (parse_first (f ++ rest) r s er
              (header_frame handler f rest r m.type m.frame m.typed
                ∙ completes rest r
                ∙ call_ok handler.header_complete (record r { state = Phase.read_data }) k
                    (ap handler.header_complete eh ∙ c))
              refl
            ∙ data_frame handler f rest s m.type m.frame m.typed
            ∙ calls rest s
            ∙ call_ok (dispatch handler e) s h' d)
          refl refl refl refl;
  }
