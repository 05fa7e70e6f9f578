-- ===== src/Reader/Safety.antt =====
-- No message makes the reader read outside it, or touch its own buffer.
use my_ulog.Base.{
  ℕ, ◌+◌, ◌≡◌, refl, ◌∙◌, Bool, true, false, Option, some, arith, if◌then◌else◌, ◌||◌, ◌==◌,
}
use my_ulog.Base.Bytes.{Bytes}
use my_ulog.Base.Memory.{IsComplete, read_u8-eq, read_u16-eq, u16_at, byte_at}
use my_ulog.Base.Result.{
  Result, ok, throw, fault, out_of_fuel, parsing, usage, invalid_argument, out_of_range, IsSound,
  corruption_detected,
}
use my_ulog.Base.Action.{Action, proceed, pure}
use my_ulog.Handler.{DataHandler, Event, dispatch}
use my_ulog.Messages.Raw.{UlogMessageType, of_byte}
use my_ulog.Messages.Info.{parse_info-IsSound}
use my_ulog.Messages.Format.{parse_format-IsSound}
use my_ulog.Messages.ParameterDefault.{parse_parameter_default-IsSound}
use my_ulog.Messages.AddLogged.{parse_add_logged-IsSound}
use my_ulog.Messages.Logging.{parse_logging-IsSound}
use my_ulog.Messages.Data.{parse_data-IsSound}
use my_ulog.Messages.Dropout.{parse_dropout-IsSound}
use my_ulog.Messages.Sync.{parse_sync-IsSound}
use my_ulog.Reader.State.{Reader, on_corruption, on_corruption_cases}
use my_ulog.Reader.Message.{
  deliver, complete_header, header_message, read_header_message, data_message, read_data_message,
  parse_message, catch_parsing, handle_message, process_message, in_header, in_data,
}
use my_ulog.Reader.Keeps.{IsSoundHandler, Keeps, proceed-Keeps, call-Keeps}

module _ {H : Type 0} (handler : DataHandler H) (good : IsSoundHandler handler) where
  deliver-Keeps :
      {X : Type 0} (r : Reader H) (parsed : Result X) (method : X → Action H (Unit {0}))
      (event : X → Event)
      → IsSound parsed
      → ((x : X) → method x ≡ dispatch handler (event x))
      → Keeps r (deliver handler parsed method r)
  deliver-Keeps r (ok x) method event h same =
      rw (same x)
        (call-Keeps r r (dispatch handler (event x)) refl refl (good.sound (event x) r.handler))
  deliver-Keeps r (throw e) method event h same = record {
    sound = tt;
    partial = refl;
    capacity = refl;
  }
  deliver-Keeps r fault method event h same = absurd h
  deliver-Keeps r out_of_fuel method event h same = absurd h

  complete_header-Keeps : (r : Reader H) → Keeps r (complete_header handler r)
  unfolding complete_header
  complete_header-Keeps r = record {
    sound = good.sound Event.header_complete r.handler;
    partial = refl;
    capacity = refl;
  }

  pub nothing-Keeps : (r : Reader H) → Keeps {A = Unit {0}} r (ok tt, r)
  nothing-Keeps r = record { sound = tt; partial = refl; capacity = refl }

  header_message-Keeps :
      (t : Option UlogMessageType) (msg : Bytes) (r : Reader H)
      → IsComplete msg
      → Keeps r (header_message handler t msg r)
  unfolding header_message
  header_message-Keeps (some UlogMessageType.info) msg r h =
      deliver-Keeps r _ handler.message_info Event.message_info (parse_info-IsSound false msg h)
        (λ x. refl)
  header_message-Keeps (some UlogMessageType.info_multiple) msg r h =
      deliver-Keeps r _ handler.message_info Event.message_info (parse_info-IsSound true msg h)
        (λ x. refl)
  header_message-Keeps (some UlogMessageType.format) msg r h =
      deliver-Keeps r _ handler.message_format Event.message_format (parse_format-IsSound msg h)
        (λ x. refl)
  header_message-Keeps (some UlogMessageType.parameter) msg r h =
      deliver-Keeps r _ handler.parameter Event.parameter (parse_info-IsSound false msg h)
        (λ x. refl)
  header_message-Keeps (some UlogMessageType.parameter_default) msg r h =
      deliver-Keeps r _ handler.parameter_default Event.parameter_default
        (parse_parameter_default-IsSound msg h) (λ x. refl)
  header_message-Keeps (some UlogMessageType.add_logged_msg) msg r h = complete_header-Keeps r
  header_message-Keeps (some UlogMessageType.logging) msg r h = complete_header-Keeps r
  header_message-Keeps (some UlogMessageType.logging_tagged) msg r h = complete_header-Keeps r
  header_message-Keeps _ msg r h = nothing-Keeps r

  data_message-Keeps :
      (t : Option UlogMessageType) (msg : Bytes) (r : Reader H)
      → IsComplete msg
      → Keeps r (data_message handler t msg r)
  unfolding data_message
  data_message-Keeps (some UlogMessageType.info) msg r h =
      deliver-Keeps r _ handler.message_info Event.message_info (parse_info-IsSound false msg h)
        (λ x. refl)
  data_message-Keeps (some UlogMessageType.info_multiple) msg r h =
      deliver-Keeps r _ handler.message_info Event.message_info (parse_info-IsSound true msg h)
        (λ x. refl)
  data_message-Keeps (some UlogMessageType.parameter) msg r h =
      deliver-Keeps r _ handler.parameter Event.parameter (parse_info-IsSound false msg h)
        (λ x. refl)
  data_message-Keeps (some UlogMessageType.parameter_default) msg r h =
      deliver-Keeps r _ handler.parameter_default Event.parameter_default
        (parse_parameter_default-IsSound msg h) (λ x. refl)
  data_message-Keeps (some UlogMessageType.add_logged_msg) msg r h =
      deliver-Keeps r _ handler.add_logged_message Event.add_logged_message
        (parse_add_logged-IsSound msg h) (λ x. refl)
  data_message-Keeps (some UlogMessageType.logging) msg r h =
      deliver-Keeps r _ handler.logging Event.logging (parse_logging-IsSound false msg h)
        (λ x. refl)
  data_message-Keeps (some UlogMessageType.logging_tagged) msg r h =
      deliver-Keeps r _ handler.logging Event.logging (parse_logging-IsSound true msg h) (λ x. refl)
  data_message-Keeps (some UlogMessageType.logged_data) msg r h =
      deliver-Keeps r _ handler.logged_data Event.logged_data (parse_data-IsSound msg h) (λ x. refl)
  data_message-Keeps (some UlogMessageType.dropout) msg r h =
      deliver-Keeps r _ handler.dropout Event.dropout (parse_dropout-IsSound msg h) (λ x. refl)
  data_message-Keeps (some UlogMessageType.sync) msg r h =
      deliver-Keeps r _ handler.sync Event.sync (parse_sync-IsSound msg h) (λ x. refl)
  data_message-Keeps _ msg r h = nothing-Keeps r

  read_header_message-Keeps :
      (msg : Bytes) (r : Reader H) → IsComplete msg → Keeps r (read_header_message handler msg r)
  unfolding read_header_message
  read_header_message-Keeps msg r h =
      rw (read_u8-eq 2 msg h.0) (header_message-Keeps (of_byte (byte_at 2 msg)) msg r h)

  read_data_message-Keeps :
      (msg : Bytes) (r : Reader H) → IsComplete msg → Keeps r (read_data_message handler msg r)
  unfolding read_data_message
  read_data_message-Keeps msg r h =
      rw (read_u8-eq 2 msg h.0) (data_message-Keeps (of_byte (byte_at 2 msg)) msg r h)

  -- A call on a reader that differs from `r` elsewhere.
  pub moved-Keeps :
      {A : Type 0} (r s : Reader H) (out : Result A × Reader H)
      → s.partial ≡ r.partial
      → s.capacity ≡ r.capacity
      → Keeps s out
      → Keeps r out
  moved-Keeps r s out p c k = record {
    sound = k.sound;
    partial = k.partial ∙ p;
    capacity = k.capacity ∙ c;
  }

  if-Keeps :
      (r : Reader H) (b : Bool) (out : Result (Unit {0}) × Reader H)
      → Keeps r out
      → Keeps r (if b then out else (ok tt, r))
  if-Keeps r true out k = k
  if-Keeps r false out k = nothing-Keeps r

  -- The body of the `try`.
  parse_message-Keeps :
      (msg : Bytes) (r : Reader H) → IsComplete msg → Keeps r (parse_message handler msg r)
  unfolding parse_message
  parse_message-Keeps msg r h =
      proceed-Keeps r _ _ (if-Keeps r (in_header r.state) _ (read_header_message-Keeps msg r h))
        (λ u s p c.
          moved-Keeps r s _ p c (if-Keeps s (in_data s.state) _ (read_data_message-Keeps msg s h)))

  pub on_corruption-Keeps : (r : Reader H) → Keeps r (on_corruption handler r)
  on_corruption-Keeps r =
      on_corruption_cases handler (Keeps r) r
        (record { sound = tt; partial = refl; capacity = refl })
        (proceed-Keeps r _ _
          (call-Keeps r r (handler.error corruption_detected true) refl refl
            (good.sound (Event.error corruption_detected true) r.handler))
          (λ u s p c. record { sound = tt; partial = p; capacity = c }))

  catch_parsing-Keeps :
      (r : Reader H) (out : Result (Unit {0}) × Reader H)
      → Keeps r out
      → Keeps r (catch_parsing handler out)
  unfolding catch_parsing
  catch_parsing-Keeps r (throw (parsing reason), s) k =
      moved-Keeps r s _ k.partial k.capacity (on_corruption-Keeps s)
  catch_parsing-Keeps r (ok u, s) k = k
  catch_parsing-Keeps r (throw (usage reason), s) k = k
  catch_parsing-Keeps r (throw invalid_argument, s) k = k
  catch_parsing-Keeps r (throw out_of_range, s) k = k
  catch_parsing-Keeps r (fault, s) k = k
  catch_parsing-Keeps r (out_of_fuel, s) k = k

  -- The size that is reported is the one in the header.
  abbrev pub Reports : Bytes → Result ℕ × Reader H → Type 0
  Reports msg (ok n, s) = n ≡ u16_at 0 msg + 3
  Reports msg (throw e, s) = Unit
  Reports msg (fault, s) = Unit
  Reports msg (out_of_fuel, s) = Unit

  handle_message-Keeps :
      (size type : ℕ) (msg : Bytes) (r : Reader H)
      → IsComplete msg
      → Keeps r (handle_message handler size type msg r)
  unfolding handle_message
  handle_message-Keeps size type msg r h = by_test (size == 0 || type == 0)
    where
      by_test :
          (b : Bool)
          → Keeps r (
              if b
              then on_corruption handler r
              else catch_parsing handler (parse_message handler msg r))
      by_test true = on_corruption-Keeps r
      by_test false = catch_parsing-Keeps r _ (parse_message-Keeps msg r h)

  sized-Reports :
      (msg : Bytes) (r : Reader H) (out : Result (Unit {0}) × Reader H)
      → Keeps r out
      → let out' = proceed out (λ _. pure (u16_at 0 msg + 3)) in Keeps r out' × Reports msg out'
  sized-Reports msg r (ok u, s) k =
      (record { sound = tt; partial = k.partial; capacity = k.capacity }, refl)
  sized-Reports msg r (throw e, s) k =
      (record { sound = tt; partial = k.partial; capacity = k.capacity }, tt)
  sized-Reports msg r (fault, s) k = absurd k.sound
  sized-Reports msg r (out_of_fuel, s) k = absurd k.sound

  -- A message that is there in full is processed without reading outside it.
  pub process_message-Keeps :
      (msg : Bytes) (r : Reader H)
      → IsComplete msg
      → Keeps r (process_message handler msg r) × Reports msg (process_message handler msg r)
  unfolding process_message
  process_message-Keeps msg r h =
      rw (read_u16-eq 0 msg (omega arith), read_u8-eq 2 msg h.0)
        (sized-Reports msg r _ (handle_message-Keeps (u16_at 0 msg) (byte_at 2 msg) msg r h))
