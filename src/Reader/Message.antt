-- ===== src/Reader/Message.antt =====
-- src/reader.cpp, `readHeaderMessage`, `readDataMessage`, and what `readChunk` does with one message.
use my_ulog.Base.{ℕ, ◌+◌, Bool, true, false, ◌||◌, Option, some, if◌then◌else◌, ◌==◌}
use my_ulog.Base.Bytes.{Bytes}
use my_ulog.Base.Memory.{read_u8, read_u16}
use my_ulog.Base.Result.{
  Result, ok, throw, fault, out_of_fuel, parsing, usage, invalid_argument, out_of_range,
}
use my_ulog.Base.Action.{Action, proceed, ◌>>=◌, ◌>>◌, lift, pure}
use my_ulog.Handler.{DataHandler}
use my_ulog.Messages.Raw.{UlogMessageType, of_byte}
use my_ulog.Messages.Info.{parse_info}
use my_ulog.Messages.Format.{parse_format}
use my_ulog.Messages.ParameterDefault.{parse_parameter_default}
use my_ulog.Messages.AddLogged.{parse_add_logged}
use my_ulog.Messages.Logging.{parse_logging}
use my_ulog.Messages.Data.{parse_data}
use my_ulog.Messages.Dropout.{parse_dropout}
use my_ulog.Messages.Sync.{parse_sync}
use my_ulog.Reader.State.{Phase, Reader, call, set_state, on_corruption}

abbrev pub in_header : Phase → Bool
in_header Phase.read_header = true
in_header _ = false

abbrev pub in_data : Phase → Bool
in_data Phase.read_data = true
in_data _ = false

module _ {H : Type 0} (handler : DataHandler H) where
  -- `f(X{message})`: the message is parsed first, then the handler is called.
  abbrev pub deliver :
      {X : Type 0} → Result X → (X → Action H (Unit {0})) → Action (Reader H) (Unit {0})
  deliver parsed method = lift parsed >>= λ x. call (method x)

  -- The first message of the data section; `readChunk` reads it as such at once.
  unfoldable pub complete_header : Action (Reader H) (Unit {0})
  complete_header = set_state Phase.read_data >> call handler.header_complete

  unfoldable pub header_message : Option UlogMessageType → Bytes → Action (Reader H) (Unit {0})
  header_message (some UlogMessageType.info) msg =
      deliver (parse_info false msg) handler.message_info
  header_message (some UlogMessageType.info_multiple) msg =
      deliver (parse_info true msg) handler.message_info
  header_message (some UlogMessageType.format) msg =
      deliver (parse_format msg) handler.message_format
  header_message (some UlogMessageType.parameter) msg =
      deliver (parse_info false msg) handler.parameter
  header_message (some UlogMessageType.parameter_default) msg =
      deliver (parse_parameter_default msg) handler.parameter_default
  header_message (some UlogMessageType.add_logged_msg) msg = complete_header
  header_message (some UlogMessageType.logging) msg = complete_header
  header_message (some UlogMessageType.logging_tagged) msg = complete_header
  header_message _ msg = pure tt

  -- `Reader::readHeaderMessage`.
  unfoldable pub read_header_message : Bytes → Action (Reader H) (Unit {0})
  read_header_message msg = do
    msg_type ← lift (read_u8 2 msg)
    header_message (of_byte msg_type) msg

  unfoldable pub data_message : Option UlogMessageType → Bytes → Action (Reader H) (Unit {0})
  data_message (some UlogMessageType.info) msg = deliver (parse_info false msg) handler.message_info
  data_message (some UlogMessageType.info_multiple) msg =
      deliver (parse_info true msg) handler.message_info
  data_message (some UlogMessageType.parameter) msg =
      deliver (parse_info false msg) handler.parameter
  data_message (some UlogMessageType.parameter_default) msg =
      deliver (parse_parameter_default msg) handler.parameter_default
  data_message (some UlogMessageType.add_logged_msg) msg =
      deliver (parse_add_logged msg) handler.add_logged_message
  data_message (some UlogMessageType.logging) msg =
      deliver (parse_logging false msg) handler.logging
  data_message (some UlogMessageType.logging_tagged) msg =
      deliver (parse_logging true msg) handler.logging
  data_message (some UlogMessageType.logged_data) msg = deliver (parse_data msg) handler.logged_data
  data_message (some UlogMessageType.dropout) msg = deliver (parse_dropout msg) handler.dropout
  data_message (some UlogMessageType.sync) msg = deliver (parse_sync msg) handler.sync
  data_message _ msg = pure tt

  -- `Reader::readDataMessage`.
  unfoldable pub read_data_message : Bytes → Action (Reader H) (Unit {0})
  read_data_message msg = do msg_type ← lift (read_u8 2 msg); data_message (of_byte msg_type) msg

  -- The body of the `try`. The state is tested again behind the first call.
  unfoldable pub parse_message : Bytes → Action (Reader H) (Unit {0})
  parse_message msg r =
      proceed (if in_header r.state then read_header_message msg r else (ok tt, r))
        λ _ r'. if in_data r'.state then read_data_message msg r' else (ok tt, r')

  -- `catch (const ParsingException&)`; any other exception leaves `readChunk`.
  unfoldable pub catch_parsing : Result (Unit {0}) × Reader H → Result (Unit {0}) × Reader H
  catch_parsing (throw (parsing reason), r) = on_corruption handler r
  catch_parsing (ok u, r) = (ok u, r)
  catch_parsing (throw (usage reason), r) = (throw (usage reason), r)
  catch_parsing (throw invalid_argument, r) = (throw invalid_argument, r)
  catch_parsing (throw out_of_range, r) = (throw out_of_range, r)
  catch_parsing (fault, r) = (fault, r)
  catch_parsing (out_of_fuel, r) = (out_of_fuel, r)

  -- The check for corruption, on the size and the type in the header.
  unfoldable pub handle_message : ℕ → ℕ → Bytes → Action (Reader H) (Unit {0})
  handle_message msg_size msg_type msg r =
      if msg_size == 0 || msg_type == 0
      then on_corruption handler r
      else catch_parsing (parse_message msg r)

  -- What `readChunk` does with a message that is there in full; the result is its size.
  unfoldable pub process_message : Bytes → Action (Reader H) ℕ
  process_message msg = do
    msg_size ← lift (read_u16 0 msg)
    msg_type ← lift (read_u8 2 msg)
    handle_message msg_size msg_type msg
    pure (msg_size + 3)
