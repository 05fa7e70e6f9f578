-- ===== src/Tests/Streams.antt =====
-- The reader on bytes that are no log.
use my_ulog.Base.{List, [], ◌∷◌}
use my_ulog.Base.Bytes.{Bytes}
use my_ulog.Handler.{Event}
use my_ulog.Reader.State.{Phase, Reader, new_reader}

-- A header without size and type, and behind it the beginning of a message.
abbrev corrupt : Bytes
corrupt = 0 ∷ 0 ∷ 0 ∷ 9 ∷ 8 ∷ 0 ∷ b'S' ∷ 0x2F ∷ []

abbrev reader : Reader (List Event)
reader = record (new_reader []) { state = Phase.read_data; partial = 3 ∷ 0 ∷ [] }
