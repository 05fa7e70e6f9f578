-- ===== src/Reader/Chunk.antt =====
-- src/reader.cpp, `readChunk` and `tryToRecover`.
use my_ulog.Base.{
  ℕ, zero, suc, ◌+◌, ◌-◌, ◌*◌, ◌≡◌, refl, Bool, true, false, not, ◌&&◌, Option, none, some, ◌++◌,
  if◌then◌else◌, length, take, drop, min, ltb, ◌==◌,
}
use my_ulog.Base.Bytes.{Bytes}
use my_ulog.Base.Memory.{read_u16}
use my_ulog.Base.Result.{ok, out_of_fuel}
use my_ulog.Base.Action.{Action, proceed, ◌>>=◌, ◌>>◌, pure}
use my_ulog.Handler.{DataHandler}
use my_ulog.Reader.Front.{full_message_length, looks_sane, search}
use my_ulog.Reader.Message.{
  complete_header, header_message, read_header_message, data_message, read_data_message,
  parse_message, catch_parsing, handle_message,
}
use my_ulog.Reader.State.{on_corruption, Phase, Reader, count_read, append_to_partial_buffer}
use my_ulog.Reader.Start.{
  read_magic, read_flag_bits, give_up, accept_flags, raw_file_header, raw_flag_bits,
  has_incompat_flags,
}
use my_ulog.Reader.Message.{process_message}

abbrev pub in_magic : Phase → Bool
in_magic Phase.read_magic = true
in_magic _ = false

abbrev pub in_flag_bits : Phase → Bool
in_flag_bits Phase.read_flag_bits = true
in_flag_bits _ = false

abbrev pub is_invalid : Phase → Bool
is_invalid Phase.invalid_data = true
is_invalid _ = false

-- What is left to do: it falls with each byte that is moved to the partial buffer, and with each byte
-- that is taken off it. One round of fuel for each unit is enough for every loop.
abbrev pub weight : {H : Type 0} → Bytes → Reader H → ℕ
weight chunk r = 2 * length chunk + length r.partial

-- The lambda `ensure_enough_data_in_partial_buffer`: what is left of the chunk, and the reader.
unfoldable pub ensure : {H : Type 0} → ℕ → Bytes → Reader H → Bytes × Reader H
ensure required chunk r =
    let num_append = min (required - length r.partial) (length chunk) in
    let filled = length r.partial + num_append in
    if ltb (length r.partial) required
    then (
      drop num_append chunk,
      record r {
        capacity = if ltb r.capacity filled then filled else r.capacity;
        partial = r.partial ++ take num_append chunk;
        total_num_read = r.total_num_read + num_append;
      },
    )
    else (chunk, r)

module _ {H : Type 0} (handler : DataHandler H) where
  -- The message at the front of the partial buffer is processed, and removed if nothing is thrown.
  unfoldable pub use_partial : Bytes → Action (Reader H) Bytes
  use_partial chunk r =
      proceed (process_message handler r.partial r)
        λ num_remove r'. (ok chunk, record r' { partial = drop num_remove r'.partial })

  -- One round of the loop with data in the partial buffer, once it holds a header.
  unfoldable pub fill_partial : Bytes → Action (Reader H) Bytes
  fill_partial chunk r =
      proceed (read_u16 0 r.partial, r)
        λ msg_size r0.
          let required = msg_size + 3 in
          let (chunk', r') = ensure required chunk r0 in
          if ltb (length r'.partial) required then (ok chunk', r') else use_partial chunk' r'

  unfoldable pub step_partial : Bytes → Action (Reader H) Bytes
  step_partial chunk r =
      let (chunk', r') = ensure 3 chunk r in
      if ltb (length r'.partial) 3 then (ok chunk', r') else fill_partial chunk' r'

  -- The message at the front of the chunk is processed where it stands.
  unfoldable pub use_direct : ℕ → Bytes → Action (Reader H) Bytes
  use_direct full chunk r =
      proceed
        (process_message handler chunk (record r { total_num_read = r.total_num_read + full }))
        λ _ r'. (ok (drop full chunk), r')

  unfoldable pub keep_rest : Bytes → Action (Reader H) Bytes
  keep_rest chunk r =
      let (num_append, r') = append_to_partial_buffer chunk r in
      (ok (drop num_append chunk), record r' { total_num_read = r'.total_num_read + num_append })

  -- One round of the loop with an empty partial buffer.
  unfoldable pub step_direct : Bytes → Action (Reader H) Bytes
  step_direct chunk r =
      proceed (full_message_length chunk, r)
        λ full r'. if ltb 0 full then use_direct full chunk r' else keep_rest chunk r'

  unfoldable pub step : Bytes → Action (Reader H) Bytes
  step chunk r = if ltb 0 (length r.partial) then step_partial chunk r else step_direct chunk r

  -- `while (length > 0 && !_need_recovery)`: what is left of the chunk.
  unfoldable pub loop : ℕ → Bytes → Action (Reader H) Bytes
  loop zero chunk r =
      if ltb 0 (length chunk) && not r.need_recovery then (out_of_fuel, r) else (ok chunk, r)
  loop (suc fuel) chunk r =
      let rest = proceed (step chunk r) (λ chunk'. loop fuel chunk') in
      if ltb 0 (length chunk) && not r.need_recovery then rest else (ok chunk, r)

-- What one round of the recovery found: the rest of the chunk, and whether a header was found.
unfoldable pub recovery_step : {H : Type 0} → Bytes → Action (Reader H) (Bytes × Bool)
recovery_step chunk r =
    let (num_append, r1) = append_to_partial_buffer chunk r in
    let r2 = record r1 { total_num_read = r1.total_num_read + num_append } in
    let start = if num_append == 0 then 1 else 0 in
    if ltb (length r2.partial) 3
    then (ok (drop num_append chunk, false), r2)
    else proceed (search start (drop start r2.partial), r2)
        λ (index, found) r3.
          (ok (drop num_append chunk, found), record r3 { partial = drop index r3.partial })

-- `Reader::tryToRecover` up to its call of `readChunk`: the rest of the chunk if a header was found.
unfoldable pub try_to_recover : {H : Type 0} → ℕ → Bytes → Action (Reader H) (Option Bytes)
try_to_recover zero chunk r = if ltb 0 (length chunk) then (out_of_fuel, r) else (ok none, r)
try_to_recover (suc fuel) chunk r =
    let round = proceed (recovery_step chunk r) λ (chunk', found) r'.
      let again = try_to_recover fuel chunk' r' in
      if found then (ok (some chunk'), record r' { need_recovery = false }) else again in
    if ltb 0 (length chunk) then round else (ok none, r)

module _ {H : Type 0} (handler : DataHandler H) where
  -- The bytes in front of the messages: `data += num_read` and the like.
  abbrev pub skip_read : Bytes → ℕ → Action (Reader H) Bytes
  skip_read chunk num_read = count_read num_read >> pure (drop num_read chunk)

  unfoldable pub start_magic : Bytes → Action (Reader H) Bytes
  start_magic chunk r =
      if in_magic r.state then (read_magic handler chunk >>= skip_read chunk) r else (ok chunk, r)

  unfoldable pub start_flags : Bytes → Action (Reader H) Bytes
  start_flags chunk r =
      if in_flag_bits r.state && ltb 0 (length chunk)
      then (read_flag_bits handler chunk >>= skip_read chunk) r
      else (ok chunk, r)

  -- The part of `readChunk` in front of the recovery: what the loop leaves of the chunk.
  unfoldable pub parse_chunk : Bytes → Action (Reader H) Bytes
  parse_chunk chunk r =
      proceed ((start_magic chunk >>= start_flags) r)
        λ chunk' r'. loop handler (weight chunk' r' + 1) chunk' r'

  -- The end of `tryToRecover`: it calls `readChunk` if a header was found.
  abbrev pub resume :
      (Bytes → Action (Reader H) (Unit {0})) → Option Bytes → Action (Reader H) (Unit {0})
  resume again none r = (ok tt, r)
  resume again (some chunk) r = again chunk r

  -- `if (_need_recovery) { tryToRecover(data, length); }`
  unfoldable pub recover :
      (Bytes → Action (Reader H) (Unit {0})) → Bytes → Action (Reader H) (Unit {0})
  recover again chunk r =
      if r.need_recovery
      then proceed (try_to_recover (weight chunk r + 1) chunk r) (resume again)
      else (ok tt, r)

  -- `Reader::readChunk`, with fuel for the calls that the recovery makes.
  unfoldable pub read_chunk_fuel : ℕ → Bytes → Action (Reader H) (Unit {0})
  read_chunk_fuel zero chunk r = (out_of_fuel, r)
  read_chunk_fuel (suc fuel) chunk r =
      if is_invalid r.state
      then (ok tt, r)
      else proceed (parse_chunk chunk r) (recover (read_chunk_fuel fuel))

  -- `Reader::readChunk`.
  unfoldable pub read_chunk : Bytes → Action (Reader H) (Unit {0})
  unfolding ensure full_message_length looks_sane search use_partial fill_partial step_partial
      use_direct keep_rest step_direct step loop recovery_step try_to_recover start_magic
      start_flags parse_chunk recover read_chunk_fuel append_to_partial_buffer give_up accept_flags
      raw_file_header raw_flag_bits has_incompat_flags on_corruption read_magic read_flag_bits
      complete_header header_message read_header_message data_message read_data_message
      parse_message catch_parsing handle_message process_message
  read_chunk chunk r = read_chunk_fuel (weight chunk r + 1) chunk r

  pub read_chunk-eq :
      (chunk : Bytes) (r : Reader H)
      → read_chunk chunk r ≡ read_chunk_fuel (weight chunk r + 1) chunk r
  unfolding read_chunk
  read_chunk-eq chunk r = refl
