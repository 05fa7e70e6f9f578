-- ===== src/Reader/State.antt =====
-- include/ulog_cpp/reader.hpp: the state of a reader, and its smallest methods.
use my_ulog.Base.{ℕ, ◌+◌, ◌-◌, Bool, true, false, [], ◌∷◌, ◌++◌, length, take, min}
use my_ulog.Base.Bytes.{Bytes}
use my_ulog.Base.Result.{Result, ok, corruption_detected}
use my_ulog.Base.Action.{Action, proceed, modify}
use my_ulog.Handler.{DataHandler}
use my_ulog.Messages.FileHeader.{RawFileHeader}

-- `Reader::State`.
pub data Phase : Type 0 where
  read_magic read_flag_bits read_header read_data invalid_data : Phase

-- `partial` is what the partial message buffer holds, and `capacity` what it has room for. `handler` is
-- the state of the data handler.
pub record Reader (H : Type 0) : Type 0 where
  pub state : Phase
  pub handler : H
  pub partial : Bytes
  pub capacity : ℕ
  pub need_recovery : Bool
  pub corruption_reported : Bool
  pub total_num_read : ℕ
  pub file_header : RawFileHeader

-- `kBufferSizeInit`.
abbrev pub buffer_size_init : ℕ
buffer_size_init = 2048

-- `Reader::Reader`, on a little-endian machine.
abbrev pub new_reader : {H : Type 0} → H → Reader H
new_reader h = record {
  state = Phase.read_magic;
  handler = h;
  partial = [];
  capacity = buffer_size_init;
  need_recovery = false;
  corruption_reported = false;
  total_num_read = 0;
  file_header = record { magic = 0 ∷ 0 ∷ 0 ∷ 0 ∷ 0 ∷ 0 ∷ 0 ∷ 0 ∷ []; timestamp = 0 };
}

-- A call through `_data_handler_interface`.
abbrev pub call : {H A : Type 0} → Action H A → Action (Reader H) A
call m r = let (result, h) = m r.handler in (result, record r { handler = h })

abbrev pub set_state : {H : Type 0} → Phase → Action (Reader H) (Unit {0})
set_state s = modify (λ r. record r { state = s })

-- `_total_num_read += n`, a statistic.
abbrev pub count_read : {H : Type 0} → ℕ → Action (Reader H) (Unit {0})
count_read n = modify (λ r. record r { total_num_read = r.total_num_read + n })

-- `Reader::appendToPartialBuffer`: the number of bytes taken from `chunk`, and the reader.
unfoldable pub append_to_partial_buffer : {H : Type 0} → Bytes → Reader H → ℕ × Reader H
append_to_partial_buffer chunk r =
    let num_append = min (length chunk) (r.capacity - length r.partial) in
    (num_append, record r { partial = r.partial ++ take num_append chunk })

module _ {H : Type 0} (handler : DataHandler H) where
  corruption : Bool → Action (Reader H) (Unit {0})
  corruption true r = (ok tt, record r { need_recovery = true })
  corruption false r =
      proceed (call (handler.error corruption_detected true) r)
        (λ _. modify (λ s. record s { corruption_reported = true; need_recovery = true }))

  -- `Reader::corruptionDetected`: only the first corruption is reported.
  unfoldable pub on_corruption : Action (Reader H) (Unit {0})
  unfolding corruption
  on_corruption r = corruption r.corruption_reported r

  pub on_corruption_cases :
      (P : Result (Unit {0}) × Reader H → Type 0) (r : Reader H)
      → P (ok tt, record r { need_recovery = true })
      → P (
          proceed
            (call (handler.error corruption_detected true) r)
            (λ _. modify (λ s. record s { corruption_reported = true; need_recovery = true })))
      → P (on_corruption r)
  unfolding on_corruption
  on_corruption_cases P r reported fresh = by_flag r.corruption_reported
    where
      by_flag : (b : Bool) → P (corruption b r)
      by_flag true = reported
      by_flag false = fresh
