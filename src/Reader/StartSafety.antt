-- ===== src/Reader/StartSafety.antt =====
-- Reading the first bytes of a file stays inside the chunk, and leaves the partial buffer alone.
use my_ulog.Base.{
  ℕ, ◌+◌, ◌≤◌, ◌≡◌, refl, Bool, true, false, arith, if◌then◌else◌, length, ltb, ◌==◌, take,
}
use my_ulog.Base.Bytes.{Bytes, bytes_eq}
use my_ulog.Base.Memory.{read_u8, read_u16, read_u64, read_bytes, byte_at}
use my_ulog.Base.Result.{
  Result, Reason, IsSound, short_magic, bad_magic, short_flags, appended_offsets, unknown_flags,
}
use my_ulog.Base.Action.{Action, ◌>>◌, lift, pure}
use my_ulog.Handler.{DataHandler, Event, dispatch}
use my_ulog.Messages.Raw.{file_magic_bytes}
use my_ulog.Messages.FileHeader.{FlagBits, header_with_flags, header_without_flags}
use my_ulog.Reader.State.{Phase, Reader, call, set_state}
use my_ulog.Reader.Start.{
  raw_file_header, raw_flag_bits, has_incompat_flags, give_up, read_magic, accept_flags,
  read_flag_bits,
}
use my_ulog.Reader.Keeps.{IsSoundHandler, Keeps, proceed-Keeps, call-Keeps}
use my_ulog.Reader.Safety.{moved-Keeps, nothing-Keeps}

-- The structs are there in full where the code looks at them.
raw_file_header-IsSound : (chunk : Bytes) → 16 ≤ length chunk → IsSound (raw_file_header chunk)
unfolding raw_file_header read_bytes read_u64
raw_file_header-IsSound chunk h = ground arith

raw_flag_bits-IsSound : (chunk : Bytes) → 43 ≤ length chunk → IsSound (raw_flag_bits chunk)
unfolding raw_flag_bits read_bytes read_u64 read_u16 read_u8
raw_flag_bits-IsSound chunk h = ground arith

module _ {H : Type 0} (handler : DataHandler H) (good : IsSoundHandler handler) where
  give_up-Keeps : (msg : Reason) (r : Reader H) → Keeps r (give_up handler msg r)
  unfolding give_up
  give_up-Keeps msg r =
      proceed-Keeps r _ _
        (call-Keeps r r (handler.error msg false) refl refl
          (good.sound (Event.error msg false) r.handler))
        (λ u s p c. record { sound = tt; partial = p; capacity = c })

  lift-Keeps :
      {A : Type 0} (r : Reader H) (result : Result A) → IsSound result → Keeps r (lift result r)
  lift-Keeps r result h = record { sound = h; partial = refl; capacity = refl }

  if_else-Keeps :
      {A : Type 0} (r : Reader H) (b : Bool) (x y : Action (Reader H) A) (s : Reader H)
      → (b ≡ true → Keeps r (x s))
      → (b ≡ false → Keeps r (y s))
      → Keeps r ((if b then x else y) s)
  if_else-Keeps r true x y s hx hy = hx refl
  if_else-Keeps r false x y s hx hy = hy refl

  pub read_magic-Keeps : (chunk : Bytes) (r : Reader H) → Keeps r (read_magic handler chunk r)
  unfolding read_magic
  read_magic-Keeps chunk r =
      if_else-Keeps r (ltb (length chunk) 16) _ _ r (λ _. give_up-Keeps short_magic r)
        λ long.
          proceed-Keeps r _ _ (lift-Keeps r _ (raw_file_header-IsSound chunk (ground arith)))
            λ header s p c. moved-Keeps handler good r s _ p c (
              if_else-Keeps s (bytes_eq (take 7 header.magic) file_magic_bytes) _ _ s
                (λ _. record { sound = tt; partial = refl; capacity = refl })
                (λ _. give_up-Keeps bad_magic s))

  -- A handler call, and then a change of the state alone.
  hand_over-Keeps :
      (r : Reader H) (event : Event) (n : ℕ)
      → Keeps r ((call (dispatch handler event) >> (set_state Phase.read_header >> pure n)) r)
  hand_over-Keeps r event n =
      proceed-Keeps r _ _
        (call-Keeps r r (dispatch handler event) refl refl (good.sound event r.handler))
        (λ u s p c. record { sound = tt; partial = p; capacity = c })

  accept_flags-Keeps : (flags : FlagBits) (r : Reader H) → Keeps r (accept_flags handler flags r)
  unfolding accept_flags
  accept_flags-Keeps flags r =
      proceed-Keeps r _ _
        (if_else-Keeps r (byte_at 0 flags.appended_offsets == 0) _ _ r
          (λ _. nothing-Keeps handler good r)
          (λ _.
            call-Keeps r r (handler.error appended_offsets true) refl refl
              (good.sound (Event.error appended_offsets true) r.handler)))
        λ u s p c. moved-Keeps handler good r s _ p c (
          if_else-Keeps s (has_incompat_flags flags.incompat_flags) _ _ s
            (λ _. give_up-Keeps unknown_flags s)
            (λ _.
              hand_over-Keeps s (Event.file_header (header_with_flags s.file_header flags))
                (flags.msg_size + 3)))

  pub read_flag_bits-Keeps :
      (chunk : Bytes) (r : Reader H) → Keeps r (read_flag_bits handler chunk r)
  unfolding read_flag_bits
  read_flag_bits-Keeps chunk r =
      if_else-Keeps r (ltb (length chunk) 43) _ _ r (λ _. give_up-Keeps short_flags r)
        λ long.
          proceed-Keeps r _ _ (lift-Keeps r _ (raw_flag_bits-IsSound chunk (ground arith)))
            λ flags s p c. moved-Keeps handler good r s _ p c (
              if_else-Keeps s (flags.msg_type == b'B') _ _ s (λ _. accept_flags-Keeps flags s)
                (λ _. hand_over-Keeps s (Event.file_header (header_without_flags s.file_header)) 0))
