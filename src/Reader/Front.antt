-- ===== src/Reader/Front.antt =====
-- src/reader.cpp: what `readChunk` and `tryToRecover` read of a header, to see whether a message is there. A
-- read past the bytes that are there is a fault.
use my_ulog.Base.{
  ℕ, suc, ◌+◌, ◌≤◌, ◌≡◌, refl, Bool, true, false, not, ◌&&◌, Option, none, some, [], ◌∷◌,
  if◌then◌else◌, length, ltb, leb, ◌==◌, arith, Bool-cases, inl, inr,
}
use my_ulog.Base.Bytes.{Bytes}
use my_ulog.Base.Memory.{u16_at, byte_at, read_u8, read_u16, read_u8-eq, read_u16-eq}
use my_ulog.Base.Result.{Result, ok, ◌>>=◌}
use my_ulog.Messages.Raw.{UlogMessageType, of_byte}

-- The length of the message at the front of the chunk, 0 if it is not there in full.
unfoldable pub full_message_length : Bytes → Result ℕ
full_message_length chunk =
    if ltb 3 (length chunk)
    then (read_u16 0 chunk >>= λ msg_size.
        ok (if leb (msg_size + 3) (length chunk) then msg_size + 3 else 0))
    else ok 0

abbrev is_listed : Option UlogMessageType → Bool
is_listed none = false
is_listed (some t) = true

-- The conditions on a size that is not 0 and a type.
abbrev is_sane : ℕ → ℕ → Bool
is_sane msg_size msg_type =
    not (msg_type == 0) && (ltb msg_size 10000 && is_listed (of_byte msg_type))

-- The test of the recovery for a header that looks sane: the type is read if the size is not 0.
unfoldable pub looks_sane : Bytes → Result Bool
looks_sane s = read_u16 0 s >>= λ msg_size.
    if msg_size == 0 then ok false else (read_u8 2 s >>= λ msg_type. ok (is_sane msg_size msg_type))

-- The `for` loop of the recovery, on the bytes from `index` on: it stops at a sane header, and where no
-- byte follows a header.
unfoldable pub search : ℕ → Bytes → Result (ℕ × Bool)
search index [] = ok (index, false)
search index (b ∷ bs) =
    let later = search (suc index) bs in
    if ltb (length bs) 3
    then ok (index, false)
    else (looks_sane (b ∷ bs) >>= λ sane. if sane then ok (index, true) else later)

-- The length that the front of a chunk states, if the chunk has that many bytes.
abbrev pub front_length : Bytes → ℕ
front_length chunk =
    if ltb 3 (length chunk) && leb (u16_at 0 chunk + 3) (length chunk)
    then u16_at 0 chunk + 3
    else 0

-- The header is read only where it is there.
pub full_message_length-eq : (chunk : Bytes) → full_message_length chunk ≡ ok (front_length chunk)
unfolding full_message_length
full_message_length-eq chunk = elim (Bool-cases (ltb 3 (length chunk))) [
  | inl long ↦ rw (long, read_u16-eq 0 chunk (ground (arith, long))) refl
  | inr short ↦ rw short refl
]

looks_sane-ok : (s : Bytes) → 3 ≤ length s → (sane : Bool) × (looks_sane s ≡ ok sane)
unfolding looks_sane
looks_sane-ok s long = elim (Bool-cases (u16_at 0 s == 0)) [
  | inl empty ↦ (false, rw (read_u16-eq 0 s (omega arith), empty) refl)
  | inr size ↦ (
    is_sane (u16_at 0 s) (byte_at 2 s),
    rw (read_u16-eq 0 s (omega arith), size, read_u8-eq 2 s (omega arith)) refl,
  )
]

-- The search reads no header past the bytes, and goes forward.
pub search-ok :
    (i : ℕ) (s : Bytes)
    → (index : ℕ) × (found : Bool) × (search i s ≡ ok (index, found)) × (i ≤ index)
unfolding search
search-ok i [] = (i, false, refl, omega arith)
search-ok i (b ∷ bs) = elim (Bool-cases (ltb (length bs) 3)) [
  | inl short ↦ (i, false, rw short refl, omega arith)
  | inr long ↦
      let (sane, read) = looks_sane-ok (b ∷ bs) (ground (arith, long)) in
      elim (Bool-cases sane) [
        | inl stop ↦ (i, true, rw (long, read, stop) refl, omega arith)
        | inr on ↦
            let (index, found, e, le) = search-ok (suc i) bs in
            (index, found, rw (long, read, on) e, omega (arith, le))
      ]
]
