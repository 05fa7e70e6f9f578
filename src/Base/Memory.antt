-- ===== src/Base/Memory.antt =====
-- Reads through a pointer, as `reinterpret_cast` on packed structs makes them: the memory is the list
-- of the bytes from the pointer on, and a read past its end is a fault.
use my_ulog.Base.{
  ℕ, zero, suc, ◌+◌, ◌*◌, ◌^◌, ◌≤◌, ◌<◌, ◌≡◌, ◌∙◌, [], ◌∷◌, ◌++◌, arith, ltb, leb, if◌then◌else◌,
  length, take, drop, length-append, take-length, le→leb, lt→ltb, drop-length, ap,
}
use my_ulog.Base.Bytes.{Bytes, le_bytes, le_value, length-le_bytes, le_value-le_bytes}
use my_ulog.Base.Result.{Result, ok, fault}

abbrev pub byte_at : ℕ → Bytes → ℕ
byte_at i [] = 0
byte_at zero (b ∷ bs) = b
byte_at (suc i) (b ∷ bs) = byte_at i bs

-- The 16-bit word at a position, its low byte first.
abbrev pub u16_at : ℕ → Bytes → ℕ
u16_at i m = byte_at i m + 256 * byte_at (suc i) m

unfoldable pub read_u8 : ℕ → Bytes → Result ℕ
read_u8 i m = if ltb i (length m) then ok (byte_at i m) else fault

unfoldable pub read_u16 : ℕ → Bytes → Result ℕ
read_u16 i m = if ltb (suc i) (length m) then ok (u16_at i m) else fault

unfoldable pub read_bytes : ℕ → ℕ → Bytes → Result Bytes
read_bytes i n m = if leb (i + n) (length m) then ok (take n (drop i m)) else fault

unfoldable pub read_u64 : ℕ → Bytes → Result ℕ
read_u64 i m = if leb (i + 8) (length m) then ok (le_value (take 8 (drop i m))) else fault

-- Reads at fixed positions of a memory that is long enough.
pub read_u8-eq : (i : ℕ) (m : Bytes) → i < length m → read_u8 i m ≡ ok (byte_at i m)
unfolding read_u8
read_u8-eq i m h = rw (lt→ltb i (length m) h)

pub read_u16-eq : (i : ℕ) (m : Bytes) → suc i < length m → read_u16 i m ≡ ok (u16_at i m)
unfolding read_u16
read_u16-eq i m h = rw (lt→ltb (suc i) (length m) h)

-- A word that was written is read back.
pub le_value-take :
    (k n : ℕ) (rest : Bytes) → n < 256 ^ k → le_value (take k (le_bytes k n ++ rest)) ≡ n
le_value-take k n rest h =
    rw (length-le_bytes k n) at (ap le_value (take-length (le_bytes k n) rest))
    ∙ le_value-le_bytes k n h

-- The part `ys` of the memory `m` is read whole.
pub read_bytes_part :
    (xs ys zs : Bytes) {m : Bytes} {i n : ℕ}
    → m ≡ xs ++ (ys ++ zs)
    → i ≡ length xs
    → n ≡ length ys
    → read_bytes i n m ≡ ok ys
unfolding read_bytes
read_bytes_part xs ys zs e ei en = rw (e, ei, en, le→leb _ _ fits) (ap ok cut)
  where
    fits : length xs + length ys ≤ length (xs ++ (ys ++ zs))
    fits = omega (arith, length-append xs (ys ++ zs), length-append ys zs)

    cut : take (length ys) (drop (length xs) (xs ++ (ys ++ zs))) ≡ ys
    cut = rw (drop-length xs (ys ++ zs)) (take-length ys zs)

-- The 64-bit word that was written behind `xs` is read back.
pub read_u64_part :
    (xs zs : Bytes) (n : ℕ) {m : Bytes} {i : ℕ}
    → m ≡ xs ++ (le_bytes 8 n ++ zs)
    → i ≡ length xs
    → n < 2 ^ 64
    → read_u64 i m ≡ ok n
unfolding read_u64
read_u64_part xs zs n e ei small =
    rw (e, ei, drop-length xs (le_bytes 8 n ++ zs), le_value-take 8 n zs small, le→leb _ _ fits)
  where
    fits : length xs + 8 ≤ length (xs ++ (le_bytes 8 n ++ zs))
    fits = omega (
      arith,
      length-append xs (le_bytes 8 n ++ zs),
      length-append (le_bytes 8 n) zs,
      length-le_bytes 8 n,
    )

-- The message in front of the memory is there in full: its payload and the three header bytes.
abbrev pub IsComplete : Bytes → Type 0
IsComplete m = (3 ≤ length m) × (u16_at 0 m + 3 ≤ length m)
