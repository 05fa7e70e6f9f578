-- ===== src/Checks/Sizes.antt =====
-- The size of a message: that of its fields one after another, without padding.
use my_ulog.Base.{
  or_zero, ℕ, zero, suc, ◌+◌, ◌*◌, ◌%◌, ◌^◌, ◌<◌, ◌≡◌, sym, ap, ◌∙◌, Bool, some, List, [], ◌∷◌,
  arith, ℤ, pos, negsuc,
}
use my_ulog.Base.Bytes.{Bytes}
use my_ulog.Base.Result.{ok, ok-injective}
use my_ulog.Messages.Field.{Field}
use my_ulog.Messages.Value.{basic_types, basic_size}
use my_ulog.Checks.{array_size, sum_fields, check_format}
use my_ulog.Checks.Accepted.{check_format-IsAccepted, sum_fields-cons}

-- The elements of a field in a packed struct: those of an array, or one.
abbrev elements : ℤ → ℕ
elements (pos n) = n
elements (negsuc n) = 1

-- One for an array without elements.
abbrev if_empty : ℤ → ℕ
if_empty (pos zero) = 1
if_empty (pos (suc n)) = 0
if_empty (negsuc n) = 0

-- The bytes of a type, and of the fields of a packed struct.
abbrev type_size : Field → ℕ
type_size f = or_zero (basic_size basic_types f.type)

unfoldable pub packed_size : List Field → ℕ
packed_size [] = 0
packed_size (f ∷ fs) = elements f.array_length * type_size f + packed_size fs

-- One element of each array that has none.
unfoldable pub empty_arrays : List Field → ℕ
empty_arrays [] = 0
empty_arrays (f ∷ fs) = if_empty f.array_length * type_size f + empty_arrays fs

-- The bytes of a sample.
unfoldable pub sample_size : List Field → ℕ
sample_size fs = packed_size fs + empty_arrays fs

-- Each field has a basic type, and begins at a multiple of its size, behind `start` bytes.
unfoldable pub IsAligned : ℕ → List Field → Type 0
IsAligned start [] = Unit
IsAligned start (f ∷ fs) =
    (size : ℕ) × (basic_size basic_types f.type ≡ some size)
    × (start % size ≡ 0)
    × IsAligned (start + (elements f.array_length * size + if_empty f.array_length * size)) fs

array_size-elements :
    (l : ℤ) (size : ℕ) → array_size l * size ≡ elements l * size + if_empty l * size
array_size-elements (pos zero) size = omega arith
array_size-elements (pos (suc n)) size = grind arith
array_size-elements (negsuc n) size = omega arith

sum_fields-sample_size :
    (fs : List Field) (start total : ℕ)
    → start < 2 ^ 32
    → sum_fields start fs ≡ ok total
    → total ≡ (start + sample_size fs) % 2 ^ 32
unfolding sum_fields packed_size empty_arrays sample_size
sum_fields-sample_size [] start total small e = omega (arith, ok-injective e, small)
sum_fields-sample_size (f ∷ fs) start total small e =
    let (next, added, rest) = sum_fields-cons start f fs total e in
    let l = f.array_length in
    let n = array_size l * added.size in
    let whole : array_size l * type_size f ≡ n = ap (λ o. array_size l * or_zero o) added.basic in
    wrapped start next (elements l * type_size f) (if_empty l * type_size f) (packed_size fs)
      (empty_arrays fs) total n (sym whole ∙ array_size-elements l (type_size f)) added.sum
      (sum_fields-sample_size fs next total (omega (arith, added.sum)) rest)
  where
    wrapped :
        (a n x y p q t b : ℕ)
        → b ≡ x + y
        → n ≡ (a + b) % 2 ^ 32
        → t ≡ (n + (p + q)) % 2 ^ 32
        → t ≡ (a + ((x + p) + (y + q))) % 2 ^ 32
    wrapped a n x y p q t b e h k = omega (arith, e, h, k)

-- The size of a sample of an accepted format is an unsigned int, and may have wrapped around.
pub check_format-sample_size :
    (class : ℕ → Bool) (complete : Bool) (formats : List (Bytes × ℕ)) (name : Bytes)
    (fields : List Field) (size : ℕ)
    → check_format class complete formats name fields ≡ ok size
    → size ≡ sample_size fields % 2 ^ 32
check_format-sample_size class complete formats name fields size e =
    let accepted = (check_format-IsAccepted class complete formats name fields size e).1 in
    let sum = sum_fields-sample_size fields 0 size (omega arith) accepted.summed in
    omega (arith, sum)
