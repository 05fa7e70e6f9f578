-- ===== src/Messages/Value.antt =====
-- src/messages.cpp, `Value`: the typed value of an information message or a parameter.
use my_ulog.Base.{
  ℕ, ◌-◌, ◌*◌, ◌^◌, ◌≡◌, List, [], ◌∷◌, Bool, ◌&&◌, arith, ltb, ◌==◌, if◌then◌else◌, length, All,
  Bool-cases, inl, inr, ◌≢◌, ℤ, pos, negsuc, is_minus_one, is_positive, Option, none, some,
}
use mathlib.Core.Path.{subst₂}
use my_ulog.Base.Bytes.{Bytes, codes, le_value, bytes_eq, bytes_eq_iff}
use my_ulog.Base.Result.{Result, ok, throw, parsing, fault, out_of_fuel, unexpected_size}
use my_ulog.Messages.Field.{Field}

-- `Value::ValueType`. A number stands for what its bytes mean in two's complement, a float or a double
-- for its bit pattern, and a bool or a char for its byte.
pub data Value : Type 0 where
  int8 int16 int32 int64 : ℤ → Value
  uint8 uint16 uint32 uint64 : ℕ → Value
  float double bool char : ℕ → Value
  string : Bytes → Value
  raw : Bytes → Value

-- The integer that the pattern `n` of `2 * half` values stands for.
abbrev signed : ℕ → ℕ → ℤ
signed half n = if ltb n half then pos n else negsuc (2 * half - n - 1)

-- `Value::assign<T>` for a type of `size` bytes.
assign : ℕ → (ℕ → Value) → Bytes → Result Value
assign size make value =
    if length value == size then ok (make (le_value value)) else throw (parsing unexpected_size)

-- `field.array_length == -1 && field.type == name`.
is_scalar : Field → Bytes → Bool
is_scalar field name = is_minus_one field.array_length && bytes_eq field.type name

-- `Value::Value(const Field& field, const std::vector<uint8_t>& value)`.
unfoldable pub value_of : Field → Bytes → Result Value
unfolding assign is_scalar
value_of field value =
    if is_scalar field (codes "int8_t")
    then assign 1 (λ n. int8 (signed (2 ^ 7) n)) value
    else if is_scalar field (codes "uint8_t")
    then assign 1 uint8 value
    else if is_scalar field (codes "int16_t")
    then assign 2 (λ n. int16 (signed (2 ^ 15) n)) value
    else if is_scalar field (codes "uint16_t")
    then assign 2 uint16 value
    else if is_scalar field (codes "int32_t")
    then assign 4 (λ n. int32 (signed (2 ^ 31) n)) value
    else if is_scalar field (codes "uint32_t")
    then assign 4 uint32 value
    else if is_scalar field (codes "int64_t")
    then assign 8 (λ n. int64 (signed (2 ^ 63) n)) value
    else if is_scalar field (codes "uint64_t")
    then assign 8 uint64 value
    else if is_scalar field (codes "float")
    then assign 4 float value
    else if is_scalar field (codes "double")
    then assign 8 double value
    else if is_scalar field (codes "bool")
    then assign 1 bool value
    else if is_scalar field (codes "char")
    then assign 1 char value
    else if is_positive field.array_length && bytes_eq field.type (codes "char")
    then ok (string value)
    else ok (raw value)

-- `Field::kBasicTypes`.
abbrev pub basic_types : List (Bytes × ℕ)
basic_types =
    (codes "int8_t", 1)
    ∷ (codes "uint8_t", 1)
    ∷ (codes "int16_t", 2)
    ∷ (codes "uint16_t", 2)
    ∷ (codes "int32_t", 4)
    ∷ (codes "uint32_t", 4)
    ∷ (codes "int64_t", 8)
    ∷ (codes "uint64_t", 8)
    ∷ (codes "float", 4)
    ∷ (codes "double", 8)
    ∷ (codes "bool", 1)
    ∷ (codes "char", 1)
    ∷ []

-- `find` in the table.
unfoldable pub basic_size : List (Bytes × ℕ) → Bytes → Option ℕ
basic_size [] type = none
basic_size ((name, size) ∷ table) type =
    if bytes_eq name type then some size else basic_size table type

abbrev pub scalar : Bytes → Bytes → Field
scalar type name = record { type = type; array_length = negsuc 0; name = name }

-- Whether a value is accepted, as its size says.
abbrev pub SizeDecides : ℕ → Bytes → Result Value → Type 0
SizeDecides size value (ok v) = length value ≡ size
SizeDecides size value (throw e) = (e ≡ parsing unexpected_size) × (length value ≢ size)
SizeDecides size value fault = ⊥
SizeDecides size value out_of_fuel = ⊥

assign-SizeDecides :
    (size : ℕ) (make : ℕ → Value) (value : Bytes) → SizeDecides size value (assign size make value)
unfolding assign
assign-SizeDecides size make value = ground arith

some_eq : {a b : ℕ} → some a ≡ some b → a ≡ b
some_eq e = cc

pub basic_size-cases :
    (P : Bytes → ℕ → Type 0) (table : List (Bytes × ℕ)) (type : Bytes) (size : ℕ)
    → All (λ e. P e.0 e.1) table
    → basic_size table type ≡ some size
    → P type size
unfolding basic_size
basic_size-cases P [] type size h e = cc
basic_size-cases P ((name, n) ∷ table) type size h e = elim (Bool-cases (bytes_eq name type)) [
  | inl same ↦ subst₂ P ((bytes_eq_iff name type).0 same) (some_eq (rw same at e)) h.0
  | inr other ↦ basic_size-cases P table type size h.1 (rw other at e)
]

-- A scalar field of a basic type has a value exactly if the bytes are as many as `kBasicTypes` says;
-- else the value is refused.
pub value_of_basic :
    (type name value : Bytes) (size : ℕ)
    → basic_size basic_types type ≡ some size
    → SizeDecides size value (value_of (scalar type name) value)
unfolding value_of bytes_eq
value_of_basic type name value size e =
    basic_size-cases (λ ty n. SizeDecides n value (value_of (scalar ty name) value)) basic_types
      type size
      (
        assign-SizeDecides 1 (λ n. int8 (signed (2 ^ 7) n)) value,
        (
          assign-SizeDecides 1 uint8 value,
          (
            assign-SizeDecides 2 (λ n. int16 (signed (2 ^ 15) n)) value,
            (
              assign-SizeDecides 2 uint16 value,
              (
                assign-SizeDecides 4 (λ n. int32 (signed (2 ^ 31) n)) value,
                (
                  assign-SizeDecides 4 uint32 value,
                  (
                    assign-SizeDecides 8 (λ n. int64 (signed (2 ^ 63) n)) value,
                    (
                      assign-SizeDecides 8 uint64 value,
                      (
                        assign-SizeDecides 4 float value,
                        (
                          assign-SizeDecides 8 double value,
                          (assign-SizeDecides 1 bool value, (assign-SizeDecides 1 char value, tt)),
                        ),
                      ),
                    ),
                  ),
                ),
              ),
            ),
          ),
        ),
      )
      e
