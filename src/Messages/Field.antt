-- ===== src/Messages/Field.antt =====
-- src/messages.cpp, `Field`: the key `<type>[len] <name>` of a message field, printed and parsed.
use my_ulog.Base.{
  ℕ, suc, ◌-◌, ◌^◌, ◌<◌, ◌≡◌, ◌≤◌, refl, ap, [], ◌∷◌, ◌++◌, Option, none, some, append_assoc, arith,
  ◌==◌, if◌then◌else◌, ℤ, pos, negsuc, length, take, drop, take-length, drop-suc-length, All-append,
  append-nil, length-append, ◌≢◌,
}
use my_ulog.Base.Bytes.{Bytes, find, Lacks, find-append, find-Lacks}
use my_ulog.Base.Decimal.{to_string, stoi, stoi-to_string, stoi-IsSound, to_string-Lacks}
use my_ulog.Base.Memory.{byte_at}
use my_ulog.Base.Result.{
  Result, ok, throw, parsing, ◌>>=◌, invalid_key_format, missing_bracket, IsSound,
}

-- `struct Field`. An array length of -1, `negsuc 0`, means that the field is no array.
pub record Field : Type 0 where
  pub type : Bytes
  pub array_length : ℤ
  pub name : Bytes

-- The part of the constructor that looks for an array, on the text before the first space.
parse_array : Bytes → Bytes → Option ℕ → Result Field
parse_array key_array name none =
    ok (record { type = key_array; array_length = negsuc 0; name = name })
parse_array key_array name (some bracket) =
    if byte_at (length key_array - 1) key_array == b']'
    then (do
      n ← stoi (drop (suc bracket) key_array)
      ok (record { type = take bracket key_array; array_length = n; name = name }))
    else throw (parsing missing_bracket)

parse_key : Bytes → Option ℕ → Result Field
unfolding parse_array
parse_key key_value none = throw (parsing invalid_key_format)
parse_key key_value (some first_space) =
    let key_array = take first_space key_value in
    parse_array key_array (drop (suc first_space) key_value) (find b'[' key_array)

-- `Field::Field(const char* str, int len)`.
unfoldable pub parse_field : Bytes → Result Field
unfolding parse_key
parse_field key_value = parse_key key_value (find b' ' key_value)

unfoldable pub encode_length : ℤ → Bytes
encode_length (pos n) = b'[' ∷ (to_string (pos n) ++ (b']' ∷ []))
encode_length (negsuc n) = []

-- `Field::encode`.
unfoldable pub encode : Field → Bytes
unfolding encode_length
encode f = f.type ++ (encode_length f.array_length ++ (b' ' ∷ f.name))

-- The array lengths that a field can have: none, or a nonnegative int.
abbrev pub IsLength : ℤ → Type 0
IsLength (pos n) = n < 2 ^ 31
IsLength (negsuc n) = n ≡ 0

-- A field whose type has no space and no bracket. The name is free, and may hold both.
pub record IsEncodable (f : Field) : Type 0 where
  pub no_space : Lacks b' ' f.type
  pub no_bracket : Lacks b'[' f.type
  pub in_range : IsLength f.array_length

brackets-Lacks : ◌≢◌ {A = ℕ} b'[' b' ' × ◌≢◌ {A = ℕ} b']' b' '
brackets-Lacks = omega arith

digits-Lacks : (n : ℕ) → Lacks b' ' (to_string (pos n) ++ (b']' ∷ []))
digits-Lacks n =
    All-append (λ b. b ≢ b' ') (to_string (pos n)) (b']' ∷ []) (to_string-Lacks n b' ' refl)
      (brackets-Lacks.1, tt)

encode_length-Lacks : (l : ℤ) → Lacks b' ' (encode_length l)
unfolding encode_length
encode_length-Lacks (pos n) = (brackets-Lacks.0, digits-Lacks n)
encode_length-Lacks (negsuc n) = tt

byte_at-append : (xs ys : Bytes) (c : ℕ) → byte_at (length xs) (xs ++ (c ∷ ys)) ≡ c
byte_at-append [] ys c = refl
byte_at-append (x ∷ xs) ys c = byte_at-append xs ys c

-- The last byte of a text that ends with `c`, as the constructor reads it.
last_byte : (xs s : Bytes) (c : ℕ) → s ≡ xs ++ (c ∷ []) → byte_at (length s - 1) s ≡ c
last_byte xs s c e =
    let at_end : length s - 1 ≡ length xs = omega (arith, ap length e, length-append xs (c ∷ [])) in
    rw (at_end, e) (byte_at-append xs [] c)

parse_array-encode :
    (ty name : Bytes) (l : ℤ)
    → Lacks b'[' ty
    → IsLength l
    → parse_array (ty ++ encode_length l) name (find b'[' (ty ++ encode_length l))
      ≡ ok (record { type = ty; array_length = l; name = name })
unfolding parse_array encode_length
parse_array-encode ty name (pos n) h small = rw (
  find-append b'[' ty (to_string (pos n) ++ (b']' ∷ [])) h,
  last_byte (ty ++ (b'[' ∷ to_string (pos n))) (ty ++ (b'[' ∷ (to_string (pos n) ++ (b']' ∷ []))))
      b']' (rw append_assoc),
  drop-suc-length ty (to_string (pos n) ++ (b']' ∷ [])) b'[',
  stoi-to_string n b']' [] small refl,
  take-length ty (b'[' ∷ (to_string (pos n) ++ (b']' ∷ []))),
)
parse_array-encode ty name (negsuc n) h small = rw (append-nil, find-Lacks b'[' ty h, small)

-- Parsing what `encode` printed gives the field back.
-- The values fit the format, as `IsEncodable` says.
pub parse_field-encode : (f : Field) → IsEncodable f → parse_field (encode f) ≡ ok f
unfolding parse_field encode
parse_field-encode f h =
    let key_array = f.type ++ encode_length f.array_length in
    let lacks : Lacks b' ' key_array =
      All-append (λ b. b ≢ b' ') f.type (encode_length f.array_length) h.no_space
        (encode_length-Lacks f.array_length) in
    rw
      (
        ← append_assoc,
        find-append b' ' key_array f.name lacks,
        take-length key_array (b' ' ∷ f.name),
        drop-suc-length key_array f.name b' ',
      )
      (parse_array-encode f.type f.name f.array_length h.no_bracket h.in_range)

parse_array-IsSound :
    (key_array name : Bytes) (bracket : Option ℕ) → IsSound (parse_array key_array name bracket)
unfolding parse_array
parse_array-IsSound key_array name none = tt
parse_array-IsSound key_array name (some bracket) =
    ground (arith, stoi-IsSound (drop (suc bracket) key_array))

parse_key-IsSound : (key : Bytes) (space : Option ℕ) → IsSound (parse_key key space)
unfolding parse_key
parse_key-IsSound key none = tt
parse_key-IsSound key (some first_space) =
    parse_array-IsSound (take first_space key) (drop (suc first_space) key)
      (find b'[' (take first_space key))

-- Parsing ends with a field or an exception, on every text.
pub parse_field-IsSound : (key : Bytes) → IsSound (parse_field key)
unfolding parse_field
parse_field-IsSound key = parse_key-IsSound key (find b' ' key)

-- The print of a key holds its separating space.
pub length-encode_pos : (f : Field) → 1 ≤ length (encode f)
unfolding encode
length-encode_pos f = omega (
  arith,
  length-append f.type (encode_length f.array_length ++ (b' ' ∷ f.name)),
  length-append (encode_length f.array_length) (b' ' ∷ f.name),
)
