-- ===== src/Checks/Writable.antt =====
-- A format that passed the checks can be written and read back.
use my_ulog.Base.{
  ℕ, ◌^◌, ◌<◌, ◌≡◌, ◌≢◌, refl, sym, ap, ◌∙◌, Bool, true, false, ◌&&◌, List, [], ◌∷◌, some, arith,
  length, All, All-append, ℤ, pos, negsuc,
}
use my_ulog.Base.Bytes.{Bytes, Lacks}
use my_ulog.Base.Decimal.{to_string, to_string-Lacks}
use my_ulog.Base.Result.{ok}
use my_ulog.Messages.Field.{Field, encode, encode_length, IsLength}
use my_ulog.Messages.Format.{definition, IsFormat, IsMember}
use my_ulog.Messages.Value.{basic_types, basic_size, basic_size-cases}
use my_ulog.Checks.{matches, all_in, format_name_char, check_names, sum_fields}
use my_ulog.Checks.Accepted.{IsAccepted, sum_fields-cons, check_names-cons}

-- A byte outside the class does not stand in a text that matches it.
all_in-Lacks :
    (class : ℕ → Bool) (c : ℕ) (s : Bytes) → class c ≡ false → all_in class s ≡ true → Lacks c s
unfolding all_in
all_in-Lacks class c [] outside all = tt
all_in-Lacks class c (d ∷ s) outside all =
    let (here, rest) = both (class d) (all_in class s) all in
    (λ e. clash (sym outside ∙ ap class (sym e) ∙ here), all_in-Lacks class c s outside rest)
  where
    both : (a b : Bool) → (a && b) ≡ true → (a ≡ true) × (b ≡ true)
    both a b e = ground (arith, e)

    clash : false ≡ true → ⊥
    clash e = cc

matches-Lacks :
    (class : ℕ → Bool) (c : ℕ) (s : Bytes) → class c ≡ false → matches class s ≡ true → Lacks c s
unfolding matches
matches-Lacks class c [] outside all = tt
matches-Lacks class c (d ∷ s) outside all = all_in-Lacks class c (d ∷ s) outside all

-- The basic types hold neither separator.
IsPlain : Bytes → ℕ → Type 0
IsPlain type size = Lacks b' ' type × Lacks b'[' type × Lacks b';' type

basic_types-IsPlain : All (λ e. IsPlain e.0 e.1) basic_types
unfolding IsPlain
basic_types-IsPlain = omega arith

basic-IsPlain :
    (type : Bytes) (size : ℕ) → basic_size basic_types type ≡ some size → IsPlain type size
basic-IsPlain type size e = basic_size-cases IsPlain basic_types type size basic_types-IsPlain e

semicolon : ◌≢◌ {A = ℕ} b'[' b';' × ◌≢◌ {A = ℕ} b']' b';' × ◌≢◌ {A = ℕ} b' ' b';'
semicolon = omega arith

encode_length-Lacks : (l : ℤ) → Lacks b';' (encode_length l)
unfolding encode_length
encode_length-Lacks (pos n) = (
  semicolon.0,
  All-append (λ b. b ≢ b';') (to_string (pos n)) (b']' ∷ []) (to_string-Lacks n b';' refl)
      (semicolon.1, tt),
)
encode_length-Lacks (negsuc n) = tt

field-IsMember :
    (class : ℕ → Bool) (f : Field) (size : ℕ)
    → class b';' ≡ false
    → matches class f.name ≡ true
    → basic_size basic_types f.type ≡ some size
    → IsLength f.array_length
    → IsMember f
unfolding encode IsPlain
field-IsMember class f size outside valid basic len =
    let (space, bracket, semi) = basic-IsPlain f.type size basic in
    record {
      key = record { no_space = space; no_bracket = bracket; in_range = len };
      no_semicolon =
          All-append (λ b. b ≢ b';') f.type _ semi
            (All-append (λ b. b ≢ b';') (encode_length f.array_length) _
              (encode_length-Lacks f.array_length)
              (semicolon.2, matches-Lacks class b';' f.name outside valid));
    }

fields-IsMember :
    (class : ℕ → Bool) (fields : List Field) (from total : ℕ)
    → class b';' ≡ false
    → check_names class fields ≡ ok tt
    → sum_fields from fields ≡ ok total
    → All (λ f. IsLength f.array_length) fields
    → All IsMember fields
fields-IsMember class [] from total outside names sizes lens = tt
fields-IsMember class (f ∷ fs) from total outside names sizes (len, lens) =
    let (valid, names') = check_names-cons class f fs names in
    let (next, added, sizes') = sum_fields-cons from f fs total sizes in
    (
      field-IsMember class f added.size outside valid added.basic len,
      fields-IsMember class fs next total outside names' sizes' lens,
    )

-- What an accepted format is written as can be taken apart again.
pub IsAccepted-IsFormat :
    (class : ℕ → Bool) (formats : List (Bytes × ℕ)) (name : Bytes) (fields : List Field) (size : ℕ)
    → class b';' ≡ false
    → IsAccepted class formats name fields size
    → All (λ f. IsLength f.array_length) fields
    → length (definition (record { name = name; fields = fields })) < 2 ^ 31
    → IsFormat (record { name = name; fields = fields })
IsAccepted-IsFormat class formats name fields size outside h lens small = record {
  no_colon = matches-Lacks format_name_char b':' name refl h.valid_name;
  members = fields-IsMember class fields 0 size outside h.valid_fields h.summed lens;
  in_memory = small;
}
