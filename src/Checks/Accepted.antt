-- ===== src/Checks/Accepted.antt =====
-- What is known of a format that passed the checks.
use my_ulog.Base.{
  ℕ, ◌+◌, ◌*◌, ◌%◌, ◌^◌, ◌<◌, ◌≡◌, refl, sym, Bool, true, false, not, Option, none, some, List, [],
  ◌∷◌, ◌==◌, arith,
}
use my_ulog.Base.Bytes.{Bytes}
use my_ulog.Base.Dict.{bytes_key}
use my_ulog.Base.Result.{Result, ok, throw, ◌>>=◌, throw_if, ok-injective, Exception}
use my_ulog.Messages.Field.{Field}
use my_ulog.Messages.Value.{basic_types, basic_size}
use my_ulog.Checks.{
  format_name_char, matches, starts_with_timestamp, is_known, check_names, array_size, add_field,
  sum_fields, check_format,
}

pub not-false : (b : Bool) → not b ≡ false → b ≡ true
not-false b e = ground (arith, e)

not-throw : {A : Type 0} (x : Exception) (a : A) → throw x ≡ ok a → ⊥
not-throw x a e = cc

-- A check that let its value through.
throw_if-ok :
    {A : Type 0} (b : Bool) (x : Exception) (m : Result A) (a : A)
    → (throw_if b x >>= λ _. m) ≡ ok a
    → (b ≡ false) × (m ≡ ok a)
throw_if-ok true x m a e = absurd (not-throw x a e)
throw_if-ok false x m a e = (refl, e)

>>=-ok :
    {A B : Type 0} (m : Result A) (f : A → Result B) (b : B)
    → (m >>= f) ≡ ok b
    → (a : A) × (m ≡ ok a) × (f a ≡ ok b)
>>=-ok (ok a) f b e = (a, refl, e)
>>=-ok (throw x) f b e = cc
>>=-ok Result.fault f b e = cc
>>=-ok Result.out_of_fuel f b e = cc

-- One field that was accepted behind `message_size` bytes.
pub record IsAdded (message_size : ℕ) (f : Field) (total : ℕ) : Type 0 where
  pub size : ℕ
  pub basic : basic_size basic_types f.type ≡ some size
  pub aligned : message_size % size ≡ 0
  pub sum : total ≡ (message_size + array_size f.array_length * size) % 2 ^ 32

add_field-IsAdded :
    (message_size : ℕ) (f : Field) (total : ℕ)
    → add_field message_size f (basic_size basic_types f.type) ≡ ok total
    → IsAdded message_size f total
unfolding add_field
add_field-IsAdded message_size f total e = by_size (basic_size basic_types f.type) refl e
  where
    by_size :
        (o : Option ℕ)
        → basic_size basic_types f.type ≡ o
        → add_field message_size f o ≡ ok total
        → IsAdded message_size f total
    by_size none found e = absurd (not-throw _ _ e)
    by_size (some size) found e =
        let (aligned, sum) = throw_if-ok (not (message_size % size == 0)) _ _ total e in
        record {
          size = size;
          basic = found;
          aligned = ground (arith, aligned);
          sum = sym (ok-injective sum);
        }

-- What each check of an accepted format says.
pub record IsAccepted (class : ℕ → Bool) (formats : List (Bytes × ℕ)) (name : Bytes)
    (fields : List Field) (size : ℕ) : Type 0 where
  pub timestamp_first : starts_with_timestamp fields ≡ true
  pub new_name : is_known name formats ≡ false
  pub valid_name : matches format_name_char name ≡ true
  pub valid_fields : check_names class fields ≡ ok tt
  pub summed : sum_fields 0 fields ≡ ok size

pub check_format-IsAccepted :
    (class : ℕ → Bool) (complete : Bool) (formats : List (Bytes × ℕ)) (name : Bytes)
    (fields : List Field) (size : ℕ)
    → check_format class complete formats name fields ≡ ok size
    → (complete ≡ false) × IsAccepted class formats name fields size
unfolding check_format
check_format-IsAccepted class complete formats name fields size e =
    let (early, e1) = throw_if-ok complete _ _ size e in
    let (first, e2) = throw_if-ok (not (starts_with_timestamp fields)) _ _ size e1 in
    let (new, e3) = throw_if-ok (is_known name formats) _ _ size e2 in
    let (valid, e4) = throw_if-ok (not (matches format_name_char name)) _ _ size e3 in
    let (u, names, sum) = >>=-ok (check_names class fields) (λ _. sum_fields 0 fields) size e4 in
    (
      early,
      record {
        timestamp_first = not-false _ first;
        new_name = new;
        valid_name = not-false _ valid;
        valid_fields = names;
        summed = sum;
      },
    )

pub sum_fields-cons :
    (message_size : ℕ) (f : Field) (fs : List Field) (total : ℕ)
    → sum_fields message_size (f ∷ fs) ≡ ok total
    → (next : ℕ) × IsAdded message_size f next × (sum_fields next fs ≡ ok total)
unfolding sum_fields
sum_fields-cons message_size f fs total e =
    let (next, added, rest) =
      >>=-ok (add_field message_size f (basic_size basic_types f.type)) (λ n. sum_fields n fs) total
        e in
    (next, add_field-IsAdded message_size f next added, rest)

-- The size of a message is that of an unsigned int.
pub sum_fields-lt :
    (fs : List Field) (message_size total : ℕ)
    → message_size < 2 ^ 32
    → sum_fields message_size fs ≡ ok total
    → total < 2 ^ 32
unfolding sum_fields
sum_fields-lt [] message_size total h e = omega (arith, ok-injective e)
sum_fields-lt (f ∷ fs) message_size total h e =
    let (next, added, rest) = sum_fields-cons message_size f fs total e in
    sum_fields-lt fs next total (omega (arith, added.sum)) rest

pub check_names-cons :
    (class : ℕ → Bool) (f : Field) (fs : List Field)
    → check_names class (f ∷ fs) ≡ ok tt
    → (matches class f.name ≡ true) × (check_names class fs ≡ ok tt)
unfolding check_names
check_names-cons class f fs e =
    let (valid, rest) = throw_if-ok (not (matches class f.name)) _ _ tt e in
    (not-false _ valid, rest)
