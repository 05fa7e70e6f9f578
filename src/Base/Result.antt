-- ===== src/Base/Result.antt =====
-- Outcomes of C++ code as values (include/ulog_cpp/exception.hpp): a value, a thrown exception, an
-- access outside the memory that the code was given, or a loop of the model that ran out of fuel.
use my_ulog.Base.Bytes.{Bytes}
use mathlib.Core.Bool.{Bool, true, false, ◌||◌}
use mathlib.Core.Path.{◌≡◌, refl}
use native.Mathlib.Omega.{arith}
use my_ulog.Base.Tests.{if◌then◌else◌}

-- The texts that the code puts into its exceptions and error reports, a constructor for each.
pub data Reason : Type 0 where
  message_too_short key_too_long invalid_key_format missing_bracket : Reason
  unexpected_size message_too_long no_colon no_semicolon invalid_sync : Reason
  continued_without_previous duplicate_format duplicate_msg_id invalid_subscription : Reason
  formats_after_header subscription_before_header : Reason
  header_already_complete header_not_complete first_field_not_timestamp : Reason
  needs_little_endian sizeof_too_small invalid_id : Reason
  duplicate_format_name invalid_name invalid_field_name invalid_field_type : Bytes → Reason
  requires_padding format_not_found : Bytes → Reason
  empty_filename empty_path not_initialized invalid_filename failed_to_open : Reason
  empty_key empty_struct id_not_found : Reason
  init_failed : Bytes → Reason
  corruption_detected short_magic bad_magic short_flags appended_offsets unknown_flags : Reason

-- `ParsingException`, `UsageException`, and what the standard library throws in `std::stoi`.
pub data Exception : Type 0 where
  parsing usage : Reason → Exception
  invalid_argument out_of_range : Exception

pub data Result {ℓ} (A : Type ℓ) : Type ℓ where
  ok : A → Result A
  throw : Exception → Result A
  fault : Result A
  out_of_fuel : Result A

infixl 5 ◌>>=◌ ◌>>◌
abbrev pub ◌>>=◌ {ℓ κ} : {A : Type ℓ} {B : Type κ} → Result A → (A → Result B) → Result B
ok a >>= f = f a
throw e >>= f = throw e
fault >>= f = fault
out_of_fuel >>= f = out_of_fuel

abbrev pub ◌>>◌ {ℓ} : {B : Type ℓ} → Result (Unit {0}) → Result B → Result B
m >> k = m >>= λ _. k

-- `if (test) throw e;`
abbrev pub throw_if : Bool → Exception → Result (Unit {0})
throw_if true e = throw e
throw_if false e = ok tt

-- Neither an access outside memory nor an endless loop.
abbrev pub IsSound {ℓ} : {A : Type ℓ} → Result A → Type 0
IsSound (ok a) = Unit
IsSound (throw e) = Unit
IsSound fault = ⊥
IsSound out_of_fuel = ⊥

pub ok-injective {ℓ} : {A : Type ℓ} {a b : A} → ok a ≡ ok b → a ≡ b
ok-injective h = cc

-- A check that throws, and let its value through.
pub else_ok {ℓ} :
    {A : Type ℓ} (test : Bool) (e : Exception) {a b : A}
    → (if test then throw e else ok a) ≡ ok b
    → (test ≡ false) × (a ≡ b)
else_ok true e h = cc
else_ok false e h = (refl, ok-injective h)

pub or_false : (a b : Bool) → (a || b) ≡ false → (a ≡ false) × (b ≡ false)
or_false a b h = ground arith
