-- ===== src/Base/Action.antt =====
-- Methods of objects: a method takes the object's state, and ends with an outcome and the state reached,
-- also when it throws.
use my_ulog.Base.{◌≡◌, refl, Bool, true, false}
use my_ulog.Base.Result.{Result, ok, throw, fault, out_of_fuel, Exception}

abbrev pub Action : Type 0 → Type 0 → Type 0
Action S A = S → Result A × S

-- Goes on with `f` where the method before it returned.
abbrev pub proceed : {S A B : Type 0} → Result A × S → (A → Action S B) → Result B × S
proceed (ok a, s) f = f a s
proceed (throw e, s) f = (throw e, s)
proceed (fault, s) f = (fault, s)
proceed (out_of_fuel, s) f = (out_of_fuel, s)

infixl 5 ◌>>=◌ ◌>>◌
abbrev pub ◌>>=◌ : {S A B : Type 0} → Action S A → (A → Action S B) → Action S B
◌>>=◌ m f s = proceed (m s) f

abbrev pub ◌>>◌ : {S B : Type 0} → Action S (Unit {0}) → Action S B → Action S B
m >> k = m >>= λ _. k

abbrev pub pure : {S A : Type 0} → A → Action S A
pure a s = (ok a, s)

abbrev pub raise : {S A : Type 0} → Exception → Action S A
raise e s = (throw e, s)

abbrev pub lift : {S A : Type 0} → Result A → Action S A
lift r s = (r, s)

abbrev pub modify : {S : Type 0} → (S → S) → Action S (Unit {0})
modify f s = (ok tt, f s)

abbrev pub gets : {S A : Type 0} → (S → A) → Action S A
gets f s = (ok (f s), s)

-- `if (test) throw e;`
abbrev pub raise_if : {S : Type 0} → Bool → Exception → Action S (Unit {0})
raise_if true e s = (throw e, s)
raise_if false e s = (ok tt, s)

-- An outcome that is a return.
abbrev pub IsReturn : {A : Type 0} → Result A → Type 0
IsReturn (ok a) = Unit
IsReturn _ = ⊥

pub returned :
    {S A : Type 0} (out : Result A × S) (b : A) (s : S) → out ≡ (ok b, s) → IsReturn out.0
returned out b s e = rw e tt

-- A sequence of two methods that returned: so did both.
pub proceed-ok :
    {S A B : Type 0} (out : Result A × S) (f : A → Action S B) (b : B) (s : S)
    → proceed out f ≡ (ok b, s)
    → (a : A) × (k : S) × (out ≡ (ok a, k)) × (f a k ≡ (ok b, s))
proceed-ok (ok a, k) f b s e = (a, k, refl, e)
proceed-ok (throw x, k) f b s e = absurd (returned (throw x, k) b s e)
proceed-ok (fault, k) f b s e = absurd (returned (fault, k) b s e)
proceed-ok (out_of_fuel, k) f b s e = absurd (returned (out_of_fuel, k) b s e)

-- The same for an outcome that keeps the state.
pub lift-ok :
    {S A B : Type 0} (r : Result A) (k : S) (f : A → Action S B) (b : B) (s : S)
    → proceed (r, k) f ≡ (ok b, s)
    → (a : A) × (r ≡ ok a) × (f a k ≡ (ok b, s))
lift-ok (ok a) k f b s e = (a, refl, e)
lift-ok (throw x) k f b s e = absurd (returned (throw x, k) b s e)
lift-ok fault k f b s e = absurd (returned (fault, k) b s e)
lift-ok out_of_fuel k f b s e = absurd (returned (out_of_fuel, k) b s e)

-- A guard that was passed.
pub guard-ok :
    {S B : Type 0} (test : Bool) (x : Exception) (k : S) (f : Unit {0} → Action S B) (b : B) (s : S)
    → proceed (raise_if test x k) f ≡ (ok b, s)
    → (test ≡ false) × (f tt k ≡ (ok b, s))
guard-ok true x k f b s e = absurd (returned (throw x, k) b s e)
guard-ok false x k f b s e = (refl, e)
