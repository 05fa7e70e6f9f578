-- ===== src/DataLog/Alike.antt =====
-- Two loggers with the same tables, whose files differ in how they begin: what returns on one returns on
-- the other, and adds the same to both files.
use my_ulog.Base.{
  ◌≡◌, refl, sym, ap, ◌∙◌, Bool, true, false, some, List, ◌++◌, append_assoc, ℕ, subst,
}
use my_ulog.Base.Bytes.{Bytes}
use my_ulog.Base.Result.{Result, ok, throw, fault, out_of_fuel, Exception}
use my_ulog.Base.Action.{
  Action, proceed, proceed-ok, returned, IsReturn, ◌>>=◌, ◌>>◌, pure, modify, raise_if,
}
use my_ulog.Writer.{Writer, emit}
use my_ulog.DataLog.State.{DataLog, via, on_writer}

abbrev pub Tables : Type 0
Tables = Bool × List (Bytes × ℕ) × List ℕ × List (Bytes × ℕ)

-- What a logger knows of the file that it writes.
abbrev pub tables : DataLog → Tables
tables d = (d.header_complete, d.formats, d.subscriptions, d.id_map)

-- A method of the plain writer that does not look at the writes before.
unfoldable pub IsBlind : Action Writer (Unit {0}) → Type 0
IsBlind m =
    (flag : Bool) (shared : List Bytes)
    → (r : Result (Unit {0})) × (f : Bool) × (s : List Bytes) × ((o : List Bytes)
        → m (record { header_complete = flag; output = o ++ shared })
          ≡ (r, record { header_complete = f; output = o ++ s }))

pub emit-IsBlind : (r : Result (List Bytes)) → IsBlind (emit r)
unfolding IsBlind emit
emit-IsBlind (ok ws) flag shared = (
  ok tt,
  flag,
  shared ++ ws,
  λ o. ap (λ t. (ok tt, record { header_complete = flag; output = t })) (append_assoc o shared ws),
)
emit-IsBlind (throw x) flag shared = (throw x, flag, shared, λ o. refl)
emit-IsBlind fault flag shared = (fault, flag, shared, λ o. refl)
emit-IsBlind out_of_fuel flag shared = (out_of_fuel, flag, shared, λ o. refl)

pub guarded-IsBlind :
    (test : Bool → Bool) (x : Exception) (m : Action Writer (Unit {0}))
    → IsBlind m
    → IsBlind (λ w. proceed (raise_if (test w.header_complete) x w) (λ _. m))
unfolding IsBlind
guarded-IsBlind test x m blind flag shared = by_test (test flag)
  where
    by_test :
        (b : Bool)
        → (r : Result (Unit {0})) × (f : Bool) × (s : List Bytes) × ((o : List Bytes)
            → proceed
                (raise_if b x (record { header_complete = flag; output = o ++ shared }))
                (λ _. m)
              ≡ (r, record { header_complete = f; output = o ++ s }))
    by_test true = (throw x, flag, shared, λ o. refl)
    by_test false = blind flag shared

module _ (start other : List Bytes) where
  pub record IsAlike (a b : DataLog) : Type 0 where
    pub same : tables a ≡ tables b
    pub flag : Bool
    pub shared : List Bytes
    pub left : a.writer ≡ some (record { header_complete = flag; output = start ++ shared })
    pub right : b.writer ≡ some (record { header_complete = flag; output = other ++ shared })

  -- Where `m` returns, `n` returns the same from an alike state, and they end alike.
  unfoldable pub Simulates : {A : Type 0} → Action DataLog A → Action DataLog A → Type 0
  Simulates {A} m n =
      (a b : DataLog)
      → IsAlike a b
      → (x : A) (a' : DataLog) → m a ≡ (ok x, a')
      → (b' : DataLog) × (n b ≡ (ok x, b')) × IsAlike a' b'

  pub bind-Simulates :
      {A B : Type 0} (m n : Action DataLog A) (f g : A → Action DataLog B)
      → Simulates m n
      → ((x : A) → Simulates (f x) (g x))
      → Simulates (m >>= f) (n >>= g)
  unfolding Simulates
  bind-Simulates m n f g first second a b h y a'' e =
      let (x, a', e1, e2) = proceed-ok (m a) f y a'' e in
      let (b', f1, h') = first a b h x a' e1 in
      let (b'', f2, h'') = second x a' b' h' y a'' e2 in (b'', rw f1 f2, h'')

  -- A method that reads the tables.
  pub reads-Simulates :
      {A V : Type 0} (h : Tables → V) (m : V → Action DataLog A)
      → ((v : V) → Simulates (m v) (m v))
      → Simulates (λ d. m (h (tables d)) d) (λ d. m (h (tables d)) d)
  unfolding Simulates
  reads-Simulates h m each a b alike x a' e =
      let (b', f, after) = each (h (tables a)) a b alike x a' e in
      (b', ap (λ t. m (h t) b) (sym alike.same) ∙ f, after)

  -- A method that ends where it began.
  pub pure-Simulates : {A : Type 0} (x : A) → Simulates (pure x) (pure x)
  unfolding Simulates
  pure-Simulates x a b h y a' e =
      (b, ap (λ p. (p.0, b)) e, subst (λ t. IsAlike t b) (ap (λ p. p.1) e) h)

  -- Nothing is asked where `m` does not return.
  pub raise-Simulates :
      {A : Type 0} (r : Result A) (n : Action DataLog A)
      → (IsReturn r → ⊥)
      → Simulates (λ d. (r, d)) n
  unfolding Simulates
  raise-Simulates r n never a b h x a' e = absurd (never (returned (r, a) x a' e))

  pub raise_if-Simulates :
      (test : Bool) (x : Exception) → Simulates (raise_if test x) (raise_if test x)
  unfolding Simulates
  raise_if-Simulates true x a b h y a' e = absurd (returned _ y a' e)
  raise_if-Simulates false x a b h y a' e = pure-Simulates tt a b h y a' e

  pub modify-Simulates :
      (f g : DataLog → DataLog)
      → ((a b : DataLog) → IsAlike a b → IsAlike (f a) (g b))
      → Simulates (modify f) (modify g)
  unfolding Simulates
  modify-Simulates f g keeps a b h y a' e =
      (g b, ap (λ p. (p.0, g b)) e, subst (λ t. IsAlike t (g b)) (ap (λ p. p.1) e) (keeps a b h))

  -- The guards and the writes of one side only.
  pub raise_if-on_left :
      {A : Type 0} (test : Bool) (x : Exception) (m n : Action DataLog A)
      → Simulates m n
      → Simulates (raise_if test x >> m) n
  unfolding Simulates
  raise_if-on_left true x m n sim a b h y a' e = absurd (returned _ y a' e)
  raise_if-on_left false x m n sim a b h y a' e = sim a b h y a' e

  pub modify-on_left :
      {A : Type 0} (f : DataLog → DataLog) (m n : Action DataLog A)
      → ((a b : DataLog) → IsAlike a b → IsAlike (f a) b)
      → Simulates m n
      → Simulates (modify f >> m) n
  unfolding Simulates
  modify-on_left f m n keeps sim a b h y a' e = sim (f a) b (keeps a b h) y a' e

  pub on_writer-Simulates :
      (m : Action Writer (Unit {0})) → IsBlind m → Simulates (on_writer m) (on_writer m)
  unfolding Simulates on_writer IsBlind
  on_writer-Simulates m blind a b h x a' e =
      let (r, f, s, each) = blind h.flag h.shared in
      let end : DataLog → List Bytes → Result (Unit {0}) × DataLog =
        λ d o. (r, record d { writer = some (record { header_complete = f; output = o ++ s }) }) in
      let go_left : via m a.writer a ≡ end a start =
        ap (λ w. via m w a) h.left ∙ ap (λ p. (p.0, record a { writer = some p.1 })) (each start) in
      let go_right : via m b.writer b ≡ end b other =
        ap (λ w. via m w b) h.right
        ∙ ap (λ p. (p.0, record b { writer = some p.1 })) (each other) in
      let ends = sym go_left ∙ e in
      (
        (end b other).1,
        go_right ∙ ap (λ p. (p.0, (end b other).1)) ends,
        subst (λ t. IsAlike t (end b other).1) (ap (λ p. p.1) ends)
            (record { same = h.same; flag = f; shared = s; left = refl; right = refl }),
      )
