-- ===== src/Container/Order.antt =====
-- The container keeps a full log: all texts, dropouts and samples, in the order in which they came.
use my_ulog.Base.{
  ℕ, ◌≡◌, refl, sym, ap, ◌∙◌, List, [], ◌∷◌, ◌++◌, Bool, true, false, Option, none, some, arith,
  append_assoc, append-nil, if◌then◌else◌, ◌==◌, ==_iff, Bool-cases, Option-cases, inl, inr,
}
use my_ulog.Base.Dict.{nat_key, bytes_key, or_else, lookup, insert, lookup-put, lookup-insert}
use my_ulog.Base.Result.{Result, ok, throw, fault, out_of_fuel, parsing, duplicate_format}
use my_ulog.Base.Action.{proceed, returned}
use my_ulog.Handler.{Event, dispatch, run}
use my_ulog.Messages.Info.{MessageInfo}
use my_ulog.Messages.Format.{MessageFormat}
use my_ulog.Messages.Logging.{Logging}
use my_ulog.Messages.Data.{Data}
use my_ulog.Messages.Dropout.{Dropout}
use my_ulog.Container.{
  Subscription, Container, container_handler, is_header, skips, on_error, on_header_complete,
  on_file_header, on_message_info, on_message_format, on_parameter, on_parameter_default,
  on_add_logged_message, on_logging, on_data, on_dropout, add_sample, continue_last, set_groups,
  groups,
}

-- The texts, the dropouts and the samples of a topic among the calls.
abbrev pub texts : List Event → List Logging
texts [] = []
texts (Event.logging l ∷ es) = l ∷ texts es
texts (_ ∷ es) = texts es

abbrev pub dropouts_of : List Event → List Dropout
dropouts_of [] = []
dropouts_of (Event.dropout d ∷ es) = d ∷ dropouts_of es
dropouts_of (_ ∷ es) = dropouts_of es

abbrev pub data_of : ℕ → List Event → List Data
data_of id [] = []
data_of id (Event.logged_data d ∷ es) =
    let rest = data_of id es in if d.msg_id == id then d ∷ rest else rest
data_of id (_ ∷ es) = data_of id es

-- The samples that are kept under an id.
abbrev pub samples_of : Option Subscription → List Data
samples_of none = []
samples_of (some s) = s.samples

-- What a run over `es` adds to a container.
pub record Kept (es : List Event) (c c' : Container) : Type 0 where
  pub config : c'.storage_config ≡ c.storage_config
  pub logging : c'.logging ≡ c.logging ++ texts es
  pub dropouts : c'.dropouts ≡ c.dropouts ++ dropouts_of es
  pub samples :
      (id : ℕ)
      → samples_of (lookup id c'.subscriptions)
        ≡ samples_of (lookup id c.subscriptions) ++ data_of id es

-- What a call that returned has added.
abbrev AfterCall : Event → Container → Result (Unit {0}) × Container → Type 0
AfterCall e c (ok u, c') = Kept (e ∷ []) c c'
AfterCall e c (_, c') = Unit

pub if_both :
    {A : Type 0} (P : A → Type 0) (b : Bool) (x y : A) → P x → P y → P (if b then x else y)
if_both P true x y hx hy = hx
if_both P false x y hx hy = hy

-- Nothing of a log.
abbrev IsQuiet : Event → Type 0
IsQuiet (Event.logging l) = ⊥
IsQuiet (Event.dropout d) = ⊥
IsQuiet (Event.logged_data d) = ⊥
IsQuiet _ = Unit

nothing_logged :
    (e : Event)
    → IsQuiet e
    → (texts (e ∷ []) ≡ []) × (dropouts_of (e ∷ []) ≡ []) × ((id : ℕ) → data_of id (e ∷ []) ≡ [])
nothing_logged (Event.logging l) h = absurd h
nothing_logged (Event.dropout d) h = absurd h
nothing_logged (Event.logged_data d) h = absurd h
nothing_logged _ h = (refl, refl, λ id. refl)

quiet :
    (e : Event) (c c' : Container)
    → IsQuiet e
    → c'.storage_config ≡ c.storage_config
    → c'.logging ≡ c.logging
    → c'.dropouts ≡ c.dropouts
    → ((id : ℕ) → samples_of (lookup id c'.subscriptions) ≡ samples_of (lookup id c.subscriptions))
    → Kept (e ∷ []) c c'
quiet e c c' h config logging dropouts samples =
    let (t, d, s) = nothing_logged e h in
    record {
      config = config;
      logging = rw t (logging ∙ sym (append-nil c.logging));
      dropouts = rw d (dropouts ∙ sym (append-nil c.dropouts));
      samples =
          λ id. rw (s id) (samples id ∙ sym (append-nil (samples_of (lookup id c.subscriptions))));
    }

pub unskipped : (c : Container) → is_header c.storage_config ≡ false → skips c ≡ false
unskipped c e = ground (arith, e)

continue_last-Kept :
    (info : MessageInfo) (gs : List (List MessageInfo)) (c : Container)
    → AfterCall (Event.message_info info) c (continue_last info gs c)
unfolding continue_last set_groups
continue_last-Kept info [] c = tt
continue_last-Kept info (g ∷ gs) c = quiet _ c _ tt refl refl refl (λ id. refl)

new_entry :
    (o : Option Subscription) (b : Bool) (s : Subscription)
    → s.samples ≡ []
    → samples_of (or_else o (if b then some s else none)) ≡ samples_of o
new_entry (some t) b s e = refl
new_entry none true s e = e
new_entry none false s e = refl

added_sample :
    (d : Data) (s : Subscription) (id : ℕ) (m : List (ℕ × Subscription))
    → lookup d.msg_id m ≡ some s
    → samples_of (if d.msg_id == id then some (add_sample d s) else lookup id m)
      ≡ samples_of (lookup id m) ++ data_of id (Event.logged_data d ∷ [])
added_sample d s id m e = elim (Bool-cases (d.msg_id == id)) [
  | inl same ↦
      let found : lookup id m ≡ some s =
        ap (λ k. lookup k m) (sym ((==_iff d.msg_id id).0 same)) ∙ e in
      rw (same, found)
  | inr other ↦ rw other (sym (append-nil (samples_of (lookup id m))))
]

call-Kept :
    (e : Event) (c : Container)
    → is_header c.storage_config ≡ false
    → AfterCall e c (dispatch container_handler e c)
unfolding on_error on_header_complete on_file_header on_message_info on_message_format on_parameter
    on_parameter_default on_add_logged_message on_logging on_data on_dropout
call-Kept Event.header_complete c h = quiet _ c _ tt refl refl refl (λ id. refl)
call-Kept (Event.error x y) c h = quiet _ c _ tt refl refl refl (λ id. refl)
call-Kept (Event.file_header x) c h = quiet _ c _ tt refl refl refl (λ id. refl)
call-Kept (Event.logging x) c h = rw (unskipped c h) (record {
  config = refl;
  logging = refl;
  dropouts = sym (append-nil c.dropouts);
  samples = λ id. sym (append-nil (samples_of (lookup id c.subscriptions)));
})
call-Kept (Event.dropout x) c h = rw (unskipped c h) (record {
  config = refl;
  logging = sym (append-nil c.logging);
  dropouts = refl;
  samples = λ id. sym (append-nil (samples_of (lookup id c.subscriptions)));
})
call-Kept (Event.sync x) c h = quiet _ c _ tt refl refl refl (λ id. refl)
call-Kept (Event.parameter_default x) c h = quiet _ c _ tt refl refl refl (λ id. refl)
call-Kept (Event.parameter x) c h = rw (unskipped c h) (
    if_both (AfterCall (Event.parameter x) c) c.header_complete _ _
      (quiet _ c _ tt refl refl refl (λ id. refl)) (quiet _ c _ tt refl refl refl (λ id. refl)))
call-Kept (Event.message_info x) c h = rw (unskipped c h) (
    if_both (AfterCall (Event.message_info x) c) x.is_multi _ _
      (if_both (AfterCall (Event.message_info x) c) x.continued _ _
        (continue_last-Kept x (groups x.field.name c) c)
        (quiet _ c _ tt refl refl refl (λ id. refl)))
      (quiet _ c _ tt refl refl refl (λ id. refl)))
call-Kept (Event.message_format x) c h = by_entry (lookup ⦃e = bytes_key⦄ x.name c.message_formats)
  where
    by_entry :
        (o : Option MessageFormat)
        → AfterCall (Event.message_format x) c (elim o [
          | some f ↦ (throw (parsing duplicate_format), c)
          | none ↦ (
            ok tt,
            record c { message_formats = insert ⦃e = bytes_key⦄ x.name x c.message_formats },
          )
        ])
    by_entry (some f) = tt
    by_entry none = quiet _ c _ tt refl refl refl (λ id. refl)
call-Kept (Event.add_logged_message x) c h =
    rw (unskipped c h) (elim (Option-cases (lookup x.msg_id c.subscriptions)) [
      | inl missing ↦ rw missing (
          quiet _ c _ tt refl refl refl (λ id.
            ap samples_of (lookup-insert x.msg_id id _ c.subscriptions)
            ∙ new_entry (lookup id c.subscriptions) (x.msg_id == id) _ refl))
      | inr (s, e) ↦ rw e tt
    ])
call-Kept (Event.logged_data x) c h = rw h (elim (Option-cases (lookup x.msg_id c.subscriptions)) [
  | inl missing ↦ rw missing tt
  | inr (s, e) ↦ rw e (record {
    config = refl;
    logging = sym (append-nil c.logging);
    dropouts = sym (append-nil c.dropouts);
    samples = λ id.
        ap samples_of (lookup-put x.msg_id id (add_sample x s) c.subscriptions)
        ∙ added_sample x s id c.subscriptions e;
  })
])

texts-cons : (e : Event) (es : List Event) → texts (e ∷ es) ≡ texts (e ∷ []) ++ texts es
texts-cons (Event.logging l) es = refl
texts-cons _ es = refl

dropouts_of-cons :
    (e : Event) (es : List Event) → dropouts_of (e ∷ es) ≡ dropouts_of (e ∷ []) ++ dropouts_of es
dropouts_of-cons (Event.dropout l) es = refl
dropouts_of-cons _ es = refl

data_of-cons :
    (id : ℕ) (e : Event) (es : List Event)
    → data_of id (e ∷ es) ≡ data_of id (e ∷ []) ++ data_of id es
data_of-cons id (Event.logged_data d) es = ground arith
data_of-cons id _ es = refl

joined :
    {A : Type 0} (xs ys a b ab : List A) (zs : List A)
    → ys ≡ xs ++ a
    → zs ≡ ys ++ b
    → ab ≡ a ++ b
    → zs ≡ xs ++ ab
joined xs ys a b ab zs e e' j =
    e' ∙ ap (λ t. t ++ b) e ∙ append_assoc xs a b ∙ ap (λ t. xs ++ t) (sym j)

Kept-cons :
    (e : Event) (es : List Event) (c d f : Container)
    → Kept (e ∷ []) c d
    → Kept es d f
    → Kept (e ∷ es) c f
Kept-cons e es c d f k l = record {
  config = l.config ∙ k.config;
  logging = joined c.logging d.logging _ _ _ f.logging k.logging l.logging (texts-cons e es);
  dropouts =
      joined c.dropouts d.dropouts _ _ _ f.dropouts k.dropouts l.dropouts (dropouts_of-cons e es);
  samples = λ id. joined _ _ _ _ _ _ (k.samples id) (l.samples id) (data_of-cons id e es);
}

-- In a container for a full log, a run of calls that all return keeps every text and every dropout,
-- and for each id every sample, in the order of the calls, behind what was there.
pub run-Kept :
    (es : List Event) (c c' : Container)
    → is_header c.storage_config ≡ false
    → run container_handler es c ≡ (ok tt, c')
    → Kept es c c'
unfolding run
run-Kept [] c c' h e =
    let same : c ≡ c' = ap (λ p. p.1) e in
    rw (← same) (record {
      config = refl;
      logging = sym (append-nil c.logging);
      dropouts = sym (append-nil c.dropouts);
      samples = λ id. sym (append-nil (samples_of (lookup id c.subscriptions)));
    })
run-Kept (x ∷ xs) c c' h e =
    by_outcome (dispatch container_handler x c) (call-Kept x c h) e
      (λ d hd ed. run-Kept xs d c' hd ed)
  where
    by_outcome :
        (out : Result (Unit {0}) × Container)
        → AfterCall x c out
        → proceed out (λ _. run container_handler xs) ≡ (ok tt, c')
        → ((d : Container)
            → is_header d.storage_config ≡ false
            → run container_handler xs d ≡ (ok tt, c')
            → Kept xs d c')
        → Kept (x ∷ xs) c c'
    by_outcome (ok u, d) k e next = Kept-cons x xs c d c' k (next d (ap is_header k.config ∙ h) e)
    by_outcome (throw r, d) k e next = absurd (returned (throw r, d) tt c' e)
    by_outcome (fault, d) k e next = absurd (returned (fault, d) tt c' e)
    by_outcome (out_of_fuel, d) k e next = absurd (returned (out_of_fuel, d) tt c' e)
