-- ===== src/Log/Mirror.antt =====
-- A container that follows a simple writer: it takes every call that the writer takes.
use my_ulog.Base.{
  ℕ, ◌+◌, ◌≤◌, ◌<◌, ◌≡◌, refl, sym, ap, ◌∙◌, Bool, true, false, Option, none, some, [], ◌∷◌, ◌++◌,
  length, length-append, arith, ◌==◌, ==_iff, if◌then◌else◌, Bool-cases, inl, inr, subst,
}
use my_ulog.Base.Bytes.{Bytes, bytes_eq}
use my_ulog.Base.Dict.{nat_key, bytes_key, lookup, put, insert, or_else, lookup-put, lookup-insert}
use my_ulog.Base.Result.{Result, ok, throw, parsing, duplicate_format}
use my_ulog.Handler.{Event, dispatch}
use my_ulog.Messages.Info.{MessageInfo}
use my_ulog.Messages.Format.{MessageFormat}
use my_ulog.Messages.AddLogged.{AddLoggedMessage}
use my_ulog.Messages.Data.{Data}
use my_ulog.Messages.Logging.{Logging}
use my_ulog.Container.{
  Subscription, Container, container_handler, is_header, on_header_complete, on_message_info,
  on_message_format, on_parameter, on_add_logged_message, on_logging, on_data, add_sample,
}
use my_ulog.Container.Order.{unskipped}
use my_ulog.SimpleWriter.{SimpleWriter}

-- The container has no format that the writer does not have, and its subscriptions are those of the
-- writer.
pub record IsMirror (s : SimpleWriter) (c : Container) : Type 0 where
  pub full : is_header c.storage_config ≡ false
  pub formats : (name : Bytes) → lookup name s.formats ≡ none → lookup name c.message_formats ≡ none
  pub free : (id : ℕ) → length s.subscriptions ≤ id → lookup id c.subscriptions ≡ none
  pub taken :
      (id : ℕ)
      → id < length s.subscriptions
      → (u : Subscription) × (lookup id c.subscriptions ≡ some u)

-- The container takes a call, and follows the writer to its next state.
unfoldable pub Follows : Event → SimpleWriter → Container → Type 0
Follows e t c = (c' : Container) × (dispatch container_handler e c ≡ (ok tt, c')) × IsMirror t c'

-- Writers with the same tables have the same mirrors.
pub same-IsMirror :
    (s t : SimpleWriter) (c : Container)
    → t.formats ≡ s.formats
    → t.subscriptions ≡ s.subscriptions
    → IsMirror s c
    → IsMirror t c
same-IsMirror s t c formats subs h = record {
  full = h.full;
  formats = λ name e. h.formats name (ap (λ m. lookup name m) (sym formats) ∙ e);
  free = λ id e. h.free id (subst (λ m. length m ≤ id) subs e);
  taken = λ id e. h.taken id (subst (λ m. id < length m) subs e);
}

pub info-Follows :
    (info : MessageInfo) (s : SimpleWriter) (c : Container)
    → info.is_multi ≡ false
    → IsMirror s c
    → Follows (Event.message_info info) s c
unfolding Follows on_message_info
info-Follows info s c single h = (
  record c { message_info = insert info.field.name info c.message_info },
  rw (unskipped c h.full, single) refl,
  record { full = h.full; formats = h.formats; free = h.free; taken = h.taken },
)

pub parameter-Follows :
    (p : MessageInfo) (s : SimpleWriter) (c : Container)
    → IsMirror s c
    → Follows (Event.parameter p) s c
unfolding Follows on_parameter
parameter-Follows p s c h = elim (Bool-cases c.header_complete) [
  | inl late ↦ (
    record c { changed_parameters = c.changed_parameters ++ (p ∷ []) },
    ap (λ b. if b then (ok tt, c) else later c.header_complete) (unskipped c h.full)
        ∙ ap later late,
    record { full = h.full; formats = h.formats; free = h.free; taken = h.taken },
  )
  | inr early ↦ (
    record c { initial_parameters = insert p.field.name p c.initial_parameters },
    ap (λ b. if b then (ok tt, c) else later c.header_complete) (unskipped c h.full)
        ∙ ap later early,
    record { full = h.full; formats = h.formats; free = h.free; taken = h.taken },
  )
]
  where
    later : Bool → Result (Unit {0}) × Container
    later b =
        if b
        then (ok tt, record c { changed_parameters = c.changed_parameters ++ (p ∷ []) })
        else (ok tt, record c { initial_parameters = insert p.field.name p c.initial_parameters })

pub complete-Follows :
    (s : SimpleWriter) (c : Container) → IsMirror s c → Follows Event.header_complete s c
unfolding Follows on_header_complete
complete-Follows s c h = (
  record c { header_complete = true },
  refl,
  record { full = h.full; formats = h.formats; free = h.free; taken = h.taken },
)

no_other :
    (b : Bool) (size : ℕ) (o : Option ℕ)
    → (if b then some size else o) ≡ none
    → (b ≡ false) × (o ≡ none)
no_other true size o e = cc
no_other false size o e = (refl, e)

pub format-Follows :
    (f : MessageFormat) (size : ℕ) (s : SimpleWriter) (c : Container)
    → lookup f.name s.formats ≡ none
    → IsMirror s c
    → Follows (Event.message_format f) (record s { formats = put f.name size s.formats }) c
unfolding Follows on_message_format
format-Follows f size s c new h = (
  record c { message_formats = insert f.name f c.message_formats },
  ap by_entry (h.formats f.name new),
  record {
    full = h.full;
    formats = λ name e.
        let (differs, missing) =
          no_other (bytes_eq f.name name) size _
            (sym (lookup-put f.name name size s.formats) ∙ e) in
        lookup-insert f.name name f c.message_formats
        ∙ ap (λ b. or_else (lookup name c.message_formats) (if b then some f else none)) differs
        ∙ ap (λ o. or_else o none) (h.formats name missing);
    free = h.free;
    taken = h.taken;
  },
)
  where
    by_entry : Option MessageFormat → Result (Unit {0}) × Container
    by_entry (some g) = (throw (parsing duplicate_format), c)
    by_entry none = (ok tt, record c { message_formats = insert f.name f c.message_formats })

==_false : (a b : ℕ) → a < b → (a == b) ≡ false
==_false a b h = ground (arith, h)

pub subscription-Follows :
    (a : AddLoggedMessage) (size : ℕ) (s : SimpleWriter) (c : Container)
    → a.msg_id ≡ length s.subscriptions
    → IsMirror s c
    → Follows
        (Event.add_logged_message a)
        (record s { subscriptions = s.subscriptions ++ (size ∷ []) })
        c
unfolding Follows on_add_logged_message
subscription-Follows a size s c next h =
    let new : Subscription = record { add_logged_message = a; samples = [] } in
    let here : lookup a.msg_id c.subscriptions ≡ none = h.free a.msg_id (omega (arith, next)) in
    let more : length (s.subscriptions ++ (size ∷ [])) ≡ length s.subscriptions + 1 =
      length-append s.subscriptions (size ∷ []) in
    (
      record c { subscriptions = insert a.msg_id new c.subscriptions },
      rw (unskipped c h.full, here) refl,
      record {
        full = h.full;
        formats = h.formats;
        free = λ id e.
            lookup-insert a.msg_id id new c.subscriptions
            ∙ ap (λ b. or_else (lookup id c.subscriptions) (if b then some new else none))
                (==_false a.msg_id id (omega (arith, e, more, next)))
            ∙ ap (λ o. or_else o none) (h.free id (omega (arith, e, more)));
        taken = λ id e. elim (Bool-cases (a.msg_id == id)) [
          | inl same ↦
              let gone : lookup id c.subscriptions ≡ none =
                ap (λ k. lookup k c.subscriptions) (sym ((==_iff a.msg_id id).0 same)) ∙ here in
              (new, lookup-insert a.msg_id id new c.subscriptions ∙ rw (gone, same) refl)
          | inr other ↦
              let (u, found) = h.taken id (ground (arith, e, more, next, other)) in
              (u, lookup-insert a.msg_id id new c.subscriptions ∙ rw found refl)
        ];
      },
    )

pub sample-Follows :
    (d : Data) (s : SimpleWriter) (c : Container)
    → d.msg_id < length s.subscriptions
    → IsMirror s c
    → Follows (Event.logged_data d) s c
unfolding Follows on_data
sample-Follows d s c known h =
    let (u, found) = h.taken d.msg_id known in
    (
      record c { subscriptions = put d.msg_id (add_sample d u) c.subscriptions },
      rw (h.full, found) refl,
      record {
        full = h.full;
        formats = h.formats;
        free = λ id e.
            lookup-put d.msg_id id (add_sample d u) c.subscriptions
            ∙ rw (==_false d.msg_id id (omega (arith, e, known))) (h.free id e);
        taken = λ id e. elim (Bool-cases (d.msg_id == id)) [
          | inl same ↦ (
            add_sample d u,
            lookup-put d.msg_id id (add_sample d u) c.subscriptions ∙ rw same refl,
          )
          | inr other ↦
              let (v, there) = h.taken id e in
              (v, lookup-put d.msg_id id (add_sample d u) c.subscriptions ∙ rw other there)
        ];
      },
    )

pub text-Follows :
    (l : Logging) (s : SimpleWriter) (c : Container) → IsMirror s c → Follows (Event.logging l) s c
unfolding Follows on_logging
text-Follows l s c h = (
  record c { logging = c.logging ++ (l ∷ []) },
  rw (unskipped c h.full) refl,
  record { full = h.full; formats = h.formats; free = h.free; taken = h.taken },
)
