-- ===== src/DataLog/Described.antt =====
-- The tables that `Init` makes, told by the structs alone.
use my_ulog.Base.{
  or_zero, ℕ, suc, ◌%◌, ◌^◌, ◌≡◌, refl, sym, ap, ◌∙◌, true, false, not, ◌||◌, Option, none, some,
  List, [], ◌∷◌, ◌++◌, length, append_assoc, append-nil,
}
use my_ulog.Base.Bytes.{Bytes}
use my_ulog.Base.Dict.{bytes_key, lookup, put}
use my_ulog.Base.Result.{ok, ok-injective}
use my_ulog.Base.Action.{Action, proceed-ok, guard-ok, lift-ok, returned}
use my_ulog.Checks.{any_case_char, check_format}
use my_ulog.Checks.Sizes.{sample_size, check_format-sample_size}
use my_ulog.SimpleWriter.{Setting}
use my_ulog.Writer
use my_ulog.Writer.{Writer}
use my_ulog.DataLog.State.{
  StructInfo, DataLog, via, on_writer, write_info, write_message_format, header_complete,
  write_add_logged_message, subscribe,
}
use my_ulog.DataLog.Init.{is_empty, declare_structs, subscribe_structs, init}
use my_ulog.DataLog.Alike.{Tables, tables}

-- The size of a struct is that of its fields, as an unsigned int.
abbrev formats_of : List StructInfo → List (Bytes × ℕ) → List (Bytes × ℕ)
formats_of [] formats = formats
formats_of (i ∷ is) formats =
    formats_of is (put i.message_name (sample_size i.fields % 2 ^ 32) formats)

abbrev sizes_in : List (Bytes × ℕ) → List StructInfo → List ℕ
sizes_in formats [] = []
sizes_in formats (i ∷ is) = or_zero (lookup i.message_name formats) ∷ sizes_in formats is

-- The ids are counted up, as uint16_t.
abbrev ids_of : ℕ → List StructInfo → List (Bytes × ℕ) → List (Bytes × ℕ)
ids_of n [] ids = ids
ids_of n (i ∷ is) ids = ids_of (suc n) is (put i.message_name (n % 2 ^ 16) ids)

-- What `Init` makes of the structs.
unfoldable pub described : List StructInfo → Tables
described is = (true, formats_of is [], sizes_in (formats_of is []) is, ids_of 0 is [])

on_writer-tables :
    (m : Action Writer (Unit {0})) (d d' : DataLog)
    → on_writer m d ≡ (ok tt, d')
    → tables d' ≡ tables d
unfolding on_writer
on_writer-tables m d d' e = by_writer d.writer e
  where
    by_writer : (o : Option Writer) → via m o d ≡ (ok tt, d') → tables d' ≡ tables d
    by_writer none e = absurd (returned _ tt d' e)
    by_writer (some w) e = sym (ap (λ p. tables p.1) e)

declared-tables :
    (is : List StructInfo) (d d' : DataLog)
    → declare_structs is d ≡ (ok tt, d')
    → tables d' ≡ (d.header_complete, formats_of is d.formats, d.subscriptions, d.id_map)
unfolding declare_structs write_message_format
declared-tables [] d d' e = sym (ap (λ p. tables p.1) e)
declared-tables (i ∷ is) d d' e =
    let more = (guard-ok (is_empty i.message_name || is_empty i.fields) _ d _ tt d' e).1 in
    let (u, k, first, rest) =
      proceed-ok (write_message_format i.message_name i.fields _) _ tt d' more in
    let (size, checked, sent) =
      lift-ok (check_format any_case_char d.header_complete d.formats i.message_name i.fields) _ _
        tt k first in
    let same = on_writer-tables _ _ k sent in
    declared-tables is k d' rest
    ∙ ap (λ (t : Tables). (t.0, formats_of is t.1, t.2, t.3)) same
    ∙ ap
        (λ n. (
          d.header_complete,
          formats_of is (put i.message_name n d.formats),
          d.subscriptions,
          d.id_map,
        ))
        (check_format-sample_size any_case_char d.header_complete d.formats i.message_name i.fields
          size checked)

subscribed-tables :
    (name : Bytes) (id : ℕ) (o : Option ℕ) (d d' : DataLog)
    → subscribe name 0 o d ≡ (ok id, d')
    → (id ≡ length d.subscriptions % 2 ^ 16)
      × (tables d' ≡ (d.header_complete, d.formats, d.subscriptions ++ (or_zero o ∷ []), d.id_map))
unfolding subscribe
subscribed-tables name id none d d' e = absurd (returned _ id d' e)
subscribed-tables name id (some size) d d' e =
    let (u, k, sent, last) = proceed-ok (on_writer _ _) _ id d' e in
    (
      ok-injective (sym (ap (λ p. p.0) last)),
      sym (ap (λ p. tables p.1) last) ∙ on_writer-tables _ _ k sent,
    )

added-tables :
    (name : Bytes) (id : ℕ) (d d' : DataLog)
    → write_add_logged_message name 0 d ≡ (ok id, d')
    → (id ≡ length d.subscriptions % 2 ^ 16)
      × (tables d' ≡ (
        d.header_complete,
        d.formats,
        d.subscriptions ++ (or_zero (lookup name d.formats) ∷ []),
        d.id_map,
      ))
unfolding write_add_logged_message
added-tables name id d d' e =
    subscribed-tables name id (lookup name d.formats) d d'
      (guard-ok (not d.header_complete) _ d _ id d' e).1

longer : (xs : List ℕ) (x : ℕ) → length (xs ++ (x ∷ [])) ≡ suc (length xs)
longer [] x = refl
longer (y ∷ xs) x = ap suc (longer xs x)

all_subscribed-tables :
    (is : List StructInfo) (d d' : DataLog)
    → subscribe_structs is d ≡ (ok tt, d')
    → tables d' ≡ (
      d.header_complete,
      d.formats,
      d.subscriptions ++ sizes_in d.formats is,
      ids_of (length d.subscriptions) is d.id_map,
    )
unfolding subscribe_structs
all_subscribed-tables [] d d' e =
    sym (ap (λ p. tables p.1) e)
    ∙ ap (λ xs. (d.header_complete, d.formats, xs, d.id_map)) (sym (append-nil d.subscriptions))
all_subscribed-tables (i ∷ is) d d' e =
    let more = (guard-ok (is_empty i.message_name || is_empty i.fields) _ d _ tt d' e).1 in
    let (id, k, first, rest) =
      proceed-ok (write_add_logged_message i.message_name 0 d) _ tt d' more in
    let (id_eq, same) = added-tables i.message_name id d k first in
    let size = or_zero (lookup i.message_name d.formats) in
    all_subscribed-tables is (record k { id_map = put i.message_name id k.id_map }) d' rest
    ∙ ap
        (λ (t : Tables).
          (t.0, t.1, t.2 ++ sizes_in t.1 is, ids_of (length t.2) is (put i.message_name id t.3)))
        same
    ∙ ap
        (λ xs. (
          d.header_complete,
          d.formats,
          xs,
          ids_of (length (d.subscriptions ++ (size ∷ []))) is (put i.message_name id d.id_map),
        ))
        (append_assoc d.subscriptions (size ∷ []) (sizes_in d.formats is))
    ∙ ap
        (λ n. (
          d.header_complete,
          d.formats,
          d.subscriptions ++ (size ∷ sizes_in d.formats is),
          ids_of n is (put i.message_name id d.id_map),
        ))
        (longer d.subscriptions size)
    ∙ ap
        (λ n. (
          d.header_complete,
          d.formats,
          d.subscriptions ++ (size ∷ sizes_in d.formats is),
          ids_of (suc (length d.subscriptions)) is (put i.message_name n d.id_map),
        ))
        id_eq

completed-tables :
    (d d' : DataLog)
    → header_complete d ≡ (ok tt, d')
    → tables d' ≡ (true, d.formats, d.subscriptions, d.id_map)
unfolding header_complete
completed-tables d d' e =
    let (u, k, sent, last) =
      proceed-ok (on_writer Writer.write_header_complete d) _ tt d'
        (guard-ok d.header_complete _ d _ tt d' e).1 in
    sym (ap (λ p. tables p.1) last)
    ∙ ap (λ (t : Tables). (true, t.1, t.2, t.3)) (on_writer-tables _ d k sent)

-- An `Init` that returned on a logger without tables.
pub init-described :
    (key key_value : Bytes) (is : List StructInfo) (d d' : DataLog)
    → tables d ≡ (false, [], [], [])
    → init key key_value is d ≡ (ok true, d')
    → tables d' ≡ described is
unfolding init write_info described
init-described key key_value is d d' clear e =
    let keyed = record d {
      init_params = record (d.init_params) { key = key; key_value = key_value };
    } in
    let more = (guard-ok (is_empty key || is_empty key_value) _ d _ true d' e).1 in
    let (u1, k1, told, rest1) =
      proceed-ok (write_info key (Setting.string key_value) keyed) _ true d' more in
    let (u2, k2, declared, rest2) = proceed-ok (declare_structs is k1) _ true d' rest1 in
    let (u3, k3, completed, rest3) = proceed-ok (header_complete k2) _ true d' rest2 in
    let (u4, k4, subscribed, rest4) = proceed-ok (subscribe_structs is k3) _ true d' rest3 in
    sym (ap (λ p. tables p.1) rest4)
    ∙ all_subscribed-tables is k3 k4 subscribed
    ∙ ap (λ (t : Tables). (t.0, t.1, t.2 ++ sizes_in t.1 is, ids_of (length t.2) is t.3))
        (completed-tables k2 k3 completed
          ∙ ap (λ (t : Tables). (true, t.1, t.2, t.3)) (declared-tables is k1 k2 declared)
          ∙ ap (λ (t : Tables). (true, formats_of is t.1, t.2, t.3))
              (on_writer-tables _ keyed k1 (guard-ok d.header_complete _ keyed _ tt k1 told).1
                ∙ clear))
