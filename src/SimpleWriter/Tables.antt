-- ===== src/SimpleWriter/Tables.antt =====
-- What a call that returned has done to the tables.
use my_ulog.Base.{
  ℕ, ◌%◌, ◌^◌, ◌≡◌, refl, sym, ap, not, Option, none, some, [], ◌∷◌, ◌++◌, length, get_elem?, take,
  ltb, subst,
}
use my_ulog.Base.Bytes.{Bytes}
use my_ulog.Base.Dict.{bytes_key, nat_key}
use my_ulog.Base.Result.{ok}
use my_ulog.Base.Action.{Action, proceed-ok, returned}
use my_ulog.Writer
use my_ulog.Writer.{Writer, emit}
use my_ulog.SimpleWriter.{
  SimpleWriter, on_writer, header_complete, write_data_impl, subscribe, send,
}
use my_ulog.SimpleWriter.Trace.{guard_passed}

-- Writers with the same tables.
abbrev pub Same : SimpleWriter → SimpleWriter → Type 0
Same s t = (t.formats ≡ s.formats) × (t.subscriptions ≡ s.subscriptions)

pub written-Same :
    (m : Action Writer (Unit {0})) (s t : SimpleWriter) → on_writer m s ≡ (ok tt, t) → Same s t
unfolding on_writer
written-Same m s t e = (sym (ap (λ p. (p.1).formats) e), sym (ap (λ p. (p.1).subscriptions) e))

pub subscribed :
    (name : Bytes) (multi_id id : ℕ) (o : Option ℕ) (s t : SimpleWriter)
    → subscribe name multi_id o s ≡ (ok id, t)
    → (size : ℕ) × (o ≡ some size)
      × Same (record s { subscriptions = s.subscriptions ++ (size ∷ []) }) t
unfolding subscribe
subscribed name multi_id id none s t e = absurd (returned _ id t e)
subscribed name multi_id id (some size) s t e =
    let k0 = record s { subscriptions = s.subscriptions ++ (size ∷ []) } in
    let write = Writer.write_add_logged_message (record {
      multi_id = multi_id;
      msg_id = length s.subscriptions % 2 ^ 16;
      message_name = name;
    }) in
    let (u, k, sent, last) = proceed-ok (on_writer write k0) _ id t e in
    (size, refl, subst (Same k0) (ap (λ p. p.1) last) (written-Same write k0 k sent))

pub completed-Same : (s t : SimpleWriter) → header_complete s ≡ (ok tt, t) → Same s t
unfolding header_complete
completed-Same s t e =
    let (u, k, sent, last) =
      proceed-ok (on_writer Writer.write_header_complete s) _ tt t
        (guard_passed s.header_complete _ _ s t tt e).1 in
    subst (Same s) (ap (λ p. p.1) last) (written-Same Writer.write_header_complete s k sent)

pub sent-Same :
    (id : ℕ) (bytes : Bytes) (s t : SimpleWriter)
    → write_data_impl id bytes s ≡ (ok tt, t)
    → Same s t
unfolding write_data_impl send
sent-Same id bytes s t e =
    by_size (get_elem? s.subscriptions id) (guard_passed (not s.header_complete) _ _ s t tt e).1
  where
    by_size : (o : Option ℕ) → send id bytes o s ≡ (ok tt, t) → Same s t
    by_size none e = absurd (returned _ tt t e)
    by_size (some size) e =
        written-Same (Writer.write_data (record { msg_id = id; payload = take size bytes })) s t
          (guard_passed (ltb (length bytes) size) _ _ s t tt e).1
