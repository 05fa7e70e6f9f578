-- ===== src/SimpleWriter/Consistent.antt =====
-- The invariant of a simple writer, which every call keeps, also one that throws.
use my_ulog.Base.{
  ℕ, zero, suc, ◌%◌, ◌^◌, ◌<◌, ◌≡◌, refl, sym, ap, ◌∙◌, Bool, true, false, not, Option, none, some,
  List, [], ◌∷◌, ◌++◌, length, take, get_elem?, ltb, arith, Bool-cases, inl, inr, ◌⊎◌,
}
use mathlib.Core.Path.{subst₂}
use my_ulog.Base.Bytes.{Bytes, bytes_eq, bytes_eq_iff}
use my_ulog.Base.Dict.{bytes_key, lookup, put, lookup-put}
use my_ulog.Base.Result.{Result, ok, throw, fault, out_of_fuel, Exception}
use my_ulog.Base.Action.{Action, proceed, pure, raise_if}
use my_ulog.Handler.{Event, dispatch}
use my_ulog.Messages.Field.{Field}
use my_ulog.Checks.{field_name_char, format_name_char, matches, check_format, is_known, is_some}
use my_ulog.Checks.Accepted.{check_format-IsAccepted, sum_fields-lt, not-false}
use my_ulog.Writer
use my_ulog.Writer.{Writer, emit, writer_handler}
use my_ulog.SimpleWriter.{
  SimpleWriter, Call, on_writer, write_info, write_parameter, write_message_format, header_complete,
  write_parameter_change, write_text_message, write_add_logged_message, write_data_impl, perform,
  perform_all, subscribe, send, new_simple_writer,
}
use my_ulog.SimpleWriter.Flag.{LeavesFlag, write-KeepsFlag}
use my_ulog.SimpleWriter.Trace.{event_of}

-- The flag is the plain writer's; there are no subscriptions before the end of the header; each
-- subscription has the size of a format; a format has a valid name and the size of an unsigned int.
pub record IsConsistent (s : SimpleWriter) : Type 0 where
  pub flag : s.header_complete ≡ (s.writer).header_complete
  pub early : s.header_complete ≡ false → s.subscriptions ≡ []
  pub known :
      (id size : ℕ)
      → get_elem? s.subscriptions id ≡ some size
      → (name : Bytes) × (lookup name s.formats ≡ some size)
  pub formats :
      (name : Bytes) (size : ℕ)
      → lookup name s.formats ≡ some size
      → (matches format_name_char name ≡ true) × (size < 2 ^ 32)

-- Another writer with the same flag.
rewritten :
    (e : Event) (s : SimpleWriter)
    → LeavesFlag e
    → IsConsistent s
    → IsConsistent (on_writer (dispatch writer_handler e) s).1
unfolding on_writer
rewritten e s keeps h = record {
  flag = h.flag ∙ sym (write-KeepsFlag e keeps s.writer);
  early = h.early;
  known = h.known;
  formats = h.formats;
}

guarded :
    (b : Bool) (x : Exception) {A : Type 0} (m : Action SimpleWriter A) (s : SimpleWriter)
    → IsConsistent s
    → (b ≡ false → IsConsistent (m s).1)
    → IsConsistent (proceed (raise_if b x s) (λ _. m)).1
guarded true x m s h next = h
guarded false x m s h next = next refl

ended :
    {A B : Type 0} (out : Result A × SimpleWriter) (f : A → B)
    → IsConsistent out.1
    → IsConsistent (proceed out (λ a. pure (f a))).1
ended (ok a, s) f h = h
ended (throw x, s) f h = h
ended (fault, s) f h = h
ended (out_of_fuel, s) f h = h

-- A new entry hides no other.
still_known :
    (name other : Bytes) (size n : ℕ) (m : List (Bytes × ℕ))
    → is_known name m ≡ false
    → lookup other m ≡ some n
    → lookup other (put name size m) ≡ some n
still_known name other size n m new found =
    lookup-put name other size m ∙ elim (Bool-cases (bytes_eq name other)) [
      | inl same ↦
          let e : name ≡ other = (bytes_eq_iff name other).0 same in
          let there : lookup name m ≡ some n = ap (λ k. lookup k m) e ∙ found in
          absurd (clash (sym new ∙ ap is_some there))
      | inr differs ↦ rw differs found
    ]
  where
    clash : false ≡ true → ⊥
    clash e = cc

-- An entry is the new one, or an old one.
entry_of :
    (P : Bytes → ℕ → Type 0) (name other : Bytes) (size n : ℕ) (m : List (Bytes × ℕ))
    → lookup other (put name size m) ≡ some n
    → P name size
    → (lookup other m ≡ some n → P other n)
    → P other n
entry_of P name other size n m found new old = elim (Bool-cases (bytes_eq name other)) [
  | inl same ↦
      let put_here : some size ≡ some n = rw same at (sym (lookup-put name other size m) ∙ found) in
      subst₂ P ((bytes_eq_iff name other).0 same) (some_eq size n put_here) new
  | inr differs ↦ old (rw differs at (sym (lookup-put name other size m) ∙ found))
]
  where
    some_eq : (a b : ℕ) → some a ≡ some b → a ≡ b
    some_eq a b e = cc

-- A new entry, and then a write.
added-format :
    (name : Bytes) (fields : List Field) (size : ℕ) (s : SimpleWriter)
    → IsConsistent s
    → check_format field_name_char s.header_complete s.formats name fields ≡ ok size
    → IsConsistent (record s { formats = put name size s.formats })
added-format name fields size s h e =
    let (early, accepted) =
      check_format-IsAccepted field_name_char s.header_complete s.formats name fields size e in
    record {
      flag = h.flag;
      early = h.early;
      known = λ id n found.
          let (other, entry) = h.known id n found in
          (other, still_known name other size n s.formats accepted.new_name entry);
      formats = λ other n found.
          entry_of (λ k v. (matches format_name_char k ≡ true) × (v < 2 ^ 32)) name other size n
            s.formats found
            (accepted.valid_name, sum_fields-lt fields 0 size (omega arith) accepted.summed)
            (h.formats other n);
    }

format-IsConsistent :
    (name : Bytes) (fields : List Field) (s : SimpleWriter)
    → IsConsistent s
    → IsConsistent (write_message_format name fields s).1
unfolding write_message_format
format-IsConsistent name fields s h =
    by_check (check_format field_name_char s.header_complete s.formats name fields) refl
  where
    by_check :
        (out : Result ℕ)
        → check_format field_name_char s.header_complete s.formats name fields ≡ out
        → IsConsistent
            (proceed
              (out, s)
              (λ size t.
                on_writer
                  (Writer.write_message_format (record { name = name; fields = fields }))
                  (record t { formats = put name size t.formats }))).1
    by_check (ok size) e =
        rewritten (Event.message_format (record { name = name; fields = fields }))
          (record s { formats = put name size s.formats }) tt (added-format name fields size s h e)
    by_check (throw x) e = h
    by_check fault e = h
    by_check out_of_fuel e = h

get_elem?-append :
    (xs : List ℕ) (x id n : ℕ)
    → get_elem? (xs ++ (x ∷ [])) id ≡ some n
    → (get_elem? xs id ≡ some n) ⊎ (x ≡ n)
get_elem?-append [] x zero n e = ground arith
get_elem?-append [] x (suc id) n e = cc
get_elem?-append (y ∷ xs) x zero n e = inl e
get_elem?-append (y ∷ xs) x (suc id) n e = get_elem?-append xs x id n e

subscribe-IsConsistent :
    (name : Bytes) (multi_id : ℕ) (o : Option ℕ) (s : SimpleWriter)
    → IsConsistent s
    → s.header_complete ≡ true
    → lookup name s.formats ≡ o
    → IsConsistent (subscribe name multi_id o s).1
unfolding subscribe
subscribe-IsConsistent name multi_id none s h complete found = h
subscribe-IsConsistent name multi_id (some size) s h complete found =
    ended _ (λ _. length s.subscriptions % 2 ^ 16)
      (rewritten
        (Event.add_logged_message (record {
          multi_id = multi_id;
          msg_id = length s.subscriptions % 2 ^ 16;
          message_name = name;
        }))
        (record s { subscriptions = s.subscriptions ++ (size ∷ []) }) tt
        (record {
          flag = h.flag;
          early = λ e. absurd (clash (sym complete ∙ e));
          known = λ id n e. elim (get_elem?-append s.subscriptions size id n e) [
            | inl old ↦ h.known id n old
            | inr new ↦ (name, found ∙ ap some new)
          ];
          formats = h.formats;
        }))
  where
    clash : true ≡ false → ⊥
    clash e = cc

complete-IsConsistent : (s : SimpleWriter) → IsConsistent s → IsConsistent (header_complete s).1
unfolding header_complete on_writer Writer.write_header_complete
complete-IsConsistent s h = guarded s.header_complete _ _ s h (λ e. record {
  flag = refl;
  early = λ e. absurd (clash e);
  known = h.known;
  formats = h.formats;
})
  where
    clash : true ≡ false → ⊥
    clash e = cc

-- Every call keeps the invariant, whether it returns or throws.
pub perform-IsConsistent :
    (c : Call) (s : SimpleWriter) → IsConsistent s → IsConsistent (perform c s).1
unfolding write_info write_parameter write_parameter_change write_text_message
    write_add_logged_message write_data_impl send
perform-IsConsistent (Call.info key value) s h =
    guarded s.header_complete _ _ s h (λ e. rewritten (event_of (Call.info key value) s) s tt h)
perform-IsConsistent (Call.parameter key value) s h =
    guarded s.header_complete _ _ s h
      (λ e. rewritten (event_of (Call.parameter key value) s) s tt h)
perform-IsConsistent (Call.format name fields) s h = format-IsConsistent name fields s h
perform-IsConsistent Call.complete s h = complete-IsConsistent s h
perform-IsConsistent (Call.parameter_change key value) s h =
    guarded (not s.header_complete) _ _ s h
      (λ e. rewritten (event_of (Call.parameter_change key value) s) s tt h)
perform-IsConsistent (Call.text level message timestamp) s h =
    guarded (not s.header_complete) _ _ s h
      (λ e. rewritten (event_of (Call.text level message timestamp) s) s tt h)
perform-IsConsistent (Call.add_logged name multi_id) s h =
    ended (write_add_logged_message name multi_id s) (λ _. tt)
      (guarded (not s.header_complete) _ _ s h
        (λ e. subscribe-IsConsistent name multi_id _ s h (not-false _ e) refl))
perform-IsConsistent (Call.sample id bytes) s h =
    guarded (not s.header_complete) _ _ s h (λ _. by_size (get_elem? s.subscriptions id))
  where
    by_size : (o : Option ℕ) → IsConsistent (send id bytes o s).1
    by_size none = h
    by_size (some size) = guarded (ltb (length bytes) size) _ _ s h (λ _.
        rewritten (Event.logged_data (record { msg_id = id; payload = take size bytes })) s tt h)

new_simple_writer-IsConsistent : (timestamp : ℕ) → IsConsistent (new_simple_writer timestamp).1
unfolding new_simple_writer Writer.write_file_header emit on_writer lookup
new_simple_writer-IsConsistent timestamp = record {
  flag = refl;
  early = λ e. refl;
  known = λ id size e. cc;
  formats = λ name size e. cc;
}

-- Calls one after another, up to the first that throws, keep the invariant.
pub perform_all-keeps :
    (cs : List Call) (s : SimpleWriter) → IsConsistent s → IsConsistent (perform_all cs s).1
unfolding perform_all
perform_all-keeps [] s h = h
perform_all-keeps (c ∷ cs) s h =
    by_outcome (perform c s) (perform-IsConsistent c s h) (λ t ht. perform_all-keeps cs t ht)
  where
    by_outcome :
        (out : Result (Unit {0}) × SimpleWriter)
        → IsConsistent out.1
        → ((t : SimpleWriter) → IsConsistent t → IsConsistent (perform_all cs t).1)
        → IsConsistent (proceed out (λ _. perform_all cs)).1
    by_outcome (ok u, t) ht next = next t ht
    by_outcome (throw x, t) ht next = ht
    by_outcome (fault, t) ht next = ht
    by_outcome (out_of_fuel, t) ht next = ht

-- Whatever calls were made, returning or throwing: the flag is the plain writer's, there are no
-- subscriptions before the end of the header, each subscription has the size of a format that was
-- defined, and each format has a valid name and the size of an unsigned int.
pub perform_all-IsConsistent :
    (timestamp : ℕ) (cs : List Call)
    → IsConsistent (perform_all cs (new_simple_writer timestamp).1).1
perform_all-IsConsistent timestamp cs =
    perform_all-keeps cs (new_simple_writer timestamp).1 (new_simple_writer-IsConsistent timestamp)
