-- ===== src/SimpleWriter/Told.antt =====
-- The formats and the subscriptions of a simple writer, told by its calls alone.
use my_ulog.Base.{
  ℕ, suc, ◌%◌, ◌^◌, ◌≡◌, refl, sym, ap, ◌∙◌, subst, Bool, true, false, not, Option, none, some,
  List, [], ◌∷◌, ◌++◌, length, if◌then◌else◌,
}
use my_ulog.Base.Bytes.{Bytes, bytes_eq}
use my_ulog.Base.Dict.{bytes_key, lookup, put, lookup-put}
use my_ulog.Base.Result.{ok}
use my_ulog.Base.Action.{proceed-ok}
use my_ulog.Handler.{dispatch}
use my_ulog.Messages.Field.{Field}
use my_ulog.Checks.{field_name_char}
use my_ulog.Checks.Sizes.{sample_size, check_format-sample_size}
use my_ulog.Writer
use my_ulog.Writer.{Writer, new_writer, writer_handler, emit}
use my_ulog.SimpleWriter.{
  SimpleWriter, Call, setting_info, on_writer, write_info, write_parameter, write_parameter_change,
  write_text_message, write_add_logged_message, perform, new_simple_writer,
}
use my_ulog.SimpleWriter.Trace.{event_of, guard_passed, format_written}
use my_ulog.SimpleWriter.Tables.{Same, written-Same, subscribed, completed-Same, sent-Same}

abbrev pub Formats : Type 0
Formats = List (Bytes × List Field)

-- The bytes of a sample with these fields, as an unsigned int.
abbrev pub bytes_of : List Field → ℕ
bytes_of fields = sample_size fields % 2 ^ 32

abbrev pub fields_of : Option (List Field) → List Field
fields_of none = []
fields_of (some fields) = fields

-- The formats that were declared, the last one first, and the fields of each subscription.
abbrev pub declare : Call → Formats → Formats
declare (Call.format name fields) formats = (name, fields) ∷ formats
declare _ formats = formats

abbrev pub subscribe_to : Call → Formats → List (List Field) → List (List Field)
subscribe_to (Call.add_logged name multi_id) formats topics =
    topics ++ (fields_of (lookup name formats) ∷ [])
subscribe_to _ formats topics = topics

abbrev pub sizes_of : List (List Field) → List ℕ
sizes_of [] = []
sizes_of (fields ∷ topics) = bytes_of fields ∷ sizes_of topics

abbrev pub size_in : Option (List Field) → Option ℕ
size_in none = none
size_in (some fields) = some (bytes_of fields)

-- The tables of the writer have the sizes of what was declared.
pub record IsTold (formats : Formats) (topics : List (List Field)) (s : SimpleWriter) : Type 0 where
  pub known : (name : Bytes) → lookup name s.formats ≡ size_in (lookup name formats)
  pub subscriptions : s.subscriptions ≡ sizes_of topics

pub length-sizes_of : (topics : List (List Field)) → length (sizes_of topics) ≡ length topics
length-sizes_of [] = refl
length-sizes_of (fields ∷ topics) = ap suc (length-sizes_of topics)

append-sizes_of :
    (topics : List (List Field)) (fields : List Field)
    → sizes_of (topics ++ (fields ∷ [])) ≡ sizes_of topics ++ (bytes_of fields ∷ [])
append-sizes_of [] fields = refl
append-sizes_of (t ∷ topics) fields = ap (λ xs. bytes_of t ∷ xs) (append-sizes_of topics fields)

size_in-if :
    (b : Bool) (fields : List Field) (o : Option (List Field))
    → (if b then some (bytes_of fields) else size_in o) ≡ size_in (if b then some fields else o)
size_in-if true fields o = refl
size_in-if false fields o = refl

size_in-some : (o : Option (List Field)) (n : ℕ) → some n ≡ size_in o → n ≡ bytes_of (fields_of o)
size_in-some none n e = cc
size_in-some (some fields) n e = cc

kept-IsTold :
    (formats : Formats) (topics : List (List Field)) (s t : SimpleWriter)
    → Same s t
    → IsTold formats topics s
    → IsTold formats topics t
kept-IsTold formats topics s t same h = record {
  known = λ name. ap (lookup name) same.0 ∙ h.known name;
  subscriptions = same.1 ∙ h.subscriptions;
}

pub perform-IsTold :
    (x : Call) (formats : Formats) (topics : List (List Field)) (s t : SimpleWriter)
    → perform x s ≡ (ok tt, t)
    → IsTold formats topics s
    → IsTold (declare x formats) (subscribe_to x formats topics) t
unfolding write_info write_parameter write_parameter_change write_text_message
    write_add_logged_message lookup
perform-IsTold (Call.info key value) formats topics s t e h =
    kept-IsTold formats topics s t
      (written-Same (Writer.write_message_info (setting_info key value)) s t
        (guard_passed s.header_complete _ _ s t tt e).1)
      h
perform-IsTold (Call.parameter key value) formats topics s t e h =
    kept-IsTold formats topics s t
      (written-Same (Writer.write_parameter (setting_info key value)) s t
        (guard_passed s.header_complete _ _ s t tt e).1)
      h
perform-IsTold (Call.format name fields) formats topics s t e h =
    let (size, checked, sent) = format_written name fields s t e in
    let k = record s { formats = put name size s.formats } in
    let size_eq =
      check_format-sample_size field_name_char s.header_complete s.formats name fields size
        checked in
    kept-IsTold ((name, fields) ∷ formats) topics k t
      (written-Same (Writer.write_message_format (record { name = name; fields = fields })) k t
        sent)
      (record {
        known = λ other.
            lookup-put name other size s.formats
            ∙ ap (λ n. if bytes_eq name other then some n else lookup other s.formats) size_eq
            ∙ ap (λ o. if bytes_eq name other then some (bytes_of fields) else o) (h.known other)
            ∙ size_in-if (bytes_eq name other) fields (lookup other formats);
        subscriptions = h.subscriptions;
      })
perform-IsTold Call.complete formats topics s t e h =
    kept-IsTold formats topics s t (completed-Same s t e) h
perform-IsTold (Call.parameter_change key value) formats topics s t e h =
    kept-IsTold formats topics s t
      (written-Same (Writer.write_parameter (setting_info key value)) s t
        (guard_passed (not s.header_complete) _ _ s t tt e).1)
      h
perform-IsTold (Call.add_logged name multi_id) formats topics s t e h =
    let (id, k, added, last) = proceed-ok (write_add_logged_message name multi_id s) _ tt t e in
    let (size, found, same) =
      subscribed name multi_id id (lookup name s.formats) s k
        (guard_passed (not s.header_complete) _ _ s k id added).1 in
    let s1 = record s { subscriptions = s.subscriptions ++ (size ∷ []) } in
    let fields = fields_of (lookup name formats) in
    let size_eq : size ≡ bytes_of fields =
      size_in-some (lookup name formats) size (sym found ∙ h.known name) in
    kept-IsTold formats (topics ++ (fields ∷ [])) s1 t (subst (Same s1) (ap (λ p. p.1) last) same)
      (record {
        known = h.known;
        subscriptions =
            ap (λ n. s.subscriptions ++ (n ∷ [])) size_eq
            ∙ ap (λ xs. xs ++ (bytes_of fields ∷ [])) h.subscriptions
            ∙ sym (append-sizes_of topics fields);
      })
perform-IsTold (Call.text level text timestamp) formats topics s t e h =
    kept-IsTold formats topics s t
      (written-Same (dispatch writer_handler (event_of (Call.text level text timestamp) s)) s t
        (guard_passed (not s.header_complete) _ _ s t tt e).1)
      h
perform-IsTold (Call.sample id bytes) formats topics s t e h =
    kept-IsTold formats topics s t (sent-Same id bytes s t e) h

pub new-IsTold : (timestamp : ℕ) → IsTold [] [] (new_simple_writer timestamp).1
unfolding new_simple_writer on_writer Writer.write_file_header emit lookup
new-IsTold timestamp = record { known = λ name. refl; subscriptions = refl }
