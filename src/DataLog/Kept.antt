-- ===== src/DataLog/Kept.antt =====
-- What `Init` does with the rest of a logger: the flag is set, the parameters are kept, and neither the
-- count of the samples nor the files change.
use my_ulog.Base.{
  ℕ, ◌%◌, ◌^◌, ◌≡◌, refl, sym, ap, ◌∙◌, Bool, true, false, not, ◌||◌, Option, none, some, List, [],
  ◌∷◌, ◌++◌, append-nil, append_assoc, length,
}
use my_ulog.Base.Bytes.{Bytes}
use my_ulog.Base.Dict.{bytes_key, lookup, put}
use my_ulog.Base.Result.{
  Result, ok, usage, Exception, header_already_complete, header_not_complete, empty_key,
  empty_struct,
}
use my_ulog.Base.Action.{Action, proceed-ok, ◌>>=◌, ◌>>◌, pure, lift, modify, raise_if, returned}
use my_ulog.Checks.{any_case_char, check_format}
use my_ulog.Messages.Field.{Field}
use my_ulog.SimpleWriter.{Setting, setting_info}
use my_ulog.Writer
use my_ulog.Writer.{Writer}
use my_ulog.DataLog.State.{
  StructInfo, InitParams, DataLog, via, on_writer, write_info, write_message_format,
  header_complete, write_add_logged_message, subscribe,
}
use my_ulog.DataLog.Init.{
  is_empty, declare_structs, subscribe_structs, init, init_again, write_formats, add_subscriptions,
}

abbrev pub Rest : Type 0
Rest = Bool × InitParams × Bool × ℕ × List (Bytes × List Bytes) × ℕ

abbrev pub rest : DataLog → Rest
rest d = (d.header_complete, d.init_params, d.enabled, d.current_file_size, d.closed, d.opened)

-- A method that returns changes the rest in that way.
unfoldable pub Moves : {A : Type 0} → (Rest → Rest) → Action DataLog A → Type 0
Moves {A} g m = (d : DataLog) (x : A) (d' : DataLog) → m d ≡ (ok x, d') → rest d' ≡ g (rest d)

bind-Moves :
    {A B : Type 0} (g h : Rest → Rest) (m : Action DataLog A) (f : A → Action DataLog B)
    → Moves g m
    → ((x : A) → Moves h (f x))
    → Moves (λ r. h (g r)) (m >>= f)
unfolding Moves
bind-Moves g h m f first second d y d'' e =
    let (x, d', e1, e2) = proceed-ok (m d) f y d'' e in
    second x d' y d'' e2 ∙ ap h (first d x d' e1)

reads-Moves :
    {A V : Type 0} (g : Rest → Rest) (h : DataLog → V) (m : V → Action DataLog A)
    → ((v : V) → Moves g (m v))
    → Moves g (λ d. m (h d) d)
unfolding Moves
reads-Moves g h m each d x d' e = each (h d) d x d' e

modify-Moves :
    (g : Rest → Rest) (f : DataLog → DataLog)
    → ((d : DataLog) → rest (f d) ≡ g (rest d))
    → Moves g (modify f)
unfolding Moves
modify-Moves g f h d x d' e = sym (ap (λ p. rest p.1) e) ∙ h d

lift-Moves : {A : Type 0} (r : Result A) → Moves (λ q. q) (lift r)
unfolding Moves
lift-Moves r d x d' e = sym (ap (λ p. rest p.1) e)

raise_if-Moves : (test : Bool) (x : Exception) → Moves (λ q. q) (raise_if test x)
unfolding Moves
raise_if-Moves true x d y d' e = absurd (returned _ y d' e)
raise_if-Moves false x d y d' e = sym (ap (λ p. rest p.1) e)

pub on_writer-Moves : (m : Action Writer (Unit {0})) → Moves (λ q. q) (on_writer m)
unfolding Moves on_writer
on_writer-Moves m d x d' e = by_writer d.writer e
  where
    by_writer : (o : Option Writer) → via m o d ≡ (ok x, d') → rest d' ≡ rest d
    by_writer none e = absurd (returned _ x d' e)
    by_writer (some w) e = sym (ap (λ p. rest p.1) e)

Moves-eq :
    {A : Type 0} (g h : Rest → Rest) (m : Action DataLog A)
    → ((r : Rest) → g r ≡ h r)
    → Moves g m
    → Moves h m
unfolding Moves
Moves-eq g h m same moves d x d' e = moves d x d' e ∙ same (rest d)

abbrev guarded_write : Exception → Action Writer (Unit {0}) → Bool → Action DataLog (Unit {0})
guarded_write x m b = raise_if b x >> on_writer m

guarded_write-Moves :
    (x : Exception) (m : Action Writer (Unit {0})) (b : Bool) → Moves (λ q. q) (guarded_write x m b)
guarded_write-Moves x m b =
    bind-Moves (λ q. q) (λ q. q) _ _ (raise_if-Moves b x) (λ _. on_writer-Moves m)

write_info-Moves : (key : Bytes) (value : Setting) → Moves (λ q. q) (write_info key value)
unfolding write_info
write_info-Moves key value =
    reads-Moves (λ q. q) (λ d. d.header_complete)
      (guarded_write (usage header_already_complete)
        (Writer.write_message_info (setting_info key value)))
      (guarded_write-Moves _ _)

write_message_format-Moves :
    (name : Bytes) (fields : List Field) → Moves (λ q. q) (write_message_format name fields)
unfolding write_message_format
write_message_format-Moves name fields =
    reads-Moves (λ q. q) (λ d. check_format any_case_char d.header_complete d.formats name fields)
      go
      (λ out.
        bind-Moves (λ q. q) (λ q. q) _ _ (lift-Moves out)
          (λ size.
            bind-Moves (λ q. q) (λ q. q) _ _
              (modify-Moves (λ q. q) (λ t. record t { formats = put name size t.formats })
                (λ d. refl))
              (λ _.
                on_writer-Moves
                  (Writer.write_message_format (record { name = name; fields = fields })))))
  where
    go : Result ℕ → Action DataLog (Unit {0})
    go out = lift out >>= λ size.
        modify (λ t. record t { formats = put name size t.formats })
        >> on_writer (Writer.write_message_format (record { name = name; fields = fields }))

abbrev completed : Rest → Rest
completed r = (true, r.1, r.2, r.3, r.4, r.5)

header_complete-Moves : Moves completed header_complete
unfolding header_complete
header_complete-Moves =
    reads-Moves completed (λ d. d.header_complete)
      (λ b.
        raise_if b (usage header_already_complete)
        >> (on_writer Writer.write_header_complete
            >> modify (λ t. record t { header_complete = true })))
      (λ b.
        bind-Moves (λ q. q) completed _ _ (raise_if-Moves b _)
          (λ _.
            bind-Moves (λ q. q) completed _ _ (on_writer-Moves _)
              (λ _. modify-Moves completed _ (λ d. refl))))

subscribe-Moves :
    (name : Bytes) (multi_id : ℕ) (o : Option ℕ) → Moves (λ q. q) (subscribe name multi_id o)
unfolding subscribe Moves
subscribe-Moves name multi_id none d x d' e = absurd (returned _ x d' e)
subscribe-Moves name multi_id (some size) d x d' e =
    let id = length d.subscriptions % 2 ^ 16 in
    let add = λ (t : DataLog). record t { subscriptions = t.subscriptions ++ (size ∷ []) } in
    let send =
      Writer.write_add_logged_message
        (record { multi_id = multi_id; msg_id = id; message_name = name }) in
    bind-Moves (λ q. q) (λ q. q) (modify add) (λ _. on_writer send >> pure id)
      (modify-Moves (λ q. q) add (λ d. refl))
      (λ _.
        bind-Moves (λ q. q) (λ q. q) (on_writer send) (λ _. pure id) (on_writer-Moves send)
          (λ _. lift-Moves (ok id)))
      d x d' e

write_add_logged_message-Moves :
    (name : Bytes) (multi_id : ℕ) → Moves (λ q. q) (write_add_logged_message name multi_id)
unfolding write_add_logged_message
write_add_logged_message-Moves name multi_id =
    reads-Moves {V = Bool × Option ℕ} (λ q. q) (λ d. (d.header_complete, lookup name d.formats))
      (λ v. raise_if (not v.0) (usage header_not_complete) >> subscribe name multi_id v.1)
      (λ v.
        bind-Moves (λ q. q) (λ q. q) _ _ (raise_if-Moves (not v.0) _)
          (λ _. subscribe-Moves name multi_id v.1))

abbrev add_id : Bytes → ℕ → DataLog → DataLog
add_id name id t = record t { id_map = put name id t.id_map }

subscribe_structs-Moves : (is : List StructInfo) → Moves (λ q. q) (subscribe_structs is)
unfolding subscribe_structs
subscribe_structs-Moves [] = lift-Moves (ok tt)
subscribe_structs-Moves (i ∷ is) =
    bind-Moves (λ q. q) (λ q. q) _ _
      (raise_if-Moves (is_empty i.message_name || is_empty i.fields) (usage empty_struct))
      (λ _.
        bind-Moves (λ q. q) (λ q. q) _ _ (write_add_logged_message-Moves i.message_name 0)
          (λ id.
            bind-Moves (λ q. q) (λ q. q) _ _
              (modify-Moves (λ q. q) (add_id i.message_name id) (λ d. refl))
              (λ _. subscribe_structs-Moves is)))

add_subscriptions-Moves : (is : List StructInfo) → Moves (λ q. q) (add_subscriptions is)
unfolding add_subscriptions
add_subscriptions-Moves [] = lift-Moves (ok tt)
add_subscriptions-Moves (i ∷ is) =
    bind-Moves (λ q. q) (λ q. q) _ _ (write_add_logged_message-Moves i.message_name 0)
      (λ id.
        bind-Moves (λ q. q) (λ q. q) _ _
          (modify-Moves (λ q. q) (add_id i.message_name id) (λ d. refl))
          (λ _. add_subscriptions-Moves is))

write_formats-Moves : (is : List StructInfo) → Moves (λ q. q) (write_formats is)
unfolding write_formats
write_formats-Moves [] = lift-Moves (ok tt)
write_formats-Moves (i ∷ is) =
    bind-Moves (λ q. q) (λ q. q) _ _ (write_message_format-Moves i.message_name i.fields)
      (λ _. write_formats-Moves is)

-- The structs behind those that the parameters have.
abbrev declared : List StructInfo → Rest → Rest
declared is r = (r.0, record (r.1) { all_structs = (r.1).all_structs ++ is }, r.2, r.3, r.4, r.5)

declared-append :
    (i : StructInfo) (is : List StructInfo) (r : Rest)
    → declared is (declared (i ∷ []) r) ≡ declared (i ∷ is) r
declared-append i is r =
    ap (λ all. (r.0, record (r.1) { all_structs = all }, r.2, r.3, r.4, r.5))
      (append_assoc (r.1).all_structs (i ∷ []) is)

declare_structs-Moves : (is : List StructInfo) → Moves (declared is) (declare_structs is)
unfolding declare_structs
declare_structs-Moves [] =
    Moves-eq (λ q. q) (declared []) _
      (λ r.
        ap (λ all. (r.0, record (r.1) { all_structs = all }, r.2, r.3, r.4, r.5))
          (sym (append-nil (r.1).all_structs)))
      (lift-Moves (ok tt))
declare_structs-Moves (i ∷ is) = Moves-eq _ (declared (i ∷ is)) _ (declared-append i is) (
    bind-Moves (λ q. q) (λ q. declared is (declared (i ∷ []) q)) _ _
      (raise_if-Moves (is_empty i.message_name || is_empty i.fields) (usage empty_struct))
      (λ _.
        bind-Moves (declared (i ∷ [])) (declared is) _ _
          (modify-Moves (declared (i ∷ []))
            (λ t. record t {
              init_params = record (t.init_params) {
                all_structs = (t.init_params).all_structs ++ (i ∷ []);
              };
            })
            (λ d. refl))
          (λ _.
            bind-Moves (λ q. q) (declared is) _ _
              (write_message_format-Moves i.message_name i.fields)
              (λ _. declare_structs-Moves is))))

abbrev keyed : Bytes → Bytes → Rest → Rest
keyed key key_value r = (r.0, record (r.1) { key = key; key_value = key_value }, r.2, r.3, r.4, r.5)

-- The first `Init` keeps its arguments as parameters.
pub init-Moves :
    (key key_value : Bytes) (is : List StructInfo)
    → Moves (λ r. completed (declared is (keyed key key_value r))) (init key key_value is)
unfolding init
init-Moves key key_value is =
    bind-Moves (λ q. q) _ _ _
      (raise_if-Moves (is_empty key || is_empty key_value) (usage empty_key))
      (λ _.
        bind-Moves (keyed key key_value) (λ r. completed (declared is r)) _ _
          (modify-Moves _ _ (λ d. refl))
          (λ _.
            bind-Moves (λ q. q) (λ r. completed (declared is r)) _ _
              (write_info-Moves key (Setting.string key_value))
              (λ _. bind-Moves (declared is) completed _ _ (declare_structs-Moves is) (λ _.
                bind-Moves completed (λ q. q) _ _ header_complete-Moves
                  (λ _.
                    bind-Moves (λ q. q) (λ q. q) _ _ (subscribe_structs-Moves is)
                      (λ _. lift-Moves (ok true)))))))

-- The second `Init` sets the flag only.
pub init_again-Moves : (params : InitParams) → Moves completed (init_again params)
unfolding init_again
init_again-Moves params =
    bind-Moves (λ q. q) completed _ _
      (raise_if-Moves (is_empty params.key || is_empty params.key_value) (usage empty_key))
      (λ _.
        bind-Moves (λ q. q) completed _ _
          (write_info-Moves params.key (Setting.string params.key_value))
          (λ _.
            bind-Moves (λ q. q) completed _ _ (write_formats-Moves params.all_structs)
              (λ _.
                bind-Moves completed (λ q. q) _ _ header_complete-Moves
                  (λ _.
                    bind-Moves (λ q. q) (λ q. q) _ _ (add_subscriptions-Moves params.all_structs)
                      (λ _. lift-Moves (ok true))))))
