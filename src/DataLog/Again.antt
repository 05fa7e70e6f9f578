-- ===== src/DataLog/Again.antt =====
-- The definitions that a logger writes do not depend on the file: the second `Init` repeats the first.
use my_ulog.Base.{
  ℕ, ◌%◌, ◌^◌, refl, ap, Bool, true, not, ◌||◌, Option, none, some, List, [], ◌∷◌, ◌++◌, length,
}
use my_ulog.Base.Bytes.{Bytes}
use my_ulog.Base.Dict.{bytes_key, lookup, put}
use my_ulog.Base.Result.{
  Result, ok, throw, fault, out_of_fuel, usage, header_already_complete, header_not_complete,
  parsing, formats_after_header, subscription_before_header, empty_key,
}
use my_ulog.Base.Action.{Action, ◌>>=◌, ◌>>◌, pure, lift, modify, raise_if}
use my_ulog.Checks.{any_case_char, check_format}
use my_ulog.Messages.Field.{Field}
use my_ulog.Messages.AddLogged.{AddLoggedMessage, serialize_add_logged}
use my_ulog.Messages.Format.{serialize_format}
use my_ulog.SimpleWriter.{Setting, setting_info}
use my_ulog.Writer
use my_ulog.Writer.{Writer, emit}
use my_ulog.DataLog.State.{
  StructInfo, DataLog, on_writer, write_info, write_message_format, header_complete,
  write_add_logged_message, subscribe,
}
use my_ulog.DataLog.Init.{
  write_formats, add_subscriptions, is_empty, init_again, declare_structs, subscribe_structs, init,
}
use my_ulog.DataLog.Alike.{
  Simulates, IsBlind, emit-IsBlind, guarded-IsBlind, bind-Simulates, reads-Simulates,
  pure-Simulates, raise_if-Simulates, raise-Simulates, modify-Simulates, raise_if-on_left,
  modify-on_left, on_writer-Simulates,
}

subscription-IsBlind : (a : AddLoggedMessage) → IsBlind (Writer.write_add_logged_message a)
unfolding Writer.write_add_logged_message
subscription-IsBlind a =
    guarded-IsBlind not (parsing subscription_before_header) _
      (emit-IsBlind (serialize_add_logged a))

module _ (start other : List Bytes) where
  write_info-Simulates :
      (key : Bytes) (value : Setting)
      → Simulates start other (write_info key value) (write_info key value)
  unfolding write_info Writer.write_message_info
  write_info-Simulates key value =
      reads-Simulates start other (λ t. t.0)
        (λ b.
          raise_if b (usage header_already_complete)
          >> on_writer (Writer.write_message_info (setting_info key value)))
        (λ b.
          bind-Simulates start other _ _ _ _
            (raise_if-Simulates start other b (usage header_already_complete))
            (λ _. on_writer-Simulates start other _ (emit-IsBlind _)))

  header_complete-Simulates : Simulates start other header_complete header_complete
  unfolding header_complete Writer.write_header_complete IsBlind
  header_complete-Simulates =
      reads-Simulates start other (λ t. t.0) rest
        (λ b.
          bind-Simulates start other _ _ _ _
            (raise_if-Simulates start other b (usage header_already_complete))
            (λ _.
              bind-Simulates start other _ _ _ _
                (on_writer-Simulates start other _
                  (λ flag shared. (ok tt, true, shared, λ o. refl)))
                (λ _. modify-Simulates start other _ _ (λ a b' h. record {
                  same = ap (λ t. (true, t.1, t.2, t.3)) h.same;
                  flag = h.flag;
                  shared = h.shared;
                  left = h.left;
                  right = h.right;
                }))))
    where
      rest : Bool → Action DataLog (Unit {0})
      rest b =
          raise_if b (usage header_already_complete)
          >> (on_writer Writer.write_header_complete
              >> modify (λ t. record t { header_complete = true }))

  write_message_format-Simulates :
      (name : Bytes) (fields : List Field)
      → Simulates start other (write_message_format name fields) (write_message_format name fields)
  unfolding write_message_format Writer.write_message_format
  write_message_format-Simulates name fields =
      reads-Simulates start other (λ t. (check_format any_case_char t.0 t.1 name fields)) rest
        by_check
    where
      rest : Result ℕ → Action DataLog (Unit {0})
      rest out = lift out >>= λ size.
          modify (λ t. record t { formats = put name size t.formats })
          >> on_writer (Writer.write_message_format (record { name = name; fields = fields }))

      by_check : (out : Result ℕ) → Simulates start other (rest out) (rest out)
      by_check (ok size) =
          bind-Simulates start other _ _ _ _
            (modify-Simulates start other _ _ (λ a b h. record {
              same = ap (λ t. (t.0, put name size t.1, t.2, t.3)) h.same;
              flag = h.flag;
              shared = h.shared;
              left = h.left;
              right = h.right;
            }))
            (λ _. on_writer-Simulates start other _ (
              guarded-IsBlind (λ b. b) (parsing formats_after_header) _
                (emit-IsBlind (serialize_format (record { name = name; fields = fields })))))
      by_check (throw x) = raise-Simulates start other (throw x) _ (λ r. r)
      by_check fault = raise-Simulates start other fault _ (λ r. r)
      by_check out_of_fuel = raise-Simulates start other out_of_fuel _ (λ r. r)

  subscribe-Simulates :
      (name : Bytes) (multi_id : ℕ) (o : Option ℕ)
      → Simulates start other (subscribe name multi_id o) (subscribe name multi_id o)
  unfolding subscribe
  subscribe-Simulates name multi_id none = raise-Simulates start other _ _ (λ r. r)
  subscribe-Simulates name multi_id (some size) =
      reads-Simulates start other (λ t. length t.2 % 2 ^ 16) rest
        (λ id.
          bind-Simulates start other _ _ _ _
            (modify-Simulates start other add add (λ a b h. record {
              same = ap (λ t. (t.0, t.1, t.2 ++ (size ∷ []), t.3)) h.same;
              flag = h.flag;
              shared = h.shared;
              left = h.left;
              right = h.right;
            }))
            (λ _.
              bind-Simulates start other _ _ _ _
                (on_writer-Simulates start other _ (
                  subscription-IsBlind
                    (record { multi_id = multi_id; msg_id = id; message_name = name })))
                (λ _. pure-Simulates start other id)))
    where
      add : DataLog → DataLog
      add t = record t { subscriptions = t.subscriptions ++ (size ∷ []) }

      rest : ℕ → Action DataLog ℕ
      rest id =
          modify add
          >> (on_writer (
                Writer.write_add_logged_message
                  (record { multi_id = multi_id; msg_id = id; message_name = name }))
              >> pure id)

  write_add_logged_message-Simulates :
      (name : Bytes) (multi_id : ℕ)
      → Simulates start other
          (write_add_logged_message name multi_id)
          (write_add_logged_message name multi_id)
  unfolding write_add_logged_message
  write_add_logged_message-Simulates name multi_id =
      reads-Simulates start other (λ t. (t.0, lookup name t.1)) rest
        (λ v.
          bind-Simulates start other _ _ _ _
            (raise_if-Simulates start other (not v.0) (usage header_not_complete))
            (λ _. subscribe-Simulates name multi_id v.1))
    where
      rest : Bool × Option ℕ → Action DataLog ℕ
      rest v = raise_if (not v.0) (usage header_not_complete) >> subscribe name multi_id v.1

  write_formats-Simulates :
      (is : List StructInfo) → Simulates start other (declare_structs is) (write_formats is)
  unfolding write_formats declare_structs
  write_formats-Simulates [] = pure-Simulates start other tt
  write_formats-Simulates (i ∷ is) = raise_if-on_left start other _ _ _ _ (
      modify-on_left start other _ _ _
        (λ a b h. record {
          same = h.same;
          flag = h.flag;
          shared = h.shared;
          left = h.left;
          right = h.right;
        })
        (bind-Simulates start other _ _ _ _ (write_message_format-Simulates i.message_name i.fields)
          (λ _. write_formats-Simulates is)))

  add_subscriptions-Simulates :
      (is : List StructInfo) → Simulates start other (subscribe_structs is) (add_subscriptions is)
  unfolding add_subscriptions subscribe_structs
  add_subscriptions-Simulates [] = pure-Simulates start other tt
  add_subscriptions-Simulates (i ∷ is) = raise_if-on_left start other _ _ _ _ (
      bind-Simulates start other _ _ _ _ (write_add_logged_message-Simulates i.message_name 0)
        (λ id.
          bind-Simulates start other _ _ _ _
            (modify-Simulates start other (add id) (add id) (λ a b h. record {
              same = ap (λ t. (t.0, t.1, t.2, put i.message_name id t.3)) h.same;
              flag = h.flag;
              shared = h.shared;
              left = h.left;
              right = h.right;
            }))
            (λ _. add_subscriptions-Simulates is)))
    where
      add : ℕ → DataLog → DataLog
      add id t = record t { id_map = put i.message_name id t.id_map }

  pub init-Simulates :
      (key key_value : Bytes) (is : List StructInfo) (filename : Bytes)
      → Simulates start other (init key key_value is) (
          init_again
            (record { file_name = filename; key = key; key_value = key_value; all_structs = is }))
  unfolding init init_again
  init-Simulates key key_value is filename =
      bind-Simulates start other _ _ _ _
        (raise_if-Simulates start other (is_empty key || is_empty key_value) (usage empty_key))
        (λ _.
          modify-on_left start other _ _ _
            (λ a b h. record {
              same = h.same;
              flag = h.flag;
              shared = h.shared;
              left = h.left;
              right = h.right;
            })
            (bind-Simulates start other _ _ _ _
              (write_info-Simulates key (Setting.string key_value))
              (λ _. bind-Simulates start other _ _ _ _ (write_formats-Simulates is) (λ _.
                bind-Simulates start other _ _ _ _ header_complete-Simulates (λ _.
                  bind-Simulates start other _ _ _ _ (add_subscriptions-Simulates is)
                    (λ _. pure-Simulates start other true))))))
