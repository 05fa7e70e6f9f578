-- ===== src/DataLog/Init.antt =====
-- include/ulog_cpp/zz_data_log.hpp: the two `Init`, which write the header of a file.
use my_ulog.Base.{Bool, true, false, ◌||◌, List, [], ◌∷◌, ◌++◌}
use my_ulog.Base.Bytes.{Bytes}
use my_ulog.Base.Dict.{bytes_key, put}
use my_ulog.Base.Result.{usage, empty_key, empty_struct}
use my_ulog.Base.Action.{Action, ◌>>=◌, ◌>>◌, pure, modify, raise_if}
use my_ulog.SimpleWriter.{Setting}
use my_ulog.DataLog.State.{
  StructInfo, InitParams, DataLog, write_info, write_message_format, header_complete,
  write_add_logged_message,
}

-- The two loops of `Init`.
unfoldable pub write_formats : List StructInfo → Action DataLog (Unit {0})
write_formats [] = pure tt
write_formats (i ∷ is) = write_message_format i.message_name i.fields >> write_formats is

unfoldable pub add_subscriptions : List StructInfo → Action DataLog (Unit {0})
add_subscriptions [] = pure tt
add_subscriptions (i ∷ is) = write_add_logged_message i.message_name 0 >>= λ id.
    modify (λ t. record t { id_map = put i.message_name id t.id_map }) >> add_subscriptions is

abbrev pub is_empty : {A : Type 0} → List A → Bool
is_empty [] = true
is_empty (x ∷ xs) = false

-- `Init(const InitParams&)`.
unfoldable pub init_again : InitParams → Action DataLog Bool
init_again params = do
  raise_if (is_empty params.key || is_empty params.key_value) (usage empty_key)
  write_info params.key (Setting.string params.key_value)
  write_formats params.all_structs
  header_complete
  add_subscriptions params.all_structs
  pure true

-- The first loop of the other `Init`, which keeps the structs for the files to come.
unfoldable pub declare_structs : List StructInfo → Action DataLog (Unit {0})
declare_structs [] = pure tt
declare_structs (i ∷ is) = do
  raise_if (is_empty i.message_name || is_empty i.fields) (usage empty_struct)
  modify (λ t. record t {
    init_params = record (t.init_params) { all_structs = (t.init_params).all_structs ++ (i ∷ []) };
  })
  write_message_format i.message_name i.fields
  declare_structs is

-- The second loop of the other `Init`.
unfoldable pub subscribe_structs : List StructInfo → Action DataLog (Unit {0})
subscribe_structs [] = pure tt
subscribe_structs (i ∷ is) = do
  raise_if (is_empty i.message_name || is_empty i.fields) (usage empty_struct)
  id ← write_add_logged_message i.message_name 0
  modify (λ t. record t { id_map = put i.message_name id t.id_map })
  subscribe_structs is

-- `Init(key, key_value, all_structs)`.
unfoldable pub init : Bytes → Bytes → List StructInfo → Action DataLog Bool
init key key_value all_structs = do
  raise_if (is_empty key || is_empty key_value) (usage empty_key)
  modify
      (λ t. record t { init_params = record (t.init_params) { key = key; key_value = key_value } })
  write_info key (Setting.string key_value)
  declare_structs all_structs
  header_complete
  subscribe_structs all_structs
  pure true
