-- ===== src/Container/Sound.antt =====
-- Every method of the container returns or throws.
use my_ulog.Base.{Option, none, some, List, [], ◌∷◌}
use my_ulog.Base.Dict.{nat_key, bytes_key, lookup, put, insert}
use my_ulog.Base.Result.{
  Result, ok, throw, IsSound, parsing, duplicate_format, duplicate_msg_id, invalid_subscription,
}
use my_ulog.Handler.{Event, dispatch}
use my_ulog.Messages.Info.{MessageInfo}
use my_ulog.Messages.Format.{MessageFormat}
use my_ulog.Reader.Keeps.{IsSoundHandler}
use my_ulog.Container.{
  Subscription, Container, container_handler, is_header, skips, on_error, on_header_complete,
  on_file_header, on_message_info, on_message_format, on_parameter, on_parameter_default,
  on_add_logged_message, on_logging, on_data, on_dropout, add_sample, continue_last, groups,
}
use my_ulog.Container.Order.{if_both}

abbrev SoundOut : Result (Unit {0}) × Container → Type 0
SoundOut out = IsSound out.0

continue_last-IsSound :
    (info : MessageInfo) (gs : List (List MessageInfo)) (c : Container)
    → SoundOut (continue_last info gs c)
unfolding continue_last
continue_last-IsSound info [] c = tt
continue_last-IsSound info (g ∷ gs) c = tt

container-IsSound : (e : Event) (c : Container) → SoundOut (dispatch container_handler e c)
unfolding on_error on_header_complete on_file_header on_message_info on_message_format on_parameter
    on_parameter_default on_add_logged_message on_logging on_data on_dropout
container-IsSound (Event.logging x) c = if_both SoundOut (skips c) _ _ tt tt
container-IsSound (Event.dropout x) c = if_both SoundOut (skips c) _ _ tt tt
container-IsSound (Event.parameter x) c =
    if_both SoundOut (skips c) _ _ tt (if_both SoundOut c.header_complete _ _ tt tt)
container-IsSound (Event.message_info x) c = if_both SoundOut (skips c) _ _ tt (
    if_both SoundOut x.is_multi _ _
      (if_both SoundOut x.continued _ _ (continue_last-IsSound x (groups x.field.name c) c) tt) tt)
container-IsSound (Event.message_format x) c = by_entry (lookup x.name c.message_formats)
  where
    by_entry :
        (o : Option MessageFormat)
        → SoundOut (elim o [
          | some f ↦ (throw (parsing duplicate_format), c)
          | none ↦ (ok tt, record c { message_formats = insert x.name x c.message_formats })
        ])
    by_entry (some f) = tt
    by_entry none = tt
container-IsSound (Event.add_logged_message x) c =
    if_both SoundOut (skips c) _ _ tt (by_entry (lookup x.msg_id c.subscriptions))
  where
    by_entry :
        (o : Option Subscription)
        → SoundOut (elim o [
          | some s ↦ (throw (parsing duplicate_msg_id), c)
          | none ↦ (
            ok tt,
            record c {
              subscriptions =
                  insert x.msg_id (record { add_logged_message = x; samples = [] }) c.subscriptions;
            },
          )
        ])
    by_entry (some s) = tt
    by_entry none = tt
container-IsSound (Event.logged_data x) c =
    if_both SoundOut (is_header c.storage_config) _ _ tt
      (by_entry (lookup x.msg_id c.subscriptions))
  where
    by_entry :
        (o : Option Subscription)
        → SoundOut (elim o [
          | none ↦ (throw (parsing invalid_subscription), c)
          | some s ↦
              (ok tt, record c { subscriptions = put x.msg_id (add_sample x s) c.subscriptions })
        ])
    by_entry (some s) = tt
    by_entry none = tt
container-IsSound Event.header_complete c = tt
container-IsSound (Event.error x y) c = tt
container-IsSound (Event.file_header x) c = tt
container-IsSound (Event.parameter_default x) c = tt
container-IsSound (Event.sync x) c = tt

pub container_handler-IsSoundHandler : IsSoundHandler container_handler
container_handler-IsSoundHandler = record { sound = container-IsSound }
