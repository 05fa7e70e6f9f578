-- ===== src/Log/Follow.antt =====
-- A container takes every call of a simple writer's trace.
use my_ulog.Base.{
  ℕ, zero, suc, ◌%◌, ◌^◌, ◌≤◌, ◌<◌, ◌≡◌, refl, ap, ◌∙◌, false, not, Option, none, some, List, [],
  ◌∷◌, ◌++◌, length, length-append, get_elem?, take, arith, subst,
}
use my_ulog.Base.Dict.{bytes_key, nat_key, lookup, put}
use my_ulog.Base.Result.{ok}
use my_ulog.Base.Action.{proceed, proceed-ok}
use my_ulog.Handler.{Event, run}
use my_ulog.Checks.{field_name_char, is_some}
use my_ulog.Checks.Accepted.{check_format-IsAccepted}
use my_ulog.Writer
use my_ulog.Writer.{Writer, emit}
use my_ulog.Container.{Container, container_handler}
use my_ulog.SimpleWriter.{
  SimpleWriter, Call, setting_info, write_info, write_parameter, write_parameter_change,
  write_text_message, write_add_logged_message, write_data_impl, perform, perform_all,
}
use my_ulog.SimpleWriter.Trace.{
  trace, event_of, guard_passed, format_written, sample_enough, expected_size,
}
use my_ulog.SimpleWriter.Tables.{Same, written-Same, subscribed, completed-Same, sent-Same}
use my_ulog.Log.Simple.{single_setting}
use my_ulog.Log.Mirror.{
  IsMirror, Follows, same-IsMirror, info-Follows, parameter-Follows, complete-Follows,
  format-Follows, subscription-Follows, sample-Follows, text-Follows,
}

then-Follows :
    (e : Event) (s t : SimpleWriter) (c : Container) → Same s t → Follows e s c → Follows e t c
unfolding Follows
then-Follows e s t c (formats, subs) (c', taken, h) =
    (c', taken, same-IsMirror s t c' formats subs h)

unknown : (o : Option ℕ) → is_some o ≡ false → o ≡ none
unknown none e = refl
unknown (some n) e = cc

get_elem?-lt : (xs : List ℕ) (id n : ℕ) → get_elem? xs id ≡ some n → id < length xs
get_elem?-lt [] id n e = cc
get_elem?-lt (x ∷ xs) zero n e = omega arith
get_elem?-lt (x ∷ xs) (suc id) n e = omega (arith, get_elem?-lt xs id n e)

perform-Follows :
    (x : Call) (s t : SimpleWriter) (c : Container)
    → perform x s ≡ (ok tt, t)
    → length t.subscriptions ≤ 2 ^ 16
    → IsMirror s c
    → Follows (event_of x s) t c
unfolding write_info write_parameter write_parameter_change write_text_message
    write_add_logged_message write_data_impl
perform-Follows (Call.info key value) s t c e few h =
    then-Follows (event_of (Call.info key value) s) s t c
      (written-Same (Writer.write_message_info (setting_info key value)) s t
        (guard_passed s.header_complete _ _ s t tt e).1)
      (info-Follows (setting_info key value) s c (single_setting key value) h)
perform-Follows (Call.parameter key value) s t c e few h =
    then-Follows (event_of (Call.parameter key value) s) s t c
      (written-Same (Writer.write_parameter (setting_info key value)) s t
        (guard_passed s.header_complete _ _ s t tt e).1)
      (parameter-Follows (setting_info key value) s c h)
perform-Follows (Call.format name fields) s t c e few h =
    let (size, checked, sent) = format_written name fields s t e in
    let accepted =
      (check_format-IsAccepted field_name_char s.header_complete s.formats name fields size
        checked).1 in
    let k = record s { formats = put name size s.formats } in
    then-Follows (event_of (Call.format name fields) s) k t c
      (written-Same (Writer.write_message_format (record { name = name; fields = fields })) k t
        sent)
      (format-Follows (record { name = name; fields = fields }) size s c
        (unknown _ accepted.new_name) h)
perform-Follows Call.complete s t c e few h =
    then-Follows Event.header_complete s t c (completed-Same s t e) (complete-Follows s c h)
perform-Follows (Call.parameter_change key value) s t c e few h =
    then-Follows (event_of (Call.parameter_change key value) s) s t c
      (written-Same (Writer.write_parameter (setting_info key value)) s t
        (guard_passed (not s.header_complete) _ _ s t tt e).1)
      (parameter-Follows (setting_info key value) s c h)
perform-Follows (Call.add_logged name multi_id) s t c e few h =
    let (id, k, added, last) = proceed-ok (write_add_logged_message name multi_id s) _ tt t e in
    let (size, found, same) =
      subscribed name multi_id id (lookup name s.formats) s k
        (guard_passed (not s.header_complete) _ _ s k id added).1 in
    let s1 = record s { subscriptions = s.subscriptions ++ (size ∷ []) } in
    let all = subst (Same s1) (ap (λ p. p.1) last) same in
    then-Follows (event_of (Call.add_logged name multi_id) s) s1 t c all (
      subscription-Follows
        (record {
          multi_id = multi_id;
          msg_id = length s.subscriptions % 2 ^ 16;
          message_name = name;
        })
        size s c (omega (arith, few, ap length all.1, length-append s.subscriptions (size ∷ []))) h)
perform-Follows (Call.text level message timestamp) s t c e few h =
    then-Follows (event_of (Call.text level message timestamp) s) s t c
      (written-Same
        (Writer.write_logging (record {
          log_level = level;
          tag = 0;
          has_tag = false;
          timestamp = timestamp;
          message = message;
        }))
        s t (guard_passed (not s.header_complete) _ _ s t tt e).1)
      (text-Follows _ s c h)
perform-Follows (Call.sample id bytes) s t c e few h =
    let (found, enough) = sample_enough id bytes s t e in
    then-Follows (event_of (Call.sample id bytes) s) s t c (sent-Same id bytes s t e) (
      sample-Follows (record { msg_id = id; payload = take (expected_size id s) bytes }) s c
        (get_elem?-lt s.subscriptions id (expected_size id s) found) h)

Same-le : (s t : SimpleWriter) → Same s t → length s.subscriptions ≤ length t.subscriptions
Same-le s t same = omega (arith, ap length same.1)

-- No call takes a subscription away.
perform-le :
    (x : Call) (s t : SimpleWriter)
    → perform x s ≡ (ok tt, t)
    → length s.subscriptions ≤ length t.subscriptions
unfolding write_info write_parameter write_parameter_change write_text_message
    write_add_logged_message
perform-le (Call.info key value) s t e = Same-le s t (
    written-Same (Writer.write_message_info (setting_info key value)) s t
      (guard_passed s.header_complete _ _ s t tt e).1)
perform-le (Call.parameter key value) s t e = Same-le s t (
    written-Same (Writer.write_parameter (setting_info key value)) s t
      (guard_passed s.header_complete _ _ s t tt e).1)
perform-le (Call.format name fields) s t e =
    let (size, checked, sent) = format_written name fields s t e in
    let k = record s { formats = put name size s.formats } in
    Same-le k t (
      written-Same (Writer.write_message_format (record { name = name; fields = fields })) k t sent)
perform-le Call.complete s t e = Same-le s t (completed-Same s t e)
perform-le (Call.parameter_change key value) s t e = Same-le s t (
    written-Same (Writer.write_parameter (setting_info key value)) s t
      (guard_passed (not s.header_complete) _ _ s t tt e).1)
perform-le (Call.add_logged name multi_id) s t e =
    let (id, k, added, last) = proceed-ok (write_add_logged_message name multi_id s) _ tt t e in
    let (size, found, same) =
      subscribed name multi_id id (lookup name s.formats) s k
        (guard_passed (not s.header_complete) _ _ s k id added).1 in
    let s1 = record s { subscriptions = s.subscriptions ++ (size ∷ []) } in
    omega (
      arith,
      Same-le s1 t (subst (Same s1) (ap (λ p. p.1) last) same),
      length-append s.subscriptions (size ∷ []),
    )
perform-le (Call.text level message timestamp) s t e = Same-le s t (
    written-Same
      (Writer.write_logging (record {
        log_level = level;
        tag = 0;
        has_tag = false;
        timestamp = timestamp;
        message = message;
      }))
      s t (guard_passed (not s.header_complete) _ _ s t tt e).1)
perform-le (Call.sample id bytes) s t e = Same-le s t (sent-Same id bytes s t e)

perform_all-le :
    (cs : List Call) (s t : SimpleWriter)
    → perform_all cs s ≡ (ok tt, t)
    → length s.subscriptions ≤ length t.subscriptions
unfolding perform_all
perform_all-le [] s t e = omega (arith, ap (λ p. length (p.1).subscriptions) e)
perform_all-le (x ∷ cs) s t e =
    let (u, k, first, more) = proceed-ok (perform x s) _ tt t e in
    omega (arith, perform-le x s k first, perform_all-le cs k t more)

-- The container takes every call of the trace.
pub trace-taken :
    (cs : List Call) (s t : SimpleWriter) (c : Container)
    → perform_all cs s ≡ (ok tt, t)
    → length t.subscriptions ≤ 2 ^ 16
    → IsMirror s c
    → (c' : Container) × (run container_handler (trace cs s) c ≡ (ok tt, c'))
unfolding perform_all trace run Follows
trace-taken [] s t c e few h = (c, refl)
trace-taken (x ∷ cs) s t c e few h =
    let (u, k, first, more) = proceed-ok (perform x s) _ tt t e in
    let (d, taken, h') =
      perform-Follows x s k c first (omega (arith, few, perform_all-le cs k t more)) h in
    let (c', rest) = trace-taken cs k t d more few h' in
    (
      c',
      ap (λ out. proceed out (λ _. run container_handler (trace cs (perform x s).1))) taken
          ∙ ap (λ p. run container_handler (trace cs p.1) d) first
          ∙ rest,
    )
