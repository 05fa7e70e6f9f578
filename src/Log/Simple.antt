-- ===== src/Log/Simple.antt =====
-- What calls of `SimpleWriter` have to be for their messages to be read back.
use my_ulog.Base.{
  ℕ, ◌+◌, ◌^◌, ◌≤◌, ◌<◌, ◌≡◌, refl, ap, ◌∙◌, List, [], ◌∷◌, Bool, true, false, All, arith, length,
  length-take,
}
use my_ulog.Base.Bytes.{Bytes}
use my_ulog.Base.Dict.{bytes_key}
use my_ulog.Base.Result.{ok}
use my_ulog.Base.Action.{proceed-ok}
use my_ulog.Messages.Field.{IsLength}
use my_ulog.Messages.Info.{info_int32, info_float, info_string}
use my_ulog.Messages.Info.RoundTrip.{IsInfo}
use my_ulog.Messages.Format.{definition}
use my_ulog.Checks.{format_name_char, field_name_char, matches}
use my_ulog.Checks.Accepted.{check_format-IsAccepted}
use my_ulog.Checks.Writable.{IsAccepted-IsFormat}
use my_ulog.SimpleWriter.{SimpleWriter, Setting, Call, setting_info, perform, perform_all}
use my_ulog.SimpleWriter.Trace.{
  trace, event_of, expected_size, format_written, sample_enough, add_logged_known,
}
use my_ulog.SimpleWriter.Consistent.{IsConsistent, perform-IsConsistent}
use my_ulog.Log.Frames.{IsWritable, IsDefinition, IsDatum}

-- The values of a call fit their types in a file, and what is read back is not empty.
abbrev pub Fits : Call → SimpleWriter → Type 0
Fits (Call.info key value) s = IsInfo (setting_info key value)
Fits (Call.parameter key value) s = IsInfo (setting_info key value)
Fits (Call.format name fields) s =
    All (λ f. IsLength f.array_length) fields
    × (length (definition (record { name = name; fields = fields })) < 2 ^ 31)
Fits Call.complete s = Unit
Fits (Call.parameter_change key value) s = IsInfo (setting_info key value)
Fits (Call.add_logged name multi_id) s = length name + 3 < 2 ^ 31
Fits (Call.text level message timestamp) s =
    (timestamp < 2 ^ 64) × (1 ≤ length message) × (length message + 11 < 2 ^ 31)
Fits (Call.sample id bytes) s =
    (id < 65536) × (1 ≤ expected_size id s) × (expected_size id s + 2 < 2 ^ 31)

-- Each call as it finds the writer.
unfoldable pub FitAll : List Call → SimpleWriter → Type 0
FitAll [] s = Unit
FitAll (c ∷ cs) s = Fits c s × FitAll cs (perform c s).1

-- The calls of the header, and those behind it.
abbrev pub IsHeaderCall : Call → Type 0
IsHeaderCall (Call.info key value) = Unit
IsHeaderCall (Call.parameter key value) = Unit
IsHeaderCall (Call.format name fields) = Unit
IsHeaderCall _ = ⊥

abbrev pub IsDataCall : Call → Type 0
IsDataCall (Call.parameter_change key value) = Unit
IsDataCall (Call.add_logged name multi_id) = Unit
IsDataCall (Call.text level message timestamp) = Unit
IsDataCall (Call.sample id bytes) = Unit
IsDataCall _ = ⊥

-- A call by which a reader knows that the header has ended.
abbrev pub IsFirstCall : Call → Type 0
IsFirstCall (Call.add_logged name multi_id) = Unit
IsFirstCall (Call.text level message timestamp) = Unit
IsFirstCall _ = ⊥

pub single_setting : (key : Bytes) (value : Setting) → (setting_info key value).is_multi ≡ false
unfolding info_int32 info_float info_string
single_setting key (Setting.int32 value) = refl
single_setting key (Setting.float value) = refl
single_setting key (Setting.string value) = refl

matches_nonempty : (class : ℕ → Bool) (s : Bytes) → matches class s ≡ true → 1 ≤ length s
unfolding matches
matches_nonempty class [] e = absurd (clash e)
  where
    clash : false ≡ true → ⊥
    clash e = cc
matches_nonempty class (c ∷ s) e = omega arith

-- A call that was accepted makes a message that is read back.
header_call-IsWritable :
    (c : Call) (s s' : SimpleWriter)
    → IsHeaderCall c
    → Fits c s
    → perform c s ≡ (ok tt, s')
    → IsWritable (event_of c s) × IsDefinition (event_of c s)
header_call-IsWritable (Call.info key value) s s' d fit e = (fit, tt)
header_call-IsWritable (Call.parameter key value) s s' d fit e =
    ((fit, single_setting key value), tt)
header_call-IsWritable (Call.format name fields) s s' d (lens, small) e =
    let (size, checked, sent) = format_written name fields s s' e in
    let (early, accepted) =
      check_format-IsAccepted field_name_char s.header_complete s.formats name fields size
        checked in
    (IsAccepted-IsFormat field_name_char s.formats name fields size refl accepted lens small, tt)
header_call-IsWritable Call.complete s s' d fit e = absurd d
header_call-IsWritable (Call.parameter_change key value) s s' d fit e = absurd d
header_call-IsWritable (Call.add_logged name multi_id) s s' d fit e = absurd d
header_call-IsWritable (Call.text level message timestamp) s s' d fit e = absurd d
header_call-IsWritable (Call.sample id bytes) s s' d fit e = absurd d

data_call-IsWritable :
    (c : Call) (s s' : SimpleWriter)
    → IsConsistent s
    → IsDataCall c
    → Fits c s
    → perform c s ≡ (ok tt, s')
    → IsWritable (event_of c s) × IsDatum (event_of c s)
data_call-IsWritable (Call.parameter_change key value) s s' h d fit e =
    ((fit, single_setting key value), tt)
data_call-IsWritable (Call.add_logged name multi_id) s s' h d fit e =
    let (size, found) = add_logged_known name multi_id s s' e in
    (
      (
        record { msg_id_range = omega arith; in_memory = fit },
        matches_nonempty format_name_char name (h.formats name size found).0,
      ),
      tt,
    )
data_call-IsWritable (Call.text level message timestamp) s s' h d (time, some_text, small) e = (
  (
    record {
      tag_range = omega arith;
      untagged = λ e. refl;
      timestamp_range = time;
      in_memory = small;
    },
    some_text,
  ),
  tt,
)
data_call-IsWritable (Call.sample id bytes) s s' h d (range, some_size, small) e =
    let (found, enough) = sample_enough id bytes s s' e in
    (
      (
        record {
          msg_id_range = range;
          in_memory = omega (arith, length-take (expected_size id s) bytes, enough);
        },
        omega (arith, length-take (expected_size id s) bytes, enough),
      ),
      tt,
    )
data_call-IsWritable Call.complete s s' h d fit e = absurd d
data_call-IsWritable (Call.info key value) s s' h d fit e = absurd d
data_call-IsWritable (Call.parameter key value) s s' h d fit e = absurd d
data_call-IsWritable (Call.format name fields) s s' h d fit e = absurd d

-- The state behind a call that returned.
pub next_state :
    (cs : List Call) (c : Call) (s k s' : SimpleWriter)
    → perform c s ≡ (ok tt, k)
    → perform_all cs k ≡ (ok tt, s')
    → perform_all cs (perform c s).1 ≡ (ok tt, s')
next_state cs c s k s' first rest = ap (λ p. perform_all cs p.1) first ∙ rest

pub header_calls-IsWritable :
    (cs : List Call) (s s' : SimpleWriter)
    → All IsHeaderCall cs
    → FitAll cs s
    → perform_all cs s ≡ (ok tt, s')
    → All IsWritable (trace cs s) × All IsDefinition (trace cs s)
unfolding trace perform_all FitAll
header_calls-IsWritable [] s s' d fits e = (tt, tt)
header_calls-IsWritable (c ∷ cs) s s' (dc, d) (fit, fits) e =
    let (u, k, first, rest) = proceed-ok (perform c s) _ tt s' e in
    let (w, placed) = header_call-IsWritable c s k dc fit first in
    let (ws, all_placed) =
      header_calls-IsWritable cs (perform c s).1 s' d fits (next_state cs c s k s' first rest) in
    ((w, ws), (placed, all_placed))

pub data_calls-IsWritable :
    (cs : List Call) (s s' : SimpleWriter)
    → IsConsistent s
    → All IsDataCall cs
    → FitAll cs s
    → perform_all cs s ≡ (ok tt, s')
    → All IsWritable (trace cs s) × All IsDatum (trace cs s)
unfolding trace perform_all FitAll
data_calls-IsWritable [] s s' h d fits e = (tt, tt)
data_calls-IsWritable (c ∷ cs) s s' h (dc, d) (fit, fits) e =
    let (u, k, first, rest) = proceed-ok (perform c s) _ tt s' e in
    let (w, placed) = data_call-IsWritable c s k h dc fit first in
    let (ws, all_placed) =
      data_calls-IsWritable cs (perform c s).1 s' (perform-IsConsistent c s h) d fits
        (next_state cs c s k s' first rest) in
    ((w, ws), (placed, all_placed))
