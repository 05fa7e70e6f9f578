-- ===== src/DataLog/Appended.antt =====
-- What a call of the serialiser of samples adds to the file of a logger.
use my_ulog.Base.{
  ℕ, ◌+◌, ◌^◌, ◌<◌, ◌≤◌, ◌≡◌, refl, sym, ap, ◌∙◌, false, Option, none, some, List, [], ◌∷◌, ◌++◌,
  append_assoc, length, arith,
}
use my_ulog.Base.Bytes.{Bytes}
use my_ulog.Base.Dict.{bytes_key}
use my_ulog.Base.Result.{Result, ok, throw, fault, out_of_fuel, else_ok}
use my_ulog.Messages.Raw.{exceeds_u16-false}
use my_ulog.Base.Action.{returned}
use my_ulog.Messages.FileHeader.{new_file_header, serialize_file_header}
use my_ulog.Messages.Data.{Data, serialize_data}
use my_ulog.Writer
use my_ulog.Writer.{Writer, emit}
use my_ulog.DataLog.State.{DataLog, on_writer, via}
use my_ulog.DataLog.Rotate.{output_of}
use my_ulog.DataLog.Files.{writes_of, writes_of-append}

-- A sample that was written is short.
serialized :
    (x : Data) (ws : List Bytes)
    → length x.payload + 2 < 2 ^ 31
    → serialize_data x ≡ ok ws
    → (ws ≡ writes_of (x ∷ [])) × (length x.payload ≤ 65533)
unfolding serialize_data writes_of
serialized x ws memory e =
    let (pass, same) = else_ok _ _ e in
    let short = exceeds_u16-false (length x.payload + 2) memory pass in
    (sym same, omega (arith, short))

-- What a serialiser that returned has added.
pub record IsAppended (ws : List Bytes) (k d : DataLog) : Type 0 where
  pub output : output_of d.writer ≡ output_of k.writer ++ ws
  pub closed : d.closed ≡ k.closed
  pub count : d.current_file_size ≡ k.current_file_size
  pub enabled : d.enabled ≡ k.enabled

pub sent-IsAppended :
    (x : Data) (k d : DataLog)
    → length x.payload + 2 < 2 ^ 31
    → on_writer (Writer.write_data x) k ≡ (ok tt, d)
    → (length x.payload ≤ 65533) × IsAppended (writes_of (x ∷ [])) k d
unfolding on_writer Writer.write_data emit
sent-IsAppended x k d memory e = by_writer k.writer (serialize_data x) refl refl e
  where
    by_writer :
        (o : Option Writer) (r : Result (List Bytes))
        → k.writer ≡ o
        → serialize_data x ≡ r
        → via (emit r) o k ≡ (ok tt, d)
        → (length x.payload ≤ 65533) × IsAppended (writes_of (x ∷ [])) k d
    by_writer none r at written e = absurd (returned _ tt d e)
    by_writer (some w) (ok ws) at written e =
        let (ws_eq, short) = serialized x ws memory written in
        (
          short,
          record {
            output =
                sym (ap (λ p. output_of (p.1).writer) e)
                ∙ ap (λ v. w.output ++ v) ws_eq
                ∙ ap (λ o. output_of o ++ writes_of (x ∷ [])) (sym at);
            closed = sym (ap (λ p. (p.1).closed) e);
            count = sym (ap (λ p. (p.1).current_file_size) e);
            enabled = sym (ap (λ p. (p.1).enabled) e);
          },
        )
    by_writer (some w) (throw y) at written e = absurd (returned _ tt d e)
    by_writer (some w) fault at written e = absurd (returned _ tt d e)
    by_writer (some w) out_of_fuel at written e = absurd (returned _ tt d e)

pub appended-begun :
    (defs : List Bytes) (last : List Data) (x : Data) (k d : DataLog)
    → ((timestamp : ℕ) × (output_of k.writer
          ≡ serialize_file_header (new_file_header timestamp false) ++ (defs ++ writes_of last)))
    → IsAppended (writes_of (x ∷ [])) k d
    → (timestamp : ℕ) × (output_of d.writer
        ≡ serialize_file_header (new_file_header timestamp false)
          ++ (defs ++ writes_of (last ++ (x ∷ []))))
appended-begun defs last x k d (timestamp, begun) more =
    let head = serialize_file_header (new_file_header timestamp false) in
    let ws = writes_of (x ∷ []) in
    (
      timestamp,
      more.output
          ∙ ap (λ o. o ++ ws) begun
          ∙ append_assoc head (defs ++ writes_of last) ws
          ∙ ap (λ o. head ++ o) (append_assoc defs (writes_of last) ws)
          ∙ ap (λ o. head ++ (defs ++ o)) (sym (writes_of-append last (x ∷ []))),
    )
