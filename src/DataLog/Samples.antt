-- ===== src/DataLog/Samples.antt =====
-- `Write` on a logger that is ready: samples, with a new file where the current one would grow too large.
use my_ulog.Base.{
  ℕ, ◌+◌, ◌%◌, ◌^◌, ◌<◌, ◌≤◌, ◌≡◌, refl, sym, ap, ◌∙◌, Bool, true, false, not, Option, none, some,
  List, [], ◌∷◌, ◌++◌, append_assoc, length, length-take, take, get_elem?, leb, arith,
  if◌then◌else◌, Bool-cases, inl, inr, ge→ltb,
}
use my_ulog.Base.Bytes.{Bytes}
use my_ulog.Base.Dict.{bytes_key, lookup}
use my_ulog.Base.Result.{
  Result, ok, throw, fault, out_of_fuel, usage, header_not_complete, sizeof_too_small,
}
use my_ulog.Base.Action.{proceed, raise_if, returned}
use my_ulog.Messages.Raw.{exceeds_u16_exact}
use my_ulog.Messages.FileHeader.{new_file_header, serialize_file_header}
use my_ulog.Messages.Data.{data_head, serialize_data}
use my_ulog.Writer
use my_ulog.Writer.{Writer, emit}
use my_ulog.DataLog.Names.{generate_new_path_or_filename}
use my_ulog.DataLog.State.{DataLog, on_writer, via, max_file_size}
use my_ulog.DataLog.Rotate.{
  System, output_of, send_sample, send, write_data_impl, write_known, write,
}
use my_ulog.DataLog.Alike.{tables}
use my_ulog.DataLog.Ready.{IsFile, IsDefined, IsReady, rotate-IsReady}

-- The same logger, with more in its file.
pub record IsLonger (ws : List Bytes) (d d' : DataLog) : Type 0 where
  pub same_tables : tables d' ≡ tables d
  pub longer : output_of d'.writer ≡ output_of d.writer ++ ws

-- A logger that is ready, with the same tables, and these writes as the last of its file.
pub record IsSent (defs ws : List Bytes) (d d' : DataLog) : Type 0 where
  pub ready : IsReady defs d'
  pub same_tables : tables d' ≡ tables d
  pub before : List Bytes
  pub last : output_of d'.writer ≡ before ++ ws

-- A call of a serialiser on a logger that is ready.
send-IsReady :
    (defs ws : List Bytes) (d : DataLog)
    → IsReady defs d
    → (d' : DataLog) × (on_writer (emit (ok ws)) d ≡ (ok tt, d'))
      × IsReady defs d'
      × IsLonger ws d d'
unfolding on_writer emit IsFile
send-IsReady defs ws d h =
    let (flag, now, (timestamp, more, file), w) = (h.defined).current in
    (
      record d { writer = some (record { header_complete = flag; output = now ++ ws }) },
      ap (λ o. via (emit (ok ws)) o d) w,
      record {
        defined = record {
          again = (h.defined).again;
          complete = (h.defined).complete;
          current = (
            flag,
            now ++ ws,
            (
              timestamp,
              more ++ ws,
              ap (λ o. o ++ ws) file
                  ∙ append_assoc (serialize_file_header (new_file_header timestamp false))
                      (defs ++ more) ws
                  ∙ ap (λ o. serialize_file_header (new_file_header timestamp false) ++ o)
                      (append_assoc defs more ws),
            ),
            refl,
          );
          files = (h.defined).files;
        };
        small = h.small;
      },
      record { same_tables = refl; longer = ap (λ o. output_of o ++ ws) (sym w) },
    )

-- A serialiser that returned had something to write.
pub sent-ok :
    (d d' : DataLog) (r : Result (List Bytes))
    → on_writer (emit r) d ≡ (ok tt, d')
    → (ws : List Bytes) × (r ≡ ok ws)
unfolding on_writer emit
sent-ok d d' r e = by_writer d.writer r e
  where
    by_writer :
        (o : Option Writer) (r : Result (List Bytes))
        → via (emit r) o d ≡ (ok tt, d')
        → (ws : List Bytes) × (r ≡ ok ws)
    by_writer none r e = absurd (returned _ tt d' e)
    by_writer (some w) (ok ws) e = (ws, refl)
    by_writer (some w) (throw x) e = absurd (returned _ tt d' e)
    by_writer (some w) fault e = absurd (returned _ tt d' e)
    by_writer (some w) out_of_fuel e = absurd (returned _ tt d' e)

-- With another count of bytes.
pub recounted :
    (defs : List Bytes) (n : ℕ) (d : DataLog)
    → IsDefined defs d
    → IsDefined defs (record d { current_file_size = n })
recounted defs n d h = record {
  again = h.again;
  complete = h.complete;
  current = h.current;
  files = h.files;
}

abbrev pub grown : Bytes → DataLog → DataLog
grown bytes d = record d { current_file_size = (d.current_file_size + length bytes) % 2 ^ 64 }

-- The sample is too much for the current file.
abbrev pub is_full : Bytes → DataLog → Bool
is_full bytes d = leb max_file_size (grown bytes d).current_file_size

leb-false : (a b : ℕ) → leb a b ≡ false → b < a
leb-false a b e = ground (arith, e)

serialize-fits :
    (id size : ℕ) (bytes : Bytes)
    → size ≤ length bytes
    → size + 2 < 2 ^ 16
    → (ws : List Bytes) × (serialize_data (record { msg_id = id; payload = take size bytes })
        ≡ ok ws)
unfolding serialize_data
serialize-fits id size bytes enough short =
    let taken : length (take size bytes) ≡ size = rw (length-take) (omega (arith, enough)) in
    (
      data_head (length (take size bytes) + 2) id ∷ take size bytes ∷ [],
      rw (taken, exceeds_u16_exact (size + 2) (omega arith), ge→ltb 65535 (size + 2) (omega arith))
          refl,
    )

module _ (system : System) where
  -- The next file has a name, and can be opened.
  unfoldable pub CanRotate : DataLog → Type 0
  CanRotate d =
      (name : Bytes) × (generate_new_path_or_filename (d.init_params).file_name ≡ ok name)
      × (system.opens d.opened name ≡ true)

  send_sample-fits :
      (defs ws : List Bytes) (id size : ℕ) (bytes : Bytes) (d : DataLog)
      → IsReady defs d
      → serialize_data (record { msg_id = id; payload = take size bytes }) ≡ ok ws
      → is_full bytes d ≡ false
      → (d' : DataLog) × (send_sample system id bytes size d ≡ (ok tt, d')) × IsSent defs ws d d'
  unfolding send_sample Writer.write_data
  send_sample-fits defs ws id size bytes d h written fits =
      let (d', sent, ready, longer) = send-IsReady defs ws (grown bytes d) (record {
        defined = recounted defs _ d h.defined;
        small = leb-false max_file_size _ fits;
      }) in
      (
        d',
        rw (fits, written) sent,
        record {
          ready = ready;
          same_tables = longer.same_tables;
          before = output_of d.writer;
          last = longer.longer;
        },
      )

  send_sample-rotates :
      (defs ws : List Bytes) (id size : ℕ) (bytes : Bytes) (d : DataLog)
      → IsReady defs d
      → serialize_data (record { msg_id = id; payload = take size bytes }) ≡ ok ws
      → is_full bytes d ≡ true
      → CanRotate d
      → (d' : DataLog) × (send_sample system id bytes size d ≡ (ok tt, d')) × IsSent defs ws d d'
  unfolding send_sample Writer.write_data CanRotate
  send_sample-rotates defs ws id size bytes d h written full (name, named, opens) =
      let (k, rotated, ready, turned) =
        rotate-IsReady system defs (grown bytes d) name (recounted defs _ d h.defined) named
          opens in
      let (d', sent, ready', longer) = send-IsReady defs ws k ready in
      (
        d',
        rw (full, rotated, written) sent,
        record {
          ready = ready';
          same_tables = longer.same_tables ∙ turned.same_tables;
          before = output_of k.writer;
          last = longer.longer;
        },
      )

  pub send_sample-returns :
      (defs ws : List Bytes) (id size : ℕ) (bytes : Bytes) (d : DataLog)
      → IsReady defs d
      → serialize_data (record { msg_id = id; payload = take size bytes }) ≡ ok ws
      → (is_full bytes d ≡ true → CanRotate d)
      → (d' : DataLog) × (send_sample system id bytes size d ≡ (ok tt, d')) × IsSent defs ws d d'
  send_sample-returns defs ws id size bytes d h written turn = elim (Bool-cases (is_full bytes d)) [
    | inl full ↦ send_sample-rotates defs ws id size bytes d h written full (turn full)
    | inr fits ↦ send_sample-fits defs ws id size bytes d h written fits
  ]

  -- The guards of `Write` that pass.
  pub write-eq :
      (message_name bytes : Bytes) (id size : ℕ) (d : DataLog)
      → d.header_complete ≡ true
      → d.enabled ≡ true
      → lookup message_name d.id_map ≡ some id
      → get_elem? d.subscriptions id ≡ some size
      → size ≤ length bytes
      → write system message_name bytes d ≡ send_sample system id bytes size d
  unfolding write write_known write_data_impl send
  write-eq message_name bytes id size d complete on known subscribed enough =
      ap (λ o. write_known system bytes o d) known
      ∙ ap (λ b. if b then write_data_impl system id bytes d else (ok tt, d)) on
      ∙ ap
          (λ b.
            proceed (raise_if (not b) (usage header_not_complete) d)
              (λ _. send system id bytes (get_elem? d.subscriptions id)))
          complete
      ∙ ap (λ o. send system id bytes o d) subscribed
      ∙ ap
          (λ b.
            proceed (raise_if b (usage sizeof_too_small) d) (λ _. send_sample system id bytes size))
          (ge→ltb (length bytes) size enough)

  -- On a logger that is ready and enabled, `Write` returns for each struct that was declared: where the
  -- memory holds the bytes of its format, the message is not too long for its header, and a new file
  -- that is needed has a name and can be opened. The sample is then the last message of the file, with
  -- the struct's id; the logger is ready, and its tables are the same.
  pub write-IsSent :
      (defs : List Bytes) (message_name bytes : Bytes) (id size : ℕ) (d : DataLog)
      → IsReady defs d
      → d.enabled ≡ true
      → lookup message_name d.id_map ≡ some id
      → get_elem? d.subscriptions id ≡ some size
      → size ≤ length bytes
      → size + 2 < 2 ^ 16
      → (is_full bytes d ≡ true → CanRotate d)
      → (d' : DataLog) × (ws : List Bytes) × (write system message_name bytes d ≡ (ok tt, d'))
        × (serialize_data (record { msg_id = id; payload = take size bytes }) ≡ ok ws)
        × IsSent defs ws d d'
  write-IsSent defs message_name bytes id size d h on known subscribed enough short turn =
      let (ws, written) = serialize-fits id size bytes enough short in
      let (d', sent, after) = send_sample-returns defs ws id size bytes d h written turn in
      (
        d',
        ws,
        write-eq message_name bytes id size d (h.defined).complete on known subscribed enough
            ∙ sent,
        written,
        after,
      )
