-- ===== src/DataLog/Invariant.antt =====
-- `Write` keeps a logger ready, whatever it is given, where it returns.
use my_ulog.Base.{
  ℕ, ◌+◌, ◌≡◌, refl, sym, ap, subst, ◌∙◌, Bool, true, false, not, Option, none, some, List, length,
  take, get_elem?, ltb, if◌then◌else◌,
}
use my_ulog.Base.Bytes.{Bytes}
use my_ulog.Base.Dict.{bytes_key, lookup}
use my_ulog.Base.Result.{ok, throw, parsing, failed_to_open}
use my_ulog.Base.Action.{Action, proceed, proceed-ok, pure, returned, lift-ok, guard-ok}
use my_ulog.Messages.Data.{serialize_data}
use my_ulog.Writer
use my_ulog.Writer.{Writer, emit}
use my_ulog.DataLog.Names.{generate_new_path_or_filename}
use my_ulog.DataLog.State.{DataLog}
use my_ulog.DataLog.Rotate.{
  System, close_file, open_file, rotate, send_sample, send, write_data_impl, write_known, write,
}
use my_ulog.DataLog.Alike.{tables}
use my_ulog.DataLog.Ready.{IsReady}
use my_ulog.DataLog.Samples.{is_full, grown, sent-ok, CanRotate, send_sample-returns}

module _ (system : System) where
  opened-ok :
      {B : Type 0} (name : Bytes) (d d' : DataLog) (f : ℕ → Action DataLog B) (b : B)
      → proceed (open_file system name d) f ≡ (ok b, d')
      → system.opens d.opened name ≡ true
  unfolding open_file
  opened-ok {B} name d d' f b e = by_answer (system.opens d.opened name) e
    where
      by_answer :
          (t : Bool)
          → proceed
              (if t
                then (ok (system.now d.opened), record d { opened = d.opened + 1 })
                else (throw (parsing failed_to_open), record d { opened = d.opened + 1 }))
              f
            ≡ (ok b, d')
          → t ≡ true
      by_answer true e = refl
      by_answer false e = absurd (returned _ b d' e)

  -- A rotation that returned had a name, and a file.
  pub rotate-CanRotate : (d d' : DataLog) → rotate system d ≡ (ok tt, d') → CanRotate system d
  unfolding rotate close_file CanRotate
  rotate-CanRotate d d' e =
      let (name, named, more) =
        lift-ok (generate_new_path_or_filename (d.init_params).file_name) _ _ tt d' e in
      (name, named, opened-ok name _ d' _ tt more)

  -- What a sample needs that was written.
  sample-accepted :
      (id size : ℕ) (bytes : Bytes) (d d' : DataLog)
      → send_sample system id bytes size d ≡ (ok tt, d')
      → (ws : List Bytes) × (serialize_data (record { msg_id = id; payload = take size bytes })
          ≡ ok ws)
        × (is_full bytes d ≡ true → CanRotate system d)
  unfolding send_sample Writer.write_data CanRotate
  sample-accepted id size bytes d d' e =
      let (u, k, first, sent) =
        proceed-ok ((if is_full bytes d then rotate system else pure tt) (grown bytes d)) _ tt d'
          e in
      let (ws, written) = sent-ok k d' _ sent in
      (
        ws,
        written,
        λ full.
            rotate-CanRotate (grown bytes d) k
              (ap (λ b. (if b then rotate system else pure tt) (grown bytes d)) (sym full) ∙ first),
      )

  write_data_impl-IsReady :
      (defs : List Bytes) (id : ℕ) (bytes : Bytes) (d d' : DataLog)
      → IsReady defs d
      → write_data_impl system id bytes d ≡ (ok tt, d')
      → IsReady defs d' × (tables d' ≡ tables d)
  unfolding write_data_impl send
  write_data_impl-IsReady defs id bytes d d' h e =
      by_size (get_elem? d.subscriptions id) (guard-ok (not d.header_complete) _ d _ tt d' e).1
    where
      by_size :
          (o : Option ℕ)
          → send system id bytes o d ≡ (ok tt, d')
          → IsReady defs d' × (tables d' ≡ tables d)
      by_size none e = absurd (returned _ tt d' e)
      by_size (some size) e =
          let sent = (guard-ok (ltb (length bytes) size) _ d _ tt d' e).1 in
          let (ws, written, turn) = sample-accepted id size bytes d d' sent in
          let (k, again, after) =
            send_sample-returns system defs ws id size bytes d h written turn in
          subst (λ t. IsReady defs t × (tables t ≡ tables d)) (ap (λ p. p.1) (sym again ∙ sent))
            (after.ready, after.same_tables)

  -- A `Write` that returns leaves a logger ready that was, also where it began a new file, and its
  -- tables, with the ids of the structs, are the same.
  pub write-IsReady :
      (defs : List Bytes) (message_name bytes : Bytes) (d d' : DataLog)
      → IsReady defs d
      → write system message_name bytes d ≡ (ok tt, d')
      → IsReady defs d' × (tables d' ≡ tables d)
  unfolding write write_known
  write-IsReady defs message_name bytes d d' h e = by_id (lookup message_name d.id_map) e
    where
      by_enabled :
          (id : ℕ) (b : Bool)
          → (if b then write_data_impl system id bytes d else (ok tt, d)) ≡ (ok tt, d')
          → IsReady defs d' × (tables d' ≡ tables d)
      by_enabled id true e = write_data_impl-IsReady defs id bytes d d' h e
      by_enabled id false e =
          subst (λ t. IsReady defs t × (tables t ≡ tables d)) (ap (λ p. p.1) e) (h, refl)

      by_id :
          (o : Option ℕ)
          → write_known system bytes o d ≡ (ok tt, d')
          → IsReady defs d' × (tables d' ≡ tables d)
      by_id none e = absurd (returned _ tt d' e)
      by_id (some id) e = by_enabled id d.enabled e
