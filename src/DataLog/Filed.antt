-- ===== src/DataLog/Filed.antt =====
-- `Write` puts its sample behind those that were written before, in the same file or a new one.
use my_ulog.Base.{
  or_zero, ℕ, ◌+◌, ◌^◌, ◌<◌, ◌≤◌, ◌≡◌, refl, sym, ap, subst, ◌∙◌, Bool, true, false, not, Option,
  none, some, List, [], ◌∷◌, ◌++◌, append-nil, append_assoc, length, length-take, take, get_elem?,
  arith, if◌then◌else◌, ltb, Bool-cases, inl, inr,
}
use my_ulog.Base.Bytes.{Bytes}
use my_ulog.Base.Dict.{bytes_key, lookup}
use my_ulog.Base.Result.{ok}
use my_ulog.Base.Action.{proceed-ok, pure, returned, guard-ok}
use my_ulog.Messages.FileHeader.{new_file_header, serialize_file_header}
use my_ulog.Messages.Data.{Data}
use my_ulog.Writer
use my_ulog.Writer.{Writer, emit}
use my_ulog.DataLog.State.{DataLog, on_writer, max_file_size}
use my_ulog.DataLog.Rotate.{
  System, output_of, rotate, send_sample, send, write_data_impl, write_known, write,
}
use my_ulog.DataLog.Alike.{tables}
use my_ulog.DataLog.Ready.{IsReady, IsRotated, rotate-IsReady}
use my_ulog.DataLog.Samples.{CanRotate, is_full, grown, recounted}
use my_ulog.DataLog.Invariant.{rotate-CanRotate}
use my_ulog.DataLog.Files.{
  writes_of, bytes_of, IsFileOf, AreFiles, all_of, sample_of, IsFiled, AreFiles-append,
  bytes_of-append, all_of-append,
}
use my_ulog.DataLog.Appended.{sent-IsAppended, appended-begun}

module _ (system : System) where
  -- A sample that still fits the current file.
  fits-IsFiled :
      (defs : List Bytes) (on : Bool) (done : List Data) (id size : ℕ) (bytes : Bytes)
      (d d' : DataLog)
      → d.current_file_size < max_file_size
      → length bytes + 2 < 2 ^ 31
      → IsFiled defs on done d
      → on_writer
          (Writer.write_data (record { msg_id = id; payload = take size bytes }))
          (grown bytes d)
        ≡ (ok tt, d')
      → IsFiled defs on (done ++ (record { msg_id = id; payload = take size bytes } ∷ [])) d'
  unfolding bytes_of
  fits-IsFiled defs on done id size bytes d d' small memory h e =
      let x : Data = record { msg_id = id; payload = take size bytes } in
      let shorter : length x.payload ≤ length bytes = rw (length-take) (omega arith) in
      let (short, more) = sent-IsAppended x (grown bytes d) d' (omega (arith, shorter)) e in
      let counted = h.counted in
      record {
        closed_samples = h.closed_samples;
        files = subst (AreFiles defs h.closed_samples) (sym more.closed) h.files;
        last = h.last ++ (x ∷ []);
        begun = appended-begun defs h.last x (grown bytes d) d' h.begun more;
        counted = omega (arith, bytes_of-append h.last (x ∷ []), more.count, shorter, counted);
        complete =
            sym (append_assoc (all_of h.closed_samples) h.last (x ∷ []))
            ∙ ap (λ xs. xs ++ (x ∷ [])) h.complete;
        switched = more.enabled ∙ h.switched;
      }

  -- A sample that begins a new file.
  rotates-IsFiled :
      (defs : List Bytes) (on : Bool) (done : List Data) (id size : ℕ) (bytes : Bytes)
      (d k d' : DataLog)
      → IsReady defs d
      → length bytes + 2 < 2 ^ 31
      → IsFiled defs on done d
      → rotate system (grown bytes d) ≡ (ok tt, k)
      → on_writer (Writer.write_data (record { msg_id = id; payload = take size bytes })) k
        ≡ (ok tt, d')
      → IsFiled defs on (done ++ (record { msg_id = id; payload = take size bytes } ∷ [])) d'
  unfolding CanRotate IsFileOf bytes_of writes_of
  rotates-IsFiled defs on done id size bytes d k d' ready memory h turned e =
      let x : Data = record { msg_id = id; payload = take size bytes } in
      let shorter : length x.payload ≤ length bytes = rw (length-take) (omega arith) in
      let (name, named, opens) = rotate-CanRotate system (grown bytes d) k turned in
      let (k', again, _, r') =
        rotate-IsReady system defs (grown bytes d) name (recounted defs _ d ready.defined) named
          opens in
      let r : IsRotated defs name (system.now d.opened) (grown bytes d) k =
        subst (IsRotated defs name (system.now d.opened) (grown bytes d))
          (ap (λ p. p.1) (sym again ∙ turned)) r' in
      let (short, more) = sent-IsAppended x k d' (omega (arith, shorter)) e in
      let counted = h.counted in
      let small = ready.small in
      record {
        closed_samples = h.closed_samples ++ (h.last ∷ []);
        files =
            subst (AreFiles defs (h.closed_samples ++ (h.last ∷ [])))
              (sym (more.closed ∙ r.file_closed))
              (AreFiles-append defs h.closed_samples d.closed h.last (d.init_params).file_name
                (output_of d.writer) h.files (h.begun, omega (arith, counted, small)));
        last = x ∷ [];
        begun =
            appended-begun defs [] x k d'
              (
                system.now d.opened,
                r.file_begun
                    ∙ ap
                        (λ o.
                          serialize_file_header (new_file_header (system.now d.opened) false) ++ o)
                        (sym (append-nil defs)),
              )
              more;
        counted = omega (arith, short);
        complete = ap (λ xs. xs ++ (x ∷ [])) (all_of-append h.closed_samples h.last ∙ h.complete);
        switched = more.enabled ∙ r.still_enabled ∙ h.switched;
      }

  send_sample-IsFiled :
      (defs : List Bytes) (on : Bool) (done : List Data) (id size : ℕ) (bytes : Bytes)
      (d d' : DataLog)
      → IsReady defs d
      → length bytes + 2 < 2 ^ 31
      → IsFiled defs on done d
      → send_sample system id bytes size d ≡ (ok tt, d')
      → IsFiled defs on (done ++ (record { msg_id = id; payload = take size bytes } ∷ [])) d'
  unfolding send_sample
  send_sample-IsFiled defs on done id size bytes d d' ready memory h e =
      let (u, k, first, sent) =
        proceed-ok ((if is_full bytes d then rotate system else pure tt) (grown bytes d)) _ tt d'
          e in
      elim (Bool-cases (is_full bytes d)) [
        | inl full ↦
            rotates-IsFiled defs on done id size bytes d k d' ready memory h
              (ap (λ b. (if b then rotate system else pure tt) (grown bytes d)) (sym full) ∙ first)
              sent
        | inr fits ↦ fits-IsFiled defs on done id size bytes d d' ready.small memory h (
            ap
              (λ t.
                on_writer (Writer.write_data (record { msg_id = id; payload = take size bytes })) t)
              (ap (λ p. p.1)
                (ap (λ b. (if b then rotate system else pure tt) (grown bytes d)) (sym fits)
                  ∙ first))
            ∙ sent)
      ]

  -- A call of `Write` that returned has put its sample, if any, behind those before.
  pub write-IsFiled :
      (defs : List Bytes) (on : Bool) (done : List Data) (message_name bytes : Bytes)
      (d d' : DataLog)
      → IsReady defs d
      → length bytes + 2 < 2 ^ 31
      → IsFiled defs on done d
      → write system message_name bytes d ≡ (ok tt, d')
      → IsFiled defs on
          (done ++ (if on then sample_of (tables d) (message_name, bytes) ∷ [] else []))
          d'
  unfolding write write_known write_data_impl send
  write-IsFiled defs on done message_name bytes d d' ready memory h e =
      by_id (lookup message_name d.id_map) refl e
    where
      by_size :
          (id : ℕ) (o : Option ℕ)
          → get_elem? d.subscriptions id ≡ o
          → send system id bytes o d ≡ (ok tt, d')
          → IsFiled defs on
              (done
                ++ (record {
                  msg_id = id;
                  payload = take (or_zero (get_elem? d.subscriptions id)) bytes;
                }
                    ∷ []))
              d'
      by_size id none found e = absurd (returned _ tt d' e)
      by_size id (some size) found e =
          subst
            (λ o.
              IsFiled defs on
                (done ++ (record { msg_id = id; payload = take (or_zero o) bytes } ∷ [])) d')
            (sym found)
            (send_sample-IsFiled defs on done id size bytes d d' ready memory h
              (guard-ok (ltb (length bytes) size) _ d _ tt d' e).1)

      by_enabled :
          (id : ℕ) (b : Bool)
          → d.enabled ≡ b
          → (if b then write_data_impl system id bytes d else (ok tt, d)) ≡ (ok tt, d')
          → IsFiled defs on
              (done
                ++ (if b
                    then record {
                      msg_id = id;
                      payload = take (or_zero (get_elem? d.subscriptions id)) bytes;
                    }
                      ∷ []
                    else []))
              d'
      by_enabled id true at e =
          by_size id (get_elem? d.subscriptions id) refl
            (guard-ok (not d.header_complete) _ d _ tt d' e).1
      by_enabled id false at e =
          subst (λ xs. IsFiled defs on xs d') (sym (append-nil done))
            (subst (IsFiled defs on done) (ap (λ p. p.1) e) h)

      by_id :
          (o : Option ℕ)
          → lookup message_name d.id_map ≡ o
          → write_known system bytes o d ≡ (ok tt, d')
          → IsFiled defs on
              (done ++ (if on then sample_of (tables d) (message_name, bytes) ∷ [] else []))
              d'
      by_id none found e = absurd (returned _ tt d' e)
      by_id (some id) found e =
          subst
            (λ o.
              IsFiled defs on
                (done
                  ++ (if on
                      then record {
                        msg_id = or_zero o;
                        payload = take (or_zero (get_elem? d.subscriptions (or_zero o))) bytes;
                      }
                        ∷ []
                      else []))
                d')
            (sym found)
            (subst
              (λ b.
                IsFiled defs on
                  (done
                    ++ (if b
                        then record {
                          msg_id = id;
                          payload = take (or_zero (get_elem? d.subscriptions id)) bytes;
                        }
                          ∷ []
                        else []))
                  d')
              h.switched (by_enabled id d.enabled refl e))
