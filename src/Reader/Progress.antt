-- ===== src/Reader/Progress.antt =====
-- Every round of the loop of `readChunk` leaves less to do.
use my_ulog.Base.{
  ℕ, ◌+◌, ◌-◌, ◌≤◌, ◌<◌, ◌≡◌, refl, ap, ◌∙◌, arith, length, ltb, Bool-cases, inl, inr, take, drop,
  min, length-append, length-take, length-drop,
}
use my_ulog.Base.Bytes.{Bytes}
use my_ulog.Base.Memory.{IsComplete}
use my_ulog.Base.Result.{Result, ok, throw, fault, out_of_fuel}
use my_ulog.Base.Action.{proceed}
use my_ulog.Handler.{DataHandler}
use my_ulog.Reader.State.{Reader, append_to_partial_buffer}
use my_ulog.Reader.Message.{process_message}
use my_ulog.Reader.Chunk.{weight, use_direct, keep_rest, step_direct, step}
use my_ulog.Reader.Front.{front_length, full_message_length-eq}
use my_ulog.Reader.Keeps.{IsSoundHandler, Keeps}
use my_ulog.Reader.Safety.{process_message-Keeps}
use my_ulog.Reader.PartialRound.{IsBuffer, Below, step_partial-Below}

module _ {H : Type 0} (handler : DataHandler H) (good : IsSoundHandler handler) where
  used_direct :
      (full : ℕ) (chunk : Bytes) (r s : Reader H) (out : Result ℕ × Reader H)
      → s.partial ≡ r.partial
      → s.capacity ≡ r.capacity
      → Keeps s out
      → IsBuffer r
      → 1 ≤ full
      → 1 ≤ length chunk
      → Below (weight chunk r) (proceed out (λ _ s'. (ok (drop full chunk), s')))
  used_direct full chunk r s (ok n, s') p c k h pos nonempty = (
    record {
      fits = omega (arith, ap length (k.partial ∙ p), k.capacity ∙ c, h.fits);
      room = omega (arith, k.capacity ∙ c, h.room);
    },
    omega (arith, length-drop full chunk, ap length (k.partial ∙ p)),
  )
  used_direct full chunk r s (throw e, s') p c k h pos nonempty = record {
    fits = omega (arith, ap length (k.partial ∙ p), k.capacity ∙ c, h.fits);
    room = omega (arith, k.capacity ∙ c, h.room);
  }
  used_direct full chunk r s (fault, s') p c k h pos nonempty = k.sound
  used_direct full chunk r s (out_of_fuel, s') p c k h pos nonempty = k.sound

  keep_rest-Below :
      (chunk : Bytes) (r : Reader H)
      → IsBuffer r
      → length r.partial ≡ 0
      → 1 ≤ length chunk
      → Below (weight chunk r) (keep_rest handler chunk r)
  unfolding keep_rest append_to_partial_buffer
  keep_rest-Below chunk r h empty nonempty =
      let n = min (length chunk) (r.capacity - length r.partial) in
      ground (
        arith,
        length-append r.partial (take n chunk),
        length-take n chunk,
        length-drop n chunk,
        h.fits,
        h.room,
      )

  full_message-IsComplete : (chunk : Bytes) → 0 < front_length chunk → IsComplete chunk
  full_message-IsComplete chunk h = ground arith

  step_direct-Below :
      (chunk : Bytes) (r : Reader H)
      → IsBuffer r
      → length r.partial ≡ 0
      → 1 ≤ length chunk
      → Below (weight chunk r) (step_direct handler chunk r)
  unfolding step_direct use_direct
  step_direct-Below chunk r h empty nonempty =
      let full = front_length chunk in
      let counted = record r { total_num_read = r.total_num_read + full } in
      elim (Bool-cases (ltb 0 full)) [
        | inl there ↦
            rw (full_message_length-eq chunk, there)
              (used_direct full chunk r counted (process_message handler chunk counted) refl refl
                (process_message-Keeps handler good chunk counted
                  (full_message-IsComplete chunk (ground arith))).0
                h (ground arith) nonempty)
        | inr missing ↦
            rw (full_message_length-eq chunk, missing) (keep_rest-Below chunk r h empty nonempty)
      ]

  -- Every round of the loop leaves less to do.
  pub step-Below :
      (chunk : Bytes) (r : Reader H)
      → IsBuffer r
      → 1 ≤ length chunk
      → Below (weight chunk r) (step handler chunk r)
  unfolding step
  step-Below chunk r h nonempty = elim (Bool-cases (ltb 0 (length r.partial))) [
    | inl some_left ↦ rw some_left (step_partial-Below handler good chunk r h nonempty)
    | inr none_left ↦ rw none_left (step_direct-Below chunk r h (ground arith) nonempty)
  ]
