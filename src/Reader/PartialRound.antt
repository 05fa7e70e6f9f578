-- ===== src/Reader/PartialRound.antt =====
-- A round of the loop with data in the partial buffer leaves less to do.
use my_ulog.Base.{
  ℕ, ◌+◌, ◌-◌, ◌≤◌, ◌<◌, ◌≡◌, refl, ap, ◌⊎◌, [], ◌∷◌, arith, length, ltb, Bool-cases, inl, inr,
  take, drop, min, ◌++◌, length-append, length-take, length-drop,
}
use my_ulog.Base.Bytes.{Bytes}
use my_ulog.Base.Memory.{u16_at, read_u16-eq, IsComplete}
use my_ulog.Base.Result.{Result, ok, throw, fault, out_of_fuel}
use my_ulog.Base.Action.{proceed}
use my_ulog.Handler.{DataHandler}
use my_ulog.Reader.State.{Reader}
use my_ulog.Reader.Message.{process_message}
use my_ulog.Reader.Chunk.{weight, ensure, use_partial, fill_partial, step_partial}
use my_ulog.Reader.Keeps.{IsSoundHandler, Keeps}
use my_ulog.Reader.Safety.{Reports, process_message-Keeps}

-- The partial buffer holds no more than it has room for, and has room for a header and one byte more.
pub record IsBuffer {H : Type 0} (r : Reader H) : Type 0 where
  pub fits : length r.partial ≤ r.capacity
  pub room : 4 ≤ r.capacity

-- An outcome with less left to do than `w`.
abbrev pub Below : {H : Type 0} → ℕ → Result Bytes × Reader H → Type 0
Below w (ok chunk, r) = IsBuffer r × (weight chunk r < w)
Below w (throw e, r) = IsBuffer r
Below w (fault, r) = ⊥
Below w (out_of_fuel, r) = ⊥

pub u16_at-append : (xs ys : Bytes) → 2 ≤ length xs → u16_at 0 (xs ++ ys) ≡ u16_at 0 xs
u16_at-append [] ys h = elim h [ ]
u16_at-append (x ∷ []) ys h = absurd (omega arith)
u16_at-append (x ∷ (y ∷ xs)) ys h = refl

-- What `ensure` does.
record Ensured {H : Type 0} (required : ℕ) (chunk : Bytes) (r : Reader H) (out : Bytes × Reader H)
    : Type 0 where
  buffer : IsBuffer out.1
  weighed : weight out.0 out.1 ≤ weight chunk r
  moved : length r.partial < required → 1 ≤ length chunk → weight out.0 out.1 < weight chunk r
  kept : required ≤ length r.partial → length out.0 ≡ length chunk
  grown : length r.partial ≤ length out.1.partial
  header : 2 ≤ length r.partial → u16_at 0 out.1.partial ≡ u16_at 0 r.partial

module _ {H : Type 0} where
  ensure-Ensured :
      (required : ℕ) (chunk : Bytes) (r : Reader H)
      → IsBuffer r
      → Ensured required chunk r (ensure required chunk r)
  unfolding ensure
  ensure-Ensured required chunk r h =
      let n = min (required - length r.partial) (length chunk) in
      ground (
        arith,
        length-append r.partial (take n chunk),
        length-take n chunk,
        length-drop n chunk,
        u16_at-append r.partial (take n chunk),
      )

module _ {H : Type 0} (handler : DataHandler H) (good : IsSoundHandler handler) where
  used_partial :
      (chunk : Bytes) (r : Reader H) (w : ℕ) (out : Result ℕ × Reader H)
      → Keeps r out
      → Reports handler good r.partial out
      → IsBuffer r
      → IsComplete r.partial
      → weight chunk r ≤ w
      → Below w (proceed out (λ n s. (ok chunk, record s { partial = drop n s.partial })))
  used_partial chunk r w (ok n, s) k n_eq h complete le =
      let len : length s.partial ≡ length r.partial = ap length k.partial in
      let cap : s.capacity ≡ r.capacity = k.capacity in
      (
        record {
          fits = omega (arith, length-drop n s.partial, len, cap, h.fits);
          room = omega (arith, cap, h.room);
        },
        omega (arith, length-drop n s.partial, len, n_eq, complete.0),
      )
  used_partial chunk r w (throw e, s) k n_eq h complete le = record {
    fits = omega (arith, ap length k.partial, k.capacity, h.fits);
    room = omega (arith, k.capacity, h.room);
  }
  used_partial chunk r w (fault, s) k n_eq h complete le = k.sound
  used_partial chunk r w (out_of_fuel, s) k n_eq h complete le = k.sound

  use_partial-Below :
      (chunk : Bytes) (r : Reader H) (w : ℕ)
      → IsBuffer r
      → IsComplete r.partial
      → weight chunk r ≤ w
      → Below w (use_partial handler chunk r)
  unfolding use_partial
  use_partial-Below chunk r w h complete le =
      let (k, n_eq) = process_message-Keeps handler good r.partial r complete in
      used_partial chunk r w (process_message handler r.partial r) k n_eq h complete le

  fill_partial-Below :
      (chunk : Bytes) (r : Reader H) (w : ℕ)
      → IsBuffer r
      → 3 ≤ length r.partial
      → weight chunk r ≤ w
      → ((1 ≤ length chunk) ⊎ (weight chunk r < w))
      → Below w (fill_partial handler chunk r)
  unfolding fill_partial
  fill_partial-Below chunk r w h long le more =
      let required = u16_at 0 r.partial + 3 in
      let out = ensure required chunk r in
      let ens = ensure-Ensured required chunk r h in
      elim (Bool-cases (ltb (length out.1.partial) required)) [
        | inl short ↦
            rw (read_u16-eq 0 r.partial (omega (arith, long)), short)
              (ens.buffer, ground (arith, ens.moved, ens.weighed, ens.grown, more))
        | inr full ↦
            rw (read_u16-eq 0 r.partial (omega (arith, long)), full)
              (use_partial-Below out.0 out.1 w ens.buffer
                (omega (arith, ens.grown), ground (arith, ens.header)) (omega (arith, ens.weighed)))
      ]

  pub step_partial-Below :
      (chunk : Bytes) (r : Reader H)
      → IsBuffer r
      → 1 ≤ length chunk
      → Below (weight chunk r) (step_partial handler chunk r)
  unfolding step_partial
  step_partial-Below chunk r h nonempty =
      let out = ensure 3 chunk r in
      let ens = ensure-Ensured 3 chunk r h in
      elim (Bool-cases (ltb (length out.1.partial) 3)) [
        | inl short ↦ rw short (ens.buffer, ground (arith, ens.moved, ens.grown))
        | inr full ↦ rw full (
            fill_partial-Below out.0 out.1 (weight chunk r) ens.buffer (ground arith) ens.weighed
              (left_over ens))
      ]
    where
      left_over :
          Ensured 3 chunk r (ensure 3 chunk r)
          → (1 ≤ length (ensure 3 chunk r).0)
            ⊎ (weight (ensure 3 chunk r).0 (ensure 3 chunk r).1 < weight chunk r)
      left_over ens = elim (Bool-cases (ltb (length r.partial) 3)) [
        | inl short ↦ inr (ens.moved (ground arith) nonempty)
        | inr long ↦ inl (ground (arith, ens.kept))
      ]
