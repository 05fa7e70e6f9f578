-- ===== src/Reader/StreamRound.antt =====
-- One round of the loop of `readChunk` on whole messages, with any partial buffer, keeps what is pending.
use my_ulog.Base.{
  ℕ, ◌+◌, ◌≤◌, ◌<◌, ◌≡◌, refl, ap, ◌∙◌, List, [], ◌∷◌, ◌++◌, false, arith, length, drop, ltb,
  length-append, if◌then◌else◌, Bool-cases, inl, inr,
}
use my_ulog.Base.Bytes.{Bytes, flatten}
use my_ulog.Base.Memory.{read_u16-eq, u16_at}
use my_ulog.Base.Result.{Result, ok, throw, fault, out_of_fuel}
use my_ulog.Base.Action.{proceed}
use my_ulog.Handler.{DataHandler}
use my_ulog.Reader.State.{Phase, Reader}
use my_ulog.Reader.Chunk.{ensure, use_partial, fill_partial, step_partial, step_direct, step}
use my_ulog.Reader.Stream.{split_prefix, same_size, Used, IsStart, TakesAll, Pending, IsStart-nil}
use my_ulog.Reader.StreamDirect.{drop_past, Goes, ensure-Moved, step_direct-Goes}

module _ {H : Type 0} (handler : DataHandler H) (p' : Phase) (h' : H) (later : Bytes) where
  finish_partial :
      (f chunk : Bytes) (fs : List Bytes) (p : Phase) (h : H) (r : Reader H)
      (out : Result ℕ × Reader H)
      → length r.partial ≤ length f
      → r.need_recovery ≡ false
      → drop (length f) r.partial ++ (chunk ++ later) ≡ flatten fs
      → TakesAll handler fs p h p' h'
      → Used f p h r out
      → Goes handler p' h' later
          (proceed out (λ n s. (ok chunk, record s { partial = drop n s.partial })))
  finish_partial f chunk fs p h r (ok n, s) le clear e ts (n_eq, state, handled, same, recovery) =
      let none_left : drop n s.partial ≡ [] =
        drop_past n s.partial (omega (arith, n_eq, ap length same)) in
      record {
        frames = fs;
        takes = rw (state, handled) ts;
        bytes = rw (n_eq, same) e;
        start = rw none_left (IsStart-nil handler fs p p' h h' ts);
        clear = recovery ∙ clear;
      }
  finish_partial f chunk fs p h r (throw e, s) le clear b ts u = u
  finish_partial f chunk fs p h r (fault, s) le clear b ts u = u
  finish_partial f chunk fs p h r (out_of_fuel, s) le clear b ts u = u

  -- The buffer holds bytes of the message `f`, and what is pending begins with it.
  record Filling (f : Bytes) (fs : List Bytes) (chunk : Bytes) (r : Reader H) : Type 0 where
    takes : TakesAll handler (f ∷ fs) r.state r.handler p' h'
    bytes : r.partial ++ (chunk ++ later) ≡ f ++ flatten fs
    upto : length r.partial ≤ length f
    clear : r.need_recovery ≡ false

  ensure-Filling :
      (required : ℕ) (f : Bytes) (fs : List Bytes) (chunk : Bytes) (r : Reader H)
      → Filling f fs chunk r
      → required ≤ length f
      → Filling f fs (ensure required chunk r).0 (ensure required chunk r).1
  ensure-Filling required f fs chunk r w le =
      let m = ensure-Moved required chunk r in
      record {
        takes = rw (m.state, m.handler) w.takes;
        bytes = m.same later ∙ w.bytes;
        upto = m.bound (length f) le w.upto;
        clear = m.recovery ∙ w.clear;
      }

  Filling-Pending :
      (f : Bytes) (fs : List Bytes) (chunk : Bytes) (r : Reader H)
      → Filling f fs chunk r
      → length r.partial < length f
      → Pending handler p' h' (chunk ++ later) r
  Filling-Pending f fs chunk r w lt = record {
    frames = f ∷ fs;
    takes = w.takes;
    bytes = w.bytes;
    start = lt;
    clear = w.clear;
  }

  use_partial-Goes :
      (f : Bytes) (fs : List Bytes) (chunk : Bytes) (r : Reader H)
      → Filling f fs chunk r
      → length f ≤ length r.partial
      → Goes handler p' h' later (use_partial handler chunk r)
  unfolding use_partial
  use_partial-Goes f fs chunk r w le =
      let (p, h, t, ts) = w.takes in
      let (front, rest) = split_prefix r.partial (chunk ++ later) f (flatten fs) w.bytes le in
      finish_partial f chunk fs p h r _ w.upto w.clear rest ts
        (rw (← front) at (t.used (drop (length f) r.partial) r refl refl))

  fill_partial-Goes :
      (f : Bytes) (fs : List Bytes) (chunk : Bytes) (r : Reader H)
      → Filling f fs chunk r
      → 3 ≤ length r.partial
      → Goes handler p' h' later (fill_partial handler chunk r)
  unfolding fill_partial
  fill_partial-Goes f fs chunk r w long =
      let (p, h, t, ts) = w.takes in
      let required = u16_at 0 r.partial + 3 in
      let whole : required ≡ length f = omega (
        arith,
        same_size r.partial (chunk ++ later) f (flatten fs) w.bytes,
        t.frame.exact,
        t.frame.payload,
        long,
      ) in
      let out = ensure required chunk r in
      let w' = ensure-Filling required f fs chunk r w (omega (arith, whole)) in
      elim (Bool-cases (ltb (length out.1.partial) required)) [
        | inl short ↦
            rw (read_u16-eq 0 r.partial (omega (arith, long)), short)
              (Filling-Pending f fs out.0 out.1 w' (ground (arith, whole)))
        | inr full ↦
            rw (read_u16-eq 0 r.partial (omega (arith, long)), full)
              (use_partial-Goes f fs out.0 out.1 w' (ground (arith, whole)))
      ]

  step_partial-Goes :
      (f : Bytes) (fs : List Bytes) (chunk : Bytes) (r : Reader H)
      → Filling f fs chunk r
      → Goes handler p' h' later (step_partial handler chunk r)
  unfolding step_partial
  step_partial-Goes f fs chunk r w =
      let (p, h, t, ts) = w.takes in
      let out = ensure 3 chunk r in
      let w' = ensure-Filling 3 f fs chunk r w (omega (arith, t.frame.exact)) in
      elim (Bool-cases (ltb (length out.1.partial) 3)) [
        | inl short ↦
            rw short
              (Filling-Pending f fs out.0 out.1 w' (ground (arith, t.frame.exact, t.frame.payload)))
        | inr full ↦ rw full (fill_partial-Goes f fs out.0 out.1 w' (ground arith))
      ]

  -- A round of the loop with bytes left in the chunk.
  pub step-Goes :
      (chunk : Bytes) (r : Reader H)
      → 1 ≤ length chunk
      → Pending handler p' h' (chunk ++ later) r
      → Goes handler p' h' later (step handler chunk r)
  unfolding step
  step-Goes chunk r some_left w = by_frames w.frames w.takes w.bytes w.start w.clear
    where
      by_frames :
          (fs : List Bytes)
          → TakesAll handler fs r.state r.handler p' h'
          → r.partial ++ (chunk ++ later) ≡ flatten fs
          → IsStart r.partial fs
          → r.need_recovery ≡ false
          → Goes handler p' h' later (
              if ltb 0 (length r.partial)
              then step_partial handler chunk r
              else step_direct handler chunk r)
      by_frames [] ts e start clear = absurd (
          omega (
            arith,
            ap length e,
            length-append r.partial (chunk ++ later),
            length-append chunk later,
          ))
      by_frames (f ∷ fs) ts e start clear = elim (Bool-cases (ltb 0 (length r.partial))) [
        | inl held ↦ rw held (
            step_partial-Goes f fs chunk r
              (record { takes = ts; bytes = e; upto = omega arith; clear = clear }))
        | inr empty ↦
            let empty' : r.partial ≡ [] = drop_past 0 r.partial (ground arith) in
            rw empty
              (step_direct-Goes handler p' h' later f fs chunk r ts empty' clear (rw empty' at e))
      ]
