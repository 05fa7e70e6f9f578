-- ===== src/Reader/Termination.antt =====
-- Every call of `readChunk` ends: the fuel is enough.
use my_ulog.Base.{
  ℕ, zero, suc, ◌+◌, ◌≤◌, ◌<◌, ap, Bool, true, false, Option, none, some, arith, if◌then◌else◌,
  length, ltb, ◌&&◌, length-drop,
}
use my_ulog.Base.Bytes.{Bytes}
use my_ulog.Base.Result.{Result, ok, throw, fault, out_of_fuel, IsSound}
use my_ulog.Base.Action.{Action, proceed, ◌>>=◌}
use my_ulog.Handler.{DataHandler}
use my_ulog.Reader.State.{Reader}
use my_ulog.Reader.Chunk.{
  in_magic, in_flag_bits, is_invalid, weight, try_to_recover, skip_read, start_magic, start_flags,
  parse_chunk, resume, recover, read_chunk_fuel, read_chunk, read_chunk-eq,
}
use my_ulog.Reader.Keeps.{IsSoundHandler, Keeps}
use my_ulog.Reader.Start.{read_magic, read_flag_bits}
use my_ulog.Reader.StartSafety.{read_magic-Keeps, read_flag_bits-Keeps}
use my_ulog.Reader.PartialRound.{IsBuffer, Below}
use my_ulog.Reader.Rounds.{after_step, loop-Below}
use my_ulog.Reader.Recovery.{Recovered, try_to_recover-Recovered}

-- A call that ended, inside its memory.
abbrev pub Ended : {H A : Type 0} → Result A × Reader H → Type 0
Ended out = IsSound out.0 × IsBuffer out.1

module _ {H : Type 0} (handler : DataHandler H) (good : IsSoundHandler handler) where
  kept-IsBuffer :
      {A : Type 0} (r : Reader H) (out : Result A × Reader H)
      → Keeps r out
      → IsBuffer r
      → IsBuffer out.1
  kept-IsBuffer r out k h = record {
    fits = omega (arith, ap length k.partial, k.capacity, h.fits);
    room = omega (arith, k.capacity, h.room);
  }

  skipped :
      (chunk : Bytes) (r : Reader H) (out : Result ℕ × Reader H)
      → Keeps r out
      → IsBuffer r
      → Below (weight chunk r + 1) (proceed out (skip_read handler chunk))
  skipped chunk r (ok n, s) k h = (
    record {
      fits = omega (arith, ap length k.partial, k.capacity, h.fits);
      room = omega (arith, k.capacity, h.room);
    },
    omega (arith, length-drop n chunk, ap length k.partial),
  )
  skipped chunk r (throw e, s) k h = kept-IsBuffer r _ k h
  skipped chunk r (fault, s) k h = k.sound
  skipped chunk r (out_of_fuel, s) k h = k.sound

  start_magic-Below :
      (chunk : Bytes) (r : Reader H)
      → IsBuffer r
      → Below (weight chunk r + 1) (start_magic handler chunk r)
  unfolding start_magic
  start_magic-Below chunk r h = by_test (in_magic r.state)
    where
      by_test :
          (b : Bool)
          → Below (weight chunk r + 1) (
              if b then (read_magic handler chunk >>= skip_read handler chunk) r else (ok chunk, r))
      by_test true = skipped chunk r _ (read_magic-Keeps handler good chunk r) h
      by_test false = (h, omega arith)

  start_flags-Below :
      (chunk : Bytes) (r : Reader H)
      → IsBuffer r
      → Below (weight chunk r + 1) (start_flags handler chunk r)
  unfolding start_flags
  start_flags-Below chunk r h = by_test (in_flag_bits r.state && ltb 0 (length chunk))
    where
      by_test :
          (b : Bool)
          → Below (weight chunk r + 1) (
              if b
              then (read_flag_bits handler chunk >>= skip_read handler chunk) r
              else (ok chunk, r))
      by_test true = skipped chunk r _ (read_flag_bits-Keeps handler good chunk r) h
      by_test false = (h, omega arith)

  Below-mono : (w v : ℕ) (out : Result Bytes × Reader H) → w ≤ v → Below w out → Below v out
  Below-mono w v (ok chunk, r) le h = (h.0, omega arith)
  Below-mono w v (throw e, r) le h = h
  Below-mono w v (fault, r) le h = h
  Below-mono w v (out_of_fuel, r) le h = h

  -- The last part of a call.
  finish :
      (w : ℕ) (out : Result Bytes × Reader H) (f : Bytes → Action (Reader H) (Unit {0}))
      → Below w out
      → ((chunk : Bytes) (r : Reader H) → IsBuffer r → weight chunk r < w → Ended (f chunk r))
      → Ended (proceed out f)
  finish w (ok chunk, r) f h next = next chunk r h.0 h.1
  finish w (throw e, r) f h next = (tt, h)
  finish w (fault, r) f h next = absurd h
  finish w (out_of_fuel, r) f h next = absurd h

  -- The part in front of the recovery.
  parse_chunk-Below :
      (chunk : Bytes) (r : Reader H)
      → IsBuffer r
      → Below (weight chunk r + 1) (parse_chunk handler chunk r)
  unfolding parse_chunk
  parse_chunk-Below chunk r h =
      let w = weight chunk r + 1 in
      after_step handler good w w _ _
        (after_step handler good w w _ _ (start_magic-Below chunk r h)
          (λ c s hs less. Below-mono (weight c s + 1) w _ (omega arith) (start_flags-Below c s hs)))
        (λ c s hs less. loop-Below handler good (weight c s + 1) w c s hs (omega arith) less)

  resume-Ended :
      (w : ℕ) (out : Result (Option Bytes) × Reader H)
      (again : Bytes → Action (Reader H) (Unit {0}))
      → Recovered w out
      → ((chunk : Bytes) (r : Reader H) → IsBuffer r → weight chunk r < w → Ended (again chunk r))
      → Ended (proceed out (resume handler again))
  resume-Ended w (ok none, r) again h next = (tt, h)
  resume-Ended w (ok (some chunk), r) again h next = next chunk r h.0 h.1
  resume-Ended w (throw e, r) again h next = absurd h
  resume-Ended w (fault, r) again h next = absurd h
  resume-Ended w (out_of_fuel, r) again h next = absurd h

  recover-Ended :
      (chunk : Bytes) (r : Reader H) (again : Bytes → Action (Reader H) (Unit {0}))
      → IsBuffer r
      → ((c : Bytes) (s : Reader H) → IsBuffer s → weight c s < weight chunk r → Ended (again c s))
      → Ended (recover handler again chunk r)
  unfolding recover
  recover-Ended chunk r again h next = by_test r.need_recovery
    where
      by_test :
          (b : Bool)
          → Ended (
              if b
              then proceed (try_to_recover (weight chunk r + 1) chunk r) (resume handler again)
              else (ok tt, r))
      by_test true =
          resume-Ended (weight chunk r) _ again
            (try_to_recover-Recovered (weight chunk r + 1) (weight chunk r) chunk r h (omega arith)
              (omega arith))
            next
      by_test false = (tt, h)

  read_chunk_fuel-Ended :
      (fuel : ℕ) (chunk : Bytes) (r : Reader H)
      → IsBuffer r
      → weight chunk r < fuel
      → Ended (read_chunk_fuel handler fuel chunk r)
  unfolding read_chunk_fuel
  read_chunk_fuel-Ended zero chunk r h enough = absurd (omega arith)
  read_chunk_fuel-Ended (suc fuel) chunk r h enough = by_test (is_invalid r.state) (
      finish (weight chunk r + 1) _ _ (parse_chunk-Below chunk r h) (λ c s hs less.
        recover-Ended c s (read_chunk_fuel handler fuel) hs
          (λ c' s' hs' less'. read_chunk_fuel-Ended fuel c' s' hs' (omega arith))))
    where
      by_test :
          (b : Bool)
          → Ended (
              proceed
                (parse_chunk handler chunk r)
                (recover handler (read_chunk_fuel handler fuel)))
          → Ended (
              if b
              then (ok tt, r)
              else proceed
                  (parse_chunk handler chunk r)
                  (recover handler (read_chunk_fuel handler fuel)))
      by_test true parsed = (tt, h)
      by_test false parsed = parsed

  pub read_chunk-Ended :
      (chunk : Bytes) (r : Reader H)
      → IsBuffer r
      → IsSound (read_chunk handler chunk r).0 × IsBuffer (read_chunk handler chunk r).1
  read_chunk-Ended chunk r h =
      rw (read_chunk-eq handler chunk r)
        (read_chunk_fuel-Ended (weight chunk r + 1) chunk r h (omega arith))
