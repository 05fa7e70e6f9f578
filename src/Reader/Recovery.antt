-- ===== src/Reader/Recovery.antt =====
-- `tryToRecover` ends: every round of it leaves less to do.
use my_ulog.Base.{
  ℕ, zero, suc, ◌-◌, ◌≤◌, ◌<◌, Bool, true, false, Option, none, some, arith, if◌then◌else◌, length,
  ltb, Bool-cases, inl, inr, ◌==◌, take, drop, min, ◌++◌, length-append, length-take, length-drop,
}
use my_ulog.Base.Bytes.{Bytes}
use my_ulog.Base.Result.{Result, ok, throw, fault, out_of_fuel}
use my_ulog.Reader.State.{Reader, append_to_partial_buffer}
use my_ulog.Reader.Chunk.{weight, recovery_step, try_to_recover}
use my_ulog.Reader.Front.{search-ok}
use my_ulog.Base.Action.{proceed}
use my_ulog.Reader.PartialRound.{IsBuffer}

-- A round that ends well, with less left to do.
abbrev Round : {H : Type 0} → ℕ → Result (Bytes × Bool) × Reader H → Type 0
Round w (ok (chunk, found), r) = IsBuffer r × (weight chunk r < w)
Round w (throw e, r) = ⊥
Round w (fault, r) = ⊥
Round w (out_of_fuel, r) = ⊥

-- A round of the recovery reads within its buffer, and leaves less to do.
recovery_step-Round :
    {H : Type 0} (chunk : Bytes) (r : Reader H)
    → IsBuffer r
    → 1 ≤ length chunk
    → Round (weight chunk r) (recovery_step chunk r)
unfolding recovery_step append_to_partial_buffer
recovery_step-Round chunk r h nonempty =
    let n = min (length chunk) (r.capacity - length r.partial) in
    let p = r.partial ++ take n chunk in
    let first : ℕ = if n == 0 then 1 else 0 in
    let (index, found, searched, ahead) = search-ok first (drop first p) in
    elim (Bool-cases (ltb (length p) 3)) [
      | inl short ↦ rw short (
          ground (
            arith,
            length-append r.partial (take n chunk),
            length-take n chunk,
            length-drop n chunk,
            h.fits,
            h.room,
          ))
      | inr long ↦
          rw (long, searched)
            (ground (
              arith,
              length-append r.partial (take n chunk),
              length-take n chunk,
              length-drop n chunk,
              length-drop index p,
              ahead,
              h.fits,
              h.room,
            ))
    ]

-- What the recovery leaves, if it found a header.
abbrev pub Recovered : {H : Type 0} → ℕ → Result (Option Bytes) × Reader H → Type 0
Recovered w (ok none, r) = IsBuffer r
Recovered w (ok (some chunk), r) = IsBuffer r × (weight chunk r < w)
Recovered w (throw e, r) = ⊥
Recovered w (fault, r) = ⊥
Recovered w (out_of_fuel, r) = ⊥

pub try_to_recover-Recovered :
    {H : Type 0} (fuel w : ℕ) (chunk : Bytes) (r : Reader H)
    → IsBuffer r
    → weight chunk r < fuel
    → weight chunk r ≤ w
    → Recovered w (try_to_recover fuel chunk r)
unfolding try_to_recover
try_to_recover-Recovered {H} zero w chunk r h enough le = absurd (omega arith)
try_to_recover-Recovered {H} (suc fuel) w chunk r h enough le =
    elim (Bool-cases (ltb 0 (length chunk))) [
      | inr done ↦ rw done h
      | inl more ↦ rw more (
          by_round (recovery_step chunk r) (recovery_step-Round chunk r h (ground (arith, more)))
            (λ c s hs less.
              try_to_recover-Recovered fuel w c s hs (omega (arith, enough)) (omega (arith, le))))
    ]
  where
    by_round :
        (out : Result (Bytes × Bool) × Reader H)
        → Round (weight chunk r) out
        → ((c : Bytes) (s : Reader H)
            → IsBuffer s
            → weight c s < weight chunk r
            → Recovered w (try_to_recover fuel c s))
        → Recovered w (
            proceed out (λ (c, found) s.
              let again = try_to_recover fuel c s in
              if found then (ok (some c), record s { need_recovery = false }) else again))
    by_round (ok (c, true), s) (buffer, less) next =
        (record { fits = buffer.fits; room = buffer.room }, omega (arith, less, le))
    by_round (ok (c, false), s) (buffer, less) next = next c s buffer less
    by_round (throw e, s) k next = absurd k
    by_round (fault, s) k next = absurd k
    by_round (out_of_fuel, s) k next = absurd k
