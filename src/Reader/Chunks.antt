-- ===== src/Reader/Chunks.antt =====
-- `readChunk` on whole messages that arrive in chunks cut anywhere.
use my_ulog.Base.{
  ℕ, zero, suc, ◌+◌, ◌≡◌, refl, ap, List, [], ◌∷◌, ◌++◌, Bool, true, false, not, ◌&&◌, arith,
  length, length-append, ltb, if◌then◌else◌, Bool-cases, inl, inr,
}
use my_ulog.Base.Bytes.{Bytes, flatten}
use my_ulog.Base.Result.{Result, ok, throw, fault, out_of_fuel, IsSound}
use my_ulog.Base.Action.{Action, proceed, ◌>>◌, pure}
use my_ulog.Handler.{DataHandler}
use my_ulog.Reader.State.{Phase, Reader}
use my_ulog.Reader.Chunk.{
  weight, step, loop, start_magic, start_flags, parse_chunk, recover, read_chunk_fuel, read_chunk,
  is_invalid, read_chunk-eq,
}
use my_ulog.Reader.Keeps.{IsSoundHandler}
use my_ulog.Reader.PartialRound.{IsBuffer}
use my_ulog.Reader.Termination.{read_chunk-Ended}
use my_ulog.Reader.Stream.{IsReading, IsStart, TakesAll, Pending, TakesAll-IsReading, IsStart-nil}
use my_ulog.Reader.StreamDirect.{Goes}
use my_ulog.Reader.StreamRound.{step-Goes}

-- Chunks one after another, as a program feeds them.
unfoldable pub read_chunks :
    {H : Type 0} → DataHandler H → List Bytes → Action (Reader H) (Unit {0})
read_chunks handler [] = pure tt
read_chunks handler (c ∷ cs) = read_chunk handler c >> read_chunks handler cs

add_one : (n : ℕ) → n + 1 ≡ suc n
add_one n = omega arith

module _ {H : Type 0} (handler : DataHandler H) (p' : Phase) (h' : H) (later : Bytes) where
  -- The loop used its chunk up.
  Drained : Result Bytes × Reader H → Type 0
  Drained (ok chunk, r) = (chunk ≡ []) × Pending handler p' h' later r
  Drained (throw e, r) = ⊥
  Drained (fault, r) = ⊥
  Drained (out_of_fuel, r) = Unit

  Arrived : Result (Unit {0}) × Reader H → Type 0
  Arrived (ok u, r) = Pending handler p' h' later r
  Arrived (throw e, r) = ⊥
  Arrived (fault, r) = ⊥
  Arrived (out_of_fuel, r) = Unit

  after_round :
      (out : Result Bytes × Reader H) (f : Bytes → Action (Reader H) Bytes)
      → Goes handler p' h' later out
      → ((c : Bytes) (s : Reader H) → Pending handler p' h' (c ++ later) s → Drained (f c s))
      → Drained (proceed out f)
  after_round (ok c, s) f w next = next c s w
  after_round (throw e, s) f w next = absurd w
  after_round (fault, s) f w next = absurd w
  after_round (out_of_fuel, s) f w next = absurd w

  used_up :
      (chunk : Bytes) (r : Reader H)
      → Pending handler p' h' (chunk ++ later) r
      → (ltb 0 (length chunk) && not r.need_recovery) ≡ false
      → (chunk ≡ []) × Pending handler p' h' later r
  used_up [] r w done = (refl, w)
  used_up (b ∷ bs) r w done = absurd (ground (arith, w.clear))

  loop-Drained :
      (fuel : ℕ) (chunk : Bytes) (r : Reader H)
      → Pending handler p' h' (chunk ++ later) r
      → Drained (loop handler fuel chunk r)
  unfolding loop Drained
  loop-Drained zero chunk r w = elim (Bool-cases (ltb 0 (length chunk) && not r.need_recovery)) [
    | inl more ↦ rw more tt
    | inr done ↦ rw done (used_up chunk r w done)
  ]
  loop-Drained (suc fuel) chunk r w =
      elim (Bool-cases (ltb 0 (length chunk) && not r.need_recovery)) [
        | inl more ↦ rw more (
            after_round (step handler chunk r) (loop handler fuel)
              (step-Goes handler p' h' later chunk r (ground arith) w) (loop-Drained fuel))
        | inr done ↦ rw done (used_up chunk r w done)
      ]

  pass_start :
      (chunk : Bytes) (r : Reader H)
      → IsReading r.state
      → proceed (start_magic handler chunk r) (start_flags handler) ≡ (ok chunk, r)
  unfolding start_magic start_flags
  pass_start chunk r reading = by_state r.state refl reading
    where
      by_state :
          (p : Phase)
          → r.state ≡ p
          → IsReading p
          → proceed (start_magic handler chunk r) (start_flags handler) ≡ (ok chunk, r)
      by_state Phase.read_header e h = rw e
      by_state Phase.read_data e h = rw e
      by_state Phase.read_magic e h = absurd h
      by_state Phase.read_flag_bits e h = absurd h
      by_state Phase.invalid_data e h = absurd h

  calm :
      (b : Bool) (out : Result (Unit {0}) × Reader H) (s : Reader H)
      → b ≡ false
      → Pending handler p' h' later s
      → Arrived (if b then out else (ok tt, s))
  unfolding Arrived
  calm true out s e w = absurd (ground (arith, e))
  calm false out s e w = w

  Drained-Arrived :
      (again : Bytes → Action (Reader H) (Unit {0})) (out : Result Bytes × Reader H)
      → Drained out
      → Arrived (proceed out (recover handler again))
  unfolding Drained Arrived recover
  Drained-Arrived again (ok c, s) (empty, w) = calm s.need_recovery _ s w.clear w
  Drained-Arrived again (throw e, s) w = w
  Drained-Arrived again (fault, s) w = w
  Drained-Arrived again (out_of_fuel, s) w = w

  not_invalid : (p : Phase) → IsReading p → is_invalid p ≡ false
  not_invalid Phase.read_header h = refl
  not_invalid Phase.read_data h = refl
  not_invalid Phase.read_magic h = refl
  not_invalid Phase.read_flag_bits h = refl
  not_invalid Phase.invalid_data h = absurd h

  read_chunk_fuel-Arrived :
      (fuel : ℕ) (chunk c : Bytes) (r s : Reader H)
      → is_invalid r.state ≡ false
      → proceed (start_magic handler chunk r) (start_flags handler) ≡ (ok c, s)
      → Pending handler p' h' (c ++ later) s
      → Arrived (read_chunk_fuel handler (suc fuel) chunk r)
  unfolding read_chunk_fuel parse_chunk
  read_chunk_fuel-Arrived fuel chunk c r s valid started w =
      rw (valid, started)
        (Drained-Arrived (read_chunk_fuel handler fuel) (loop handler (weight c s + 1) c s)
          (loop-Drained (weight c s + 1) c s w))

  -- The end of the fuel is excluded by what holds of every input.
  not_out_of_fuel :
      (out : Result (Unit {0}) × Reader H)
      → Arrived out
      → IsSound out.0
      → (out.0 ≡ ok tt) × Pending handler p' h' later out.1
  unfolding Arrived
  not_out_of_fuel (ok u, r) w h = (refl, w)
  not_out_of_fuel (throw e, r) w h = absurd w
  not_out_of_fuel (fault, r) w h = absurd w
  not_out_of_fuel (out_of_fuel, r) w h = absurd h

  -- A chunk that begins with the start of a file, `c` of which is left behind it.
  start-Pending :
      (chunk c : Bytes) (r s : Reader H)
      → IsSoundHandler handler
      → IsBuffer r
      → is_invalid r.state ≡ false
      → proceed (start_magic handler chunk r) (start_flags handler) ≡ (ok c, s)
      → Pending handler p' h' (c ++ later) s
      → ((read_chunk handler chunk r).0 ≡ ok tt)
        × Pending handler p' h' later (read_chunk handler chunk r).1
  start-Pending chunk c r s good h valid started w =
      not_out_of_fuel (read_chunk handler chunk r)
        (rw (read_chunk-eq handler chunk r, add_one (weight chunk r))
          (read_chunk_fuel-Arrived (weight chunk r) chunk c r s valid started w))
        (read_chunk-Ended handler good chunk r h).0

  read_chunk-Pending :
      (chunk : Bytes) (r : Reader H)
      → IsSoundHandler handler
      → IsBuffer r
      → Pending handler p' h' (chunk ++ later) r
      → ((read_chunk handler chunk r).0 ≡ ok tt)
        × Pending handler p' h' later (read_chunk handler chunk r).1
  read_chunk-Pending chunk r good h w =
      let reading = TakesAll-IsReading handler w.frames r.state p' r.handler h' w.takes in
      start-Pending chunk chunk r r good h (not_invalid r.state reading)
        (pass_start chunk r reading) w

module _ {H : Type 0} (handler : DataHandler H) (p' : Phase) (h' : H) where
  -- All messages were read, and nothing is left in the partial buffer.
  pub record IsAtEnd (out : Result (Unit {0}) × Reader H) : Type 0 where
    pub returned : out.0 ≡ ok tt
    pub state : out.1.state ≡ p'
    pub handled : out.1.handler ≡ h'
    pub empty : out.1.partial ≡ []
    pub clear : out.1.need_recovery ≡ false

  nothing_left :
      (fs : List Bytes) (r : Reader H)
      → TakesAll handler fs r.state r.handler p' h'
      → r.partial ++ [] ≡ flatten fs
      → IsStart r.partial fs
      → r.need_recovery ≡ false
      → IsAtEnd (ok tt, r)
  nothing_left [] r (reading, state, handled) e start clear = record {
    returned = refl;
    state = state;
    handled = handled;
    empty = start;
    clear = clear;
  }
  nothing_left (f ∷ fs) r ts e start clear =
      absurd (omega (arith, ap length e, length-append r.partial [], length-append f (flatten fs)))

  then_rest :
      (cs : List Bytes) (out : Result (Unit {0}) × Reader H)
      → out.0 ≡ ok tt
      → ((s : Reader H)
          → IsBuffer s
          → Pending handler p' h' (flatten cs) s
          → IsAtEnd (read_chunks handler cs s))
      → IsBuffer out.1
      → Pending handler p' h' (flatten cs) out.1
      → IsAtEnd (proceed out (λ _. read_chunks handler cs))
  then_rest cs (ok u, s) e next buffer v = next s buffer v
  then_rest cs (throw x, s) e next buffer v = cc
  then_rest cs (fault, s) e next buffer v = cc
  then_rest cs (out_of_fuel, s) e next buffer v = cc

  read_chunks-Pending :
      (chunks : List Bytes) (r : Reader H)
      → IsSoundHandler handler
      → IsBuffer r
      → Pending handler p' h' (flatten chunks) r
      → IsAtEnd (read_chunks handler chunks r)
  unfolding read_chunks
  read_chunks-Pending [] r good h w = nothing_left w.frames r w.takes w.bytes w.start w.clear
  read_chunks-Pending (c ∷ cs) r good h w =
      let (returned, w') = read_chunk-Pending handler p' h' (flatten cs) c r good h w in
      then_rest cs (read_chunk handler c r) returned
        (λ s buffer v. read_chunks-Pending cs s good buffer v)
        (read_chunk-Ended handler good c r h).1 w'

  -- Messages that the handler can take one after another, given in chunks cut anywhere to a reader with
  -- an empty partial buffer within its capacity and no recovery to do, where the methods of the handler
  -- return or throw: every call of `readChunk` returns, and the reader ends in the phase and the
  -- handler in the state that the messages lead to one by one, with nothing left in the buffer.
  pub read_chunks-frames :
      (frames chunks : List Bytes) (r : Reader H)
      → IsSoundHandler handler
      → IsBuffer r
      → r.partial ≡ []
      → r.need_recovery ≡ false
      → TakesAll handler frames r.state r.handler p' h'
      → flatten chunks ≡ flatten frames
      → IsAtEnd (read_chunks handler chunks r)
  read_chunks-frames frames chunks r good h empty clear takes e =
      read_chunks-Pending chunks r good h (record {
        frames = frames;
        takes = takes;
        bytes = rw empty e;
        start = rw empty (IsStart-nil handler frames r.state p' r.handler h' takes);
        clear = clear;
      })

  -- A reader that has seen nothing, given a file whose first chunk holds its start.
  pub read_chunks-start :
      (frames cs : List Bytes) (chunk c : Bytes) (r s : Reader H)
      → IsSoundHandler handler
      → IsBuffer r
      → is_invalid r.state ≡ false
      → proceed (start_magic handler chunk r) (start_flags handler) ≡ (ok c, s)
      → s.partial ≡ []
      → s.need_recovery ≡ false
      → TakesAll handler frames s.state s.handler p' h'
      → c ++ flatten cs ≡ flatten frames
      → IsAtEnd (read_chunks handler (chunk ∷ cs) r)
  unfolding read_chunks
  read_chunks-start frames cs chunk c r s good h valid started empty clear takes e =
      let w : Pending handler p' h' (c ++ flatten cs) s = record {
        frames = frames;
        takes = takes;
        bytes = rw empty e;
        start = rw empty (IsStart-nil handler frames s.state p' s.handler h' takes);
        clear = clear;
      } in
      let (returned, w') =
        start-Pending handler p' h' (flatten cs) chunk c r s good h valid started w in
      then_rest cs (read_chunk handler chunk r) returned
        (λ t buffer v. read_chunks-Pending cs t good buffer v)
        (read_chunk-Ended handler good chunk r h).1 w'
