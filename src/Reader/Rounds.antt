-- ===== src/Reader/Rounds.antt =====
-- The loop of `readChunk` ends: it makes no more rounds than there is weight.
use my_ulog.Base.{ℕ, zero, suc, ◌<◌, arith, length, ltb, Bool-cases, inl, inr, ◌&&◌, not}
use my_ulog.Base.Bytes.{Bytes}
use my_ulog.Base.Result.{Result, ok, throw, fault, out_of_fuel}
use my_ulog.Base.Action.{Action, proceed}
use my_ulog.Handler.{DataHandler}
use my_ulog.Reader.State.{Reader}
use my_ulog.Reader.Chunk.{weight, step, loop}
use my_ulog.Reader.Keeps.{IsSoundHandler}
use my_ulog.Reader.PartialRound.{IsBuffer, Below}
use my_ulog.Reader.Progress.{step-Below}

module _ {H : Type 0} (handler : DataHandler H) (good : IsSoundHandler handler) where
  -- One round, and then the rest.
  pub after_step :
      (w v : ℕ) (out : Result Bytes × Reader H) (f : Bytes → Action (Reader H) Bytes)
      → Below w out
      → ((chunk : Bytes) (r : Reader H) → IsBuffer r → weight chunk r < w → Below v (f chunk r))
      → Below v (proceed out f)
  after_step w v (ok chunk, r) f h next = next chunk r h.0 h.1
  after_step w v (throw e, r) f h next = h
  after_step w v (fault, r) f h next = h
  after_step w v (out_of_fuel, r) f h next = h

  pub loop-Below :
      (fuel v : ℕ) (chunk : Bytes) (r : Reader H)
      → IsBuffer r
      → weight chunk r < fuel
      → weight chunk r < v
      → Below v (loop handler fuel chunk r)
  unfolding loop
  loop-Below zero v chunk r h enough le = absurd (omega arith)
  loop-Below (suc fuel) v chunk r h enough le =
      elim (Bool-cases (ltb 0 (length chunk) && not r.need_recovery)) [
        | inl more ↦ rw more (
            after_step (weight chunk r) v (step handler chunk r) (loop handler fuel)
              (step-Below handler good chunk r h (ground arith))
              (λ c s hs less. loop-Below fuel v c s hs (omega arith) (omega arith)))
        | inr done ↦ rw done (h, le)
      ]
