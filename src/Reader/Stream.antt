-- ===== src/Reader/Stream.antt =====
-- The frames that are still to be read: the bytes in the partial buffer and those to come are a
-- sequence of whole messages, cut anywhere.
use my_ulog.Base.{
  ℕ, ◌≤◌, ◌<◌, ◌≡◌, refl, sym, ap, ◌∙◌, List, [], ◌∷◌, ◌++◌, false, arith, length, take, drop,
  take-append_le, drop-append_le, take-length, drop-length, take-append-drop,
}
use my_ulog.Base.Bytes.{Bytes, flatten}
use my_ulog.Base.Memory.{u16_at}
use my_ulog.Base.Result.{Result, ok, throw, fault, out_of_fuel}
use my_ulog.Handler.{DataHandler}
use my_ulog.Messages.Raw.{IsFrame}
use my_ulog.Reader.State.{Phase, Reader}
use my_ulog.Reader.Message.{process_message}
use my_ulog.Reader.PartialRound.{u16_at-append}

-- The two phases in which messages are read.
abbrev pub IsReading : Phase → Type 0
IsReading Phase.read_header = Unit
IsReading Phase.read_data = Unit
IsReading _ = ⊥

-- What is left of two equal sequences behind a part that both begin with.
pub split_prefix :
    (xs ys us vs : Bytes)
    → xs ++ ys ≡ us ++ vs
    → length us ≤ length xs
    → (xs ≡ us ++ drop (length us) xs) × (drop (length us) xs ++ ys ≡ vs)
split_prefix xs ys us vs e le =
    let n = length us in
    let front : take n xs ≡ us =
      sym (take-append_le n xs ys le) ∙ ap (take n) e ∙ take-length us vs in
    (
      sym (take-append-drop n xs) ∙ ap (λ t. t ++ drop n xs) front,
      sym (drop-append_le n xs ys le) ∙ ap (drop n) e ∙ drop-length us vs,
    )

-- The size field that both begin with.
pub same_size :
    (xs ys us vs : Bytes)
    → xs ++ ys ≡ us ++ vs
    → 2 ≤ length xs
    → 2 ≤ length us
    → u16_at 0 xs ≡ u16_at 0 us
same_size xs ys us vs e hx hu =
    sym (u16_at-append xs ys hx) ∙ ap (u16_at 0) e ∙ u16_at-append us vs hu

-- The bytes taken so far are the beginning of the first frame, not all of it.
abbrev pub IsStart : Bytes → List Bytes → Type 0
IsStart partial [] = partial ≡ []
IsStart partial (f ∷ fs) = length partial < length f

module _ {H : Type 0} where
  -- A call that used the message `f`, whole, and left the buffer alone.
  abbrev pub Used : Bytes → Phase → H → Reader H → Result ℕ × Reader H → Type 0
  Used f p h r (ok n, s) =
      (n ≡ length f)
      × (s.state ≡ p)
      × (s.handler ≡ h)
      × (s.partial ≡ r.partial)
      × (s.need_recovery ≡ r.need_recovery)
  Used f p h r (throw e, s) = ⊥
  Used f p h r (fault, s) = ⊥
  Used f p h r (out_of_fuel, s) = ⊥

module _ {H : Type 0} (handler : DataHandler H) where
  -- A reader in phase `p` whose handler is in state `h` takes the message `f`, whatever follows it, to
  -- the phase `p'` and the state `h'`.
  pub record Takes (f : Bytes) (p : Phase) (h : H) (p' : Phase) (h' : H) : Type 0 where
    pub frame : IsFrame f
    pub reading : IsReading p
    pub used :
        (rest : Bytes) (r : Reader H)
        → r.state ≡ p
        → r.handler ≡ h
        → Used f p' h' r (process_message handler (f ++ rest) r)

  -- The messages `fs` one after another.
  abbrev pub TakesAll : List Bytes → Phase → H → Phase → H → Type 0
  TakesAll [] p h p' h' = IsReading p × (p ≡ p') × (h ≡ h')
  TakesAll (f ∷ fs) p h p' h' = (q : Phase) × (k : H) × Takes f p h q k × TakesAll fs q k p' h'

  -- What is still to be read ends in the phase `p'` and the state `h'`; `tail` is what did not arrive.
  pub record Pending (p' : Phase) (h' : H) (tail : Bytes) (r : Reader H) : Type 0 where
    pub frames : List Bytes
    pub takes : TakesAll frames r.state r.handler p' h'
    pub bytes : r.partial ++ tail ≡ flatten frames
    pub start : IsStart r.partial frames
    pub clear : r.need_recovery ≡ false

  pub IsStart-nil :
      (fs : List Bytes) (p p' : Phase) (h h' : H) → TakesAll fs p h p' h' → IsStart [] fs
  IsStart-nil [] p p' h h' t = refl
  IsStart-nil (f ∷ fs) p p' h h' (q, k, t, ts) = omega (arith, t.frame.exact)

  pub TakesAll-IsReading :
      (fs : List Bytes) (p p' : Phase) (h h' : H) → TakesAll fs p h p' h' → IsReading p
  TakesAll-IsReading [] p p' h h' t = t.0
  TakesAll-IsReading (f ∷ fs) p p' h h' (q, k, t, ts) = t.reading
