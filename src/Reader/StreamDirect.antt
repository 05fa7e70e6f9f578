-- ===== src/Reader/StreamDirect.antt =====
-- One round of the loop of `readChunk` on whole messages, with an empty partial buffer, keeps what is
-- pending.
use my_ulog.Base.{
  ℕ, zero, suc, ◌+◌, ◌-◌, ◌≤◌, ◌<◌, ◌≡◌, refl, sym, ap, ◌∙◌, List, [], ◌∷◌, ◌++◌, false, arith,
  length, take, drop, min, ltb, length-append, length-take, append_assoc, take-append-drop, lt→ltb,
  Bool-cases, inl, inr, ◌⊎◌,
}
use my_ulog.Base.Bytes.{Bytes, flatten}
use my_ulog.Base.Result.{Result, ok, throw, fault, out_of_fuel}
use my_ulog.Base.Action.{proceed}
use my_ulog.Handler.{DataHandler}
use my_ulog.Messages.Raw.{IsFrame}
use my_ulog.Reader.State.{Phase, Reader, append_to_partial_buffer}
use my_ulog.Reader.Chunk.{ensure, use_direct, keep_rest, step_direct}
use my_ulog.Reader.Front.{front_length, full_message_length-eq}
use my_ulog.Reader.Stream.{split_prefix, same_size, Used, Takes, TakesAll, Pending, IsStart-nil}

pub drop_past : (n : ℕ) (xs : Bytes) → length xs ≤ n → drop n xs ≡ []
drop_past zero [] h = refl
drop_past zero (x ∷ xs) h = elim h [ ]
drop_past (suc n) [] h = refl
drop_past (suc n) (x ∷ xs) h = drop_past n xs (omega arith)

cut_again :
    (n : ℕ) (xs ys tail : Bytes) → (xs ++ take n ys) ++ (drop n ys ++ tail) ≡ xs ++ (ys ++ tail)
cut_again n xs ys tail =
    append_assoc xs (take n ys) (drop n ys ++ tail)
    ∙ ap (λ t. xs ++ t)
        (sym (append_assoc (take n ys) (drop n ys) tail)
          ∙ ap (λ t. t ++ tail) (take-append-drop n ys))

module _ {H : Type 0} where
  -- What `ensure` does to the bytes, and what it leaves alone.
  pub record Moved (required : ℕ) (chunk : Bytes) (r : Reader H) (out : Bytes × Reader H)
      : Type 0 where
    pub same : (tail : Bytes) → out.1.partial ++ (out.0 ++ tail) ≡ r.partial ++ (chunk ++ tail)
    pub bound : (n : ℕ) → required ≤ n → length r.partial ≤ n → length out.1.partial ≤ n
    pub state : out.1.state ≡ r.state
    pub handler : out.1.handler ≡ r.handler
    pub recovery : out.1.need_recovery ≡ r.need_recovery

  pub ensure-Moved :
      (required : ℕ) (chunk : Bytes) (r : Reader H)
      → Moved required chunk r (ensure required chunk r)
  unfolding ensure
  ensure-Moved required chunk r =
      let n = min (required - length r.partial) (length chunk) in
      elim (Bool-cases (ltb (length r.partial) required)) [
        | inl short ↦ rw short (record {
          same = cut_again n r.partial chunk;
          bound = λ k le le'.
              omega (arith, length-append r.partial (take n chunk), length-take n chunk);
          state = refl;
          handler = refl;
          recovery = refl;
        })
        | inr long ↦ rw long (record {
          same = λ tail. refl;
          bound = λ k le le'. le';
          state = refl;
          handler = refl;
          recovery = refl;
        })
      ]

-- A message is at the front of what is still to come.
length_in_front :
    (f chunk tail rest : Bytes)
    → IsFrame f
    → chunk ++ tail ≡ f ++ rest
    → ((length f ≤ length chunk) × (front_length chunk ≡ length f))
      ⊎ ((length chunk < length f) × (front_length chunk ≡ 0))
length_in_front f chunk tail rest h e =
    ground (arith, h.exact, h.payload, same_size chunk tail f rest e)

module _ {H : Type 0} (handler : DataHandler H) (p' : Phase) (h' : H) (later : Bytes) where
  -- A round that ends well, with the same messages pending.
  abbrev pub Goes : Result Bytes × Reader H → Type 0
  Goes (ok chunk, r) = Pending handler p' h' (chunk ++ later) r
  Goes (throw e, r) = ⊥
  Goes (fault, r) = ⊥
  Goes (out_of_fuel, r) = ⊥

  finish_direct :
      (f chunk : Bytes) (fs : List Bytes) (p : Phase) (h : H) (r : Reader H)
      (out : Result ℕ × Reader H)
      → r.partial ≡ []
      → r.need_recovery ≡ false
      → chunk ++ later ≡ flatten fs
      → TakesAll handler fs p h p' h'
      → Used f p h r out
      → Goes (proceed out (λ _ s. (ok chunk, s)))
  finish_direct f chunk fs p h r (ok n, s) empty clear e ts (n_eq, state, handled, same, recovery) =
      let none_left : s.partial ≡ [] = same ∙ empty in
      record {
        frames = fs;
        takes = rw (state, handled) ts;
        bytes = rw none_left e;
        start = rw none_left (IsStart-nil handler fs p p' h h' ts);
        clear = recovery ∙ clear;
      }
  finish_direct f chunk fs p h r (throw e, s) empty clear b ts u = u
  finish_direct f chunk fs p h r (fault, s) empty clear b ts u = u
  finish_direct f chunk fs p h r (out_of_fuel, s) empty clear b ts u = u

  use_direct-Goes :
      (f : Bytes) (fs : List Bytes) (chunk : Bytes) (r : Reader H) (p : Phase) (h : H)
      → Takes handler f r.state r.handler p h
      → TakesAll handler fs p h p' h'
      → r.partial ≡ []
      → r.need_recovery ≡ false
      → chunk ++ later ≡ f ++ flatten fs
      → length f ≤ length chunk
      → Goes (use_direct handler (length f) chunk r)
  unfolding use_direct
  use_direct-Goes f fs chunk r p h t ts empty clear e le =
      let (front, rest) = split_prefix chunk later f (flatten fs) e le in
      let counted : Reader H = record r { total_num_read = r.total_num_read + length f } in
      finish_direct f (drop (length f) chunk) fs p h counted _ empty clear rest ts
        (rw (← front) at (t.used (drop (length f) chunk) counted refl refl))

  keep_rest-Goes :
      (f : Bytes) (fs : List Bytes) (chunk : Bytes) (r : Reader H)
      → TakesAll handler (f ∷ fs) r.state r.handler p' h'
      → r.partial ≡ []
      → r.need_recovery ≡ false
      → chunk ++ later ≡ f ++ flatten fs
      → length chunk < length f
      → Goes (keep_rest handler chunk r)
  unfolding keep_rest append_to_partial_buffer
  keep_rest-Goes f fs chunk r ts empty clear e lt =
      let n = min (length chunk) (r.capacity - length r.partial) in
      record {
        frames = f ∷ fs;
        takes = ts;
        bytes = cut_again n r.partial chunk later ∙ rw empty e;
        start =
            omega
              (arith, length-append r.partial (take n chunk), length-take n chunk, ap length empty);
        clear = clear;
      }

  pub step_direct-Goes :
      (f : Bytes) (fs : List Bytes) (chunk : Bytes) (r : Reader H)
      → TakesAll handler (f ∷ fs) r.state r.handler p' h'
      → r.partial ≡ []
      → r.need_recovery ≡ false
      → chunk ++ later ≡ f ++ flatten fs
      → Goes (step_direct handler chunk r)
  unfolding step_direct
  step_direct-Goes f fs chunk r (p, h, t, ts) empty clear e =
      elim (length_in_front f chunk later (flatten fs) t.frame e) [
        | inl (le, full) ↦
            rw
              (
                full_message_length-eq chunk ∙ ap ok full,
                lt→ltb 0 (length f) (omega (arith, t.frame.exact)),
              )
              (use_direct-Goes f fs chunk r p h t ts empty clear e le)
        | inr (lt, none_full) ↦
            rw (full_message_length-eq chunk ∙ ap ok none_full)
              (keep_rest-Goes f fs chunk r (p, h, t, ts) empty clear e lt)
      ]
