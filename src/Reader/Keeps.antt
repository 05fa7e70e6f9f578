-- ===== src/Reader/Keeps.antt =====
-- Calls on a reader that return or throw, and leave its partial buffer alone.
use my_ulog.Base.{◌≡◌}
use my_ulog.Base.Result.{Result, ok, throw, fault, out_of_fuel, IsSound}
use my_ulog.Base.Action.{Action, proceed}
use my_ulog.Handler.{DataHandler, Event, dispatch}
use my_ulog.Reader.State.{Reader, call}

-- The methods of a handler return or throw.
pub record IsSoundHandler {H : Type 0} (handler : DataHandler H) : Type 0 where
  pub sound : (e : Event) (h : H) → IsSound (dispatch handler e h).0

-- A call on the reader `r` that ends well and leaves the partial buffer alone.
pub record Keeps {H A : Type 0} (r : Reader H) (out : Result A × Reader H) : Type 0 where
  pub sound : IsSound out.0
  pub partial : out.1.partial ≡ r.partial
  pub capacity : out.1.capacity ≡ r.capacity

module _ {H : Type 0} where
  pub proceed-Keeps :
      {A B : Type 0} (r : Reader H) (out : Result A × Reader H) (f : A → Action (Reader H) B)
      → Keeps r out
      → ((a : A) (s : Reader H) → s.partial ≡ r.partial → s.capacity ≡ r.capacity → Keeps r (f a s))
      → Keeps r (proceed out f)
  proceed-Keeps r (ok a, s) f k next = next a s k.partial k.capacity
  proceed-Keeps r (throw e, s) f k next = record {
    sound = tt;
    partial = k.partial;
    capacity = k.capacity;
  }
  proceed-Keeps r (fault, s) f k next = absurd k.sound
  proceed-Keeps r (out_of_fuel, s) f k next = absurd k.sound

  -- A call through the interface.
  pub call-Keeps :
      {A : Type 0} (r s : Reader H) (m : Action H A)
      → s.partial ≡ r.partial
      → s.capacity ≡ r.capacity
      → IsSound (m s.handler).0
      → Keeps r (call m s)
  call-Keeps r s m p c h = record { sound = h; partial = p; capacity = c }
