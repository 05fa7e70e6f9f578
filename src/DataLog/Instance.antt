-- ===== src/DataLog/Instance.antt =====
-- The instance: `CreateInstance` and `GetInstance`.
use my_ulog.Base.{◌≡◌, refl, ap, subst, Bool, Option, none, some}
use my_ulog.Base.Bytes.{Bytes}
use my_ulog.Base.Result.{Result, ok, throw, fault, out_of_fuel, usage, empty_filename}
use my_ulog.Base.Action.{guard-ok, returned}
use my_ulog.DataLog.State.{DataLog}
use my_ulog.DataLog.Init.{is_empty}
use my_ulog.DataLog.Rotate.{System, new_data_log, created, create_instance, get_instance}
use my_ulog.DataLog.Session.{IsNew, new_data_log-IsNew}

module _ (system : System) where
  -- The logger that was there, or a new one; it is switched on or off as was asked.
  abbrev pub IsInstance : Bool → Option DataLog → DataLog → Type 0
  IsInstance on none d = IsNew (system.now 0) d × (d.enabled ≡ on)
  IsInstance on (some before) d = d ≡ record before { enabled = on }

  -- The instance is there, and is that one.
  abbrev pub HasInstance : Bool → Option DataLog → Option DataLog → Type 0
  HasInstance on before o = (d : DataLog) × (get_instance o ≡ (ok d, o)) × IsInstance on before d

  created-HasInstance :
      (out : Result (Unit {0}) × DataLog) (on : Bool) (before o : Option DataLog)
      → ((d : DataLog) → out ≡ (ok tt, d) → IsNew (system.now 0) d)
      → created system out on before ≡ (ok tt, o)
      → HasInstance on before o
  unfolding created get_instance
  created-HasInstance (ok u, d) on none o new e =
      let n = new d refl in
      subst (HasInstance on none) (ap (λ p. p.1) e) (
        record d { enabled = on },
        refl,
        (
          record {
            begun = record { clear = (n.begun).clear; begun = (n.begun).begun };
            no_files = n.no_files;
            no_structs = n.no_structs;
            no_bytes = n.no_bytes;
          },
          refl,
        ),
      )
  created-HasInstance (throw x, d) on none o new e = absurd (returned _ tt o e)
  created-HasInstance (fault, d) on none o new e = absurd (returned _ tt o e)
  created-HasInstance (out_of_fuel, d) on none o new e = absurd (returned _ tt o e)
  created-HasInstance (ok u, d) on (some b) o new e =
      subst (HasInstance on (some b)) (ap (λ p. p.1) e) (record b { enabled = on }, refl, refl)
  created-HasInstance (throw x, d) on (some b) o new e =
      subst (HasInstance on (some b)) (ap (λ p. p.1) e) (record b { enabled = on }, refl, refl)
  created-HasInstance (fault, d) on (some b) o new e =
      subst (HasInstance on (some b)) (ap (λ p. p.1) e) (record b { enabled = on }, refl, refl)
  created-HasInstance (out_of_fuel, d) on (some b) o new e =
      subst (HasInstance on (some b)) (ap (λ p. p.1) e) (record b { enabled = on }, refl, refl)

  -- After a `CreateInstance` that returned, `GetInstance` returns a logger that is switched as was asked:
  -- the one that was there before, otherwise the same, or, if there was none, one that was just made.
  pub create_instance-HasInstance :
      (filename : Bytes) (on : Bool) (before o : Option DataLog)
      → create_instance system filename on before ≡ (ok tt, o)
      → HasInstance on before o
  unfolding create_instance
  create_instance-HasInstance filename on before o e =
      created-HasInstance (new_data_log system filename) on before o
        (λ d made. new_data_log-IsNew system filename d made)
        (guard-ok (is_empty filename) (usage empty_filename) before _ tt o e).1
