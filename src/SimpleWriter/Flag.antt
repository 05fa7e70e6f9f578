-- ===== src/SimpleWriter/Flag.antt =====
-- The flag of the plain writer, which every method but one keeps.
use my_ulog.Base.{◌≡◌, refl, Bool, true, false, not, List}
use my_ulog.Base.Bytes.{Bytes}
use my_ulog.Base.Dict.{bytes_key}
use my_ulog.Base.Result.{Result, ok, throw, fault, out_of_fuel, Exception}
use my_ulog.Base.Action.{Action, proceed, raise_if}
use my_ulog.Handler.{Event, dispatch}
use my_ulog.Messages.FileHeader.{serialize_file_header}
use my_ulog.Writer
use my_ulog.Writer.{Writer, emit, writer_handler}

-- The plain writer keeps its flag.
abbrev pub KeepsFlag : Action Writer (Unit {0}) → Type 0
KeepsFlag m = (w : Writer) → ((m w).1).header_complete ≡ w.header_complete

emit-KeepsFlag : (r : Result (List Bytes)) → KeepsFlag (emit r)
unfolding emit
emit-KeepsFlag (ok ws) w = refl
emit-KeepsFlag (throw e) w = refl
emit-KeepsFlag fault w = refl
emit-KeepsFlag out_of_fuel w = refl

guarded-KeepsFlag :
    (b : Writer → Bool) (x : Exception) (m : Action Writer (Unit {0}))
    → KeepsFlag m
    → KeepsFlag (λ w. proceed (raise_if (b w) x w) (λ _. m))
guarded-KeepsFlag b x m h w = by_test (b w)
  where
    by_test :
        (c : Bool) → ((proceed (raise_if c x w) (λ _. m)).1).header_complete ≡ w.header_complete
    by_test true = refl
    by_test false = h w

-- Every call but the one that ends the header.
abbrev pub LeavesFlag : Event → Type 0
LeavesFlag Event.header_complete = ⊥
LeavesFlag _ = Unit

pub write-KeepsFlag : (e : Event) → LeavesFlag e → KeepsFlag (dispatch writer_handler e)
unfolding Writer.write_file_header Writer.write_message_info Writer.write_message_format
    Writer.write_parameter Writer.write_parameter_default Writer.write_add_logged_message
    Writer.write_logging Writer.write_data Writer.write_dropout Writer.write_sync
write-KeepsFlag Event.header_complete h = absurd h
write-KeepsFlag (Event.error x y) h = λ w. refl
write-KeepsFlag (Event.file_header x) h = emit-KeepsFlag (ok (serialize_file_header x))
write-KeepsFlag (Event.message_info x) h = emit-KeepsFlag _
write-KeepsFlag (Event.parameter x) h = emit-KeepsFlag _
write-KeepsFlag (Event.message_format x) h =
    guarded-KeepsFlag (λ w. w.header_complete) _ _ (emit-KeepsFlag _)
write-KeepsFlag (Event.parameter_default x) h = emit-KeepsFlag _
write-KeepsFlag (Event.add_logged_message x) h =
    guarded-KeepsFlag (λ w. not w.header_complete) _ _ (emit-KeepsFlag _)
write-KeepsFlag (Event.logging x) h = emit-KeepsFlag _
write-KeepsFlag (Event.logged_data x) h = emit-KeepsFlag _
write-KeepsFlag (Event.dropout x) h = emit-KeepsFlag _
write-KeepsFlag (Event.sync x) h = emit-KeepsFlag _
