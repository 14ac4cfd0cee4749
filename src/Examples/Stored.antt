-- ===== src/Examples/Stored.antt =====
-- cmd/montray-ui/src/persistence.rs at a concrete state file.
use salmon.Base.{◌≡◌, refl, arith, none, some, Option, [], ◌∷◌, Text, Instant, codes, text_lt}
use salmon.Base.Results.{ok}
use salmon.Base.Maps.{Map}
use salmon.Base.Maps.Sorted.{IsSorted}
use salmon.Persistence.{StateFile, default_state, replace_snoozes, decoded_snoozes}
use salmon.Persistence.Restored.{IsInverse, restored_snoozes}

-- an instant as a text of one code
abbrev shown : Instant → Option Text
shown at = some (at ∷ [])

abbrev read : Text → Option Instant
read [] = none
read (at ∷ text) = some at

abbrev file : StateFile (Unit {0})
file = record default_state {
  snoozed =
      (codes "web.cpu", record { snoozed_until = codes "x"; extra = [] })
      ∷ (codes "web.disk", record { snoozed_until = codes "y"; extra = (codes "note", tt) ∷ [] })
      ∷ [];
}

abbrev snoozes : Map Instant
snoozes = (codes "db.load", 4) ∷ (codes "web.disk", 9) ∷ []

read-shown : IsInverse shown read
read-shown until text h = ground arith

file-IsSorted : IsSorted file.snoozed
unfolding text_lt
file-IsSorted = ((refl, tt), (tt, tt))

snoozes-IsSorted : IsSorted snoozes
unfolding text_lt
snoozes-IsSorted = ((refl, tt), (tt, tt))

restored_snoozes_example :
    (replaced : StateFile (Unit {0})) × (replace_snoozes shown file snoozes ≡ ok replaced)
    × (decoded_snoozes read replaced ≡ ok snoozes)
restored_snoozes_example =
    restored_snoozes shown read read-shown file snoozes file-IsSorted snoozes-IsSorted
      (refl, (refl, tt))
