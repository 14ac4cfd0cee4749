-- ===== src/Examples/Runtime.antt =====
-- cmd/montray-ui/src/runtime.rs at concrete passes.
use salmon.Base.{ℕ, ◌<◌, refl, arith, some, List, [], ◌∷◌, Text, Instant, codes}
use salmon.Domain.Model.{new}
use salmon.Domain.Event.{Event}
use salmon.Runtime.Pump.{Attempt, Written, Pump}
use salmon.Runtime.Pump.Durable.{Given, InSync, passes, snoozes_are_stored}

abbrev clock : Instant → Text
clock at = codes "t"

abbrev bytes : List ℕ → List ℕ
bytes text = text

abbrev disk : Text
disk = codes "web.disk"

-- a snooze of one incident that ends at 5, and automatic writes that wait until 9
abbrev waiting : Pump
waiting = record {
  state = new (codes "web" ∷ []) ((disk, 5) ∷ []);
  log = record { awaiting_snapshot = []; synchronized = [] };
  expiry_retry_not_before = some 9;
  stored = (disk, 5) ∷ [];
}

abbrev done : ℕ → Attempt
done index = record { now = 7; written = Written.saved; failed_at = 8; wall = 6 }

abbrev refused : ℕ → Attempt
refused index = record {
  now = 9;
  written = Written.failed (codes "disk full");
  failed_at = 9;
  wall = 6;
}

abbrev given : List Given
given =
    record { event = Event.tick 6; attempts = refused; now = 6 }
    ∷ record { event = Event.snooze (codes "web.cpu") 20; attempts = done; now = 7 }
    ∷ []

start-InSync : InSync waiting
unfolding new
start-InSync = refl

snoozes_are_stored_example : InSync (passes clock bytes bytes waiting given)
snoozes_are_stored_example =
    snoozes_are_stored clock bytes bytes waiting given (refl, (refl, tt)) start-InSync

early : (done 0).now < 9
early = omega arith

abbrev two_lines : List ℕ
two_lines = 97 ∷ 10 ∷ 98 ∷ []
