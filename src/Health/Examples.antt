-- ===== src/Health/Examples.antt =====
-- Two calls for the status, ten seconds apart.
use guard_me.Prelude.{◌≡◌, refl, true, false, none, some}
use guard_me.Health.{SystemStatusPayload, get_status, fine}
use guard_me.Health.Cached.{Call}

abbrev first : Call
first = record { now = 0; finished = 100; db_answered = true; response = some 200 }

abbrev second : Call
second = record { now = 10000; finished = 10000; db_answered = false; response = none }

abbrev status : SystemStatusPayload
status = record { db = fine; virus_total = fine; timestamp = 100 }

asked : (get_status "key" 0 100 true (some 200) none).0.1 ≡ true
unfolding get_status
asked = refl
