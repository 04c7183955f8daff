-- ===== src/Samples/Flights.antt =====
-- Flights from their first join on, with numbers for keys.
use dns_relay.Prelude.{◌<◌, ◌≡◌, refl, none, some, false, ◌⊎◌}
use native.Mathlib.Decide.{ℕ_discrete}
use dns_relay.InFlight.{Flights, follower, join, send, remove_entry, wait}
use dns_relay.InFlight.Invariant.{Step, Reachable, IsFlights, Reachable-IsFlights}
use dns_relay.InFlight.Delivery.{Later, wait-send}
use dns_relay.Samples.Wire.{reply}

abbrev nothing : Flights ℕ_discrete
nothing = record {
  entries = λ key. none;
  leaders = λ f. none;
  has_sent = λ f. false;
  receivers = λ f. 0;
  packets = λ f. none;
  next = 0;
}

-- A leader alone, and with a follower.
abbrev led : Flights ℕ_discrete
led = (join ℕ_discrete nothing 7).1

abbrev followed : Flights ℕ_discrete
followed = (join ℕ_discrete led 7).1

led-Reachable : Reachable ℕ_discrete led
led-Reachable = Reachable.after Reachable.empty (Step.joins 7 refl)

followed-Reachable : Reachable ℕ_discrete followed
followed-Reachable = Reachable.after led-Reachable (Step.joins 7 refl)

follow_run : (join ℕ_discrete led 7).0 ≡ follower 0
unfolding join ℕ_discrete
follow_run = refl

lead_run : followed.leaders 0 ≡ some 7
unfolding join ℕ_discrete
lead_run = refl

unsent_run : followed.has_sent 0 ≡ false
unfolding join ℕ_discrete
unsent_run = refl

Reachable-IsFlights_example : IsFlights ℕ_discrete followed
Reachable-IsFlights_example = Reachable-IsFlights ℕ_discrete followed followed-Reachable

abbrev sent : Flights ℕ_discrete
sent = send ℕ_discrete followed 0 reply

wait-send_example :
    (0 < followed.receivers 0 → wait ℕ_discrete (join ℕ_discrete sent 7).1 0 ≡ some (some reply))
    × (followed.receivers 0 ≡ 0
        → (wait ℕ_discrete (join ℕ_discrete sent 7).1 0 ≡ none)
          ⊎ (wait ℕ_discrete (join ℕ_discrete sent 7).1 0 ≡ some none))
wait-send_example =
    wait-send ℕ_discrete followed (join ℕ_discrete sent 7).1 0 7 reply followed-Reachable lead_run
      unsent_run (Later.then_step Later.now (Step.joins 7 refl))

-- A follower that joins between the two steps of a publication without other followers gets nothing.
late_run :
    wait ℕ_discrete
      (remove_entry ℕ_discrete (join ℕ_discrete (send ℕ_discrete led 0 reply) 7).1 0 7)
      0
    ≡ some none
unfolding join send remove_entry wait ℕ_discrete
late_run = refl
