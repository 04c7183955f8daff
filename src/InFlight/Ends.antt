-- ===== src/InFlight/Ends.antt =====
-- What a flight comes to when its leader ends, if no other step comes between.
use dns_relay.Prelude.{ℕ, ◌<◌, ◌≡◌, refl, false, none, some, ◌==◌, arith}
use native.Mathlib.Decide.{ℕ_discrete}
use dns_relay.Prelude.Slices.{Bytes}
use dns_relay.InFlight.{Flights, publish, drop_leader, wait}
use dns_relay.InFlight.Maps.{put_self}

module _ {Key : Type 0} (same : (k j : Key) → Dec (k ≡ j)) where
  pub wait_published :
      (s : Flights same) (flight : ℕ) (key : Key) (packet : Bytes)
      → 0 < s.receivers flight
      → wait same (publish same s flight key packet) flight ≡ some (some packet)
  unfolding publish wait
  wait_published s flight key packet followed =
      rw
        (
          alone_not (s.receivers flight) followed,
          put_self ℕ_discrete s.packets flight (some packet),
        )
        refl
    where
      alone_not : (n : ℕ) → 0 < n → (n == 0) ≡ false
      alone_not n h = ground (arith, h)

  pub wait_dropped :
      (s : Flights same) (flight : ℕ) (key : Key)
      → s.packets flight ≡ none
      → wait same (drop_leader same s flight key) flight ≡ some none
  unfolding drop_leader wait
  wait_dropped s flight key quiet = rw (quiet, put_self ℕ_discrete s.leaders flight none) refl
