-- ===== src/InFlight.antt =====
-- dns_relay/src/handler.rs: the queries in flight, of which equal ones share one resolution. A watch
-- channel is known by the number of the flight that made it, and a HashMap is a function from its
-- keys, whose equality is decided as the code derives it.
pub mod Maps
pub mod Invariant
pub mod Delivery
pub mod Ends
use dns_relay.Prelude.{ℕ, ◌+◌, ◌-◌, ◌≡◌, Bool, true, false, Option, none, some, ◌==◌, if◌then◌else◌}
use dns_relay.Prelude.Slices.{Bytes}
use native.Mathlib.Decide.{ℕ_discrete}

abbrev pub chosen {ℓ} : {P : Type 0} {V : Type ℓ} → Dec P → V → V → V
chosen (yes _) value other = value
chosen (no _) value other = other

-- `map.insert(key, value)`, and with `none` for the value `map.remove(&key)`.
abbrev pub put {ℓ} : {K : Type 0} {V : Type ℓ} → ((k j : K) → Dec (k ≡ j)) → (K → V) → K → V → K → V
put same map key value j = chosen (same key j) value (map j)

-- What `join` hands out: the leader of a new flight, or a follower of one that runs.
pub data Flight : Type 0 where
  leader : ℕ → Flight
  follower : ℕ → Flight

module _ {Key : Type 0} (same : (k j : Key) → Dec (k ≡ j)) where
  -- The map of the entries, the leaders whose entries are there, with their keys, the leaders that have
  -- sent, the receivers of each channel and the packet that it holds, and the number of the next flight.
  pub record Flights : Type 0 where
    pub entries : Key → Option ℕ
    pub leaders : ℕ → Option Key
    pub has_sent : ℕ → Bool
    pub receivers : ℕ → ℕ
    pub packets : ℕ → Option Bytes
    pub next : ℕ

  -- A follower subscribes to the channel; the receiver that comes with a new channel is dropped.
  abbrev pub joined : Flights → Key → Option ℕ → Flight × Flights
  joined s key (some flight) = (
    follower flight,
    record s { receivers = put ℕ_discrete s.receivers flight (s.receivers flight + 1) },
  )
  joined s key none = (
    leader s.next,
    record s {
      entries = put same s.entries key (some s.next);
      leaders = put ℕ_discrete s.leaders s.next (some key);
      next = s.next + 1;
    },
  )

  unfoldable pub join : Flights → Key → Flight × Flights
  join s key = joined s key (s.entries key)

  -- The leader of `flight`, for `key`, ends: its entry is removed.
  abbrev pub ended : Flights → ℕ → Key → Flights
  ended s flight key = record s {
    entries = put same s.entries key none;
    leaders = put ℕ_discrete s.leaders flight none;
  }

  -- `sender.send(Some(packet))`: without a receiver the channel keeps what it holds.
  unfoldable pub send : Flights → ℕ → Bytes → Flights
  send s flight packet = record s {
    has_sent = put ℕ_discrete s.has_sent flight true;
    packets =
        if s.receivers flight == 0
        then s.packets
        else put ℕ_discrete s.packets flight (some packet);
  }

  -- `entries.remove(&self.key)` of a leader that has sent, whose own sender goes right after it.
  unfoldable pub remove_entry : Flights → ℕ → Key → Flights
  remove_entry s flight key = ended s flight key

  -- Both steps of `publish`, when no other step comes between them.
  unfoldable pub publish : Flights → ℕ → Key → Bytes → Flights
  unfolding send remove_entry
  publish s flight key packet = remove_entry (send s flight packet) flight key

  -- `drop` of a follower.
  unfoldable pub drop_follower : Flights → ℕ → Flights
  drop_follower s flight = record s {
    receivers = put ℕ_discrete s.receivers flight (s.receivers flight - 1);
  }

  -- `drop` of a leader that has not published.
  unfoldable pub drop_leader : Flights → ℕ → Key → Flights
  drop_leader s flight key = ended s flight key

  abbrev pub no_packet : Option Key → Option (Option Bytes)
  no_packet (some key) = none
  no_packet none = some none

  abbrev pub waited : Option Bytes → Option Key → Option (Option Bytes)
  waited (some packet) running = some (some packet)
  waited none running = no_packet running

  -- What `wait` comes to for a follower: nothing yet, or its result. The channel is closed once the
  -- leader and the entry, which hold its senders, are gone.
  unfoldable pub wait : Flights → ℕ → Option (Option Bytes)
  wait s flight = waited (s.packets flight) (s.leaders flight)
