-- ===== src/InFlight/Delivery.antt =====
-- What followers get once the leader of their flight has sent.
use dns_relay.Prelude.{
  ℕ, ◌<◌, ◌≡◌, ◌≢◌, refl, ◌∙◌, sym, subst, Bool, true, false, Option, none, some, ◌⊎◌, inl, inr,
  ◌==◌, if◌then◌else◌, arith,
}
use dns_relay.Prelude.Slices.{Bytes}
use native.Mathlib.Decide.{ℕ_discrete}
use dns_relay.InFlight.{
  Flights, put, join, joined, send, remove_entry, drop_leader, drop_follower, no_packet, wait,
}
use dns_relay.InFlight.Maps.{put_self, put_other}
use dns_relay.InFlight.Invariant.{
  IsFlights, Step, joins, leaves, sends, removes, drops, Reachable, Reachable-IsFlights,
}

module _ {Key : Type 0} (same : (k j : Key) → Dec (k ≡ j)) where
  -- A leader that has sent sends no more: the channel holds what it held then.
  abbrev Holds : Flights same → ℕ → Option Bytes → Type 0
  Holds s f held = (s.packets f ≡ held) × (s.has_sent f ≡ true)

  Holds-join :
      (s : Flights same) (key : Key) (f : ℕ) (held : Option Bytes)
      → Holds s f held
      → Holds (join same s key).1 f held
  unfolding join
  Holds-join s key f held h = on (s.entries key)
    where
      on : (found : Option ℕ) → Holds (joined same s key found).1 f held
      on none = h
      on (some g) = h

  Holds-send :
      (s : Flights same) (g : ℕ) (packet : Bytes) (f : ℕ) (held : Option Bytes)
      → s.has_sent g ≡ false
      → Holds s f held
      → Holds (send same s g packet) f held
  unfolding send
  Holds-send s g packet f held fresh (kept, over) =
      (on (s.receivers g == 0), put_other ℕ_discrete s.has_sent g true f other ∙ over)
    where
      other : g ≢ f
      other e = (let refuted = sym (subst (λ i. s.has_sent i ≡ false) e fresh) ∙ over in cc)

      on :
          (alone : Bool)
          → (if alone then s.packets else put ℕ_discrete s.packets g (some packet)) f ≡ held
      on true = kept
      on false = put_other ℕ_discrete s.packets g (some packet) f other ∙ kept

  Holds-Step :
      (s s' : Flights same) (f : ℕ) (held : Option Bytes)
      → Step same s s'
      → Holds s f held
      → Holds s' f held
  unfolding drop_leader remove_entry drop_follower
  Holds-Step s s' f held (joins key e) h = subst (λ t. Holds t f held) e (Holds-join s key f held h)
  Holds-Step s s' f held (leaves g e) h = subst (λ t. Holds t f held) e h
  Holds-Step s s' f held (sends g key packet lead fresh e) h =
      subst (λ t. Holds t f held) e (Holds-send s g packet f held fresh h)
  Holds-Step s s' f held (removes g key lead over e) h = subst (λ t. Holds t f held) e h
  Holds-Step s s' f held (drops g key lead fresh e) h = subst (λ t. Holds t f held) e h

  pub data Later : Flights same → Flights same → Type 0 where
    now : {s : Flights same} → Later s s
    then_step : {s t u : Flights same} → Later s t → Step same t u → Later s u

  Holds-Later :
      (s u : Flights same) (f : ℕ) (held : Option Bytes)
      → Later s u
      → Holds s f held
      → Holds u f held
  Holds-Later s u f held now h = h
  Holds-Later s u f held (then_step {t = t} later step) h =
      Holds-Step t u f held step (Holds-Later s t f held later h)

  unsent : (s : Flights same) (f : ℕ) → IsFlights same s → s.has_sent f ≡ false → s.packets f ≡ none
  unsent s f w fresh = on (s.packets f) refl
    where
      on : (o : Option Bytes) → s.packets f ≡ o → o ≡ none
      on none e = refl
      on (some p) e = (let refuted = sym fresh ∙ w.sent f p e in cc)

  sent_with :
      (s : Flights same) (f : ℕ) (packet : Bytes)
      → 0 < s.receivers f
      → Holds (send same s f packet) f (some packet)
  unfolding send
  sent_with s f packet some_receiver = (
    rw (alone_not (s.receivers f) some_receiver) (put_self ℕ_discrete s.packets f (some packet)),
    put_self ℕ_discrete s.has_sent f true,
  )
    where
      alone_not : (n : ℕ) → 0 < n → (n == 0) ≡ false
      alone_not n h = ground (arith, h)

  sent_alone :
      (s : Flights same) (f : ℕ) (packet : Bytes)
      → s.receivers f ≡ 0
      → s.packets f ≡ none
      → Holds (send same s f packet) f none
  unfolding send
  sent_alone s f packet alone empty = (rw alone empty, put_self ℕ_discrete s.has_sent f true)

  -- A leader of a reachable state that has not sent before sends a packet. If its channel has a receiver
  -- then, the packet is what every follower of the flight gets, those that join before the entry is
  -- removed among them, whatever steps come next and however late it asks. If it has none, no follower ever
  -- gets a packet: it waits, or gets none.
  pub wait-send :
      (s t : Flights same) (f : ℕ) (key : Key) (packet : Bytes)
      → Reachable same s
      → s.leaders f ≡ some key
      → s.has_sent f ≡ false
      → Later (send same s f packet) t
      → (0 < s.receivers f → wait same t f ≡ some (some packet))
        × (s.receivers f ≡ 0 → (wait same t f ≡ none) ⊎ (wait same t f ≡ some none))
  unfolding wait
  wait-send s t f key packet r lead fresh later = (
    λ some_receiver.
        (let (kept, _) =
            Holds-Later (send same s f packet) t f (some packet) later
              (sent_with s f packet some_receiver) in
          rw kept refl),
    λ alone.
        (let (kept, _) =
            Holds-Later (send same s f packet) t f none later
              (sent_alone s f packet alone (unsent s f (Reachable-IsFlights same s r) fresh)) in
          rw kept (empty (t.leaders f))),
  )
    where
      empty : (o : Option Key) → (no_packet same o ≡ none) ⊎ (no_packet same o ≡ some none)
      empty none = inr refl
      empty (some _) = inl refl
