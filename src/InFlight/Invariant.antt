-- ===== src/InFlight/Invariant.antt =====
-- One running leader for each entry, whatever the order of the steps of leaders and followers.
use dns_relay.Prelude.{
  ℕ, ◌+◌, ◌-◌, ◌<◌, ◌≡◌, refl, ap, ◌∙◌, sym, subst, Bool, true, false, Option, none, some, arith,
  inl, inr, ◌==◌, if◌then◌else◌,
}
use dns_relay.Prelude.Slices.{Bytes}
use native.Mathlib.Decide.{ℕ_discrete}
use dns_relay.InFlight.{
  put, chosen, ended, Flights, join, joined, send, remove_entry, drop_leader, drop_follower,
}
use dns_relay.InFlight.Maps.{put_self, put_other, put_cases}

some_injective {ℓ} : {A : Type ℓ} {x y : A} → some x ≡ some y → x ≡ y
some_injective e = cc

module _ {Key : Type 0} (same : (k j : Key) → Dec (k ≡ j)) where
  -- Each entry has its leader, each leader its entry; numbers are not used twice, and a channel with a
  -- packet is that of a leader that has sent.
  pub record IsFlights (s : Flights same) : Type 0 where
    pub led : (key : Key) (f : ℕ) → s.entries key ≡ some f → s.leaders f ≡ some key
    pub entered : (f : ℕ) (key : Key) → s.leaders f ≡ some key → s.entries key ≡ some f
    pub below : (f : ℕ) (key : Key) → s.leaders f ≡ some key → f < s.next
    pub begun : (f : ℕ) → s.has_sent f ≡ true → f < s.next
    pub sent : (f : ℕ) (packet : Bytes) → s.packets f ≡ some packet → s.has_sent f ≡ true

  -- A leader that has not sent may send or be dropped; one that has sent removes its entry. Other steps
  -- may come between the two.
  pub data Step : Flights same → Flights same → Type 0 where
    joins : {s s' : Flights same} (key : Key) → (join same s key).1 ≡ s' → Step s s'
    leaves : {s s' : Flights same} (f : ℕ) → drop_follower same s f ≡ s' → Step s s'
    sends :
        {s s' : Flights same} (f : ℕ) (key : Key) (packet : Bytes)
        → s.leaders f ≡ some key
        → s.has_sent f ≡ false
        → send same s f packet ≡ s'
        → Step s s'
    removes :
        {s s' : Flights same} (f : ℕ) (key : Key)
        → s.leaders f ≡ some key
        → s.has_sent f ≡ true
        → remove_entry same s f key ≡ s'
        → Step s s'
    drops :
        {s s' : Flights same} (f : ℕ) (key : Key)
        → s.leaders f ≡ some key
        → s.has_sent f ≡ false
        → drop_leader same s f key ≡ s'
        → Step s s'

  pub data Reachable : Flights same → Type 0 where
    empty : Reachable (record {
      entries = λ key. none;
      leaders = λ f. none;
      has_sent = λ f. false;
      receivers = λ f. 0;
      packets = λ f. none;
      next = 0;
    })
    after : {s s' : Flights same} → Reachable s → Step s s' → Reachable s'

  module _ (s : Flights same) (w : IsFlights s) where
    -- The maps after a leader has ended.
    led_after :
        (f g : ℕ) (key k : Key)
        → s.leaders f ≡ some key
        → put same s.entries key none k ≡ some g
        → put ℕ_discrete s.leaders f none g ≡ some k
    led_after f g key k lead h = elim (put_cases same s.entries key none k (some g) h) [
      | inl (_, e) ↦ (let refuted = e in cc)
      | inr (ne, e) ↦
          put_other ℕ_discrete s.leaders f none g (λ fg.
            ne (
              some_injective (sym lead ∙ subst (λ i. s.leaders i ≡ some k) (sym fg) (w.led k g e))))
          ∙ w.led k g e
    ]

    entered_after :
        (f g : ℕ) (key k : Key)
        → s.leaders f ≡ some key
        → put ℕ_discrete s.leaders f none g ≡ some k
        → put same s.entries key none k ≡ some g
    entered_after f g key k lead h = elim (put_cases ℕ_discrete s.leaders f none g (some k) h) [
      | inl (_, e) ↦ (let refuted = e in cc)
      | inr (ne, e) ↦
          put_other same s.entries key none k (λ same_key. ne (
            some_injective (
              sym (w.entered f key lead)
              ∙ subst (λ i. s.entries i ≡ some g) (sym same_key) (w.entered g k e))))
          ∙ w.entered g k e
    ]

    below_after : (f g : ℕ) (k : Key) → put ℕ_discrete s.leaders f none g ≡ some k → g < s.next
    below_after f g k h = elim (put_cases ℕ_discrete s.leaders f none g (some k) h) [
      | inl (_, e) ↦ (let refuted = e in cc)
      | inr (_, e) ↦ w.below g k e
    ]

    ended-IsFlights : (f : ℕ) (key : Key) → s.leaders f ≡ some key → IsFlights (ended same s f key)
    ended-IsFlights f key lead = record {
      led = λ k g h. led_after f g key k lead h;
      entered = λ g k h. entered_after f g key k lead h;
      below = λ g k h. below_after f g k h;
      begun = w.begun;
      sent = w.sent;
    }

    sent_after : (f g : ℕ) → s.has_sent g ≡ true → put ℕ_discrete s.has_sent f true g ≡ true
    sent_after f g h = on (ℕ_discrete f g)
      where
        on : (d : Dec (f ≡ g)) → chosen d true (s.has_sent g) ≡ true
        on (yes _) = refl
        on (no _) = h

    send-IsFlights :
        (f : ℕ) (key : Key) (packet : Bytes)
        → s.leaders f ≡ some key
        → IsFlights (send same s f packet)
    unfolding send
    send-IsFlights f key packet lead = record {
      led = w.led;
      entered = w.entered;
      below = w.below;
      begun = λ g h. elim (put_cases ℕ_discrete s.has_sent f true g true h) [
        | inl (e, _) ↦ subst (λ i. i < s.next) e (w.below f key lead)
        | inr (_, e) ↦ w.begun g e
      ];
      sent = λ g p h. on g p (s.receivers f == 0) h;
    }
      where
        on :
            (g : ℕ) (p : Bytes) (alone : Bool)
            → (if alone then s.packets else put ℕ_discrete s.packets f (some packet)) g ≡ some p
            → put ℕ_discrete s.has_sent f true g ≡ true
        on g p true h = sent_after f g (w.sent g p h)
        on g p false h = elim (put_cases ℕ_discrete s.packets f (some packet) g (some p) h) [
          | inl (e, _) ↦
              subst (λ i. put ℕ_discrete s.has_sent f true i ≡ true) e
                (put_self ℕ_discrete s.has_sent f true)
          | inr (_, e) ↦ sent_after f g (w.sent g p e)
        ]

    new_flight-IsFlights : (key : Key) → s.entries key ≡ none → IsFlights (joined same s key none).1
    new_flight-IsFlights key absent = record {
      led = λ k g h. elim (put_cases same s.entries key (some s.next) k (some g) h) [
        | inl (e, f) ↦
            subst (λ i. put ℕ_discrete s.leaders s.next (some key) i ≡ some k) (some_injective f)
              (put_self ℕ_discrete s.leaders s.next (some key) ∙ ap some e)
        | inr (_, e) ↦
            put_other ℕ_discrete s.leaders s.next (some key) g
              (λ same_number. omega (arith, w.below g k (w.led k g e)))
            ∙ w.led k g e
      ];
      entered = λ g k h. elim (put_cases ℕ_discrete s.leaders s.next (some key) g (some k) h) [
        | inl (e, f) ↦
            subst (λ i. put same s.entries key (some s.next) i ≡ some g) (some_injective f)
              (put_self same s.entries key (some s.next) ∙ ap some e)
        | inr (_, e) ↦
            put_other same s.entries key (some s.next) k (λ same_key.
              (let refuted =
                  sym absent ∙ subst (λ i. s.entries i ≡ some g) (sym same_key) (w.entered g k e) in
                cc))
            ∙ w.entered g k e
      ];
      below = λ g k h. elim (put_cases ℕ_discrete s.leaders s.next (some key) g (some k) h) [
        | inl (e, _) ↦ omega arith
        | inr (_, e) ↦ omega (arith, w.below g k e)
      ];
      begun = λ g h. omega (arith, w.begun g h);
      sent = w.sent;
    }

    followed-IsFlights : (receivers : ℕ → ℕ) → IsFlights (record s { receivers = receivers })
    followed-IsFlights receivers = record {
      led = w.led;
      entered = w.entered;
      below = w.below;
      begun = w.begun;
      sent = w.sent;
    }

    join-IsFlights : (key : Key) → IsFlights (join same s key).1
    unfolding join
    join-IsFlights key = on (s.entries key) refl
      where
        on : (found : Option ℕ) → s.entries key ≡ found → IsFlights (joined same s key found).1
        on none e = new_flight-IsFlights key e
        on (some f) e = followed-IsFlights (put ℕ_discrete s.receivers f (s.receivers f + 1))

  Step-IsFlights : (s s' : Flights same) → Step s s' → IsFlights s → IsFlights s'
  unfolding drop_leader remove_entry drop_follower
  Step-IsFlights s s' (joins key e) w = subst IsFlights e (join-IsFlights s w key)
  Step-IsFlights s s' (leaves f e) w =
      subst IsFlights e (followed-IsFlights s w (put ℕ_discrete s.receivers f (s.receivers f - 1)))
  Step-IsFlights s s' (sends f key packet lead fresh e) w =
      subst IsFlights e (send-IsFlights s w f key packet lead)
  Step-IsFlights s s' (removes f key lead over e) w =
      subst IsFlights e (ended-IsFlights s w f key lead)
  Step-IsFlights s s' (drops f key lead fresh e) w =
      subst IsFlights e (ended-IsFlights s w f key lead)

  -- In every state that the steps of leaders and followers lead to from the empty one, the entries are
  -- those of the leaders that have not removed theirs, one for each key, so that a query of the same key
  -- follows it; no flight number is used twice, and a channel holds a packet only when its leader
  -- has sent. The sending and the removal of a publication are two steps, with others between them.
  pub Reachable-IsFlights : (s : Flights same) → Reachable s → IsFlights s
  Reachable-IsFlights s empty = record {
    led = λ key f h. (let refuted = h in cc);
    entered = λ f key h. (let refuted = h in cc);
    below = λ f key h. (let refuted = h in cc);
    begun = λ f h. (let refuted = h in cc);
    sent = λ f packet h. (let refuted = h in cc);
  }
  Reachable-IsFlights s' (after {s} r step) = Step-IsFlights s s' step (Reachable-IsFlights s r)
