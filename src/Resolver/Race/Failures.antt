-- ===== src/Resolver/Race/Failures.antt =====
-- Why a query gets no answer from the resolvers.
use dns_relay.Prelude.{
  ◌≡◌, refl, Bool, Option, List, [], ◌∷◌, Outcome, ok, refuse, panic, out_of_fuel, ◌⊎◌, inl, inr,
}
use dns_relay.Prelude.Slices.{Bytes}
use dns_relay.Cache.Lru.{Has}
use dns_relay.Resolver.Picker.{Resolver, ResolverPicker, candidates}
use dns_relay.Resolver.Picker.Sorting.{Sort}
use dns_relay.Resolver.Race.{
  Event, primary_ends, secondary_ends, hedge_ends, time_out, Race, head_start, only_primary,
  only_secondary, both, finished, won_or, resolve_candidate, step, race, started_with,
  resolve_packet_for_subnet,
}

module _ (reject_unspecified : Bool) where
  -- The resolver did not answer, or with a packet that is not usable.
  abbrev pub Fails : Option Bytes → Type 0
  Fails upstream = resolve_candidate upstream reject_unspecified ≡ refuse

  pub data PrimaryFailed (events : List Event) : Type 0 where
    primary_failed :
        (upstream : Option Bytes)
        → Has (primary_ends upstream) events
        → Fails upstream
        → PrimaryFailed events

  pub data SecondaryFailed (events : List Event) : Type 0 where
    secondary_failed :
        (upstream : Option Bytes)
        → Has (secondary_ends upstream) events
        → Fails upstream
        → SecondaryFailed events

  -- What it takes for a race to end without an answer.
  abbrev pub Reason : Race → List Event → Type 0
  Reason head_start events = Has time_out events ⊎ (PrimaryFailed events × SecondaryFailed events)
  Reason both events = Has time_out events ⊎ (PrimaryFailed events × SecondaryFailed events)
  Reason only_primary events = Has time_out events ⊎ PrimaryFailed events
  Reason only_secondary events = Has time_out events ⊎ SecondaryFailed events
  Reason (finished result) events = result ≡ refuse

  module _ (event : Event) (events : List Event) where
    primary_later : PrimaryFailed events → PrimaryFailed (event ∷ events)
    primary_later (primary_failed u m f) = primary_failed u (inr m) f

    secondary_later : SecondaryFailed events → SecondaryFailed (event ∷ events)
    secondary_later (secondary_failed u m f) = secondary_failed u (inr m) f

    Reason-later : (state : Race) → Reason state events → Reason state (event ∷ events)
    Reason-later head_start (inl m) = inl (inr m)
    Reason-later head_start (inr (p, s)) = inr (primary_later p, secondary_later s)
    Reason-later both (inl m) = inl (inr m)
    Reason-later both (inr (p, s)) = inr (primary_later p, secondary_later s)
    Reason-later only_primary (inl m) = inl (inr m)
    Reason-later only_primary (inr p) = inr (primary_later p)
    Reason-later only_secondary (inl m) = inl (inr m)
    Reason-later only_secondary (inr s) = inr (secondary_later s)
    Reason-later (finished result) e = e

  primary_first :
      (upstream : Option Bytes) (events : List Event)
      → Reason (won_or only_secondary (resolve_candidate upstream reject_unspecified)) events
      → Has time_out (primary_ends upstream ∷ events)
        ⊎ (PrimaryFailed (primary_ends upstream ∷ events)
            × SecondaryFailed (primary_ends upstream ∷ events))
  primary_first upstream events h = on (resolve_candidate upstream reject_unspecified) refl h
    where
      on :
          (o : Outcome Bytes)
          → resolve_candidate upstream reject_unspecified ≡ o
          → Reason (won_or only_secondary o) events
          → Has time_out (primary_ends upstream ∷ events)
            ⊎ (PrimaryFailed (primary_ends upstream ∷ events)
                × SecondaryFailed (primary_ends upstream ∷ events))
      on (ok p) e h = cc
      on refuse e (inl m) = inl (inr m)
      on refuse e (inr s) =
          inr
            (primary_failed upstream (inl refl) e, secondary_later (primary_ends upstream) events s)
      on panic e h = cc
      on out_of_fuel e h = cc

  secondary_first :
      (upstream : Option Bytes) (events : List Event)
      → Reason (won_or only_primary (resolve_candidate upstream reject_unspecified)) events
      → Has time_out (secondary_ends upstream ∷ events)
        ⊎ (PrimaryFailed (secondary_ends upstream ∷ events)
            × SecondaryFailed (secondary_ends upstream ∷ events))
  secondary_first upstream events h = on (resolve_candidate upstream reject_unspecified) refl h
    where
      on :
          (o : Outcome Bytes)
          → resolve_candidate upstream reject_unspecified ≡ o
          → Reason (won_or only_primary o) events
          → Has time_out (secondary_ends upstream ∷ events)
            ⊎ (PrimaryFailed (secondary_ends upstream ∷ events)
                × SecondaryFailed (secondary_ends upstream ∷ events))
      on (ok p) e h = cc
      on refuse e (inl m) = inl (inr m)
      on refuse e (inr p) =
          inr (
            primary_later (secondary_ends upstream) events p,
            secondary_failed upstream (inl refl) e,
          )
      on panic e h = cc
      on out_of_fuel e h = cc

  step-Reason :
      (state : Race) (event : Event) (events : List Event)
      → Reason (step reject_unspecified state event) events
      → Reason state (event ∷ events)
  unfolding step
  step-Reason (finished result) event events h = h
  step-Reason head_start time_out events h = inl (inl refl)
  step-Reason head_start (primary_ends u) events h = primary_first u events h
  step-Reason head_start (secondary_ends u) events h =
      Reason-later (secondary_ends u) events head_start h
  step-Reason head_start hedge_ends events h = Reason-later hedge_ends events both h
  step-Reason only_primary time_out events h = inl (inl refl)
  step-Reason only_primary (primary_ends u) events h = inr (primary_failed u (inl refl) h)
  step-Reason only_primary (secondary_ends u) events h =
      Reason-later (secondary_ends u) events only_primary h
  step-Reason only_primary hedge_ends events h = Reason-later hedge_ends events only_primary h
  step-Reason only_secondary time_out events h = inl (inl refl)
  step-Reason only_secondary (primary_ends u) events h =
      Reason-later (primary_ends u) events only_secondary h
  step-Reason only_secondary (secondary_ends u) events h = inr (secondary_failed u (inl refl) h)
  step-Reason only_secondary hedge_ends events h = Reason-later hedge_ends events only_secondary h
  step-Reason both time_out events h = inl (inl refl)
  step-Reason both (primary_ends u) events h = primary_first u events h
  step-Reason both (secondary_ends u) events h = secondary_first u events h
  step-Reason both hedge_ends events h = Reason-later hedge_ends events both h

  race-Reason :
      (state : Race) (events : List Event)
      → race reject_unspecified state events ≡ finished refuse
      → Reason state events
  unfolding race
  race-Reason state [] h = ended state h
    where
      ended : (last : Race) → last ≡ finished refuse → Reason last []
      ended (finished result) e = cc
      ended head_start e = cc
      ended only_primary e = cc
      ended only_secondary e = cc
      ended both e = cc
  race-Reason state (event ∷ events) h =
      step-Reason state event events (race-Reason (step reject_unspecified state event) events h)

-- A query fails only if there is no candidate for it, if its time is over, or if each candidate that it
-- has, the one or the two, has failed: a failure of one of two alone is no failure of the query.
pub resolve_packet_for_subnet-Reason :
    (sorting : Sort Resolver) (picker : ResolverPicker) (prefer_doh : Bool) (events : List Event)
    → resolve_packet_for_subnet sorting picker prefer_doh events ≡ finished refuse
    → Reason picker.secure_only (started_with (candidates sorting picker prefer_doh)) events
unfolding resolve_packet_for_subnet
resolve_packet_for_subnet-Reason sorting picker prefer_doh events h =
    race-Reason picker.secure_only (started_with (candidates sorting picker prefer_doh)) events h
