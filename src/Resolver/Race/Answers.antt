-- ===== src/Resolver/Race/Answers.antt =====
-- What the race of two resolvers ends with.
use dns_relay.Prelude.{
  ◌≡◌, refl, sym, ap, ◌∙◌, subst, Bool, true, false, Option, none, some, List, [], ◌∷◌, Outcome, ok,
  refuse, panic, out_of_fuel, >>=-eq-ok, ◌⊎◌, inl, inr, if◌then◌else◌,
}
use dns_relay.Prelude.Slices.{Bytes}
use dns_relay.Prelude.Writes.{IsBytes}
use dns_relay.Cache.Lru.{Has}
use dns_relay.Resolver.Race.Flags.{IsUsable, is_usable_response-IsUsable}
use dns_relay.Resolver.Picker.{Resolver, ResolverPicker, candidates}
use dns_relay.Resolver.Picker.Sorting.{Sort}
use dns_relay.Resolver.Race.{
  Event, primary_ends, secondary_ends, hedge_ends, time_out, Race, head_start, only_primary,
  only_secondary, both, finished, won_or, is_usable_response, resolve_candidate, step, race,
  started_with, resolve_packet_for_subnet,
}

module _ (reject_unspecified : Bool) where
  abbrev Usable : Bytes → Type 0
  Usable packet = is_usable_response packet reject_unspecified ≡ ok true

  resolve_candidate-Usable :
      (upstream : Option Bytes) (packet : Bytes)
      → resolve_candidate upstream reject_unspecified ≡ ok packet
      → (upstream ≡ some packet) × Usable packet
  unfolding resolve_candidate
  resolve_candidate-Usable none packet h = cc
  resolve_candidate-Usable (some p) packet h =
      let (usable, tested, kept) = >>=-eq-ok (is_usable_response p reject_unspecified) _ h in
      passed usable tested kept
    where
      passed :
          (usable : Bool)
          → is_usable_response p reject_unspecified ≡ ok usable
          → (if usable then ok p else refuse) ≡ ok packet
          → (some p ≡ some packet) × Usable packet
      passed true tested kept = (cc, subst Usable (same_ok kept) tested)
        where
          same_ok : {x y : Bytes} → ok x ≡ ok y → x ≡ y
          same_ok e = cc
      passed false tested kept = cc

  -- A resolver sent a packet that is usable.
  abbrev pub Won : List Event → Bytes → Type 0
  Won events packet =
      Usable packet
      × (Has (primary_ends (some packet)) events ⊎ Has (secondary_ends (some packet)) events)

  later-Won :
      (event : Event) (events : List Event) (packet : Bytes)
      → Won events packet
      → Won (event ∷ events) packet
  later-Won event events packet (u, inl m) = (u, inl (inr m))
  later-Won event events packet (u, inr m) = (u, inr (inr m))

  abbrev Source : Race → List Event → Bytes → Type 0
  Source (finished result) events packet = result ≡ ok packet
  Source _ events packet = Won events packet

  Won-now :
      (event : Event) (events : List Event) (upstream : Option Bytes) (packet : Bytes)
      → (event ≡ primary_ends upstream) ⊎ (event ≡ secondary_ends upstream)
      → resolve_candidate upstream reject_unspecified ≡ ok packet
      → Won (event ∷ events) packet
  Won-now event events upstream packet from h =
      let (sent, usable) = resolve_candidate-Usable upstream packet h in (usable, on from sent)
    where
      on :
          (event ≡ primary_ends upstream) ⊎ (event ≡ secondary_ends upstream)
          → upstream ≡ some packet
          → Has (primary_ends (some packet)) (event ∷ events)
            ⊎ Has (secondary_ends (some packet)) (event ∷ events)
      on (inl e) sent = inl (inl (sym (e ∙ ap primary_ends sent)))
      on (inr e) sent = inr (inl (sym (e ∙ ap secondary_ends sent)))

  -- A race in which a resolver stays to be asked when another one fails.
  won_or-Won :
      (rest : Race) (event : Event) (events : List Event) (upstream : Option Bytes) (packet : Bytes)
      → (event ≡ primary_ends upstream) ⊎ (event ≡ secondary_ends upstream)
      → Source rest events packet ≡ Won events packet
      → Source (won_or rest (resolve_candidate upstream reject_unspecified)) events packet
      → Won (event ∷ events) packet
  won_or-Won rest event events upstream packet from open_rest h =
      on (resolve_candidate upstream reject_unspecified) refl h
    where
      on :
          (o : Outcome Bytes)
          → resolve_candidate upstream reject_unspecified ≡ o
          → Source (won_or rest o) events packet
          → Won (event ∷ events) packet
      on (ok p) e h = Won-now event events upstream packet from (e ∙ h)
      on refuse e h = later-Won event events packet (subst (λ X. X) open_rest h)
      on panic e h = cc
      on out_of_fuel e h = cc

  step-Source :
      (state : Race) (event : Event) (events : List Event) (packet : Bytes)
      → Source (step reject_unspecified state event) events packet
      → Source state (event ∷ events) packet
  unfolding step
  step-Source (finished result) event events packet h = h
  step-Source head_start time_out events packet h = cc
  step-Source head_start (primary_ends u) events packet h =
      won_or-Won only_secondary (primary_ends u) events u packet (inl refl) refl h
  step-Source head_start (secondary_ends u) events packet h =
      later-Won (secondary_ends u) events packet h
  step-Source head_start hedge_ends events packet h = later-Won hedge_ends events packet h
  step-Source only_primary time_out events packet h = cc
  step-Source only_primary (primary_ends u) events packet h =
      Won-now (primary_ends u) events u packet (inl refl) h
  step-Source only_primary (secondary_ends u) events packet h =
      later-Won (secondary_ends u) events packet h
  step-Source only_primary hedge_ends events packet h = later-Won hedge_ends events packet h
  step-Source only_secondary time_out events packet h = cc
  step-Source only_secondary (primary_ends u) events packet h =
      later-Won (primary_ends u) events packet h
  step-Source only_secondary (secondary_ends u) events packet h =
      Won-now (secondary_ends u) events u packet (inr refl) h
  step-Source only_secondary hedge_ends events packet h = later-Won hedge_ends events packet h
  step-Source both time_out events packet h = cc
  step-Source both (primary_ends u) events packet h =
      won_or-Won only_secondary (primary_ends u) events u packet (inl refl) refl h
  step-Source both (secondary_ends u) events packet h =
      won_or-Won only_primary (secondary_ends u) events u packet (inr refl) refl h
  step-Source both hedge_ends events packet h = later-Won hedge_ends events packet h

  race-Source :
      (state : Race) (events : List Event) (packet : Bytes)
      → race reject_unspecified state events ≡ finished (ok packet)
      → Source state events packet
  unfolding race
  race-Source state [] packet h = ended state h
    where
      ended : (last : Race) → last ≡ finished (ok packet) → Source last [] packet
      ended (finished result) e = cc
      ended head_start e = cc
      ended only_primary e = cc
      ended only_secondary e = cc
      ended both e = cc
  race-Source state (event ∷ events) packet h =
      step-Source state event events packet
        (race-Source (step reject_unspecified state event) events packet h)

-- A query is answered with a packet that the primary or the secondary resolver sent, and that is usable:
-- it has a header, the bits of its flags say a response that is not truncated, neither SERVFAIL nor
-- REFUSED, and, where only secure resolvers are asked, it does not have unspecified addresses alone. The
-- packet consists of bytes.
pub resolve_packet_for_subnet-Won :
    (sorting : Sort Resolver) (picker : ResolverPicker) (prefer_doh : Bool) (events : List Event)
    (packet : Bytes)
    → IsBytes packet
    → resolve_packet_for_subnet sorting picker prefer_doh events ≡ finished (ok packet)
    → IsUsable packet picker.secure_only
      × (Has (primary_ends (some packet)) events ⊎ Has (secondary_ends (some packet)) events)
unfolding resolve_packet_for_subnet
resolve_packet_for_subnet-Won sorting picker prefer_doh events packet bytes h =
    let (usable, from) = on (candidates sorting picker prefer_doh) h in
    (is_usable_response-IsUsable packet picker.secure_only bytes usable, from)
  where
    on :
        (chosen : List Resolver)
        → race picker.secure_only (started_with chosen) events ≡ finished (ok packet)
        → Won picker.secure_only events packet
    on [] e = refuted_by (race-Source picker.secure_only (finished refuse) events packet e)
      where
        refuted_by : refuse ≡ ok packet → Won picker.secure_only events packet
        refuted_by e = cc
    on (primary ∷ []) e = race-Source picker.secure_only only_primary events packet e
    on (primary ∷ secondary ∷ rest) e = race-Source picker.secure_only head_start events packet e
