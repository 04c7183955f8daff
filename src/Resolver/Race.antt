-- ===== src/Resolver/Race.antt =====
-- The race of two resolvers, in dns_relay/src/resolver.rs: resolve_candidate, resolve_candidates and
-- resolve_packet_for_subnet. What `select!` sees is a sequence of events: the answer of a resolver, if it
-- gave one, the end of the head start, or the end of the time for a query. Two events at one time come
-- in either order.
pub mod Flags
pub mod Answers
pub mod Failures
use dns_relay.Prelude.{
  ℕ, Bool, true, false, ◌&&◌, not, Option, none, some, List, [], ◌∷◌, ltb, ◌==◌, if◌then◌else◌,
  length, bit_and, Outcome, ok, refuse, panic, out_of_fuel, ◌>>=◌,
}
use dns_relay.Prelude.Slices.{Bytes, u16_at}
use dns_relay.Dns.Records.{response_has_only_unspecified_addresses}
use dns_relay.Resolver.Picker.{Resolver, ResolverPicker, candidates}
use dns_relay.Resolver.Picker.Sorting.{Sort}

-- `flags & 0x8000 != 0 && flags & 0x0200 == 0 && rcode != 2 && rcode != 5`: a response, not truncated,
-- neither SERVFAIL nor REFUSED.
abbrev pub usable_flags : ℕ → Bool
usable_flags flags =
    let rcode = bit_and flags 0x000F in
    not (bit_and flags 0x8000 == 0)
    && bit_and flags 0x0200 == 0
    && not (rcode == 2)
    && not (rcode == 5)

unfoldable pub is_usable_response : Bytes → Bool → Outcome Bool
unfolding u16_at response_has_only_unspecified_addresses
is_usable_response packet reject_unspecified = if ltb (length packet) 12 then ok false else do
  flags ← u16_at packet 2
  if usable_flags flags
      then if reject_unspecified
        then (do only ← response_has_only_unspecified_addresses packet; ok (not only))
        else ok true
      else ok false

-- What a resolver sent, or no answer at all.
abbrev pub answered : Option Bytes → Bool → Outcome Bytes
answered none reject_unspecified = refuse
answered (some packet) reject_unspecified = do
  usable ← is_usable_response packet reject_unspecified
  if usable then ok packet else refuse

unfoldable pub resolve_candidate : Option Bytes → Bool → Outcome Bytes
unfolding is_usable_response
resolve_candidate upstream reject_unspecified = answered upstream reject_unspecified

pub data Event : Type 0 where
  primary_ends : Option Bytes → Event
  secondary_ends : Option Bytes → Event
  hedge_ends : Event
  time_out : Event

-- Who is still asked: the primary with the secondary to follow, one of them, both, or nobody.
pub data Race : Type 0 where
  head_start : Race
  only_primary : Race
  only_secondary : Race
  both : Race
  finished : Outcome Bytes → Race

abbrev pub won_or : Race → Outcome Bytes → Race
won_or rest (ok packet) = finished (ok packet)
won_or rest refuse = rest
won_or rest panic = finished panic
won_or rest out_of_fuel = finished out_of_fuel

module _ (reject_unspecified : Bool) where
  unfoldable pub step : Race → Event → Race
  unfolding resolve_candidate
  step (finished result) event = finished result
  step head_start time_out = finished refuse
  step head_start (primary_ends upstream) =
      won_or only_secondary (resolve_candidate upstream reject_unspecified)
  step head_start (secondary_ends upstream) = head_start
  step head_start hedge_ends = both
  step only_primary time_out = finished refuse
  step only_primary (primary_ends upstream) =
      finished (resolve_candidate upstream reject_unspecified)
  step only_primary (secondary_ends upstream) = only_primary
  step only_primary hedge_ends = only_primary
  step only_secondary time_out = finished refuse
  step only_secondary (primary_ends upstream) = only_secondary
  step only_secondary (secondary_ends upstream) =
      finished (resolve_candidate upstream reject_unspecified)
  step only_secondary hedge_ends = only_secondary
  step both time_out = finished refuse
  step both (primary_ends upstream) =
      won_or only_secondary (resolve_candidate upstream reject_unspecified)
  step both (secondary_ends upstream) =
      won_or only_primary (resolve_candidate upstream reject_unspecified)
  step both hedge_ends = both

  unfoldable pub race : Race → List Event → Race
  unfolding step
  race state [] = state
  race state (event ∷ events) = race (step state event) events

abbrev pub started_with : List Resolver → Race
started_with [] = finished refuse
started_with (primary ∷ []) = only_primary
started_with (primary ∷ secondary ∷ rest) = head_start

unfoldable pub resolve_packet_for_subnet : Sort Resolver → ResolverPicker → Bool → List Event → Race
unfolding candidates race
resolve_packet_for_subnet sorting picker prefer_doh events =
    race picker.secure_only (started_with (candidates sorting picker prefer_doh)) events
