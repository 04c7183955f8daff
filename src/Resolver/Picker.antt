-- ===== src/Resolver/Picker.antt =====
-- The list of healthy resolvers of dns_relay/src/resolver.rs: ResolverPicker, test_resolvers and the
-- merge of resolvers that a search has found. A Duration is its number of nanoseconds. A key of
-- `sort_unstable_by_key` is given by the order that it induces; which of two equal elements comes first
-- is left to the parameter `Sorting`.
pub mod Sorting
pub mod Merge
pub mod Choice
use dns_relay.Prelude.{
  ℕ, ◌+◌, ◌*◌, Bool, true, false, ◌&&◌, ◌||◌, not, Option, none, some, List, [], ◌∷◌, ◌++◌, ltb,
  leb, if◌then◌else◌, length, take, Outcome, ok, refuse, panic,
}
use dns_relay.Prelude.Slices.{Bytes}
use dns_relay.Dns.Text.Spaces.{starts_with, has}
use dns_relay.Resolver.Picker.Sorting.{Sort}

-- An address and its delay.
abbrev pub Resolver : Type 0
Resolver = Bytes × ℕ

abbrev https : Bytes
https = b'h' ∷ b't' ∷ b't' ∷ b'p' ∷ b's' ∷ b':' ∷ b'/' ∷ b'/' ∷ []

abbrev pub quic : Bytes
quic = b'q' ∷ b'u' ∷ b'i' ∷ b'c' ∷ b':' ∷ b'/' ∷ b'/' ∷ []

unfoldable pub is_https : Bytes → Bool
unfolding starts_with
is_https resolver = starts_with resolver https

unfoldable pub is_quic : Bytes → Bool
unfolding starts_with
is_quic resolver = starts_with resolver quic

unfoldable pub is_secure_resolver : Bytes → Bool
unfolding is_https is_quic
is_secure_resolver resolver = is_https resolver || is_quic resolver

abbrev pub millis : ℕ → ℕ
millis n = n * 1000000

-- The largest Duration, at which `saturating_mul` stops.
abbrev duration_max : ℕ
duration_max = 18446744073709551615 * 1000000000 + 999999999

abbrev saturated : ℕ → ℕ
saturated n = if ltb duration_max n then duration_max else n

-- Twice the round trip, between 25 and 250 milliseconds.
unfoldable pub hedge_delay : ℕ → ℕ
hedge_delay rtt =
    let twice = saturated (rtt * 2) in
    if ltb twice (millis 25)
    then millis 25
    else if ltb (millis 250) twice
    then millis 250
    else twice

pub record ResolverPicker : Type 0 where
  pub healthy_resolvers : List Resolver
  pub secure_only : Bool

-- `iter().find(..)`
abbrev pub find : (Resolver → Bool) → List Resolver → Option Resolver
find test [] = none
find test (r ∷ rs) = let rest = find test rs in if test r then some r else rest

-- `retain(..)`
abbrev pub retain : (Resolver → Bool) → List Resolver → List Resolver
retain test [] = []
retain test (r ∷ rs) = let rest = retain test rs in if test r then r ∷ rest else rest

abbrev expected : Option Resolver → Outcome Bytes
expected none = panic
expected (some (address, delay)) = ok address

abbrev pub is_eligible : ResolverPicker → Resolver → Bool
is_eligible picker (address, delay) = not picker.secure_only || is_secure_resolver address

-- `pick`, which panics when no resolver is eligible.
unfoldable pub pick : ResolverPicker → Outcome Bytes
unfolding is_secure_resolver
pick picker = expected (find (is_eligible picker) picker.healthy_resolvers)

abbrev or_pick : Option Resolver → Outcome Bytes → Outcome Bytes
or_pick none other = other
or_pick (some (address, delay)) other = ok address

unfoldable pub pick_doh_first : ResolverPicker → Bool → Outcome Bytes
unfolding pick is_https
pick_doh_first picker prefer_doh =
    if prefer_doh
    then or_pick (find (λ r. is_https r.0) picker.healthy_resolvers) (pick picker)
    else pick picker

abbrev pub by_latency : Resolver → Resolver → Bool
by_latency r q = leb r.1 q.1

-- The order of the keys `(!addr.starts_with("https://"), latency)`.
abbrev pub by_doh : Resolver → Resolver → Bool
by_doh r q =
    if is_https r.0 then not (is_https q.0) || leb r.1 q.1 else not (is_https q.0) && leb r.1 q.1

-- The addresses that are still to be kept, after those seen.
abbrev pub retain_new : List Bytes → List Resolver → List Resolver
retain_new seen [] = []
retain_new seen ((address, delay) ∷ rs) =
    let old = retain_new seen rs in
    let new = retain_new (address ∷ seen) rs in
    if has seen address then old else (address, delay) ∷ new

module _ (sorting : Sort Resolver) where
  unfoldable pub candidates : ResolverPicker → Bool → List Resolver
  unfolding is_secure_resolver is_https
  candidates picker prefer_doh =
      let eligible =
        if picker.secure_only
        then retain (λ r. is_secure_resolver r.0) picker.healthy_resolvers
        else picker.healthy_resolvers in
      take 2 (sorting.sort (if prefer_doh then by_doh else by_latency) eligible)

  unfoldable pub merge_discovered_into_healthy : List Resolver → List Resolver → ℕ → List Resolver
  unfolding has
  merge_discovered_into_healthy healthy discovered max_len =
      take max_len (retain_new [] (sorting.sort by_latency (healthy ++ discovered)))

  -- Of the resolvers that were probed, those with a delay.
  abbrev pub responding : List (Bytes × Option ℕ) → List Resolver
  responding [] = []
  responding ((address, none) ∷ rest) = responding rest
  responding ((address, some delay) ∷ rest) = (address, delay) ∷ responding rest

  abbrev sorted_or_none : List Resolver → Outcome (List Resolver)
  sorted_or_none [] = refuse
  sorted_or_none (r ∷ rs) = ok (sorting.sort by_latency (r ∷ rs))

  -- `test_resolvers`, from the measured delays on.
  unfoldable pub test_resolvers : List (Bytes × Option ℕ) → Outcome (List Resolver)
  test_resolvers probed = sorted_or_none (responding probed)
