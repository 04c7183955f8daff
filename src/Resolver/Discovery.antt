-- ===== src/Resolver/Discovery.antt =====
-- The search for resolvers, in dns_relay/src/resolver.rs: the lists of the sources, and one cycle of
-- run_resolver_finder. What the sources send and what the probes measure are parameters; a probe takes
-- place at the time of the cycle. A HashSet of candidates is a list without repetitions.
pub mod Entries
pub mod Cycle
use dns_relay.Prelude.{
  ℕ, Bool, true, false, ◌&&◌, ◌||◌, not, Option, none, some, List, [], ◌∷◌, ◌++◌, ◌==◌,
  if◌then◌else◌, any,
}
use dns_relay.Prelude.Slices.{Bytes}
use dns_relay.Dns.Text.{is_empty}
use dns_relay.Dns.Text.Affix.{eq_bytes}
use dns_relay.Dns.Text.Spaces.{trim, lines, before_any, starts_with, has, is_some}
use dns_relay.Dns.Ipv4.{parse_ipv4}
use dns_relay.Resolver.Failed.{
  FailedResolverSet, is_failed_resolver, record_failed_resolver, inserted,
}
use dns_relay.Resolver.Picker.{
  Resolver, is_https, is_secure_resolver, by_latency, merge_discovered_into_healthy, responding,
}
use dns_relay.Resolver.Picker.Sorting.{Sort}

abbrev http : Bytes
http = b'h' ∷ b't' ∷ b't' ∷ b'p' ∷ b':' ∷ b'/' ∷ b'/' ∷ []

abbrev pub dns_port : Bytes
dns_port = b':' ∷ b'5' ∷ b'3' ∷ []

abbrev pub contains_colon : Bytes → Bool
contains_colon = any (λ b. b == b':')

unfoldable pub with_port : Bytes → Bytes
with_port address = if contains_colon address then address else address ++ dns_port

-- A line of a list that is neither empty nor a comment.
unfoldable pub classify_line : Bytes → Bool → Bool → Option Bytes
unfolding is_https with_port before_any parse_ipv4
classify_line line keep_ipv4 keep_doh =
    if is_https line
    then if keep_doh then some line else none
    else if is_some (parse_ipv4 (before_any (λ b. b == b':') line)) && keep_ipv4
    then some (with_port line)
    else none

abbrev pub starts_comment : Bytes → Bool
starts_comment [] = true
starts_comment (b ∷ _) = b == b'#'

abbrev pub pushed : Option Bytes → List Bytes → List Bytes
pushed none rest = rest
pushed (some entry) rest = entry ∷ rest

abbrev listed : Bytes → Bool → Bool → List Bytes → List Bytes
listed line keep_ipv4 keep_doh rest =
    if starts_comment line then rest else pushed (classify_line line keep_ipv4 keep_doh) rest

unfoldable pub entries_of : List Bytes → Bool → Bool → List Bytes
unfolding classify_line trim
entries_of [] keep_ipv4 keep_doh = []
entries_of (line ∷ rest) keep_ipv4 keep_doh =
    listed (trim line) keep_ipv4 keep_doh (entries_of rest keep_ipv4 keep_doh)

unfoldable pub parse_resolver_list : Bytes → Bool → Bool → List Bytes
unfolding entries_of lines
parse_resolver_list body keep_ipv4 keep_doh = entries_of (lines body) keep_ipv4 keep_doh

unfoldable pub normalize_resolver : Bytes → Bytes
unfolding is_https starts_with with_port
normalize_resolver resolver =
    if is_https resolver || starts_with resolver http then resolver else with_port resolver

-- The resolvers of the fetched lists that may be used and have not failed, each once.
unfoldable pub fetched_candidates : Bool → FailedResolverSet → List Bytes → List Bytes → List Bytes
unfolding is_secure_resolver is_failed_resolver has
fetched_candidates secure_only failed [] found = found
fetched_candidates secure_only failed (resolver ∷ rest) found =
    fetched_candidates secure_only failed rest (
      if (not secure_only || is_secure_resolver resolver)
        && not (is_failed_resolver failed resolver)
      then inserted found resolver
      else found)

-- `candidates.remove(..)` for each resolver that is known.
unfoldable pub without_known : List Resolver → List Bytes → List Bytes
unfolding eq_bytes
without_known known [] = []
without_known known (resolver ∷ rest) =
    let later = without_known known rest in
    if any (λ r. eq_bytes r.0 resolver) known then later else resolver ∷ later

-- The probes in the order in which they end: each failure is recorded.
unfoldable pub record_failures : FailedResolverSet → List (Bytes × Option ℕ) → ℕ → FailedResolverSet
unfolding record_failed_resolver
record_failures failed [] now = failed
record_failures failed ((resolver, some delay) ∷ rest) now = record_failures failed rest now
record_failures failed ((resolver, none) ∷ rest) now =
    record_failures (record_failed_resolver failed resolver now) rest now

-- What a cycle works on: the resolvers of the pickers and the set of those that failed.
pub record Found : Type 0 where
  pub healthy : List Resolver
  pub failed : FailedResolverSet

abbrev pub max_healthy_resolvers : ℕ
max_healthy_resolvers = 256

module _ (sorting : Sort Resolver) (order_of_ends : List Bytes → List Bytes)
    (measure_latency : Bytes → Option ℕ) where
  abbrev pub probed : List Bytes → List (Bytes × Option ℕ)
  probed [] = []
  probed (resolver ∷ rest) = (resolver, measure_latency resolver) ∷ probed rest

  abbrev pub merged : List Resolver → List Resolver → List Resolver
  merged healthy [] = healthy
  merged healthy (r ∷ rs) =
      merge_discovered_into_healthy sorting healthy (sorting.sort by_latency (r ∷ rs))
        max_healthy_resolvers

  abbrev pub tested : Found → List (Bytes × Option ℕ) → ℕ → Found
  tested found probes now = record {
    healthy = merged found.healthy (responding sorting probes);
    failed = record_failures found.failed probes now;
  }

  -- The loop's body behind the flag: with no candidates, or none that answers, the list stays.
  unfoldable pub search_cycle : Bool → Found → List Bytes → ℕ → Found
  unfolding fetched_candidates without_known record_failures merge_discovered_into_healthy
  search_cycle secure_only found fetched now =
      let candidates =
        without_known found.healthy (fetched_candidates secure_only found.failed fetched []) in
      tested found (probed (order_of_ends candidates)) now
