-- ===== src/Samples/Resolvers.antt =====
-- Resolvers, a race of two of them, and the UDP dispatcher, at concrete inputs.
use dns_relay.Prelude.{
  ℕ, ◌<◌, ◌≡◌, refl, true, false, Option, none, some, List, [], ◌∷◌, ◌++◌, ok, refuse, arith, All,
  Returns, ◌⊎◌, if◌then◌else◌, inl, inr,
}
use dns_relay.Prelude.Slices.{Bytes, u16_at, at}
use native.Mathlib.Decide.{ℕ_discrete}
use dns_relay.Cache.Lru.{Has}
use dns_relay.InFlight.{put}
use dns_relay.Dns.Text.{split_dots}
use dns_relay.Dns.Text.Affix.{eq_bytes, strip_prefix}
use dns_relay.Dns.Text.Spaces.{starts_with, has, lines, trim, chars, before_any}
use dns_relay.Dns.Ipv4.{parse_ipv4}
use dns_relay.Dns.Name.{skip_name}
use dns_relay.Dns.Records.{read_rr}
use dns_relay.Resolver.Dispatcher.{UdpDispatcher, register, dispatch_reply, received, free_id}
use dns_relay.Resolver.Dispatcher.Free.{register-IsFree}
use dns_relay.Resolver.Dispatcher.Invariant.{Asked, Reachable, IsDispatcher, Reachable-IsDispatcher}
use dns_relay.Resolver.Picker.{
  Resolver, ResolverPicker, candidates, merge_discovered_into_healthy, is_https, is_quic,
  is_secure_resolver,
}
use dns_relay.Resolver.Picker.Merge.{IsMerged, merge_discovered_into_healthy-IsMerged}
use dns_relay.Resolver.Picker.Choice.{IsChoice, candidates-IsChoice}
use dns_relay.Resolver.Failed.{FailedResolverSet, is_failed_resolver}
use dns_relay.Resolver.Race.{
  Event, primary_ends, secondary_ends, hedge_ends, finished, resolve_packet_for_subnet, race, step,
  resolve_candidate, is_usable_response, started_with,
}
use dns_relay.Resolver.Race.Answers.{resolve_packet_for_subnet-Won}
use dns_relay.Resolver.Race.Flags.{IsUsable}
use dns_relay.Prelude.Writes.{IsBytes-of_all}
use dns_relay.Resolver.Race.Failures.{Reason, resolve_packet_for_subnet-Reason}
use dns_relay.Resolver.Discovery.{
  Found, search_cycle, parse_resolver_list, fetched_candidates, without_known, record_failures,
}
use dns_relay.Resolver.Discovery.Entries.{IsEntry, parse_resolver_list-IsEntry}
use dns_relay.Resolver.Discovery.Cycle.{IsCandidate, search_cycle-IsCandidate}
use dns_relay.Resolver.Upstream.{over_https, over_quic, route_of}
use dns_relay.Resolver.Upstream.Secure.{candidates-secure}
use dns_relay.Samples.Insertion.{by_insertion, by_insertion-SortLaws}
use dns_relay.Samples.Wire.{reply}

-- The dispatcher, with numbers for addresses.
abbrev idle : UdpDispatcher ℕ_discrete
idle = record { pending = λ id. none; next_id = 65535; sent = λ request. none; requests = 0 }

register-IsFree_example :
    Returns
      (λ out.
        (out.0 < 65536)
        × (idle.pending out.0 ≡ none)
        × (out.1.next_id < 65536)
        × (out.1.pending out.0 ≡ some (record { upstream = 8; reply = 0 })))
      (register ℕ_discrete idle 8)
register-IsFree_example = register-IsFree ℕ_discrete idle 8 3 (omega arith) (omega arith) refl

abbrev asking : UdpDispatcher ℕ_discrete
asking = record {
  pending = put ℕ_discrete idle.pending 65535 (some (record { upstream = 8; reply = 0 }));
  next_id = 0;
  sent = λ request. none;
  requests = 1;
}

ask_run : register ℕ_discrete idle 8 ≡ ok (65535, asking)
unfolding register free_id
ask_run = refl

abbrev asked : Asked ℕ_discrete
asked = put ℕ_discrete (λ request. none) 0 (some (65535, 8))

abbrev heard : UdpDispatcher ℕ_discrete
heard = dispatch_reply ℕ_discrete asking (255 ∷ 255 ∷ []) 8

Reachable-IsDispatcher_example : IsDispatcher ℕ_discrete heard asked
Reachable-IsDispatcher_example = Reachable-IsDispatcher ℕ_discrete heard asked (
    Reachable.hears (255 ∷ 255 ∷ []) 8 (Reachable.asks 65535 8 (Reachable.started 65535) ask_run)
      refl)

stray_run : received ℕ_discrete (dispatch_reply ℕ_discrete asking (255 ∷ 255 ∷ []) 9) 0 ≡ none
unfolding dispatch_reply ℕ_discrete
stray_run = refl

heard_run : received ℕ_discrete heard 0 ≡ some (255 ∷ 255 ∷ [])
unfolding dispatch_reply ℕ_discrete
heard_run = refl

-- Resolvers.
abbrev doh : Resolver
doh = ((b'h' ∷ b't' ∷ b't' ∷ b'p' ∷ b's' ∷ b':' ∷ b'/' ∷ b'/' ∷ b'd' ∷ []), 20)

abbrev doq : Resolver
doq = ((b'q' ∷ b'u' ∷ b'i' ∷ b'c' ∷ b':' ∷ b'/' ∷ b'/' ∷ b'q' ∷ []), 30)

abbrev udp : Resolver
udp = ((b'1' ∷ b'.' ∷ b'1' ∷ b'.' ∷ b'1' ∷ b'.' ∷ b'1' ∷ b':' ∷ b'5' ∷ b'3' ∷ []), 1)

abbrev picker : ResolverPicker
picker = record { healthy_resolvers = udp ∷ doq ∷ doh ∷ []; secure_only = true }

candidates_run : candidates by_insertion picker false ≡ doh ∷ doq ∷ []
unfolding candidates is_secure_resolver is_https is_quic starts_with strip_prefix
candidates_run = refl

candidates-IsChoice_example : IsChoice picker true (candidates by_insertion picker true)
candidates-IsChoice_example = candidates-IsChoice by_insertion by_insertion-SortLaws picker true

doh_there : Has doh (candidates by_insertion picker false)
unfolding candidates is_secure_resolver is_https is_quic starts_with strip_prefix
doh_there = inl refl

candidates-secure_example : (route_of doh.0 true ≡ over_https) ⊎ (route_of doh.0 true ≡ over_quic)
candidates-secure_example =
    candidates-secure by_insertion by_insertion-SortLaws picker false true doh refl doh_there

merge_run :
    merge_discovered_into_healthy by_insertion
      (udp ∷ doh ∷ [])
      ((udp.0, 50) ∷ (doh.0, 5) ∷ doq ∷ [])
      2
    ≡ udp ∷ (doh.0, 5) ∷ []
unfolding merge_discovered_into_healthy has eq_bytes
merge_run = refl

merge_discovered_into_healthy-IsMerged_example :
    IsMerged
      (udp ∷ doh ∷ doq ∷ [])
      (merge_discovered_into_healthy by_insertion (udp ∷ doh ∷ []) (doq ∷ []) 2)
      2
merge_discovered_into_healthy-IsMerged_example =
    merge_discovered_into_healthy-IsMerged by_insertion by_insertion-SortLaws (udp ∷ doh ∷ [])
      (doq ∷ []) 2

abbrev none_failed : FailedResolverSet
none_failed = record { set = []; flushed_at = 0 }

-- The primary fails, then the secondary answers.
abbrev saved : List Event
saved = hedge_ends ∷ primary_ends none ∷ secondary_ends (some reply) ∷ []

saved_run : resolve_packet_for_subnet by_insertion picker false saved ≡ finished (ok reply)
unfolding resolve_packet_for_subnet candidates is_secure_resolver is_https is_quic starts_with
    strip_prefix race step resolve_candidate is_usable_response u16_at at skip_name read_rr
saved_run = refl

resolve_packet_for_subnet-Won_example :
    IsUsable reply true
    × (Has (primary_ends (some reply)) saved ⊎ Has (secondary_ends (some reply)) saved)
resolve_packet_for_subnet-Won_example =
    resolve_packet_for_subnet-Won by_insertion picker false saved reply (IsBytes-of_all reply refl)
      saved_run

abbrev lost : List Event
lost = primary_ends none ∷ secondary_ends (some []) ∷ []

lost_run : resolve_packet_for_subnet by_insertion picker false lost ≡ finished refuse
unfolding resolve_packet_for_subnet candidates is_secure_resolver is_https is_quic starts_with
    strip_prefix race step resolve_candidate is_usable_response
lost_run = refl

resolve_packet_for_subnet-Reason_example :
    Reason true (started_with (candidates by_insertion picker false)) lost
resolve_packet_for_subnet-Reason_example =
    resolve_packet_for_subnet-Reason by_insertion picker false lost lost_run

-- A source with two resolvers, of which one answers.
abbrev source : Bytes
source =
    (b'#' ∷ b' ' ∷ b'l' ∷ b'i' ∷ b's' ∷ b't' ∷ [])
    ++ (10 ∷ [])
    ++ (b'8' ∷ b'.' ∷ b'8' ∷ b'.' ∷ b'8' ∷ b'.' ∷ b'8' ∷ b' ' ∷ [])
    ++ (13 ∷ 10 ∷ [])
    ++ (b'h' ∷ b't' ∷ b't' ∷ b'p' ∷ b's' ∷ b':' ∷ b'/' ∷ b'/' ∷ b'd' ∷ [])
    ++ (10 ∷ [])
    ++ (b':' ∷ b':' ∷ b'1' ∷ [])

list_run :
    parse_resolver_list source true true
    ≡ (b'8' ∷ b'.' ∷ b'8' ∷ b'.' ∷ b'8' ∷ b'.' ∷ b'8' ∷ b':' ∷ b'5' ∷ b'3' ∷ [])
      ∷ (b'h' ∷ b't' ∷ b't' ∷ b'p' ∷ b's' ∷ b':' ∷ b'/' ∷ b'/' ∷ b'd' ∷ [])
      ∷ []
unfolding parse_resolver_list lines trim chars is_https starts_with strip_prefix before_any
    parse_ipv4 split_dots
list_run = refl

parse_resolver_list-IsEntry_example :
    All (IsEntry true false) (parse_resolver_list source true false)
parse_resolver_list-IsEntry_example = parse_resolver_list-IsEntry source true false

abbrev measured : Bytes → Option ℕ
measured resolver =
    if eq_bytes resolver (b'h' ∷ b't' ∷ b't' ∷ b'p' ∷ b's' ∷ b':' ∷ b'/' ∷ b'/' ∷ b'd' ∷ [])
    then some 20
    else none

abbrev before : Found
before = record { healthy = udp ∷ []; failed = none_failed }

abbrev fetched : List Bytes
fetched =
    (b'8' ∷ b'.' ∷ b'8' ∷ b'.' ∷ b'8' ∷ b'.' ∷ b'8' ∷ b':' ∷ b'5' ∷ b'3' ∷ [])
    ∷ (b'h' ∷ b't' ∷ b't' ∷ b'p' ∷ b's' ∷ b':' ∷ b'/' ∷ b'/' ∷ b'd' ∷ [])
    ∷ []

cycle_run :
    (search_cycle by_insertion (λ rs. rs) measured false before fetched 5).healthy ≡ udp ∷ doh ∷ []
unfolding search_cycle fetched_candidates without_known record_failures
    merge_discovered_into_healthy has eq_bytes is_failed_resolver is_secure_resolver is_https
    is_quic starts_with strip_prefix
cycle_run = refl

found_there : Has doh (search_cycle by_insertion (λ rs. rs) measured false before fetched 5).healthy
unfolding search_cycle fetched_candidates without_known record_failures
    merge_discovered_into_healthy has eq_bytes is_failed_resolver is_secure_resolver is_https
    is_quic starts_with strip_prefix
found_there = inr (inl refl)

search_cycle-IsCandidate_example :
    Has doh before.healthy
    ⊎ (IsCandidate false before.failed fetched doh.0 × (measured doh.0 ≡ some doh.1))
search_cycle-IsCandidate_example =
    search_cycle-IsCandidate by_insertion (λ rs. rs) measured by_insertion-SortLaws (λ xs x m. m)
      false before fetched 5 doh found_there
