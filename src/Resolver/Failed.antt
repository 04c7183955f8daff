-- ===== src/Resolver/Failed.antt =====
-- The resolvers that failed a health check, in dns_relay/src/resolver.rs. A HashSet is a list without
-- repetitions; a time is a number of nanoseconds. A poisoned lock is not modelled.
pub mod Bounded
use dns_relay.Prelude.{ℕ, ◌-◌, ◌*◌, Bool, List, [], ◌∷◌, leb, if◌then◌else◌, length}
use dns_relay.Prelude.Slices.{Bytes}
use dns_relay.Dns.Text.Spaces.{has}

abbrev pub failed_resolver_cap : ℕ
failed_resolver_cap = 4096

abbrev pub failed_resolver_flush_interval : ℕ
failed_resolver_flush_interval = 3600 * 1000000000

pub record FailedResolverSet : Type 0 where
  pub set : List Bytes
  pub flushed_at : ℕ

unfoldable pub is_failed_resolver : FailedResolverSet → Bytes → Bool
unfolding has
is_failed_resolver failed resolver = has failed.set resolver

abbrev pub inserted : List Bytes → Bytes → List Bytes
inserted set resolver = if has set resolver then set else resolver ∷ set

abbrev pub is_due : FailedResolverSet → ℕ → Bool
is_due failed now = leb failed_resolver_flush_interval (now - failed.flushed_at)

abbrev flushed : FailedResolverSet → ℕ → FailedResolverSet
flushed failed now = if is_due failed now then record { set = []; flushed_at = now } else failed

abbrev capped : FailedResolverSet → Bytes → FailedResolverSet
capped failed resolver =
    if leb failed_resolver_cap (length failed.set)
    then failed
    else record failed { set = inserted failed.set resolver }

unfoldable pub record_failed_resolver : FailedResolverSet → Bytes → ℕ → FailedResolverSet
unfolding has
record_failed_resolver failed resolver now = capped (flushed failed now) resolver
