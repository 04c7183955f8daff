-- ===== src/Resolver/Failed/Bounded.antt =====
-- The set of failed resolvers over time.
use dns_relay.Prelude.{
  ℕ, ◌≤◌, ◌≡◌, refl, subst, true, false, ◌&&◌, ◌||◌, not, List, [], leb, if◌then◌else◌, length,
  Bool-cases, inl, inr, arith,
}
use dns_relay.Prelude.Slices.{Bytes}
use dns_relay.Dns.Text.Affix.{eq_bytes, eq_bytes→eq}
use dns_relay.Dns.Text.Spaces.{has}
use dns_relay.Resolver.Failed.{
  FailedResolverSet, failed_resolver_cap, is_failed_resolver, is_due, inserted,
  record_failed_resolver,
}

has-inserted :
    (set : List Bytes) (r q : Bytes) → has (inserted set r) q ≡ (eq_bytes r q || has set q)
unfolding has
has-inserted set r q = elim (Bool-cases (has set r)) [
  | inl e ↦ rw e (elim (Bool-cases (eq_bytes r q)) [
    | inl f ↦ rw f (subst (λ b. has set b ≡ true) (eq_bytes→eq r q f) e)
    | inr f ↦ rw f refl
  ])
  | inr e ↦ rw e refl
]

-- What the set says of a resolver after a failure: within the window of an hour it is the resolver
-- that failed, unless the set was full, or one that the set had; at the first failure after the window
-- it is the resolver that failed alone.
pub is_failed_resolver-record_failed_resolver :
    (failed : FailedResolverSet) (r q : Bytes) (now : ℕ)
    → is_failed_resolver (record_failed_resolver failed r now) q ≡ (
        if is_due failed now
        then eq_bytes r q
        else (not (leb failed_resolver_cap (length failed.set)) && eq_bytes r q)
          || is_failed_resolver failed q)
unfolding is_failed_resolver record_failed_resolver
is_failed_resolver-record_failed_resolver failed r q now = elim (Bool-cases (is_due failed now)) [
  | inl due ↦ rw due (elim (Bool-cases (eq_bytes r q)) [ inl f ↦ rw f refl | inr f ↦ rw f refl ])
  | inr early ↦ rw early (elim (Bool-cases (leb failed_resolver_cap (length failed.set))) [
    | inl full ↦ rw full refl
    | inr room ↦ rw (room, has-inserted failed.set r q) refl
  ])
]

inserted-bounded :
    (set : List Bytes) (r : Bytes)
    → leb failed_resolver_cap (length set) ≡ false
    → length (inserted set r) ≤ failed_resolver_cap
unfolding has
inserted-bounded set r room = elim (Bool-cases (has set r)) [
  | inl e ↦ rw e (ground (arith, room))
  | inr e ↦ rw e (ground (arith, room))
]

-- The set never has more than 4096 resolvers.
pub record_failed_resolver-bounded :
    (failed : FailedResolverSet) (r : Bytes) (now : ℕ)
    → length failed.set ≤ failed_resolver_cap
    → length (record_failed_resolver failed r now).set ≤ failed_resolver_cap
unfolding record_failed_resolver
record_failed_resolver-bounded failed r now small = elim (Bool-cases (is_due failed now)) [
  | inl due ↦ rw due (inserted-bounded [] r refl)
  | inr early ↦ rw early (elim (Bool-cases (leb failed_resolver_cap (length failed.set))) [
    | inl full ↦ rw full small
    | inr room ↦ rw room (inserted-bounded failed.set r room)
  ])
]
