-- ===== src/Resolver/Discovery/Cycle.antt =====
-- Which resolvers a cycle of the search adds.
use dns_relay.Prelude.{
  ℕ, ◌≡◌, refl, sym, ap, ◌∙◌, subst, Bool, true, false, not, ◌&&◌, ◌||◌, Option, none, some, List,
  [], ◌∷◌, ◌++◌, &&→both, ◌⊎◌, inl, inr, Bool-cases, any,
}
use dns_relay.Prelude.Slices.{Bytes}
use dns_relay.Cache.Lru.{Has}
use dns_relay.Dns.Text.Affix.{eq_bytes}
use dns_relay.Dns.Text.Spaces.{has}
use dns_relay.Resolver.Failed.{FailedResolverSet, is_failed_resolver, inserted}
use dns_relay.Resolver.Picker.{Resolver, is_secure_resolver, by_latency, responding}
use dns_relay.Resolver.Picker.Sorting.{Sort, SortLaws}
use dns_relay.Resolver.Picker.Merge.{merge_discovered_into_healthy-IsMerged}
use dns_relay.Resolver.Discovery.{
  Found, fetched_candidates, without_known, probed, merged, search_cycle, max_healthy_resolvers,
}

Has-append : {A : Type 0} (xs ys : List A) (x : A) → Has x (xs ++ ys) → Has x xs ⊎ Has x ys
Has-append [] ys x m = inr m
Has-append (y ∷ xs) ys x (inl e) = inl (inl e)
Has-append (y ∷ xs) ys x (inr m) = elim (Has-append xs ys x m) [
  | inl l ↦ inl (inr l)
  | inr r ↦ inr r
]

Has-inserted : (set : List Bytes) (r x : Bytes) → Has x (inserted set r) → (x ≡ r) ⊎ Has x set
unfolding has
Has-inserted set r x m = elim (Bool-cases (has set r)) [
  | inl e ↦ inr (rw e at m)
  | inr e ↦ rw e at m
]

module _ (secure_only : Bool) (failed : FailedResolverSet) where
  -- A resolver of a list that may be probed.
  abbrev pub IsCandidate : List Bytes → Bytes → Type 0
  IsCandidate fetched x =
      Has x fetched
      × ((not secure_only || is_secure_resolver x) ≡ true)
      × (is_failed_resolver failed x ≡ false)

  further :
      (r : Bytes) (fetched found : List Bytes) (x : Bytes)
      → Has x found ⊎ IsCandidate fetched x
      → Has x found ⊎ IsCandidate (r ∷ fetched) x
  further r fetched found x (inl m) = inl m
  further r fetched found x (inr (m, allowed, sound)) = inr (inr m, allowed, sound)

  fetched_candidates-IsCandidate :
      (fetched found : List Bytes) (x : Bytes)
      → Has x (fetched_candidates secure_only failed fetched found)
      → Has x found ⊎ IsCandidate fetched x
  unfolding fetched_candidates
  fetched_candidates-IsCandidate [] found x m = inl m
  fetched_candidates-IsCandidate (r ∷ fetched) found x m =
      elim (Bool-cases
        ((not secure_only || is_secure_resolver r) && not (is_failed_resolver failed r))) [
          | inr e ↦
              further r fetched found x (fetched_candidates-IsCandidate fetched found x (rw e at m))
          | inl e ↦ elim (fetched_candidates-IsCandidate fetched (inserted found r) x (rw e at m)) [
            | inr later ↦ further r fetched found x (inr later)
            | inl here ↦ elim (Has-inserted found r x here) [
              | inr old ↦ inl old
              | inl new ↦
                  let (allowed, sound) =
                    &&→both (not secure_only || is_secure_resolver r)
                      (not (is_failed_resolver failed r)) e in
                  inr (
                    inl new,
                    subst (λ y. (not secure_only || is_secure_resolver y) ≡ true) (sym new) allowed,
                    subst (λ y. is_failed_resolver failed y ≡ false) (sym new)
                        (not_true (is_failed_resolver failed r) sound),
                  )
            ]
          ]
        ]
    where
      not_true : (b : Bool) → not b ≡ true → b ≡ false
      not_true true e = cc
      not_true false e = refl

Has-without_known :
    (known : List Resolver) (rs : List Bytes) (x : Bytes)
    → Has x (without_known known rs)
    → Has x rs
unfolding without_known
Has-without_known known [] x m = m
Has-without_known known (r ∷ rs) x m = elim (Bool-cases (any (λ q. eq_bytes q.0 r) known)) [
  | inl e ↦ inr (Has-without_known known rs x (rw e at m))
  | inr e ↦ elim (rw e at m) [
    | inl same ↦ inl same
    | inr later ↦ inr (Has-without_known known rs x later)
  ]
]

module _ (sorting : Sort Resolver) (order_of_ends : List Bytes → List Bytes)
    (measure_latency : Bytes → Option ℕ) where
  Has-responding :
      (rs : List Bytes) (x : Resolver)
      → Has x (responding sorting (probed sorting order_of_ends measure_latency rs))
      → Has x.0 rs × (measure_latency x.0 ≡ some x.1)
  Has-responding [] x m = absurd m
  Has-responding (r ∷ rs) x m = on (measure_latency r) refl m (λ later. Has-responding rs x later)
    where
      on :
          (o : Option ℕ)
          → measure_latency r ≡ o
          → Has x (responding sorting ((r, o) ∷ probed sorting order_of_ends measure_latency rs))
          → (Has x (responding sorting (probed sorting order_of_ends measure_latency rs))
              → Has x.0 rs × (measure_latency x.0 ≡ some x.1))
          → Has x.0 (r ∷ rs) × (measure_latency x.0 ≡ some x.1)
      on none e m among = let (there, measured) = among m in (inr there, measured)
      on (some delay) e (inl same) among = (
        inl (ap (λ q. q.0) same),
        ap (λ q. measure_latency q.0) same ∙ e ∙ ap (λ q. some q.1) (sym same),
      )
      on (some delay) e (inr m) among = let (there, measured) = among m in (inr there, measured)

  module _ (laws : SortLaws sorting)
      (ends-Has : (xs : List Bytes) (x : Bytes) → Has x (order_of_ends xs) → Has x xs) where
    Has-merged :
        (healthy discovered : List Resolver) (x : Resolver)
        → Has x (merged sorting order_of_ends measure_latency healthy discovered)
        → Has x healthy ⊎ Has x discovered
    Has-merged healthy [] x m = inl m
    Has-merged healthy (r ∷ rs) x m =
        let sorted = sorting.sort by_latency (r ∷ rs) in
        let merge =
          merge_discovered_into_healthy-IsMerged sorting laws healthy sorted
            max_healthy_resolvers in
        elim (Has-append healthy sorted x (merge.known x m)) [
          | inl old ↦ inl old
          | inr new ↦ inr ((laws.has-sort by_latency (r ∷ rs) x).0 new)
        ]

    -- A resolver that is healthy after a cycle of the search was healthy before it, or stands in one of
    -- the fetched lists, was not known to fail, is over HTTPS or QUIC if only secure ones are wanted, and
    -- has answered the probe with the delay that is kept for it.
    pub search_cycle-IsCandidate :
        (secure_only : Bool) (found : Found) (fetched : List Bytes) (now : ℕ) (x : Resolver)
        → Has x
            (search_cycle sorting order_of_ends measure_latency secure_only found fetched
              now).healthy
        → Has x found.healthy
          ⊎ (IsCandidate secure_only found.failed fetched x.0 × (measure_latency x.0 ≡ some x.1))
    unfolding search_cycle
    search_cycle-IsCandidate secure_only found fetched now x m =
        let fresh = fetched_candidates secure_only found.failed fetched [] in
        let candidates = without_known found.healthy fresh in
        let discovered =
          responding sorting
            (probed sorting order_of_ends measure_latency (order_of_ends candidates)) in
        elim (Has-merged found.healthy discovered x m) [
          | inl old ↦ inl old
          | inr new ↦
              let (there, measured) = Has-responding (order_of_ends candidates) x new in
              elim (fetched_candidates-IsCandidate secure_only found.failed fetched [] x.0
                (Has-without_known found.healthy fresh x.0 (ends-Has candidates x.0 there))) [
                  | inl nothing ↦ absurd nothing
                  | inr candidate ↦ inr (candidate, measured)
                ]
        ]
