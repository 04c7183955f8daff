-- ===== src/Resolver/Picker/Merge.antt =====
-- What merge_discovered_into_healthy keeps.
use dns_relay.Prelude.{
  ℕ, zero, suc, ◌≤◌, ◌≡◌, refl, sym, ap, ◌∙◌, subst, Bool, true, false, List, [], ◌∷◌, ◌++◌, leb→le,
  leb_total, length, take, length-take, All, ◌⊎◌, inl, inr, Bool-cases, arith,
}
use dns_relay.Prelude.Slices.{Bytes}
use dns_relay.Cache.Lru.{Has}
use dns_relay.Dns.Text.Affix.{eq_bytes, eq_bytes→eq}
use dns_relay.Dns.Text.Spaces.{has}
use dns_relay.Resolver.Picker.{Resolver, by_latency, retain_new, merge_discovered_into_healthy}
use dns_relay.Resolver.Picker.Sorting.{Sort, SortLaws, IsSorted, IsOrder}

pub by_latency-IsOrder : IsOrder by_latency
by_latency-IsOrder = record {
  total = λ x y. leb_total x.1 y.1;
  trans = λ x y z f g. ground (arith, f, g);
}

module _ {A : Type 0} where
  pub All-Has : (P : A → Type 0) (xs : List A) (x : A) → All P xs → Has x xs → P x
  All-Has P [] x h m = absurd m
  All-Has P (y ∷ ys) x (first, rest) (inl e) = subst P (sym e) first
  All-Has P (y ∷ ys) x (first, rest) (inr m) = All-Has P ys x rest m

  pub Has-All : (P : A → Type 0) (xs : List A) → ((x : A) → Has x xs → P x) → All P xs
  Has-All P [] h = tt
  Has-All P (x ∷ xs) h = (h x (inl refl), Has-All P xs (λ y m. h y (inr m)))

  pub Has-take : (n : ℕ) (xs : List A) (x : A) → Has x (take n xs) → Has x xs
  Has-take zero xs x m = absurd m
  Has-take (suc n) [] x m = m
  Has-take (suc n) (y ∷ ys) x (inl e) = inl e
  Has-take (suc n) (y ∷ ys) x (inr m) = inr (Has-take n ys x m)

  module _ (le : A → A → Bool) where
    pub IsSorted-take : (n : ℕ) (xs : List A) → IsSorted le xs → IsSorted le (take n xs)
    IsSorted-take zero xs s = tt
    IsSorted-take (suc n) [] s = tt
    IsSorted-take (suc n) (x ∷ xs) (below, s) = (
      Has-All (λ y. le x y ≡ true) (take n xs)
          (λ y m. All-Has (λ z. le x z ≡ true) xs y below (Has-take n xs y m)),
      IsSorted-take n xs s,
    )

    -- An element of a sorted list is among the first ones, or is not below any of them.
    pub take-cases :
        (n : ℕ) (xs : List A) (x : A)
        → IsSorted le xs
        → Has x xs
        → Has x (take n xs) ⊎ All (λ y. le y x ≡ true) (take n xs)
    take-cases zero xs x s m = inr tt
    take-cases (suc n) [] x s m = absurd m
    take-cases (suc n) (y ∷ ys) x s (inl e) = inl (inl e)
    take-cases (suc n) (y ∷ ys) x (below, s) (inr m) = elim (take-cases n ys x s m) [
      | inl kept ↦ inl (inr kept)
      | inr above ↦ inr (All-Has (λ z. le y z ≡ true) ys x below m, above)
    ]

-- No two resolvers of one address.
abbrev pub Distinct : List Resolver → Type 0
Distinct [] = Unit
Distinct (r ∷ rs) = All (λ q. eq_bytes r.0 q.0 ≡ false) rs × Distinct rs

Has-retain_new :
    (seen : List Bytes) (rs : List Resolver) (x : Resolver) → Has x (retain_new seen rs) → Has x rs
Has-retain_new seen [] x m = m
Has-retain_new seen (r ∷ rs) x m = elim (Bool-cases (has seen r.0)) [
  | inl e ↦ inr (Has-retain_new seen rs x (rw e at m))
  | inr e ↦ elim (rw e at m) [
    | inl same ↦ inl same
    | inr later ↦ inr (Has-retain_new (r.0 ∷ seen) rs x later)
  ]
]

has-split :
    (seen : List Bytes) (a b : Bytes)
    → has (a ∷ seen) b ≡ false
    → (eq_bytes a b ≡ false) × (has seen b ≡ false)
unfolding has
has-split seen a b h = elim (Bool-cases (eq_bytes a b)) [
  | inl e ↦ (let refuted = rw e at h in cc)
  | inr e ↦ (e, rw e at h)
]

-- What is kept was not seen.
unseen-retain_new :
    (seen : List Bytes) (rs : List Resolver) → All (λ q. has seen q.0 ≡ false) (retain_new seen rs)
unseen-retain_new seen [] = tt
unseen-retain_new seen (r ∷ rs) = elim (Bool-cases (has seen r.0)) [
  | inl e ↦ rw e (unseen-retain_new seen rs)
  | inr e ↦
      let later = retain_new (r.0 ∷ seen) rs in
      rw e (
        e,
        Has-All (λ q. has seen q.0 ≡ false) later
            (λ q m.
              (has-split seen r.0 q.0 (
                All-Has (λ p. has (r.0 ∷ seen) p.0 ≡ false) later q
                  (unseen-retain_new (r.0 ∷ seen) rs) m)).1),
      )
]

Distinct-retain_new : (seen : List Bytes) (rs : List Resolver) → Distinct (retain_new seen rs)
Distinct-retain_new seen [] = tt
Distinct-retain_new seen (r ∷ rs) = elim (Bool-cases (has seen r.0)) [
  | inl e ↦ rw e (Distinct-retain_new seen rs)
  | inr e ↦
      let later = retain_new (r.0 ∷ seen) rs in
      rw e (
        Has-All (λ q. eq_bytes r.0 q.0 ≡ false) later
            (λ q m.
              (has-split seen r.0 q.0 (
                All-Has (λ p. has (r.0 ∷ seen) p.0 ≡ false) later q
                  (unseen-retain_new (r.0 ∷ seen) rs) m)).0),
        Distinct-retain_new (r.0 ∷ seen) rs,
      )
]

IsSorted-retain_new :
    (seen : List Bytes) (rs : List Resolver)
    → IsSorted by_latency rs
    → IsSorted by_latency (retain_new seen rs)
IsSorted-retain_new seen [] s = tt
IsSorted-retain_new seen (r ∷ rs) (below, s) = elim (Bool-cases (has seen r.0)) [
  | inl e ↦ rw e (IsSorted-retain_new seen rs s)
  | inr e ↦
      let later = retain_new (r.0 ∷ seen) rs in
      rw e (
        Has-All (λ q. by_latency r q ≡ true) later
            (λ q m.
              All-Has (λ p. by_latency r p ≡ true) rs q below (Has-retain_new (r.0 ∷ seen) rs q m)),
        IsSorted-retain_new (r.0 ∷ seen) rs s,
      )
]

-- A resolver of the same address that is not slower.
pub record Supersedes (kept : List Resolver) (x : Resolver) : Type 0 where
  pub best : Resolver
  pub kept_there : Has best kept
  pub same_address : best.0 ≡ x.0
  pub not_slower : best.1 ≤ x.1

later_too : (r x : Resolver) (rs : List Resolver) → Supersedes rs x → Supersedes (r ∷ rs) x
later_too r x rs s = record {
  best = s.best;
  kept_there = inr s.kept_there;
  same_address = s.same_address;
  not_slower = s.not_slower;
}

superseded :
    (seen : List Bytes) (rs : List Resolver) (x : Resolver)
    → IsSorted by_latency rs
    → Has x rs
    → (has seen x.0 ≡ true) ⊎ Supersedes (retain_new seen rs) x
unfolding has
superseded seen [] x s m = absurd m
superseded seen (r ∷ rs) x (below, s) (inl here) = elim (Bool-cases (has seen r.0)) [
  | inl e ↦ inl (ap (λ q. has seen q.0) here ∙ e)
  | inr e ↦ inr (
      rw e (record {
        best = r;
        kept_there = inl refl;
        same_address = ap (λ q. q.0) (sym here);
        not_slower = omega (arith, ap (λ q. q.1) here);
      }))
]
superseded seen (r ∷ rs) x (below, s) (inr m) = elim (Bool-cases (has seen r.0)) [
  | inl e ↦ rw e (superseded seen rs x s m)
  | inr e ↦ rw e (elim (superseded (r.0 ∷ seen) rs x s m) [
    | inr found ↦ inr (later_too r x (retain_new (r.0 ∷ seen) rs) found)
    | inl known ↦ elim (Bool-cases (eq_bytes r.0 x.0)) [
      | inl f ↦ inr (record {
        best = r;
        kept_there = inl refl;
        same_address = eq_bytes→eq r.0 x.0 f;
        not_slower = leb→le r.1 x.1 (All-Has (λ p. by_latency r p ≡ true) rs x below m);
      })
      | inr f ↦ inl (rw f at known)
    ]
  ])
]

-- The list that a merge makes of some resolvers.
pub record IsMerged (all out : List Resolver) (max_len : ℕ) : Type 0 where
  pub bounded : length out ≤ max_len
  pub fastest_first : IsSorted by_latency out
  pub distinct : Distinct out
  pub known : (x : Resolver) → Has x out → Has x all
  pub best : (x : Resolver) → Has x all → Supersedes out x ⊎ All (λ y. y.1 ≤ x.1) out

module _ (sorting : Sort Resolver) (laws : SortLaws sorting) where
  Distinct-take : (n : ℕ) (rs : List Resolver) → Distinct rs → Distinct (take n rs)
  Distinct-take zero rs d = tt
  Distinct-take (suc n) [] d = tt
  Distinct-take (suc n) (r ∷ rs) (other, d) = (
    Has-All (λ q. eq_bytes r.0 q.0 ≡ false) (take n rs)
        (λ q m. All-Has (λ p. eq_bytes r.0 p.0 ≡ false) rs q other (Has-take n rs q m)),
    Distinct-take n rs d,
  )

  kept_or_slower :
      (n : ℕ) (rs : List Resolver) (x : Resolver)
      → IsSorted by_latency rs
      → Supersedes rs x
      → Supersedes (take n rs) x ⊎ All (λ y. y.1 ≤ x.1) (take n rs)
  kept_or_slower n rs x s found = elim (take-cases by_latency n rs found.best s found.kept_there) [
    | inl kept ↦ inl (record {
      best = found.best;
      kept_there = kept;
      same_address = found.same_address;
      not_slower = found.not_slower;
    })
    | inr above ↦ inr (
        Has-All (λ y. y.1 ≤ x.1) (take n rs)
          (λ y m. omega (
            arith,
            found.not_slower,
            leb→le y.1 found.best.1
                (All-Has (λ z. by_latency z found.best ≡ true) (take n rs) y above m),
          )))
  ]

  never_seen :
      (x : Resolver) (rs : List Resolver) → (has [] x.0 ≡ true) ⊎ Supersedes rs x → Supersedes rs x
  unfolding has
  never_seen x rs (inl h) = cc
  never_seen x rs (inr s) = s

  -- The merge of the resolvers found into the healthy ones keeps at most max_len of them, each address
  -- once, the fastest first; each of those kept was in one of the two lists. A resolver of the two
  -- lists is kept with its least delay, or none of those kept is slower than it.
  pub merge_discovered_into_healthy-IsMerged :
      (healthy discovered : List Resolver) (max_len : ℕ)
      → IsMerged
          (healthy ++ discovered)
          (merge_discovered_into_healthy sorting healthy discovered max_len)
          max_len
  unfolding merge_discovered_into_healthy
  merge_discovered_into_healthy-IsMerged healthy discovered max_len =
      let all = healthy ++ discovered in
      let sorted = sorting.sort by_latency all in
      let kept = retain_new [] sorted in
      let in_order = laws.sorted by_latency all by_latency-IsOrder in
      let kept_in_order = IsSorted-retain_new [] sorted in_order in
      record {
        bounded = omega (arith, length-take max_len kept);
        fastest_first = IsSorted-take by_latency max_len kept kept_in_order;
        distinct = Distinct-take max_len kept (Distinct-retain_new [] sorted);
        known = λ x m.
            (laws.has-sort by_latency all x).0
              (Has-retain_new [] sorted x (Has-take max_len kept x m));
        best = λ x m. kept_or_slower max_len kept x kept_in_order (
            never_seen x kept
              (superseded [] sorted x in_order ((laws.has-sort by_latency all x).1 m)));
      }
