-- ===== src/Resolver/Picker/Choice.antt =====
-- Which resolvers a query may go to.
use dns_relay.Prelude.{
  ℕ, min, ◌≤◌, ◌≡◌, refl, sym, ap, ◌∙◌, Bool, true, false, not, ◌&&◌, ◌||◌, List, [], ◌∷◌, leb,
  leb_total, if◌then◌else◌, length, take, length-take, All, ◌⊎◌, ◌↔◌, inl, inr, Bool-cases, arith,
}
use dns_relay.Cache.Lru.{Has}
use dns_relay.Resolver.Picker.{
  Resolver, ResolverPicker, is_secure_resolver, is_https, by_latency, by_doh, retain, candidates,
}
use dns_relay.Prelude.Slices.{Bytes}
use dns_relay.Config.Schemes.{
  StartsWith, https_scheme, is_https-StartsWith, IsSecureAddress,
  is_secure_resolver-IsSecureAddress,
}
use dns_relay.Resolver.Picker.Sorting.{Sort, SortLaws, IsSorted, IsOrder}
use dns_relay.Resolver.Picker.Merge.{by_latency-IsOrder, Has-take, IsSorted-take, take-cases}

-- `(a, m) <= (b, n)` for flags that put `true` first.
abbrev flag_le : Bool → ℕ → Bool → ℕ → Bool
flag_le a m b n = if a then not b || leb m n else not b && leb m n

flag_le_total : (a b : Bool) (m n : ℕ) → (flag_le a m b n ≡ true) ⊎ (flag_le b n a m ≡ true)
flag_le_total true true m n = leb_total m n
flag_le_total true false m n = inl refl
flag_le_total false true m n = inr refl
flag_le_total false false m n = leb_total m n

flag_le_trans :
    (a b c : Bool) (m n k : ℕ)
    → flag_le a m b n ≡ true
    → flag_le b n c k ≡ true
    → flag_le a m c k ≡ true
flag_le_trans a b c m n k f g = ground (arith, f, g)

by_doh-IsOrder : IsOrder by_doh
by_doh-IsOrder = record {
  total = λ x y. flag_le_total (is_https x.0) (is_https y.0) x.1 y.1;
  trans = λ x y z f g. flag_le_trans (is_https x.0) (is_https y.0) (is_https z.0) x.1 y.1 z.1 f g;
}

abbrev pub order : Bool → Resolver → Resolver → Bool
order prefer_doh = if prefer_doh then by_doh else by_latency

order-IsOrder : (prefer_doh : Bool) → IsOrder (order prefer_doh)
order-IsOrder true = by_doh-IsOrder
order-IsOrder false = by_latency-IsOrder

abbrev pub OverHttps : Bytes → Type 0
OverHttps address = StartsWith https_scheme address

-- One resolver is as good as another: with prefer_doh an https:// one before one that is not, and between
-- two of one kind, as without prefer_doh, the one with no larger delay.
abbrev pub AsGood : Bool → Resolver → Resolver → Type 0
AsGood true (a, m) (b, n) =
    (OverHttps a × (OverHttps b → ⊥)) ⊎ ((OverHttps a ↔ OverHttps b) × (m ≤ n))
AsGood false (a, m) (b, n) = m ≤ n

flags_good :
    (a b : Bool) (m n : ℕ)
    → flag_le a m b n ≡ true
    → ((a ≡ true) × (b ≡ false)) ⊎ ((a ≡ b) × (m ≤ n))
flags_good true true m n h = inr (refl, ground (arith, h))
flags_good true false m n h = inl (refl, refl)
flags_good false true m n h = cc
flags_good false false m n h = inr (refl, ground (arith, h))

order-AsGood :
    (prefer_doh : Bool) (x y : Resolver) → order prefer_doh x y ≡ true → AsGood prefer_doh x y
order-AsGood true (a, m) (b, n) h =
    let (of_a, to_a) = is_https-StartsWith a in
    let (of_b, to_b) = is_https-StartsWith b in
    elim (flags_good (is_https a) (is_https b) m n h) [
      | inl (over, other) ↦
          inl (of_a over, λ scheme. (let refuted = sym (to_b scheme) ∙ other in cc))
      | inr (same, le) ↦
          inr
            (((λ scheme. of_b (sym same ∙ to_a scheme)), (λ scheme. of_a (same ∙ to_b scheme))), le)
    ]
order-AsGood false (a, m) (b, n) h = ground (arith, h)

-- No element before a better one.
abbrev pub BestFirst : Bool → List Resolver → Type 0
BestFirst prefer_doh [] = Unit
BestFirst prefer_doh (x ∷ xs) = All (AsGood prefer_doh x) xs × BestFirst prefer_doh xs

All-AsGood :
    (prefer_doh : Bool) (x : Resolver) (ys : List Resolver)
    → All (λ y. order prefer_doh x y ≡ true) ys
    → All (AsGood prefer_doh x) ys
All-AsGood prefer_doh x [] h = tt
All-AsGood prefer_doh x (y ∷ ys) (e, rest) =
    (order-AsGood prefer_doh x y e, All-AsGood prefer_doh x ys rest)

All-good_from :
    (prefer_doh : Bool) (x : Resolver) (ys : List Resolver)
    → All (λ y. order prefer_doh y x ≡ true) ys
    → All (λ y. AsGood prefer_doh y x) ys
All-good_from prefer_doh x [] h = tt
All-good_from prefer_doh x (y ∷ ys) (e, rest) =
    (order-AsGood prefer_doh y x e, All-good_from prefer_doh x ys rest)

IsSorted-BestFirst :
    (prefer_doh : Bool) (xs : List Resolver)
    → IsSorted (order prefer_doh) xs
    → BestFirst prefer_doh xs
IsSorted-BestFirst prefer_doh [] h = tt
IsSorted-BestFirst prefer_doh (x ∷ xs) (first, rest) =
    (All-AsGood prefer_doh x xs first, IsSorted-BestFirst prefer_doh xs rest)

module _ (test : Resolver → Bool) where
  Has-retain :
      (rs : List Resolver) (x : Resolver) → Has x (retain test rs) → Has x rs × (test x ≡ true)
  Has-retain [] x m = absurd m
  Has-retain (r ∷ rs) x m = elim (Bool-cases (test r)) [
    | inl e ↦ elim (rw e at m) [
      | inl same ↦ (inl same, ap test same ∙ e)
      | inr later ↦ let (there, tested) = Has-retain rs x later in (inr there, tested)
    ]
    | inr e ↦ let (there, tested) = Has-retain rs x (rw e at m) in (inr there, tested)
  ]

  retain-Has :
      (rs : List Resolver) (x : Resolver) → Has x rs → test x ≡ true → Has x (retain test rs)
  retain-Has [] x m e = absurd m
  retain-Has (r ∷ rs) x (inl same) e =
      let here : test r ≡ true = ap test (sym same) ∙ e in rw here (inl same)
  retain-Has (r ∷ rs) x (inr m) e = elim (Bool-cases (test r)) [
    | inl f ↦ rw f (inr (retain-Has rs x m e))
    | inr f ↦ rw f (retain-Has rs x m e)
  ]

-- The healthy resolvers that a picker may use.
abbrev pub eligible : ResolverPicker → List Resolver
eligible picker =
    if picker.secure_only
    then retain (λ r. is_secure_resolver r.0) picker.healthy_resolvers
    else picker.healthy_resolvers

pub record IsChoice (picker : ResolverPicker) (prefer_doh : Bool) (out : List Resolver)
    : Type 0 where
  pub best_first : BestFirst prefer_doh out
  pub healthy : (x : Resolver) → Has x out → Has x picker.healthy_resolvers
  pub allowed :
      (x : Resolver) → Has x out → (not picker.secure_only || is_secure_resolver x.0) ≡ true
  pub secure : picker.secure_only ≡ true → (x : Resolver) → Has x out → IsSecureAddress x.0
  pub best :
      (x : Resolver)
      → Has x picker.healthy_resolvers
      → (picker.secure_only ≡ true → IsSecureAddress x.0)
      → Has x out ⊎ All (λ y. AsGood prefer_doh y x) out
  pub number : length out ≡ min 2 (length (eligible picker))

eligible_by :
    (secure_only : Bool) (address : Bytes)
    → (secure_only ≡ true → IsSecureAddress address)
    → (not secure_only || is_secure_resolver address) ≡ true
eligible_by true address secure = (is_secure_resolver-IsSecureAddress address).1 (secure refl)
eligible_by false address secure = refl

Has-eligible :
    (secure_only : Bool) (rs : List Resolver) (x : Resolver)
    → Has x (if secure_only then retain (λ r. is_secure_resolver r.0) rs else rs)
      ↔ (Has x rs × ((not secure_only || is_secure_resolver x.0) ≡ true))
Has-eligible true rs x = (
  Has-retain (λ r. is_secure_resolver r.0) rs x,
  λ (m, e). retain-Has (λ r. is_secure_resolver r.0) rs x m e,
)
Has-eligible false rs x = (λ m. (m, refl), λ (m, e). m)

module _ (sorting : Sort Resolver) (laws : SortLaws sorting) where
  -- The candidates for a query are the two best of the healthy resolvers, the best first, or as many as
  -- there are; under secure_only of those over HTTPS or QUIC alone. Better is a smaller delay, and with
  -- prefer_doh first of all HTTPS: each one that is chosen is as good as those behind it and as every
  -- resolver that is left out.
  pub candidates-IsChoice :
      (picker : ResolverPicker) (prefer_doh : Bool)
      → IsChoice picker prefer_doh (candidates sorting picker prefer_doh)
  unfolding candidates
  candidates-IsChoice picker prefer_doh =
      let le = order prefer_doh in
      let pool = eligible picker in
      let sorted = sorting.sort le pool in
      let in_order = laws.sorted le pool (order-IsOrder prefer_doh) in
      let from_pool = λ (x : Resolver) (m : Has x (take 2 sorted)).
        (Has-eligible picker.secure_only picker.healthy_resolvers x).0
          ((laws.has-sort le pool x).0 (Has-take 2 sorted x m)) in
      record {
        best_first =
            IsSorted-BestFirst prefer_doh (take 2 sorted) (IsSorted-take le 2 sorted in_order);
        healthy = λ x m. (from_pool x m).0;
        allowed = λ x m. (from_pool x m).1;
        secure = λ only x m.
            (is_secure_resolver-IsSecureAddress x.0).0
              (ap (λ b. not b || is_secure_resolver x.0) (sym only) ∙ (from_pool x m).1);
        best = λ x m secure.
            let e = eligible_by picker.secure_only x.0 secure in
            elim (take-cases le 2 sorted x in_order (
              (laws.has-sort le pool x).1
                ((Has-eligible picker.secure_only picker.healthy_resolvers x).1 (m, e)))) [
                  | inl chosen ↦ inl chosen
                  | inr better ↦ inr (All-good_from prefer_doh x (take 2 sorted) better)
                ];
        number = length-take 2 sorted ∙ ap (min 2) (laws.length-sort le pool);
      }
