-- ===== src/Samples/Store.antt =====
-- A cache of bounded size in the order of use, with the laws of the interface: keys of the response
-- cache in a list, the last one used first.
use dns_relay.Prelude.{
  ℕ, zero, suc, ◌≡◌, ◌≢◌, refl, ap₂, ◌∙◌, sym, subst, Bool, true, false, ◌&&◌, not, Option, none,
  some, List, [], ◌∷◌, ◌==◌, ==→eq, ==_self, if◌then◌else◌, take, arith, Option-cases, Bool-cases,
  ◌⊎◌, inl, inr,
}
use dns_relay.Dns.Text.Affix.{eq_bytes, eq_bytes→eq, eq_bytes_self}
use dns_relay.Dns.Edns.{Ipv4Subnet}
use dns_relay.Cache.Lru.{Lru, LruLaws, Has}
use dns_relay.Cache.Key.{CacheKey}

-- A test for equality.
pub record Test (K : Type 0) : Type 0 where
  eq : K → K → Bool
  sound : (a b : K) → eq a b ≡ true → a ≡ b
  self : (a : K) → eq a a ≡ true

some_injective {ℓ} : {A : Type ℓ} {x y : A} → some x ≡ some y → x ≡ y
some_injective e = cc

module _ {K : Type 0} (t : Test K) where
  eq_other : (j k : K) → j ≢ k → t.eq j k ≡ false
  eq_other j k ne = elim (Bool-cases (t.eq j k)) [ inl e ↦ absurd (ne (t.sound j k e)) | inr e ↦ e ]

  ne_of : (j k : K) → t.eq j k ≡ false → j ≢ k
  ne_of j k e same = (let refuted = sym e ∙ subst (λ i. t.eq j i ≡ true) same (t.self j) in cc)

module _ {K V : Type 0} (t : Test K) where
  abbrev found : K → List (K × V) → Option V
  found k [] = none
  found k ((j, v) ∷ rest) = let later = found k rest in if t.eq j k then some v else later

  abbrev erase : K → List (K × V) → List (K × V)
  erase k [] = []
  erase k ((j, v) ∷ rest) = let later = erase k rest in if t.eq j k then later else (j, v) ∷ later

  abbrev to_front : K → Option V → List (K × V) → List (K × V)
  to_front k none s = s
  to_front k (some v) s = (k, v) ∷ erase k s

  found-erase_self : (s : List (K × V)) (k : K) → found k (erase k s) ≡ none
  found-erase_self [] k = refl
  found-erase_self ((j, v) ∷ rest) k = elim (Bool-cases (t.eq j k)) [
    | inl e ↦ rw e (found-erase_self rest k)
    | inr e ↦ rw (e, e) (found-erase_self rest k)
  ]

  found-erase_other : (s : List (K × V)) (k j : K) → j ≢ k → found j (erase k s) ≡ found j s
  found-erase_other [] k j ne = refl
  found-erase_other ((i, v) ∷ rest) k j ne = elim (Bool-cases (t.eq i k)) [
    | inl e ↦
        rw (e, eq_other t i j (λ same. ne (sym same ∙ t.sound i k e)))
          (found-erase_other rest k j ne)
    | inr e ↦ rw (e, found-erase_other rest k j ne) refl
  ]

  found-take :
      (n : ℕ) (s : List (K × V)) (k : K) (v : V) → found k (take n s) ≡ some v → found k s ≡ some v
  found-take zero s k v h = (let refuted = h in cc)
  found-take (suc n) [] k v h = h
  found-take (suc n) ((j, w) ∷ rest) k v h = elim (Bool-cases (t.eq j k)) [
    | inl e ↦ rw e (rw e at h)
    | inr e ↦ rw e (found-take n rest k v (rw e at h))
  ]

  found-erase :
      (s : List (K × V)) (k j : K) (v : V) → found j (erase k s) ≡ some v → found j s ≡ some v
  found-erase s k j v h = elim (Bool-cases (t.eq j k)) [
    | inl e ↦
        (let gone =
            subst (λ i. found i (erase k s) ≡ none) (sym (t.sound j k e)) (found-erase_self s k) in
          let refuted = sym gone ∙ h in cc)
    | inr e ↦ sym (found-erase_other s k j (ne_of t j k e)) ∙ h
  ]

  found-to_front : (s : List (K × V)) (k j : K) → found j (to_front k (found k s) s) ≡ found j s
  found-to_front s k j = elim (Option-cases (found k s)) [
    | inl e ↦ rw e refl
    | inr (v, e) ↦ elim (Bool-cases (t.eq k j)) [
      | inl same ↦ rw (e, same) (sym (subst (λ i. found i s ≡ some v) (t.sound k j same) e))
      | inr other ↦ rw (e, other) (found-erase_other s k j (λ same. ne_of t k j other (sym same)))
    ]
  ]

  found-Has : (s : List (K × V)) (k : K) (v : V) → found k s ≡ some v → Has (k, v) s
  found-Has [] k v h = (let refuted = h in cc)
  found-Has ((j, w) ∷ rest) k v h = elim (Bool-cases (t.eq j k)) [
    | inl e ↦ inl (ap₂ (λ a b. (a, b)) (sym (t.sound j k e)) (some_injective (sym (rw e at h))))
    | inr e ↦ inr (found-Has rest k v (rw e at h))
  ]

  found-put :
      (cap : ℕ) (s : List (K × V)) (k j : K) (v w : V)
      → found j ((k, v) ∷ take cap (erase k s)) ≡ some w
      → ((j ≡ k) × (w ≡ v)) ⊎ (found j s ≡ some w)
  found-put cap s k j v w h = elim (Bool-cases (t.eq k j)) [
    | inl e ↦ inl (sym (t.sound k j e), sym (some_injective (rw e at h)))
    | inr e ↦ inr (found-erase s k j w (found-take cap (erase k s) j w (rw e at h)))
  ]

  -- The cache of `suc cap` entries.
  abbrev pub bounded : ℕ → Lru K V
  bounded cap = record {
    Store = List (K × V);
    peek = λ s k. found k s;
    touch = λ s k. to_front k (found k s) s;
    put = λ s k v. (k, v) ∷ take cap (erase k s);
    pop = λ s k. erase k s;
    iter = λ s. s;
  }

  pub bounded-LruLaws : (cap : ℕ) → LruLaws (bounded cap)
  bounded-LruLaws cap = record {
    peek-touch = found-to_front;
    peek-put_self = λ s k v. rw (t.self k) refl;
    peek-put = λ s k j v w h. found-put cap s k j v w h;
    peek-pop_self = found-erase_self;
    peek-pop = λ s k j w h. found-erase s k j w h;
    peek-pop_other = found-erase_other;
    iter-complete = found-Has;
  }

-- The test on the keys of the response cache.
abbrev same_subnet : Option Ipv4Subnet → Option Ipv4Subnet → Bool
same_subnet none none = true
same_subnet (some (a, b, c)) (some (x, y, z)) = a == x && (b == y && c == z)
same_subnet _ _ = false

abbrev same_flag : Bool → Bool → Bool
same_flag true b = b
same_flag false b = not b

abbrev same_key : CacheKey → CacheKey → Bool
same_key k j =
    eq_bytes k.name j.name
    && (k.qtype == j.qtype
        && (k.qclass == j.qclass
            && (k.query_flags == j.query_flags
                && (same_flag k.dnssec_ok j.dnssec_ok
                    && same_subnet k.client_subnet j.client_subnet))))

same_flag→eq : (a b : Bool) → same_flag a b ≡ true → a ≡ b
same_flag→eq true b h = sym h
same_flag→eq false true h = (let refuted = h in cc)
same_flag→eq false false h = refl

same_subnet→eq : (s t : Option Ipv4Subnet) → same_subnet s t ≡ true → s ≡ t
same_subnet→eq none none h = refl
same_subnet→eq none (some t) h = (let refuted = h in cc)
same_subnet→eq (some s) none h = (let refuted = h in cc)
same_subnet→eq (some (a, b, c)) (some (x, y, z)) h = ground arith

and_parts : (a b : Bool) → (a && b) ≡ true → (a ≡ true) × (b ≡ true)
and_parts true b h = (refl, h)
and_parts false b h = (let refuted = h in cc)

pub same_key→eq : (k j : CacheKey) → same_key k j ≡ true → k ≡ j
same_key→eq k j h =
    let (n, r) = and_parts (eq_bytes k.name j.name) _ h in
    let (a, r1) = and_parts (k.qtype == j.qtype) _ r in
    let (b, r2) = and_parts (k.qclass == j.qclass) _ r1 in
    let (c, r3) = and_parts (k.query_flags == j.query_flags) _ r2 in
    let (d, e) = and_parts (same_flag k.dnssec_ok j.dnssec_ok) _ r3 in
    λ i. record {
      name = eq_bytes→eq k.name j.name n i;
      qtype = ==→eq k.qtype j.qtype a i;
      qclass = ==→eq k.qclass j.qclass b i;
      query_flags = ==→eq k.query_flags j.query_flags c i;
      dnssec_ok = same_flag→eq k.dnssec_ok j.dnssec_ok d i;
      client_subnet = same_subnet→eq k.client_subnet j.client_subnet e i;
    }

same_flag_self : (b : Bool) → same_flag b b ≡ true
same_flag_self true = refl
same_flag_self false = refl

same_subnet_self : (s : Option Ipv4Subnet) → same_subnet s s ≡ true
same_subnet_self none = refl
same_subnet_self (some (a, b, c)) = rw (==_self a, ==_self b, ==_self c) refl

pub same_key_self : (k : CacheKey) → same_key k k ≡ true
same_key_self k =
    rw
      (
        eq_bytes_self k.name,
        ==_self k.qtype,
        ==_self k.qclass,
        ==_self k.query_flags,
        same_flag_self k.dnssec_ok,
        same_subnet_self k.client_subnet,
      )
      refl

abbrev pub key_test : Test CacheKey
key_test = record { eq = same_key; sound = same_key→eq; self = same_key_self }

pub same : (k j : CacheKey) → Dec (k ≡ j)
same k j = on (same_key k j) refl
  where
    on : (b : Bool) → same_key k j ≡ b → Dec (k ≡ j)
    on true e = yes (same_key→eq k j e)
    on false e =
        no (λ equal. (let refuted = subst (λ i. same_key k i ≡ true) equal (same_key_self k) in cc))
