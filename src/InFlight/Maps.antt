-- ===== src/InFlight/Maps.antt =====
-- Reads of a map after a write.
use dns_relay.Prelude.{◌≡◌, ◌≢◌, refl, ◌⊎◌, inl, inr}
use dns_relay.InFlight.{put, chosen}

module _ {ℓ} {K : Type 0} {V : Type ℓ} (same : (k j : K) → Dec (k ≡ j)) (map : K → V) (key : K)
    (value : V) where
  pub put_self : put same map key value key ≡ value
  put_self = on (same key key)
    where
      on : (d : Dec (key ≡ key)) → chosen d value (map key) ≡ value
      on (yes _) = refl
      on (no other) = absurd (other refl)

  pub put_other : (j : K) → key ≢ j → put same map key value j ≡ map j
  put_other j ne = on (same key j)
    where
      on : (d : Dec (key ≡ j)) → chosen d value (map j) ≡ map j
      on (yes e) = absurd (ne e)
      on (no _) = refl

  pub put_cases :
      (j : K) (w : V)
      → put same map key value j ≡ w
      → ((key ≡ j) × (value ≡ w)) ⊎ ((key ≢ j) × (map j ≡ w))
  put_cases j w h = on (same key j) h
    where
      on :
          (d : Dec (key ≡ j))
          → chosen d value (map j) ≡ w
          → ((key ≡ j) × (value ≡ w)) ⊎ ((key ≢ j) × (map j ≡ w))
      on (yes e) h = inl (e, h)
      on (no ne) h = inr (ne, h)
