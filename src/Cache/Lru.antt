-- ===== src/Cache/Lru.antt =====
-- The interface of `LruCache` of the crate `lru`, which the caches of shared/src/cache.rs use: `touch`
-- is what `get` does to the order of use, `put` may evict another entry.
use dns_relay.Prelude.{◌≡◌, ◌≢◌, Option, none, some, List, [], ◌∷◌, ◌⊎◌}

pub record Lru (K V : Type 0) : Type 1 where
  pub Store : Type 0
  pub peek : Store → K → Option V
  pub touch : Store → K → Store
  pub put : Store → K → V → Store
  pub pop : Store → K → Store
  pub iter : Store → List (K × V)

abbrev pub Has : {A : Type 0} → A → List A → Type 0
Has a [] = ⊥
Has a (x ∷ xs) = (a ≡ x) ⊎ Has a xs

-- What the documentation of the crate says of them, for a capacity that is not zero.
pub record LruLaws {K V : Type 0} (lru : Lru K V) : Type 0 where
  pub peek-touch : (s : lru.Store) (k j : K) → lru.peek (lru.touch s k) j ≡ lru.peek s j
  pub peek-put_self : (s : lru.Store) (k : K) (v : V) → lru.peek (lru.put s k v) k ≡ some v
  pub peek-put :
      (s : lru.Store) (k j : K) (v w : V)
      → lru.peek (lru.put s k v) j ≡ some w
      → ((j ≡ k) × (w ≡ v)) ⊎ (lru.peek s j ≡ some w)
  pub peek-pop_self : (s : lru.Store) (k : K) → lru.peek (lru.pop s k) k ≡ none
  pub peek-pop :
      (s : lru.Store) (k j : K) (w : V) → lru.peek (lru.pop s k) j ≡ some w → lru.peek s j ≡ some w
  pub peek-pop_other : (s : lru.Store) (k j : K) → j ≢ k → lru.peek (lru.pop s k) j ≡ lru.peek s j
  pub iter-complete :
      (s : lru.Store) (k : K) (v : V) → lru.peek s k ≡ some v → Has (k, v) (lru.iter s)
