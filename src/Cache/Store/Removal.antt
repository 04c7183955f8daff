-- ===== src/Cache/Store/Removal.antt =====
-- What `remove_domains_from_cache` takes out of the cache, and what it leaves.
use dns_relay.Prelude.{
  ◌≡◌, refl, ap, ◌∙◌, sym, true, inl, inr, if◌then◌else◌, none, List, [], ◌∷◌, Bool-cases,
  Option-cases, subst,
}
use dns_relay.Prelude.Slices.{Bytes}
use dns_relay.Cache.Lru.{Lru, LruLaws, Has}
use dns_relay.Cache.Key.{CacheKey}
use dns_relay.Cache.Store.{
  CacheEntry, pop_all, matching_keys, any_pattern, remove_domains_from_cache,
}

module _ (lower_wide : Bytes → Bytes) (patterns : List Bytes) where
  -- The keys that are popped: all that a pattern covers, and no others.
  matching_keys_complete :
      (rows : List (CacheKey × CacheEntry)) (key : CacheKey) (entry : CacheEntry)
      → Has (key, entry) rows
      → any_pattern lower_wide patterns key ≡ true
      → Has key (matching_keys lower_wide patterns rows)
  unfolding matching_keys
  matching_keys_complete [] key entry h m = h
  matching_keys_complete ((k, e) ∷ rest) key entry (inl same) m =
      let first : key ≡ k = ap (λ row. row.0) same in
      rw (subst (λ k. any_pattern lower_wide patterns k ≡ true) first m) (inl first)
  matching_keys_complete ((k, e) ∷ rest) key entry (inr later) m =
      let there = matching_keys_complete rest key entry later m in
      elim (Bool-cases (any_pattern lower_wide patterns k)) [
        | inl hit ↦ rw hit (inr there)
        | inr miss ↦ rw miss there
      ]

  matching_keys_sound :
      (rows : List (CacheKey × CacheEntry)) (key : CacheKey)
      → Has key (matching_keys lower_wide patterns rows)
      → any_pattern lower_wide patterns key ≡ true
  unfolding matching_keys
  matching_keys_sound [] key h = absurd h
  matching_keys_sound ((k, e) ∷ rest) key h =
      elim (Bool-cases (any_pattern lower_wide patterns k)) [
        | inl hit ↦
            (let found = rw hit at h in
              elim found [
                | inl same ↦ subst (λ k. any_pattern lower_wide patterns k ≡ true) (sym same) hit
                | inr later ↦ matching_keys_sound rest key later
              ])
        | inr miss ↦ matching_keys_sound rest key (rw miss at h)
      ]

module _ (lru : Lru CacheKey CacheEntry) (laws : LruLaws lru) where
  pop_all-gone :
      (keys : List CacheKey) (s : lru.Store) (key : CacheKey)
      → lru.peek s key ≡ none
      → lru.peek (pop_all lru s keys) key ≡ none
  pop_all-gone [] s key h = h
  pop_all-gone (k ∷ keys) s key h =
      pop_all-gone keys (lru.pop s k) key (elim (Option-cases (lru.peek (lru.pop s k) key)) [
        | inl e ↦ e
        | inr (entry, e) ↦ (let refuted = sym h ∙ laws.peek-pop s k key entry e in cc)
      ])

  pop_all-popped :
      (keys : List CacheKey) (s : lru.Store) (key : CacheKey)
      → Has key keys
      → lru.peek (pop_all lru s keys) key ≡ none
  pop_all-popped [] s key h = absurd h
  pop_all-popped (k ∷ keys) s key (inl same) =
      pop_all-gone keys (lru.pop s k) key
        (subst (λ j. lru.peek (lru.pop s k) j ≡ none) (sym same) (laws.peek-pop_self s k))
  pop_all-popped (k ∷ keys) s key (inr later) = pop_all-popped keys (lru.pop s k) key later

  pop_all-kept :
      (keys : List CacheKey) (s : lru.Store) (key : CacheKey)
      → (Has key keys → ⊥)
      → lru.peek (pop_all lru s keys) key ≡ lru.peek s key
  pop_all-kept [] s key h = refl
  pop_all-kept (k ∷ keys) s key h =
      pop_all-kept keys (lru.pop s k) key (λ later. h (inr later))
      ∙ laws.peek-pop_other s k key (λ same. h (inl same))

  -- After a removal, no entry is left whose name one of the patterns covers, and every other entry is
  -- as it was.
  pub peek-remove_domains_from_cache :
      (lower_wide : Bytes → Bytes) (s : lru.Store) (patterns : List Bytes) (key : CacheKey)
      → lru.peek (remove_domains_from_cache lower_wide lru s patterns) key
        ≡ (if any_pattern lower_wide patterns key then none else lru.peek s key)
  unfolding remove_domains_from_cache
  peek-remove_domains_from_cache lower_wide s patterns key =
      let keys = matching_keys lower_wide patterns (lru.iter s) in
      elim (Bool-cases (any_pattern lower_wide patterns key)) [
        | inl hit ↦ rw hit (elim (Option-cases (lru.peek s key)) [
          | inl absent ↦ pop_all-gone keys s key absent
          | inr (entry, present) ↦ pop_all-popped keys s key (
              matching_keys_complete lower_wide patterns (lru.iter s) key entry
                (laws.iter-complete s key entry present) hit)
        ])
        | inr miss ↦ rw miss (
            pop_all-kept keys s key (λ there.
              (let refuted =
                  sym miss ∙ matching_keys_sound lower_wide patterns (lru.iter s) key there in
                cc)))
      ]
