-- ===== src/Cache/Store/Lookups.antt =====
-- The lookups of the response cache over the life of an entry.
use dns_relay.Prelude.{
  ℕ, ◌+◌, ◌-◌, ◌/◌, ◌≤◌, ◌<◌, ◌≡◌, refl, ap, Bool, true, false, List, map, arith, ok, min, ltb, leb,
  Bool-cases, Option-cases, inl, inr, some, refuse, All, guard, ◌>>=◌, ◌>>◌, panic, out_of_fuel,
  subst, if◌then◌else◌, Outcome,
}
use dns_relay.Prelude.Slices.{Bytes}
use dns_relay.Prelude.Writes.{IsBytes}
use dns_relay.Dns.Records.{Rr}
use dns_relay.Dns.Ttl.{response_cache_ttl, age_response_ttls, u32_max}
use dns_relay.Dns.Records.Walk.{ttl_records}
use dns_relay.Dns.Ttl.Aged.{aged_rr, SameBesides, age_response_ttls-ttl_records}
use dns_relay.Dns.Ttl.Minimum.{
  answer_records, LivesFor, response_cache_ttl-answers, response_cache_ttl-header,
}
use dns_relay.Cache.Lru.{Lru, LruLaws}
use dns_relay.Cache.Key.{CacheKey}
use dns_relay.Cache.Store.{
  nanos, CacheEntry, clamp_cache_ttl, new_entry, served, zero_txid, elapsed_secs, cache_lookup,
  cache_lookup_stale, cache_store,
}
use dns_relay.Cache.Store.Invariant.{IsEntry, IsStore, ok_injective, clamp_cache_ttl-seconds}
use dns_relay.Cache.Store.Answers.{
  elapsed_secs-lt, zero_txid-answer_records, zero_txid-IsBytes, aged-answer_records, aged-live,
}

-- What a fresh answer is: the cached response with the id 0, in all but the times to live, with its
-- answers aged, and all of them still alive.
pub record IsFresh (entry : CacheEntry) (now : ℕ) (response packet : Bytes) : Type 0 where
  pub rs : List Rr
  pub in_time : now < entry.fresh_until
  pub before : answer_records response ≡ ok rs
  pub after :
      answer_records packet ≡ ok (map (aged_rr (min (elapsed_secs entry now) u32_max) false) rs)
  pub alive : All (LivesFor 1) (map (aged_rr (min (elapsed_secs entry now) u32_max) false) rs)
  pub records : List Rr
  pub sections : ttl_records (zero_txid response) ≡ ok records
  pub besides : SameBesides records (zero_txid response) packet

flag_set :
    (m : Outcome (Bytes × Bool)) (packet : Bytes)
    → (m >>= λ (p, aged). guard aged >> ok p) ≡ ok packet
    → m ≡ ok (packet, true)
flag_set (ok (p, true)) packet h = ap (λ q. ok (q, true)) (ok_injective h)
flag_set (ok (p, false)) packet h = (let refuted = h in cc)
flag_set refuse packet h = (let refuted = h in cc)
flag_set panic packet h = (let refuted = h in cc)
flag_set out_of_fuel packet h = (let refuted = h in cc)

served-aged :
    (entry : CacheEntry) (now : ℕ) (stale : Bool) (packet : Bytes)
    → served entry now stale ≡ ok packet
    → age_response_ttls entry.packet (elapsed_secs entry now) stale ≡ ok (packet, true)
unfolding served
served-aged entry now stale packet h =
    flag_set (age_response_ttls entry.packet (elapsed_secs entry now) stale) packet h

entry-IsFresh :
    (entry : CacheEntry) (now : ℕ) (packet : Bytes) (w : IsEntry entry)
    → now < entry.fresh_until
    → served entry now false ≡ ok packet
    → IsFresh entry now w.response packet
entry-IsFresh entry now packet w fresh h =
    let (live, (rs, before, lives)) = response_cache_ttl-answers w.response w.ttl w.cacheable in
    let long = response_cache_ttl-header w.response w.ttl w.cacheable in
    let stored : entry.packet ≡ zero_txid w.response = w.kept in
    let aged =
      subst (λ p. age_response_ttls p (elapsed_secs entry now) false ≡ ok (packet, true)) stored
        (served-aged entry now false packet h) in
    let (records, sections, _, _, besides) =
      age_response_ttls-ttl_records (zero_txid w.response) packet (elapsed_secs entry now) false
        (zero_txid-IsBytes w.response w.bytes) aged in
    let young : elapsed_secs entry now < w.ttl =
      elapsed_secs-lt entry w.ttl now live w.fresh fresh in
    record {
      rs = rs;
      in_time = fresh;
      before = before;
      after =
          aged-answer_records (zero_txid w.response) packet (elapsed_secs entry now) false rs
            (zero_txid-IsBytes w.response w.bytes)
            (zero_txid-answer_records w.response rs long before) aged;
      alive =
          aged-live (min (elapsed_secs entry now) u32_max) w.ttl rs (omega (arith, young)) lives;
      records = records;
      sections = sections;
      besides = besides;
    }

module _ (lru : Lru CacheKey CacheEntry) where
  -- In a cache of well-formed entries, a fresh lookup that answers found an entry whose time is not up, and
  -- answers with the cached response with the transaction id 0, the same in every byte that is not in a
  -- time to live of its answer and authority records; its answers' times to live are lowered by the
  -- entry's age in seconds, and all of them still are above 0.
  pub cache_lookup-IsFresh :
      (s : lru.Store) (key : CacheKey) (now : ℕ) (packet : Bytes)
      → IsStore lru s
      → (cache_lookup lru s key now).0 ≡ ok packet
      → (entry : CacheEntry) × (lru.peek s key ≡ some entry)
        × ((w : IsEntry entry) × IsFresh entry now w.response packet)
  unfolding cache_lookup IsStore
  cache_lookup-IsFresh s key now packet wf h = elim (Option-cases (lru.peek s key)) [
    | inl absent ↦ (let refuted = rw absent at h in cc)
    | inr (entry, present) ↦ elim (Bool-cases (leb entry.fresh_until now)) [
      | inl old ↦ (let refuted = rw (present, old) at h in cc)
      | inr fresh ↦ (
        entry,
        present,
        (
          wf key entry present,
          entry-IsFresh entry now packet (wf key entry present) (ground arith)
              (rw (present, fresh) at h),
        ),
      )
    ]
  ]

  -- In a cache of well-formed entries, an entry goes through three ages: at first only the fresh lookup serves it, then only the stale
  -- one, with times to live of 0, and in the end neither does, and the stale lookup drops it.
  pub lookups_by_age :
      (s : lru.Store) (key : CacheKey) (entry : CacheEntry) (now : ℕ)
      → IsStore lru s
      → lru.peek s key ≡ some entry
      → ((cache_lookup lru s key now).0
          ≡ (if ltb now entry.fresh_until then served entry now false else refuse))
        × (cache_lookup_stale lru s key now ≡ (
            if ltb now entry.fresh_until
            then (refuse, lru.touch s key)
            else if ltb now entry.stale_until
            then (served entry now true, lru.touch s key)
            else (refuse, lru.pop s key)))
  unfolding cache_lookup cache_lookup_stale IsStore
  lookups_by_age s key entry now wf present =
      let w = wf key entry present in
      let order : entry.fresh_until ≤ entry.stale_until = omega (arith, w.stale) in
      rw present (ground arith, ground arith)

  -- A response that may be cached and whose records can be aged to their ends is stored, and from then on,
  -- until the clamped time to live is over, the fresh lookup of its key answers with it, aged by the
  -- seconds since then: with the transaction id 0 and the same in every byte that is not in a time to live
  -- of its answer and authority records, its answers' times to live lowered by those seconds and still
  -- above 0. The response consists of bytes.
  pub cache_store-cache_lookup :
      (s : lru.Store) (key : CacheKey) (packet aged : Bytes) (ttl stored_at now : ℕ)
      → LruLaws lru
      → IsBytes packet
      → response_cache_ttl packet ≡ ok ttl
      → stored_at ≤ now
      → now < stored_at + clamp_cache_ttl ttl
      → age_response_ttls (zero_txid packet) ((now - stored_at) / nanos) false ≡ ok (aged, true)
      → (s' : lru.Store) × (cache_store lru s key packet stored_at ≡ ok s')
        × ((cache_lookup lru s' key now).0 ≡ ok aged)
        × IsFresh (new_entry packet ttl stored_at) now packet aged
  unfolding cache_store cache_lookup served
  cache_store-cache_lookup s key packet aged ttl stored_at now laws bytes cacheable past young
        walked =
      let entry = new_entry packet ttl stored_at in
      let w : IsEntry entry = record {
        response = packet;
        ttl = ttl;
        bytes = bytes;
        cacheable = cacheable;
        kept = refl;
        fresh = omega (arith, clamp_cache_ttl-seconds ttl);
        stale = refl;
      } in
      (
        lru.put s key entry,
        rw cacheable refl,
        rw (laws.peek-put_self s key entry)
            (answered (leb (stored_at + clamp_cache_ttl ttl) now) (ground arith)),
        entry-IsFresh entry now aged w young
            (ap (λ m. m >>= λ (p, flag). guard flag >> ok p) walked),
      )
    where
      answered :
          (over : Bool)
          → over ≡ false
          → (if over then refuse else served (new_entry packet ttl stored_at) now false) ≡ ok aged
      answered true e = cc
      answered false e = ap (λ m. m >>= λ (p, flag). guard flag >> ok p) walked
