-- ===== src/Dns/Ttl/Total.antt =====
-- The walks over times to live on arbitrary packets: they return, and read in bounds.
use dns_relay.Prelude.{
  ℕ, zero, suc, ◌+◌, ◌≤◌, ◌<◌, ◌≡◌, Bool, arith, length, ok, min, ltb, refuse, Settles-bind,
  Settles-of_Ensures, Bool-cases, Ensures-cases, ◌⊎◌, inl, inr, Ensures, Ensures-bind, Settles,
  Returns, Returns-attempt,
}
use dns_relay.Prelude.Slices.{Bytes, at, u32_at, be16}
use dns_relay.Dns.Name.{skip_name}
use dns_relay.Dns.Name.Total.{skip_name-Within}
use dns_relay.Dns.Records.{Rr, rdata_end, rdata_start, read_rr, skip_questions}
use dns_relay.Dns.Records.Total.{RrWithin, read_rr-RrWithin, skip_questions-Within, counts_read}
use dns_relay.Dns.Ttl.Aging.{aged_packet, record_end, age_records-suc, stopped}
use dns_relay.Dns.Ttl.{
  min_positive_ttl, negative_ttl, find_negative_ttl, cacheable_header, response_cache_ttl,
  age_records, age_response_ttls, u32_max,
}

min_positive_ttl-Settles :
    (n : ℕ) (packet : Bytes) (offset ttl : ℕ) → Settles (min_positive_ttl n packet offset ttl)
unfolding min_positive_ttl
min_positive_ttl-Settles zero packet offset ttl = tt
min_positive_ttl-Settles (suc n) packet offset ttl =
    Ensures-bind (RrWithin packet offset) _ (read_rr packet offset) _
      (read_rr-RrWithin packet offset)
      λ r q h. ground (arith, min_positive_ttl-Settles n packet (rdata_end r) (min ttl r.ttl))

negative_ttl-Settles :
    (packet : Bytes) (r : Rr) → rdata_end r ≤ length packet → Settles (negative_ttl packet r)
unfolding negative_ttl u32_at
negative_ttl-Settles packet r within =
    Ensures-bind (λ e. (rdata_start r < e) × (e ≤ length packet + 1)) _
      (skip_name packet (rdata_start r)) _ (skip_name-Within packet (rdata_start r))
      λ m q h.
        Ensures-bind (λ e. (m < e) × (e ≤ length packet + 1)) _ (skip_name packet m) _
          (skip_name-Within packet m) λ e q' h'. ground arith

find_negative_ttl-Settles :
    (n : ℕ) (packet : Bytes) (offset : ℕ) → Settles (find_negative_ttl n packet offset)
unfolding find_negative_ttl
find_negative_ttl-Settles zero packet offset = tt
find_negative_ttl-Settles (suc n) packet offset =
    Ensures-bind (RrWithin packet offset) _ (read_rr packet offset) _
      (read_rr-RrWithin packet offset)
      λ r q h.
        ground
          (arith, find_negative_ttl-Settles n packet (rdata_end r), negative_ttl-Settles packet r)

pub cacheable_header-Within :
    (packet : Bytes) → Ensures (λ _. 12 ≤ length packet) (cacheable_header packet)
unfolding cacheable_header at
cacheable_header-Within packet = ground arith

-- On every packet `response_cache_ttl` returns: it reads in bounds and its loops stop.
pub response_cache_ttl-Settles : (packet : Bytes) → Settles (response_cache_ttl packet)
unfolding response_cache_ttl
response_cache_ttl-Settles packet =
    Ensures-bind (λ _. 12 ≤ length packet) _ (cacheable_header packet) _
      (cacheable_header-Within packet)
      λ _ e h.
        let (q, a, n) = counts_read packet h in
        rw (q, a, n)
          (Settles-bind (skip_questions (be16 packet 4) packet 12) _
            (Settles-of_Ensures _ _ (skip_questions-Within (be16 packet 4) packet 12))
            λ start.
              Settles-bind (min_positive_ttl (be16 packet 6) packet start u32_max) _
                (min_positive_ttl-Settles (be16 packet 6) packet start u32_max)
                λ (offset, ttl).
                  ground (arith, find_negative_ttl-Settles (be16 packet 8) packet offset))

stopped-Returns :
    (n : ℕ) (packet : Bytes) (offset elapsed : ℕ) (stale : Bool)
    → skip_name packet offset ≡ refuse
    → Returns (λ _. Unit {0}) (age_records (suc n) packet offset elapsed stale)
stopped-Returns n packet offset elapsed stale h = rw (stopped elapsed stale n packet offset h) tt

age_records-Returns :
    (n : ℕ) (packet : Bytes) (offset elapsed : ℕ) (stale : Bool)
    → Returns (λ _. Unit {0}) (age_records n packet offset elapsed stale)
age_records-Returns zero packet offset elapsed stale = unfold age_records in tt
age_records-Returns (suc n) packet offset elapsed stale =
    on (λ p o. age_records-Returns n p o elapsed stale)
      (Ensures-cases _ (skip_name packet offset) (skip_name-Within packet offset))
  where
    on :
        ((p : Bytes) (o : ℕ) → Returns (λ _. Unit {0}) (age_records n p o elapsed stale))
        → ((e : ℕ) × (skip_name packet offset ≡ ok e)) ⊎ (skip_name packet offset ≡ refuse)
        → Returns (λ _. Unit {0}) (age_records (suc n) packet offset elapsed stale)
    on ih (inl (e, named)) =
        rw (age_records-suc n packet offset e elapsed stale named)
          (ground (arith, ih (aged_packet packet e elapsed stale) (record_end packet e)))
    on ih (inr none_there) = stopped-Returns n packet offset elapsed stale none_there

-- On every packet `age_response_ttls` returns the packet and a flag: it reads and writes in bounds
-- and its loops stop.
pub age_response_ttls-Returns :
    (packet : Bytes) (elapsed_secs : ℕ) (stale : Bool)
    → Returns (λ _. Unit {0}) (age_response_ttls packet elapsed_secs stale)
unfolding age_response_ttls
age_response_ttls-Returns packet elapsed_secs stale = elim (Bool-cases (ltb (length packet) 12)) [
  | inl short ↦ rw short tt
  | inr long ↦
      let (q, a, n) = counts_read packet (ground arith) in
      rw (long, q, a, n)
        (Returns-attempt _ _ (skip_questions (be16 packet 4) packet 12) _ _
          (skip_questions-Within (be16 packet 4) packet 12)
          (λ start e h. age_records-Returns (be16 packet 6 + be16 packet 8) packet start _ stale)
          tt)
]
