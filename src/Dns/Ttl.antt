-- ===== src/Dns/Ttl.antt =====
-- Time to live of a response: `min_answer_ttl`, `response_cache_ttl` and `age_response_ttls` of
-- shared/src/dns.rs. The elapsed time is in whole seconds.
pub mod Aging
pub mod Aged
pub mod Minimum
pub mod Total
use dns_relay.Prelude.{
  ℕ, zero, suc, ◌+◌, ◌-◌, ◌*◌, ◌/◌, ◌%◌, ◌^◌, ◌≤◌, Bool, true, false, not, ◌&&◌, ◌||◌, List, [],
  ◌∷◌, ◌++◌, ltb, leb, ◌==◌, if◌then◌else◌, length, set, Outcome, ok, refuse, attempt, guard, ◌>>=◌,
  ◌>>◌, min, bit_and,
}
use dns_relay.Prelude.Slices.{Bytes, at, u16_at, u32_at, to_be32}
use dns_relay.Prelude.Writes.{write}
use dns_relay.Dns.Name.{parse_domain, skip_name}
use dns_relay.Dns.Records.{Rr, read_rr, rdata_start, rdata_end, skip_questions}

abbrev pub u32_max : ℕ
u32_max = 2 ^ 32 - 1

-- The loop over the answers: `None` where a record does not fit or must not be cached.
unfoldable pub min_positive_ttl : ℕ → Bytes → ℕ → ℕ → Outcome (ℕ × ℕ)
min_positive_ttl zero packet offset answer_ttl = ok (offset, answer_ttl)
min_positive_ttl (suc n) packet offset answer_ttl = do
  r ← read_rr packet offset
  guard (not (r.ttl == 0))
  min_positive_ttl n packet (rdata_end r) (min answer_ttl r.ttl)

-- The record of the authority section that ends the loop: a SOA, which bounds a negative answer.
unfoldable pub negative_ttl : Bytes → Rr → Outcome ℕ
negative_ttl packet r = do
  mname_end ← skip_name packet (rdata_start r)
  rname_end ← skip_name packet mname_end
  guard (not (ltb (rdata_end r) (rname_end + 20)))
  minimum ← u32_at packet (rname_end + 16)
  guard (ltb 0 (min r.ttl minimum))
  ok (min r.ttl minimum)

unfoldable pub find_negative_ttl : ℕ → Bytes → ℕ → Outcome ℕ
find_negative_ttl zero packet offset = refuse
find_negative_ttl (suc n) packet offset = do
  r ← read_rr packet offset
  let next = find_negative_ttl n packet (rdata_end r)
  if r.rtype == 6 then negative_ttl packet r else next

-- The checks of the header: a response, not truncated, with no error or with NXDOMAIN.
unfoldable pub cacheable_header : Bytes → Outcome (Unit {0})
cacheable_header packet = do
  guard (not (ltb (length packet) 12))
  flags ← at packet 2
  guard (not (bit_and flags 0x80 == 0 || not (bit_and flags 0x02 == 0)))
  codes ← at packet 3
  let rcode = bit_and codes 0x0F
  guard (not (not (rcode == 0) && not (rcode == 3)))

unfoldable pub response_cache_ttl : Bytes → Outcome ℕ
unfolding cacheable_header skip_questions min_positive_ttl find_negative_ttl negative_ttl
response_cache_ttl packet = do
  cacheable_header packet
  qdcount ← u16_at packet 4
  ancount ← u16_at packet 6
  nscount ← u16_at packet 8
  start ← skip_questions qdcount packet 12
  (offset, answer_ttl) ← min_positive_ttl ancount packet start u32_max
  if ltb 0 ancount
      then (if not (answer_ttl == u32_max) then ok answer_ttl else refuse)
      else find_negative_ttl nscount packet offset

-- `packet[offset..offset + 4].copy_from_slice(&v.to_be_bytes())`
abbrev pub set_u32 : Bytes → ℕ → ℕ → Bytes
set_u32 packet offset v = write packet offset (to_be32 v)

abbrev pub remaining : Bool → ℕ → ℕ → ℕ
remaining stale elapsed ttl = if stale then 0 else ttl - elapsed

-- One round of the loop of `age_response_ttls` behind its length check: the aged packet, and where
-- the record ends.
unfoldable pub age_record : Bytes → ℕ → ℕ → Bool → Outcome (Bytes × ℕ)
age_record packet name_end elapsed stale = do
  ttl ← u32_at packet (name_end + 4)
  let aged = set_u32 packet (name_end + 4) (remaining stale elapsed ttl)
  rdlength ← u16_at aged (name_end + 8)
  ok (aged, name_end + 10 + rdlength)

-- The loop. `packet` is changed in place, so it comes back beside the flag on every exit.
unfoldable pub age_records : ℕ → Bytes → ℕ → ℕ → Bool → Outcome (Bytes × Bool)
age_records zero packet offset elapsed stale = ok (packet, true)
age_records (suc n) packet offset elapsed stale =
    attempt (skip_name packet offset)
      (λ name_end.
        let next = λ (p : Bytes) (o : ℕ). age_records n p o elapsed stale in
        if ltb (length packet) (name_end + 10) then ok (packet, false) else do
          (aged, end) ← age_record packet name_end elapsed stale
          if ltb (length aged) end then ok (aged, false) else next aged end)
      (ok (packet, false))

unfoldable pub age_response_ttls : Bytes → ℕ → Bool → Outcome (Bytes × Bool)
unfolding age_records age_record skip_questions
age_response_ttls packet elapsed_secs stale =
    if ltb (length packet) 12 then ok (packet, false) else do
      qdcount ← u16_at packet 4
      ancount ← u16_at packet 6
      nscount ← u16_at packet 8
      attempt (skip_questions qdcount packet 12)
          (λ offset. age_records (ancount + nscount) packet offset (min elapsed_secs u32_max) stale)
          (ok (packet, false))

module _ (lower_wide : Bytes → Bytes) where
  -- The loop of `min_answer_ttl`.
  unfoldable pub min_nonzero_ttl : ℕ → Bytes → ℕ → ℕ → Outcome ℕ
  min_nonzero_ttl zero packet offset min_ttl = ok min_ttl
  min_nonzero_ttl (suc n) packet offset min_ttl = do
    (_, name_end) ← parse_domain lower_wide packet offset
    guard (not (ltb (length packet) (name_end + 10)))
    ttl ← u32_at packet (name_end + 4)
    rdlen ← u16_at packet (name_end + 8)
    guard (not (ltb (length packet) (name_end + (10 + rdlen))))
    min_nonzero_ttl n packet (name_end + (10 + rdlen))
        (if ltb 0 ttl then min min_ttl ttl else min_ttl)

  unfoldable pub min_answer_ttl : Bytes → Outcome ℕ
  unfolding min_nonzero_ttl
  min_answer_ttl packet = do
    guard (not (ltb (length packet) 12))
    ancount ← u16_at packet 6
    guard (not (ancount == 0))
    (_, qname_end) ← parse_domain lower_wide packet 12
    min_ttl ← min_nonzero_ttl ancount packet (qname_end + 4) u32_max
    if min_ttl == u32_max then refuse else ok min_ttl
