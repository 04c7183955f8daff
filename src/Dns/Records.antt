-- ===== src/Dns/Records.antt =====
-- Resource records on the wire: the section walks of shared/src/dns.rs.
pub mod Walk
pub mod Total
use dns_relay.Prelude.{
  ℕ, zero, suc, ◌+◌, ◌*◌, ◌≤◌, Bool, true, false, not, ◌&&◌, ◌||◌, List, [], ◌∷◌, ◌++◌, ltb, leb,
  ◌==◌, if◌then◌else◌, length, any, Outcome, ok, attempt, guard, ◌>>=◌, ◌>>◌, min, get_or,
}
use dns_relay.Prelude.Slices.{Bytes, at, slice, u16_at, u32_at}
use dns_relay.Dns.Ipv4.{Ipv4Addr}
use dns_relay.Dns.Name.{parse_domain, skip_name}

-- The fixed part of a record, behind its name.
pub record Rr : Type 0 where
  pub name_end : ℕ
  pub rtype : ℕ
  pub ttl : ℕ
  pub rdlength : ℕ

abbrev pub rdata_start : Rr → ℕ
rdata_start r = r.name_end + 10

abbrev pub rdata_end : Rr → ℕ
rdata_end r = r.name_end + 10 + r.rdlength

-- What each walk does first with a record: skip the name, read the fixed part, and stop where one
-- of the two would leave the packet.
unfoldable pub read_rr : Bytes → ℕ → Outcome Rr
unfolding u16_at u32_at
read_rr buf offset = do
  name_end ← skip_name buf offset
  guard (not (ltb (length buf) (name_end + 10)))
  rtype ← u16_at buf name_end
  ttl ← u32_at buf (name_end + 4)
  rdlength ← u16_at buf (name_end + 8)
  guard (not (ltb (length buf) (name_end + 10 + rdlength)))
  ok (record { name_end = name_end; rtype = rtype; ttl = ttl; rdlength = rdlength })

-- `skip_rr`
unfoldable pub skip_rr : Bytes → ℕ → Outcome ℕ
skip_rr buf offset = do r ← read_rr buf offset; ok (rdata_end r)

-- The loop over the questions that checks where each of them ends.
unfoldable pub skip_questions : ℕ → Bytes → ℕ → Outcome ℕ
skip_questions zero buf offset = ok offset
skip_questions (suc n) buf offset = do
  name_end ← skip_name buf offset
  guard (not (ltb (length buf) (name_end + 4)))
  skip_questions n buf (name_end + 4)

-- The same loop where the code leaves the check to what follows.
unfoldable pub skip_questions_unchecked : ℕ → Bytes → ℕ → Outcome ℕ
skip_questions_unchecked zero buf offset = ok offset
skip_questions_unchecked (suc n) buf offset = do
  name_end ← skip_name buf offset
  skip_questions_unchecked n buf (name_end + 4)

-- One round of `parse_a_records`: the addresses of one record, and where the next begins.
unfoldable pub read_a : Bytes → ℕ → Outcome (List Ipv4Addr × ℕ)
read_a buf pos = do
  r ← read_rr buf pos
  if r.rtype == 1 && r.rdlength == 4
      then (do
        a ← at buf (rdata_start r)
        b ← at buf (rdata_start r + 1)
        c ← at buf (rdata_start r + 2)
        d ← at buf (rdata_start r + 3)
        ok (record { a = a; b = b; c = c; d = d } ∷ [], rdata_end r))
      else ok ([], rdata_end r)

-- The loop: what stops it leaves the addresses found so far.
unfoldable pub collect_a : ℕ → Bytes → ℕ → List Ipv4Addr → Outcome (List Ipv4Addr)
collect_a zero buf pos ips = ok ips
collect_a (suc n) buf pos ips =
    attempt (read_a buf pos) (λ (found, next). collect_a n buf next (ips ++ found)) (ok ips)

unfoldable pub parse_a_records : Bytes → Outcome (List Ipv4Addr)
unfolding skip_questions_unchecked collect_a read_a read_rr skip_name at
parse_a_records buf = if ltb (length buf) 12 then ok [] else do
  qdcount ← u16_at buf 4
  ancount ← u16_at buf 6
  attempt (skip_questions_unchecked qdcount buf 12) (λ pos. collect_a ancount buf pos []) (ok [])

-- An A record of four bytes or an AAAA record of sixteen.
abbrev pub is_address : Rr → Bool
is_address r = r.rtype == 1 && r.rdlength == 4 || r.rtype == 28 && r.rdlength == 16

-- Whether a record is an address with a byte that is not zero.
unfoldable pub is_specified_address : Bytes → Rr → Outcome Bool
is_specified_address packet r =
    if is_address r
    then (do
      rdata ← slice packet (rdata_start r) (rdata_end r)
      ok (any (λ byte. not (byte == 0)) rdata))
    else ok false

-- The loop over the answers of `response_has_only_unspecified_addresses`.
unfoldable pub scan_addresses : ℕ → Bytes → ℕ → ℕ → Bool → Outcome (ℕ × Bool)
scan_addresses zero packet offset address_count has_non_unspecified =
    ok (address_count, has_non_unspecified)
scan_addresses (suc n) packet offset address_count has_non_unspecified = do
  r ← read_rr packet offset
  specified ← is_specified_address packet r
  scan_addresses n packet (rdata_end r) (if is_address r then address_count + 1 else address_count)
      (has_non_unspecified || specified)

unfoldable pub response_has_only_unspecified_addresses : Bytes → Outcome Bool
unfolding skip_questions scan_addresses is_specified_address read_rr skip_name slice at
response_has_only_unspecified_addresses packet = if ltb (length packet) 12 then ok false else do
  qdcount ← u16_at packet 4
  ancount ← u16_at packet 6
  attempt
      (do offset ← skip_questions qdcount packet 12; scan_addresses ancount packet offset 0 false)
      (λ (address_count, has_non_unspecified). ok (ltb 0 address_count && not has_non_unspecified))
      (ok false)
