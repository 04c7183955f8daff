-- ===== src/Dns/Records/Total.antt =====
-- The section walks on arbitrary packets: they return, and read in bounds.
use dns_relay.Prelude.{
  ℕ, zero, suc, ◌+◌, ◌≤◌, ◌<◌, ◌≡◌, Bool, List, arith, length, Ensures, Ensures-bind, Settles,
  Returns, Returns-attempt, [], ◌++◌, ltb, not, ◌&&◌, false, ◌>>=◌, ok,
}
use dns_relay.Prelude.Slices.{Bytes, at, slice, u16_at, be16}
use dns_relay.Dns.Ipv4.{Ipv4Addr}
use dns_relay.Dns.Name.{skip_name}
use dns_relay.Dns.Name.Total.{skip_name-Within}
use dns_relay.Dns.Records.{
  Rr, rdata_end, read_rr, skip_questions, skip_questions_unchecked, read_a, collect_a,
  parse_a_records, is_specified_address, scan_addresses, response_has_only_unspecified_addresses,
}

-- A record lies right of its offset and in the packet.
abbrev pub RrWithin : Bytes → ℕ → Rr → Type 0
RrWithin buf offset r = (offset < r.name_end) × (rdata_end r ≤ length buf)

pub read_rr-RrWithin :
    (buf : Bytes) (offset : ℕ) → Ensures (RrWithin buf offset) (read_rr buf offset)
unfolding read_rr
read_rr-RrWithin buf offset =
    Ensures-bind (λ e. (offset < e) × (e ≤ length buf + 1)) (RrWithin buf offset)
      (skip_name buf offset) _ (skip_name-Within buf offset) λ e q h. ground arith

pub skip_questions-Within :
    (n : ℕ) (buf : Bytes) (offset : ℕ) → Ensures (λ e. offset ≤ e) (skip_questions n buf offset)
unfolding skip_questions
skip_questions-Within zero buf offset = omega arith
skip_questions-Within (suc n) buf offset =
    Ensures-bind (λ e. (offset < e) × (e ≤ length buf + 1)) _ (skip_name buf offset) _
      (skip_name-Within buf offset) λ e q h. ground (arith, skip_questions-Within n buf (e + 4))

skip_questions_unchecked-Settles :
    (n : ℕ) (buf : Bytes) (offset : ℕ) → Settles (skip_questions_unchecked n buf offset)
unfolding skip_questions_unchecked
skip_questions_unchecked-Settles zero buf offset = tt
skip_questions_unchecked-Settles (suc n) buf offset =
    Ensures-bind (λ e. (offset < e) × (e ≤ length buf + 1)) _ (skip_name buf offset) _
      (skip_name-Within buf offset) λ e q h. skip_questions_unchecked-Settles n buf (e + 4)

read_a-Settles : (buf : Bytes) (pos : ℕ) → Settles (read_a buf pos)
unfolding read_a at
read_a-Settles buf pos =
    Ensures-bind (RrWithin buf pos) _ (read_rr buf pos) _ (read_rr-RrWithin buf pos)
      λ r q h. ground arith

collect_a-Returns :
    (n : ℕ) (buf : Bytes) (pos : ℕ) (ips : List Ipv4Addr)
    → Returns (λ _. Unit {0}) (collect_a n buf pos ips)
unfolding collect_a
collect_a-Returns zero buf pos ips = tt
collect_a-Returns (suc n) buf pos ips =
    Returns-attempt (λ _. Unit {0}) _ (read_a buf pos) _ _ (read_a-Settles buf pos)
      (λ (found, next) q h. collect_a-Returns n buf next (ips ++ found)) tt

-- On every buffer `parse_a_records` returns a list.
pub parse_a_records-Returns : (buf : Bytes) → Returns (λ _. Unit {0}) (parse_a_records buf)
unfolding parse_a_records
parse_a_records-Returns buf = ground (
  arith,
  Returns-attempt (λ _. Unit {0}) (λ _. Unit {0}) (skip_questions_unchecked (be16 buf 4) buf 12)
      (λ pos. collect_a (be16 buf 6) buf pos []) (ok [])
      (skip_questions_unchecked-Settles (be16 buf 4) buf 12)
      (λ pos q h. collect_a-Returns (be16 buf 6) buf pos []) tt,
)

is_specified_address-Settles :
    (buf : Bytes) (r : Rr) → rdata_end r ≤ length buf → Settles (is_specified_address buf r)
unfolding is_specified_address slice
is_specified_address-Settles buf r h = ground arith

scan_addresses-Settles :
    (n : ℕ) (buf : Bytes) (offset count : ℕ) (b : Bool)
    → Settles (scan_addresses n buf offset count b)
unfolding scan_addresses
scan_addresses-Settles zero buf offset count b = tt
scan_addresses-Settles (suc n) buf offset count b =
    Ensures-bind (RrWithin buf offset) _ (read_rr buf offset) _ (read_rr-RrWithin buf offset)
      λ r q h.
        Ensures-bind (λ _. Unit {0}) _ (is_specified_address buf r) _
          (is_specified_address-Settles buf r h.1)
          λ s q' h'. scan_addresses-Settles n buf (rdata_end r) _ _

-- On every packet `response_has_only_unspecified_addresses` returns a flag.
pub response_has_only_unspecified_addresses-Returns :
    (packet : Bytes) → Returns (λ _. Unit {0}) (response_has_only_unspecified_addresses packet)
unfolding response_has_only_unspecified_addresses
response_has_only_unspecified_addresses-Returns packet = ground (
  arith,
  Returns-attempt (λ _. Unit {0}) (λ _. Unit {0})
      (do
        offset ← skip_questions (be16 packet 4) packet 12
        scan_addresses (be16 packet 6) packet offset 0 false)
      (λ (address_count, has_non_unspecified). ok (ltb 0 address_count && not has_non_unspecified))
      (ok false)
      (Ensures-bind (λ e. 12 ≤ e) (λ _. Unit {0}) (skip_questions (be16 packet 4) packet 12) _
        (skip_questions-Within (be16 packet 4) packet 12)
        (λ offset q h. scan_addresses-Settles (be16 packet 6) packet offset 0 false))
      (λ a q h. tt) tt,
)

-- The counts of the header, where there is one.
pub counts_read :
    (packet : Bytes)
    → 12 ≤ length packet
    → (u16_at packet 4 ≡ ok (be16 packet 4))
      × (u16_at packet 6 ≡ ok (be16 packet 6))
      × (u16_at packet 8 ≡ ok (be16 packet 8))
unfolding u16_at at
counts_read packet h = ground arith
