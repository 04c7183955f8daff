-- ===== src/Dns/Respond.antt =====
-- Answers made without an upstream: `craft_redirect_response`, `craft_nxdomain_response`,
-- `craft_servfail_response` and `with_txid` of shared/src/dns.rs.
pub mod RoundTrip
pub mod Header
use dns_relay.Prelude.{
  ℕ, zero, suc, ◌+◌, ◌/◌, ◌%◌, ◌≤◌, Bool, true, false, not, Option, none, some, List, [], ◌∷◌, ◌++◌,
  ltb, leb, ◌==◌, if◌then◌else◌, length, set, take, drop, Outcome, ok, refuse, guard, ◌>>=◌, ◌>>◌,
}
use dns_relay.Prelude.Slices.{Bytes, slice}
use dns_relay.Dns.Ipv4.{Ipv4Addr, octets, parse_ipv4}

-- `resp[2] = hi; resp[3] = lo` behind the length check.
abbrev pub set_flags : Bytes → ℕ → ℕ → Bytes
set_flags resp hi lo = set (set resp 2 hi) 3 lo

unfoldable pub craft_nxdomain_response : Bytes → Outcome Bytes
craft_nxdomain_response payload =
    if ltb (length payload) 12 then refuse else ok (set_flags payload 0x81 0x83)

unfoldable pub craft_servfail_response : Bytes → Outcome Bytes
craft_servfail_response payload =
    if ltb (length payload) 12 then refuse else ok (set_flags payload 0x81 0x82)

-- The `filter_map` over the texts of the addresses.
unfoldable pub parse_all : List Bytes → List Ipv4Addr
unfolding parse_ipv4
parse_all [] = []
parse_all (s ∷ ss) =
    let rest = parse_all ss in elim (parse_ipv4 s) [ none ↦ rest | some ip ↦ ip ∷ rest ]

-- One answer: a pointer to the question's name, its type and class, 60 seconds, four bytes.
abbrev pub redirect_answer : Bytes → Bytes → Ipv4Addr → Bytes
redirect_answer qtype qclass ip =
    0xC0 ∷ 0x0C ∷ (qtype ++ (qclass ++ (0x00 ∷ 0x00 ∷ 0x00 ∷ 0x3C ∷ 0x00 ∷ 0x04 ∷ octets ip)))

abbrev pub redirect_answers : Bytes → Bytes → List Ipv4Addr → Bytes
redirect_answers qtype qclass [] = []
redirect_answers qtype qclass (ip ∷ ips) =
    redirect_answer qtype qclass ip ++ redirect_answers qtype qclass ips

abbrev pub is_nil : List Ipv4Addr → Bool
is_nil [] = true
is_nil (_ ∷ _) = false

-- Behind the parsing of the addresses. The number of answers wraps at 2 ^ 16.
unfoldable pub insert_answers : Bytes → ℕ → List Ipv4Addr → Outcome Bytes
insert_answers payload qname_end ips = do
  guard (not (ltb (length payload) 12))
  let resp = set_flags payload 0x81 0x80
  guard (not (ltb (length resp) (qname_end + 4)))
  qtype ← slice resp qname_end (qname_end + 2)
  qclass ← slice resp (qname_end + 2) (qname_end + 4)
  guard (not (is_nil ips))
  let ancount = length ips % 65536
  let counted = set (set resp 6 (ancount / 256)) 7 (ancount % 256)
  ok (
      take (qname_end + 4) counted
      ++ (redirect_answers qtype qclass ips ++ drop (qname_end + 4) counted))

unfoldable pub craft_redirect_response : Bytes → ℕ → List Bytes → Outcome Bytes
unfolding insert_answers parse_all slice
craft_redirect_response payload qname_end ips_str =
    insert_answers payload qname_end (parse_all ips_str)

unfoldable pub with_txid : Bytes → ℕ → ℕ → Bytes
with_txid packet hi lo = if leb 2 (length packet) then set (set packet 0 hi) 1 lo else packet
