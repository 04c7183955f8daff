-- ===== src/Cache/Key.antt =====
-- The keys of the response cache: `CacheKey` and `cache_key_from_query*`.
pub mod Total
use dns_relay.Prelude.{
  ℕ, ◌+◌, bit_and, bit_or, Bool, true, false, not, Option, none, some, ltb, ◌==◌, length, Outcome,
  ok, attempt, guard, ◌>>=◌, ◌>>◌,
}
use dns_relay.Prelude.Slices.{Bytes, at, u16_at}
use dns_relay.Dns.Name.{parse_domain}
use dns_relay.Dns.Edns.{Ipv4Subnet, find_opt_record}
use dns_relay.Dns.Subnet.{IpAddr, public_ipv4_subnet}

pub record CacheKey : Type 0 where
  pub name : Bytes
  pub qtype : ℕ
  pub qclass : ℕ
  pub query_flags : ℕ
  pub dnssec_ok : Bool
  pub client_subnet : Option Ipv4Subnet

module _ (lower_wide : Bytes → Bytes) where
  unfoldable pub cache_key_from_query_for_subnet : Bytes → Option Ipv4Subnet → Outcome CacheKey
  cache_key_from_query_for_subnet payload client_subnet = do
    guard (not (ltb (length payload) 12))
    (name, qname_end) ← parse_domain lower_wide payload 12
    guard (not (ltb (length payload) (qname_end + 4)))
    qtype ← u16_at payload qname_end
    qclass ← u16_at payload (qname_end + 2)
    recursion ← at payload 2
    checking ← at payload 3
    dnssec_ok ←
        attempt (find_opt_record payload) (λ opt. ok (not (bit_and opt.flags 0x8000 == 0)))
          (ok false)
    ok (record {
      name = name;
      qtype = qtype;
      qclass = qclass;
      query_flags = bit_or (bit_and recursion 0x01) (bit_and checking 0x10);
      dnssec_ok = dnssec_ok;
      client_subnet = client_subnet;
    })

  abbrev and_then_public : Option IpAddr → Option Ipv4Subnet
  and_then_public none = none
  and_then_public (some client_addr) = public_ipv4_subnet client_addr

  unfoldable pub cache_key_from_query_for_client : Bytes → Option IpAddr → Outcome CacheKey
  unfolding cache_key_from_query_for_subnet public_ipv4_subnet
  cache_key_from_query_for_client payload client_addr =
      cache_key_from_query_for_subnet payload (and_then_public client_addr)

  unfoldable pub cache_key_from_query : Bytes → Outcome CacheKey
  unfolding cache_key_from_query_for_client
  cache_key_from_query payload = cache_key_from_query_for_client payload none
