-- ===== src/Dns/Subnet.antt =====
-- The client subnets of shared/src/dns.rs: which IPv4 addresses are public, and which subnet a query
-- carries. A socket address is its IP address: the port is not read.
pub mod Blocks
pub mod Public
use dns_relay.Prelude.{
  ℕ, ◌+◌, ◌*◌, bit_and, Bool, true, false, not, ◌&&◌, ◌||◌, Option, none, some, [], ◌∷◌, leb, ◌==◌,
  if◌then◌else◌, Outcome, refuse,
}
use dns_relay.Prelude.Slices.{Bytes}
use dns_relay.Dns.Text.{between}
use dns_relay.Dns.Text.Affix.{eq_bytes}
use dns_relay.Dns.Ipv4.{Ipv4Addr, parse_ipv4}
use dns_relay.Dns.Edns.{Ipv4Subnet, set_ecs_ipv4_subnet}

-- `std::net::IpAddr`
pub data IpAddr : Type 0 where
  v4 : Ipv4Addr → IpAddr
  v6 : Bytes → IpAddr

-- The predicates of `std::net::Ipv4Addr`.
abbrev pub is_unspecified : Ipv4Addr → Bool
is_unspecified ip = ip.a == 0 && ip.b == 0 && ip.c == 0 && ip.d == 0

abbrev pub is_private : Ipv4Addr → Bool
is_private ip = ip.a == 10 || ip.a == 172 && between 16 31 ip.b || ip.a == 192 && ip.b == 168

abbrev pub is_loopback : Ipv4Addr → Bool
is_loopback ip = ip.a == 127

abbrev pub is_link_local : Ipv4Addr → Bool
is_link_local ip = ip.a == 169 && ip.b == 254

abbrev pub is_broadcast : Ipv4Addr → Bool
is_broadcast ip = ip.a == 255 && ip.b == 255 && ip.c == 255 && ip.d == 255

abbrev pub is_documentation : Ipv4Addr → Bool
is_documentation ip =
    ip.a == 192 && ip.b == 0 && ip.c == 2
    || ip.a == 198 && ip.b == 51 && ip.c == 100
    || ip.a == 203 && ip.b == 0 && ip.c == 113

abbrev pub is_multicast : Ipv4Addr → Bool
is_multicast ip = between 224 239 ip.a

unfoldable pub is_public_ipv4 : Ipv4Addr → Bool
is_public_ipv4 ip = not (
    is_unspecified ip
    || is_private ip
    || is_loopback ip
    || is_link_local ip
    || is_broadcast ip
    || is_documentation ip
    || is_multicast ip
    || ip.a == 0
    || ip.a == 100 && bit_and ip.b 0xC0 == 0x40
    || ip.a == 192 && ip.b == 0
    || ip.a == 198 && bit_and ip.b 0xFE == 18
    || leb 240 ip.a)

abbrev pub subnet_of : Ipv4Addr → Ipv4Subnet
subnet_of ip = (ip.a, ip.b, ip.c)

-- `value.split_once('/')`
abbrev pub before : ℕ → Option (Bytes × Bytes) → Option (Bytes × Bytes)
before b none = none
before b (some (s, t)) = some (b ∷ s, t)

unfoldable pub split_once : ℕ → Bytes → Option (Bytes × Bytes)
split_once at [] = none
split_once at (b ∷ s) =
    let rest = split_once at s in if b == at then some ([], s) else before b rest

abbrev public_subnet : Option Ipv4Addr → Option Ipv4Subnet
public_subnet none = none
public_subnet (some ip) = if ip.d == 0 && is_public_ipv4 ip then some (subnet_of ip) else none

abbrev subnet_from : Option (Bytes × Bytes) → Option Ipv4Subnet
subnet_from none = none
subnet_from (some (address, prefix)) =
    if not (eq_bytes prefix (b'2' ∷ b'4' ∷ [])) then none else public_subnet (parse_ipv4 address)

unfoldable pub parse_public_ipv4_subnet : Bytes → Option Ipv4Subnet
unfolding split_once is_public_ipv4 parse_ipv4 eq_bytes
parse_public_ipv4_subnet value = subnet_from (split_once b'/' value)

unfoldable pub public_ipv4_subnet : IpAddr → Option Ipv4Subnet
unfolding is_public_ipv4
public_ipv4_subnet (v6 _) = none
public_ipv4_subnet (v4 ip) = if is_public_ipv4 ip then some (subnet_of ip) else none

-- `Option::or`
abbrev pub or {ℓ} : {A : Type ℓ} → Option A → Option A → Option A
or none d = d
or (some a) d = some a

unfoldable pub effective_ipv4_subnet :
    Option Ipv4Subnet → IpAddr → Option Ipv4Subnet → Option Ipv4Subnet
unfolding public_ipv4_subnet
effective_ipv4_subnet override_subnet client_addr discovered =
    or (or override_subnet (public_ipv4_subnet client_addr)) discovered

abbrev first_three : Option Ipv4Addr → Option Ipv4Subnet
first_three none = none
first_three (some ip) = some (subnet_of ip)

-- The subnet that `set_ecs_option` hands on, for an IPv4 client.
unfoldable pub ecs_subnet : Ipv4Addr → Option Ipv4Addr → Option Ipv4Subnet
unfolding public_ipv4_subnet
ecs_subnet ip fabricated =
    if is_unspecified ip
    then none
    else if is_loopback ip
    then first_three fabricated
    else public_ipv4_subnet (v4 ip)

unfoldable pub set_ecs_option : Bytes → IpAddr → Option Ipv4Addr → Outcome Bytes
unfolding ecs_subnet set_ecs_ipv4_subnet
set_ecs_option payload (v6 _) fabricated = refuse
set_ecs_option payload (v4 ip) fabricated = set_ecs_ipv4_subnet payload (ecs_subnet ip fabricated)
