-- ===== src/Dns/Ipv4.antt =====
-- IPv4 addresses: the parser and the predicates of `std::net::Ipv4Addr` that the relay calls.
pub mod Octets
use dns_relay.Prelude.{
  ℕ, ◌+◌, ◌-◌, ◌*◌, Bool, ◌&&◌, Option, none, some, List, [], ◌∷◌, leb, if◌then◌else◌,
}
use dns_relay.Prelude.Slices.{Bytes}
use dns_relay.Dns.Text.{between, split_dots}

pub record Ipv4Addr : Type 0 where
  pub a : ℕ
  pub b : ℕ
  pub c : ℕ
  pub d : ℕ

-- `address.octets()`
abbrev pub octets : Ipv4Addr → Bytes
octets ip = ip.a ∷ ip.b ∷ ip.c ∷ ip.d ∷ []

abbrev is_digit : ℕ → Bool
is_digit c = between b'0' b'9' c

abbrev digit : ℕ → ℕ
digit c = c - b'0'

-- One to three digits, no leading zero, at most 255.
unfoldable pub parse_octet : Bytes → Option ℕ
parse_octet (x ∷ []) = if is_digit x then some (digit x) else none
parse_octet (x ∷ y ∷ []) =
    if between b'1' b'9' x && is_digit y then some (digit x * 10 + digit y) else none
parse_octet (x ∷ y ∷ z ∷ []) =
    let n = digit x * 100 + digit y * 10 + digit z in
    if between b'1' b'9' x && is_digit y && is_digit z && leb n 255 then some n else none
parse_octet _ = none

abbrev four_octets : Option ℕ → Option ℕ → Option ℕ → Option ℕ → Option Ipv4Addr
four_octets (some a) (some b) (some c) (some d) = some (record { a = a; b = b; c = c; d = d })
four_octets _ _ _ _ = none

abbrev four_parts : List Bytes → Option Ipv4Addr
four_parts (p ∷ q ∷ r ∷ s ∷ []) =
    four_octets (parse_octet p) (parse_octet q) (parse_octet r) (parse_octet s)
four_parts _ = none

-- `s.parse::<Ipv4Addr>().ok()`
unfoldable pub parse_ipv4 : Bytes → Option Ipv4Addr
unfolding parse_octet split_dots
parse_ipv4 s = four_parts (split_dots s)
