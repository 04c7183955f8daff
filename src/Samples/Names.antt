-- ===== src/Samples/Names.antt =====
-- Patterns, addresses and subnets at concrete values.
use dns_relay.Prelude.{◌≡◌, ◌↔◌, refl, true, not, none, some, [], ◌∷◌, arith}
use dns_relay.Prelude.Slices.{Bytes}
use dns_relay.Dns.Ipv4.{Ipv4Addr}
use dns_relay.Dns.Patterns.{
  matches_domain_pattern, matches_domain_pattern-Covers, Covers, normalized,
}
use dns_relay.Dns.Subnet.{v4, is_public_ipv4, parse_public_ipv4_subnet, effective_ipv4_subnet}
use dns_relay.Dns.Subnet.Blocks.{is_special, is_public_ipv4-blocks}
use dns_relay.Samples.Wire.{same_text, google}

abbrev any_google : Bytes
any_google = b'*' ∷ b'.' ∷ google

pattern_run : matches_domain_pattern same_text google any_google ≡ true
unfolding matches_domain_pattern
pattern_run = refl

matches_domain_pattern-Covers_example :
    (matches_domain_pattern same_text google any_google ≡ true)
    ↔ Covers (normalized same_text google) (normalized same_text any_google)
matches_domain_pattern-Covers_example = matches_domain_pattern-Covers same_text google any_google

abbrev shared_address : Ipv4Addr
shared_address = record { a = 100; b = 64; c = 1; d = 2 }

is_public_ipv4-blocks_example : is_public_ipv4 shared_address ≡ not (is_special shared_address)
is_public_ipv4-blocks_example =
    is_public_ipv4-blocks shared_address (omega arith) (omega arith) (omega arith) (omega arith)

abbrev resolver_address : Ipv4Addr
resolver_address = record { a = 8; b = 8; c = 4; d = 4 }

effective_run : effective_ipv4_subnet none (v4 resolver_address) none ≡ some (8, 8, 4)
unfolding effective_ipv4_subnet
effective_run = refl

abbrev configured : Bytes
configured = b'8' ∷ b'.' ∷ b'8' ∷ b'.' ∷ b'4' ∷ b'.' ∷ b'0' ∷ b'/' ∷ b'2' ∷ b'4' ∷ []

configured_run : parse_public_ipv4_subnet configured ≡ some (8, 8, 4)
unfolding parse_public_ipv4_subnet
configured_run = refl
