-- ===== src/Dns/Ipv4/Octets.antt =====
-- Addresses that `parse` accepts are made of four bytes.
use dns_relay.Prelude.{ℕ, ◌<◌, ◌≡◌, refl, Option, none, some, List, [], ◌∷◌, arith}
use dns_relay.Prelude.Slices.{Bytes}
use dns_relay.Dns.Text.{split_dots}
use dns_relay.Dns.Ipv4.{Ipv4Addr, parse_octet, parse_ipv4, four_octets, four_parts}

abbrev pub IsAddress : Ipv4Addr → Type 0
IsAddress ip = (ip.a < 256) × (ip.b < 256) × (ip.c < 256) × (ip.d < 256)

parse_octet-lt : (s : Bytes) (n : ℕ) → parse_octet s ≡ some n → n < 256
unfolding parse_octet
parse_octet-lt [] n h = (let refuted = h in cc)
parse_octet-lt (x ∷ []) n h = ground arith
parse_octet-lt (x ∷ y ∷ []) n h = ground arith
parse_octet-lt (x ∷ y ∷ z ∷ []) n h = ground arith
parse_octet-lt (x ∷ y ∷ z ∷ w ∷ rest) n h = (let refuted = h in cc)

four_octets-IsAddress :
    (p q r s : Bytes) (ip : Ipv4Addr)
    → four_octets (parse_octet p) (parse_octet q) (parse_octet r) (parse_octet s) ≡ some ip
    → IsAddress ip
four_octets-IsAddress p q r s ip h =
    on (parse_octet p) (parse_octet q) (parse_octet r) (parse_octet s) (parse_octet-lt p)
      (parse_octet-lt q) (parse_octet-lt r) (parse_octet-lt s) h
  where
    on :
        (a b c d : Option ℕ)
        → ((n : ℕ) → a ≡ some n → n < 256)
        → ((n : ℕ) → b ≡ some n → n < 256)
        → ((n : ℕ) → c ≡ some n → n < 256)
        → ((n : ℕ) → d ≡ some n → n < 256)
        → four_octets a b c d ≡ some ip
        → IsAddress ip
    on (some a) (some b) (some c) (some d) ha hb hc hd h =
        ground (arith, ha a refl, hb b refl, hc c refl, hd d refl)
    on none b c d ha hb hc hd h = (let refuted = h in cc)
    on (some a) none c d ha hb hc hd h = (let refuted = h in cc)
    on (some a) (some b) none d ha hb hc hd h = (let refuted = h in cc)
    on (some a) (some b) (some c) none ha hb hc hd h = (let refuted = h in cc)

parts-IsAddress : (parts : List Bytes) (ip : Ipv4Addr) → four_parts parts ≡ some ip → IsAddress ip
parts-IsAddress (p ∷ q ∷ r ∷ s ∷ []) ip h = four_octets-IsAddress p q r s ip h
parts-IsAddress [] ip h = (let refuted = h in cc)
parts-IsAddress (p ∷ []) ip h = (let refuted = h in cc)
parts-IsAddress (p ∷ q ∷ []) ip h = (let refuted = h in cc)
parts-IsAddress (p ∷ q ∷ r ∷ []) ip h = (let refuted = h in cc)
parts-IsAddress (p ∷ q ∷ r ∷ s ∷ t ∷ rest) ip h = (let refuted = h in cc)

pub parse_ipv4-IsAddress : (s : Bytes) (ip : Ipv4Addr) → parse_ipv4 s ≡ some ip → IsAddress ip
unfolding parse_ipv4
parse_ipv4-IsAddress s ip h = parts-IsAddress (split_dots s) ip h
