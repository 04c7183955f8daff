-- ===== src/Dns/Ipv6.antt =====
-- The addresses that `parse::<std::net::IpAddr>` reads: of version 4, or of version 6 as groups of at
-- most four hexadecimal digits, of which `::` leaves out one or more, and the last two of which may
-- be written as an address of version 4.
use dns_relay.Prelude.{
  ℕ, zero, suc, ◌-◌, Bool, true, false, ◌&&◌, ◌||◌, Option, none, some, [], ◌∷◌, ◌==◌,
  if◌then◌else◌, leb, drop,
}
use dns_relay.Prelude.Slices.{Bytes}
use dns_relay.Dns.Text.{between, is_empty}
use dns_relay.Dns.Text.Affix.{strip_prefix}
use dns_relay.Dns.Text.Spaces.{is_some}
use dns_relay.Dns.Ipv4.{parse_ipv4}

abbrev is_hex_digit : ℕ → Bool
is_hex_digit b = between b'0' b'9' b || between b'a' b'f' b || between b'A' b'F' b

abbrev count_hex : Bytes → ℕ
count_hex [] = 0
count_hex (b ∷ s) = let rest = count_hex s in if is_hex_digit b then suc rest else 0

-- The number of groups read, whether they end with an address of version 4, and the text behind them.
abbrev Groups : Type 0
Groups = ℕ × Bool × Bytes

abbrev one_more : Groups → Groups
one_more (count, ends_v4, rest) = (suc count, ends_v4, rest)

abbrev after_colon : Bool → Bytes → Option Bytes
after_colon first s = if first then some s else strip_prefix (b':' ∷ []) s

abbrev read_group : Bytes → (Bytes → Groups) → Bool → Bytes → Groups
read_group s next two_left t =
    let more = one_more (next (drop (count_hex t) t)) in
    if two_left && is_some (parse_ipv4 t)
    then (2, true, [])
    else if leb 1 (count_hex t) && leb (count_hex t) 4
    then more
    else (0, false, s)

abbrev read_after : Bytes → (Bytes → Groups) → Bool → Option Bytes → Groups
read_after s next two_left none = (0, false, s)
read_after s next two_left (some t) = read_group s next two_left t

read_groups : ℕ → Bool → Bytes → Groups
unfolding parse_ipv4 strip_prefix
read_groups zero first s = (0, false, s)
read_groups (suc limit) first s =
    read_after s (read_groups limit false) (leb 1 limit) (after_colon first s)

abbrev ends_there : Groups → Bool
ends_there (count, ends_v4, rest) = is_empty rest

abbrev tail_ends : ℕ → Option Bytes → Bool
tail_ends limit none = false
tail_ends limit (some t) = ends_there (read_groups limit true t)

abbrev whole : Groups → Bool
whole (count, ends_v4, rest) =
    if count == 8
    then is_empty rest
    else if ends_v4
    then false
    else tail_ends (7 - count) (strip_prefix (b':' ∷ b':' ∷ []) rest)

-- `s.parse::<IpAddr>().is_ok()`
unfoldable pub is_ip_address : Bytes → Bool
unfolding read_groups parse_ipv4 strip_prefix
is_ip_address s = is_some (parse_ipv4 s) || whole (read_groups 8 true s)
