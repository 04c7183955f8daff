-- ===== src/Trie/Blocklist.antt =====
-- The block lists of shared/src/domain_trie.rs: plain names, hosts files, Adblock Plus, dnsmasq and
-- Unbound. A String is its UTF-8 bytes.
pub mod Names
use dns_relay.Prelude.{
  ℕ, Bool, true, false, ◌&&◌, ◌||◌, not, Option, none, some, List, [], ◌∷◌, ◌==◌, if◌then◌else◌,
  leb, length, all, any, map,
}
use dns_relay.Prelude.Slices.{Bytes}
use dns_relay.Dns.Text.{between, is_empty, lower_byte, split_dots, trim_end_dots}
use dns_relay.Dns.Text.Affix.{strip_prefix}
use dns_relay.Dns.Text.Spaces.{
  trim, split_whitespace, lines, trim_end_byte, before_any, split_byte, starts_with, contains,
}
use dns_relay.Dns.Ipv6.{is_ip_address}
use dns_relay.Trie.{unwrap_or, star_dot}

-- `b.is_ascii_alphanumeric() || matches!(b, b'-' | b'_')`
abbrev pub is_name_byte : ℕ → Bool
is_name_byte b =
    between b'0' b'9' b || between b'A' b'Z' b || between b'a' b'z' b || b == b'-' || b == b'_'

abbrev pub is_label : Bytes → Bool
is_label label = not (is_empty label) && leb (length label) 63 && all is_name_byte label

unfoldable pub is_dns_name : Bytes → Bool
unfolding split_dots
is_dns_name name =
    leb (length name) 253 && any (λ b. b == b'.') name && all is_label (split_dots name)

abbrev adblock : Bytes
adblock = b'|' ∷ b'|' ∷ []

abbrev dnsmasq_address : Bytes
dnsmasq_address = b'a' ∷ b'd' ∷ b'd' ∷ b'r' ∷ b'e' ∷ b's' ∷ b's' ∷ b'=' ∷ b'/' ∷ []

abbrev dnsmasq_server : Bytes
dnsmasq_server = b's' ∷ b'e' ∷ b'r' ∷ b'v' ∷ b'e' ∷ b'r' ∷ b'=' ∷ b'/' ∷ []

abbrev unbound_zone : Bytes
unbound_zone = b'l' ∷ b'o' ∷ b'c' ∷ b'a' ∷ b'l' ∷ b'-' ∷ b'z' ∷ b'o' ∷ b'n' ∷ b'e' ∷ b':' ∷ []

abbrev always_nxdomain : Bytes
always_nxdomain =
    b'a' ∷ b'l' ∷ b'w' ∷ b'a' ∷ b'y' ∷ b's' ∷ b'_' ∷ b'n' ∷ b'x' ∷ b'd' ∷ b'o' ∷ b'm' ∷ b'a' ∷ b'i'
    ∷ b'n' ∷ []

abbrev static : Bytes
static = b's' ∷ b't' ∷ b'a' ∷ b't' ∷ b'i' ∷ b'c' ∷ []

abbrev redirected : Bytes
redirected = b'r' ∷ b'e' ∷ b'd' ∷ b'i' ∷ b'r' ∷ b'e' ∷ b'c' ∷ b't' ∷ []

abbrev second_of : List Bytes → Option Bytes
second_of (_ ∷ s ∷ _) = some s
second_of _ = none

-- A zone of Unbound that is blocked, and its name between quotation marks.
abbrev zone_candidate : Bytes → Option Bytes
zone_candidate rest =
    let quoted = second_of (split_byte 34 rest) in
    if contains rest always_nxdomain || contains rest static || contains rest redirected
    then quoted
    else none

-- A name, or an address with the name behind it.
abbrev hosts_candidate : List Bytes → Option Bytes
hosts_candidate [] = none
hosts_candidate (first ∷ rest) =
    if is_ip_address first then second_of (first ∷ rest) else some first

abbrev adblock_end : ℕ → Bool
adblock_end b = b == b'^' || b == b'$' || b == b'/'

abbrev unless_zone : Bytes → Option Bytes → Option Bytes
unless_zone line (some rest) = zone_candidate rest
unless_zone line none = hosts_candidate (split_whitespace line)

abbrev unless_address : Bytes → Option Bytes → Option Bytes
unless_address line (some rest) = some (before_any (λ b. b == b'/') rest)
unless_address line none =
    if starts_with line dnsmasq_server
    then none
    else unless_zone line (strip_prefix unbound_zone line)

abbrev unless_adblock : Bytes → Option Bytes → Option Bytes
unless_adblock line (some rest) = some (before_any adblock_end rest)
unless_adblock line none = unless_address line (strip_prefix dnsmasq_address line)

-- The part of a line that may be a name.
unfoldable pub candidate_of : Bytes → Option Bytes
unfolding strip_prefix split_whitespace before_any split_byte starts_with contains is_ip_address
candidate_of line = unless_adblock line (strip_prefix adblock line)

-- Without white space around it, dots behind it and `*.` before it.
unfoldable pub bare : Bytes → Bytes
unfolding trim trim_end_dots strip_prefix
bare candidate =
    unwrap_or (strip_prefix star_dot (trim_end_dots (trim candidate)))
      (trim_end_dots (trim candidate))

abbrev pub is_comment : Bytes → Bool
is_comment [] = true
is_comment (b ∷ _) = b == b'#' || b == b'!'

abbrev pub named : Option Bytes → Option Bytes
named none = none
named (some candidate) =
    if is_dns_name (bare candidate) then some (map lower_byte (bare candidate)) else none

unfoldable pub parse_blocklist_line : Bytes → Option Bytes
unfolding trim trim_end_byte candidate_of is_dns_name bare
parse_blocklist_line raw_line =
    let line = trim_end_byte 0x0D (trim raw_line) in
    if is_comment line then none else named (candidate_of line)

abbrev pub kept : Option Bytes → List Bytes → List Bytes
kept none later = later
kept (some t) later = t ∷ later

abbrev pub filter_map : (Bytes → Option Bytes) → List Bytes → List Bytes
filter_map f [] = []
filter_map f (s ∷ rest) = kept (f s) (filter_map f rest)

unfoldable pub parse_blocklist : Bytes → List Bytes
unfolding lines parse_blocklist_line
parse_blocklist content = filter_map parse_blocklist_line (lines content)
