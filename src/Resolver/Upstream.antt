-- ===== src/Resolver/Upstream.antt =====
-- How a query gets to a resolver, in dns_relay/src/resolver.rs: resolve_from_upstream_inner up to the
-- transport, send_query up to its stream, and parse_doq_target. The lookup of a host name is the
-- parameter `to_socket_addrs`.
pub mod Secure
use dns_relay.Prelude.{
  ℕ, zero, suc, ◌+◌, ◌-◌, ◌*◌, Bool, true, false, ◌&&◌, ◌||◌, not, Option, none, some, List, [],
  ◌∷◌, ◌==◌, leb, ltb, if◌then◌else◌, all, any, length, set, Outcome, ok, refuse, attempt, ◌>>=◌,
}
use dns_relay.Prelude.Slices.{Bytes}
use dns_relay.Dns.Text.{between, is_empty}
use dns_relay.Dns.Text.Affix.{strip_prefix}
use dns_relay.Dns.Text.Spaces.{split_once, is_some}
use dns_relay.Dns.Ipv4.{parse_ipv4}
use dns_relay.Dns.Ipv6.{is_ip_address}
use dns_relay.Dns.Edns.{Ipv4Subnet, set_ecs_ipv4_subnet}
use dns_relay.Resolver.Picker.{is_https, is_quic, quic}

abbrev is_digit : ℕ → Bool
is_digit b = between b'0' b'9' b

abbrev decimal_from : ℕ → Bytes → ℕ
decimal_from n [] = n
decimal_from n (b ∷ s) = decimal_from (n * 10 + (b - b'0')) s

-- Digits of a number below a bound, leading zeros included; `sign` allows a plus sign before them.
abbrev parse_below : ℕ → Bytes → Option ℕ
parse_below bound s =
    if not (is_empty s) && all is_digit s && ltb (decimal_from 0 s) bound
    then some (decimal_from 0 s)
    else none

abbrev without_plus : Bytes → Bytes
without_plus [] = []
without_plus (b ∷ s) = if b == b'+' && not (is_empty s) then s else b ∷ s

-- `s.parse::<u16>()`
unfoldable pub parse_u16 : Bytes → Option ℕ
parse_u16 s = parse_below 65536 (without_plus s)

abbrev both_parts : Option ℕ → Bool → Option ℕ
both_parts port true = port
both_parts port false = none

abbrev v4_parts : Option (Bytes × Bytes) → Option ℕ
v4_parts none = none
v4_parts (some (address, port)) = both_parts (parse_below 65536 port) (is_some (parse_ipv4 address))

-- `s.parse::<SocketAddrV4>()`: the port.
unfoldable pub parse_v4_port : Bytes → Option ℕ
unfolding split_once parse_ipv4
parse_v4_port s = v4_parts (split_once b':' s)

abbrev v6_port : Option Bytes → Option ℕ
v6_port none = none
v6_port (some port) = parse_below 65536 port

abbrev v6_scope : Option (Bytes × Bytes) → Bytes → Bool
v6_scope none address = is_ip_address address && any (λ b. b == b':') address
v6_scope (some (front, scope)) address =
    is_ip_address front && any (λ b. b == b':') front && is_some (parse_below 4294967296 scope)

abbrev v6_parts : Option (Bytes × Bytes) → Option ℕ
v6_parts none = none
v6_parts (some (address, rest)) =
    both_parts (v6_port (strip_prefix (b':' ∷ []) rest))
      (v6_scope (split_once b'%' address) address)

abbrev v6_bracket : Option Bytes → Option ℕ
v6_bracket none = none
v6_bracket (some rest) = v6_parts (split_once b']' rest)

-- `s.parse::<SocketAddrV6>()`: an address in brackets, with a scope or without, and the port.
unfoldable pub parse_v6_port : Bytes → Option ℕ
unfolding strip_prefix split_once is_ip_address
parse_v6_port s = v6_bracket (strip_prefix (b'[' ∷ []) s)

-- Where a query goes: over HTTPS, over QUIC, over the shared UDP socket, over a socket of its own, or
-- nowhere, since the resolver is no address.
pub data Route : Type 0 where
  over_https : Route
  over_quic : Route
  over_dispatcher : Route
  over_own_socket : Route
  invalid_resolver : Route

abbrev pub udp_route : Bytes → Bool → Route
udp_route resolver has_dispatcher =
    if is_some (parse_v4_port resolver)
    then if has_dispatcher then over_dispatcher else over_own_socket
    else if is_some (parse_v6_port resolver)
    then over_own_socket
    else invalid_resolver

unfoldable pub route_of : Bytes → Bool → Route
unfolding is_https is_quic parse_v4_port parse_v6_port
route_of resolver has_dispatcher =
    if is_https resolver
    then over_https
    else if is_quic resolver
    then over_quic
    else udp_route resolver has_dispatcher

-- The payload with the client's subnet, or as it is.
unfoldable pub final_payload : Bytes → Option Ipv4Subnet → Outcome Bytes
unfolding set_ecs_ipv4_subnet
final_payload payload effective_subnet =
    attempt (set_ecs_ipv4_subnet payload effective_subnet) (λ p. ok p) (ok payload)

unfoldable pub resolve_from_upstream_inner :
    Bytes → Bytes → Option Ipv4Subnet → Bool → Outcome (Bytes × Route)
unfolding final_payload route_of
resolve_from_upstream_inner payload resolver effective_subnet has_dispatcher = do
  sent ← final_payload payload effective_subnet
  ok (sent, route_of resolver has_dispatcher)

-- The query as send_query writes it, with the transaction id 0.
unfoldable pub doq_query : Bytes → Bytes
doq_query payload = if leb 2 (length payload) then set (set payload 0 0) 1 0 else payload

abbrev doq_default_port : ℕ
doq_default_port = 853

abbrev last_pair : ℕ → Bytes → Option (Bytes × Bytes) → Bool → Option (Bytes × Bytes)
last_pair b s (some (front, back)) here = some (b ∷ front, back)
last_pair b s none true = some ([], s)
last_pair b s none false = none

-- `s.rsplit_once(b)`
unfoldable pub rsplit_once : ℕ → Bytes → Option (Bytes × Bytes)
rsplit_once at_byte [] = none
rsplit_once at_byte (b ∷ s) = last_pair b s (rsplit_once at_byte s) (b == at_byte)

abbrev port_or_default : Option ℕ → ℕ
port_or_default none = doq_default_port
port_or_default (some port) = port

abbrev host_and_port : Bytes → Option (Bytes × Bytes) → Bytes × ℕ
host_and_port rest none = (rest, doq_default_port)
host_and_port rest (some (host, port)) = (host, port_or_default (parse_u16 port))

-- The address of a host: the host itself, or what the lookup gives first.
pub data Target (Addr : Type 0) : Type 0 where
  literal : Bytes → ℕ → Target Addr
  looked_up : Addr → Target Addr

module _ {Addr : Type 0} (to_socket_addrs : Bytes → ℕ → Option (List Addr)) where
  abbrev first_of : Option (List Addr) → Outcome (Target Addr)
  first_of none = refuse
  first_of (some []) = refuse
  first_of (some (address ∷ _)) = ok (looked_up address)

  abbrev target_of : Bytes × ℕ → Outcome (Bytes × Target Addr)
  target_of (host, port) =
      if is_ip_address host
      then ok (host, literal host port)
      else do address ← first_of (to_socket_addrs host port); ok (host, address)

  abbrev doq_target : Option Bytes → Outcome (Bytes × Target Addr)
  doq_target none = refuse
  doq_target (some rest) = target_of (host_and_port rest (rsplit_once b':' rest))

  unfoldable pub parse_doq_target : Bytes → Outcome (Bytes × Target Addr)
  unfolding strip_prefix rsplit_once parse_u16 is_ip_address
  parse_doq_target resolver = doq_target (strip_prefix quic resolver)
