-- ===== src/Relaying.antt =====
-- The relays of dns_relay/src/relay.rs, and the transport and the resolver of dns_relay/src/client.rs. The
-- ciphers, the base64 codec, the hash and one exchange with a relay are parameters; a failed exchange and
-- one with a status other than success are both errors.
pub mod Lookup
use dns_relay.Prelude.{
  ℕ, zero, suc, ◌+◌, ◌/◌, ◌%◌, ◌^◌, Bool, true, false, not, ◌&&◌, Option, none, some, List, [], ◌∷◌,
  ◌++◌, map, ltb, leb, ◌==◌, if◌then◌else◌, length, take, drop, get_or, Outcome, ok, refuse, panic,
  out_of_fuel, guard, attempt, ◌>>=◌, ◌>>◌,
}
use dns_relay.Prelude.Slices.{Bytes}
use dns_relay.Obfs.{Aead}
use dns_relay.Dns.Text.{is_utf8, lower_byte}
use dns_relay.Dns.Text.Spaces.{trim}
use dns_relay.Dns.Edns.{Ipv4Subnet, set_ecs_ipv4_subnet}
use dns_relay.Dns.Subnet.{IpAddr, effective_ipv4_subnet, parse_public_ipv4_subnet}
use dns_relay.Dns.Ipv4.{Ipv4Addr}
use dns_relay.Dns.Records.{parse_a_records}
use dns_relay.Dns.Query.{build_lookup_query}
use dns_relay.Config.{RelayTransport, direct, google_chained}
use dns_relay.Resolver.Race.{is_usable_response}

-- The length of a nonce of AES-GCM.
abbrev pub nonce_size : ℕ
nonce_size = 12

abbrev from_option {ℓ} : {A : Type ℓ} → Option A → Outcome A
from_option none = refuse
from_option (some a) = ok a

-- The envelope of an Apps Script: the sealed query and the tag of its domain.
pub record AppsScriptRequest : Type 0 where
  pub sent_data : Bytes
  pub tag : Bytes

pub record AppsScriptResponse : Type 0 where
  pub reply_data : Option Bytes
  pub error : Option Bytes

module _ (Key : Type 0) (aead : Aead Key) where
  unfoldable pub encode_for_relay : Key → Bytes → Bytes → Bytes
  encode_for_relay key nonce dns_message = nonce ++ aead.encrypt key nonce dns_message

  unfoldable pub decode_from_relay : Key → Bytes → Outcome Bytes
  decode_from_relay key packet =
      if ltb (length packet) nonce_size
      then refuse
      else from_option (aead.decrypt key (take nonce_size packet) (drop nonce_size packet))

  -- The key of 32 bytes that a text holds.
  unfoldable pub load_key_from_str : (Bytes → Option Bytes) → (Bytes → Key) → Bytes → Outcome Key
  load_key_from_str decode from_slice key_b64 = do
    bytes ← from_option (decode key_b64)
    if length bytes == 32 then ok (from_slice bytes) else refuse

  -- The answer of a relay to a request, or none.
  unfoldable pub resolve_via_relay : (Bytes → Option Bytes) → Key → Bytes → Bytes → Outcome Bytes
  unfolding encode_for_relay decode_from_relay
  resolve_via_relay post key nonce dns_query = do
    body ← from_option (post (encode_for_relay key nonce dns_query))
    decode_from_relay key body

  abbrev hex_digit : ℕ → ℕ
  hex_digit n = if ltb n 10 then b'0' + n else b'a' + n % 10

  unfoldable pub hex_encode : Bytes → Bytes
  hex_encode [] = []
  hex_encode (b ∷ s) = hex_digit (b / 16 % 16) ∷ hex_digit (b % 16) ∷ hex_encode s

  unfoldable pub cache_key_for_domain : (Key → Bytes → Bytes) → Key → Bytes → Bytes
  unfolding hex_encode
  cache_key_for_domain hmac key domain = hex_encode (hmac key (map lower_byte domain))

  abbrev pub unsealed : (Bytes → Option Bytes) → Key → Option AppsScriptResponse → Outcome Bytes
  unsealed decode key none = refuse
  unsealed decode key (some response) = elim response.error [
    | some text ↦ refuse
    | none ↦ (do
      text ← from_option response.reply_data
      sealed ← from_option (decode text)
      decode_from_relay key sealed)
  ]

  unfoldable pub resolve_via_relay_apps_script :
      (Bytes → Bytes)
      → (Bytes → Option Bytes)
      → (Key → Bytes → Bytes)
      → (AppsScriptRequest → Option AppsScriptResponse)
      → Key
      → Bytes
      → Bytes
      → Bytes
      → Outcome Bytes
  unfolding encode_for_relay decode_from_relay cache_key_for_domain
  resolve_via_relay_apps_script encode decode hmac post key nonce domain dns_query =
      unsealed decode key (
        post (record {
          sent_data = encode (encode_for_relay key nonce dns_query);
          tag = cache_key_for_domain hmac key domain;
        }))

  pub record RelayInstance : Type 0 where
    pub key : Key
    pub url : Bytes
    pub transport : RelayTransport

  abbrev pub by_transport : RelayTransport → Outcome Bytes → Outcome Bytes → Outcome Bytes
  by_transport direct via_worker via_script = via_worker
  by_transport google_chained via_worker via_script = via_script

  -- `resolve` of an instance; a request to its URL is an argument for either transport.
  unfoldable pub resolve_instance :
      (Bytes → Bytes → Option Bytes)
      → (Bytes → AppsScriptRequest → Option AppsScriptResponse)
      → (Bytes → Bytes)
      → (Bytes → Option Bytes)
      → (Key → Bytes → Bytes)
      → RelayInstance
      → Bytes
      → Bytes
      → Bytes
      → Outcome Bytes
  unfolding resolve_via_relay resolve_via_relay_apps_script
  resolve_instance post script encode decode hmac relay nonce domain payload =
      by_transport relay.transport (resolve_via_relay (post relay.url) relay.key nonce payload) (
        resolve_via_relay_apps_script encode decode hmac (script relay.url) relay.key nonce domain
          payload)

  pub record RelayPicker : Type 0 where
    pub instances : List RelayInstance
    pub last_idx : ℕ
    pub timeout_duration : ℕ
    pub configured_subnet : Option Ipv4Subnet
    pub discovered_subnet : Option Ipv4Subnet

  abbrev indexed : List RelayInstance → ℕ → Outcome RelayInstance
  indexed [] idx = panic
  indexed (r ∷ rs) idx = ok (get_or (r ∷ rs) (idx % length (r ∷ rs)) r)

  -- `pick`: the next instance in turn, and the counter afterwards.
  unfoldable pub pick_relay : RelayPicker → Outcome RelayInstance × RelayPicker
  pick_relay picker = (
    indexed picker.instances picker.last_idx,
    record picker { last_idx = (picker.last_idx + 1) % 2 ^ 64 },
  )

  unfoldable pub effective_subnet : RelayPicker → IpAddr → Option Ipv4Subnet
  unfolding effective_ipv4_subnet
  effective_subnet picker client_addr =
      effective_ipv4_subnet picker.configured_subnet client_addr picker.discovered_subnet

  abbrev pub same_subnet : Option Ipv4Subnet → Option Ipv4Subnet → Bool
  same_subnet none none = true
  same_subnet (some (a, b, c)) (some (d, e, f)) = a == d && b == e && c == f
  same_subnet _ _ = false

  -- The subnet that is known and the cache, which is emptied when the subnet changes.
  unfoldable pub replace_discovered_subnet :
      {Cache : Type 0}
      → Cache
      → RelayPicker
      → Cache
      → Option Ipv4Subnet
      → Bool × RelayPicker × Cache
  replace_discovered_subnet empty picker cache subnet =
      if same_subnet picker.discovered_subnet subnet
      then (false, picker, cache)
      else (true, record picker { discovered_subnet = subnet }, empty)

-- The body of a subnet discovery.
unfoldable pub subnet_of_body : Bytes → Outcome Ipv4Subnet
unfolding is_utf8 trim parse_public_ipv4_subnet
subnet_of_body body =
    if ltb 32 (length body)
    then refuse
    else do guard (is_utf8 body); from_option (parse_public_ipv4_subnet (trim body))

abbrev pub if_usable : Bytes → Bool → Outcome Bytes
if_usable reply secure_only = do
  usable ← is_usable_response reply secure_only
  if usable then ok reply else refuse

-- `resolve_transport`: by the relay, whose answer for a payload is given if there is a relay, or
-- with what the picker gives.
abbrev pub transported :
    Option (Bytes → Outcome Bytes)
    → Bytes
    → Option Ipv4Subnet
    → Bool
    → Outcome Bytes
    → Outcome Bytes
transported none payload subnet secure_only picked = picked
transported (some relay) payload subnet secure_only picked = do
  with_subnet ← set_ecs_ipv4_subnet payload subnet
  reply ← relay with_subnet
  if_usable reply secure_only

unfoldable pub resolve_transport :
    Option (Bytes → Outcome Bytes)
    → Bytes
    → Option Ipv4Subnet
    → Bool
    → Outcome Bytes
    → Outcome Bytes
unfolding set_ecs_ipv4_subnet is_usable_response
resolve_transport relay payload subnet secure_only picked =
    transported relay payload subnet secure_only picked

-- The addresses of an answer, an error without any.
abbrev pub some_addresses : List Ipv4Addr → Outcome (List Ipv4Addr)
some_addresses [] = refuse
some_addresses (ip ∷ ips) = ok (ip ∷ ips)

unfoldable pub addresses_of : Bytes → Outcome (List Ipv4Addr)
unfolding parse_a_records
addresses_of reply = do addresses ← parse_a_records reply; some_addresses addresses
