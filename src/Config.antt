-- ===== src/Config.antt =====
-- The configuration of dns_relay: Conf::validate of dns_relay/src/conf.rs, the checks of DnsResolver::build
-- in dns_relay/src/client.rs, and the lists of redirects of shared/src/lib.rs as the file has them.
pub mod Schemes
pub mod Secure
pub mod Redirects
pub mod Reload
use dns_relay.Prelude.{
  ℕ, Bool, true, false, not, ◌&&◌, ◌||◌, Option, none, some, List, [], ◌∷◌, ◌++◌, map, any,
  if◌then◌else◌, Outcome, ok, refuse, ◌>>=◌,
}
use dns_relay.Prelude.Slices.{Bytes}
use dns_relay.Dns.Text.Spaces.{split_once}
use dns_relay.Dns.Edns.{Ipv4Subnet}
use dns_relay.Resolver.Picker.{is_https, is_secure_resolver}

pub data RelayTransport : Type 0 where
  direct : RelayTransport
  google_chained : RelayTransport

pub record Relay : Type 0 where
  pub relay_key : Bytes
  pub relay_url : Bytes
  pub transport : RelayTransport

pub record RelayConf : Type 0 where
  pub enable : Bool
  pub resolve_manual : Bool
  pub relay_timeout_sec : ℕ
  pub relay_instances : List Relay

pub record HotreloadConf : Type 0 where
  pub enable : Bool
  pub poll_interval_ms : ℕ

pub record ResolverSearchingConf : Type 0 where
  pub enable : Bool
  pub resolver_source : List Bytes
  pub resfresh_interval : Option ℕ
  pub ipv4 : Bool
  pub doh : Bool

pub record RecordHisotryConf : Type 0 where
  pub matched_list : List Bytes
  pub lines : ℕ

pub record ObfsConf : Type 0 where
  pub enable : Bool
  pub bind_addr : Bytes
  pub keys : List Bytes

pub data MetricReportType : Type 0 where
  log : MetricReportType
  http : MetricReportType

pub record MetricConf : Type 0 where
  pub enable : Bool
  pub report_type : MetricReportType
  pub report_interval : ℕ

pub record Conf : Type 0 where
  pub dns_target : Bytes
  pub drop_list : List Bytes
  pub redirect_list : List (Bytes × Bytes)
  pub resolvers : List Bytes
  pub secure_only : Bool
  pub client_subnet : Option Ipv4Subnet
  pub resolver_searching : ResolverSearchingConf
  pub hotreload_conf : HotreloadConf
  pub relay_conf : RelayConf
  pub metric_conf : MetricConf
  pub vpn_reassertion : Bool
  pub init_tls : Bool
  pub record_history : Bool
  pub record_history_conf : Option RecordHisotryConf
  pub obfs_conf : ObfsConf

pub data ConfigError : Type 0 where
  insecure_relay_url : ConfigError
  no_bootstrap : ConfigError
  no_secure_upstream : ConfigError
  no_resolver : ConfigError

-- The first check that fails, or none.
abbrev pub first_of : Bool → ConfigError → Option ConfigError → Option ConfigError
first_of failed error later = if failed then some error else later

abbrev pub has_instances : List Relay → Bool
has_instances [] = false
has_instances (_ ∷ _) = true

abbrev pub has_insecure_url : RelayConf → Bool
has_insecure_url relay = relay.enable && any (λ r. not (is_https r.relay_url)) relay.relay_instances

abbrev pub has_secure_resolver : List Bytes → Bool
has_secure_resolver = any is_secure_resolver

unfoldable pub validate : Conf → Option ConfigError
unfolding is_https is_secure_resolver
validate conf =
    let relay = conf.relay_conf in
    let secure = has_secure_resolver conf.resolvers in
    if not conf.secure_only
    then none
    else first_of (has_insecure_url relay) insecure_relay_url (
        first_of (relay.enable && relay.resolve_manual && not secure) no_bootstrap (
          first_of (not secure && not (relay.enable && has_instances relay.relay_instances))
            no_secure_upstream none))

-- `?` behind `conf.validate()`.
abbrev pub validated : Conf → Option ConfigError → Outcome Conf
validated conf none = ok conf
validated conf (some error) = refuse

abbrev pub read_or_refuse {ℓ} : {A : Type ℓ} → Option A → Outcome A
read_or_refuse none = refuse
read_or_refuse (some a) = ok a

-- The content of the file, and toml::from_str, are arguments.
unfoldable pub load_conf : (Bytes → Option Conf) → Option Bytes → Outcome Conf
unfolding validate
load_conf from_str content = do
  text ← read_or_refuse content
  conf ← read_or_refuse (from_str text)
  validated conf (validate conf)

abbrev pub is_enabled : Option RelayConf → Bool
is_enabled none = false
is_enabled (some relay) = relay.enable

abbrev pub is_manual : Option RelayConf → Bool
is_manual none = false
is_manual (some relay) = relay.enable && relay.resolve_manual

abbrev pub is_nil : List Bytes → Bool
is_nil [] = true
is_nil (_ ∷ _) = false

-- The checks before anything is built.
unfoldable pub build_checks : List Bytes → Option RelayConf → Bool → Option ConfigError
unfolding is_secure_resolver
build_checks resolvers relay secure_only =
    let secure = has_secure_resolver resolvers in
    first_of (secure_only && not (is_enabled relay) && not secure) no_secure_upstream (
      first_of (secure_only && is_manual relay && not secure) no_bootstrap
        (first_of (is_nil resolvers && not (is_enabled relay)) no_resolver none))

-- `entry.split_once(':')`, an error without a colon.
abbrev pub domain_and_target : Option (Bytes × Bytes) → Outcome (Bytes × Bytes)
domain_and_target none = refuse
domain_and_target (some pair) = ok pair

unfoldable pub deserialize_redirect_list : List Bytes → Outcome (List (Bytes × Bytes))
unfolding split_once
deserialize_redirect_list [] = ok []
deserialize_redirect_list (entry ∷ entries) =
    let rest = deserialize_redirect_list entries in
    do pair ← domain_and_target (split_once b':' entry); others ← rest; ok (pair ∷ others)

unfoldable pub serialize_redirect_list : List (Bytes × Bytes) → List Bytes
serialize_redirect_list entries = map (λ (domain, target). domain ++ (b':' ∷ target)) entries
