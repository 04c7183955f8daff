-- ===== src/Samples/Settings.antt =====
-- The proxy, the relays and the configuration at concrete inputs.
use dns_relay.Prelude.{
  ℕ, ◌≡◌, refl, ◌==◌, if◌then◌else◌, Returns, ◌↔◌, true, false, none, List, some, Option, [], ◌∷◌,
  ok,
}
use dns_relay.Prelude.Slices.{Bytes, at, slice, u16_at}
use dns_relay.Obfs.{encode, decode}
use dns_relay.Dns.Text.Affix.{strip_prefix}
use dns_relay.Config.{Relay, Conf, RelayTransport, MetricReportType, validate, build_checks}
use dns_relay.Config.Secure.{IsSecure, validate-IsSecure}
use dns_relay.Proxy.{
  plain_udp, udp_obfs, in_order, round_robin, ResolvedTarget, ProxyTarget, resolve_targets,
  forward_query, first_reply, try_order, send_to, send_plain, send_obfs,
}
use dns_relay.Proxy.Forward.{Tried, forward_query-Tried}
use dns_relay.Samples.Rules.{plain, draws}
use dns_relay.Config.Reload.{Seen, Watched, reload_round}
use dns_relay.Config.Reload.Settled.{IsRound, reload_round-Settled}
use dns_relay.Trie.{new_trie}
use dns_relay.Cache.Lru.{Lru}
use dns_relay.Cache.Key.{CacheKey}
use dns_relay.Cache.Store.{CacheEntry}
use dns_relay.Relaying.Lookup.{DnsResolver, lead_lookup}
use dns_relay.Relaying.Lookup.Agrees.{Agrees, lead_lookup-Agrees}
use dns_relay.Samples.Store.{bounded, key_test, same}
use dns_relay.Samples.Wire.{same_text, google, probe, reply}

-- Two targets: one that never answers, and one behind obfuscation that answers with the probe.
abbrev key : Bytes
key = 1 ∷ 2 ∷ []

abbrev found : Bytes → Option (List ℕ)
found [] = none
found (b ∷ _) = some (b ∷ [])

abbrev read_key : Bytes → Option Bytes
read_key text = some text

abbrev exchange : ℕ → Bytes → Option Bytes
exchange addr query = if addr == 2 then some query else none

abbrev targets : List (ProxyTarget Bytes ℕ)
targets =
    record { target_name = []; address = 1 ∷ []; transport = plain_udp; shared_key = none }
    ∷ record { target_name = []; address = 2 ∷ []; transport = udp_obfs; shared_key = some key }
    ∷ []

abbrev first_target : ResolvedTarget Bytes ℕ
first_target = record { name = []; mode = plain_udp; addr = 1; key = none }

abbrev second_target : ResolvedTarget Bytes ℕ
second_target = record { name = []; mode = udp_obfs; addr = 2; key = some key }

targets_found :
    resolve_targets Bytes ℕ found read_key targets ≡ ok (first_target ∷ second_target ∷ [])
unfolding resolve_targets
targets_found = refl

forward_query_run :
    (forward_query Bytes ℕ plain
      (λ _. draws)
      exchange
      (record { targets = first_target ∷ second_target ∷ []; strategy = in_order; cursor = 0 })
      probe).0
    ≡ ok probe
unfolding forward_query try_order first_reply send_to send_plain send_obfs encode decode u16_at at
    slice
forward_query_run = refl

forward_query-Tried_example :
    Tried Bytes ℕ plain
      (λ _. draws)
      exchange
      (first_target ∷ second_target ∷ [])
      probe
      (forward_query Bytes ℕ plain
        (λ _. draws)
        exchange
        (record { targets = first_target ∷ second_target ∷ []; strategy = round_robin; cursor = 3 })
        probe).0
forward_query-Tried_example =
    forward_query-Tried Bytes ℕ plain (λ _. draws) exchange found read_key targets first_target
      (second_target ∷ []) round_robin 3 probe targets_found

abbrev relay : Relay
relay = record {
  relay_key = [];
  relay_url = (b'h' ∷ b't' ∷ b't' ∷ b'p' ∷ b's' ∷ b':' ∷ b'/' ∷ b'/' ∷ b'r' ∷ []);
  transport = RelayTransport.direct;
}

abbrev conf : Conf
conf = record {
  dns_target = [];
  drop_list = google ∷ [];
  redirect_list = [];
  resolvers = [];
  secure_only = true;
  client_subnet = none;
  resolver_searching = record {
    enable = false;
    resolver_source = [];
    resfresh_interval = none;
    ipv4 = true;
    doh = true;
  };
  hotreload_conf = record { enable = true; poll_interval_ms = 1000 };
  relay_conf = record {
    enable = true;
    resolve_manual = false;
    relay_timeout_sec = 5;
    relay_instances = relay ∷ [];
  };
  metric_conf = record { enable = false; report_type = MetricReportType.log; report_interval = 30 };
  vpn_reassertion = false;
  init_tls = false;
  record_history = false;
  record_history_conf = none;
  obfs_conf = record { enable = false; bind_addr = []; keys = [] };
}

conf_accepted : validate conf ≡ none
unfolding validate strip_prefix
conf_accepted = refl

validate-IsSecure_example :
    (validate conf ≡ none ↔ IsSecure conf)
    × (validate conf ≡ none → build_checks conf.resolvers (some conf.relay_conf) true ≡ none)
validate-IsSecure_example = validate-IsSecure conf refl

-- The file of the configuration has changed, and a list of drops is loaded.
abbrev watched : Watched same_text ℕ 0
watched = record {
  conf = conf;
  rule_trie = new_trie;
  cache = 9;
  last_mtime = some 1;
  list_mtimes = [];
}

abbrev seen : Seen
seen = record {
  mtime = some 2;
  modified_before = λ path. none;
  loaded = ok conf;
  read_to_string = λ path. none;
  modified_after = λ path. none;
}

reload_round-Settled_example :
    IsRound same_text ℕ 0 watched seen (reload_round same_text ℕ 0 watched seen)
    × (seen.modified_before ≡ seen.modified_after
        → reload_round same_text ℕ 0 (reload_round same_text ℕ 0 watched seen) seen
          ≡ reload_round same_text ℕ 0 watched seen)
reload_round-Settled_example = reload_round-Settled same_text ℕ 0 watched seen

abbrev cache : Lru CacheKey CacheEntry
cache = bounded key_test 2

abbrev resolver : DnsResolver same_text cache same
resolver = record {
  cache = [];
  in_flight = record {
    entries = λ k. none;
    leaders = λ f. none;
    has_sent = λ f. false;
    receivers = λ f. 1;
    packets = λ f. none;
    next = 0;
  };
}

abbrev google_key : CacheKey
google_key = record {
  name = google;
  qtype = 1;
  qclass = 1;
  query_flags = 1;
  dnssec_ok = false;
  client_subnet = none;
}

lead_lookup-Agrees_example :
    Returns
      (Agrees same_text cache same resolver google_key 0 (ok reply) 5)
      (lead_lookup same_text cache same resolver google_key 0 (ok reply) 5)
lead_lookup-Agrees_example =
    lead_lookup-Agrees same_text cache same resolver google_key 0 (ok reply) 5 refl tt
