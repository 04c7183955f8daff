-- ===== src/Config/Secure.antt =====
-- What a configuration with secure_only has to have.
use dns_relay.Prelude.{
  ◌≡◌, refl, ap, Bool, true, false, not, ◌&&◌, Option, none, some, List, [], ◌∷◌, ◌⊎◌, ◌↔◌, inl,
  inr, Bool-cases,
}
use dns_relay.Prelude.Slices.{Bytes}
use dns_relay.Cache.Lru.{Has}
use dns_relay.Resolver.Picker.{is_https, is_secure_resolver}
use dns_relay.Config.Schemes.{
  StartsWith, https_scheme, IsSecureAddress, is_https-StartsWith,
  is_secure_resolver-IsSecureAddress, any-Has, any-none,
}
use dns_relay.Config.{
  Conf, Relay, RelayConf, ConfigError, first_of, has_instances, has_insecure_url,
  has_secure_resolver, validate, is_nil, build_checks,
}

-- If relays are in use, each of them is reached over HTTPS; and there is a resolver over HTTPS or QUIC, or
-- relays are in use, are not looked up by a resolver, and there is one.
pub record IsSecure (conf : Conf) : Type 0 where
  pub relays :
      conf.relay_conf.enable ≡ true
      → (r : Relay) → Has r conf.relay_conf.relay_instances
      → StartsWith https_scheme r.relay_url
  pub upstream :
      ((address : Bytes) × Has address conf.resolvers × IsSecureAddress address)
      ⊎ ((conf.relay_conf.enable ≡ true)
          × (conf.relay_conf.resolve_manual ≡ false)
          × ((r : Relay) × Has r conf.relay_conf.relay_instances))

-- The same by the tests of the code.
record IsTested (conf : Conf) : Type 0 where
  pub relays : has_insecure_url conf.relay_conf ≡ false
  pub upstream :
      (has_secure_resolver conf.resolvers ≡ true)
      ⊎ ((conf.relay_conf.enable ≡ true)
          × (conf.relay_conf.resolve_manual ≡ false)
          × (has_instances conf.relay_conf.relay_instances ≡ true))

first_of-none :
    (failed : Bool) (error : ConfigError) (later : Option ConfigError)
    → first_of failed error later ≡ none
    → (failed ≡ false) × (later ≡ none)
first_of-none true error later h = cc
first_of-none false error later h = (refl, h)

upstream_of :
    (secure enable manual instances : Bool)
    → (enable && manual && not secure) ≡ false
    → (not secure && not (enable && instances)) ≡ false
    → (secure ≡ true) ⊎ ((enable ≡ true) × (manual ≡ false) × (instances ≡ true))
upstream_of true enable manual instances a b = inl refl
upstream_of false true false true a b = inr (refl, refl, refl)
upstream_of false true false false a b = cc
upstream_of false true true instances a b = cc
upstream_of false false manual instances a b = cc

some_resolver :
    (resolvers : List Bytes) → has_secure_resolver resolvers ≡ true → is_nil resolvers ≡ false
some_resolver [] h = cc
some_resolver (r ∷ rs) h = refl

builds_of :
    (resolvers : List Bytes) (relay : RelayConf)
    → (relay.enable && relay.resolve_manual && not (has_secure_resolver resolvers)) ≡ false
    → (not (has_secure_resolver resolvers)
        && not (relay.enable && has_instances relay.relay_instances))
      ≡ false
    → build_checks resolvers (some relay) true ≡ none
unfolding build_checks
builds_of resolvers relay a b = elim (Bool-cases (has_secure_resolver resolvers)) [
  | inl s ↦
      rw (s, some_resolver resolvers s)
        (elim (Bool-cases relay.enable) [
          | inl e ↦
              rw e
                (elim (Bool-cases relay.resolve_manual) [ inl m ↦ rw m refl | inr m ↦ rw m refl ])
          | inr e ↦ rw e refl
        ])
  | inr s ↦
      elim (upstream_of false relay.enable relay.resolve_manual
        (has_instances relay.relay_instances) (rw s at a) (rw s at b)) [
          | inl absurd_case ↦ cc
          | inr (e, m, i) ↦
              rw (s, e, m)
                (elim (Bool-cases (is_nil resolvers)) [ inl n ↦ rw n refl | inr n ↦ rw n refl ])
        ]
]

module _ (conf : Conf) (only : conf.secure_only ≡ true) where
  accepted-IsTested :
      validate conf ≡ none
      → IsTested conf × (build_checks conf.resolvers (some conf.relay_conf) true ≡ none)
  unfolding validate
  accepted-IsTested accepted =
      let relay = conf.relay_conf in
      let secure = has_secure_resolver conf.resolvers in
      let later =
        first_of (relay.enable && relay.resolve_manual && not secure) ConfigError.no_bootstrap (
          first_of (not secure && not (relay.enable && has_instances relay.relay_instances))
            ConfigError.no_secure_upstream none) in
      let (urls, rest) =
        first_of-none (has_insecure_url relay) ConfigError.insecure_relay_url later
          (rw only at accepted) in
      let (bootstrap, last) =
        first_of-none (relay.enable && relay.resolve_manual && not secure) ConfigError.no_bootstrap
          _ rest in
      let (upstream, _) =
        first_of-none (not secure && not (relay.enable && has_instances relay.relay_instances))
          ConfigError.no_secure_upstream none last in
      (
        record {
          relays = urls;
          upstream =
              upstream_of secure relay.enable relay.resolve_manual
                (has_instances relay.relay_instances) bootstrap upstream;
        },
        builds_of conf.resolvers relay bootstrap upstream,
      )

  IsTested-accepted : IsTested conf → validate conf ≡ none
  unfolding validate
  IsTested-accepted tested =
      rw (only, tested.relays)
        (elim tested.upstream [
          | inl secure ↦ rw secure (elim (Bool-cases conf.relay_conf.enable) [
            | inl e ↦ rw e (elim (Bool-cases conf.relay_conf.resolve_manual) [
              | inl m ↦ rw m refl
              | inr m ↦ rw m refl
            ])
            | inr e ↦ rw e refl
          ])
          | inr (enable, manual, there) ↦
              rw (enable, manual, there)
                (elim (Bool-cases (has_secure_resolver conf.resolvers)) [
                  | inl e ↦ rw e refl
                  | inr e ↦ rw e refl
                ])
        ])

not-false : (b : Bool) → not b ≡ false → b ≡ true
not-false true h = refl
not-false false h = cc

urls_safe :
    (relay : RelayConf)
    → has_insecure_url relay ≡ false ↔ (
        relay.enable ≡ true
        → (r : Relay) → Has r relay.relay_instances
        → StartsWith https_scheme r.relay_url)
urls_safe relay = (
  λ h enable r m. (is_https-StartsWith r.relay_url).0 (
      not-false (is_https r.relay_url) (
        (any-none (λ r. not (is_https r.relay_url)) relay.relay_instances).0 (rw enable at h) r m)),
  λ safe. elim (Bool-cases relay.enable) [
    | inl enable ↦ rw enable (
        (any-none (λ r. not (is_https r.relay_url)) relay.relay_instances).1
          (λ r m. ap not ((is_https-StartsWith r.relay_url).1 (safe enable r m))))
    | inr off ↦ rw off refl
  ],
)

instances_there : (relays : List Relay) → has_instances relays ≡ true ↔ ((r : Relay) × Has r relays)
instances_there [] = ((λ h. cc), (λ (r, m). absurd m))
instances_there (r ∷ relays) = ((λ h. (r, inl refl)), (λ there. refl))

resolver_there :
    (resolvers : List Bytes)
    → has_secure_resolver resolvers ≡ true
      ↔ ((address : Bytes) × Has address resolvers × IsSecureAddress address)
resolver_there resolvers = (
  λ h.
      (let (address, m, e) = (any-Has is_secure_resolver resolvers).0 h in
        (address, m, (is_secure_resolver-IsSecureAddress address).0 e)),
  λ (address, m, secure).
      (any-Has is_secure_resolver resolvers).1
        (address, m, (is_secure_resolver-IsSecureAddress address).1 secure),
)

IsTested-IsSecure : (conf : Conf) → IsTested conf ↔ IsSecure conf
IsTested-IsSecure conf = (
  λ tested. record {
    relays = (urls_safe conf.relay_conf).0 tested.relays;
    upstream = elim tested.upstream [
      | inl secure ↦ inl ((resolver_there conf.resolvers).0 secure)
      | inr (e, m, i) ↦ inr (e, m, (instances_there conf.relay_conf.relay_instances).0 i)
    ];
  },
  λ secure. record {
    relays = (urls_safe conf.relay_conf).1 secure.relays;
    upstream = elim secure.upstream [
      | inl there ↦ inl ((resolver_there conf.resolvers).1 there)
      | inr (e, m, i) ↦ inr (e, m, (instances_there conf.relay_conf.relay_instances).1 i)
    ];
  },
)

-- A configuration with secure_only is accepted exactly if, when relays are in use, each of them has an
-- https:// URL, and there is an authenticated upstream: a resolver whose address starts with https:// or
-- quic://, or a relay in use that no resolver has to find. One that is accepted also passes the
-- checks of the resolver that the library builds from it.
pub validate-IsSecure :
    (conf : Conf)
    → conf.secure_only ≡ true
    → (validate conf ≡ none ↔ IsSecure conf)
      × (validate conf ≡ none → build_checks conf.resolvers (some conf.relay_conf) true ≡ none)
validate-IsSecure conf only = (
  (
    (λ accepted. (IsTested-IsSecure conf).0 (accepted-IsTested conf only accepted).0),
    (λ secure. IsTested-accepted conf only ((IsTested-IsSecure conf).1 secure)),
  ),
  (λ accepted. (accepted-IsTested conf only accepted).1),
)
