-- ===== src/Resolver/Discovery/Entries.antt =====
-- What the lines of a resolver list are read as.
use dns_relay.Prelude.{
  ◌≡◌, refl, ap, ◌∙◌, Bool, true, false, ◌&&◌, Option, none, some, List, [], ◌∷◌, ◌++◌, ◌==◌, All,
  &&→both, ◌⊎◌, inl, inr, Bool-cases,
}
use dns_relay.Prelude.Slices.{Bytes}
use dns_relay.Dns.Text.Spaces.{trim, lines, before_any, is_some}
use dns_relay.Dns.Ipv4.{parse_ipv4}
use dns_relay.Resolver.Picker.{is_https}
use dns_relay.Resolver.Discovery.{
  contains_colon, dns_port, with_port, classify_line, starts_comment, pushed, entries_of,
  parse_resolver_list,
}

-- The part of an address before its port.
abbrev pub host : Bytes → Bytes
host = before_any (λ b. b == b':')

-- An address of DNS over HTTPS, or an IPv4 address with a port.
abbrev pub IsEntry : Bool → Bool → Bytes → Type 0
IsEntry keep_ipv4 keep_doh s =
    ((keep_doh ≡ true) × (is_https s ≡ true))
    ⊎ ((keep_ipv4 ≡ true) × (is_some (parse_ipv4 (host s)) ≡ true) × (contains_colon s ≡ true))

contains_colon-append : (s : Bytes) → contains_colon (s ++ dns_port) ≡ true
contains_colon-append [] = refl
contains_colon-append (b ∷ s) =
    rw (contains_colon-append s)
      (elim (Bool-cases (b == b':')) [ inl e ↦ rw e refl | inr e ↦ rw e refl ])

host-append : (s : Bytes) → contains_colon s ≡ false → host (s ++ dns_port) ≡ host s
unfolding before_any
host-append [] h = refl
host-append (b ∷ s) h = elim (Bool-cases (b == b':')) [
  | inl e ↦ (let refuted = rw e at h in cc)
  | inr e ↦ rw (e, host-append s (rw e at h)) refl
]

with_port-host : (s : Bytes) → (host (with_port s) ≡ host s) × (contains_colon (with_port s) ≡ true)
unfolding with_port
with_port-host s = elim (Bool-cases (contains_colon s)) [
  | inl e ↦ rw e (refl, e)
  | inr e ↦ rw e (host-append s e, contains_colon-append s)
]

abbrev Listed : Bool → Bool → Option Bytes → Type 0
Listed keep_ipv4 keep_doh none = Unit
Listed keep_ipv4 keep_doh (some s) = IsEntry keep_ipv4 keep_doh s

classify_line-Listed :
    (line : Bytes) (keep_ipv4 keep_doh : Bool)
    → Listed keep_ipv4 keep_doh (classify_line line keep_ipv4 keep_doh)
unfolding classify_line
classify_line-Listed line keep_ipv4 keep_doh = elim (Bool-cases (is_https line)) [
  | inl e ↦ rw e (elim (Bool-cases keep_doh) [ inl d ↦ rw d (inl (refl, e)) | inr d ↦ rw d tt ])
  | inr e ↦ rw e (elim (Bool-cases (is_some (parse_ipv4 (host line)) && keep_ipv4)) [
    | inl h ↦
        let (address, kept) = &&→both (is_some (parse_ipv4 (host line))) keep_ipv4 h in
        let (same_host, port) = with_port-host line in
        rw h (inr (kept, ap (λ s. is_some (parse_ipv4 s)) same_host ∙ address, port))
    | inr h ↦ rw h tt
  ])
]

pushed-All :
    (keep_ipv4 keep_doh : Bool) (o : Option Bytes) (rest : List Bytes)
    → Listed keep_ipv4 keep_doh o
    → All (IsEntry keep_ipv4 keep_doh) rest
    → All (IsEntry keep_ipv4 keep_doh) (pushed o rest)
pushed-All keep_ipv4 keep_doh none rest h later = later
pushed-All keep_ipv4 keep_doh (some s) rest h later = (h, later)

entries_of-IsEntry :
    (texts : List Bytes) (keep_ipv4 keep_doh : Bool)
    → All (IsEntry keep_ipv4 keep_doh) (entries_of texts keep_ipv4 keep_doh)
unfolding entries_of
entries_of-IsEntry [] keep_ipv4 keep_doh = tt
entries_of-IsEntry (text ∷ rest) keep_ipv4 keep_doh =
    let later = entries_of-IsEntry rest keep_ipv4 keep_doh in
    elim (Bool-cases (starts_comment (trim text))) [
      | inl e ↦ rw e later
      | inr e ↦ rw e (
          pushed-All keep_ipv4 keep_doh (classify_line (trim text) keep_ipv4 keep_doh)
            (entries_of rest keep_ipv4 keep_doh)
            (classify_line-Listed (trim text) keep_ipv4 keep_doh) later)
    ]

-- Whatever a source sends, each resolver that is read from it is an address of DNS over HTTPS, where
-- those are wanted, or has an IPv4 address before its first colon, where those are wanted, and has a
-- colon.
pub parse_resolver_list-IsEntry :
    (body : Bytes) (keep_ipv4 keep_doh : Bool)
    → All (IsEntry keep_ipv4 keep_doh) (parse_resolver_list body keep_ipv4 keep_doh)
unfolding parse_resolver_list
parse_resolver_list-IsEntry body keep_ipv4 keep_doh =
    entries_of-IsEntry (lines body) keep_ipv4 keep_doh
