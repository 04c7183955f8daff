-- ===== src/Samples/Wire.antt =====
-- The probe packet of shared/src/constants.rs, an answer to it, and the wire format at both.
use dns_relay.Prelude.{
  ◌+◌, ◌≡◌, refl, map, true, false, some, List, [], ◌∷◌, ◌++◌, arith, length, ok, Ensures, ◌>>=◌,
}
use dns_relay.Prelude.Slices.{Bytes, at, u16_at, u32_at}
use dns_relay.Prelude.Writes.{IsBytes-of_all}
use dns_relay.Dns.Text.{lower_byte, trim_end_dots, split_dots}
use dns_relay.Dns.Ipv4.{Ipv4Addr}
use dns_relay.Dns.Name.{parse_domain, skip_name}
use dns_relay.Dns.Name.Total.{NameWithin, parse_domain-NameWithin}
use dns_relay.Dns.Name.Skip.{skip_name-parse_domain}
use dns_relay.Dns.Query.{build_lookup_query}
use dns_relay.Dns.Query.RoundTrip.{parse_domain-build_lookup_query}
use dns_relay.Dns.Records.{Rr, read_rr, parse_a_records, response_has_only_unspecified_addresses}
use dns_relay.Dns.Records.Walk.{ttl_records, SameOn}
use dns_relay.Dns.Ttl.{response_cache_ttl, age_response_ttls}
use dns_relay.Dns.Ttl.Aged.{aged_rr, SameBesides, age_response_ttls-ttl_records}
use dns_relay.Dns.Respond.{insert_answers, craft_redirect_response}
use dns_relay.Dns.Respond.RoundTrip.{parse_a_records-insert_answers}
use dns_relay.Dns.Edns.{
  EdnsOption, parse_options, replace_ecs, retain_others, ecs_option, set_ecs_ipv4_subnet,
  find_opt_record,
}
use dns_relay.Dns.Edns.Options.{parse_options-replace_ecs}

-- The lower case of wide text, for runs on ASCII names.
abbrev pub same_text : Bytes → Bytes
same_text s = s

abbrev pub google : Bytes
google = b'g' ∷ b'o' ∷ b'o' ∷ b'g' ∷ b'l' ∷ b'e' ∷ b'.' ∷ b'c' ∷ b'o' ∷ b'm' ∷ []

abbrev pub probe : Bytes
probe =
    0xAA ∷ 0xBB ∷ 1 ∷ 0 ∷ 0 ∷ 1 ∷ 0 ∷ 0 ∷ 0 ∷ 0 ∷ 0 ∷ 0 ∷ 6 ∷ b'g' ∷ b'o' ∷ b'o' ∷ b'g' ∷ b'l'
    ∷ b'e' ∷ 3 ∷ b'c' ∷ b'o' ∷ b'm' ∷ 0 ∷ 0 ∷ 1 ∷ 0 ∷ 1 ∷ []

abbrev address : Ipv4Addr
address = record { a = 8; b = 8; c = 4; d = 4 }

abbrev pub reply : Bytes
reply =
    0xAA ∷ 0xBB ∷ 0x81 ∷ 0x80 ∷ 0 ∷ 1 ∷ 0 ∷ 1 ∷ 0 ∷ 0 ∷ 0 ∷ 0 ∷ 6 ∷ b'g' ∷ b'o' ∷ b'o' ∷ b'g' ∷ b'l'
    ∷ b'e' ∷ 3 ∷ b'c' ∷ b'o' ∷ b'm' ∷ 0 ∷ 0 ∷ 1 ∷ 0 ∷ 1 ∷ 0xC0 ∷ 0x0C ∷ 0 ∷ 1 ∷ 0 ∷ 1 ∷ 0 ∷ 0 ∷ 0
    ∷ 60 ∷ 0 ∷ 4 ∷ 8 ∷ 8 ∷ 4 ∷ 4 ∷ []

parse_domain_run : parse_domain same_text probe 12 ≡ ok (google, 24)
unfolding parse_domain
parse_domain_run = refl

skip_name_run : skip_name probe 12 ≡ ok 24
unfolding skip_name
skip_name_run = refl

redirect_run :
    craft_redirect_response probe 24 ((b'8' ∷ b'.' ∷ b'8' ∷ b'.' ∷ b'4' ∷ b'.' ∷ b'4' ∷ []) ∷ [])
    ≡ ok reply
unfolding craft_redirect_response
redirect_run = refl

a_records_run : parse_a_records reply ≡ ok (address ∷ [])
unfolding parse_a_records
a_records_run = refl

unspecified_run : response_has_only_unspecified_addresses reply ≡ ok false
unfolding response_has_only_unspecified_addresses
unspecified_run = refl

pub cache_ttl_run : response_cache_ttl reply ≡ ok 60
unfolding response_cache_ttl at u16_at skip_name read_rr
cache_ttl_run = refl

abbrev aged_reply : Bytes
aged_reply =
    0xAA ∷ 0xBB ∷ 0x81 ∷ 0x80 ∷ 0 ∷ 1 ∷ 0 ∷ 1 ∷ 0 ∷ 0 ∷ 0 ∷ 0 ∷ 6 ∷ b'g' ∷ b'o' ∷ b'o' ∷ b'g' ∷ b'l'
    ∷ b'e' ∷ 3 ∷ b'c' ∷ b'o' ∷ b'm' ∷ 0 ∷ 0 ∷ 1 ∷ 0 ∷ 1 ∷ 0xC0 ∷ 0x0C ∷ 0 ∷ 1 ∷ 0 ∷ 1 ∷ 0 ∷ 0 ∷ 0
    ∷ 50 ∷ 0 ∷ 4 ∷ 8 ∷ 8 ∷ 4 ∷ 4 ∷ []

abbrev pub cleared_reply : Bytes
cleared_reply =
    0 ∷ 0 ∷ 0x81 ∷ 0x80 ∷ 0 ∷ 1 ∷ 0 ∷ 1 ∷ 0 ∷ 0 ∷ 0 ∷ 0 ∷ 6 ∷ b'g' ∷ b'o' ∷ b'o' ∷ b'g' ∷ b'l'
    ∷ b'e' ∷ 3 ∷ b'c' ∷ b'o' ∷ b'm' ∷ 0 ∷ 0 ∷ 1 ∷ 0 ∷ 1 ∷ 0xC0 ∷ 0x0C ∷ 0 ∷ 1 ∷ 0 ∷ 1 ∷ 0 ∷ 0 ∷ 0
    ∷ 50 ∷ 0 ∷ 4 ∷ 8 ∷ 8 ∷ 4 ∷ 4 ∷ []

age_run : age_response_ttls reply 10 false ≡ ok (aged_reply, true)
unfolding age_response_ttls u16_at u32_at skip_name
age_run = refl

ecs_run :
    (set_ecs_ipv4_subnet probe (some (8, 8, 8)) >>= λ p.
    find_opt_record p >>= λ o. parse_options o.options)
    ≡ ok (ecs_option (8, 8, 8) ∷ [])
unfolding set_ecs_ipv4_subnet find_opt_record
ecs_run = refl

parse_domain-NameWithin_example : Ensures (NameWithin probe 12) (parse_domain same_text probe 12)
parse_domain-NameWithin_example = parse_domain-NameWithin same_text probe 12

skip_name-parse_domain_example : skip_name probe 12 ≡ ok 24
skip_name-parse_domain_example =
    skip_name-parse_domain same_text probe google 12 24 parse_domain_run

parse_domain-build_lookup_query_example :
    parse_domain same_text (build_lookup_query 7 google) 12
    ≡ ok (map lower_byte (trim_end_dots google), 12 + (length (trim_end_dots google) + 2))
parse_domain-build_lookup_query_example =
    parse_domain-build_lookup_query same_text 7 google refl
      (unfold split_dots trim_end_dots in omega arith)

age_response_ttls-ttl_records_example :
    (rs : List Rr) × (ttl_records reply ≡ ok rs)
    × (ttl_records aged_reply ≡ ok (map (aged_rr 10 false) rs))
    × SameOn 0 12 reply aged_reply
    × SameBesides rs reply aged_reply
age_response_ttls-ttl_records_example =
    age_response_ttls-ttl_records reply aged_reply 10 false (IsBytes-of_all reply refl) age_run

-- Two options, a cookie and a client subnet that is to be replaced.
abbrev two_options : Bytes
two_options = 0 ∷ 10 ∷ 0 ∷ 2 ∷ 7 ∷ 7 ∷ 0 ∷ 8 ∷ 0 ∷ 1 ∷ 9 ∷ []

parse_options-replace_ecs_example :
    (os : List EdnsOption) × (new : Bytes) × (parse_options two_options ≡ ok os)
    × (replace_ecs two_options (8, 8, 8) ≡ ok new)
    × (parse_options new ≡ ok (retain_others os ++ ecs_option (8, 8, 8) ∷ []))
parse_options-replace_ecs_example =
    parse_options-replace_ecs two_options (8, 8, 8) (IsBytes-of_all two_options refl)

parse_a_records-insert_answers_example :
    (insert_answers probe 24 (address ∷ address ∷ []) >>= parse_a_records)
    ≡ ok (address ∷ address ∷ [])
parse_a_records-insert_answers_example =
    parse_a_records-insert_answers probe 24 (address ∷ address ∷ []) refl skip_name_run
      (omega arith) refl refl (omega arith) (omega arith)
