-- ===== src/Samples/Lists.antt =====
-- A configuration with a list file, a label glob and redirects, and what it says of some domains.
use dns_relay.Prelude.{
  ◌≡◌, refl, true, Option, none, some, List, [], ◌∷◌, ◌++◌, map, ok, Outcome, if◌then◌else◌,
  Returns,
}
use dns_relay.Prelude.Slices.{Bytes}
use dns_relay.Dns.Text.{to_lowercase, trim_end_dots, split_dots}
use dns_relay.Dns.Text.Affix.{strip_prefix, eq_bytes}
use dns_relay.Dns.Text.Spaces.{
  chars, trim, split_whitespace, lines, has, trim_end_byte, before_any, split_byte, split_once,
  starts_with, contains,
}
use dns_relay.Dns.Ipv6.{is_ip_address}
use dns_relay.Dns.Patterns.{normalized}
use dns_relay.Trie.{new_trie, insert_path, insert_with_policy, insert_drop, lookup_path}
use dns_relay.Trie.Glob.{
  match_drop, match_redirect, RuleMatch, lookup, rule_match, check_rules, wildcard_loop,
  wildcard_matches, all_match, label_glob_matches, find_glob,
}
use dns_relay.Trie.Glob.Match.{no_star, glob, wildcard_matches-glob}
use dns_relay.Trie.Glob.Total.{lookup-Returns}
use dns_relay.Trie.Glob.Lookup.{verdict}
use dns_relay.Trie.Blocklist.{
  is_dns_name, parse_blocklist, parse_blocklist_line, candidate_of, bare,
}
use dns_relay.Trie.Build.{
  build, drop_entries, drop_patterns, drop_pattern, redirect_entries, redirect_lines,
  insert_redirect, redirect_ips, read_list_file, is_file_reference, referenced_rule_files, files_of,
}
use dns_relay.Trie.Build.Files.{redirect_lines-read_list_file}
use dns_relay.Trie.Build.Rules.{dropped, dropped_patterns, redirect_rules}
use dns_relay.Trie.Build.Verdict.{check_rules-build}
use dns_relay.Samples.Wire.{same_text}

abbrev hosts : Bytes
hosts =
    (b'0' ∷ b'.' ∷ b'0' ∷ b'.' ∷ b'0' ∷ b'.' ∷ b'0' ∷ b' ' ∷ b'A' ∷ b'D' ∷ b'.' ∷ b'x' ∷ b'.' ∷ b'o'
      ∷ b'r' ∷ b'g' ∷ [])
    ++ (0x0D ∷ 0x0A ∷ [])
    ++ (b'!' ∷ b' ' ∷ b'n' ∷ b'o' ∷ b't' ∷ b'e' ∷ [])
    ++ (0x0A ∷ [])
    ++ (b'|' ∷ b'|' ∷ b't' ∷ b'.' ∷ b'x' ∷ b'.' ∷ b'o' ∷ b'r' ∷ b'g' ∷ b'^' ∷ b'$' ∷ b't' ∷ b'h'
        ∷ b'i' ∷ b'r' ∷ b'd' ∷ b'-' ∷ b'p' ∷ b'a' ∷ b'r' ∷ b't' ∷ b'y' ∷ [])
    ++ (0x0A ∷ [])
    ++ (b':' ∷ b':' ∷ b'1' ∷ b' ' ∷ b's' ∷ b'.' ∷ b'x' ∷ b'.' ∷ b'o' ∷ b'r' ∷ b'g' ∷ [])
    ++ (0x0A ∷ [])
    ++ (b'h' ∷ b'e' ∷ b'a' ∷ b'd' ∷ b'i' ∷ b'n' ∷ b'g' ∷ [])

abbrev hosts_path : Bytes
hosts_path = (b'.' ∷ b'/' ∷ b'h' ∷ b'o' ∷ b's' ∷ b't' ∷ b's' ∷ [])

abbrev disk : Bytes → Option Bytes
disk path = if eq_bytes path hosts_path then some hosts else none

abbrev drop_list : List Bytes
drop_list =
    (b'#' ∷ b'c' ∷ [])
    ∷ (b' ' ∷ b'.' ∷ b'/' ∷ b'h' ∷ b'o' ∷ b's' ∷ b't' ∷ b's' ∷ b' ' ∷ [])
    ∷ (b'a' ∷ b'd' ∷ b'-' ∷ b'*' ∷ b'.' ∷ b'c' ∷ b'o' ∷ b'm' ∷ [])
    ∷ []

abbrev redirect_list : List (Bytes × Bytes)
redirect_list =
    (
      (b'*' ∷ b'.' ∷ b'l' ∷ b'a' ∷ b'n' ∷ []),
      (b'1' ∷ b'0' ∷ b'.' ∷ b'0' ∷ b'.' ∷ b'0' ∷ b'.' ∷ b'5' ∷ b':' ∷ b'5' ∷ b'3' ∷ b',' ∷ b'1'
          ∷ b'0' ∷ b'.' ∷ b'0' ∷ b'.' ∷ b'0' ∷ b'.' ∷ b'6' ∷ []),
    )
    ∷ ((b'.' ∷ b'/' ∷ b'h' ∷ b'o' ∷ b's' ∷ b't' ∷ b's' ∷ []), [])
    ∷ []

abbrev tracker : Bytes
tracker = (b'a' ∷ b'.' ∷ b'T' ∷ b'.' ∷ b'x' ∷ b'.' ∷ b'o' ∷ b'r' ∷ b'g' ∷ [])

parse_run :
    parse_blocklist hosts
    ≡ (b'a' ∷ b'd' ∷ b'.' ∷ b'x' ∷ b'.' ∷ b'o' ∷ b'r' ∷ b'g' ∷ [])
      ∷ (b't' ∷ b'.' ∷ b'x' ∷ b'.' ∷ b'o' ∷ b'r' ∷ b'g' ∷ [])
      ∷ (b's' ∷ b'.' ∷ b'x' ∷ b'.' ∷ b'o' ∷ b'r' ∷ b'g' ∷ [])
      ∷ []
unfolding parse_blocklist lines parse_blocklist_line trim trim_end_byte candidate_of bare
    is_dns_name strip_prefix split_whitespace before_any split_byte starts_with contains
    is_ip_address chars trim_end_dots split_dots
parse_run = refl

files_run : referenced_rule_files drop_list redirect_list ≡ hosts_path ∷ []
unfolding referenced_rule_files files_of is_file_reference trim chars has eq_bytes starts_with
    strip_prefix
files_run = refl

redirect_lines-read_list_file_example :
    redirect_lines same_text disk (read_list_file same_text disk hosts_path) new_trie ≡ new_trie
redirect_lines-read_list_file_example =
    redirect_lines-read_list_file same_text disk hosts_path new_trie

tracker_plain : no_star (normalized same_text tracker) ≡ true
unfolding to_lowercase trim_end_dots
tracker_plain = refl

check_rules-build_example :
    check_rules same_text tracker (build same_text disk drop_list redirect_list)
    ≡ ok (
        rule_match (
          verdict same_text
            (map dropped (dropped_patterns same_text disk drop_list)
              ++ redirect_rules same_text disk redirect_list)
            (normalized same_text tracker)))
check_rules-build_example =
    check_rules-build same_text disk drop_list redirect_list tracker tracker_plain

abbrev lookups : Bytes → Outcome RuleMatch
lookups domain = check_rules same_text domain (build same_text disk drop_list redirect_list)

check_run :
    (lookups tracker ≡ ok match_drop)
    × (lookups (b'a' ∷ b'd' ∷ b'-' ∷ b'7' ∷ b'.' ∷ b'c' ∷ b'o' ∷ b'm' ∷ []) ≡ ok match_drop)
    × (lookups (b'n' ∷ b'.' ∷ b'l' ∷ b'a' ∷ b'n' ∷ [])
        ≡ ok (
            match_redirect (
              (b'1' ∷ b'0' ∷ b'.' ∷ b'0' ∷ b'.' ∷ b'0' ∷ b'.' ∷ b'5' ∷ [])
              ∷ (b'1' ∷ b'0' ∷ b'.' ∷ b'0' ∷ b'.' ∷ b'0' ∷ b'.' ∷ b'6' ∷ [])
              ∷ [])))
unfolding check_rules lookup build drop_entries drop_patterns drop_pattern redirect_entries
    redirect_lines insert_redirect redirect_ips read_list_file is_file_reference insert_drop
    insert_with_policy insert_path lookup_path find_glob label_glob_matches all_match
    wildcard_matches wildcard_loop parse_blocklist lines parse_blocklist_line trim trim_end_byte
    candidate_of bare is_dns_name strip_prefix split_whitespace before_any split_byte split_once
    starts_with contains is_ip_address chars trim_end_dots split_dots to_lowercase has eq_bytes
check_run = (refl, refl, refl)

wildcard_matches-glob_example :
    wildcard_matches (b'a' ∷ b'd' ∷ b'-' ∷ b'7' ∷ b'7' ∷ []) (b'a' ∷ b'*' ∷ b'-' ∷ b'*' ∷ b'7' ∷ [])
    ≡ ok (glob (b'a' ∷ b'*' ∷ b'-' ∷ b'*' ∷ b'7' ∷ []) (b'a' ∷ b'd' ∷ b'-' ∷ b'7' ∷ b'7' ∷ []))
wildcard_matches-glob_example =
    wildcard_matches-glob (b'a' ∷ b'd' ∷ b'-' ∷ b'7' ∷ b'7' ∷ [])
      (b'a' ∷ b'*' ∷ b'-' ∷ b'*' ∷ b'7' ∷ []) refl

lookup-Returns_example :
    Returns
      (λ _. Unit {0})
      (lookup same_text tracker (build same_text disk drop_list redirect_list))
lookup-Returns_example =
    lookup-Returns same_text tracker (build same_text disk drop_list redirect_list)
