-- ===== src/Trie/Glob.antt =====
-- The label globs of shared/src/domain_trie.rs, such as `ad-*.doubleclick.net`, and the whole lookup.
-- An index into a value or a pattern is the part of it from that index on.
pub mod Match
pub mod Total
pub mod Lookup
use dns_relay.Prelude.{
  ℕ, zero, suc, ◌+◌, ◌*◌, Bool, true, false, ◌&&◌, Option, none, some, List, [], ◌∷◌, ◌==◌,
  if◌then◌else◌, all, length, Outcome, ok, refuse, out_of_fuel, ◌>>=◌, not,
}
use dns_relay.Prelude.Slices.{Bytes}
use dns_relay.Dns.Text.{split_dots}
use dns_relay.Dns.Patterns.{normalized}
use dns_relay.Trie.{
  DomainTrie, node, DomainTriePolicy, unset, drop_query, redirect, is_some_policy, lookup_path,
  rsplit_dots,
}

abbrev pub rest_of : Bytes → Bytes
rest_of [] = []
rest_of (_ ∷ s) = s

-- `star_index` and `restart_value`: the pattern behind the last star, and the value to go back to.
abbrev pub Star : Type 0
Star = Option (Bytes × Bytes)

abbrev pub Round : Type 0
Round = Bytes → Bytes → Star → Outcome Bool

-- A mismatch: the last star takes one byte more, if there is a star.
abbrev pub go_back : Star → Round → Outcome Bool
go_back none next = ok false
go_back (some (pattern, value)) next = next (rest_of value) pattern (some (pattern, rest_of value))

abbrev pub only_stars : Bytes → Bool
only_stars = all (λ b. b == b'*')

unfoldable pub wildcard_loop : ℕ → Bytes → Bytes → Star → Outcome Bool
wildcard_loop zero value pattern last = out_of_fuel
wildcard_loop (suc fuel) [] pattern last = ok (only_stars pattern)
wildcard_loop (suc fuel) (c ∷ value) [] last = go_back last (wildcard_loop fuel)
wildcard_loop (suc fuel) (c ∷ value) (b ∷ pattern) last =
    let equal = wildcard_loop fuel value pattern last in
    let starred = wildcard_loop fuel (c ∷ value) pattern (some (pattern, c ∷ value)) in
    let mismatch = go_back last (wildcard_loop fuel) in
    if b == c then equal else if b == b'*' then starred else mismatch

unfoldable pub wildcard_matches : Bytes → Bytes → Outcome Bool
unfolding wildcard_loop
wildcard_matches value pattern =
    wildcard_loop ((length value + 1) * (length pattern + 1)) value pattern none

-- `domain_labels.iter().zip(pattern_labels).all(..)`
unfoldable pub all_match : List Bytes → List Bytes → Outcome Bool
unfolding wildcard_matches
all_match (d ∷ ds) (p ∷ ps) =
    let rest = all_match ds ps in do first ← wildcard_matches d p; if first then rest else ok false
all_match _ _ = ok true

unfoldable pub label_glob_matches : Bytes → Bytes → Outcome Bool
unfolding all_match split_dots
label_glob_matches domain pattern =
    if length (split_dots domain) == length (split_dots pattern)
    then all_match (split_dots domain) (split_dots pattern)
    else ok false

abbrev pub globs_of : DomainTrie → List (Bytes × DomainTriePolicy)
globs_of (node cs p gs) = gs

-- `self.label_globs.iter().find(..)`, and no policy where none is found.
unfoldable pub find_glob : Bytes → List (Bytes × DomainTriePolicy) → Outcome DomainTriePolicy
unfolding label_glob_matches
find_glob domain [] = ok unset
find_glob domain ((pattern, policy) ∷ globs) =
    let rest = find_glob domain globs in
    do found ← label_glob_matches domain pattern; if found then ok policy else rest

pub data RuleMatch : Type 0 where
  match_drop : RuleMatch
  match_redirect : List Bytes → RuleMatch
  match_none : RuleMatch

abbrev pub rule_match : DomainTriePolicy → RuleMatch
rule_match drop_query = match_drop
rule_match (redirect ips) = match_redirect ips
rule_match unset = match_none

module _ (lower_wide : Bytes → Bytes) where
  unfoldable pub lookup : Bytes → DomainTrie → Outcome DomainTriePolicy
  unfolding lookup_path find_glob
  lookup domain trie =
      let name = normalized lower_wide domain in
      let walked = lookup_path (rsplit_dots name) trie in
      if is_some_policy walked then ok walked else find_glob name (globs_of trie)

  unfoldable pub check_rules : Bytes → DomainTrie → Outcome RuleMatch
  unfolding lookup
  check_rules domain trie = do policy ← lookup domain trie; ok (rule_match policy)
