-- ===== src/Trie/Build.antt =====
-- The trie of a configuration: insert_redirect, build and referenced_rule_files of
-- shared/src/domain_trie.rs. What a list file holds, if it can be read, is the parameter
-- `read_to_string`. A HashSet is a list, of which only membership is asked.

pub mod Files
pub mod Rules
pub mod Verdict
use dns_relay.Prelude.{
  Bool, false, ◌&&◌, ◌||◌, not, Option, none, some, List, [], ◌∷◌, ◌++◌, ◌==◌, if◌then◌else◌, map,
}
use dns_relay.Prelude.Slices.{Bytes}
use dns_relay.Dns.Text.{is_empty}
use dns_relay.Dns.Text.Spaces.{trim, split_byte, split_once, before_any, starts_with, has}
use dns_relay.Trie.{DomainTrie, redirect, new_trie, insert_drop, insert_with_policy}
use dns_relay.Trie.Blocklist.{parse_blocklist}

abbrev root_slash : Bytes
root_slash = b'/' ∷ []

abbrev here_slash : Bytes
here_slash = b'.' ∷ b'/' ∷ []

abbrev parent_slash : Bytes
parent_slash = b'.' ∷ b'.' ∷ b'/' ∷ []

unfoldable pub is_file_reference : Bytes → Bool
unfolding starts_with
is_file_reference pattern =
    starts_with pattern root_slash
    || starts_with pattern here_slash
    || starts_with pattern parent_slash

-- The addresses of a target, each without a port.
unfoldable pub redirect_ips : Bytes → List Bytes
unfolding split_byte before_any
redirect_ips target = map (before_any (λ b. b == b':')) (split_byte b',' target)

abbrev is_hash : Bytes → Bool
is_hash [] = false
is_hash (b ∷ _) = b == b'#'

-- An empty entry or a comment.
abbrev pub is_skipped : Bytes → Bool
is_skipped pattern = is_empty pattern || is_hash pattern

-- `files.insert(..)` of a HashSet, in the order of the first insertions.
abbrev add_file : Bytes → List Bytes → List Bytes
add_file entry files =
    let known = has files entry in
    if is_file_reference entry && not known then entry ∷ files else files

unfoldable pub files_of : List Bytes → List Bytes
unfolding trim has is_file_reference
files_of [] = []
files_of (entry ∷ entries) = add_file (trim entry) (files_of entries)

-- The files that the entries name, in some order.
unfoldable pub referenced_rule_files : List Bytes → List (Bytes × Bytes) → List Bytes
unfolding files_of
referenced_rule_files drop_list redirect_list =
    files_of (drop_list ++ map (λ entry. entry.0) redirect_list)

module _ (lower_wide : Bytes → Bytes) (read_to_string : Bytes → Option Bytes) where
  unfoldable pub insert_redirect : Bytes → Bytes → DomainTrie → DomainTrie
  unfolding insert_with_policy redirect_ips
  insert_redirect pattern target trie =
      insert_with_policy lower_wide pattern (redirect (redirect_ips target)) trie

  abbrev pub contents_of : Option Bytes → List Bytes
  contents_of none = []
  contents_of (some content) = parse_blocklist content

  unfoldable pub read_list_file : Bytes → List Bytes
  unfolding parse_blocklist
  read_list_file path = contents_of (read_to_string path)

  -- `seen_drop_patterns` and the trie.
  abbrev pub Drops : Type 0
  Drops = List Bytes × DomainTrie

  unfoldable pub drop_pattern : Bytes → Drops → Drops
  unfolding has
  drop_pattern pattern (seen, trie) =
      if has seen pattern
      then (seen, trie)
      else (pattern ∷ seen, insert_drop lower_wide pattern trie)

  unfoldable pub drop_patterns : List Bytes → Drops → Drops
  unfolding drop_pattern
  drop_patterns [] s = s
  drop_patterns (pattern ∷ patterns) s = drop_patterns patterns (drop_pattern pattern s)

  abbrev pub drop_entry : Bytes → Drops → Drops
  drop_entry pattern s =
      if is_skipped pattern
      then s
      else if is_file_reference pattern
      then drop_patterns (read_list_file pattern) s
      else drop_pattern pattern s

  unfoldable pub drop_entries : List Bytes → Drops → Drops
  unfolding drop_patterns trim is_file_reference read_list_file
  drop_entries [] s = s
  drop_entries (entry ∷ entries) s = drop_entries entries (drop_entry (trim entry) s)

  abbrev redirect_pair : Option (Bytes × Bytes) → DomainTrie → DomainTrie
  redirect_pair none trie = trie
  redirect_pair (some (from, to)) trie =
      if not (is_empty (trim from)) && not (is_empty (trim to))
      then insert_redirect (trim from) (trim to) trie
      else trie

  unfoldable pub redirect_lines : List Bytes → DomainTrie → DomainTrie
  unfolding trim split_once insert_redirect
  redirect_lines [] trie = trie
  redirect_lines (line ∷ rest) trie =
      redirect_lines rest (redirect_pair (split_once b':' line) trie)

  abbrev pub redirect_entry : Bytes → Bytes → DomainTrie → DomainTrie
  redirect_entry pattern target trie =
      if is_skipped pattern
      then trie
      else if is_file_reference pattern
      then redirect_lines (read_list_file pattern) trie
      else insert_redirect pattern target trie

  unfoldable pub redirect_entries : List (Bytes × Bytes) → DomainTrie → DomainTrie
  unfolding redirect_lines trim is_file_reference read_list_file insert_redirect
  redirect_entries [] trie = trie
  redirect_entries ((pattern, target) ∷ entries) trie =
      redirect_entries entries (redirect_entry (trim pattern) target trie)

  unfoldable pub build : List Bytes → List (Bytes × Bytes) → DomainTrie
  unfolding drop_entries redirect_entries
  build drop_list redirect_list =
      redirect_entries redirect_list ((drop_entries drop_list ([], new_trie)).1)
