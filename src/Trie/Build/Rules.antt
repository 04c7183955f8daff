-- ===== src/Trie/Build/Rules.antt =====
-- The trie that `build` gives, against the rules that a configuration lists.
use dns_relay.Prelude.{
  ◌≡◌, refl, ap, ◌∙◌, sym, ◌||◌, Option, List, [], ◌∷◌, ◌++◌, map, if◌then◌else◌, Bool-cases, inl,
  inr,
}
use dns_relay.Prelude.Slices.{Bytes}
use dns_relay.Dns.Text.Spaces.{trim, has}
use dns_relay.Trie.{
  DomainTrie, DomainTriePolicy, drop_query, redirect, new_trie, insert_drop, insert_with_policy,
}
use dns_relay.Trie.Rules.{insert_all}
use dns_relay.Trie.Build.{
  Drops, is_skipped, is_file_reference, redirect_ips, insert_redirect, read_list_file, drop_pattern,
  drop_patterns, drop_entry, drop_entries, redirect_entries, build,
}
use dns_relay.Trie.Build.Files.{redirect_lines-read_list_file}

abbrev pub Rules : Type 0
Rules = List (Bytes × DomainTriePolicy)

abbrev pub dropped : Bytes → Bytes × DomainTriePolicy
dropped pattern = (pattern, drop_query)

-- Some patterns without those seen before.
unfoldable pub distinct : List Bytes → List Bytes → List Bytes
unfolding has
distinct seen [] = []
distinct seen (p ∷ ps) =
    let old = distinct seen ps in
    let new = distinct (p ∷ seen) ps in if has seen p then old else p ∷ new

module _ (lower_wide : Bytes → Bytes) (read_to_string : Bytes → Option Bytes) where
  -- The patterns that an entry of drop_list stands for: those of its file, itself, or none.
  abbrev patterns_of : Bytes → List Bytes
  patterns_of pattern =
      if is_skipped pattern
      then []
      else if is_file_reference pattern
      then read_list_file lower_wide read_to_string pattern
      else pattern ∷ []

  unfoldable pub dropped_patterns : List Bytes → List Bytes
  dropped_patterns [] = []
  dropped_patterns (entry ∷ entries) = patterns_of (trim entry) ++ dropped_patterns entries

  -- The rules that entries of redirect_list stand for.
  unfoldable pub redirect_rules : List (Bytes × Bytes) → Rules
  redirect_rules [] = []
  redirect_rules ((pattern, target) ∷ entries) =
      let rest = redirect_rules entries in
      if is_skipped (trim pattern) || is_file_reference (trim pattern)
      then rest
      else (trim pattern, redirect (redirect_ips target)) ∷ rest

  insert_all-append :
      (front back : Rules) (t : DomainTrie)
      → insert_all lower_wide (front ++ back) t
        ≡ insert_all lower_wide back (insert_all lower_wide front t)
  unfolding insert_all
  insert_all-append [] back t = refl
  insert_all-append ((p, policy) ∷ front) back t =
      insert_all-append front back (insert_with_policy lower_wide p policy t)

  -- The set of the patterns seen, in which only membership counts, after some patterns.
  unfoldable seen_after : List Bytes → List Bytes → List Bytes
  unfolding has
  seen_after seen [] = seen
  seen_after seen (p ∷ ps) = seen_after (if has seen p then seen else p ∷ seen) ps

  drop_patterns-distinct :
      (ps seen : List Bytes) (t : DomainTrie)
      → drop_patterns lower_wide read_to_string ps (seen, t)
        ≡ (seen_after seen ps, insert_all lower_wide (map dropped (distinct seen ps)) t)
  unfolding drop_patterns drop_pattern distinct seen_after insert_all insert_drop
  drop_patterns-distinct [] seen t = refl
  drop_patterns-distinct (p ∷ ps) seen t = elim (Bool-cases (has seen p)) [
    | inl e ↦ rw e (drop_patterns-distinct ps seen t)
    | inr e ↦ rw e (drop_patterns-distinct ps (p ∷ seen) (insert_drop lower_wide p t))
  ]

  drop_patterns-append :
      (front back : List Bytes) (s : Drops lower_wide read_to_string)
      → drop_patterns lower_wide read_to_string (front ++ back) s
        ≡ drop_patterns lower_wide read_to_string back
            (drop_patterns lower_wide read_to_string front s)
  unfolding drop_patterns
  drop_patterns-append [] back s = refl
  drop_patterns-append (p ∷ front) back s =
      drop_patterns-append front back (drop_pattern lower_wide read_to_string p s)

  drop_entry-patterns_of :
      (pattern : Bytes) (s : Drops lower_wide read_to_string)
      → drop_entry lower_wide read_to_string pattern s
        ≡ drop_patterns lower_wide read_to_string (patterns_of pattern) s
  unfolding drop_patterns
  drop_entry-patterns_of pattern s = elim (Bool-cases (is_skipped pattern)) [
    | inl e ↦ rw e refl
    | inr e ↦
        rw e
          (elim (Bool-cases (is_file_reference pattern)) [ inl f ↦ rw f refl | inr f ↦ rw f refl ])
  ]

  drop_entries-dropped_patterns :
      (entries : List Bytes) (s : Drops lower_wide read_to_string)
      → drop_entries lower_wide read_to_string entries s
        ≡ drop_patterns lower_wide read_to_string (dropped_patterns entries) s
  unfolding drop_entries dropped_patterns drop_patterns
  drop_entries-dropped_patterns [] s = refl
  drop_entries-dropped_patterns (entry ∷ entries) s =
      drop_entries-dropped_patterns entries (drop_entry lower_wide read_to_string (trim entry) s)
      ∙ ap (drop_patterns lower_wide read_to_string (dropped_patterns entries))
          (drop_entry-patterns_of (trim entry) s)
      ∙ sym (drop_patterns-append (patterns_of (trim entry)) (dropped_patterns entries) s)

  redirect_entries-redirect_rules :
      (entries : List (Bytes × Bytes)) (t : DomainTrie)
      → redirect_entries lower_wide read_to_string entries t
        ≡ insert_all lower_wide (redirect_rules entries) t
  unfolding redirect_entries redirect_rules insert_all insert_redirect
  redirect_entries-redirect_rules [] t = refl
  redirect_entries-redirect_rules ((pattern, target) ∷ entries) t =
      let later = redirect_entries-redirect_rules entries in
      elim (Bool-cases (is_skipped (trim pattern))) [
        | inl e ↦ rw e (later t)
        | inr e ↦ rw e (elim (Bool-cases (is_file_reference (trim pattern))) [
          | inl f ↦
              rw (f, redirect_lines-read_list_file lower_wide read_to_string (trim pattern) t)
                (later t)
          | inr f ↦ rw f (later (insert_redirect lower_wide read_to_string (trim pattern) target t))
        ])
      ]

  pub build-insert_all :
      (drop_list : List Bytes) (redirect_list : List (Bytes × Bytes))
      → build lower_wide read_to_string drop_list redirect_list
        ≡ insert_all lower_wide
            (map dropped (distinct [] (dropped_patterns drop_list)) ++ redirect_rules redirect_list)
            new_trie
  unfolding build
  build-insert_all drop_list redirect_list =
      let s =
        drop_entries-dropped_patterns drop_list ([], new_trie)
        ∙ drop_patterns-distinct (dropped_patterns drop_list) [] new_trie in
      redirect_entries-redirect_rules redirect_list _
      ∙ ap (λ drops. insert_all lower_wide (redirect_rules redirect_list) drops.1) s
      ∙ sym (
          insert_all-append (map dropped (distinct [] (dropped_patterns drop_list)))
            (redirect_rules redirect_list) new_trie)
