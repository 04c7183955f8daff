-- ===== src/Trie/Rules.antt =====
-- The trie of a list of rules, against what the list says.
use dns_relay.Prelude.{
  ◌≡◌, refl, ap, ◌∙◌, not, ◌&&◌, List, [], ◌∷◌, if◌then◌else◌, Bool-cases, inl, inr,
}
use dns_relay.Prelude.Slices.{Bytes}
use dns_relay.Dns.Patterns.{normalized}
use dns_relay.Trie.{
  DomainTrie, node, DomainTriePolicy, unset, new_trie, insert_with_policy, push_glob, is_glob,
  path_of, lookup_path,
}
use dns_relay.Trie.Paths.{
  policy_at, policy_at-insert_path, policy_at-new, eq_labels, shortest, shortest-eq,
  lookup_path-shortest,
}

module _ (lower_wide : Bytes → Bytes) where
  -- The rules inserted one after the other.
  unfoldable pub insert_all : List (Bytes × DomainTriePolicy) → DomainTrie → DomainTrie
  insert_all [] t = t
  insert_all ((pattern, policy) ∷ rules) t =
      insert_all rules (insert_with_policy lower_wide pattern policy t)

  -- What the rules say of one path: the last one for exactly this path, if any, else what was said
  -- before them.
  unfoldable pub rule_for :
      List (Bytes × DomainTriePolicy) → DomainTriePolicy → List Bytes → DomainTriePolicy
  rule_for [] said path = said
  rule_for ((pattern, policy) ∷ rules) said path =
      rule_for rules
        (if not (is_glob lower_wide pattern) && eq_labels (path_of lower_wide pattern) path
          then policy
          else said)
        path

  policy_at-push_glob :
      (path : List Bytes) (pattern : Bytes) (policy : DomainTriePolicy) (t : DomainTrie)
      → policy_at path (push_glob pattern policy t) ≡ policy_at path t
  unfolding policy_at
  policy_at-push_glob [] pattern policy (node cs p gs) = refl
  policy_at-push_glob (label ∷ labels) pattern policy (node cs p gs) = refl

  policy_at-insert_with_policy :
      (path : List Bytes) (pattern : Bytes) (policy : DomainTriePolicy) (t : DomainTrie)
      → policy_at path (insert_with_policy lower_wide pattern policy t) ≡ (
          if not (is_glob lower_wide pattern) && eq_labels (path_of lower_wide pattern) path
          then policy
          else policy_at path t)
  unfolding insert_with_policy
  policy_at-insert_with_policy path pattern policy t =
      elim (Bool-cases (is_glob lower_wide pattern)) [
        | inl e ↦ rw e (policy_at-push_glob path (normalized lower_wide pattern) policy t)
        | inr e ↦ rw e (policy_at-insert_path (path_of lower_wide pattern) path policy t)
      ]

  policy_at-insert_all :
      (rules : List (Bytes × DomainTriePolicy)) (t : DomainTrie) (path : List Bytes)
      → policy_at path (insert_all rules t) ≡ rule_for rules (policy_at path t) path
  unfolding insert_all rule_for
  policy_at-insert_all [] t path = refl
  policy_at-insert_all ((pattern, policy) ∷ rules) t path =
      policy_at-insert_all rules (insert_with_policy lower_wide pattern policy t) path
      ∙ ap (λ said. rule_for rules said path) (policy_at-insert_with_policy path pattern policy t)

  -- The walk of a lookup in the trie of a list of rules finds the rule of the shortest suffix of the
  -- name that has one, the last of those for that suffix; rules with a star inside a label take no
  -- part in it.
  pub lookup_path-insert_all :
      (rules : List (Bytes × DomainTriePolicy)) (labels : List Bytes)
      → lookup_path labels (insert_all rules new_trie) ≡ shortest (rule_for rules unset) labels
  lookup_path-insert_all rules labels =
      lookup_path-shortest labels (insert_all rules new_trie)
      ∙ shortest-eq (λ path. policy_at path (insert_all rules new_trie)) (rule_for rules unset)
          labels
          (λ path.
            policy_at-insert_all rules new_trie path
            ∙ ap (λ said. rule_for rules said path) (policy_at-new path))
