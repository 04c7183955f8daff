-- ===== src/Trie/Glob/Lookup.antt =====
-- The whole lookup against what a list of rules says.
use dns_relay.Prelude.{
  ℕ, ◌≡◌, refl, ap, ◌∙◌, sym, Bool, true, false, ◌&&◌, List, [], ◌∷◌, ◌++◌, ◌==◌, if◌then◌else◌,
  length, All, ok, arith, Bool-cases, inl, inr, append_assoc, append-nil,
}
use dns_relay.Prelude.Slices.{Bytes}
use dns_relay.Dns.Text.{split_dots, push_first}
use dns_relay.Dns.Patterns.{normalized}
use dns_relay.Trie.{
  DomainTrie, node, DomainTriePolicy, unset, new_trie, is_some_policy, is_glob, insert_with_policy,
  insert_path, push_glob, path_of, rsplit_dots,
}
use dns_relay.Trie.Paths.{shortest}
use dns_relay.Trie.Rules.{insert_all, rule_for, lookup_path-insert_all}
use dns_relay.Trie.Glob.{all_match, label_glob_matches, find_glob, globs_of, lookup}
use dns_relay.Trie.Glob.Match.{glob, no_star, wildcard_matches-glob}

-- Two names of the same number of labels, each label meant by its pattern.
unfoldable pub labels_match : List Bytes → List Bytes → Bool
labels_match [] [] = true
labels_match (d ∷ ds) (p ∷ ps) = glob p d && labels_match ds ps
labels_match _ _ = false

abbrev Plain : Bytes → Type 0
Plain label = no_star label ≡ true

push_first-Plain :
    (b : ℕ) (labels : List Bytes)
    → (b == b'*') ≡ false
    → All Plain labels
    → All Plain (push_first b labels)
push_first-Plain b [] e h = (rw e refl, tt)
push_first-Plain b (l ∷ ls) e (first, rest) = (rw (e, first) refl, rest)

split_dots-Plain : (name : Bytes) → no_star name ≡ true → All Plain (split_dots name)
unfolding split_dots
split_dots-Plain [] h = (refl, tt)
split_dots-Plain (b ∷ name) h =
    let rest = split_dots-Plain name (ground (arith, h)) in
    elim (Bool-cases (b == b'.')) [
      | inl dot ↦ rw dot (refl, rest)
      | inr other ↦ rw other (push_first-Plain b (split_dots name) (ground (arith, h)) rest)
    ]

all_match-labels_match :
    (ds ps : List Bytes)
    → All Plain ds
    → (length ds == length ps) ≡ true
    → all_match ds ps ≡ ok (labels_match ds ps)
unfolding all_match labels_match
all_match-labels_match [] [] h e = refl
all_match-labels_match [] (p ∷ ps) h e = absurd (ground (arith, e))
all_match-labels_match (d ∷ ds) [] h e = absurd (ground (arith, e))
all_match-labels_match (d ∷ ds) (p ∷ ps) (first, rest) e =
    let later = all_match-labels_match ds ps rest (ground (arith, e)) in
    rw (wildcard_matches-glob d p first)
      (elim (Bool-cases (glob p d)) [ inl hit ↦ rw hit later | inr miss ↦ rw miss refl ])

labels_match-length :
    (ds ps : List Bytes) → (length ds == length ps) ≡ false → labels_match ds ps ≡ false
unfolding labels_match
labels_match-length [] [] e = (let refuted = e in cc)
labels_match-length [] (p ∷ ps) e = refl
labels_match-length (d ∷ ds) [] e = refl
labels_match-length (d ∷ ds) (p ∷ ps) e =
    rw (labels_match-length ds ps (ground (arith, e))) (ground arith)

label_glob_matches-labels_match :
    (name pattern : Bytes)
    → no_star name ≡ true
    → label_glob_matches name pattern ≡ ok (labels_match (split_dots name) (split_dots pattern))
unfolding label_glob_matches
label_glob_matches-labels_match name pattern plain =
    elim (Bool-cases (length (split_dots name) == length (split_dots pattern))) [
      | inl e ↦ rw e (
          all_match-labels_match (split_dots name) (split_dots pattern)
            (split_dots-Plain name plain) e)
      | inr e ↦ rw (e, labels_match-length (split_dots name) (split_dots pattern) e) refl
    ]

-- The first of some globs that means a name.
unfoldable pub first_match : Bytes → List (Bytes × DomainTriePolicy) → DomainTriePolicy
first_match name [] = unset
first_match name ((pattern, policy) ∷ globs) =
    let rest = first_match name globs in
    if labels_match (split_dots name) (split_dots pattern) then policy else rest

find_glob-first_match :
    (name : Bytes) (globs : List (Bytes × DomainTriePolicy))
    → no_star name ≡ true
    → find_glob name globs ≡ ok (first_match name globs)
unfolding find_glob first_match
find_glob-first_match name [] plain = refl
find_glob-first_match name ((pattern, policy) ∷ globs) plain =
    rw (label_glob_matches-labels_match name pattern plain)
      (elim (Bool-cases (labels_match (split_dots name) (split_dots pattern))) [
        | inl hit ↦ rw hit refl
        | inr miss ↦ rw miss (find_glob-first_match name globs plain)
      ])

module _ (lower_wide : Bytes → Bytes) where
  -- The globs of a list of rules, in order.
  unfoldable pub globs_in : List (Bytes × DomainTriePolicy) → List (Bytes × DomainTriePolicy)
  globs_in [] = []
  globs_in ((pattern, policy) ∷ rules) =
      let rest = globs_in rules in
      if is_glob lower_wide pattern then (normalized lower_wide pattern, policy) ∷ rest else rest

  globs_of-insert_path :
      (labels : List Bytes) (policy : DomainTriePolicy) (t : DomainTrie)
      → globs_of (insert_path labels policy t) ≡ globs_of t
  unfolding insert_path
  globs_of-insert_path [] policy (node cs p gs) = refl
  globs_of-insert_path (l ∷ ls) policy (node cs p gs) = refl

  globs_of-push_glob :
      (pattern : Bytes) (policy : DomainTriePolicy) (t : DomainTrie)
      → globs_of (push_glob pattern policy t) ≡ globs_of t ++ ((pattern, policy) ∷ [])
  globs_of-push_glob pattern policy (node cs p gs) = refl

  globs_of-insert_all :
      (rules : List (Bytes × DomainTriePolicy)) (t : DomainTrie)
      → globs_of (insert_all lower_wide rules t) ≡ globs_of t ++ globs_in rules
  unfolding insert_all globs_in insert_with_policy
  globs_of-insert_all [] t = sym (append-nil (globs_of t))
  globs_of-insert_all ((pattern, policy) ∷ rules) t =
      elim (Bool-cases (is_glob lower_wide pattern)) [
        | inl e ↦ rw e (
            globs_of-insert_all rules (push_glob (normalized lower_wide pattern) policy t)
            ∙ ap (λ gs. gs ++ globs_in rules)
                (globs_of-push_glob (normalized lower_wide pattern) policy t)
            ∙ append_assoc (globs_of t) ((normalized lower_wide pattern, policy) ∷ [])
                (globs_in rules))
        | inr e ↦ rw e (
            globs_of-insert_all rules (insert_path (path_of lower_wide pattern) policy t)
            ∙ ap (λ gs. gs ++ globs_in rules)
                (globs_of-insert_path (path_of lower_wide pattern) policy t))
      ]

  -- What a list of rules says of a name: the rule of its shortest suffix that has one decides, and
  -- else the first glob that means it.
  unfoldable pub verdict : List (Bytes × DomainTriePolicy) → Bytes → DomainTriePolicy
  verdict rules name =
      let suffix = shortest (rule_for lower_wide rules unset) (rsplit_dots name) in
      if is_some_policy suffix then suffix else first_match name (globs_in rules)

  -- The lookup of a name without a star, in the trie of a list of rules, gives the verdict of the
  -- list: the last rule for the shortest suffix that has one, else the first label glob that means
  -- the name, else none.
  pub lookup-verdict :
      (rules : List (Bytes × DomainTriePolicy)) (domain : Bytes)
      → no_star (normalized lower_wide domain) ≡ true
      → lookup lower_wide domain (insert_all lower_wide rules new_trie)
        ≡ ok (verdict rules (normalized lower_wide domain))
  unfolding lookup verdict
  lookup-verdict rules domain plain =
      let name = normalized lower_wide domain in
      let suffix = shortest (rule_for lower_wide rules unset) (rsplit_dots name) in
      rw
        (
          lookup_path-insert_all lower_wide rules (rsplit_dots name),
          globs_of-insert_all rules new_trie,
        )
        (elim (Bool-cases (is_some_policy suffix)) [
          | inl hit ↦ rw hit refl
          | inr miss ↦ rw miss (find_glob-first_match name (globs_in rules) plain)
        ])
