-- ===== src/Trie/Paths.antt =====
-- What an insertion changes of a trie, path by path.
use dns_relay.Prelude.{
  ◌≡◌, refl, ap, ◌∙◌, sym, subst, Bool, true, false, ◌&&◌, Option, none, some, List, [], ◌∷◌,
  if◌then◌else◌, Bool-cases, inl, inr,
}
use dns_relay.Prelude.Slices.{Bytes}
use dns_relay.Dns.Text.Affix.{eq_bytes, eq_bytes→eq, eq_bytes_self}
use dns_relay.Trie.{
  DomainTrie, node, Children, no_child, child, DomainTriePolicy, unset, new_trie, policy_of,
  children_of, get_child, set_child, or_default, insert_path, lookup_path, is_some_policy,
}

abbrev pub at_child : Option DomainTrie → (DomainTrie → DomainTriePolicy) → DomainTriePolicy
at_child none deeper = unset
at_child (some next) deeper = deeper next

-- The policy of the node at the end of a path, if it is there.
unfoldable pub policy_at : List Bytes → DomainTrie → DomainTriePolicy
policy_at [] t = policy_of t
policy_at (label ∷ labels) t =
    at_child (get_child (children_of t) label) (λ next. policy_at labels next)

unfoldable pub eq_labels : List Bytes → List Bytes → Bool
unfolding eq_bytes
eq_labels [] [] = true
eq_labels (l ∷ ls) (m ∷ ms) = eq_bytes l m && eq_labels ls ms
eq_labels _ _ = false

get_child-set_self :
    (cs : Children) (label : Bytes) (t : DomainTrie)
    → get_child (set_child cs label t) label ≡ some t
get_child-set_self no_child label t = rw (eq_bytes_self label) refl
get_child-set_self (child k u rest) label t = elim (Bool-cases (eq_bytes k label)) [
  | inl e ↦ rw (e, e) refl
  | inr e ↦ rw (e, e) (get_child-set_self rest label t)
]

get_child-set_other :
    (cs : Children) (label other : Bytes) (t : DomainTrie)
    → eq_bytes label other ≡ false
    → get_child (set_child cs label t) other ≡ get_child cs other
get_child-set_other no_child label other t h = rw h refl
get_child-set_other (child k u rest) label other t h = elim (Bool-cases (eq_bytes k label)) [
  | inl e ↦ rw e (rw (subst (λ l. eq_bytes l other ≡ false) (sym (eq_bytes→eq k label e)) h) refl)
  | inr e ↦ rw (e, get_child-set_other rest label other t h) refl
]

pub policy_at-new : (path : List Bytes) → policy_at path new_trie ≡ unset
unfolding policy_at
policy_at-new [] = refl
policy_at-new (label ∷ labels) = refl

policy_at-or_default :
    (path : List Bytes) (found : Option DomainTrie)
    → policy_at path (or_default found) ≡ at_child found (λ next. policy_at path next)
policy_at-or_default path none = policy_at-new path
policy_at-or_default path (some t) = refl

-- An insertion sets the policy at its own path, and changes no other path's.
pub policy_at-insert_path :
    (labels path : List Bytes) (policy : DomainTriePolicy) (t : DomainTrie)
    → policy_at path (insert_path labels policy t)
      ≡ (if eq_labels labels path then policy else policy_at path t)
unfolding policy_at insert_path eq_labels
policy_at-insert_path [] [] policy (node cs p gs) = refl
policy_at-insert_path [] (m ∷ ms) policy (node cs p gs) = refl
policy_at-insert_path (l ∷ ls) [] policy (node cs p gs) = refl
policy_at-insert_path (l ∷ ls) (m ∷ ms) policy (node cs p gs) =
    let deeper = policy_at-insert_path ls ms policy (or_default (get_child cs l)) in
    let t = insert_path ls policy (or_default (get_child cs l)) in
    elim (Bool-cases (eq_bytes l m)) [
      | inl e ↦
          rw (sym (eq_bytes→eq l m e), eq_bytes_self l, get_child-set_self cs l t)
            (deeper
              ∙ ap (λ q. if eq_labels ls ms then policy else q)
                  (policy_at-or_default ms (get_child cs l)))
      | inr e ↦ rw (e, get_child-set_other cs l m t e) refl
    ]

-- The policy of the shortest path from the top-level domain down to a name that has one.
unfoldable pub shortest : (List Bytes → DomainTriePolicy) → List Bytes → DomainTriePolicy
shortest at_path [] = unset
shortest at_path (label ∷ labels) =
    let deeper = shortest (λ path. at_path (label ∷ path)) labels in
    if is_some_policy (at_path (label ∷ [])) then at_path (label ∷ []) else deeper

pub shortest-eq :
    (f g : List Bytes → DomainTriePolicy) (labels : List Bytes)
    → ((path : List Bytes) → f path ≡ g path)
    → shortest f labels ≡ shortest g labels
unfolding shortest
shortest-eq f g [] same = refl
shortest-eq f g (label ∷ labels) same =
    rw
      (
        same (label ∷ []),
        shortest-eq (λ p. f (label ∷ p)) (λ p. g (label ∷ p)) labels (λ p. same (label ∷ p)),
      )
      refl

shortest-unset : (labels : List Bytes) → shortest (λ path. unset) labels ≡ unset
unfolding shortest
shortest-unset [] = refl
shortest-unset (label ∷ labels) = shortest-unset labels

-- The walk of a lookup, by the policies of the paths.
pub lookup_path-shortest :
    (labels : List Bytes) (t : DomainTrie)
    → lookup_path labels t ≡ shortest (λ path. policy_at path t) labels
unfolding lookup_path shortest policy_at
lookup_path-shortest [] t = refl
lookup_path-shortest (label ∷ labels) t =
    on (get_child (children_of t) label) refl (λ next. lookup_path-shortest labels next)
  where
    on :
        (found : Option DomainTrie)
        → get_child (children_of t) label ≡ found
        → ((next : DomainTrie)
            → lookup_path labels next ≡ shortest (λ path. policy_at path next) labels)
        → lookup_path (label ∷ labels) t ≡ shortest (λ path. policy_at path t) (label ∷ labels)
    on none e deeper = rw e (sym (shortest-unset labels))
    on (some next) e deeper =
        rw e (ap (λ q. if is_some_policy (policy_of next) then policy_of next else q) (deeper next))
