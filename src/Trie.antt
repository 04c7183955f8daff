-- ===== src/Trie.antt =====
-- shared/src/domain_trie.rs: the rules on domains. The children of a node are a list without repeated
-- labels in place of a HashMap. The matching of label globs is not part of this module.
pub mod Paths
pub mod Rules
pub mod Glob
pub mod Blocklist
pub mod Build
use dns_relay.Prelude.{
  ◌≡◌, Bool, true, false, not, ◌&&◌, Option, none, some, List, [], ◌∷◌, ◌++◌, any, ◌==◌,
  if◌then◌else◌,
}
use dns_relay.Prelude.Slices.{Bytes}
use dns_relay.Dns.Text.{split_dots}
use dns_relay.Dns.Text.Affix.{eq_bytes, strip_prefix}
use dns_relay.Dns.Patterns.{normalized}

pub data DomainTriePolicy : Type 0 where
  unset : DomainTriePolicy
  drop_query : DomainTriePolicy
  redirect : List Bytes → DomainTriePolicy

abbrev pub is_some_policy : DomainTriePolicy → Bool
is_some_policy unset = false
is_some_policy drop_query = true
is_some_policy (redirect _) = true

mutual
  pub data DomainTrie : Type 0 where
    node : Children → DomainTriePolicy → List (Bytes × DomainTriePolicy) → DomainTrie

  pub data Children : Type 0 where
    no_child : Children
    child : Bytes → DomainTrie → Children → Children

abbrev pub new_trie : DomainTrie
new_trie = node no_child unset []

abbrev pub policy_of : DomainTrie → DomainTriePolicy
policy_of (node cs p gs) = p

abbrev pub children_of : DomainTrie → Children
children_of (node cs p gs) = cs

-- `children.get(label)`
abbrev pub get_child : Children → Bytes → Option DomainTrie
get_child no_child label = none
get_child (child k t rest) label =
    let later = get_child rest label in if eq_bytes k label then some t else later

abbrev pub set_child : Children → Bytes → DomainTrie → Children
set_child no_child label t = child label t no_child
set_child (child k u rest) label t =
    let later = set_child rest label t in
    if eq_bytes k label then child k t rest else child k u later

abbrev pub or_default : Option DomainTrie → DomainTrie
or_default none = new_trie
or_default (some t) = t

-- The loop of `insert_with_policy` over the labels, and `node.policy = policy` at its end.
unfoldable pub insert_path : List Bytes → DomainTriePolicy → DomainTrie → DomainTrie
unfolding eq_bytes
insert_path [] policy (node cs p gs) = node cs policy gs
insert_path (label ∷ labels) policy (node cs p gs) =
    node (set_child cs label (insert_path labels policy (or_default (get_child cs label)))) p gs

abbrev pub followed : Option DomainTrie → (DomainTrie → DomainTriePolicy) → DomainTriePolicy
followed none rest = unset
followed (some next) rest = if is_some_policy (policy_of next) then policy_of next else rest next

-- The loop of `lookup`: the policy that it returns, or none where it ends or breaks off.
unfoldable pub lookup_path : List Bytes → DomainTrie → DomainTriePolicy
unfolding eq_bytes
lookup_path [] t = unset
lookup_path (label ∷ labels) t =
    followed (get_child (children_of t) label) (λ next. lookup_path labels next)

abbrev pub reversed {ℓ} : {A : Type ℓ} → List A → List A
reversed [] = []
reversed (x ∷ xs) = reversed xs ++ (x ∷ [])

-- `s.rsplit('.')`
abbrev pub rsplit_dots : Bytes → List Bytes
rsplit_dots s = reversed (split_dots s)

abbrev pub contains_star : Bytes → Bool
contains_star = any (λ b. b == b'*')

abbrev pub star_dot : Bytes
star_dot = b'*' ∷ b'.' ∷ []

abbrev no_star_after : Option Bytes → Bool
no_star_after none = false
no_star_after (some rest) = not (contains_star rest)

-- `pattern.starts_with("*.") && !pattern[2..].contains('*')`
abbrev pub is_suffix_wildcard : Bytes → Bool
is_suffix_wildcard pattern = no_star_after (strip_prefix star_dot pattern)

abbrev pub unwrap_or {ℓ} : {A : Type ℓ} → Option A → A → A
unwrap_or none d = d
unwrap_or (some a) d = a

abbrev pub push_glob : Bytes → DomainTriePolicy → DomainTrie → DomainTrie
push_glob pattern policy (node cs p gs) = node cs p (gs ++ ((pattern, policy) ∷ []))

module _ (lower_wide : Bytes → Bytes) where
  -- A pattern that goes to the label globs.
  abbrev pub is_glob : Bytes → Bool
  is_glob pattern =
      contains_star (normalized lower_wide pattern)
      && not (is_suffix_wildcard (normalized lower_wide pattern))

  -- The labels of a pattern, from the top-level domain down.
  abbrev pub path_of : Bytes → List Bytes
  path_of pattern =
      let p = normalized lower_wide pattern in rsplit_dots (unwrap_or (strip_prefix star_dot p) p)

  unfoldable pub insert_with_policy : Bytes → DomainTriePolicy → DomainTrie → DomainTrie
  unfolding insert_path
  insert_with_policy pattern policy trie =
      if is_glob pattern
      then push_glob (normalized lower_wide pattern) policy trie
      else insert_path (path_of pattern) policy trie

  unfoldable pub insert_drop : Bytes → DomainTrie → DomainTrie
  unfolding insert_with_policy
  insert_drop pattern trie = insert_with_policy pattern drop_query trie
