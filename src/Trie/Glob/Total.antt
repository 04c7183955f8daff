-- ===== src/Trie/Glob/Total.antt =====
-- The matcher stops on every value, with stars or without.
use dns_relay.Prelude.{
  ℕ, zero, suc, ◌+◌, ◌*◌, ◌≤◌, ◌<◌, none, some, List, [], ◌∷◌, ◌==◌, length, Outcome, arith,
  Bool-cases, inl, inr, Returns, Returns-bind,
}
use dns_relay.Prelude.Slices.{Bytes}
use dns_relay.Dns.Text.{split_dots}
use dns_relay.Dns.Patterns.{normalized}
use dns_relay.Trie.{DomainTrie, DomainTriePolicy, is_some_policy, lookup_path, rsplit_dots}
use dns_relay.Trie.Glob.{
  Star, Round, go_back, wildcard_loop, wildcard_matches, all_match, label_glob_matches, find_glob,
  globs_of, lookup,
}

abbrev Stops : {A : Type 0} → Outcome A → Type 0
Stops = Returns (λ _. Unit {0})

module _ (k : ℕ) where
  abbrev Short : ℕ → Bytes → Star → Type 0
  Short m value none = Unit
  Short m value (some (behind, from)) =
      (length value ≤ length from) × (length from ≤ m) × (length behind < k)

  abbrev AllStop : ℕ → Round → Type 0
  AllStop f next =
      (m : ℕ) (value pattern : Bytes) (last : Star)
      → Short m value last
      → length value ≤ m
      → length pattern < k
      → m * k + length pattern < f
      → Stops (next value pattern last)

  go_back-Stops :
      (f m c : ℕ) (value : Bytes) (last : Star) (next : Round)
      → AllStop f next
      → Short m (c ∷ value) last
      → m * k < suc f
      → Stops (go_back last next)
  go_back-Stops f m c value none next ih s e = tt
  go_back-Stops f m c value (some (behind, [])) next ih s e = absurd (omega (arith, s))
  go_back-Stops f zero c value (some (behind, x ∷ from)) next ih s e = absurd (omega (arith, s))
  go_back-Stops f (suc m) c value (some (behind, x ∷ from)) next ih (a, b, d) e =
      ih m from behind (some (behind, from)) (omega arith, omega arith, d) (omega arith) d
        (omega arith)

  shorter : (m c : ℕ) (value : Bytes) (last : Star) → Short m (c ∷ value) last → Short m value last
  shorter m c value none s = tt
  shorter m c value (some (behind, from)) (a, b, d) = (omega arith, b, d)

  loop-Stops : (f : ℕ) → AllStop f (wildcard_loop f)
  unfolding wildcard_loop
  loop-Stops zero m value pattern last s v p e = absurd (omega arith)
  loop-Stops (suc f) m [] pattern last s v p e = tt
  loop-Stops (suc f) m (c ∷ value) [] last s v p e =
      go_back-Stops f m c value last (wildcard_loop f) (loop-Stops f) s (omega arith)
  loop-Stops (suc f) m (c ∷ value) (b ∷ pattern) last s v p e = elim (Bool-cases (b == c)) [
    | inl same ↦ rw same (
        loop-Stops f m value pattern last (shorter m c value last s) (omega arith) (omega arith)
          (omega arith))
    | inr other ↦ elim (Bool-cases (b == b'*')) [
      | inl star ↦
          rw (other, star)
            (loop-Stops f m (c ∷ value) pattern (some (pattern, c ∷ value))
              (omega arith, v, omega arith) v (omega arith) (omega arith))
      | inr plain ↦
          rw (other, plain)
            (go_back-Stops f m c value last (wildcard_loop f) (loop-Stops f) s (omega arith))
    ]
  ]

wildcard_matches-Stops : (value pattern : Bytes) → Stops (wildcard_matches value pattern)
unfolding wildcard_matches
wildcard_matches-Stops value pattern =
    loop-Stops (length pattern + 1) _ (length value) value pattern none tt (omega arith)
      (omega arith) (omega arith)

all_match-Stops : (ds ps : List Bytes) → Stops (all_match ds ps)
unfolding all_match
all_match-Stops [] ps = tt
all_match-Stops (d ∷ ds) [] = tt
all_match-Stops (d ∷ ds) (p ∷ ps) =
    Returns-bind (λ _. Unit {0}) (λ _. Unit {0}) (wildcard_matches d p) _
      (wildcard_matches-Stops d p)
      λ first q h. elim (Bool-cases first) [
        | inl e ↦ rw e (all_match-Stops ds ps)
        | inr e ↦ rw e tt
      ]

label_glob_matches-Stops : (domain pattern : Bytes) → Stops (label_glob_matches domain pattern)
unfolding label_glob_matches
label_glob_matches-Stops domain pattern =
    elim (Bool-cases (length (split_dots domain) == length (split_dots pattern))) [
      | inl e ↦ rw e (all_match-Stops (split_dots domain) (split_dots pattern))
      | inr e ↦ rw e tt
    ]

find_glob-Stops :
    (domain : Bytes) (globs : List (Bytes × DomainTriePolicy)) → Stops (find_glob domain globs)
unfolding find_glob
find_glob-Stops domain [] = tt
find_glob-Stops domain ((pattern, policy) ∷ globs) =
    Returns-bind (λ _. Unit {0}) (λ _. Unit {0}) (label_glob_matches domain pattern) _
      (label_glob_matches-Stops domain pattern)
      λ found q h. elim (Bool-cases found) [
        | inl e ↦ rw e tt
        | inr e ↦ rw e (find_glob-Stops domain globs)
      ]

-- On every name and every trie, `lookup` stops with a policy.
pub lookup-Returns :
    (lower_wide : Bytes → Bytes) (domain : Bytes) (trie : DomainTrie)
    → Returns (λ _. Unit {0}) (lookup lower_wide domain trie)
unfolding lookup
lookup-Returns lower_wide domain trie =
    elim (Bool-cases
      (is_some_policy (lookup_path (rsplit_dots (normalized lower_wide domain)) trie))) [
        | inl e ↦ rw e tt
        | inr e ↦ rw e (find_glob-Stops (normalized lower_wide domain) (globs_of trie))
      ]
