-- ===== src/Trie/Build/Verdict.antt =====
-- The lookup in the trie that `build` gives.
use dns_relay.Prelude.{
  ◌≡◌, refl, ap, ap₂, ◌∙◌, sym, subst, Bool, true, false, not, ◌&&◌, Option, List, [], ◌∷◌, ◌++◌,
  map, if◌then◌else◌, ok, Bool-cases, inl, inr,
}
use dns_relay.Prelude.Slices.{Bytes}
use dns_relay.Dns.Text.{split_dots}
use dns_relay.Dns.Text.Affix.{eq_bytes, eq_bytes→eq}
use dns_relay.Dns.Text.Spaces.{has}
use dns_relay.Dns.Patterns.{normalized}
use dns_relay.Trie.{
  DomainTriePolicy, unset, drop_query, is_glob, is_some_policy, path_of, rsplit_dots,
}
use dns_relay.Trie.Paths.{eq_labels, shortest-eq}
use dns_relay.Trie.Rules.{rule_for}
use dns_relay.Trie.Glob.{rule_match, check_rules}
use dns_relay.Trie.Glob.Match.{no_star}
use dns_relay.Trie.Glob.Lookup.{labels_match, first_match, globs_in, verdict, lookup-verdict}
use dns_relay.Trie.Build.{build}
use dns_relay.Trie.Build.Rules.{
  Rules, dropped, distinct, dropped_patterns, redirect_rules, build-insert_all,
}

-- What holds of the patterns seen and of a new one holds of all of them.
has-cons :
    (seen : List Bytes) (p : Bytes) (P : Bytes → Type 0)
    → P p
    → ((q : Bytes) → has seen q ≡ true → P q)
    → (q : Bytes) → has (p ∷ seen) q ≡ true
    → P q
unfolding has
has-cons seen p P new old q h = elim (Bool-cases (eq_bytes p q)) [
  | inl e ↦ subst P (eq_bytes→eq p q e) new
  | inr e ↦ old q (rw e at h)
]

if_twice :
    {A : Type 0} (b : Bool) (x y : A) → (if b then x else if b then x else y) ≡ (if b then x else y)
if_twice true x y = refl
if_twice false x y = refl

if_after :
    {A : Type 0} (b c : Bool) (x y : A)
    → (if b then x else y) ≡ y
    → (if b then x else if c then x else y) ≡ (if c then x else y)
if_after true true x y h = refl
if_after true false x y h = h
if_after false c x y h = refl

module _ (lower_wide : Bytes → Bytes) where
  -- A pattern that decides for a path.
  abbrev hits : List Bytes → Bytes → Bool
  hits path p = not (is_glob lower_wide p) && eq_labels (path_of lower_wide p) path

  rule_for-distinct :
      (path : List Bytes) (more : Rules) (ps seen : List Bytes) (said : DomainTriePolicy)
      → ((p : Bytes) → has seen p ≡ true → (if hits path p then drop_query else said) ≡ said)
      → rule_for lower_wide (map dropped (distinct seen ps) ++ more) said path
        ≡ rule_for lower_wide (map dropped ps ++ more) said path
  unfolding rule_for distinct
  rule_for-distinct path more [] seen said known = refl
  rule_for-distinct path more (p ∷ ps) seen said known = elim (Bool-cases (has seen p)) [
    | inl e ↦ rw e (
        rule_for-distinct path more ps seen said known
        ∙ ap (λ s. rule_for lower_wide (map dropped ps ++ more) s path) (sym (known p e)))
    | inr e ↦
        let after = if hits path p then drop_query else said in
        rw e (
          rule_for-distinct path more ps (p ∷ seen) after (
            has-cons seen p (λ q. (if hits path q then drop_query else after) ≡ after)
              (if_twice (hits path p) drop_query said)
              (λ q h. if_after (hits path q) (hits path p) drop_query said (known q h))))
  ]

  -- A glob that means a name.
  abbrev means : Bytes → Bytes → Bool
  means name p =
      is_glob lower_wide p && labels_match (split_dots name) (split_dots (normalized lower_wide p))

  first_match-dropped :
      (name p : Bytes) (rest : Rules)
      → first_match name (globs_in lower_wide (dropped p ∷ rest))
        ≡ (if means name p then drop_query else first_match name (globs_in lower_wide rest))
  unfolding first_match globs_in
  first_match-dropped name p rest = elim (Bool-cases (is_glob lower_wide p)) [
    | inl e ↦ rw e refl
    | inr e ↦ rw e refl
  ]

  first_match-distinct :
      (name : Bytes) (more : Rules) (ps seen : List Bytes)
      → ((p : Bytes) → has seen p ≡ true → means name p ≡ false)
      → first_match name (globs_in lower_wide (map dropped (distinct seen ps) ++ more))
        ≡ first_match name (globs_in lower_wide (map dropped ps ++ more))
  unfolding distinct
  first_match-distinct name more [] seen known = refl
  first_match-distinct name more (p ∷ ps) seen known = elim (Bool-cases (has seen p)) [
    | inl e ↦
        rw (e, first_match-dropped name p (map dropped ps ++ more), known p e)
          (first_match-distinct name more ps seen known)
    | inr e ↦
        rw
          (
            e,
            first_match-dropped name p (map dropped ps ++ more),
            first_match-dropped name p (map dropped (distinct (p ∷ seen) ps) ++ more),
          )
          (elim (Bool-cases (means name p)) [
            | inl f ↦ rw f refl
            | inr f ↦ rw f (
                first_match-distinct name more ps (p ∷ seen)
                  (has-cons seen p (λ q. means name q ≡ false) f known))
          ])
  ]

  verdict-distinct :
      (ps : List Bytes) (more : Rules) (name : Bytes)
      → verdict lower_wide (map dropped (distinct [] ps) ++ more) name
        ≡ verdict lower_wide (map dropped ps ++ more) name
  unfolding verdict has
  verdict-distinct ps more name =
      ap₂ (λ suffix globs. if is_some_policy suffix then suffix else globs)
        (shortest-eq (rule_for lower_wide (map dropped (distinct [] ps) ++ more) unset)
          (rule_for lower_wide (map dropped ps ++ more) unset) (rsplit_dots name)
          (λ path. rule_for-distinct path more ps [] unset (λ p h. (let refuted = h in cc))))
        (first_match-distinct name more ps [] (λ p h. (let refuted = h in cc)))

  -- A domain without a star is judged by the trie of a configuration as its lists say: the rules are
  -- the entries of drop_list that are neither empty nor comments, those of a list file in place of
  -- its name, and behind them the entries of redirect_list that name no file; the last rule for the
  -- shortest suffix that has one decides, else the first label glob that means the domain.
  -- Leaving out repeated entries changes no answer.
  pub check_rules-build :
      (read_to_string : Bytes → Option Bytes) (drop_list : List Bytes)
      (redirect_list : List (Bytes × Bytes)) (domain : Bytes)
      → no_star (normalized lower_wide domain) ≡ true
      → check_rules lower_wide domain (build lower_wide read_to_string drop_list redirect_list)
        ≡ ok (
            rule_match (
              verdict lower_wide
                (map dropped (dropped_patterns lower_wide read_to_string drop_list)
                  ++ redirect_rules lower_wide read_to_string redirect_list)
                (normalized lower_wide domain)))
  unfolding check_rules
  check_rules-build read_to_string drop_list redirect_list domain plain =
      let ps = dropped_patterns lower_wide read_to_string drop_list in
      let more = redirect_rules lower_wide read_to_string redirect_list in
      rw
        (
          build-insert_all lower_wide read_to_string drop_list redirect_list,
          lookup-verdict lower_wide (map dropped (distinct [] ps) ++ more) domain plain,
          verdict-distinct ps more (normalized lower_wide domain),
        )
        refl
