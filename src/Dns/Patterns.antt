-- ===== src/Dns/Patterns.antt =====
-- `matches_domain_pattern` of shared/src/dns.rs.
use dns_relay.Prelude.{
  ◌≡◌, refl, Bool, true, false, ◌||◌, Option, none, some, [], ◌∷◌, ◌++◌, arith, if◌then◌else◌, ◌⊎◌,
  inl, inr, ◌↔◌, Bool-cases, Option-cases,
}
use dns_relay.Prelude.Slices.{Bytes}
use dns_relay.Dns.Text.{to_lowercase, trim_end_dots}
use dns_relay.Dns.Text.Affix.{
  eq_bytes, eq_bytes→eq, eq_bytes_self, strip_prefix, strip_prefix→eq, ends_with, ends_with→eq,
  ends_with-append,
}

abbrev star_dot : Bytes
star_dot = b'*' ∷ b'.' ∷ []

abbrev pub suffix_matches : Bytes → Option Bytes → Bool
suffix_matches domain none = false
suffix_matches domain (some suffix) = eq_bytes domain suffix || ends_with domain (b'.' ∷ suffix)

module _ (lower_wide : Bytes → Bytes) where
  -- `s.trim_end_matches('.').to_lowercase()`
  abbrev pub normalized : Bytes → Bytes
  normalized s = to_lowercase lower_wide (trim_end_dots s)

  unfoldable pub matches_domain_pattern : Bytes → Bytes → Bool
  unfolding eq_bytes strip_prefix ends_with to_lowercase trim_end_dots
  matches_domain_pattern domain pattern =
      let d = normalized domain in
      let p = normalized pattern in
      if eq_bytes d p then true else suffix_matches d (strip_prefix star_dot p)

-- What a pattern says: it is the domain, or it is `*.` and a name that is the domain or a parent.
abbrev pub Covers : Bytes → Bytes → Type 0
Covers domain pattern =
    (domain ≡ pattern)
    ⊎ ((suffix : Bytes) × (pattern ≡ b'*' ∷ b'.' ∷ suffix)
        × ((domain ≡ suffix) ⊎ ((front : Bytes) × (domain ≡ front ++ (b'.' ∷ suffix)))))

suffix_matches→eq :
    (d s : Bytes)
    → suffix_matches d (some s) ≡ true
    → (d ≡ s) ⊎ ((front : Bytes) × (d ≡ front ++ (b'.' ∷ s)))
suffix_matches→eq d s h = elim (Bool-cases (eq_bytes d s)) [
  | inl e ↦ inl (eq_bytes→eq d s e)
  | inr e ↦ inr (ends_with→eq d (b'.' ∷ s) (rw e at h))
]

module _ (lower_wide : Bytes → Bytes) (domain pattern : Bytes) where
  matches→Covers :
      matches_domain_pattern lower_wide domain pattern ≡ true
      → Covers (normalized lower_wide domain) (normalized lower_wide pattern)
  unfolding matches_domain_pattern
  matches→Covers h =
      let d = normalized lower_wide domain in
      let p = normalized lower_wide pattern in
      elim (Bool-cases (eq_bytes d p)) [
        | inl e ↦ inl (eq_bytes→eq d p e)
        | inr e ↦ elim (Option-cases (strip_prefix star_dot p)) [
          | inl none_there ↦ (let refuted = rw (e, none_there) at h in cc)
          | inr (s, found) ↦
              inr
                (s, strip_prefix→eq star_dot p s found, suffix_matches→eq d s (rw (e, found) at h))
        ]
      ]

  Covers→matches :
      Covers (normalized lower_wide domain) (normalized lower_wide pattern)
      → matches_domain_pattern lower_wide domain pattern ≡ true
  unfolding matches_domain_pattern
  Covers→matches (inl same) = rw (same, eq_bytes_self (normalized lower_wide pattern)) refl
  Covers→matches (inr (s, starred, inl same)) = rw (starred, same, eq_bytes_self s) (ground arith)
  Covers→matches (inr (s, starred, inr (front, under))) =
      rw (starred, under, ends_with-append front (b'.' ∷ s)) (ground arith)

  -- A pattern covers a domain when, both without final dots and in lower case, it is the domain, or
  -- is `*.` and the domain or one of its parents.
  pub matches_domain_pattern-Covers :
      (matches_domain_pattern lower_wide domain pattern ≡ true)
      ↔ Covers (normalized lower_wide domain) (normalized lower_wide pattern)
  matches_domain_pattern-Covers = (matches→Covers, Covers→matches)
