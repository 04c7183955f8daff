-- ===== src/Config/Schemes.antt =====
-- What the tests of URLs and of lists of them mean.
use dns_relay.Prelude.{
  ◌≡◌, refl, sym, ap, ◌∙◌, Bool, true, false, Option, none, some, List, [], ◌∷◌, ◌++◌, any, ◌⊎◌,
  ◌↔◌, inl, inr, Bool-cases,
}
use dns_relay.Prelude.Slices.{Bytes}
use dns_relay.Dns.Text.Affix.{strip_prefix, strip_prefix→eq, strip_prefix-append}
use dns_relay.Dns.Text.Spaces.{starts_with, is_some}
use dns_relay.Cache.Lru.{Has}
use dns_relay.Resolver.Picker.{is_https, is_quic, is_secure_resolver}

abbrev pub StartsWith : Bytes → Bytes → Type 0
StartsWith prefix s = (rest : Bytes) × (s ≡ prefix ++ rest)

abbrev pub https_scheme : Bytes
https_scheme = b'h' ∷ b't' ∷ b't' ∷ b'p' ∷ b's' ∷ b':' ∷ b'/' ∷ b'/' ∷ []

abbrev pub quic_scheme : Bytes
quic_scheme = b'q' ∷ b'u' ∷ b'i' ∷ b'c' ∷ b':' ∷ b'/' ∷ b'/' ∷ []

-- An address whose scheme is HTTPS or QUIC.
abbrev pub IsSecureAddress : Bytes → Type 0
IsSecureAddress address = StartsWith https_scheme address ⊎ StartsWith quic_scheme address

starts_with-StartsWith : (s prefix : Bytes) → starts_with s prefix ≡ true ↔ StartsWith prefix s
unfolding starts_with
starts_with-StartsWith s prefix = (
  λ h. on (strip_prefix prefix s) refl h,
  λ (rest, e).
      ap (λ t. is_some (strip_prefix prefix t)) e ∙ ap is_some (strip_prefix-append prefix rest),
)
  where
    on : (o : Option Bytes) → strip_prefix prefix s ≡ o → is_some o ≡ true → StartsWith prefix s
    on none e h = cc
    on (some rest) e h = (rest, strip_prefix→eq prefix s rest e)

pub is_https-StartsWith :
    (address : Bytes) → is_https address ≡ true ↔ StartsWith https_scheme address
unfolding is_https
is_https-StartsWith address = starts_with-StartsWith address https_scheme

is_quic-StartsWith : (address : Bytes) → is_quic address ≡ true ↔ StartsWith quic_scheme address
unfolding is_quic
is_quic-StartsWith address = starts_with-StartsWith address quic_scheme

pub is_secure_resolver-IsSecureAddress :
    (address : Bytes) → is_secure_resolver address ≡ true ↔ IsSecureAddress address
unfolding is_secure_resolver
is_secure_resolver-IsSecureAddress address = (
  λ h. elim (Bool-cases (is_https address)) [
    | inl e ↦ inl ((is_https-StartsWith address).0 e)
    | inr e ↦ inr ((is_quic-StartsWith address).0 (rw e at h))
  ],
  λ secure. elim secure [
    | inl e ↦ rw ((is_https-StartsWith address).1 e) refl
    | inr e ↦
        (let over = (is_quic-StartsWith address).1 e in
          elim (Bool-cases (is_https address)) [ inl f ↦ rw f refl | inr f ↦ rw (f, over) refl ])
  ],
)

module _ {A : Type 0} (test : A → Bool) where
  pub any-Has : (xs : List A) → any test xs ≡ true ↔ ((x : A) × Has x xs × (test x ≡ true))
  any-Has [] = ((λ h. cc), (λ (x, m, e). absurd m))
  any-Has (x ∷ xs) = (
    λ h. elim (Bool-cases (test x)) [
      | inl e ↦ (x, inl refl, e)
      | inr e ↦ let (y, m, f) = (any-Has xs).0 (rw e at h) in (y, inr m, f)
    ],
    λ (y, m, f). elim m [
      | inl same ↦ rw (ap test (sym same) ∙ f) refl
      | inr later ↦
          (let rest = (any-Has xs).1 (y, later, f) in
            elim (Bool-cases (test x)) [ inl e ↦ rw e refl | inr e ↦ rw (e, rest) refl ])
    ],
  )

  pub any-none : (xs : List A) → any test xs ≡ false ↔ ((x : A) → Has x xs → test x ≡ false)
  any-none [] = ((λ h x m. absurd m), (λ h. refl))
  any-none (x ∷ xs) = (
    λ h y m. elim (Bool-cases (test x)) [
      | inl e ↦ (let refuted = rw e at h in cc)
      | inr e ↦ elim m [
        | inl same ↦ ap test same ∙ e
        | inr later ↦ (any-none xs).0 (rw e at h) y later
      ]
    ],
    λ h. rw (h x (inl refl)) ((any-none xs).1 (λ y m. h y (inr m))),
  )
