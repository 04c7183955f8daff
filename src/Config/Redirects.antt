-- ===== src/Config/Redirects.antt =====
-- Redirects written to the configuration and read again.
use dns_relay.Prelude.{
  ◌≡◌, refl, false, some, List, [], ◌∷◌, ◌++◌, ◌==◌, any, All, ok, Bool-cases, inl, inr,
}
use dns_relay.Prelude.Slices.{Bytes}
use dns_relay.Dns.Text.Spaces.{split_once}
use dns_relay.Config.{deserialize_redirect_list, serialize_redirect_list}

abbrev pub NoColon : Bytes × Bytes → Type 0
NoColon (domain, target) = any (λ b. b == b':') domain ≡ false

split_once-append :
    (domain target : Bytes)
    → any (λ b. b == b':') domain ≡ false
    → split_once b':' (domain ++ (b':' ∷ target)) ≡ some (domain, target)
unfolding split_once
split_once-append [] target h = refl
split_once-append (b ∷ domain) target h = elim (Bool-cases (b == b':')) [
  | inl e ↦ (let refuted = rw e at h in cc)
  | inr e ↦ rw (e, split_once-append domain target (rw e at h)) refl
]

-- A list of redirects comes back from the configuration as it was written, if no domain in it has a colon.
pub deserialize_redirect_list-serialize_redirect_list :
    (entries : List (Bytes × Bytes))
    → All NoColon entries
    → deserialize_redirect_list (serialize_redirect_list entries) ≡ ok entries
unfolding deserialize_redirect_list serialize_redirect_list
deserialize_redirect_list-serialize_redirect_list [] h = refl
deserialize_redirect_list-serialize_redirect_list ((domain, target) ∷ entries) (first, rest) =
    rw
      (
        split_once-append domain target first,
        deserialize_redirect_list-serialize_redirect_list entries rest,
      )
      refl
