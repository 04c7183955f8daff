-- ===== src/Dns/Text/Affix.antt =====
-- `==`, `strip_prefix` and `ends_with` of Rust's strings, on their bytes.
use dns_relay.Prelude.{
  ◌-◌, ◌≡◌, refl, sym, ap, ap₂, ◌∙◌, Bool, true, false, ◌&&◌, Option, none, some, [], ◌∷◌, ◌++◌,
  ◌==◌, if◌then◌else◌, length, drop, take, ==→eq, ==_self, length-append, drop-append,
  take-append-drop, arith, Bool-cases, inl, inr,
}
use dns_relay.Prelude.Slices.{Bytes}

unfoldable pub eq_bytes : Bytes → Bytes → Bool
eq_bytes [] [] = true
eq_bytes (a ∷ s) (b ∷ t) = a == b && eq_bytes s t
eq_bytes _ _ = false

pub eq_bytes→eq : (s t : Bytes) → eq_bytes s t ≡ true → s ≡ t
unfolding eq_bytes
eq_bytes→eq [] [] h = refl
eq_bytes→eq [] (b ∷ t) h = cc
eq_bytes→eq (a ∷ s) [] h = cc
eq_bytes→eq (a ∷ s) (b ∷ t) h = elim (Bool-cases (a == b)) [
  | inl e ↦ ap₂ ◌∷◌ (==→eq a b e) (eq_bytes→eq s t (rw e at h))
  | inr e ↦ (let refuted = rw e at h in cc)
]

pub eq_bytes_self : (s : Bytes) → eq_bytes s s ≡ true
unfolding eq_bytes
eq_bytes_self [] = refl
eq_bytes_self (a ∷ s) = rw (==_self a) (eq_bytes_self s)

-- `s.strip_prefix(prefix)`
unfoldable pub strip_prefix : Bytes → Bytes → Option Bytes
strip_prefix [] s = some s
strip_prefix (p ∷ ps) [] = none
strip_prefix (p ∷ ps) (b ∷ s) = let rest = strip_prefix ps s in if p == b then rest else none

pub strip_prefix→eq : (p s rest : Bytes) → strip_prefix p s ≡ some rest → s ≡ p ++ rest
unfolding strip_prefix
strip_prefix→eq [] s rest h = cc
strip_prefix→eq (p ∷ ps) [] rest h = cc
strip_prefix→eq (p ∷ ps) (b ∷ s) rest h = elim (Bool-cases (p == b)) [
  | inl e ↦ ap₂ ◌∷◌ (sym (==→eq p b e)) (strip_prefix→eq ps s rest (rw e at h))
  | inr e ↦ (let refuted = rw e at h in cc)
]

pub strip_prefix-append : (p s : Bytes) → strip_prefix p (p ++ s) ≡ some s
unfolding strip_prefix
strip_prefix-append [] s = refl
strip_prefix-append (p ∷ ps) s = rw (==_self p) (strip_prefix-append ps s)

-- `s.ends_with(suffix)`
unfoldable pub ends_with : Bytes → Bytes → Bool
ends_with s suffix = eq_bytes (drop (length s - length suffix) s) suffix

pub ends_with→eq :
    (s suffix : Bytes) → ends_with s suffix ≡ true → (front : Bytes) × (s ≡ front ++ suffix)
unfolding ends_with
ends_with→eq s suffix h =
    let n = length s - length suffix in
    (take n s, sym (take-append-drop n s) ∙ ap (◌++◌ (take n s)) (eq_bytes→eq (drop n s) suffix h))

pub ends_with-append : (front suffix : Bytes) → ends_with (front ++ suffix) suffix ≡ true
unfolding ends_with
ends_with-append front suffix =
    let size : length (front ++ suffix) - length suffix ≡ length front =
      omega (arith, length-append front suffix) in
    rw (size, drop-append front suffix) (eq_bytes_self suffix)
