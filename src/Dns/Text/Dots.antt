-- ===== src/Dns/Text/Dots.antt =====
-- Splitting at dots, joining with dots, and ASCII texts.
use dns_relay.Prelude.{
  ℕ, ◌≡◌, ◌≢◌, refl, ap, ◌∙◌, true, List, [], ◌∷◌, ◌++◌, map, arith, ltb, ◌==◌, All, Bool-cases,
  inl, inr, sym, ap₂, ==→eq,
}
use dns_relay.Prelude.Slices.{Bytes}
use dns_relay.Dns.Text.{
  is_utf8, is_ascii, lower_byte, to_lowercase, push_first, split_dots, trim_end_dots,
}

abbrev pub join_dots : List Bytes → Bytes
join_dots [] = []
join_dots (l ∷ []) = l
join_dots (l ∷ m ∷ ls) = l ++ (b'.' ∷ join_dots (m ∷ ls))

pub split_dots-ne-nil : (s : Bytes) → split_dots s ≢ []
unfolding split_dots
split_dots-ne-nil [] = ground arith
split_dots-ne-nil (b ∷ s) = ground arith

join_dots-push_first :
    (b : ℕ) (ls : List Bytes) → ls ≢ [] → join_dots (push_first b ls) ≡ b ∷ join_dots ls
join_dots-push_first b [] h = absurd (h refl)
join_dots-push_first b (l ∷ []) h = refl
join_dots-push_first b (l ∷ m ∷ ls) h = refl

join_dots-empty : (ls : List Bytes) → ls ≢ [] → join_dots ([] ∷ ls) ≡ b'.' ∷ join_dots ls
join_dots-empty [] h = absurd (h refl)
join_dots-empty (l ∷ ls) h = refl

pub join_dots-split_dots : (s : Bytes) → join_dots (split_dots s) ≡ s
unfolding split_dots
join_dots-split_dots [] = refl
join_dots-split_dots (b ∷ s) = elim (Bool-cases (b == b'.')) [
  | inl dot ↦ rw dot (
      join_dots-empty _ (split_dots-ne-nil s)
      ∙ ap₂ ◌∷◌ (sym (==→eq b b'.' dot)) (join_dots-split_dots s))
  | inr other ↦
      rw other
        (join_dots-push_first b _ (split_dots-ne-nil s) ∙ ap (◌∷◌ b) (join_dots-split_dots s))
]

-- An ASCII text is UTF-8, and its lower case is taken byte by byte.
pub is_utf8-is_ascii : (s : Bytes) → is_ascii s ≡ true → is_utf8 s ≡ true
unfolding is_utf8
is_utf8-is_ascii [] h = refl
is_utf8-is_ascii (b ∷ []) h = ground arith
is_utf8-is_ascii (b ∷ c ∷ []) h = ground arith
is_utf8-is_ascii (b ∷ c ∷ d ∷ []) h = ground (arith, is_utf8-is_ascii (c ∷ d ∷ []))
is_utf8-is_ascii (b ∷ c ∷ d ∷ e ∷ rest) h = ground (arith, is_utf8-is_ascii (c ∷ d ∷ e ∷ rest))

pub to_lowercase-is_ascii :
    (lower_wide : Bytes → Bytes) (s : Bytes)
    → is_ascii s ≡ true
    → to_lowercase lower_wide s ≡ map lower_byte s
unfolding to_lowercase
to_lowercase-is_ascii lower_wide s h = rw h

pub is_ascii-append :
    (s t : Bytes) → is_ascii (s ++ t) ≡ true → (is_ascii s ≡ true) × (is_ascii t ≡ true)
is_ascii-append [] t h = (refl, h)
is_ascii-append (b ∷ s) t h = ground (arith, is_ascii-append s t)

abbrev pub AsciiParts : List Bytes → Type 0
AsciiParts = All (λ l. is_ascii l ≡ true)

push_first-is_ascii :
    (b : ℕ) (ls : List Bytes) → ltb b 0x80 ≡ true → AsciiParts ls → AsciiParts (push_first b ls)
push_first-is_ascii b [] h a = (ground arith, tt)
push_first-is_ascii b (l ∷ ls) h a = (ground arith, a.1)

pub split_dots-is_ascii : (s : Bytes) → is_ascii s ≡ true → AsciiParts (split_dots s)
unfolding split_dots
split_dots-is_ascii [] h = (refl, tt)
split_dots-is_ascii (b ∷ s) h = elim (Bool-cases (b == b'.')) [
  | inl dot ↦ rw dot (refl, split_dots-is_ascii s (ground arith))
  | inr other ↦
      rw other (push_first-is_ascii b _ (ground arith) (split_dots-is_ascii s (ground arith)))
]

pub trim_end_dots-is_ascii : (s : Bytes) → is_ascii s ≡ true → is_ascii (trim_end_dots s) ≡ true
unfolding trim_end_dots
trim_end_dots-is_ascii [] h = refl
trim_end_dots-is_ascii (b ∷ s) h = ground (arith, trim_end_dots-is_ascii s)
