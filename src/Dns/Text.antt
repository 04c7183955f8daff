-- ===== src/Dns/Text.antt =====
-- Rust strings as their UTF-8 bytes, for shared/src/dns.rs and shared/src/domain_trie.rs:
-- the check of `std::str::from_utf8` (the table of well-formed sequences of the Unicode standard),
-- `to_lowercase`, and the operations on dots. The lower case of a text with non-ASCII characters
-- follows the Unicode tables and is the parameter `lower_wide`.
pub mod Dots
pub mod Affix
pub mod Spaces
use dns_relay.Prelude.{
  ℕ, ◌+◌, Bool, true, false, ◌&&◌, List, [], ◌∷◌, map, ltb, leb, ◌==◌, if◌then◌else◌, all,
}
use dns_relay.Prelude.Slices.{Bytes}

abbrev pub between : ℕ → ℕ → ℕ → Bool
between lo hi b = leb lo b && leb b hi

abbrev pub continues : ℕ → Bool
continues b = between 0x80 0xBF b

-- The second byte that a lead byte of three or of four bytes allows.
second_of_three : ℕ → ℕ → Bool
second_of_three b c =
    if b == 0xE0
    then between 0xA0 0xBF c
    else if b == 0xED
    then between 0x80 0x9F c
    else continues c

second_of_four : ℕ → ℕ → Bool
second_of_four b c =
    if b == 0xF0
    then between 0x90 0xBF c
    else if b == 0xF4
    then between 0x80 0x8F c
    else continues c

-- `std::str::from_utf8(bytes).is_ok()`
unfoldable pub is_utf8 : Bytes → Bool
unfolding second_of_three second_of_four
is_utf8 [] = true
is_utf8 (b ∷ []) = ltb b 0x80
is_utf8 (b ∷ c ∷ []) = if ltb b 0x80 then is_utf8 (c ∷ []) else between 0xC2 0xDF b && continues c
is_utf8 (b ∷ c ∷ d ∷ []) =
    let one = is_utf8 (c ∷ d ∷ []) in
    let two = is_utf8 (d ∷ []) in
    if ltb b 0x80
    then one
    else if between 0xC2 0xDF b && continues c
    then two
    else between 0xE0 0xEF b && second_of_three b c && continues d
is_utf8 (b ∷ c ∷ d ∷ e ∷ rest) =
    let one = is_utf8 (c ∷ d ∷ e ∷ rest) in
    let two = is_utf8 (d ∷ e ∷ rest) in
    let three = is_utf8 (e ∷ rest) in
    let four = is_utf8 rest in
    if ltb b 0x80
    then one
    else if between 0xC2 0xDF b && continues c
    then two
    else if between 0xE0 0xEF b && second_of_three b c && continues d
    then three
    else if between 0xF0 0xF4 b && second_of_four b c && continues d && continues e
    then four
    else false

abbrev pub is_ascii : Bytes → Bool
is_ascii = all (λ b. ltb b 0x80)

-- `u8::to_ascii_lowercase`
abbrev pub lower_byte : ℕ → ℕ
lower_byte b = if between b'A' b'Z' b then b + 32 else b

-- `str::to_lowercase`
unfoldable pub to_lowercase : (Bytes → Bytes) → Bytes → Bytes
to_lowercase lower_wide s = if is_ascii s then map lower_byte s else lower_wide s

abbrev pub is_empty : Bytes → Bool
is_empty [] = true
is_empty (_ ∷ _) = false

-- `s.trim_end_matches('.')`
unfoldable pub trim_end_dots : Bytes → Bytes
trim_end_dots [] = []
trim_end_dots (b ∷ s) =
    let rest = trim_end_dots s in if b == b'.' && is_empty rest then [] else b ∷ rest

-- `s.split('.')`: a text has one more part than it has dots.
abbrev pub push_first : ℕ → List Bytes → List Bytes
push_first b [] = (b ∷ []) ∷ []
push_first b (l ∷ ls) = (b ∷ l) ∷ ls

unfoldable pub split_dots : Bytes → List Bytes
split_dots [] = [] ∷ []
split_dots (b ∷ s) = let rest = split_dots s in if b == b'.' then [] ∷ rest else push_first b rest
