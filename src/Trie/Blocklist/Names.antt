-- ===== src/Trie/Blocklist/Names.antt =====
-- What the lines of a block list are read as.
use dns_relay.Prelude.{
  ℕ, ◌≡◌, refl, ap₂, ◌∙◌, sym, true, ◌&&◌, ◌||◌, Option, none, some, List, [], ◌∷◌, ◌==◌,
  length-map, all, any, map, All, arith, Bool-cases, inl, inr,
}
use dns_relay.Prelude.Slices.{Bytes}
use dns_relay.Dns.Text.{is_empty, lower_byte, split_dots, push_first}
use dns_relay.Dns.Text.Spaces.{trim, lines, trim_end_byte}
use dns_relay.Trie.Blocklist.{
  is_name_byte, is_label, is_dns_name, is_comment, candidate_of, bare, named, parse_blocklist_line,
  parse_blocklist, filter_map, kept,
}

-- A DNS name of at least two labels in lower case.
pub record IsListName (s : Bytes) : Type 0 where
  pub dns_name : is_dns_name s ≡ true
  pub lower_case : map lower_byte s ≡ s

lower_byte-dot : (b : ℕ) → (lower_byte b == b'.') ≡ (b == b'.')
lower_byte-dot b = ground arith

lower_byte-is_name_byte : (b : ℕ) → is_name_byte (lower_byte b) ≡ is_name_byte b
lower_byte-is_name_byte b = ground arith

lower_byte-lower_byte : (b : ℕ) → lower_byte (lower_byte b) ≡ lower_byte b
lower_byte-lower_byte b = ground arith

map_lower-idempotent : (s : Bytes) → map lower_byte (map lower_byte s) ≡ map lower_byte s
map_lower-idempotent [] = refl
map_lower-idempotent (b ∷ s) = ap₂ ◌∷◌ (lower_byte-lower_byte b) (map_lower-idempotent s)

any_dot-lower : (s : Bytes) → any (λ b. b == b'.') (map lower_byte s) ≡ any (λ b. b == b'.') s
any_dot-lower [] = refl
any_dot-lower (b ∷ s) = ap₂ (λ x y. x || y) (lower_byte-dot b) (any_dot-lower s)

all_name-lower : (s : Bytes) → all is_name_byte (map lower_byte s) ≡ all is_name_byte s
all_name-lower [] = refl
all_name-lower (b ∷ s) = ap₂ (λ x y. x && y) (lower_byte-is_name_byte b) (all_name-lower s)

is_empty-lower : (s : Bytes) → is_empty (map lower_byte s) ≡ is_empty s
is_empty-lower [] = refl
is_empty-lower (b ∷ s) = refl

is_label-lower : (s : Bytes) → is_label (map lower_byte s) ≡ is_label s
is_label-lower s = rw (is_empty-lower s, length-map s lower_byte, all_name-lower s) refl

all_labels-push_first :
    (b : ℕ) (ls : List Bytes)
    → map (map lower_byte) (push_first b ls) ≡ push_first (lower_byte b) (map (map lower_byte) ls)
all_labels-push_first b [] = refl
all_labels-push_first b (l ∷ ls) = refl

split_dots-lower : (s : Bytes) → split_dots (map lower_byte s) ≡ map (map lower_byte) (split_dots s)
unfolding split_dots
split_dots-lower [] = refl
split_dots-lower (b ∷ s) =
    rw (lower_byte-dot b, split_dots-lower s)
      (elim (Bool-cases (b == b'.')) [
        | inl e ↦ rw e refl
        | inr e ↦ rw e (sym (all_labels-push_first b (split_dots s)))
      ])

all_labels-lower : (ls : List Bytes) → all is_label (map (map lower_byte) ls) ≡ all is_label ls
all_labels-lower [] = refl
all_labels-lower (l ∷ ls) = ap₂ (λ x y. x && y) (is_label-lower l) (all_labels-lower ls)

is_dns_name-lower : (s : Bytes) → is_dns_name (map lower_byte s) ≡ is_dns_name s
unfolding is_dns_name
is_dns_name-lower s =
    rw
      (
        length-map s lower_byte,
        any_dot-lower s,
        split_dots-lower s,
        all_labels-lower (split_dots s),
      )
      refl

abbrev Named : Option Bytes → Type 0
Named none = Unit
Named (some s) = IsListName s

named-Named : (candidate : Option Bytes) → Named (named candidate)
named-Named none = tt
named-Named (some c) = elim (Bool-cases (is_dns_name (bare c))) [
  | inl e ↦ rw e (record {
    dns_name = is_dns_name-lower (bare c) ∙ e;
    lower_case = map_lower-idempotent (bare c);
  })
  | inr e ↦ rw e tt
]

parse_blocklist_line-Named : (line : Bytes) → Named (parse_blocklist_line line)
unfolding parse_blocklist_line
parse_blocklist_line-Named line = elim (Bool-cases (is_comment (trim_end_byte 0x0D (trim line)))) [
  | inl e ↦ rw e tt
  | inr e ↦ rw e (named-Named (candidate_of (trim_end_byte 0x0D (trim line))))
]

kept-All :
    (o : Option Bytes) (ls : List Bytes) → Named o → All IsListName ls → All IsListName (kept o ls)
kept-All none ls h rest = rest
kept-All (some s) ls h rest = (h, rest)

filter_map-All :
    (f : Bytes → Option Bytes) (ls : List Bytes)
    → ((s : Bytes) → Named (f s))
    → All IsListName (filter_map f ls)
filter_map-All f [] h = tt
filter_map-All f (s ∷ ls) h = kept-All (f s) (filter_map f ls) (h s) (filter_map-All f ls h)

-- Every entry that a block list of any content is read as is a DNS name by the code's own test, with
-- a dot and no empty or overlong label, and has no letter in upper case.
pub parse_blocklist-IsListName : (content : Bytes) → All IsListName (parse_blocklist content)
unfolding parse_blocklist
parse_blocklist-IsListName content =
    filter_map-All parse_blocklist_line (lines content) parse_blocklist_line-Named
