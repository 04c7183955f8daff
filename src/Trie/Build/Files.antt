-- ===== src/Trie/Build/Files.antt =====
-- Redirects from a list file.
use dns_relay.Prelude.{
  ℕ, ◌≡◌, refl, Bool, true, false, not, ◌&&◌, ◌||◌, Option, none, some, List, [], ◌∷◌, ◌==◌, leb,
  length, all, any, &&→both, All, arith, Bool-cases, inl, inr,
}
use dns_relay.Prelude.Slices.{Bytes}
use dns_relay.Dns.Text.{split_dots, push_first, is_empty}
use dns_relay.Dns.Text.Spaces.{split_once}
use dns_relay.Trie.{DomainTrie}
use dns_relay.Trie.Blocklist.{is_name_byte, is_label, is_dns_name, parse_blocklist}
use dns_relay.Trie.Blocklist.Names.{IsListName, parse_blocklist-IsListName}
use dns_relay.Trie.Build.{redirect_lines, read_list_file, contents_of}

abbrev is_text_byte : ℕ → Bool
is_text_byte b = b == b'.' || is_name_byte b

abbrev spelled : Bytes → Bool
spelled = all is_name_byte

labels_spelled : (ls : List Bytes) → all is_label ls ≡ true → all spelled ls ≡ true
labels_spelled [] h = refl
labels_spelled (l ∷ ls) h =
    let (first, rest) = &&→both (is_label l) (all is_label ls) h in
    let (_, bytes) = &&→both (not (is_empty l) && leb (length l) 63) (spelled l) first in
    rw bytes (labels_spelled ls rest)

push_first-spelled :
    (b : ℕ) (ls : List Bytes)
    → all spelled (push_first b ls) ≡ true
    → (is_name_byte b ≡ true) × (all spelled ls ≡ true)
push_first-spelled b [] h = (ground (arith, h), refl)
push_first-spelled b (l ∷ ls) h =
    let (first, rest) = &&→both (spelled (b ∷ l)) (all spelled ls) h in
    let (byte, bytes) = &&→both (is_name_byte b) (spelled l) first in (byte, rw (bytes, rest) refl)

-- Between the dots of a name are bytes of labels only.
spelled-text : (s : Bytes) → all spelled (split_dots s) ≡ true → all is_text_byte s ≡ true
unfolding split_dots
spelled-text [] h = refl
spelled-text (b ∷ s) h = elim (Bool-cases (b == b'.')) [
  | inl e ↦ rw e (spelled-text s (rw e at h))
  | inr e ↦
      let (byte, rest) = push_first-spelled b (split_dots s) (rw e at h) in
      rw (e, byte) (spelled-text s rest)
]

text_byte-colon : (b : ℕ) → is_text_byte b ≡ true → (b == b':') ≡ false
text_byte-colon b h = ground (arith, h)

split_once-none : (s : Bytes) → all is_text_byte s ≡ true → split_once b':' s ≡ none
unfolding split_once
split_once-none [] h = refl
split_once-none (b ∷ s) h =
    let (byte, rest) = &&→both (is_text_byte b) (all is_text_byte s) h in
    rw (text_byte-colon b byte, split_once-none s rest) refl

is_dns_name-labels : (s : Bytes) → is_dns_name s ≡ true → all is_label (split_dots s) ≡ true
unfolding is_dns_name
is_dns_name-labels s h =
    let dotted = any (λ b. b == b'.') s in
    (&&→both (leb (length s) 253 && dotted) (all is_label (split_dots s)) h).1

module _ (lower_wide : Bytes → Bytes) (read_to_string : Bytes → Option Bytes) where
  redirect_lines-names :
      (lines : List Bytes) (trie : DomainTrie)
      → All IsListName lines
      → redirect_lines lower_wide read_to_string lines trie ≡ trie
  unfolding redirect_lines
  redirect_lines-names [] trie h = refl
  redirect_lines-names (line ∷ rest) trie (first, later) =
      rw
        (split_once-none line (
          spelled-text line
            (labels_spelled (split_dots line) (is_dns_name-labels line first.dns_name))))
        (redirect_lines-names rest trie later)

  -- A redirect entry that names a list file leaves the trie as it is, whatever the file holds: a line
  -- of it with the colon of `domain:ip1,ip2` is not a name, and is gone before the colon is looked for.
  pub redirect_lines-read_list_file :
      (path : Bytes) (trie : DomainTrie)
      → redirect_lines lower_wide read_to_string
          (read_list_file lower_wide read_to_string path)
          trie
        ≡ trie
  unfolding read_list_file
  redirect_lines-read_list_file path trie = on (read_to_string path)
    where
      on :
          (content : Option Bytes)
          → redirect_lines lower_wide read_to_string
              (contents_of lower_wide read_to_string content)
              trie
            ≡ trie
      on none = redirect_lines-names [] trie tt
      on (some content) =
          redirect_lines-names (parse_blocklist content) trie (parse_blocklist-IsListName content)
