-- ===== src/Dns/Query/RoundTrip.antt =====
-- `parse_domain` after `build_lookup_query`.
use dns_relay.Prelude.{
  ℕ, ◌+◌, ◌≤◌, ◌<◌, ◌≡◌, ◌≢◌, refl, ap, ap₂, ◌∙◌, none, List, [], ◌∷◌, ◌++◌, map, append_assoc,
  true, arith, sym, length, length-map, All, length-append, ok,
}
use dns_relay.Prelude.Slices.{Bytes}
use dns_relay.Dns.Text.{is_ascii, lower_byte, split_dots, trim_end_dots}
use dns_relay.Dns.Text.Dots.{
  join_dots, join_dots-split_dots, split_dots-ne-nil, split_dots-is_ascii, trim_end_dots-is_ascii,
  is_utf8-is_ascii, to_lowercase-is_ascii, AsciiParts,
}
use dns_relay.Dns.Name.{Cursor, rounds, parse_domain}
use dns_relay.Dns.Query.{encode_labels, lookup_header, build_lookup_query}
use dns_relay.Dns.Query.Encoded.{IsLabel, push_label, read_labels, run-encode_labels}

-- The lengths that DNS allows for a label.
abbrev pub FitsLabel : Bytes → Type 0
FitsLabel label = (0 < length label) × (length label ≤ 63)

IsLabel-of_ascii :
    (labels : List Bytes) → All FitsLabel labels → AsciiParts labels → All IsLabel labels
IsLabel-of_ascii [] h a = tt
IsLabel-of_ascii (l ∷ ls) h a = (
  record { not_empty = h.0.0; short = h.0.1; utf8 = is_utf8-is_ascii l a.0 },
  IsLabel-of_ascii ls h.1 a.1,
)

length-encode_labels :
    (l : Bytes) (ls : List Bytes)
    → length (encode_labels (l ∷ ls)) ≡ length (join_dots (l ∷ ls)) + 2
length-encode_labels l [] = omega (arith, length-append l (0 ∷ []))
length-encode_labels l (m ∷ ls) = omega (
  arith,
  length-encode_labels m ls,
  length-append l (encode_labels (m ∷ ls)),
  length-append l (b'.' ∷ join_dots (m ∷ ls)),
)

length-encode : (ls : List Bytes) → ls ≢ [] → length (encode_labels ls) ≡ length (join_dots ls) + 2
length-encode [] n = absurd (n refl)
length-encode (l ∷ ls) n = length-encode_labels l ls

length-le-encode_labels : (ls : List Bytes) → length ls ≤ length (encode_labels ls)
length-le-encode_labels [] = omega arith
length-le-encode_labels (l ∷ ls) =
    omega (arith, length-le-encode_labels ls, length-append l (encode_labels ls))

map-lower_byte-append :
    (xs ys : Bytes) → map lower_byte (xs ++ ys) ≡ map lower_byte xs ++ map lower_byte ys
map-lower_byte-append [] ys = refl
map-lower_byte-append (x ∷ xs) ys = ap (◌∷◌ (lower_byte x)) (map-lower_byte-append xs ys)

module _ (lower_wide : Bytes → Bytes) where
  push_label-is_ascii :
      (domain l : Bytes)
      → 0 < length domain
      → is_ascii l ≡ true
      → push_label lower_wide domain l ≡ domain ++ (b'.' ∷ map lower_byte l)
  push_label-is_ascii [] l p a = absurd (omega arith)
  push_label-is_ascii (b ∷ s) l p a =
      rw (to_lowercase-is_ascii lower_wide l a)
        (append_assoc (b ∷ s) (b'.' ∷ []) (map lower_byte l))

  -- Behind a name that is not empty, the labels are appended with a dot each.
  read_labels-join_dots :
      (domain l : Bytes) (ls : List Bytes)
      → 0 < length domain
      → AsciiParts (l ∷ ls)
      → read_labels lower_wide domain (l ∷ ls)
        ≡ domain ++ (b'.' ∷ map lower_byte (join_dots (l ∷ ls)))
  read_labels-join_dots domain l [] p a = push_label-is_ascii domain l p a.0
  read_labels-join_dots domain l (m ∷ ls) p a =
      let next = domain ++ (b'.' ∷ map lower_byte l) in
      rw (push_label-is_ascii domain l p a.0) (
        read_labels-join_dots next m ls
          (omega (arith, length-append domain (b'.' ∷ map lower_byte l))) a.1
        ∙ append_assoc domain (b'.' ∷ map lower_byte l) (b'.' ∷ map lower_byte (join_dots (m ∷ ls)))
        ∙ ap (λ (t : Bytes). domain ++ (b'.' ∷ t))
            (sym (map-lower_byte-append l (b'.' ∷ join_dots (m ∷ ls)))))

  read_labels-first :
      (ls : List Bytes)
      → ls ≢ []
      → All FitsLabel ls
      → AsciiParts ls
      → read_labels lower_wide [] ls ≡ map lower_byte (join_dots ls)
  read_labels-first [] n h a = absurd (n refl)
  read_labels-first (l ∷ []) n h a = to_lowercase-is_ascii lower_wide l a.0
  read_labels-first (l ∷ m ∷ ls) n h a = rw (to_lowercase-is_ascii lower_wide l a.0) (
      read_labels-join_dots (map lower_byte l) m ls (omega (arith, length-map l lower_byte, h.0.0))
        a.1
      ∙ sym (map-lower_byte-append l (b'.' ∷ join_dots (m ∷ ls))))

-- For an ASCII domain whose labels have 1 to 63 bytes, `parse_domain` reads back from the query
-- that `build_lookup_query` writes the domain, in lower case and without its trailing dots, and
-- the end of the name two bytes behind the length of the domain.
pub parse_domain-build_lookup_query :
    (lower_wide : Bytes → Bytes) (txid : ℕ) (domain : Bytes)
    → is_ascii domain ≡ true
    → All FitsLabel (split_dots (trim_end_dots domain))
    → parse_domain lower_wide (build_lookup_query txid domain) 12
      ≡ ok (map lower_byte (trim_end_dots domain), 12 + (length (trim_end_dots domain) + 2))
unfolding parse_domain build_lookup_query
parse_domain-build_lookup_query lower_wide txid domain a h =
    let name = trim_end_dots domain in
    let labels = split_dots name in
    let parts = split_dots-is_ascii name (trim_end_dots-is_ascii domain a) in
    let footer : Bytes = 0x00 ∷ 0x01 ∷ 0x00 ∷ 0x01 ∷ [] in
    let packet = build_lookup_query txid domain in
    let start : Cursor = record { offset = 12; domain = []; end_offset = none; pointer_hops = 0 } in
    let all_read =
      run-encode_labels lower_wide labels (lookup_header txid) footer (rounds packet) start refl
        (IsLabel-of_ascii labels h parts)
        (omega
          (arith, length-le-encode_labels labels, length-append (encode_labels labels) footer)) in
    let lowered =
      read_labels-first lower_wide labels (split_dots-ne-nil name) h parts
      ∙ ap (map lower_byte) (join_dots-split_dots name) in
    let ends =
      length-encode (split_dots name) (split_dots-ne-nil name)
      ∙ ap (λ (s : Bytes). length s + 2) (join_dots-split_dots name) in
    rw all_read (ap₂ (λ (s : Bytes) (e : ℕ). ok (s, 12 + e)) lowered ends)
