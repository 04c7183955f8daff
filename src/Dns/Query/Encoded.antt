-- ===== src/Dns/Query/Encoded.antt =====
-- What `parse_domain` reads off the labels that `build_lookup_query` writes.
use dns_relay.Prelude.{
  ℕ, zero, suc, ◌+◌, ◌≤◌, ◌<◌, ◌%◌, ◌≡◌, refl, ap, ◌∙◌, List, [], ◌∷◌, ◌++◌, append_assoc, true,
  arith, length, All, if◌then◌else◌, length-append, ok, bit_and,
}
use dns_relay.Prelude.Slices.{Bytes}
use dns_relay.Prelude.Seams.{at-right, slice-right}
use dns_relay.Prelude.Bits.{high_bits}
use dns_relay.Dns.Text.{is_utf8, to_lowercase, is_empty}
use dns_relay.Dns.Name.{Cursor, again, finished, round, run, read_label}
use dns_relay.Dns.Query.{encode_labels}

-- A label as DNS allows it: one to 63 bytes of UTF-8.
pub record IsLabel (label : Bytes) : Type 0 where
  pub not_empty : 0 < length label
  pub short : length label ≤ 63
  pub utf8 : is_utf8 label ≡ true

short_mod : (n : ℕ) → n ≤ 63 → n % 256 ≡ n
short_mod n h = omega arith

no_high_bits : (n : ℕ) → n ≤ 63 → bit_and n 0xC0 ≡ 0
no_high_bits n h = omega (arith, high_bits n (omega arith))

module _ (lower_wide : Bytes → Bytes) where
  -- What the loop appends for a label.
  abbrev pub push_label : Bytes → Bytes → Bytes
  push_label domain label =
      (if is_empty domain then domain else domain ++ b'.' ∷ []) ++ to_lowercase lower_wide label

  read_label-right :
      (pre label rest : Bytes) (c : Cursor) (start : ℕ)
      → start ≡ length pre
      → IsLabel label
      → read_label lower_wide (pre ++ (label ++ rest)) (length label) start c
        ≡ ok
            (again (record c { offset = start + length label; domain = push_label c.domain label }))
  unfolding read_label
  read_label-right pre label rest c start e h =
      let s = slice-right pre label rest start (start + length label) e (omega arith) in
      let inside : start + length label ≤ length (pre ++ (label ++ rest)) =
        omega (arith, length-append pre (label ++ rest), length-append label rest) in
      ground (arith, s, h.utf8)

  round-label :
      (pre label rest : Bytes) (c : Cursor)
      → c.offset ≡ length pre
      → IsLabel label
      → round lower_wide (pre ++ ((length label % 256) ∷ (label ++ rest))) c
        ≡ ok (
            again (record c {
              offset = c.offset + 1 + length label;
              domain = push_label c.domain label;
            }))
  unfolding round
  round-label pre label rest c e h =
      let payload = pre ++ ((length label % 256) ∷ (label ++ rest)) in
      let byte =
        at-right pre ((length label % 256) ∷ (label ++ rest)) 0 c.offset (omega arith)
          (omega arith) in
      let regroup : (pre ++ ((length label % 256) ∷ [])) ++ (label ++ rest) ≡ payload =
        append_assoc pre ((length label % 256) ∷ []) (label ++ rest) in
      let label_read = rw regroup at (
        read_label-right (pre ++ ((length label % 256) ∷ [])) label rest c (c.offset + 1)
          (omega (arith, length-append pre ((length label % 256) ∷ []))) h) in
      ground (
        arith,
        byte,
        label_read,
        short_mod (length label),
        no_high_bits (length label),
        length-append pre ((length label % 256) ∷ (label ++ rest)),
      )

  round-root :
      (pre rest : Bytes) (c : Cursor)
      → c.offset ≡ length pre
      → round lower_wide (pre ++ (0 ∷ rest)) c ≡ ok (finished (record c { offset = c.offset + 1 }))
  unfolding round
  round-root pre rest c e =
      ground (arith, at-right pre (0 ∷ rest) 0 c.offset, length-append pre (0 ∷ rest))

  -- The name that the loop has read after all labels.
  abbrev pub read_labels : Bytes → List Bytes → Bytes
  read_labels domain [] = domain
  read_labels domain (label ∷ labels) = read_labels (push_label domain label) labels

  pub run-encode_labels :
      (labels : List Bytes) (pre rest : Bytes) (fuel : ℕ) (c : Cursor)
      → c.offset ≡ length pre
      → All IsLabel labels
      → length labels < fuel
      → run lower_wide fuel (pre ++ (encode_labels labels ++ rest)) c
        ≡ ok (record c {
          offset = c.offset + length (encode_labels labels);
          domain = read_labels c.domain labels;
        })
  unfolding run
  run-encode_labels labels pre rest zero c e h f = absurd (omega arith)
  run-encode_labels [] pre rest (suc fuel) c e h f = rw (round-root pre rest c e) refl
  run-encode_labels (label ∷ labels) pre rest (suc fuel) c e h f =
      let tail = encode_labels labels ++ rest in
      let byte = length label % 256 in
      let c' : Cursor = record c {
        offset = c.offset + 1 + length label;
        domain = push_label c.domain label;
      } in
      let split : (pre ++ (byte ∷ label)) ++ tail ≡ pre ++ (byte ∷ (label ++ tail)) =
        append_assoc pre (byte ∷ label) tail in
      let whole : pre ++ (byte ∷ ((label ++ encode_labels labels) ++ rest))
          ≡ pre ++ (byte ∷ (label ++ tail)) =
        ap (λ (t : Bytes). pre ++ (byte ∷ t)) (append_assoc label (encode_labels labels) rest) in
      let step = round-label pre label tail c e h.0 in
      let rest_run = rw split at (
        run-encode_labels labels (pre ++ (byte ∷ label)) rest fuel c'
          (omega (arith, length-append pre (byte ∷ label))) h.1 (omega arith)) in
      rw whole (
        rw step (
          rest_run
          ∙ ap (λ (o : ℕ). ok (record c' { offset = o; domain = read_labels c'.domain labels }))
              (omega (arith, length-append label (encode_labels labels)))))
