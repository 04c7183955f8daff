-- ===== src/Dns/Edns/Options.antt =====
-- The options of an OPT record: parsing after encoding, and parsing of arbitrary bytes.
use dns_relay.Prelude.{
  ℕ, zero, suc, ◌+◌, ◌-◌, ◌/◌, ◌%◌, ◌*◌, ◌≤◌, ◌<◌, ◌≡◌, refl, ap, sym, ◌∙◌, List, [], ◌∷◌, ◌++◌,
  append_assoc, append-nil, arith, Bool-cases, inl, inr, ltb, Returns-bind, Returns-value, length,
  drop, length-append, length-take, length-drop, All, ok, Returns, ◌==◌,
}
use dns_relay.Prelude.Slices.{Bytes, slice, be16, to_be16, u16_at_lem, slice_lem}
use dns_relay.Prelude.Writes.{IsBytes}
use dns_relay.Prelude.Seams.{u16_at-right, slice-right}
use dns_relay.Dns.Edns.{
  EdnsOption, options_from, parse_options, replace_ecs, encode_option, encode_options,
  retain_others, opt_code_ecs, ecs_option, Ipv4Subnet,
}

-- What fits the two 16-bit fields of an option.
pub record FitsOption (o : EdnsOption) : Type 0 where
  pub code : o.option_code < 65536
  pub size : length o.payload < 65536

length-encode_option : (o : EdnsOption) → length (encode_option o) ≡ 4 + length o.payload
length-encode_option o = omega arith

be16_of_bytes : (v : ℕ) → v < 65536 → v / 256 % 256 * 256 + v % 256 ≡ v
be16_of_bytes v h = omega arith

-- The loop, standing at an encoded option.
options_from-right :
    (os : List EdnsOption) (pre : Bytes) (fuel pos : ℕ)
    → All FitsOption os
    → pos ≡ length pre
    → length os < fuel
    → options_from fuel (pre ++ encode_options os) pos ≡ ok os
unfolding options_from
options_from-right os pre zero pos h e f = absurd (omega arith)
options_from-right [] pre (suc fuel) pos h e f = ground (arith, length-append pre [])
options_from-right (o ∷ os) pre (suc fuel) pos h e f =
    let rest = encode_options os in
    let len = length o.payload in
    let whole = pre ++ encode_options (o ∷ os) in
    let size = length-append pre (encode_option o ++ rest) in
    let size' = length-append (encode_option o) rest in
    let fits : FitsOption o = h.0 in
    let code = u16_at-right pre (encode_option o ++ rest) 0 pos (omega arith) (omega arith) in
    let count =
      u16_at-right pre (encode_option o ++ rest) 2 (pos + 2) (omega arith) (omega arith) in
    let c = be16_of_bytes o.option_code fits.code in
    let l : (len % 65536) / 256 % 256 * 256 + (len % 65536) % 256 ≡ len =
      ground (arith, fits.size, be16_of_bytes len) in
    let header : Bytes = to_be16 o.option_code ++ to_be16 (len % 65536) in
    let split : (pre ++ header) ++ (o.payload ++ rest) ≡ whole =
      append_assoc pre header (o.payload ++ rest) in
    let body = rw split at (
      slice-right (pre ++ header) o.payload rest (pos + 4) (pos + 4 + len)
        (omega (arith, length-append pre header)) (omega (arith, length-append pre header))) in
    let more : (pre ++ encode_option o) ++ rest ≡ whole = append_assoc pre (encode_option o) rest in
    let tail = rw more at (
      options_from-right os (pre ++ encode_option o) fuel (pos + (4 + len)) h.1
        (omega (arith, length-append pre (encode_option o))) (omega arith)) in
    ground (arith, code, count, c, l, body, tail, size, size')

length-le-encode_options : (os : List EdnsOption) → length os ≤ length (encode_options os)
length-le-encode_options [] = omega arith
length-le-encode_options (o ∷ os) =
    omega (arith, length-le-encode_options os, length-append (encode_option o) (encode_options os))

-- Options whose codes and lengths fit 16 bits are read back as they were written.
pub parse_options-encode_options :
    (os : List EdnsOption) → All FitsOption os → parse_options (encode_options os) ≡ ok os
unfolding parse_options
parse_options-encode_options os h =
    options_from-right os [] (length (encode_options os) + 1) 0 h refl
      (omega (arith, length-le-encode_options os))

slice-length :
    (buf : Bytes) (from n : ℕ)
    → from + n ≤ length buf
    → Returns (λ s. length s ≡ n) (slice buf from (from + n))
slice-length buf from n h =
    rw (slice_lem buf from (from + n) (omega arith) h)
      (omega (arith, length-take (from + n - from) (drop from buf), length-drop from buf))

be16-lt : (buf : Bytes) (i : ℕ) → IsBytes buf → be16 buf i < 65536
be16-lt buf i h = omega (arith, h.below i, h.below (i + 1))

-- Arbitrary bytes give a list of options, each with the code and the size that its header says.
module _ (F : EdnsOption → Type 0) (options : Bytes)
    (each : (pos : ℕ) (body : Bytes)
      → length body ≡ be16 options (pos + 2)
      → F (record { option_code = be16 options pos; payload = body })) where
  options_from-All :
      (fuel pos : ℕ) → length options - pos < fuel → Returns (All F) (options_from fuel options pos)
  unfolding options_from
  options_from-All zero pos f = absurd (omega arith)
  options_from-All (suc fuel) pos f = elim (Bool-cases (ltb (length options) (pos + 4))) [
    | inl short ↦ rw short tt
    | inr room ↦
        let len = be16 options (pos + 2) in
        rw
          (room, u16_at_lem options pos (ground arith), u16_at_lem options (pos + 2) (ground arith))
          (elim (Bool-cases (ltb (length options) (pos + 4 + len))) [
            | inl cut ↦ rw cut tt
            | inr fits ↦ rw fits (
                Returns-bind (λ s. length s ≡ len) _ (slice options (pos + 4) (pos + 4 + len)) _
                  (slice-length options (pos + 4) len (ground arith))
                  λ body _ size.
                    Returns-bind (All F) _ (options_from fuel options (pos + (4 + len))) _
                      (options_from-All fuel (pos + (4 + len)) (ground arith))
                      λ rest _ all_fit. (each pos body size, all_fit))
          ])
  ]

-- On every buffer `parse_options` returns a list.
pub parse_options-Returns : (raw : Bytes) → Returns (All (λ _. Unit {0})) (parse_options raw)
unfolding parse_options
parse_options-Returns raw =
    options_from-All (λ _. Unit {0}) raw (λ _ _ _. tt) (length raw + 1) 0 (omega arith)

parse_options-FitsOption :
    (raw : Bytes) → IsBytes raw → Returns (All FitsOption) (parse_options raw)
unfolding parse_options
parse_options-FitsOption raw h =
    options_from-All FitsOption raw
      (λ pos body size. record {
        code = be16-lt raw pos h;
        size = omega (arith, be16-lt raw (pos + 2) h);
      })
      (length raw + 1) 0 (omega arith)

All-retain_others : (os : List EdnsOption) → All FitsOption os → All FitsOption (retain_others os)
All-retain_others [] h = tt
All-retain_others (o ∷ os) h = elim (Bool-cases (o.option_code == opt_code_ecs)) [
  | inl ecs ↦ rw ecs (All-retain_others os h.1)
  | inr other ↦ rw other (h.0, All-retain_others os h.1)
]

All-append :
    (os ps : List EdnsOption) → All FitsOption os → All FitsOption ps → All FitsOption (os ++ ps)
All-append [] ps h k = k
All-append (o ∷ os) ps h k = (h.0, All-append os ps h.1 k)

encode_options-append :
    (os : List EdnsOption) (p : EdnsOption)
    → encode_options (os ++ p ∷ []) ≡ encode_options os ++ encode_option p
encode_options-append [] p = append-nil (encode_option p)
encode_options-append (o ∷ os) p =
    ap (λ (t : Bytes). encode_option o ++ t) (encode_options-append os p)
    ∙ sym (append_assoc (encode_option o) (encode_options os) (encode_option p))

-- For the bytes of any OPT record `replace_ecs` returns options, and these parse to the options
-- that were there, in order, without the client subnets, and the new client subnet behind them.
pub parse_options-replace_ecs :
    (raw : Bytes) (subnet : Ipv4Subnet)
    → IsBytes raw
    → (os : List EdnsOption) × (new : Bytes) × (parse_options raw ≡ ok os)
      × (replace_ecs raw subnet ≡ ok new)
      × (parse_options new ≡ ok (retain_others os ++ ecs_option subnet ∷ []))
unfolding replace_ecs
parse_options-replace_ecs raw subnet h =
    let (os, parsed, fit) =
      Returns-value (All FitsOption) (parse_options raw) (parse_options-FitsOption raw h) in
    let kept = retain_others os in
    let all_fit =
      All-append kept (ecs_option subnet ∷ []) (All-retain_others os fit)
        (record { code = omega arith; size = omega arith }, tt) in
    (
      os,
      encode_options kept ++ encode_option (ecs_option subnet),
      parsed,
      rw parsed refl,
      rw (← encode_options-append kept (ecs_option subnet))
          (parse_options-encode_options (kept ++ ecs_option subnet ∷ []) all_fit),
    )
