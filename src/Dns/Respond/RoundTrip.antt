-- ===== src/Dns/Respond/RoundTrip.antt =====
-- `parse_a_records` after `craft_redirect_response`.
use dns_relay.Prelude.{
  ℕ, suc, ◌+◌, ◌/◌, ◌%◌, ◌≤◌, ◌<◌, ◌≡◌, refl, ap, sym, ◌∙◌, List, [], ◌∷◌, ◌++◌, append_assoc,
  append-nil, arith, false, ltb, length, length-take, length-append, set, length-set, get_or-set_ne,
  get_or-set_self, ◌≢◌, take, drop, get_or, ok, ◌>>=◌,
}
use native.Mathlib.Numerals.{add-one}
use dns_relay.Prelude.Slices.{Bytes, at, be16, at_lem}
use dns_relay.Prelude.Seams.{get_or-right, get_or-cut, slice-two}
use dns_relay.Dns.Ipv4.{Ipv4Addr}
use dns_relay.Dns.Name.{skip_loop, skip_name}
use dns_relay.Dns.Records.{read_a, collect_a, parse_a_records, skip_questions_unchecked}
use dns_relay.Dns.Records.Walk.{read_rr-intro, skip_name-agree, skip_name-lt}
use dns_relay.Dns.Records.Total.{counts_read}
use dns_relay.Dns.Respond.{is_nil, set_flags, redirect_answer, redirect_answers, insert_answers}

abbrev type_a : Bytes
type_a = 0x00 ∷ 0x01 ∷ []

-- A pointer ends a name after two bytes.
pointer_round :
    (f : ℕ) (buf : Bytes) (pos : ℕ)
    → pos < length buf
    → get_or buf pos 0 ≡ 0xC0
    → skip_loop (suc f) buf pos ≡ ok (pos + 2)
unfolding skip_loop at
pointer_round f buf pos h e = ground arith

skip_name-pointer :
    (buf : Bytes) (pos : ℕ)
    → pos < length buf
    → get_or buf pos 0 ≡ 0xC0
    → skip_name buf pos ≡ ok (pos + 2)
unfolding skip_name
skip_name-pointer buf pos h e = rw add-one (pointer_round (length buf) buf pos h e)

-- The class of the question.
module _ (c d : ℕ) where
  abbrev answer : Ipv4Addr → Bytes
  answer ip = redirect_answer type_a (c ∷ d ∷ []) ip

  abbrev answers : List Ipv4Addr → Bytes
  answers ips = redirect_answers type_a (c ∷ d ∷ []) ips

  read_a-answer :
      (pre rest : Bytes) (ip : Ipv4Addr) (pos : ℕ)
      → pos ≡ length pre
      → read_a (pre ++ (answer ip ++ rest)) pos ≡ ok (ip ∷ [], pos + 16)
  unfolding read_a
  read_a-answer pre rest ip pos e =
      let buf = pre ++ (answer ip ++ rest) in
      let byte = λ (i p : ℕ) (h : p ≡ length pre + i). get_or-right pre (answer ip ++ rest) i p h in
      let size : length buf ≡ length pre + 16 + length rest =
        omega (arith, length-append pre (answer ip ++ rest)) in
      let named = skip_name-pointer buf pos (omega arith) (byte 0 pos (omega arith)) in
      let kind : be16 buf (pos + 2) ≡ 1 =
        omega (arith, byte 2 (pos + 2) (omega arith), byte 3 (pos + 2 + 1) (omega arith)) in
      let size_field : be16 buf (pos + 2 + 8) ≡ 4 =
        omega
          (arith, byte 10 (pos + 2 + 8) (omega arith), byte 11 (pos + 2 + 8 + 1) (omega arith)) in
      let parsed = read_rr-intro buf pos (pos + 2) named (omega arith) in
      rw parsed (
        ground (
          arith,
          at_lem buf (pos + 2 + 10) (omega arith),
          at_lem buf (pos + 2 + 10 + 1) (omega arith),
          at_lem buf (pos + 2 + 10 + 2) (omega arith),
          at_lem buf (pos + 2 + 10 + 3) (omega arith),
          byte 12 (pos + 2 + 10) (omega arith),
          byte 13 (pos + 2 + 10 + 1) (omega arith),
          byte 14 (pos + 2 + 10 + 2) (omega arith),
          byte 15 (pos + 2 + 10 + 3) (omega arith),
        ))

  collect_a-answers :
      (ips : List Ipv4Addr) (pre rest : Bytes) (found : List Ipv4Addr) (pos : ℕ)
      → pos ≡ length pre
      → collect_a (length ips) (pre ++ (answers ips ++ rest)) pos found ≡ ok (found ++ ips)
  unfolding collect_a
  collect_a-answers [] pre rest found pos e = ap ok (sym (append-nil found))
  collect_a-answers (ip ∷ ips) pre rest found pos e =
      let more : answer ip ++ (answers ips ++ rest) ≡ answers (ip ∷ ips) ++ rest =
        sym (append_assoc (answer ip) (answers ips) rest) in
      let split : (pre ++ answer ip) ++ (answers ips ++ rest)
          ≡ pre ++ (answer ip ++ (answers ips ++ rest)) =
        append_assoc pre (answer ip) (answers ips ++ rest) in
      let later = rw split at (
        collect_a-answers ips (pre ++ answer ip) rest (found ++ ip ∷ []) (pos + 16)
          (omega (arith, length-append pre (answer ip)))) in
      rw (read_a-answer pre (answers ips ++ rest) ip pos e)
        (later ∙ ap ok (append_assoc found (ip ∷ []) ips))

-- The packet with its new flags and count.
abbrev counted : Bytes → List Ipv4Addr → Bytes
counted payload ips =
    set (set (set_flags payload 0x81 0x80) 6 (length ips % 65536 / 256)) 7
      (length ips % 65536 % 256)

length-counted :
    (payload : Bytes) (ips : List Ipv4Addr) → length (counted payload ips) ≡ length payload
length-counted payload ips =
    length-set (set (set_flags payload 0x81 0x80) 6 (length ips % 65536 / 256)) 7
      (length ips % 65536 % 256)
    ∙ length-set (set_flags payload 0x81 0x80) 6 (length ips % 65536 / 256)
    ∙ length-set (set payload 2 0x81) 3 0x80
    ∙ length-set payload 2 0x81

get_or-counted :
    (payload : Bytes) (ips : List Ipv4Addr) (i : ℕ)
    → i ≢ 2
    → i ≢ 3
    → i ≢ 6
    → i ≢ 7
    → get_or (counted payload ips) i 0 ≡ get_or payload i 0
get_or-counted payload ips i a b c d =
    get_or-set_ne (set (set_flags payload 0x81 0x80) 6 (length ips % 65536 / 256)) 7 i _ 0
      (λ e. d (sym e))
    ∙ get_or-set_ne (set_flags payload 0x81 0x80) 6 i _ 0 (λ e. c (sym e))
    ∙ get_or-set_ne (set payload 2 0x81) 3 i _ 0 (λ e. b (sym e))
    ∙ get_or-set_ne payload 2 i _ 0 (λ e. a (sym e))

ancount-counted :
    (payload : Bytes) (ips : List Ipv4Addr)
    → 12 ≤ length payload
    → length ips < 65536
    → be16 (counted payload ips) 6 ≡ length ips
ancount-counted payload ips h k =
    let p = set_flags payload 0x81 0x80 in
    let hi = length ips % 65536 / 256 in
    let lo = length ips % 65536 % 256 in
    omega (
      arith,
      get_or-set_ne (set p 6 hi) 7 6 lo 0 (omega arith),
      get_or-set_self p 6 hi 0
          (omega (arith, length-set (set payload 2 0x81) 3 0x80, length-set payload 2 0x81)),
      get_or-set_self (set p 6 hi) 7 lo 0 (
          omega (
            arith,
            length-set p 6 hi,
            length-set (set payload 2 0x81) 3 0x80,
            length-set payload 2 0x81,
          )),
    )

one_question :
    (buf : Bytes) (pos e : ℕ)
    → skip_name buf pos ≡ ok e
    → skip_questions_unchecked 1 buf pos ≡ ok (e + 4)
unfolding skip_questions_unchecked
one_question buf pos e h = rw h refl

get_or-set_flags :
    (payload : Bytes) (i : ℕ)
    → 12 < i
    → get_or (set_flags payload 0x81 0x80) i 0 ≡ get_or payload i 0
get_or-set_flags payload i h =
    get_or-set_ne (set payload 2 0x81) 3 i 0x80 0 (omega arith)
    ∙ get_or-set_ne payload 2 i 0x81 0 (omega arith)

module _ (payload : Bytes) (qname_end : ℕ) (ips : List Ipv4Addr) where
  -- The bytes of the class of the question.
  abbrev class_hi : ℕ
  class_hi = get_or payload (qname_end + 2) 0

  abbrev class_lo : ℕ
  class_lo = get_or payload (qname_end + 2 + 1) 0

  abbrev cut : Bytes
  cut = take (qname_end + 4) (counted payload ips)

  abbrev spliced : Bytes
  spliced = cut ++ (answers class_hi class_lo ips ++ drop (qname_end + 4) (counted payload ips))

  insert_answers_lem :
      12 < qname_end
      → qname_end + 4 ≤ length payload
      → get_or payload qname_end 0 ≡ 0
      → get_or payload (qname_end + 1) 0 ≡ 1
      → is_nil ips ≡ false
      → insert_answers payload qname_end ips ≡ ok spliced
  unfolding insert_answers
  insert_answers_lem w r t t' i =
      let resp = set_flags payload 0x81 0x80 in
      let size : length resp ≡ length payload =
        length-set (set payload 2 0x81) 3 0x80 ∙ length-set payload 2 0x81 in
      let kind = slice-two resp qname_end (qname_end + 2) refl (omega arith) in
      let class = slice-two resp (qname_end + 2) (qname_end + 4) (omega arith) (omega arith) in
      let k0 : get_or resp qname_end 0 ≡ 0 = get_or-set_flags payload qname_end w ∙ t in
      let k1 : get_or resp (qname_end + 1) 0 ≡ 1 =
        get_or-set_flags payload (qname_end + 1) (omega arith) ∙ t' in
      let c0 = get_or-set_flags payload (qname_end + 2) (omega arith) in
      let c1 = get_or-set_flags payload (qname_end + 2 + 1) (omega arith) in
      let long : ltb (length payload) 12 ≡ false = ground arith in
      let room : ltb (length resp) (qname_end + 4) ≡ false = ground arith in
      rw (long, room, kind, class, i) (rw (k0, k1, c0, c1) refl)

  parse_a_records-spliced :
      be16 payload 4 ≡ 1
      → skip_name payload 12 ≡ ok qname_end
      → 12 < qname_end
      → qname_end + 4 ≤ length payload
      → length ips < 65536
      → parse_a_records spliced ≡ ok ips
  unfolding parse_a_records
  parse_a_records-spliced q n w r j =
      let size = length-counted payload ips in
      let size' : length cut ≡ qname_end + 4 =
        omega (arith, length-take (qname_end + 4) (counted payload ips)) in
      let whole : qname_end + 4 ≤ length spliced = omega (
        arith,
        length-append cut
            (answers class_hi class_lo ips ++ drop (qname_end + 4) (counted payload ips)),
      ) in
      let byte = λ (k : ℕ) (h : k < qname_end + 4).
        get_or-cut (counted payload ips)
          (answers class_hi class_lo ips ++ drop (qname_end + 4) (counted payload ips))
          (qname_end + 4) k h (omega arith) in
      let same = λ (k : ℕ) (a : 12 ≤ k) (b : k < qname_end).
        byte k (omega arith)
        ∙ get_or-counted payload ips k (omega arith) (omega arith) (omega arith) (omega arith) in
      let questions : be16 spliced 4 ≡ 1 = omega (
        arith,
        byte 4 (omega arith),
        byte 5 (omega arith),
        get_or-counted payload ips 4 (omega arith) (omega arith) (omega arith) (omega arith),
        get_or-counted payload ips 5 (omega arith) (omega arith) (omega arith) (omega arith),
      ) in
      let count : be16 spliced 6 ≡ length ips = omega (
        arith,
        byte 6 (omega arith),
        byte 7 (omega arith),
        ancount-counted payload ips (omega arith) j,
      ) in
      let named = skip_name-agree payload spliced 12 qname_end same (omega arith) n in
      let (u4, u6, _) = counts_read spliced (omega arith) in
      let long : ltb (length spliced) 12 ≡ false = ground arith in
      rw (long, u4, u6, questions, count, one_question spliced 12 qname_end named)
        (collect_a-answers class_hi class_lo ips cut (drop (qname_end + 4) (counted payload ips)) []
          (qname_end + 4) (sym size'))

-- A redirect of an A query answers with exactly its addresses: for a query with one question, of
-- type A, whose name ends at `qname_end`, and at least one and fewer than 2 ^ 16 addresses,
-- `parse_a_records` reads the addresses, in order, from the answer that is made.
pub parse_a_records-insert_answers :
    (payload : Bytes) (qname_end : ℕ) (ips : List Ipv4Addr)
    → be16 payload 4 ≡ 1
    → skip_name payload 12 ≡ ok qname_end
    → qname_end + 4 ≤ length payload
    → get_or payload qname_end 0 ≡ 0
    → get_or payload (qname_end + 1) 0 ≡ 1
    → 0 < length ips
    → length ips < 65536
    → (insert_answers payload qname_end ips >>= parse_a_records) ≡ ok ips
parse_a_records-insert_answers payload qname_end [] q n r t t' i j = absurd (omega arith)
parse_a_records-insert_answers payload qname_end (ip ∷ ips) q n r t t' i j =
    let w = skip_name-lt payload 12 qname_end n in
    rw (insert_answers_lem payload qname_end (ip ∷ ips) w r t t' refl)
      (parse_a_records-spliced payload qname_end (ip ∷ ips) q n w r j)
