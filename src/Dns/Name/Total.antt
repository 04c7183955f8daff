-- ===== src/Dns/Name/Total.antt =====
-- `parse_domain` and `skip_name` on arbitrary packets: they stop, read in bounds, and move right.
use dns_relay.Prelude.{
  ℕ, zero, suc, ◌+◌, ◌-◌, ◌*◌, ◌≤◌, ◌<◌, ◌≡◌, Option, none, some, ap, arith, length, get_or,
  bit_and, Outcome, Ensures, Ensures-bind,
}
use dns_relay.Prelude.Slices.{Bytes, at, slice}
use dns_relay.Dns.Name.{
  Cursor, Round, again, finished, or_else, carry_on, follow_pointer, read_label, round, run, rounds,
  parse_domain, skip_loop, skip_name,
}

-- Where the name that began at `start` ends, as far as the loop knows.
abbrev EndWithin : ℕ → ℕ → Option ℕ → ℕ → Type 0
EndWithin start size none offset = (start ≤ offset) × Unit {0}
EndWithin start size (some e) offset = (start < e) × (e ≤ size)

-- The rounds that are left at most.
abbrev left : Bytes → Cursor → ℕ
left payload c = (128 - c.pointer_hops) * (length payload + 1) + (length payload + 1 - c.offset)

abbrev After : ℕ → Bytes → Cursor → Round → Type 0
After start payload c (again c') =
    EndWithin start (length payload) c'.end_offset c'.offset
    × (c'.pointer_hops ≤ 128)
    × (left payload c' < left payload c)
After start payload c (finished c') =
    (start < or_else c'.end_offset c'.offset) × (or_else c'.end_offset c'.offset ≤ length payload)

fewer_hops :
    (o o' l h : ℕ)
    → o < l
    → h + 1 ≤ 128
    → (128 - (h + 1)) * (l + 1) + (l + 1 - o') < (128 - h) * (l + 1) + (l + 1 - o)
fewer_hops o o' l h p q =
    let e : 128 - h ≡ (128 - (h + 1)) + 1 = omega arith in
    omega (arith, ap (λ (t : ℕ). t * (l + 1)) e)

fewer_bytes :
    (o o' l k : ℕ) → o < l → o < o' → k * (l + 1) + (l + 1 - o') < k * (l + 1) + (l + 1 - o)
fewer_bytes o o' l k p q = omega arith

module _ (start : ℕ) (payload : Bytes) (c : Cursor) where
  follow_pointer-After :
      (len : ℕ)
      → EndWithin start (length payload) c.end_offset c.offset
      → c.offset < length payload
      → Ensures (After start payload c) (follow_pointer payload len c)
  unfolding follow_pointer at
  follow_pointer-After len h p = ground (
    arith,
    fewer_hops c.offset (bit_and len 0x3F * 256 + get_or payload (c.offset + 1) 0) (length payload)
        c.pointer_hops,
  )

module _ (lower_wide : Bytes → Bytes) (start : ℕ) (payload : Bytes) (c : Cursor) where
  read_label-After :
      (len : ℕ)
      → EndWithin start (length payload) c.end_offset c.offset
      → c.pointer_hops ≤ 128
      → c.offset < length payload
      → Ensures (After start payload c) (read_label lower_wide payload len (c.offset + 1) c)
  unfolding read_label slice
  read_label-After len h q p =
      ground
        (arith, fewer_bytes c.offset (c.offset + 1 + len) (length payload) (128 - c.pointer_hops))

  round-After :
      EndWithin start (length payload) c.end_offset c.offset
      → c.pointer_hops ≤ 128
      → Ensures (After start payload c) (round lower_wide payload c)
  unfolding round at
  round-After h q = ground (
    arith,
    follow_pointer-After start payload c (get_or payload c.offset 0),
    read_label-After (get_or payload c.offset 0),
  )

module _ (lower_wide : Bytes → Bytes) (start : ℕ) (payload : Bytes) where
  abbrev Ends : Cursor → Type 0
  Ends c =
      (start < or_else c.end_offset c.offset) × (or_else c.end_offset c.offset ≤ length payload)

  carry_on-Ends :
      (fuel : ℕ) (c : Cursor) (next : Cursor → Outcome Cursor) (r : Round)
      → ((c' : Cursor)
          → left payload c' < fuel
          → EndWithin start (length payload) c'.end_offset c'.offset
          → c'.pointer_hops ≤ 128
          → Ensures Ends (next c'))
      → left payload c < suc fuel
      → After start payload c r
      → Ensures Ends (carry_on next r)
  carry_on-Ends fuel c next (again c') ih m a = ih c' (omega arith) a.0 a.1
  carry_on-Ends fuel c next (finished c') ih m a = a

  run-Ends :
      (fuel : ℕ) (c : Cursor)
      → left payload c < fuel
      → EndWithin start (length payload) c.end_offset c.offset
      → c.pointer_hops ≤ 128
      → Ensures Ends (run lower_wide fuel payload c)
  unfolding run
  run-Ends zero c m h q = absurd (omega arith)
  run-Ends (suc fuel) c m h q =
      Ensures-bind (After start payload c) Ends (round lower_wide payload c) _
        (round-After lower_wide start payload c h q)
        λ r e a. carry_on-Ends fuel c _ r (run-Ends fuel) m a

-- The end of a name, and the name.
abbrev pub NameWithin : Bytes → ℕ → Bytes × ℕ → Type 0
NameWithin payload offset (name, end) = (offset < end) × (end ≤ length payload)

-- On every packet and from every offset `parse_domain` returns: it does not run out of rounds and
-- does not read out of bounds. A name that it returns ends right of its offset and in the packet.
pub parse_domain-NameWithin :
    (lower_wide : Bytes → Bytes) (payload : Bytes) (offset : ℕ)
    → Ensures (NameWithin payload offset) (parse_domain lower_wide payload offset)
unfolding parse_domain
parse_domain-NameWithin lower_wide payload offset =
    Ensures-bind (Ends lower_wide offset payload) (NameWithin payload offset)
      (run lower_wide (rounds payload) payload _) _
      (run-Ends lower_wide offset payload (rounds payload) _ (omega arith) (omega arith)
        (omega arith))
      λ c e h. h

pub skip_loop-Ends :
    (fuel : ℕ) (buf : Bytes) (pos start : ℕ)
    → length buf - pos < fuel
    → start ≤ pos
    → Ensures (λ e. (start < e) × (e ≤ length buf + 1)) (skip_loop fuel buf pos)
unfolding skip_loop at
skip_loop-Ends zero buf pos start h q = absurd (omega arith)
skip_loop-Ends (suc fuel) buf pos start h q =
    ground (arith, skip_loop-Ends fuel buf (pos + (1 + get_or buf pos 0)) start)

-- On every buffer and from every offset `skip_name` returns, and what it returns lies right of the
-- offset and at most one past the end of the buffer.
pub skip_name-Within :
    (buf : Bytes) (offset : ℕ)
    → Ensures (λ e. (offset < e) × (e ≤ length buf + 1)) (skip_name buf offset)
unfolding skip_name
skip_name-Within buf offset =
    skip_loop-Ends (length buf + 1) buf offset offset (omega arith) (omega arith)
