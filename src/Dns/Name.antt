-- ===== src/Dns/Name.antt =====
-- Domain names on the wire: `parse_domain` and `skip_name` of shared/src/dns.rs.
pub mod Total
pub mod Skip
use dns_relay.Prelude.{
  ◌≡◌, refl, ℕ, zero, suc, ◌+◌, ◌*◌, ◌≤◌, ◌<◌, bit_and, Bool, true, false, not, ◌&&◌, ◌||◌, Option,
  none, some, List, [], ◌∷◌, ◌++◌, ltb, leb, ◌==◌, if◌then◌else◌, length, Outcome, ok, refuse,
  out_of_fuel, guard, ◌>>=◌, ◌>>◌,
}
use dns_relay.Prelude.Slices.{Bytes, at, slice}
use dns_relay.Dns.Text.{is_utf8, to_lowercase, is_empty}

-- The variables of the loop of `parse_domain`.
pub record Cursor : Type 0 where
  pub offset : ℕ
  pub domain : Bytes
  pub end_offset : Option ℕ
  pub pointer_hops : ℕ

-- How a round of the loop ends: `continue` (or the next round), or `break`.
pub data Round : Type 0 where
  again : Cursor → Round
  finished : Cursor → Round

abbrev pub or_else {ℓ} : {A : Type ℓ} → Option A → A → A
or_else none d = d
or_else (some a) d = a

-- The branch of a compression pointer, whose first byte is `len`.
unfoldable pub follow_pointer : Bytes → ℕ → Cursor → Outcome Round
follow_pointer payload len c = do
  guard (not (leb (length payload) (c.offset + 1)))
  low ← at payload (c.offset + 1)
  let pointer_offset = bit_and len 0x3F * 256 + low
  let hops = c.pointer_hops + 1
  guard (not (ltb 128 hops || leb (length payload) pointer_offset))
  ok (
      again (record c {
        offset = pointer_offset;
        end_offset = some (or_else c.end_offset (c.offset + 2));
        pointer_hops = hops;
      }))

abbrev pub carry_on : (Cursor → Outcome Cursor) → Round → Outcome Cursor
carry_on next (again c) = next c
carry_on next (finished c) = ok c

-- Enough rounds: each takes a pointer, of which there are 128 at most, or moves right.
abbrev pub rounds : Bytes → ℕ
rounds payload = 129 * (length payload + 1) + 1

module _ (lower_wide : Bytes → Bytes) where
  -- The branch of a label of `len` bytes, which starts at `start`.
  unfoldable pub read_label : Bytes → ℕ → ℕ → Cursor → Outcome Round
  read_label payload len start c = do
    guard (not (ltb 63 len))
    guard (not (ltb (length payload) (start + len)))
    label ← slice payload start (start + len)
    guard (is_utf8 label)
    ok (
        again (record c {
          offset = start + len;
          domain =
              (if is_empty c.domain then c.domain else c.domain ++ b'.' ∷ [])
              ++ to_lowercase lower_wide label;
        }))

  -- One round of the loop.
  unfoldable pub round : Bytes → Cursor → Outcome Round
  round payload c = do
    guard (not (leb (length payload) c.offset))
    len ← at payload c.offset
    if bit_and len 0xC0 == 0xC0
        then follow_pointer payload len c
        else if not (bit_and len 0xC0 == 0)
        then refuse
        else if len == 0
        then ok (finished (record c { offset = c.offset + 1 }))
        else read_label payload len (c.offset + 1) c

  unfoldable pub run : ℕ → Bytes → Cursor → Outcome Cursor
  run zero payload c = out_of_fuel
  run (suc fuel) payload c = round payload c >>= carry_on (run fuel payload)

  unfoldable pub parse_domain : Bytes → ℕ → Outcome (Bytes × ℕ)
  unfolding run round read_label follow_pointer at slice is_utf8 to_lowercase
  parse_domain payload offset = do
    c ←
        run (rounds payload) payload
          (record { offset = offset; domain = []; end_offset = none; pointer_hops = 0 })
    ok (c.domain, or_else c.end_offset c.offset)

-- `skip_name`: the loop, from `pos`.
unfoldable pub skip_loop : ℕ → Bytes → ℕ → Outcome ℕ
skip_loop zero buf pos = out_of_fuel
skip_loop (suc fuel) buf pos =
    let next = λ (len : ℕ). skip_loop fuel buf (pos + (1 + len)) in
    if leb (length buf) pos then refuse else do
      len ← at buf pos
      if len == 0 then ok (pos + 1) else if bit_and len 0xC0 == 0xC0 then ok (pos + 2) else next len

unfoldable pub skip_name : Bytes → ℕ → Outcome ℕ
unfolding skip_loop at
skip_name buf offset = skip_loop (length buf + 1) buf offset
