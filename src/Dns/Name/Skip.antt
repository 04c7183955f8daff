-- ===== src/Dns/Name/Skip.antt =====
-- `skip_name` against `parse_domain`: where the careful decoder finds a name, the skipping one
-- finds the same end.
use dns_relay.Prelude.{
  ℕ, zero, suc, ◌+◌, ◌-◌, ◌<◌, ◌≡◌, refl, Option, none, some, arith, length, Option-cases, inl, inr,
  Outcome, ok, >>=-eq-ok,
}
use dns_relay.Prelude.Slices.{Bytes, at, slice}
use dns_relay.Dns.Name.{
  Cursor, Round, again, finished, or_else, carry_on, follow_pointer, read_label, round, run, rounds,
  parse_domain, skip_loop, skip_name,
}

module _ (lower_wide : Bytes → Bytes) (payload : Bytes) where
  -- After the first pointer the end of the name is settled.
  abbrev KeepsEnd : ℕ → Round → Type 0
  KeepsEnd e (again c) = c.end_offset ≡ some e
  KeepsEnd e (finished c) = c.end_offset ≡ some e

  round-KeepsEnd :
      (e : ℕ) (c : Cursor) (r : Round)
      → c.end_offset ≡ some e
      → round lower_wide payload c ≡ ok r
      → KeepsEnd e r
  unfolding round follow_pointer read_label at slice
  round-KeepsEnd e c (again c') h p = ground arith
  round-KeepsEnd e c (finished c') h p = ground arith

  carry_on-KeepsEnd :
      (e : ℕ) (c' : Cursor) (next : Cursor → Outcome Cursor) (r : Round)
      → ((c : Cursor) → c.end_offset ≡ some e → next c ≡ ok c' → c'.end_offset ≡ some e)
      → KeepsEnd e r
      → carry_on next r ≡ ok c'
      → c'.end_offset ≡ some e
  carry_on-KeepsEnd e c' next (again c) ih k t = ih c k t
  carry_on-KeepsEnd e c' next (finished c) ih k t = ground arith

  run-KeepsEnd :
      (fuel e : ℕ) (c' c : Cursor)
      → c.end_offset ≡ some e
      → run lower_wide fuel payload c ≡ ok c'
      → c'.end_offset ≡ some e
  unfolding run
  run-KeepsEnd zero e c' c h p = cc
  run-KeepsEnd (suc fuel) e c' c h p =
      let (r, q, t) = >>=-eq-ok (round lower_wide payload c) _ p in
      carry_on-KeepsEnd e c' (run lower_wide fuel payload) r (run-KeepsEnd fuel e c')
        (round-KeepsEnd e c r h q) t

  -- What one round means for a loop that skips: it stands at the end, or it skips one label.
  abbrev Moves : ℕ → ℕ → Option ℕ → ℕ → Type 0
  Moves f pos none offset =
      (skip_loop (suc f) payload pos ≡ skip_loop f payload offset)
      × (pos < offset)
      × (pos < length payload)
  Moves f pos (some e) offset = (skip_loop (suc f) payload pos ≡ ok e) × Unit {0} × Unit {0}

  abbrev Skips : ℕ → ℕ → Round → Type 0
  Skips f pos (again c) = Moves f pos c.end_offset c.offset
  Skips f pos (finished c) = skip_loop (suc f) payload pos ≡ ok (or_else c.end_offset c.offset)

  round-Skips :
      (f : ℕ) (c : Cursor) (r : Round)
      → c.end_offset ≡ none
      → round lower_wide payload c ≡ ok r
      → Skips f c.offset r
  unfolding round follow_pointer read_label at slice skip_loop
  round-Skips f c (again c') h p = ground arith
  round-Skips f c (finished c') h p = ground arith

  carry_on-skip :
      (f pos : ℕ) (c' : Cursor) (fuel : ℕ) (r : Round)
      → ((c : Cursor)
          → c.end_offset ≡ none
          → length payload - c.offset < f
          → run lower_wide fuel payload c ≡ ok c'
          → skip_loop f payload c.offset ≡ ok (or_else c'.end_offset c'.offset))
      → length payload - pos < suc f
      → Skips f pos r
      → carry_on (run lower_wide fuel payload) r ≡ ok c'
      → skip_loop (suc f) payload pos ≡ ok (or_else c'.end_offset c'.offset)
  carry_on-skip f pos c' fuel (finished c) ih m s t = ground arith
  carry_on-skip f pos c' fuel (again c) ih m s t = elim (Option-cases c.end_offset) [
    | inl settled ↦ ground (arith, ih c)
    | inr (e, settled) ↦ ground (arith, run-KeepsEnd fuel e c' c)
  ]

  run-skip :
      (fuel : ℕ) (c' : Cursor) (f : ℕ) (c : Cursor)
      → c.end_offset ≡ none
      → length payload - c.offset < f
      → run lower_wide fuel payload c ≡ ok c'
      → skip_loop f payload c.offset ≡ ok (or_else c'.end_offset c'.offset)
  unfolding run
  run-skip zero c' f c h m p = cc
  run-skip (suc fuel) c' zero c h m p = absurd (omega arith)
  run-skip (suc fuel) c' (suc f) c h m p =
      let (r, q, t) = >>=-eq-ok (round lower_wide payload c) _ p in
      carry_on-skip f c.offset c' fuel r (run-skip fuel c' f) m (round-Skips f c r h q) t

-- Whenever `parse_domain` accepts a name, compressed or not, `skip_name` goes to the same end.
pub skip_name-parse_domain :
    (lower_wide : Bytes → Bytes) (payload name : Bytes) (offset end : ℕ)
    → parse_domain lower_wide payload offset ≡ ok (name, end)
    → skip_name payload offset ≡ ok end
unfolding parse_domain skip_name
skip_name-parse_domain lower_wide payload name offset end p =
    let (c', q, t) = >>=-eq-ok (run lower_wide (rounds payload) payload _) _ p in
    ground (
      arith,
      run-skip lower_wide payload (rounds payload) c' (length payload + 1) _ refl (omega arith) q,
    )
