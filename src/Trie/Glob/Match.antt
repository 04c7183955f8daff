-- ===== src/Trie/Glob/Match.antt =====
-- The matcher with one star to go back to, against the plain meaning of a pattern.
use dns_relay.Prelude.{
  ℕ, zero, suc, ◌+◌, ◌*◌, ◌≤◌, ◌<◌, ◌≡◌, refl, ap, ◌∙◌, sym, Bool, true, false, ◌&&◌, ◌||◌, not,
  none, some, [], ◌∷◌, ◌==◌, if◌then◌else◌, all, length, ok, arith, Bool-cases, inl, inr,
}
use dns_relay.Prelude.Slices.{Bytes}
use dns_relay.Dns.Text.{is_empty}
use dns_relay.Trie.Glob.{rest_of, Star, Round, go_back, only_stars, wildcard_loop, wildcard_matches}

-- The value itself or one of its ends passes a test.
abbrev pub some_end : (Bytes → Bool) → Bytes → Bool
some_end f [] = f []
some_end f (c ∷ s) = f (c ∷ s) || some_end f s

abbrev pub begins : ℕ → (Bytes → Bool) → Bytes → Bool
begins b f [] = false
begins b f (c ∷ s) = b == c && f s

-- What a pattern means: a star stands for any bytes, any other byte for itself.
unfoldable pub glob : Bytes → Bytes → Bool
glob [] value = is_empty value
glob (b ∷ pattern) value =
    let star = some_end (glob pattern) value in
    let byte = begins b (glob pattern) value in if b == b'*' then star else byte

abbrev pub no_star : Bytes → Bool
no_star = all (λ c. not (c == b'*'))

-- What a state of the loop is about: the pattern from here on, or again from behind the last star.
abbrev meaning : Bytes → Bytes → Star → Bool
meaning value pattern none = glob pattern value
meaning value pattern (some (behind, from)) =
    glob pattern value || some_end (glob behind) (rest_of from)

some_end-split : (f : Bytes → Bool) (s : Bytes) → some_end f s ≡ (f s || some_end f (rest_of s))
some_end-split f [] = ground arith
some_end-split f (c ∷ s) = refl

some_end-rest : (f : Bytes → Bool) (s : Bytes) → some_end f (rest_of s) ≡ true → some_end f s ≡ true
some_end-rest f [] h = h
some_end-rest f (c ∷ s) h = ground (arith, h)

-- An end of an end is an end.
some_end_twice :
    (f : Bytes → Bool) (s : Bytes) → some_end (some_end f) s ≡ true → some_end f s ≡ true
some_end_twice f [] h = h
some_end_twice f (c ∷ s) h = ground (arith, some_end_twice f s)

-- Where an end begins with a byte, a shorter end follows it.
some_end-begins :
    (b : ℕ) (f : Bytes → Bool) (s : Bytes)
    → some_end (begins b f) s ≡ true
    → some_end f (rest_of s) ≡ true
some_end-begins b f [] h = (let refuted = h in cc)
some_end-begins b f (c ∷ s) h = elim (Bool-cases (b == c && f s)) [
  | inl e ↦ rw (some_end-split f s) (ground (arith, e))
  | inr e ↦ some_end-rest f s (some_end-begins b f s (rw e at h))
]

only_stars-glob : (pattern : Bytes) → only_stars pattern ≡ glob pattern []
unfolding glob
only_stars-glob [] = refl
only_stars-glob (b ∷ pattern) = ground (arith, only_stars-glob pattern)

glob-byte :
    (b : ℕ) (pattern value : Bytes)
    → (b == b'*') ≡ false
    → glob (b ∷ pattern) value ≡ begins b (glob pattern) value
unfolding glob
glob-byte b pattern value e = rw e refl

glob-star :
    (b : ℕ) (pattern value : Bytes)
    → (b == b'*') ≡ true
    → glob (b ∷ pattern) value ≡ some_end (glob pattern) value
unfolding glob
glob-star b pattern value e = rw e refl

some_end-eq :
    (f g : Bytes → Bool) (s : Bytes) → ((t : Bytes) → f t ≡ g t) → some_end f s ≡ some_end g s
some_end-eq f g [] same = same []
some_end-eq f g (c ∷ s) same = rw (same (c ∷ s), some_end-eq f g s same) refl

or_implied : (a b : Bool) → (b ≡ true → a ≡ true) → (a || b) ≡ a
or_implied true b h = refl
or_implied false true h = sym (h refl)
or_implied false false h = refl

-- All patterns in play are shorter than `k`.
module _ (k : ℕ) where
  -- What is kept about the last star: the present attempt has not gone past an end that would do, and
  -- `m` bounds the value that is left to retry.
  abbrev Linked : ℕ → Bytes → Bytes → Star → Type 0
  Linked m value pattern none = Unit
  Linked m value pattern (some (behind, from)) =
      (some_end (glob behind) (rest_of from) ≡ true
        → some_end (glob pattern) (rest_of value) ≡ true)
      × (length value ≤ length from)
      × (length from ≤ m)
      × (length behind < k)
      × (no_star from ≡ true)

  record Kept (f m : ℕ) (value pattern : Bytes) (last : Star) : Type 0 where
    plain : no_star value ≡ true
    linked : Linked m value pattern last
    value_bound : length value ≤ m
    pattern_bound : length pattern < k
    fuel : m * k + length pattern < f

  -- The statement about a round.
  abbrev Right : ℕ → Round → Type 0
  Right f next =
      (m : ℕ) (value pattern : Bytes) (last : Star)
      → Kept f m value pattern last
      → next value pattern last ≡ ok (meaning value pattern last)

  -- At a star, and where the last star takes one more byte.
  from_star :
      (f m : ℕ) (value pattern : Bytes)
      → no_star value ≡ true
      → length value ≤ m
      → length pattern < k
      → m * k + length pattern < f
      → Kept f m value pattern (some (pattern, value))
  from_star f m value pattern plain v p enough = record {
    plain = plain;
    linked = (λ h. h, omega arith, v, p, plain);
    value_bound = v;
    pattern_bound = p;
    fuel = enough;
  }

  go_back-Right :
      (f m c : ℕ) (value pattern : Bytes) (last : Star) (next : Round)
      → Right f next
      → Kept (suc f) m (c ∷ value) pattern last
      → glob pattern (c ∷ value) ≡ false
      → go_back last next ≡ ok (meaning (c ∷ value) pattern last)
  go_back-Right f m c value pattern none next ih i fails = ap ok (sym fails)
  go_back-Right f m c value pattern (some (behind, [])) next ih i fails =
      absurd (omega (arith, i.linked))
  go_back-Right f zero c value pattern (some (behind, x ∷ from)) next ih i fails =
      absurd (omega (arith, i.value_bound))
  go_back-Right f (suc m) c value pattern (some (behind, x ∷ from)) next ih i fails =
      let (_, _, room, short, plain) = i.linked in
      ih m from behind (some (behind, from)) (
        from_star f m from behind (ground (arith, plain)) (omega arith) short
          (omega (arith, i.fuel)))
      ∙ ap ok (rw fails (sym (some_end-split (glob behind) from)))

  -- A byte that stands for itself.
  equal_byte-Linked :
      (m b c : ℕ) (value pattern : Bytes) (last : Star)
      → (b == b'*') ≡ false
      → Linked m (c ∷ value) (b ∷ pattern) last
      → Linked m value pattern last
  equal_byte-Linked m b c value pattern none plain i = tt
  equal_byte-Linked m b c value pattern (some (behind, from)) plain (on, shorter, r1, r2, r3) = (
    λ h. some_end-begins b (glob pattern) value (
        sym (
          some_end-eq (glob (b ∷ pattern)) (begins b (glob pattern)) value
            (λ t. glob-byte b pattern t plain))
        ∙ on h),
    omega arith,
    r1,
    r2,
    r3,
  )

  equal_byte-Kept :
      (f m b c : ℕ) (value pattern : Bytes) (last : Star)
      → Kept (suc f) m (c ∷ value) (b ∷ pattern) last
      → (b == b'*') ≡ false
      → Kept f m value pattern last
  equal_byte-Kept f m b c value pattern last i plain = record {
    plain = ground (arith, i.plain);
    linked = equal_byte-Linked m b c value pattern last plain i.linked;
    value_bound = omega (arith, i.value_bound);
    pattern_bound = omega (arith, i.pattern_bound);
    fuel = omega (arith, i.fuel);
  }

  meaning-eq :
      (value pattern value' pattern' : Bytes) (last : Star)
      → glob pattern value ≡ glob pattern' value'
      → meaning value pattern last ≡ meaning value' pattern' last
  meaning-eq value pattern value' pattern' none same = same
  meaning-eq value pattern value' pattern' (some (behind, from)) same =
      ap (λ b. b || some_end (glob behind) (rest_of from)) same

  -- At a star the last one is forgotten: what it could still reach, the new one reaches too.
  star-meaning :
      (m b c : ℕ) (value pattern : Bytes) (last : Star)
      → (b == b'*') ≡ true
      → Linked m (c ∷ value) (b ∷ pattern) last
      → meaning (c ∷ value) pattern (some (pattern, c ∷ value))
        ≡ meaning (c ∷ value) (b ∷ pattern) last
  star-meaning m b c value pattern none star i = sym (glob-star b pattern (c ∷ value) star)
  star-meaning m b c value pattern (some (behind, from)) star (on, _, _, _, _) =
      let here = glob-star b pattern (c ∷ value) star in
      sym here
      ∙ sym (
          or_implied (glob (b ∷ pattern) (c ∷ value)) (some_end (glob behind) (rest_of from)) (λ h.
            here
            ∙ some_end-rest (glob pattern) (c ∷ value) (
                some_end_twice (glob pattern) value (
                  sym (
                    some_end-eq (glob (b ∷ pattern)) (some_end (glob pattern)) value
                      (λ t. glob-star b pattern t star))
                  ∙ on h))))

  ended-meaning :
      (m : ℕ) (pattern : Bytes) (last : Star)
      → Linked m [] pattern last
      → only_stars pattern ≡ meaning [] pattern last
  ended-meaning m pattern none i = only_stars-glob pattern
  ended-meaning m pattern (some (behind, from)) (on, _, _, _, _) =
      only_stars-glob pattern
      ∙ sym (or_implied (glob pattern []) (some_end (glob behind) (rest_of from)) on)

  loop-Right : (f : ℕ) → Right f (wildcard_loop f)
  unfolding wildcard_loop
  loop-Right zero m value pattern last i = absurd (omega (arith, i.fuel))
  loop-Right (suc f) m [] pattern last i = ap ok (ended-meaning m pattern last i.linked)
  loop-Right (suc f) m (c ∷ value) [] last i =
      go_back-Right f m c value [] last (wildcard_loop f) (loop-Right f) i (unfold glob in refl)
  loop-Right (suc f) m (c ∷ value) (b ∷ pattern) last i = elim (Bool-cases (b == c)) [
    | inl e ↦
        let plain : (b == b'*') ≡ false = ground (arith, i.plain, e) in
        rw e (
          loop-Right f m value pattern last (equal_byte-Kept f m b c value pattern last i plain)
          ∙ ap ok (
              meaning-eq value pattern (c ∷ value) (b ∷ pattern) last
                (sym (glob-byte b pattern (c ∷ value) plain ∙ rw e refl))))
    | inr e ↦ elim (Bool-cases (b == b'*')) [
      | inl star ↦
          rw (e, star)
            (loop-Right f m (c ∷ value) pattern (some (pattern, c ∷ value)) (
                from_star f m (c ∷ value) pattern i.plain i.value_bound
                  (omega (arith, i.pattern_bound)) (omega (arith, i.fuel)))
              ∙ ap ok (star-meaning m b c value pattern last star i.linked))
      | inr plain ↦
          rw (e, plain)
            (go_back-Right f m c value (b ∷ pattern) last (wildcard_loop f) (loop-Right f) i
              (glob-byte b pattern (c ∷ value) plain ∙ rw e refl))
    ]
  ]

-- On every value without a star, `wildcard_matches` stops within its rounds and answers whether the
-- pattern means the value.
pub wildcard_matches-glob :
    (value pattern : Bytes)
    → no_star value ≡ true
    → wildcard_matches value pattern ≡ ok (glob pattern value)
unfolding wildcard_matches
wildcard_matches-glob value pattern plain =
    loop-Right (length pattern + 1) _ (length value) value pattern none (record {
      plain = plain;
      linked = tt;
      value_bound = omega arith;
      pattern_bound = omega arith;
      fuel = omega arith;
    })
