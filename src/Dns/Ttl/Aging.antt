-- ===== src/Dns/Ttl/Aging.antt =====
-- What `age_response_ttls` does to the records of a packet.
use dns_relay.Prelude.{
  ℕ, zero, suc, ◌+◌, ◌≤◌, ◌≡◌, refl, ap, sym, ◌∙◌, Bool, true, false, arith, length, ltb, ok,
  Outcome, if◌then◌else◌, Bool-cases, inl, inr, ◌⊎◌, Ensures-cases, refuse,
}
use dns_relay.Prelude.Slices.{Bytes, be16, be32, to_be32, u16_at_lem, u32_at_lem}
use dns_relay.Prelude.Writes.{length-write, get_or-write_left, get_or-write_right}
use dns_relay.Dns.Name.{skip_name}
use dns_relay.Dns.Name.Total.{skip_name-Within}
use dns_relay.Dns.Records.Walk.{SameOn, SameOn-within, skip_name-lt}
use dns_relay.Dns.Ttl.{set_u32, remaining, age_record, age_records}

-- The packet after the write to one record, and where that record ends.
abbrev pub aged_packet : Bytes → ℕ → ℕ → Bool → Bytes
aged_packet packet e elapsed stale =
    set_u32 packet (e + 4) (remaining stale elapsed (be32 packet (e + 4)))

abbrev pub record_end : Bytes → ℕ → ℕ
record_end packet e = e + 10 + be16 packet (e + 8)

age_record_lem :
    (packet : Bytes) (e elapsed : ℕ) (stale : Bool)
    → e + 10 ≤ length packet
    → age_record packet e elapsed stale
      ≡ ok (aged_packet packet e elapsed stale, record_end packet e)
unfolding age_record
age_record_lem packet e elapsed stale h =
    let v = remaining stale elapsed (be32 packet (e + 4)) in
    let aged = set_u32 packet (e + 4) v in
    let size = length-write packet (e + 4) (to_be32 v) in
    rw (u32_at_lem packet (e + 4) (omega arith), u16_at_lem aged (e + 8) (omega arith))
      (ap (λ (l : ℕ). ok (aged, e + 10 + l))
        (omega (
          arith,
          get_or-write_right packet (e + 4) (to_be32 v) (e + 8),
          get_or-write_right packet (e + 4) (to_be32 v) (e + 8 + 1),
        )))

-- One more record, once its name ends at `e`: the three ways on.
abbrev age_on : ℕ → Bytes → ℕ → ℕ → Bool → Outcome (Bytes × Bool)
age_on n packet e elapsed stale =
    if ltb (length packet) (e + 10)
    then ok (packet, false)
    else if ltb (length packet) (record_end packet e)
    then ok (aged_packet packet e elapsed stale, false)
    else age_records n (aged_packet packet e elapsed stale) (record_end packet e) elapsed stale

pub age_records-suc :
    (n : ℕ) (packet : Bytes) (offset e elapsed : ℕ) (stale : Bool)
    → skip_name packet offset ≡ ok e
    → age_records (suc n) packet offset elapsed stale ≡ age_on n packet e elapsed stale
unfolding age_records
age_records-suc n packet offset e elapsed stale h =
    rw (h, age_records)
      (elim (Bool-cases (ltb (length packet) (e + 10))) [
        | inl short ↦ rw short refl
        | inr room ↦
            rw (room, age_record_lem packet e elapsed stale (ground arith))
              (rw
                (length-write packet (e + 4)
                  (to_be32 (remaining stale elapsed (be32 packet (e + 4)))))
                refl)
      ])

-- Which of the three ways a round of `age_records` took.
which_exit :
    {x y r : Bytes} {b : Bool} {m : Outcome (Bytes × Bool)} (short cut : Bool)
    → (if short then ok (x, false) else if cut then ok (y, false) else m) ≡ ok (r, b)
    → (((x ≡ r) ⊎ (y ≡ r)) × (b ≡ false)) ⊎ ((cut ≡ false) × (m ≡ ok (r, b)))
which_exit true cut h = inl (inl (cc), cc)
which_exit false true h = inl (inr (cc), cc)
which_exit false false h = inr (refl, h)

-- What `age_records` leaves alone: the length, and all bytes left of its offset.
module _ (elapsed : ℕ) (stale : Bool) where
  pub aged-SameOn :
      (packet : Bytes) (e : ℕ) → SameOn 0 (e + 4) packet (aged_packet packet e elapsed stale)
  aged-SameOn packet e = record {
    lengths = length-write packet (e + 4) (to_be32 (remaining stale elapsed (be32 packet (e + 4))));
    bytes = λ i a b.
        get_or-write_left packet (e + 4) (to_be32 (remaining stale elapsed (be32 packet (e + 4)))) i
          b;
  }

  pub aged-SameOn_right :
      (packet : Bytes) (e hi : ℕ) → SameOn (e + 8) hi packet (aged_packet packet e elapsed stale)
  aged-SameOn_right packet e hi = record {
    lengths = length-write packet (e + 4) (to_be32 (remaining stale elapsed (be32 packet (e + 4))));
    bytes = λ i a b.
        get_or-write_right packet (e + 4) (to_be32 (remaining stale elapsed (be32 packet (e + 4))))
          i (omega arith);
  }

  SameOn-trans :
      {lo hi : ℕ} {p q r : Bytes} → SameOn lo hi p q → SameOn lo hi q r → SameOn lo hi p r
  SameOn-trans s t = record {
    lengths = t.lengths ∙ s.lengths;
    bytes = λ i a b. t.bytes i a b ∙ s.bytes i a b;
  }

  SameOn-refl : (hi : ℕ) (p q : Bytes) → p ≡ q → SameOn 0 hi p q
  SameOn-refl hi p q e = rw (← e) (record { lengths = refl; bytes = λ i a b. refl })

  -- A walk that goes on has aged one record; one that stops has changed nothing on its left.
  abbrev pub Goes : ℕ → Bytes → ℕ → Bytes → Bool → ℕ → Type 0
  Goes n packet offset r b e =
      (skip_name packet offset ≡ ok e)
      × (record_end packet e ≤ length packet)
      × (age_records n (aged_packet packet e elapsed stale) (record_end packet e) elapsed stale
          ≡ ok (r, b))

  age_on-inv :
      (n : ℕ) (packet : Bytes) (offset : ℕ) (r : Bytes) (b : Bool) (e : ℕ)
      → skip_name packet offset ≡ ok e
      → age_on n packet e elapsed stale ≡ ok (r, b)
      → (SameOn 0 offset packet r × (b ≡ false)) ⊎ Goes n packet offset r b e
  age_on-inv n packet offset r b e named h =
      let right = skip_name-lt packet offset e named in
      on (which_exit (ltb (length packet) (e + 10)) (ltb (length packet) (record_end packet e)) h)
    where
      on :
          (((packet ≡ r) ⊎ (aged_packet packet e elapsed stale ≡ r)) × (b ≡ false))
            ⊎ ((ltb (length packet) (record_end packet e) ≡ false)
                × (age_records n
                      (aged_packet packet e elapsed stale)
                      (record_end packet e)
                      elapsed
                      stale
                    ≡ ok (r, b)))
          → (SameOn 0 offset packet r × (b ≡ false)) ⊎ Goes n packet offset r b e
      on (inl (inl same, off)) = inl (SameOn-refl offset packet r same, off)
      on (inl (inr same, off)) =
          let right = skip_name-lt packet offset e named in
          let left : SameOn 0 offset packet (aged_packet packet e elapsed stale) =
            SameOn-within (omega arith) (omega arith) (aged-SameOn packet e) in
          inl (rw same at left, off)
      on (inr (fits, t)) = inr (named, ground arith, t)

  pub stopped :
      (n : ℕ) (packet : Bytes) (offset : ℕ)
      → skip_name packet offset ≡ refuse
      → age_records (suc n) packet offset elapsed stale ≡ ok (packet, false)
  unfolding age_records
  stopped n packet offset e = rw (e, age_records) refl

  pub age_records-inv :
      (n : ℕ) (packet : Bytes) (offset : ℕ) (r : Bytes) (b : Bool)
      → age_records (suc n) packet offset elapsed stale ≡ ok (r, b)
      → (SameOn 0 offset packet r × (b ≡ false)) ⊎ ((e : ℕ) × Goes n packet offset r b e)
  age_records-inv n packet offset r b h =
      on (Ensures-cases _ (skip_name packet offset) (skip_name-Within packet offset))
    where
      found :
          (e : ℕ)
          → (SameOn 0 offset packet r × (b ≡ false)) ⊎ Goes n packet offset r b e
          → (SameOn 0 offset packet r × (b ≡ false)) ⊎ ((d : ℕ) × Goes n packet offset r b d)
      found e (inl s) = inl s
      found e (inr g) = inr (e, g)

      same :
          ◌≡◌ {A = Outcome (Bytes × Bool)} (ok (packet, false)) (ok (r, b))
          → SameOn 0 offset packet r × (b ≡ false)
      same q = (SameOn-refl offset packet r (cc), cc)

      on :
          ((e : ℕ) × (skip_name packet offset ≡ ok e)) ⊎ (skip_name packet offset ≡ refuse)
          → (SameOn 0 offset packet r × (b ≡ false)) ⊎ ((e : ℕ) × Goes n packet offset r b e)
      on (inl (e, named)) = found e (
          age_on-inv n packet offset r b e named
            (sym (age_records-suc n packet offset e elapsed stale named) ∙ h))
      on (inr none_there) = inl (same (sym (stopped n packet offset none_there) ∙ h))

  pub age_records-SameOn :
      (n : ℕ) (packet : Bytes) (offset : ℕ) (r : Bytes) (b : Bool)
      → age_records n packet offset elapsed stale ≡ ok (r, b)
      → SameOn 0 offset packet r
  age_records-SameOn zero packet offset r b h =
      SameOn-refl offset packet r (unfold age_records in cc)
  age_records-SameOn (suc n) packet offset r b h =
      on (age_records-SameOn n) (age_records-inv n packet offset r b h)
    where
      on :
          ((p : Bytes) (o : ℕ) (r' : Bytes) (b' : Bool)
            → age_records n p o elapsed stale ≡ ok (r', b')
            → SameOn 0 o p r')
          → (SameOn 0 offset packet r × (b ≡ false)) ⊎ ((e : ℕ) × Goes n packet offset r b e)
          → SameOn 0 offset packet r
      on ih (inl (s, _)) = s
      on ih (inr (e, (named, fits, t))) =
          let right = skip_name-lt packet offset e named in
          let first : SameOn 0 offset packet (aged_packet packet e elapsed stale) =
            SameOn-within (omega arith) (omega arith) (aged-SameOn packet e) in
          let later : SameOn 0 offset (aged_packet packet e elapsed stale) r =
            SameOn-within (omega arith) (omega arith)
              (ih (aged_packet packet e elapsed stale) (record_end packet e) r b t) in
          SameOn-trans first later
