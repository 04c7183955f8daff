-- ===== src/Dns/Ttl/Aged.antt =====
-- `age_response_ttls` against the records of the packet before and after.
use dns_relay.Prelude.{
  Outcome, ◌≤◌, All, get_or, ℕ, zero, suc, ◌+◌, ◌-◌, if◌then◌else◌, ◌<◌, ◌^◌, ◌≡◌, refl, ap, ◌∙◌,
  sym, Bool, true, false, List, [], ◌∷◌, map, arith, length, ok, ◌⊎◌, inl, inr, min, ltb,
  Bool-cases, attempt-eq-ok, refuse,
}
use dns_relay.Prelude.Slices.{Bytes, be16, be32}
use dns_relay.Prelude.Writes.{be32-write, IsBytes, write-IsBytes, be32-lt}
use dns_relay.Dns.Records.{Rr, read_rr, skip_questions}
use dns_relay.Dns.Records.Walk.{
  walk, SameOn, SameOn-within, skip_name-lt, rr_at, read_rr-intro, skip_name-SameOn, be16-SameOn,
  walk-SameOn, ttl_records, skip_questions-le, skip_questions-SameOn,
}
use dns_relay.Dns.Ttl.{remaining, age_records, age_response_ttls, u32_max}
use dns_relay.Dns.Records.Total.{counts_read}
use dns_relay.Dns.Ttl.Aging.{
  aged_packet, record_end, Goes, age_records-inv, aged-SameOn, aged-SameOn_right,
  age_records-SameOn,
}

-- A byte that belongs to no time to live of some records.
abbrev pub Outside : ℕ → List Rr → Type 0
Outside i rs = All (λ r. (i < r.name_end + 4) ⊎ (r.name_end + 8 ≤ i)) rs

-- Two packets of one length that differ in the times to live of some records alone.
pub record SameBesides (rs : List Rr) (p q : Bytes) : Type 0 where
  pub lengths : length q ≡ length p
  pub bytes : (i : ℕ) → Outside i rs → get_or q i 0 ≡ get_or p i 0

module _ (elapsed : ℕ) (stale : Bool) where
  abbrev pub aged_rr : Rr → Rr
  aged_rr r = record r { ttl = if stale then 0 else r.ttl - elapsed }

  remaining-lt : (t : ℕ) → t < 2 ^ 32 → remaining stale elapsed t < 2 ^ 32
  remaining-lt t h = ground arith

  -- The first record, in the packet that comes out.
  first_aged :
      (n : ℕ) (p q : Bytes) (offset e : ℕ)
      → IsBytes p
      → Goes elapsed stale n p offset q true e
      → (read_rr p offset ≡ ok (rr_at p e)) × (read_rr q offset ≡ ok (aged_rr (rr_at p e)))
  first_aged n p q offset e bytes (named, fits, t) =
      let right = skip_name-lt p offset e named in
      let p1 = aged_packet p e elapsed stale in
      let kept : SameOn 0 (record_end p e) p1 q =
        age_records-SameOn elapsed stale n p1 (record_end p e) q true t in
      let left : SameOn 0 (e + 4) p p1 = aged-SameOn elapsed stale p e in
      let size_kept : SameOn (e + 8) (e + 10) p p1 = aged-SameOn_right elapsed stale p e (e + 10) in
      let named1 =
        skip_name-SameOn p p1 offset e (SameOn-within (omega arith) (omega arith) left) named in
      let named2 =
        skip_name-SameOn p1 q offset e (SameOn-within (omega arith) (omega arith) kept) named1 in
      let v = remaining stale elapsed (be32 p (e + 4)) in
      let written : be32 p1 (e + 4) ≡ v =
        be32-write p (e + 4) v (omega arith)
          (remaining-lt (be32 p (e + 4)) (be32-lt p (e + 4) bytes)) in
      let same : rr_at q e ≡ aged_rr (rr_at p e) = ground (
        arith,
        written,
        be16-SameOn p1 q e kept,
        be16-SameOn p1 q (e + 4) kept,
        be16-SameOn p1 q (e + 4 + 2) kept,
        be16-SameOn p1 q (e + 8) kept,
        be16-SameOn p p1 e left,
        be16-SameOn p p1 (e + 8) size_kept,
      ) in
      (
        read_rr-intro p offset e named fits,
        read_rr-intro q offset e named2 (ground (arith, same, kept.lengths, left.lengths))
            ∙ ap ok same,
      )

  one_more :
      (p q : Bytes) (e : ℕ) (rs : List Rr)
      → SameBesides rs (aged_packet p e elapsed stale) q
      → SameBesides (rr_at p e ∷ rs) p q
  one_more p q e rs same =
      let left : SameOn 0 (e + 4) p (aged_packet p e elapsed stale) =
        aged-SameOn elapsed stale p e in
      record {
        lengths = same.lengths ∙ left.lengths;
        bytes = λ i (here, rest). same.bytes i rest ∙ on i here;
      }
    where
      on :
          (i : ℕ)
          → (i < e + 4) ⊎ (e + 8 ≤ i)
          → get_or (aged_packet p e elapsed stale) i 0 ≡ get_or p i 0
      on i (inl below) =
          let left : SameOn 0 (e + 4) p (aged_packet p e elapsed stale) =
            aged-SameOn elapsed stale p e in
          left.bytes i (omega arith) below
      on i (inr above) =
          let right : SameOn (e + 8) (i + 1) p (aged_packet p e elapsed stale) =
            aged-SameOn_right elapsed stale p e (i + 1) in
          right.bytes i above (omega arith)

  -- The records of both packets, which differ in nothing else.
  abbrev Aged : ℕ → Bytes → Bytes → ℕ → Type 0
  Aged n p q offset =
      (rs : List Rr) × (walk n p offset ≡ ok rs)
      × (walk n q offset ≡ ok (map aged_rr rs))
      × SameBesides rs p q

  age_records-walk :
      (n : ℕ) (p q : Bytes) (offset : ℕ)
      → IsBytes p
      → age_records n p offset elapsed stale ≡ ok (q, true)
      → Aged n p q offset
  age_records-walk zero p q offset bytes h = (
    [],
    unfold walk in refl,
    unfold walk in refl,
    record {
      lengths = unfold age_records in ap length (same_packet h);
      bytes = λ i _. unfold age_records in ap (λ r. get_or r i 0) (same_packet h);
    },
  )
    where
      same_packet :
          {x y : Bytes} {b c : Bool}
          → ◌≡◌ {A = Outcome (Bytes × Bool)} (ok (x, b)) (ok (y, c))
          → y ≡ x
      same_packet e = cc
  age_records-walk (suc n) p q offset bytes h =
      on (age_records-walk n) (age_records-inv elapsed stale n p offset q true h)
    where
      joined :
          (e : ℕ) (rs : List Rr)
          → Goes elapsed stale n p offset q true e
          → walk n p (record_end p e) ≡ ok rs
          → walk n q (record_end p e) ≡ ok (map aged_rr rs)
          → SameBesides rs (aged_packet p e elapsed stale) q
          → Aged (suc n) p q offset
      joined e rs g a b same =
          let (first, first') = first_aged n p q offset e bytes g in
          (
            rr_at p e ∷ rs,
            unfold walk in rw (first, a) refl,
            unfold walk in rw (first', b) refl,
            one_more p q e rs same,
          )

      on :
          ((p' q' : Bytes) (o : ℕ)
            → IsBytes p'
            → age_records n p' o elapsed stale ≡ ok (q', true)
            → Aged n p' q' o)
          → (SameOn 0 offset p q × (true ≡ false))
            ⊎ ((e : ℕ) × Goes elapsed stale n p offset q true e)
          → Aged (suc n) p q offset
      on ih (inl (s, off)) = cc
      on ih (inr (e, g)) =
          let p1 = aged_packet p e elapsed stale in
          let (rs, a, b, same) = ih p1 q (record_end p e) (write-IsBytes p (e + 4) _ bytes) g.2 in
          let whole : SameOn (e + 8) (length p) p p1 =
            aged-SameOn_right elapsed stale p e (length p) in
          let back : SameOn (record_end p e) (length p1) p1 p = record {
            lengths = sym whole.lengths;
            bytes = λ i c d. sym (whole.bytes i (omega arith) (omega (arith, whole.lengths)));
          } in
          joined e rs g (walk-SameOn p1 p n (record_end p e) rs back a) b same

-- A success has walked all questions and all records.
success-walk :
    (packet aged : Bytes) (elapsed_secs : ℕ) (stale : Bool)
    → age_response_ttls packet elapsed_secs stale ≡ ok (aged, true)
    → (start : ℕ) × (skip_questions (be16 packet 4) packet 12 ≡ ok start)
      × (age_records (be16 packet 6 + be16 packet 8) packet start (min elapsed_secs u32_max) stale
          ≡ ok (aged, true))
unfolding age_response_ttls
success-walk packet aged elapsed_secs stale h = elim (Bool-cases (ltb (length packet) 12)) [
  | inl short ↦ absurd (ground arith)
  | inr long ↦
      let (q, a, n) = counts_read packet (ground arith) in
      on (
        attempt-eq-ok (skip_questions (be16 packet 4) packet 12) _ (packet, false) (aged, true)
          (rw (long, q, a, n) at h))
]
  where
    on :
        ((start : ℕ) × (skip_questions (be16 packet 4) packet 12 ≡ ok start)
            × (age_records
                  (be16 packet 6 + be16 packet 8)
                  packet
                  start
                  (min elapsed_secs u32_max)
                  stale
                ≡ ok (aged, true)))
          ⊎ ((skip_questions (be16 packet 4) packet 12 ≡ refuse)
              × ◌≡◌ {A = Bytes × Bool} (packet, false) (aged, true))
        → (start : ℕ) × (skip_questions (be16 packet 4) packet 12 ≡ ok start)
          × (age_records
                (be16 packet 6 + be16 packet 8)
                packet
                start
                (min elapsed_secs u32_max)
                stale
              ≡ ok (aged, true))
    on (inl walked) = walked
    on (inr (_, e)) = absurd (cc)

-- Aging that succeeds lowers the time to live of each record of the answer and authority sections by the
-- elapsed seconds, not below 0 (to 0 for a stale answer), and changes no other byte of the packet: the
-- header, the names, types, classes and data of all records stay, and so does the length.
pub age_response_ttls-ttl_records :
    (packet aged : Bytes) (elapsed_secs : ℕ) (stale : Bool)
    → IsBytes packet
    → age_response_ttls packet elapsed_secs stale ≡ ok (aged, true)
    → (rs : List Rr) × (ttl_records packet ≡ ok rs)
      × (ttl_records aged ≡ ok (map (aged_rr (min elapsed_secs u32_max) stale) rs))
      × SameOn 0 12 packet aged
      × SameBesides rs packet aged
unfolding ttl_records
age_response_ttls-ttl_records packet aged elapsed_secs stale bytes h =
    let elapsed = min elapsed_secs u32_max in
    let (start, asked, walked) = success-walk packet aged elapsed_secs stale h in
    let after = skip_questions-le (be16 packet 4) packet 12 start asked in
    let kept : SameOn 0 start packet aged =
      age_records-SameOn elapsed stale _ packet start aged true walked in
    let header : SameOn 0 12 packet aged = SameOn-within (omega arith) after kept in
    let asked' =
      skip_questions-SameOn packet aged (be16 packet 4) 12 start
        (SameOn-within (omega arith) (omega arith) kept) asked in
    let (rs, a, b, besides) = age_records-walk elapsed stale _ packet aged start bytes walked in
    (
      rs,
      rw (asked, a) refl,
      rw
          (
            be16-SameOn packet aged 4 header (omega arith) (omega arith),
            be16-SameOn packet aged 6 header (omega arith) (omega arith),
            be16-SameOn packet aged 8 header (omega arith) (omega arith),
            asked',
            b,
          )
          refl,
      header,
      besides,
    )
