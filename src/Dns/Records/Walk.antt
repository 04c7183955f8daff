-- ===== src/Dns/Records/Walk.antt =====
-- The records of a section as a list, which is what the walks of shared/src/dns.rs go through one
-- by one, and which bytes that list depends on.
use dns_relay.Prelude.{
  ℕ, zero, suc, ◌+◌, ◌-◌, ◌≤◌, ◌<◌, ◌≡◌, ap, sym, ◌∙◌, guard, not, ltb, List, [], ◌∷◌, arith,
  length, get_or, ok, Outcome, ◌>>=◌, >>=-eq-ok,
}
use dns_relay.Prelude.Slices.{Bytes, at, be16, be32}
use dns_relay.Dns.Name.{skip_loop, skip_name}
use dns_relay.Dns.Records.{Rr, rdata_end, read_rr, skip_questions}
use dns_relay.Dns.Records.Total.{skip_questions-Within}

unfoldable pub walk : ℕ → Bytes → ℕ → Outcome (List Rr)
walk zero buf offset = ok []
walk (suc n) buf offset = do r ← read_rr buf offset; rs ← walk n buf (rdata_end r); ok (r ∷ rs)

-- Two packets of one length with the same bytes from `lo` to `hi`.
pub record SameOn (lo hi : ℕ) (p q : Bytes) : Type 0 where
  pub lengths : length q ≡ length p
  pub bytes : (i : ℕ) → lo ≤ i → i < hi → get_or q i 0 ≡ get_or p i 0

pub SameOn-within :
    {lo hi lo' hi' : ℕ} {p q : Bytes} → lo ≤ lo' → hi' ≤ hi → SameOn lo hi p q → SameOn lo' hi' p q
SameOn-within a b s = record {
  lengths = s.lengths;
  bytes = λ i c d. s.bytes i (omega arith) (omega arith);
}

skip_loop-lt : (f : ℕ) (buf : Bytes) (pos e : ℕ) → skip_loop f buf pos ≡ ok e → pos < e
unfolding skip_loop at
skip_loop-lt zero buf pos e h = cc
skip_loop-lt (suc f) buf pos e h =
    ground (arith, skip_loop-lt f buf (pos + (1 + get_or buf pos 0)) e)

pub skip_name-lt : (buf : Bytes) (pos e : ℕ) → skip_name buf pos ≡ ok e → pos < e
unfolding skip_name
skip_name-lt buf pos e h = skip_loop-lt (length buf + 1) buf pos e h

-- What a record says, once its name ends at `e`.
abbrev pub rr_at : Bytes → ℕ → Rr
rr_at buf e = record {
  name_end = e;
  rtype = be16 buf e;
  ttl = be32 buf (e + 4);
  rdlength = be16 buf (e + 8);
}

pub read_rr-intro :
    (buf : Bytes) (offset e : ℕ)
    → skip_name buf offset ≡ ok e
    → rdata_end (rr_at buf e) ≤ length buf
    → read_rr buf offset ≡ ok (rr_at buf e)
unfolding read_rr at
read_rr-intro buf offset e n h = ground arith

pub read_rr-elim :
    (buf : Bytes) (offset : ℕ) (r : Rr)
    → read_rr buf offset ≡ ok r
    → (skip_name buf offset ≡ ok r.name_end)
      × (r ≡ rr_at buf r.name_end)
      × (rdata_end r ≤ length buf)
unfolding read_rr at
read_rr-elim buf offset r h = ground arith

module _ (p q : Bytes) where
  skip_round-SameOn :
      (f pos e : ℕ)
      → (skip_loop f p (pos + (1 + get_or p pos 0)) ≡ ok e
          → skip_loop f q (pos + (1 + get_or p pos 0)) ≡ ok e)
      → pos < e
      → SameOn pos e p q
      → skip_loop (suc f) p pos ≡ ok e
      → skip_loop (suc f) q pos ≡ ok e
  unfolding skip_loop at
  skip_round-SameOn f pos e ih right s h = ground (arith, s.lengths, s.bytes pos)

  skip_loop-SameOn :
      (f pos e : ℕ) → SameOn pos e p q → skip_loop f p pos ≡ ok e → skip_loop f q pos ≡ ok e
  skip_loop-SameOn zero pos e s h = unfold skip_loop in cc
  skip_loop-SameOn (suc f) pos e s h =
      skip_round-SameOn f pos e
        (skip_loop-SameOn f (pos + (1 + get_or p pos 0)) e
          (SameOn-within (omega arith) (omega arith) s))
        (skip_loop-lt (suc f) p pos e h) s h

  pub skip_name-SameOn :
      (pos e : ℕ) → SameOn pos e p q → skip_name p pos ≡ ok e → skip_name q pos ≡ ok e
  unfolding skip_name
  skip_name-SameOn pos e s h = rw s.lengths (skip_loop-SameOn (length p + 1) pos e s h)

  pub be16-SameOn :
      {lo hi : ℕ} (i : ℕ) → SameOn lo hi p q → lo ≤ i → i + 2 ≤ hi → be16 q i ≡ be16 p i
  be16-SameOn i s h k = omega (arith, s.bytes i, s.bytes (i + 1))

  pub read_rr-SameOn :
      (offset : ℕ) (r : Rr)
      → SameOn offset (rdata_end r) p q
      → read_rr p offset ≡ ok r
      → read_rr q offset ≡ ok r
  read_rr-SameOn offset r s h =
      let (named, is_rr, fits) = read_rr-elim p offset r h in
      let right = skip_name-lt p offset r.name_end named in
      let named' =
        skip_name-SameOn offset r.name_end (SameOn-within (omega arith) (omega arith) s) named in
      let same : rr_at q r.name_end ≡ rr_at p r.name_end = ground (
        arith,
        be16-SameOn r.name_end s,
        be16-SameOn (r.name_end + 4) s,
        be16-SameOn (r.name_end + 4 + 2) s,
        be16-SameOn (r.name_end + 8) s,
      ) in
      read_rr-intro q offset r.name_end named' (ground (arith, s.lengths, same, is_rr))
      ∙ ap ok (same ∙ sym is_rr)

  -- Bytes left of the first record do not matter.
  pub walk-SameOn :
      (n offset : ℕ) (rs : List Rr)
      → SameOn offset (length p) p q
      → walk n p offset ≡ ok rs
      → walk n q offset ≡ ok rs
  unfolding walk
  walk-SameOn zero offset rs s h = h
  walk-SameOn (suc n) offset rs s h =
      let (r, e, t) = >>=-eq-ok (read_rr p offset) _ h in
      let (rest, e', t') = >>=-eq-ok (walk n p (rdata_end r)) _ t in
      let (named, _, fits) = read_rr-elim p offset r e in
      let right = skip_name-lt p offset r.name_end named in
      rw
        (
          read_rr-SameOn offset r (SameOn-within (omega arith) (omega arith) s) e,
          walk-SameOn n (rdata_end r) rest (SameOn-within (omega arith) (omega arith) s) e',
        )
        t'

-- The answer and authority records of a packet, behind its questions.
unfoldable pub ttl_records : Bytes → Outcome (List Rr)
ttl_records packet = do
  start ← skip_questions (be16 packet 4) packet 12
  walk (be16 packet 6 + be16 packet 8) packet start

pub skip_questions-le :
    (n : ℕ) (buf : Bytes) (offset start : ℕ)
    → skip_questions n buf offset ≡ ok start
    → offset ≤ start
skip_questions-le n buf offset start h = ground (arith, skip_questions-Within n buf offset)

pub skip_questions-SameOn :
    (p q : Bytes) (n offset start : ℕ)
    → SameOn offset start p q
    → skip_questions n p offset ≡ ok start
    → skip_questions n q offset ≡ ok start
unfolding skip_questions
skip_questions-SameOn p q zero offset start s h = h
skip_questions-SameOn p q (suc n) offset start s h =
    let (e, named, t) = >>=-eq-ok (skip_name p offset) _ h in
    let (u, room, t') = >>=-eq-ok (guard (not (ltb (length p) (e + 4)))) _ t in
    let right = skip_name-lt p offset e named in
    let before = skip_questions-le n p (e + 4) start t' in
    rw
      (
        skip_name-SameOn p q offset e (SameOn-within (omega arith) (omega arith) s) named,
        s.lengths,
        room,
      )
      (skip_questions-SameOn p q n (e + 4) start (SameOn-within (omega arith) (omega arith) s) t')

agree_round :
    (f f' : ℕ) (p q : Bytes) (pos e : ℕ)
    → (skip_loop f p (pos + (1 + get_or p pos 0)) ≡ ok e
        → skip_loop f' q (pos + (1 + get_or p pos 0)) ≡ ok e)
    → get_or q pos 0 ≡ get_or p pos 0
    → pos < e
    → e ≤ length q
    → skip_loop (suc f) p pos ≡ ok e
    → skip_loop (suc f') q pos ≡ ok e
unfolding skip_loop at
agree_round f f' p q pos e ih same right k h = ground arith

-- The same name in another packet: its bytes are the same, and they end in that packet too.
pub skip_loop-agree :
    (p q : Bytes) (f f' pos e : ℕ)
    → ((i : ℕ) → pos ≤ i → i < e → get_or q i 0 ≡ get_or p i 0)
    → e ≤ length q
    → length q - pos < f'
    → skip_loop f p pos ≡ ok e
    → skip_loop f' q pos ≡ ok e
skip_loop-agree p q zero f' pos e s k m h = unfold skip_loop in cc
skip_loop-agree p q (suc f) zero pos e s k m h = absurd (omega arith)
skip_loop-agree p q (suc f) (suc f') pos e s k m h =
    let right = skip_loop-lt (suc f) p pos e h in
    agree_round f f' p q pos e
      (skip_loop-agree p q f f' (pos + (1 + get_or p pos 0)) e (λ i a b. s i (omega arith) b) k
        (omega arith))
      (s pos (omega arith) right) right k h

pub skip_name-agree :
    (p q : Bytes) (pos e : ℕ)
    → ((i : ℕ) → pos ≤ i → i < e → get_or q i 0 ≡ get_or p i 0)
    → e ≤ length q
    → skip_name p pos ≡ ok e
    → skip_name q pos ≡ ok e
unfolding skip_name
skip_name-agree p q pos e s k h =
    skip_loop-agree p q (length p + 1) (length q + 1) pos e s k (omega arith) h
