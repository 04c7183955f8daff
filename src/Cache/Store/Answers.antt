-- ===== src/Cache/Store/Answers.antt =====
-- What the lookups of the response cache answer, by the age of the entry.
use dns_relay.Prelude.{
  ◌*◌, max, ℕ, zero, suc, ◌+◌, ◌≤◌, ◌<◌, ◌≡◌, refl, ap, ◌∙◌, sym, Bool, true, false, List, [], ◌∷◌,
  map, arith, length, ok, inl, inr, min, ltb, Bool-cases, take, All, set, get_or, get_or-set_ne,
  length-set, subst,
}
use dns_relay.Prelude.Slices.{Bytes, be16}
use dns_relay.Prelude.Writes.{IsBytes}
use dns_relay.Dns.Records.{Rr, skip_questions}
use dns_relay.Dns.Records.Walk.{
  walk, SameOn, SameOn-within, be16-SameOn, walk-SameOn, skip_questions-SameOn, skip_questions-le,
}
use dns_relay.Dns.Ttl.{age_response_ttls, u32_max}
use dns_relay.Dns.Ttl.Aged.{aged_rr, age_response_ttls-ttl_records}
use dns_relay.Dns.Ttl.Minimum.{
  answer_records, answer_records-intro, answer_records-elim, LivesFor, answer_records-take,
}
use dns_relay.Cache.Store.{nanos, CacheEntry, zero_txid, elapsed_secs}
use dns_relay.Cache.Store.Invariant.{ok_injective}

pub zero_txid-SameOn : (packet : Bytes) (hi : ℕ) → SameOn 2 hi packet (zero_txid packet)
unfolding zero_txid
zero_txid-SameOn packet hi = elim (Bool-cases (ltb (length packet) 2)) [
  | inl e ↦ rw e (record { lengths = refl; bytes = λ i a b. refl })
  | inr e ↦ rw e (record {
    lengths = length-set (set packet 0 0) 1 0 ∙ length-set packet 0 0;
    bytes = λ i a b.
        get_or-set_ne (set packet 0 0) 1 i 0 0 (λ same. omega arith)
        ∙ get_or-set_ne packet 0 i 0 0 (λ same. omega arith);
  })
]

get_or-set-lt :
    (buf : Bytes) (i j v : ℕ) → v < 256 → get_or buf j 0 < 256 → get_or (set buf i v) j 0 < 256
get_or-set-lt [] i j v h k = k
get_or-set-lt (b ∷ buf) zero zero v h k = h
get_or-set-lt (b ∷ buf) zero (suc j) v h k = k
get_or-set-lt (b ∷ buf) (suc i) zero v h k = k
get_or-set-lt (b ∷ buf) (suc i) (suc j) v h k = get_or-set-lt buf i j v h k

pub zero_txid-IsBytes : (packet : Bytes) → IsBytes packet → IsBytes (zero_txid packet)
unfolding zero_txid
zero_txid-IsBytes packet bytes = elim (Bool-cases (ltb (length packet) 2)) [
  | inl e ↦ rw e bytes
  | inr e ↦ rw e (record {
    below = λ i.
        get_or-set-lt (set packet 0 0) 1 i 0 (omega arith)
          (get_or-set-lt packet 0 i 0 (omega arith) (bytes.below i));
  })
]

-- The transaction id is not among the bytes that say what the answers are.
pub zero_txid-answer_records :
    (packet : Bytes) (rs : List Rr)
    → 12 ≤ length packet
    → answer_records packet ≡ ok rs
    → answer_records (zero_txid packet) ≡ ok rs
zero_txid-answer_records packet rs long h =
    let (start, asked, t) = answer_records-elim packet rs h in
    moved packet (zero_txid packet) start rs long (zero_txid-SameOn packet) asked t
  where
    moved :
        (p q : Bytes) (start : ℕ) (rs : List Rr)
        → 12 ≤ length p
        → ((hi : ℕ) → SameOn 2 hi p q)
        → skip_questions (be16 p 4) p 12 ≡ ok start
        → walk (be16 p 6) p start ≡ ok rs
        → answer_records q ≡ ok rs
    moved p q start rs long kept asked walked =
        let after = skip_questions-le (be16 p 4) p 12 start asked in
        let questions = be16-SameOn p q 4 (kept 12) (omega arith) (omega arith) in
        let answers = be16-SameOn p q 6 (kept 12) (omega arith) (omega arith) in
        let asked' =
          skip_questions-SameOn p q (be16 p 4) 12 start
            (SameOn-within (omega arith) (omega arith) (kept start)) asked in
        let walked' =
          walk-SameOn p q (be16 p 6) start rs
            (SameOn-within (omega arith) (omega arith) (kept (length p))) walked in
        answer_records-intro q start rs
          (subst (λ n. skip_questions n q 12 ≡ ok start) (sym questions) asked')
          (subst (λ n. walk n q start ≡ ok rs) (sym answers) walked')

-- Seconds that an entry has lived are fewer than its time to live while it is fresh.
pub elapsed_secs-lt :
    (entry : CacheEntry) (ttl now : ℕ)
    → 0 < ttl
    → entry.fresh_until ≡ entry.inserted_at + max 1 (min ttl 3600) * nanos
    → now < entry.fresh_until
    → elapsed_secs entry now < ttl
elapsed_secs-lt entry ttl now live until fresh = omega arith

take-map : (f : Rr → Rr) (n : ℕ) (rs : List Rr) → take n (map f rs) ≡ map f (take n rs)
take-map f zero rs = refl
take-map f (suc n) [] = refl
take-map f (suc n) (r ∷ rs) = ap (◌∷◌ (f r)) (take-map f n rs)

-- Aged answers, in the packet that comes out.
pub aged-answer_records :
    (packet aged : Bytes) (elapsed : ℕ) (stale : Bool) (rs : List Rr)
    → IsBytes packet
    → answer_records packet ≡ ok rs
    → age_response_ttls packet elapsed stale ≡ ok (aged, true)
    → answer_records aged ≡ ok (map (aged_rr (min elapsed u32_max) stale) rs)
aged-answer_records packet aged elapsed stale rs bytes h e =
    let (all_records, before, after, header, _) =
      age_response_ttls-ttl_records packet aged elapsed stale bytes e in
    let f = aged_rr (min elapsed u32_max) stale in
    let counts = be16-SameOn packet aged 6 header (omega arith) (omega arith) in
    let same : take (be16 packet 6) all_records ≡ rs =
      ok_injective (sym (answer_records-take packet all_records before) ∙ h) in
    answer_records-take aged (map f all_records) after
    ∙ ap ok (
        ap (λ n. take n (map f all_records)) counts
        ∙ take-map f (be16 packet 6) all_records
        ∙ ap (map f) same)

pub aged-live :
    (elapsed ttl : ℕ) (rs : List Rr)
    → elapsed < ttl
    → All (LivesFor ttl) rs
    → All (LivesFor 1) (map (aged_rr elapsed false) rs)
aged-live elapsed ttl [] h a = tt
aged-live elapsed ttl (r ∷ rs) h (first, rest) = (omega arith, aged-live elapsed ttl rs h rest)
