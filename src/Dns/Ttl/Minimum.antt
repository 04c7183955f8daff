-- ===== src/Dns/Ttl/Minimum.antt =====
-- `response_cache_ttl` against the records of the answer section.
use dns_relay.Prelude.{
  ℕ, zero, suc, ◌+◌, ◌≤◌, ◌<◌, ◌≡◌, refl, false, not, List, [], ◌∷◌, arith, length, ok, inl, inr,
  min, ltb, ◌==◌, if◌then◌else◌, Bool-cases, refuse, take, All, guard, ◌>>=◌, >>=-eq-ok, Outcome,
  subst,
}
use dns_relay.Prelude.Slices.{Bytes, be16, u32_at}
use dns_relay.Dns.Name.{skip_name}
use dns_relay.Dns.Records.{Rr, read_rr, rdata_start, rdata_end, skip_questions}
use dns_relay.Dns.Records.Total.{counts_read}
use dns_relay.Dns.Records.Walk.{walk, ttl_records}
use dns_relay.Dns.Ttl.{
  min_positive_ttl, negative_ttl, find_negative_ttl, cacheable_header, response_cache_ttl, u32_max,
}
use dns_relay.Dns.Ttl.Total.{cacheable_header-Within}

-- The answer records of a packet, behind its questions.
unfoldable pub answer_records : Bytes → Outcome (List Rr)
answer_records packet = do
  start ← skip_questions (be16 packet 4) packet 12
  walk (be16 packet 6) packet start

pub answer_records-intro :
    (packet : Bytes) (start : ℕ) (rs : List Rr)
    → skip_questions (be16 packet 4) packet 12 ≡ ok start
    → walk (be16 packet 6) packet start ≡ ok rs
    → answer_records packet ≡ ok rs
unfolding answer_records
answer_records-intro packet start rs asked walked = rw (asked, walked) refl

pub answer_records-elim :
    (packet : Bytes) (rs : List Rr)
    → answer_records packet ≡ ok rs
    → (start : ℕ) × (skip_questions (be16 packet 4) packet 12 ≡ ok start)
      × (walk (be16 packet 6) packet start ≡ ok rs)
unfolding answer_records
answer_records-elim packet rs h = >>=-eq-ok (skip_questions (be16 packet 4) packet 12) _ h

abbrev pub LivesFor : ℕ → Rr → Type 0
LivesFor ttl r = ttl ≤ r.ttl

-- The answers that the loop has walked, all living for the time that it returns.
abbrev Walked : Bytes → ℕ → ℕ → ℕ → ℕ → Type 0
Walked packet n offset answer_ttl m =
    (rs : List Rr) × (walk n packet offset ≡ ok rs)
    × All (LivesFor m) rs
    × (m ≤ answer_ttl)
    × (0 < answer_ttl → 0 < m)

min_positive_ttl-Walked :
    (packet : Bytes) (n offset answer_ttl end m : ℕ)
    → min_positive_ttl n packet offset answer_ttl ≡ ok (end, m)
    → Walked packet n offset answer_ttl m
unfolding min_positive_ttl walk
min_positive_ttl-Walked packet zero offset answer_ttl end m h =
    ([], refl, tt, ground arith, λ k. ground arith)
min_positive_ttl-Walked packet (suc n) offset answer_ttl end m h =
    let (r, e, t) = >>=-eq-ok (read_rr packet offset) _ h in
    let (u, live, t') = >>=-eq-ok (guard (not (r.ttl == 0))) _ t in
    let (rs, walked, lives, low, positive) =
      min_positive_ttl-Walked packet n (rdata_end r) (min answer_ttl r.ttl) end m t' in
    (
      r ∷ rs,
      rw (e, walked) refl,
      (omega (arith, low), lives),
      omega (arith, low),
      λ k. positive (ground arith),
    )

negative_ttl-positive :
    (packet : Bytes) (r : Rr) (ttl : ℕ) → negative_ttl packet r ≡ ok ttl → 0 < ttl
unfolding negative_ttl
negative_ttl-positive packet r ttl h =
    let (mname_end, _, t) = >>=-eq-ok (skip_name packet (rdata_start r)) _ h in
    let (rname_end, _, t') = >>=-eq-ok (skip_name packet mname_end) _ t in
    let (_, _, t'') = >>=-eq-ok (guard (not (ltb (rdata_end r) (rname_end + 20)))) _ t' in
    let (minimum, _, last) = >>=-eq-ok (u32_at packet (rname_end + 16)) _ t'' in ground arith

find_negative_ttl-positive :
    (packet : Bytes) (n offset ttl : ℕ) → find_negative_ttl n packet offset ≡ ok ttl → 0 < ttl
unfolding find_negative_ttl
find_negative_ttl-positive packet zero offset ttl h = (let refuted = h in cc)
find_negative_ttl-positive packet (suc n) offset ttl h =
    let (r, _, t) = >>=-eq-ok (read_rr packet offset) _ h in
    elim (Bool-cases (r.rtype == 6)) [
      | inl soa ↦ negative_ttl-positive packet r ttl (rw soa at t)
      | inr other ↦ find_negative_ttl-positive packet n (rdata_end r) ttl (rw other at t)
    ]

walk-none :
    (packet : Bytes) (n offset ttl : ℕ) (rs : List Rr)
    → ltb 0 n ≡ false
    → walk n packet offset ≡ ok rs
    → All (LivesFor ttl) rs
unfolding walk
walk-none packet zero offset ttl [] k h = tt
walk-none packet zero offset ttl (r ∷ rs) k h = (let refuted = h in cc)
walk-none packet (suc n) offset ttl rs k h = absurd (ground arith)

-- The last step: the answers decide, or the authority section where there are none.
last_step :
    (packet : Bytes) (n m offset start answer_ttl ttl : ℕ) (rs : List Rr)
    → (if ltb 0 n
        then (if not (answer_ttl == u32_max) then ok answer_ttl else refuse)
        else find_negative_ttl m packet offset)
      ≡ ok ttl
    → 0 < answer_ttl
    → walk n packet start ≡ ok rs
    → All (LivesFor answer_ttl) rs
    → (0 < ttl) × All (LivesFor ttl) rs
last_step packet n m offset start answer_ttl ttl rs h live walked lives =
    elim (Bool-cases (ltb 0 n)) [
      | inl some_answers ↦
          (let last = rw some_answers at h in
            let same : answer_ttl ≡ ttl = ground arith in
            (subst (λ x. 0 < x) same live, subst (λ x. All (LivesFor x) rs) same lives))
      | inr no_answers ↦ (
        find_negative_ttl-positive packet m offset ttl (rw no_answers at h),
        walk-none packet n start ttl rs no_answers walked,
      )
    ]

pub response_cache_ttl-header :
    (packet : Bytes) (ttl : ℕ) → response_cache_ttl packet ≡ ok ttl → 12 ≤ length packet
unfolding response_cache_ttl
response_cache_ttl-header packet ttl h =
    let (u, header, t) = >>=-eq-ok (cacheable_header packet) _ h in
    ground (arith, header, cacheable_header-Within packet)

-- A response that may be cached has a time to live above 0, and each of its answers lives at least
-- that long.
pub response_cache_ttl-answers :
    (packet : Bytes) (ttl : ℕ)
    → response_cache_ttl packet ≡ ok ttl
    → (0 < ttl) × ((rs : List Rr) × (answer_records packet ≡ ok rs) × All (LivesFor ttl) rs)
unfolding response_cache_ttl
response_cache_ttl-answers packet ttl h =
    let (u, header, t) = >>=-eq-ok (cacheable_header packet) _ h in
    let (q, a, n) = counts_read packet (ground (arith, header, cacheable_header-Within packet)) in
    let (start, asked, t') =
      >>=-eq-ok (skip_questions (be16 packet 4) packet 12) _ (rw (q, a, n) at t) in
    let ((offset, m), answered, t'') =
      >>=-eq-ok (min_positive_ttl (be16 packet 6) packet start u32_max) _ t' in
    let (rs, walked, lives, low, positive) =
      min_positive_ttl-Walked packet (be16 packet 6) start u32_max offset m answered in
    let (live, lives') =
      last_step packet (be16 packet 6) (be16 packet 8) offset start m ttl rs t''
        (positive (omega arith)) walked lives in
    (live, (rs, answer_records-intro packet start rs asked walked, lives'))

walk-take :
    (packet : Bytes) (n m offset : ℕ) (rs : List Rr)
    → walk (n + m) packet offset ≡ ok rs
    → walk n packet offset ≡ ok (take n rs)
unfolding walk
walk-take packet zero m offset rs h = refl
walk-take packet (suc n) m offset rs h =
    let size : suc n + m ≡ suc (n + m) = omega arith in
    let whole : walk (suc (n + m)) packet offset ≡ ok rs =
      subst (λ k. walk k packet offset ≡ ok rs) size h in
    let (r, e, t) = >>=-eq-ok (read_rr packet offset) _ whole in
    let (rest, e', t') = >>=-eq-ok (walk (n + m) packet (rdata_end r)) _ t in
    rw (e, walk-take packet n m (rdata_end r) rest e') (cc)

-- The answers come first among the records of both sections.
pub answer_records-take :
    (packet : Bytes) (rs : List Rr)
    → ttl_records packet ≡ ok rs
    → answer_records packet ≡ ok (take (be16 packet 6) rs)
unfolding ttl_records
answer_records-take packet rs h =
    let (start, asked, t) = >>=-eq-ok (skip_questions (be16 packet 4) packet 12) _ h in
    answer_records-intro packet start (take (be16 packet 6) rs) asked
      (walk-take packet (be16 packet 6) (be16 packet 8) start rs t)
