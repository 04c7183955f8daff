-- ===== src/Resolver/Race/Flags.antt =====
-- Which packets may win: the bits of the flags of a response, as arithmetic.
use dns_relay.Prelude.{
  ℕ, zero, suc, ◌+◌, ◌*◌, ◌/◌, ◌%◌, ◌<◌, ◌≤◌, ◌≡◌, ◌≢◌, refl, ap, ◌∙◌, sym, Bool, true, false, not,
  ◌&&◌, ◌==◌, leb, ltb, length, get_or, Outcome, ok, refuse, panic, out_of_fuel, ◌>>=◌,
  if◌then◌else◌, arith,
}
use dns_relay.Prelude.Slices.{Bytes, be16, u16_at, u16_at_lem}
use dns_relay.Prelude.Writes.{IsBytes}
use dns_relay.Dns.Records.{response_has_only_unspecified_addresses}
use dns_relay.Resolver.Race.{usable_flags, is_usable_response}

-- The flags by their two bytes.
abbrev usable_bytes : ℕ → ℕ → Bool
usable_bytes hi lo = leb 128 hi && hi / 2 % 2 == 0 && not (lo % 16 == 2) && not (lo % 16 == 5)

abbrev same_bool : Bool → Bool → Bool
same_bool true b = b
same_bool false b = not b

same_bool→eq : (a b : Bool) → same_bool a b ≡ true → a ≡ b
same_bool→eq true true h = refl
same_bool→eq true false h = cc
same_bool→eq false true h = cc
same_bool→eq false false h = refl

below : (ℕ → Bool) → ℕ → Bool
below test zero = true
below test (suc n) = test n && below test n

below→all : (test : ℕ → Bool) (n : ℕ) → below test n ≡ true → (i : ℕ) → i < n → test i ≡ true
unfolding below
below→all test zero h i lt = absurd (omega arith)
below→all test (suc n) h i lt = ground (arith, below→all test n (ground arith) i)

agree : ℕ → ℕ → Bool
agree hi lo = same_bool (usable_flags (hi * 256 + lo)) (usable_bytes hi lo)

table : below (λ hi. below (λ lo. agree hi lo) 256) 256 ≡ true
unfolding below agree
table = refl

flags_lem : (hi lo : ℕ) → hi < 256 → lo < 256 → usable_flags (hi * 256 + lo) ≡ usable_bytes hi lo
unfolding agree
flags_lem hi lo a b = same_bool→eq (usable_flags (hi * 256 + lo)) (usable_bytes hi lo) (
    below→all (λ l. agree hi l) 256 (below→all (λ h. below (λ l. agree h l) 256) 256 table hi a) lo
      b)

-- A packet with a header whose flags say a response, not truncated, and neither SERVFAIL nor REFUSED; where
-- unspecified addresses are rejected, it does not have these alone.
pub record IsUsable (packet : Bytes) (reject_unspecified : Bool) : Type 0 where
  pub header : 12 ≤ length packet
  pub response : 128 ≤ get_or packet 2 0
  pub whole : get_or packet 2 0 / 2 % 2 ≡ 0
  pub not_servfail : get_or packet 3 0 % 16 ≢ 2
  pub not_refused : get_or packet 3 0 % 16 ≢ 5
  pub specified :
      reject_unspecified ≡ true → response_has_only_unspecified_addresses packet ≡ ok false

flags_of :
    (hi lo : ℕ)
    → usable_bytes hi lo ≡ true
    → (128 ≤ hi) × (hi / 2 % 2 ≡ 0) × (lo % 16 ≢ 2) × (lo % 16 ≢ 5)
flags_of hi lo h =
    (ground arith, ground arith, (λ e. ground (arith, e, h)), (λ e. ground (arith, e, h)))

specified_of : (m : Outcome Bool) → (do only ← m; ok (not only)) ≡ ok true → m ≡ ok false
specified_of (ok true) h = cc
specified_of (ok false) h = refl
specified_of refuse h = cc
specified_of panic h = cc
specified_of out_of_fuel h = cc

-- The tests that a usable packet has passed.
tests_of :
    (short : Bool) (read : Outcome ℕ) (reject : Bool) (m : Outcome Bool)
    → (if short then ok false else do
      flags ← read
      if usable_flags flags
          then (if reject then (do only ← m; ok (not only)) else ok true)
          else ok false)
      ≡ ok true
    → (short ≡ false)
      × ((flags : ℕ) × (read ≡ ok flags) × (usable_flags flags ≡ true))
      × (reject ≡ true → m ≡ ok false)
tests_of true read reject m h = cc
tests_of false (ok flags) reject m h = on (usable_flags flags) refl h
  where
    on :
        (usable : Bool)
        → usable_flags flags ≡ usable
        → (if usable then (if reject then (do only ← m; ok (not only)) else ok true) else ok false)
          ≡ ok true
        → (false ≡ false)
          × ((f : ℕ) × (ok flags ≡ ok f) × (usable_flags f ≡ true))
          × (reject ≡ true → m ≡ ok false)
    on false e k = cc
    on true e k = (refl, (flags, refl, e), λ only. specified_of m (rw only at k))
tests_of false refuse reject m h = cc
tests_of false panic reject m h = cc
tests_of false out_of_fuel reject m h = cc

same_ok : {x y : ℕ} → ok x ≡ ok y → x ≡ y
same_ok e = cc

pub is_usable_response-IsUsable :
    (packet : Bytes) (reject_unspecified : Bool)
    → IsBytes packet
    → is_usable_response packet reject_unspecified ≡ ok true
    → IsUsable packet reject_unspecified
unfolding is_usable_response
is_usable_response-IsUsable packet reject bytes h =
    let (long, (flags, read, usable), specified) =
      tests_of (ltb (length packet) 12) (u16_at packet 2) reject
        (response_has_only_unspecified_addresses packet) h in
    let header : 12 ≤ length packet = ground (arith, long) in
    let word : be16 packet 2 ≡ flags =
      same_ok (sym (u16_at_lem packet 2 (omega (arith, header))) ∙ read) in
    let (response, whole, servfail, refused) = flags_of (get_or packet 2 0) (get_or packet 3 0) (
      sym (flags_lem (get_or packet 2 0) (get_or packet 3 0) (bytes.below 2) (bytes.below 3))
      ∙ ap usable_flags word
      ∙ usable) in
    record {
      header = header;
      response = response;
      whole = whole;
      not_servfail = servfail;
      not_refused = refused;
      specified = specified;
    }
