-- ===== src/Prelude/Writes.antt =====
-- `buf[o..o + n].copy_from_slice(bytes)`, and what is read back. The code's writes are in bounds;
-- here a write stops at the end of the buffer.
use Prim.Native.Nat.{ℕ, zero, suc, ◌+◌, ◌-◌, ◌*◌, ◌/◌, ◌%◌, ◌^◌, ◌≤◌, ◌<◌}
use mathlib.Core.Path.{◌≡◌, refl, ap}
use mathlib.Core.List.{[], ◌∷◌}
use native.Mathlib.Omega.{arith}
use native.Mathlib.Decide.{dec_lt}
use mathlib.Core.Bool.{true}
use dns_relay.Prelude.Tests.{ltb}
use dns_relay.Prelude.Lists.{length, get_or, all}
use dns_relay.Prelude.Slices.{Bytes, be32, to_be32}

abbrev pub write : Bytes → ℕ → Bytes → Bytes
write [] o bytes = []
write (x ∷ buf) (suc o) bytes = x ∷ write buf o bytes
write (x ∷ buf) zero [] = x ∷ buf
write (x ∷ buf) zero (b ∷ bytes) = b ∷ write buf zero bytes

pub length-write : (buf : Bytes) (o : ℕ) (bytes : Bytes) → length (write buf o bytes) ≡ length buf
length-write [] o bytes = refl
length-write (x ∷ buf) (suc o) bytes = ap suc (length-write buf o bytes)
length-write (x ∷ buf) zero [] = refl
length-write (x ∷ buf) zero (b ∷ bytes) = ap suc (length-write buf zero bytes)

pub get_or-write_left :
    (buf : Bytes) (o : ℕ) (bytes : Bytes) (i : ℕ)
    → i < o
    → get_or (write buf o bytes) i 0 ≡ get_or buf i 0
get_or-write_left [] o bytes i h = refl
get_or-write_left (x ∷ buf) (suc o) bytes zero h = refl
get_or-write_left (x ∷ buf) (suc o) bytes (suc i) h = get_or-write_left buf o bytes i (omega arith)
get_or-write_left (x ∷ buf) zero bytes i h = absurd (omega arith)

pub get_or-write_right :
    (buf : Bytes) (o : ℕ) (bytes : Bytes) (i : ℕ)
    → o + length bytes ≤ i
    → get_or (write buf o bytes) i 0 ≡ get_or buf i 0
get_or-write_right [] o bytes i h = refl
get_or-write_right (x ∷ buf) (suc o) bytes zero h = refl
get_or-write_right (x ∷ buf) (suc o) bytes (suc i) h =
    get_or-write_right buf o bytes i (omega arith)
get_or-write_right (x ∷ buf) zero [] i h = refl
get_or-write_right (x ∷ buf) zero (b ∷ bytes) zero h = absurd (omega arith)
get_or-write_right (x ∷ buf) zero (b ∷ bytes) (suc i) h =
    get_or-write_right buf zero bytes i (omega arith)

-- The byte number `j` of what was written.
pub get_or-write_self :
    (buf : Bytes) (o : ℕ) (bytes : Bytes) (j i : ℕ)
    → i ≡ o + j
    → j < length bytes
    → i < length buf
    → get_or (write buf o bytes) i 0 ≡ get_or bytes j 0
get_or-write_self [] o bytes j i e h k = absurd (omega arith)
get_or-write_self (x ∷ buf) (suc o) bytes j zero e h k = absurd (omega arith)
get_or-write_self (x ∷ buf) (suc o) bytes j (suc i) e h k =
    get_or-write_self buf o bytes j i (omega arith) (omega arith) (omega arith)
get_or-write_self (x ∷ buf) zero [] j i e h k = absurd (omega arith)
get_or-write_self (x ∷ buf) zero (b ∷ bytes) zero zero e h k = refl
get_or-write_self (x ∷ buf) zero (b ∷ bytes) zero (suc i) e h k = absurd (omega arith)
get_or-write_self (x ∷ buf) zero (b ∷ bytes) (suc j) zero e h k = absurd (omega arith)
get_or-write_self (x ∷ buf) zero (b ∷ bytes) (suc j) (suc i) e h k =
    get_or-write_self buf zero bytes j i (omega arith) (omega arith) (omega arith)

be32_of_bytes :
    (v : ℕ)
    → v < 2 ^ 32
    → (v / 16777216 % 256 * 256 + v / 65536 % 256) * 65536 + (v / 256 % 256 * 256 + v % 256) ≡ v
be32_of_bytes v h = omega arith

-- A number that was written is read back.
pub be32-write :
    (buf : Bytes) (o v : ℕ) → o + 4 ≤ length buf → v < 2 ^ 32 → be32 (write buf o (to_be32 v)) o ≡ v
be32-write buf o v h fits = omega (
  arith,
  be32_of_bytes v fits,
  get_or-write_self buf o (to_be32 v) 0 o,
  get_or-write_self buf o (to_be32 v) 1 (o + 1),
  get_or-write_self buf o (to_be32 v) 2 (o + 2),
  get_or-write_self buf o (to_be32 v) 3 (o + 2 + 1),
)

-- The bytes of a buffer are bytes.
pub record IsBytes (buf : Bytes) : Type 0 where
  pub below : (i : ℕ) → get_or buf i 0 < 256

get_or-write-lt :
    (buf : Bytes) (o v : ℕ) (i : ℕ)
    → get_or buf i 0 < 256
    → get_or (write buf o (to_be32 v)) i 0 < 256
get_or-write-lt buf o v i h = elim (dec_lt i o) [
  | yes l ↦ omega (arith, get_or-write_left buf o (to_be32 v) i l)
  | no l ↦ elim (dec_lt i (o + 4)) [
    | yes m ↦ elim (dec_lt i (length buf)) [
      | yes k ↦
          omega (
            arith,
            get_or-write_self buf o (to_be32 v) (i - o) i,
            one_of_four (i - o) (omega arith),
          )
      | no k ↦ omega (arith, beyond (write buf o (to_be32 v)) i, length-write buf o (to_be32 v))
    ]
    | no m ↦ omega (arith, get_or-write_right buf o (to_be32 v) i)
  ]
]
  where
    one_of_four : (j : ℕ) → j < 4 → get_or (to_be32 v) j 0 < 256
    one_of_four zero a = omega arith
    one_of_four (suc zero) a = omega arith
    one_of_four (suc (suc zero)) a = omega arith
    one_of_four (suc (suc (suc zero))) a = omega arith
    one_of_four (suc (suc (suc (suc j)))) a = absurd (omega arith)

    beyond : (xs : Bytes) (k : ℕ) → length xs ≤ k → get_or xs k 0 ≡ 0
    beyond [] k a = refl
    beyond (x ∷ xs) zero a = absurd (omega arith)
    beyond (x ∷ xs) (suc k) a = beyond xs k (omega arith)

pub write-IsBytes : (buf : Bytes) (o v : ℕ) → IsBytes buf → IsBytes (write buf o (to_be32 v))
write-IsBytes buf o v h = record { below = λ i. get_or-write-lt buf o v i (h.below i) }

pub be32-lt : (buf : Bytes) (o : ℕ) → IsBytes buf → be32 buf o < 2 ^ 32
be32-lt buf o h = omega (arith, h.below o, h.below (o + 1), h.below (o + 2), h.below (o + 2 + 1))

pub IsBytes-of_all : (buf : Bytes) → all (λ b. ltb b 256) buf ≡ true → IsBytes buf
IsBytes-of_all buf h = record { below = λ i. go buf i h }
  where
    go : (xs : Bytes) (i : ℕ) → all (λ b. ltb b 256) xs ≡ true → get_or xs i 0 < 256
    go [] i a = omega arith
    go (x ∷ xs) zero a = ground arith
    go (x ∷ xs) (suc i) a = go xs i (ground arith)
