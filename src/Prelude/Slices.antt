-- ===== src/Prelude/Slices.antt =====
-- Reads and slices of a byte buffer, with Rust's bounds checks written out.
use Prim.Native.Nat.{ℕ, ◌+◌, ◌-◌, ◌*◌, ◌/◌, ◌%◌, ◌≤◌, ◌<◌}
use mathlib.Core.Path.{◌≡◌}
use mathlib.Core.Bool.{◌&&◌}
use mathlib.Core.List.{List, [], ◌∷◌}
use native.Mathlib.Omega.{arith}
use dns_relay.Prelude.Tests.{ltb, leb, if◌then◌else◌}
use dns_relay.Prelude.Lists.{length, get_or, take, drop}
use dns_relay.Prelude.Fallible.{Outcome, ok, panic, ◌>>=◌}

abbrev pub Bytes : Type 0
Bytes = List ℕ

-- `buf[i]`
unfoldable pub at : Bytes → ℕ → Outcome ℕ
at buf i = if ltb i (length buf) then ok (get_or buf i 0) else panic

-- `buf[from..to]`
unfoldable pub slice : Bytes → ℕ → ℕ → Outcome Bytes
slice buf from to =
    if leb from to && leb to (length buf) then ok (take (to - from) (drop from buf)) else panic

abbrev pub be16 : Bytes → ℕ → ℕ
be16 buf i = get_or buf i 0 * 256 + get_or buf (i + 1) 0

abbrev pub be32 : Bytes → ℕ → ℕ
be32 buf i = be16 buf i * 65536 + be16 buf (i + 2)

-- `u16::from_be_bytes([buf[i], buf[i + 1]])`
unfoldable pub u16_at : Bytes → ℕ → Outcome ℕ
unfolding at
u16_at buf i = do a ← at buf i; b ← at buf (i + 1); ok (a * 256 + b)

-- `u32::from_be_bytes` of four bytes
unfoldable pub u32_at : Bytes → ℕ → Outcome ℕ
unfolding u16_at
u32_at buf i = do a ← u16_at buf i; b ← u16_at buf (i + 2); ok (a * 65536 + b)

-- `v.to_be_bytes()` of a `u16` and of a `u32`
abbrev pub to_be16 : ℕ → Bytes
to_be16 v = (v / 256 % 256) ∷ (v % 256) ∷ []

abbrev pub to_be32 : ℕ → Bytes
to_be32 v = (v / 16777216 % 256) ∷ (v / 65536 % 256) ∷ (v / 256 % 256) ∷ (v % 256) ∷ []

pub at_lem : (buf : Bytes) (i : ℕ) → i < length buf → at buf i ≡ ok (get_or buf i 0)
unfolding at
at_lem buf i h = ground arith

pub u16_at_lem : (buf : Bytes) (i : ℕ) → i + 2 ≤ length buf → u16_at buf i ≡ ok (be16 buf i)
unfolding u16_at
u16_at_lem buf i h = ground arith

pub u32_at_lem : (buf : Bytes) (i : ℕ) → i + 4 ≤ length buf → u32_at buf i ≡ ok (be32 buf i)
unfolding u32_at
u32_at_lem buf i h = ground arith

pub slice_lem :
    (buf : Bytes) (from to : ℕ)
    → from ≤ to
    → to ≤ length buf
    → slice buf from to ≡ ok (take (to - from) (drop from buf))
unfolding slice
slice_lem buf from to p q = ground arith
