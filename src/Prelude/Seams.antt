-- ===== src/Prelude/Seams.antt =====
-- Reads of a buffer that is put together from parts. A position is any number that equals the
-- length of the parts before it.
use Prim.Native.Nat.{ℕ, zero, suc, ◌+◌, ◌-◌, ◌≤◌, ◌<◌}
use mathlib.Core.Path.{◌≡◌, refl, ◌∙◌, ap}
use mathlib.Core.List.{List, [], ◌∷◌, ◌++◌}
use native.Mathlib.Omega.{arith}
use native.Mathlib.Nat.{suc-add}
use dns_relay.Prelude.Lists.{length, get_or, take, drop, length-append, take-append}
use dns_relay.Prelude.Fallible.{ok}
use dns_relay.Prelude.Slices.{Bytes, at, slice, slice_lem, u16_at, be16}

pub get_or-right :
    (pre rest : Bytes) (i p : ℕ) → p ≡ length pre + i → get_or (pre ++ rest) p 0 ≡ get_or rest i 0
get_or-right [] rest i p e = ap (λ (k : ℕ). get_or rest k 0) (omega arith)
get_or-right (x ∷ pre) rest i zero e = absurd (omega arith)
get_or-right (x ∷ pre) rest i (suc p) e = get_or-right pre rest i p (omega arith)

pub drop-right :
    {A : Type 0} (pre rest : List A) (p : ℕ) → p ≡ length pre → drop p (pre ++ rest) ≡ rest
drop-right [] rest zero e = refl
drop-right [] rest (suc p) e = absurd (omega arith)
drop-right (x ∷ pre) rest zero e = absurd (omega arith)
drop-right (x ∷ pre) rest (suc p) e = drop-right pre rest p (omega arith)

pub take-left :
    {A : Type 0} (pre rest : List A) (p : ℕ) → p ≡ length pre → take p (pre ++ rest) ≡ pre
take-left pre rest p e = rw e (take-append pre rest)

-- The byte, the number and the part that follow `pre`.
pub at-right :
    (pre rest : Bytes) (i p : ℕ)
    → p ≡ length pre + i
    → i + 1 ≤ length rest
    → at (pre ++ rest) p ≡ ok (get_or rest i 0)
unfolding at
at-right pre rest i p e h = ground (arith, length-append pre rest, get_or-right pre rest i p)

pub u16_at-right :
    (pre rest : Bytes) (i p : ℕ)
    → p ≡ length pre + i
    → i + 2 ≤ length rest
    → u16_at (pre ++ rest) p ≡ ok (be16 rest i)
unfolding u16_at at
u16_at-right pre rest i p e h = ground (
  arith,
  length-append pre rest,
  get_or-right pre rest i p,
  get_or-right pre rest (i + 1) (p + 1),
)

pub slice-right :
    (pre mid rest : Bytes) (from to : ℕ)
    → from ≡ length pre
    → to ≡ length pre + length mid
    → slice (pre ++ (mid ++ rest)) from to ≡ ok mid
slice-right pre mid rest from to e e' =
    slice_lem (pre ++ (mid ++ rest)) from to (omega arith)
      (omega (arith, length-append pre (mid ++ rest), length-append mid rest))
    ∙ ap ok
        (rw (drop-right pre (mid ++ rest) from e) (take-left mid rest (to - from) (omega arith)))

-- A buffer that was cut at `n` and has another end: what is left of the cut stays.
pub get_or-cut :
    (buf rest : Bytes) (n i : ℕ)
    → i < n
    → n ≤ length buf
    → get_or (take n buf ++ rest) i 0 ≡ get_or buf i 0
get_or-cut buf rest zero i h k = elim h [ ]
get_or-cut [] rest (suc n) i h k = absurd (omega arith)
get_or-cut (x ∷ buf) rest (suc n) zero h k = refl
get_or-cut (x ∷ buf) rest (suc n) (suc i) h k = get_or-cut buf rest n i (omega arith) (omega arith)

take-two :
    (buf : Bytes) (o n : ℕ)
    → n ≡ 2
    → o + 2 ≤ length buf
    → take n (drop o buf) ≡ get_or buf o 0 ∷ get_or buf (o + 1) 0 ∷ []
take-two buf o n e h = rw e (at_seam buf o h)
  where
    at_seam :
        (xs : Bytes) (k : ℕ)
        → k + 2 ≤ length xs
        → take 2 (drop k xs) ≡ get_or xs k 0 ∷ get_or xs (k + 1) 0 ∷ []
    at_seam [] k a = absurd (omega arith)
    at_seam (x ∷ xs) (suc k) a = rw suc-add (at_seam xs k (omega arith))
    at_seam (x ∷ []) zero a = absurd (omega arith)
    at_seam (x ∷ y ∷ xs) zero a = refl

pub slice-two :
    (buf : Bytes) (o p : ℕ)
    → p ≡ o + 2
    → p ≤ length buf
    → slice buf o p ≡ ok (get_or buf o 0 ∷ get_or buf (o + 1) 0 ∷ [])
slice-two buf o p e h =
    slice_lem buf o p (omega arith) h ∙ ap ok (take-two buf o (p - o) (omega arith) (omega arith))
