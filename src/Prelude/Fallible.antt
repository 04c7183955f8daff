-- ===== src/Prelude/Fallible.antt =====
-- What a call of the Rust code may end in. `ok` and `refuse` are `Some` and `None` (or the early
-- return of a parser), `panic` is an index or a slice out of bounds, and `out_of_fuel` belongs to
-- the model only: a loop had more rounds than its fuel.
use mathlib.Core.Path.{◌≡◌, refl}
use mathlib.Core.Logic.{◌⊎◌, inl, inr}
use mathlib.Core.Bool.{Bool, true, false}

pub data Outcome {ℓ} (A : Type ℓ) : Type ℓ where
  ok : A → Outcome A
  refuse : Outcome A
  panic : Outcome A
  out_of_fuel : Outcome A

-- `if !test { return None }`
abbrev pub guard : Bool → Outcome (Unit {0})
guard false = refuse
guard true = ok tt

infixl 5 ◌>>=◌
abbrev pub ◌>>=◌ {ℓ κ} : {X : Type ℓ} {Y : Type κ} → Outcome X → (X → Outcome Y) → Outcome Y
out_of_fuel >>= next = out_of_fuel
panic >>= next = panic
refuse >>= next = refuse
ok value >>= next = next value

infixl 5 ◌>>◌
abbrev pub ◌>>◌ {ℓ κ} : {X : Type ℓ} {Y : Type κ} → Outcome X → Outcome Y → Outcome Y
first >> rest = first >>= (λ _. rest)

-- The call returned to its caller, and a value that it returned satisfies `P`.
abbrev pub Ensures {ℓ} : {A : Type ℓ} → (A → Type 0) → Outcome A → Type 0
Ensures P (ok a) = P a
Ensures P refuse = Unit
Ensures P panic = ⊥
Ensures P out_of_fuel = ⊥

pub Ensures-bind {ℓ κ} :
    {A : Type ℓ} {B : Type κ} (P : A → Type 0) (Q : B → Type 0) (m : Outcome A) (f : A → Outcome B)
    → Ensures P m
    → ((a : A) → m ≡ ok a → P a → Ensures Q (f a))
    → Ensures Q (m >>= f)
Ensures-bind P Q (ok a) f h k = k a refl h
Ensures-bind P Q refuse f h k = tt
Ensures-bind P Q panic f h k = h
Ensures-bind P Q out_of_fuel f h k = h

-- A `?` that came through: the value that the call before it gave.
pub >>=-eq-ok {ℓ κ} :
    {X : Type ℓ} {Y : Type κ} (call : Outcome X) (next : X → Outcome Y) {y : Y}
    → (call >>= next) ≡ ok y
    → (x : X) × (call ≡ ok x) × (next x ≡ ok y)
>>=-eq-ok out_of_fuel next through = cc
>>=-eq-ok panic next through = cc
>>=-eq-ok refuse next through = cc
>>=-eq-ok (ok x) next through = (x, refl, through)

-- `let Some(a) = m else { return g }`: `f` goes on with the value, `g` is the early return.
abbrev pub attempt {ℓ κ} :
    {A : Type ℓ} {B : Type κ} → Outcome A → (A → Outcome B) → Outcome B → Outcome B
attempt (ok a) f g = f a
attempt refuse f g = g
attempt panic f g = panic
attempt out_of_fuel f g = out_of_fuel

-- The call returned a value that satisfies `P`, and took no early exit.
abbrev pub Returns {ℓ} : {A : Type ℓ} → (A → Type 0) → Outcome A → Type 0
Returns P (ok a) = P a
Returns P _ = ⊥

pub Returns-attempt {ℓ κ} :
    {A : Type ℓ} {B : Type κ} (P : A → Type 0) (Q : B → Type 0) (m : Outcome A) (f : A → Outcome B)
    (g : Outcome B)
    → Ensures P m
    → ((a : A) → m ≡ ok a → P a → Returns Q (f a))
    → Returns Q g
    → Returns Q (attempt m f g)
Returns-attempt P Q (ok a) f g h k r = k a refl h
Returns-attempt P Q refuse f g h k r = r
Returns-attempt P Q panic f g h k r = h
Returns-attempt P Q out_of_fuel f g h k r = h

pub Ensures-Returns {ℓ} : {A : Type ℓ} (P : A → Type 0) (m : Outcome A) → Returns P m → Ensures P m
Ensures-Returns P (ok a) h = h
Ensures-Returns P refuse h = tt
Ensures-Returns P panic h = h
Ensures-Returns P out_of_fuel h = h

-- The call returned to its caller.
abbrev pub Settles {ℓ} : {A : Type ℓ} → Outcome A → Type 0
Settles m = Ensures (λ _. Unit {0}) m

pub Settles-of_Ensures {ℓ} : {A : Type ℓ} (P : A → Type 0) (m : Outcome A) → Ensures P m → Settles m
Settles-of_Ensures P (ok a) h = tt
Settles-of_Ensures P refuse h = tt
Settles-of_Ensures P panic h = h
Settles-of_Ensures P out_of_fuel h = h

pub Settles-bind {ℓ κ} :
    {A : Type ℓ} {B : Type κ} (m : Outcome A) (f : A → Outcome B)
    → Settles m
    → ((a : A) → Settles (f a))
    → Settles (m >>= f)
Settles-bind (ok a) f h k = k a
Settles-bind refuse f h k = tt
Settles-bind panic f h k = h
Settles-bind out_of_fuel f h k = h

-- A call that returned gave a value or took the early exit.
pub Ensures-cases {ℓ} :
    {A : Type ℓ} (P : A → Type 0) (m : Outcome A)
    → Ensures P m
    → ((a : A) × (m ≡ ok a)) ⊎ (m ≡ refuse)
Ensures-cases P (ok a) h = inl (a, refl)
Ensures-cases P refuse h = inr refl
Ensures-cases P panic h = absurd h
Ensures-cases P out_of_fuel h = absurd h

pub attempt-eq-ok {ℓ κ} :
    {A : Type ℓ} {B : Type κ} (m : Outcome A) (f : A → Outcome B) (d b : B)
    → attempt m f (ok d) ≡ ok b
    → ((a : A) × (m ≡ ok a) × (f a ≡ ok b)) ⊎ ((m ≡ refuse) × (d ≡ b))
attempt-eq-ok (ok a) f d b h = inl (a, refl, h)
attempt-eq-ok refuse f d b h = inr (refl, cc)
attempt-eq-ok panic f d b h = cc
attempt-eq-ok out_of_fuel f d b h = cc

pub Returns-bind {ℓ κ} :
    {A : Type ℓ} {B : Type κ} (P : A → Type 0) (Q : B → Type 0) (m : Outcome A) (f : A → Outcome B)
    → Returns P m
    → ((a : A) → m ≡ ok a → P a → Returns Q (f a))
    → Returns Q (m >>= f)
Returns-bind P Q (ok a) f h k = k a refl h
Returns-bind P Q refuse f h k = absurd h
Returns-bind P Q panic f h k = absurd h
Returns-bind P Q out_of_fuel f h k = absurd h

pub Returns-value {ℓ} :
    {A : Type ℓ} (P : A → Type 0) (m : Outcome A) → Returns P m → (a : A) × (m ≡ ok a) × P a
Returns-value P (ok a) h = (a, refl, h)
Returns-value P refuse h = absurd h
Returns-value P panic h = absurd h
Returns-value P out_of_fuel h = absurd h

pub Settles-attempt {ℓ κ} :
    {A : Type ℓ} {B : Type κ} (P : A → Type 0) (m : Outcome A) (f : A → Outcome B) (g : Outcome B)
    → Ensures P m
    → ((a : A) → P a → Settles (f a))
    → Settles g
    → Settles (attempt m f g)
Settles-attempt P (ok a) f g h k r = k a h
Settles-attempt P refuse f g h k r = r
Settles-attempt P panic f g h k r = h
Settles-attempt P out_of_fuel f g h k r = h

pub Ensures-map {ℓ} :
    {A : Type ℓ} (P Q : A → Type 0) (m : Outcome A)
    → ((a : A) → P a → Q a)
    → Ensures P m
    → Ensures Q m
Ensures-map P Q (ok a) f h = f a h
Ensures-map P Q refuse f h = tt
Ensures-map P Q panic f h = h
Ensures-map P Q out_of_fuel f h = h
