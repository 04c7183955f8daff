-- ===== src/Resolver/Picker/Sorting.antt =====
-- Sorting as `sort_unstable_by_key` promises it: the elements stay, in an order that has no later
-- one below an earlier one.
use dns_relay.Prelude.{◌≡◌, Bool, true, List, [], ◌∷◌, length, All, ◌↔◌, ◌⊎◌}
use dns_relay.Cache.Lru.{Has}

pub record Sort (A : Type 0) : Type 0 where
  pub sort : (A → A → Bool) → List A → List A

abbrev pub IsSorted : {A : Type 0} → (A → A → Bool) → List A → Type 0
IsSorted le [] = Unit
IsSorted le (x ∷ xs) = All (λ y. le x y ≡ true) xs × IsSorted le xs

-- What a key makes of the order of its values.
pub record IsOrder {A : Type 0} (le : A → A → Bool) : Type 0 where
  pub total : (x y : A) → (le x y ≡ true) ⊎ (le y x ≡ true)
  pub trans : (x y z : A) → le x y ≡ true → le y z ≡ true → le x z ≡ true

pub record SortLaws {A : Type 0} (sorting : Sort A) : Type 0 where
  pub sorted : (le : A → A → Bool) (xs : List A) → IsOrder le → IsSorted le (sorting.sort le xs)
  pub has-sort : (le : A → A → Bool) (xs : List A) (x : A) → Has x (sorting.sort le xs) ↔ Has x xs
  pub length-sort : (le : A → A → Bool) (xs : List A) → length (sorting.sort le xs) ≡ length xs
