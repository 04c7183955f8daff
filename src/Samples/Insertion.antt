-- ===== src/Samples/Insertion.antt =====
-- Insertion sort, in place of `sort_unstable_by_key`.
use dns_relay.Prelude.{
  suc, ◌≡◌, refl, ap, ◌∙◌, Bool, true, false, List, [], ◌∷◌, length, if◌then◌else◌, ◌⊎◌, inl, inr,
  Bool-cases,
}
use dns_relay.Cache.Lru.{Has}
use dns_relay.Resolver.Picker.Sorting.{Sort, SortLaws, IsSorted, IsOrder}
use dns_relay.Resolver.Picker.Merge.{All-Has, Has-All}

module _ {A : Type 0} (le : A → A → Bool) where
  abbrev insert : A → List A → List A
  insert x [] = x ∷ []
  insert x (y ∷ ys) = let later = insert x ys in if le x y then x ∷ y ∷ ys else y ∷ later

  abbrev insertion_sort : List A → List A
  insertion_sort [] = []
  insertion_sort (x ∷ xs) = insert x (insertion_sort xs)

  length-insert : (x : A) (ys : List A) → length (insert x ys) ≡ suc (length ys)
  length-insert x [] = refl
  length-insert x (y ∷ ys) = elim (Bool-cases (le x y)) [
    | inl e ↦ rw e refl
    | inr e ↦ rw e (ap suc (length-insert x ys))
  ]

  length-insertion_sort : (xs : List A) → length (insertion_sort xs) ≡ length xs
  length-insertion_sort [] = refl
  length-insertion_sort (x ∷ xs) =
      length-insert x (insertion_sort xs) ∙ ap suc (length-insertion_sort xs)

  insert-Has : (x : A) (ys : List A) (z : A) → Has z (insert x ys) → (z ≡ x) ⊎ Has z ys
  insert-Has x [] z m = m
  insert-Has x (y ∷ ys) z m = elim (Bool-cases (le x y)) [
    | inl e ↦ rw e at m
    | inr e ↦ elim (rw e at m) [
      | inl same ↦ inr (inl same)
      | inr later ↦ elim (insert-Has x ys z later) [ inl s ↦ inl s | inr t ↦ inr (inr t) ]
    ]
  ]

  Has-insert : (x : A) (ys : List A) (z : A) → (z ≡ x) ⊎ Has z ys → Has z (insert x ys)
  Has-insert x [] z m = m
  Has-insert x (y ∷ ys) z m = elim (Bool-cases (le x y)) [
    | inl e ↦ rw e m
    | inr e ↦ rw e (elim m [
      | inl same ↦ inr (Has-insert x ys z (inl same))
      | inr there ↦ elim there [
        | inl here ↦ inl here
        | inr later ↦ inr (Has-insert x ys z (inr later))
      ]
    ])
  ]

  insertion_sort-Has : (xs : List A) (z : A) → Has z (insertion_sort xs) → Has z xs
  insertion_sort-Has [] z m = m
  insertion_sort-Has (x ∷ xs) z m = elim (insert-Has x (insertion_sort xs) z m) [
    | inl same ↦ inl same
    | inr later ↦ inr (insertion_sort-Has xs z later)
  ]

  Has-insertion_sort : (xs : List A) (z : A) → Has z xs → Has z (insertion_sort xs)
  Has-insertion_sort [] z m = m
  Has-insertion_sort (x ∷ xs) z (inl same) = Has-insert x (insertion_sort xs) z (inl same)
  Has-insertion_sort (x ∷ xs) z (inr m) =
      Has-insert x (insertion_sort xs) z (inr (Has-insertion_sort xs z m))

  module _ (order : IsOrder le) where
    flip : (x y : A) → le x y ≡ false → le y x ≡ true
    flip x y e = elim (order.total x y) [ inl f ↦ (let refuted = rw e at f in cc) | inr f ↦ f ]

    IsSorted-insert : (x : A) (ys : List A) → IsSorted le ys → IsSorted le (insert x ys)
    IsSorted-insert x [] s = (tt, tt)
    IsSorted-insert x (y ∷ ys) (below, s) = elim (Bool-cases (le x y)) [
      | inl e ↦ rw e (
        (
          e,
          Has-All (λ z. le x z ≡ true) ys
              (λ z m. order.trans x y z e (All-Has (λ z. le y z ≡ true) ys z below m)),
        ),
        (below, s),
      )
      | inr e ↦ rw e (
        Has-All (λ z. le y z ≡ true) (insert x ys)
            (λ z m. elim (insert-Has x ys z m) [
              | inl same ↦ ap (le y) same ∙ flip x y e
              | inr there ↦ All-Has (λ z. le y z ≡ true) ys z below there
            ]),
        IsSorted-insert x ys s,
      )
    ]

    IsSorted-insertion_sort : (xs : List A) → IsSorted le (insertion_sort xs)
    IsSorted-insertion_sort [] = tt
    IsSorted-insertion_sort (x ∷ xs) =
        IsSorted-insert x (insertion_sort xs) (IsSorted-insertion_sort xs)

abbrev pub by_insertion : {A : Type 0} → Sort A
by_insertion = record { sort = insertion_sort }

pub by_insertion-SortLaws : {A : Type 0} → SortLaws (by_insertion {A = A})
by_insertion-SortLaws = record {
  sorted = λ le xs order. IsSorted-insertion_sort le order xs;
  has-sort = λ le xs x. (insertion_sort-Has le xs x, Has-insertion_sort le xs x);
  length-sort = λ le xs. length-insertion_sort le xs;
}
