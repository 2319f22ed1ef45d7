-- ===== src/Base/Sorting.antt =====
-- `Array.prototype.sort`, which is stable, by a Boolean order.
use crm_silmer.Base.Tests.{if◌then◌else◌, Bool-cases}
use crm_silmer.Base.Lists.{any, all, count, any-count, All}
use mathlib.Core.Path.{◌≡◌, refl}
use mathlib.Core.Bool.{Bool, true, false}
use mathlib.Core.List.{List, [], ◌∷◌}
use native.Mathlib.Omega.{arith}
use mathlib.Core.Logic.{inl, inr}

module _ {ℓ} {A : Type ℓ} (le : A → A → Bool) where
  abbrev pub insert : A → List A → List A
  insert x [] = x ∷ []
  insert x (y ∷ ys) = let rest = insert x ys in if le x y then x ∷ y ∷ ys else y ∷ rest

  abbrev pub sort : List A → List A
  sort [] = []
  sort (x ∷ xs) = insert x (sort xs)

  abbrev pub IsSorted : List A → Type 0
  IsSorted [] = Unit
  IsSorted (x ∷ xs) = All (λ y. le x y ≡ true) xs × IsSorted xs

  count-insert : (p : A → Bool) (x : A) (ys : List A) → count p (insert x ys) ≡ count p (x ∷ ys)
  count-insert p x [] = refl
  count-insert p x (y ∷ ys) = ground (arith, count-insert p x ys)

  -- Sorting keeps every element as often as it was there.
  pub count-sort : (p : A → Bool) (xs : List A) → count p (sort xs) ≡ count p xs
  count-sort p [] = refl
  count-sort p (x ∷ xs) = ground (arith, count-insert p x (sort xs), count-sort p xs)

  -- So a test passes for some element exactly when it did before.
  pub any-sort : (p : A → Bool) (xs : List A) → any p (sort xs) ≡ any p xs
  any-sort p xs = ground (arith, any-count p (sort xs), any-count p xs, count-sort p xs)

  module _ (total : (x y : A) → le x y ≡ false → le y x ≡ true)
      (trans : (x y z : A) → le x y ≡ true → le y z ≡ true → le x z ≡ true) where
    insert-All :
        (a x : A) (ys : List A)
        → le a x ≡ true
        → All (λ y. le a y ≡ true) ys
        → All (λ y. le a y ≡ true) (insert x ys)
    insert-All a x [] h all = (h, tt)
    insert-All a x (y ∷ ys) h all = elim (Bool-cases (le x y)) [
      | inl before ↦ rw before (h, all)
      | inr after ↦ rw after (all.0, insert-All a x ys h all.1)
    ]

    All-trans :
        (x y : A) (ys : List A)
        → le x y ≡ true
        → All (λ z. le y z ≡ true) ys
        → All (λ z. le x z ≡ true) ys
    All-trans x y [] h all = tt
    All-trans x y (z ∷ zs) h all = (trans x y z h all.0, All-trans x y zs h all.1)

    insert-IsSorted : (x : A) (ys : List A) → IsSorted ys → IsSorted (insert x ys)
    insert-IsSorted x [] s = (tt, tt)
    insert-IsSorted x (y ∷ ys) s = elim (Bool-cases (le x y)) [
      | inl before ↦ rw before ((before, All-trans x y ys before s.0), s)
      | inr after ↦ rw after (insert-All y x ys (total x y after) s.0, insert-IsSorted x ys s.1)
    ]

    pub sort-IsSorted : (xs : List A) → IsSorted (sort xs)
    sort-IsSorted [] = tt
    sort-IsSorted (x ∷ xs) = insert-IsSorted x (sort xs) (sort-IsSorted xs)
