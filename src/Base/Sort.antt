-- ===== src/Base/Sort.antt =====
-- `sorted(xs, key=key)` with an `int` key: stable.
use mathlib.Core.Path.{◌≡◌, refl, ap, ◌∙◌}
use mathlib.Core.Bool.{true, false}
use mathlib.Core.Logic.{inl, inr}
use mathlib.Core.List.{List, [], ◌∷◌}
use native.Mathlib.Omega.{arith}
use tenon_backend.Base.Tests.{if◌then◌else◌, Bool-cases}
use tenon_backend.Base.Lists.{All}
use tenon_backend.Base.Int.{ℤ, pos, negsuc, leb_ℤ}

leb_ℤ_total : (a b : ℤ) → leb_ℤ a b ≡ false → leb_ℤ b a ≡ true
leb_ℤ_total (pos a) (pos b) h = ground arith
leb_ℤ_total (pos a) (negsuc b) h = ground arith
leb_ℤ_total (negsuc a) (pos b) h = ground arith
leb_ℤ_total (negsuc a) (negsuc b) h = ground arith

module _ {ℓ} {A : Type ℓ} (key : A → ℤ) where
  unfoldable pub insert : A → List A → List A
  insert x [] = x ∷ []
  insert x (y ∷ ys) =
      let later = insert x ys in if leb_ℤ (key x) (key y) then x ∷ y ∷ ys else y ∷ later

  unfoldable pub sort : List A → List A
  unfolding insert
  sort [] = []
  sort (x ∷ xs) = insert x (sort xs)

  -- Each key is at most the next one.
  abbrev pub IsSorted : List A → Type 0
  IsSorted [] = Unit
  IsSorted (x ∷ []) = Unit
  IsSorted (x ∷ y ∷ ys) = (leb_ℤ (key x) (key y) ≡ true) × IsSorted (y ∷ ys)

  insert_first : (x : A) (xs : List A) → IsSorted (x ∷ xs) → insert x xs ≡ x ∷ xs
  unfolding insert
  insert_first x [] s = refl
  insert_first x (y ∷ ys) s = rw s.0

  IsSorted-tail : (x : A) (xs : List A) → IsSorted (x ∷ xs) → IsSorted xs
  IsSorted-tail x [] s = tt
  IsSorted-tail x (y ∷ ys) s = s.1

  -- Sorting what is sorted changes nothing.
  pub sort-IsSorted_eq : (xs : List A) → IsSorted xs → sort xs ≡ xs
  unfolding sort
  sort-IsSorted_eq [] s = refl
  sort-IsSorted_eq (x ∷ xs) s =
      ap (insert x) (sort-IsSorted_eq xs (IsSorted-tail x xs s)) ∙ insert_first x xs s

  insert-IsSorted_above :
      (x y : A) (ys : List A)
      → leb_ℤ (key y) (key x) ≡ true
      → IsSorted (y ∷ ys)
      → IsSorted (insert x ys)
      → IsSorted (y ∷ insert x ys)
  unfolding insert
  insert-IsSorted_above x y [] le s t = (le, tt)
  insert-IsSorted_above x y (z ∷ zs) le s t = elim (Bool-cases (leb_ℤ (key x) (key z))) [
    | inl first ↦ rw first (le, (first, s.1))
    | inr later ↦ rw later (s.0, rw later at t)
  ]

  insert-IsSorted : (x : A) (xs : List A) → IsSorted xs → IsSorted (insert x xs)
  unfolding insert
  insert-IsSorted x [] s = tt
  insert-IsSorted x (y ∷ ys) s = elim (Bool-cases (leb_ℤ (key x) (key y))) [
    | inl first ↦ rw first (first, s)
    | inr later ↦ rw later (
        insert-IsSorted_above x y ys (leb_ℤ_total (key x) (key y) later) s
          (insert-IsSorted x ys (IsSorted-tail y ys s)))
  ]

  pub sort-IsSorted : (xs : List A) → IsSorted (sort xs)
  unfolding sort
  sort-IsSorted [] = tt
  sort-IsSorted (x ∷ xs) = insert-IsSorted x (sort xs) (sort-IsSorted xs)

  insert-All {κ} : (P : A → Type κ) (x : A) (xs : List A) → P x → All P xs → All P (insert x xs)
  unfolding insert
  insert-All P x [] p all = (p, tt)
  insert-All P x (y ∷ ys) p all = elim (Bool-cases (leb_ℤ (key x) (key y))) [
    | inl first ↦ rw first (p, all)
    | inr later ↦ rw later (all.0, insert-All P x ys p all.1)
  ]

  -- Sorting keeps what holds of all elements.
  pub sort-All {κ} : (P : A → Type κ) (xs : List A) → All P xs → All P (sort xs)
  unfolding sort
  sort-All P [] all = tt
  sort-All P (x ∷ xs) all = insert-All P x (sort xs) all.0 (sort-All P xs all.1)
