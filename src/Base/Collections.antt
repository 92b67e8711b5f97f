-- ===== src/Base/Collections.antt =====
-- Predicates on lists, by recursion: every element, no repeated element, the same elements.
use mathlib.Core.Path.{◌≡◌, refl}
use mathlib.Core.Logic.{◌≢◌, ◌↔◌, inl, inr}
use mathlib.Core.Bool.{Bool, true, false, ◌||◌}
use mathlib.Core.List.{List, [], ◌∷◌}
use native.Mathlib.Omega.{arith}
use file_nest.Base.Lists.{any, all}
use file_nest.Base.Tests.{Bool-cases}

abbrev pub All {ℓ κ} : {A : Type ℓ} → (A → Type κ) → List A → Type κ
All P [] = Unit
All P (x ∷ xs) = P x × All P xs

abbrev pub Distinct {ℓ} : {A : Type ℓ} → List A → Type ℓ
Distinct [] = Unit
Distinct (x ∷ xs) = All (λ y. x ≢ y) xs × Distinct xs

-- `len(set(xs)) != len(xs)`
unfoldable pub has_duplicates {ℓ} : {A : Type ℓ} → (A → A → Bool) → List A → Bool
has_duplicates same [] = false
has_duplicates same (x ∷ xs) = any (same x) xs || has_duplicates same xs

-- `set(xs) <= set(ys)`
unfoldable pub is_subset {ℓ} : {A : Type ℓ} → (A → A → Bool) → List A → List A → Bool
is_subset same xs ys = all (λ x. any (same x) ys) xs

module _ {ℓ} {A : Type ℓ} (same : A → A → Bool)
    (same_iff : (a b : A) → (same a b ≡ true) ↔ (a ≡ b)) where
  differs_of_any : (x : A) (xs : List A) → any (same x) xs ≡ false → All (λ y. x ≢ y) xs
  differs_of_any x [] h = tt
  differs_of_any x (y ∷ xs) h =
      (λ e. cc (h, (same_iff x y).1 e), differs_of_any x xs (ground arith))

  any_of_differs : (x : A) (xs : List A) → All (λ y. x ≢ y) xs → any (same x) xs ≡ false
  any_of_differs x [] h = refl
  any_of_differs x (y ∷ xs) h = elim (Bool-cases (same x y)) [
    | inl e ↦ absurd (h.0 ((same_iff x y).0 e))
    | inr e ↦ rw e (any_of_differs x xs h.1)
  ]

  Distinct-of_test : (xs : List A) → has_duplicates same xs ≡ false → Distinct xs
  unfolding has_duplicates
  Distinct-of_test [] h = tt
  Distinct-of_test (x ∷ xs) h =
      (differs_of_any x xs (ground arith), Distinct-of_test xs (ground arith))

  test_of_Distinct : (xs : List A) → Distinct xs → has_duplicates same xs ≡ false
  unfolding has_duplicates
  test_of_Distinct [] h = refl
  test_of_Distinct (x ∷ xs) h = rw (any_of_differs x xs h.0) (test_of_Distinct xs h.1)

  -- The test by lengths of sets finds a repetition exactly when there is one.
  pub has_duplicates_iff : (xs : List A) → (has_duplicates same xs ≡ false) ↔ Distinct xs
  has_duplicates_iff xs = (Distinct-of_test xs, test_of_Distinct xs)

  any-widen :
      (x : A) (xs ys : List A)
      → any (same x) xs ≡ true
      → all (λ a. any (same a) ys) xs ≡ true
      → any (same x) ys ≡ true
  any-widen x [] ys h k = absurd (cc h)
  any-widen x (y ∷ xs) ys h k = elim (Bool-cases (same x y)) [
    | inl e ↦ rw ((same_iff x y).0 e) (ground arith)
    | inr e ↦ any-widen x xs ys (ground arith) (ground arith)
  ]

  pub is_subset_trans :
      (xs ys zs : List A)
      → is_subset same xs ys ≡ true
      → is_subset same ys zs ≡ true
      → is_subset same xs zs ≡ true
  unfolding is_subset
  is_subset_trans [] ys zs h k = refl
  is_subset_trans (x ∷ xs) ys zs h k = ground (arith, any-widen x ys zs, is_subset_trans xs ys zs)

  subset_of_tail :
      (x : A) (xs ys : List A)
      → all (λ a. any (same a) ys) xs ≡ true
      → all (λ a. any (same a) (x ∷ ys)) xs ≡ true
  subset_of_tail x [] ys h = refl
  subset_of_tail x (y ∷ xs) ys h = ground (arith, subset_of_tail x xs ys)

  pub is_subset_refl : (xs : List A) → is_subset same xs xs ≡ true
  unfolding is_subset
  is_subset_refl [] = refl
  is_subset_refl (x ∷ xs) =
      rw ((same_iff x x).1 refl, subset_of_tail x xs xs (is_subset_refl xs)) refl
