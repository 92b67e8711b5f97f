-- ===== src/Base/Lists.antt =====
-- Lists measured by native numbers, Boolean quantifiers, and what Python's tuples offer.
use Prim.Native.Nat.{ℕ, zero, suc, ◌+◌}
use mathlib.Core.Path.{◌≡◌, refl, ap}
use mathlib.Core.Logic.{◌≢◌, ◌⊎◌, inl, inr}
use mathlib.Core.Bool.{Bool, true, false, ◌&&◌, ◌||◌}
use mathlib.Core.List.{List, [], ◌∷◌, ◌++◌}
use mathlib.Core.Option.{Option, none, some}
use native.Mathlib.Omega.{arith}
use file_nest.Base.Tests.{if◌then◌else◌}

module _ {ℓ} {A : Type ℓ} where
  abbrev pub length : List A → ℕ
  length [] = 0
  length (x ∷ xs) = suc (length xs)

  abbrev pub any : (A → Bool) → List A → Bool
  any p [] = false
  any p (x ∷ xs) = p x || any p xs

  abbrev pub all : (A → Bool) → List A → Bool
  all p [] = true
  all p (x ∷ xs) = p x && all p xs

  -- `[x for x in xs if p(x)]`
  abbrev pub filter : (A → Bool) → List A → List A
  filter p [] = []
  filter p (x ∷ xs) = let rest = filter p xs in if p x then x ∷ rest else rest

  -- `xs[-1] if xs else None`
  abbrev pub last? : List A → Option A
  last? [] = none
  last? (x ∷ xs) = elim xs [ [] ↦ some x | y ∷ ys ↦ last? xs ]

  -- `(*xs[:-1], y)`
  abbrev pub set_last : List A → A → List A
  set_last [] y = y ∷ []
  set_last (x ∷ xs) y = elim xs [ [] ↦ y ∷ [] | z ∷ zs ↦ x ∷ set_last xs y ]

  abbrev pub get_elem? : List A → ℕ → Option A
  get_elem? [] i = none
  get_elem? (x ∷ xs) zero = some x
  get_elem? (x ∷ xs) (suc i) = get_elem? xs i

  pub length-append : (xs ys : List A) → length (xs ++ ys) ≡ length xs + length ys
  length-append [] ys = omega arith
  length-append (x ∷ xs) ys = omega (arith, length-append xs ys)

  pub last?-ne_nil : (xs : List A) → xs ≢ [] → (x : A) × (last? xs ≡ some x)
  last?-ne_nil [] h = absurd (h refl)
  last?-ne_nil (x ∷ []) h = (x, refl)
  last?-ne_nil (x ∷ y ∷ xs) h = last?-ne_nil (y ∷ xs) (λ e. cc)

  pub last?-append : (xs : List A) (x : A) → last? (xs ++ x ∷ []) ≡ some x
  last?-append [] x = refl
  last?-append (y ∷ []) x = refl
  last?-append (y ∷ z ∷ xs) x = last?-append (z ∷ xs) x

  pub last?-set_last : (xs : List A) (x : A) → last? (set_last xs x) ≡ some x
  last?-set_last [] x = refl
  last?-set_last (y ∷ []) x = refl
  last?-set_last (y ∷ z ∷ []) x = refl
  last?-set_last (y ∷ z ∷ w ∷ xs) x = last?-set_last (z ∷ w ∷ xs) x

  pub length-set_last :
      (xs : List A) (x y : A) → last? xs ≡ some y → length (set_last xs x) ≡ length xs
  length-set_last [] x y h = cc
  length-set_last (z ∷ []) x y h = refl
  length-set_last (z ∷ w ∷ xs) x y h = ap suc (length-set_last (w ∷ xs) x y h)

  pub all-append_one :
      (p : A → Bool) (xs : List A) (x : A)
      → all p xs ≡ true
      → p x ≡ true
      → all p (xs ++ x ∷ []) ≡ true
  all-append_one p [] x h k = ground arith
  all-append_one p (y ∷ xs) x h k = ground (arith, all-append_one p xs x)

  pub all-set_last :
      (p : A → Bool) (xs : List A) (x : A)
      → all p xs ≡ true
      → p x ≡ true
      → all p (set_last xs x) ≡ true
  all-set_last p [] x h k = ground arith
  all-set_last p (y ∷ []) x h k = ground arith
  all-set_last p (y ∷ z ∷ xs) x h k = ground (arith, all-set_last p (z ∷ xs) x)

  pub all-last? :
      (p : A → Bool) (xs : List A) (x : A) → all p xs ≡ true → last? xs ≡ some x → p x ≡ true
  all-last? p [] x h k = cc
  all-last? p (y ∷ []) x h k = ground arith
  all-last? p (y ∷ z ∷ xs) x h k = all-last? p (z ∷ xs) x (ground arith) k

  pub get_elem?-append :
      (xs ys : List A) (i : ℕ) (x : A) → get_elem? xs i ≡ some x → get_elem? (xs ++ ys) i ≡ some x
  get_elem?-append [] ys i x h = cc
  get_elem?-append (y ∷ xs) ys zero x h = h
  get_elem?-append (y ∷ xs) ys (suc i) x h = get_elem?-append xs ys i x h

  -- All elements but the last one stay where they are.
  pub get_elem?-set_last :
      (xs : List A) (y z x : A) (i : ℕ)
      → last? xs ≡ some z
      → get_elem? xs i ≡ some x
      → (get_elem? (set_last xs y) i ≡ some x) ⊎ (x ≡ z) × (get_elem? (set_last xs y) i ≡ some y)
  get_elem?-set_last [] y z x i l h = absurd (cc h)
  get_elem?-set_last (w ∷ []) y z x zero l h = inr (ground arith, refl)
  get_elem?-set_last (w ∷ []) y z x (suc i) l h = absurd (cc h)
  get_elem?-set_last (w ∷ v ∷ xs) y z x zero l h = inl h
  get_elem?-set_last (w ∷ v ∷ xs) y z x (suc i) l h = get_elem?-set_last (v ∷ xs) y z x i l h
