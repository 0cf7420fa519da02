-- ===== src/Prelude/Lists.antt =====
-- What the source's iterators do, over the native numbers and Boolean tests.
use Prim.Native.Nat.{ℕ, zero, suc}
use mathlib.Core.Path.{◌≡◌, refl}
use mathlib.Core.Bool.{Bool, true, false, ◌&&◌, ◌||◌, not}
use mathlib.Core.List.{List, [], ◌∷◌, ◌++◌}
use mathlib.Core.Option.{Option, none, some}
use native.Mathlib.Omega.{arith}
use agent_mail_kit.Prelude.Tests.{if◌then◌else◌}
use agent_mail_kit.Prelude.Eq.{PartialEq, ◌==◌}

module _ {ℓ} {A : Type ℓ} where
  abbrev pub length : List A → ℕ
  length [] = 0
  length (x ∷ xs) = suc (length xs)

  abbrev pub get_elem? : List A → ℕ → Option A
  get_elem? [] i = none
  get_elem? (x ∷ xs) zero = some x
  get_elem? (x ∷ xs) (suc i) = get_elem? xs i

  -- `iter().any(p)`, `iter().all(p)`
  abbrev pub any : (A → Bool) → List A → Bool
  any p [] = false
  any p (x ∷ xs) = p x || any p xs

  abbrev pub all : (A → Bool) → List A → Bool
  all p [] = true
  all p (x ∷ xs) = p x && all p xs

  -- `Vec::retain`, and `filter(p).collect()`
  unfoldable pub retain : (A → Bool) → List A → List A
  retain p [] = []
  retain p (x ∷ xs) = let rest = retain p xs in if p x then x ∷ rest else rest

  -- `iter().find(p)`
  abbrev pub find : (A → Bool) → List A → Option A
  find p [] = none
  find p (x ∷ xs) = if p x then some x else find p xs

  -- `last()`
  abbrev pub last : List A → Option A
  last [] = none
  last (x ∷ []) = some x
  last (x ∷ y ∷ ys) = last (y ∷ ys)

  -- Every element satisfies the predicate, as a type.
  abbrev pub All {κ} : (A → Type κ) → List A → Type κ
  All P [] = Unit
  All P (x ∷ xs) = P x × All P xs

  pub all-retain : (p : A → Bool) (xs : List A) → all p (retain p xs) ≡ true
  unfolding retain
  all-retain p [] = refl
  all-retain p (x ∷ xs) = ground (arith, all-retain p xs)

  pub retain_of_all : (p : A → Bool) (xs : List A) → all p xs ≡ true → retain p xs ≡ xs
  unfolding retain
  retain_of_all p [] h = refl
  retain_of_all p (x ∷ xs) h = ground (arith, retain_of_all p xs)

  pub any-not-eq-all : (p : A → Bool) (xs : List A) → any (λ x. not (p x)) xs ≡ not (all p xs)
  any-not-eq-all p [] = refl
  any-not-eq-all p (x ∷ xs) = ground (arith, any-not-eq-all p xs)

  pub any-append : (p : A → Bool) (xs ys : List A) → any p (xs ++ ys) ≡ (any p xs || any p ys)
  any-append p [] ys = refl
  any-append p (x ∷ xs) ys = ground (arith, any-append p xs ys)

  pub all-append : (p : A → Bool) (xs ys : List A) → all p (xs ++ ys) ≡ (all p xs && all p ys)
  all-append p [] ys = refl
  all-append p (x ∷ xs) ys = ground (arith, all-append p xs ys)

module _ {ℓ} {A : Type ℓ} ⦃e : PartialEq A⦄ where
  -- `contains(&x)`
  unfoldable pub contains : A → List A → Bool
  contains x [] = false
  contains x (y ∷ ys) = y == x || contains x ys

  pub contains-cons : (x y : A) (ys : List A) → contains x (y ∷ ys) ≡ (y == x || contains x ys)
  unfolding contains
  contains-cons x y ys = refl

  pub contains-retain :
      (p : A → Bool) (x : A) (ys : List A) → contains x (retain p ys) ≡ (p x && contains x ys)
  unfolding contains retain
  contains-retain p x [] = ground arith
  contains-retain p x (y ∷ ys) = ground (arith, contains-retain p x ys, e.eq_iff y x)

  pub contains-append :
      (x : A) (xs ys : List A) → contains x (xs ++ ys) ≡ (contains x xs || contains x ys)
  unfolding contains
  contains-append x [] ys = refl
  contains-append x (y ∷ xs) ys = ground (arith, contains-append x xs ys)

  pub absent_of_all :
      (x : A) (ys : List A) → all (λ y. not (y == x)) ys ≡ true → contains x ys ≡ false
  unfolding contains
  absent_of_all x [] h = refl
  absent_of_all x (y ∷ ys) h = ground (arith, absent_of_all x ys)

  -- What holds of all elements holds of an element.
  pub all_of_contains :
      (p : A → Bool) (x : A) (ys : List A) → all p ys ≡ true → contains x ys ≡ true → p x ≡ true
  unfolding contains
  all_of_contains p x [] h m = cc
  all_of_contains p x (y ∷ ys) h m = ground (arith, all_of_contains p x ys, e.eq_iff y x)

  pub all_of_pointwise :
      (p : A → Bool) (ys : List A) → ((x : A) → contains x ys ≡ true → p x ≡ true) → all p ys ≡ true
  unfolding contains
  all_of_pointwise p [] h = refl
  all_of_pointwise p (y ∷ ys) h =
      ground
        (arith, h y, (e.eq_iff y y).1 refl, all_of_pointwise p ys (λ x m. h x (ground (arith, m))))
