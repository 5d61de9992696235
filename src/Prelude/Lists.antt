-- ===== src/Prelude/Lists.antt =====
-- Tables as lists: the rows that satisfy a test, the first such row, a count.
use Prim.Native.Nat.{ℕ, zero, suc}
use mathlib.Core.Path.{◌≡◌, refl}
use mathlib.Core.Bool.{Bool, true, false, ◌||◌}
use mathlib.Core.Option.{Option, none, some}
use mathlib.Core.List.{List, [], ◌∷◌, ◌++◌}
use native.Mathlib.Omega.{arith}
use cyrene_exchange.Prelude.Tests.{if◌then◌else◌}

module _ {ℓ} {A : Type ℓ} where
  abbrev pub length : List A → ℕ
  length [] = 0
  length (x ∷ xs) = suc (length xs)

  abbrev pub take : ℕ → List A → List A
  take zero xs = []
  take (suc n) [] = []
  take (suc n) (x ∷ xs) = x ∷ take n xs

  -- `SELECT … WHERE p`
  unfoldable pub select : (A → Bool) → List A → List A
  select p [] = []
  select p (x ∷ xs) = if p x then x ∷ select p xs else select p xs

  -- `SELECT … WHERE p` with `fetchone()`
  unfoldable pub fetchone : (A → Bool) → List A → Option A
  fetchone p [] = none
  fetchone p (x ∷ xs) = if p x then some x else fetchone p xs

  -- `any(p(x) for x in xs)`
  unfoldable pub any : (A → Bool) → List A → Bool
  any p [] = false
  any p (x ∷ xs) = p x || any p xs

  -- A predicate that holds of every element.
  abbrev pub All {κ} : (A → Type κ) → List A → Type κ
  All P [] = Unit
  All P (x ∷ xs) = P x × All P xs

  pub All-map {κ μ} :
      {P : A → Type κ} {Q : A → Type μ} (xs : List A) → ((a : A) → P a → Q a) → All P xs → All Q xs
  All-map [] f h = tt
  All-map (x ∷ xs) f h = (f x h.0, All-map xs f h.1)

  pub fetchone-holds : (p : A → Bool) (xs : List A) (a : A) → fetchone p xs ≡ some a → p a ≡ true
  unfolding fetchone
  fetchone-holds p [] a h = ground arith
  fetchone-holds p (x ∷ xs) a h = ground (arith, fetchone-holds p xs a)

  pub any_of_fetchone :
      (p : A → Bool) (xs : List A) (a : A) → fetchone p xs ≡ some a → any p xs ≡ true
  unfolding fetchone any
  any_of_fetchone p [] a h = ground arith
  any_of_fetchone p (x ∷ xs) a h = ground (arith, any_of_fetchone p xs a)

  pub fetchone-none_of_any : (p : A → Bool) (xs : List A) → any p xs ≡ false → fetchone p xs ≡ none
  unfolding fetchone any
  fetchone-none_of_any p [] h = refl
  fetchone-none_of_any p (x ∷ xs) h = ground (arith, fetchone-none_of_any p xs)

  pub any-append : (p : A → Bool) (xs ys : List A) → any p (xs ++ ys) ≡ (any p xs || any p ys)
  unfolding any
  any-append p [] ys = refl
  any-append p (x ∷ xs) ys = ground (arith, any-append p xs ys)

-- The row that an INSERT appends, where no other row satisfies the test.
pub fetchone_last {ℓ} :
    {A : Type ℓ} (p : A → Bool) (xs : List A) (y : A)
    → any p xs ≡ false
    → p y ≡ true
    → fetchone p (xs ++ y ∷ []) ≡ some y
unfolding fetchone any
fetchone_last p [] y h k = ground arith
fetchone_last p (x ∷ xs) y h k = ground (arith, fetchone_last p xs y)
