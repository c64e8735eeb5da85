-- ===== src/Prelude/Members.antt =====
-- Lists read and changed at one place.
use Prim.Native.Nat.{ℕ, zero, suc}
use mathlib.Core.Path.{◌≡◌, refl, sym, ap}
use mathlib.Core.Logic.{◌≢◌}
use mathlib.Core.Option
use mathlib.Core.Option.{Option, none, some}
use mathlib.Core.List.{List, [], ◌∷◌, ◌++◌}
use http2_server.Prelude.Lists.{length}

module _ {ℓ} {A : Type ℓ} where
  abbrev pub member_at : ℕ → List A → Option A
  member_at i [] = none
  member_at zero (x ∷ xs) = some x
  member_at (suc i) (x ∷ xs) = member_at i xs

  -- Beyond the end nothing changes.
  abbrev pub replace_at : ℕ → A → List A → List A
  replace_at i y [] = []
  replace_at zero y (x ∷ xs) = y ∷ xs
  replace_at (suc i) y (x ∷ xs) = x ∷ replace_at i y xs

  pub replace_at-same :
      (i : ℕ) (xs : List A) (x : A) → member_at i xs ≡ some x → replace_at i x xs ≡ xs
  replace_at-same i [] x h = refl
  replace_at-same zero (z ∷ xs) x h = ap (λ w. w ∷ xs) (sym (Option.some-injective z x h))
  replace_at-same (suc i) (z ∷ xs) x h = ap (λ t. z ∷ t) (replace_at-same i xs x h)

  pub member_at-replace_at :
      (i : ℕ) (xs : List A) (x y : A)
      → member_at i xs ≡ some x
      → member_at i (replace_at i y xs) ≡ some y
  member_at-replace_at i [] x y h = cc
  member_at-replace_at zero (z ∷ xs) x y h = refl
  member_at-replace_at (suc i) (z ∷ xs) x y h = member_at-replace_at i xs x y h

  pub member_at-replace_at_ne :
      (i j : ℕ) (xs : List A) (y : A) → i ≢ j → member_at j (replace_at i y xs) ≡ member_at j xs
  member_at-replace_at_ne i j [] y h = refl
  member_at-replace_at_ne zero zero (z ∷ xs) y h = absurd (h refl)
  member_at-replace_at_ne zero (suc j) (z ∷ xs) y h = refl
  member_at-replace_at_ne (suc i) zero (z ∷ xs) y h = refl
  member_at-replace_at_ne (suc i) (suc j) (z ∷ xs) y h =
      member_at-replace_at_ne i j xs y (λ e. h (ap suc e))

  pub member_at-length : (xs : List A) (y : A) → member_at (length xs) (xs ++ y ∷ []) ≡ some y
  member_at-length [] y = refl
  member_at-length (x ∷ xs) y = member_at-length xs y

  pub member_at-beyond : (xs : List A) → member_at (length xs) xs ≡ none
  member_at-beyond [] = refl
  member_at-beyond (x ∷ xs) = member_at-beyond xs

  pub member_at-length_ne :
      (i : ℕ) (xs : List A) (y : A) → i ≢ length xs → member_at i (xs ++ y ∷ []) ≡ member_at i xs
  member_at-length_ne zero [] y h = absurd (h refl)
  member_at-length_ne (suc i) [] y h = refl
  member_at-length_ne zero (x ∷ xs) y h = refl
  member_at-length_ne (suc i) (x ∷ xs) y h = member_at-length_ne i xs y (λ e. h (ap suc e))

  -- The change of a member that is not there changes nothing.
  pub replace_at-none :
      (i j : ℕ) (xs : List A) (y : A)
      → member_at i xs ≡ none
      → member_at j (replace_at i y xs) ≡ member_at j xs
  replace_at-none i j [] y h = refl
  replace_at-none zero j (x ∷ xs) y h = cc
  replace_at-none (suc i) zero (x ∷ xs) y h = refl
  replace_at-none (suc i) (suc j) (x ∷ xs) y h = replace_at-none i j xs y h
