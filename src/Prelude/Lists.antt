-- ===== src/Prelude/Lists.antt =====
-- Lists measured by native numbers, membership by recursion, and Go's `s[1:]`.
use Prim.Native.Nat.{ℕ, suc, ◌+◌}
use mathlib.Core.Path.{◌≡◌}
use mathlib.Core.Logic.{◌⊎◌}
use mathlib.Core.List.{List, [], ◌∷◌, ◌++◌}
use native.Mathlib.Omega.{arith}

module _ {ℓ} {A : Type ℓ} where
  abbrev pub length : List A → ℕ
  length [] = 0
  length (x ∷ xs) = suc (length xs)

  pub length-append : (xs ys : List A) → length (xs ++ ys) ≡ length xs + length ys
  length-append [] ys = omega arith
  length-append (x ∷ xs) ys = omega (arith, length-append xs ys)

  -- `s[1:]`
  abbrev pub tail : List A → List A
  tail [] = []
  tail (x ∷ xs) = xs

  abbrev pub All {κ} : (A → Type κ) → List A → Type κ
  All P [] = Unit
  All P (x ∷ xs) = P x × All P xs

  -- Membership, as a fact that the tactics take apart.
  abbrev pub In : A → List A → Type ℓ
  In a [] = Unit {ℓ} → ⊥
  In a (x ∷ xs) = (x ≡ a) ⊎ In a xs

module _ {ℓ κ} {A : Type ℓ} (P : A → Type κ) where
  pub All-append : (xs ys : List A) → All P xs → All P ys → All P (xs ++ ys)
  All-append [] ys hx hy = hy
  All-append (x ∷ xs) ys hx hy = (hx.0, All-append xs ys hx.1 hy)

  pub All-middle : (before after : List A) (x : A) → All P (before ++ x ∷ after) → P x
  All-middle [] after x h = h.0
  All-middle (y ∷ before) after x h = All-middle before after x h.1

  pub All-imply {ι} : {Q : A → Type ι} → ((x : A) → P x → Q x) → (xs : List A) → All P xs → All Q xs
  All-imply f [] h = tt
  All-imply f (x ∷ xs) h = (f x h.0, All-imply f xs h.1)
