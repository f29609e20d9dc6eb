-- ===== src/Base/Totals.antt =====
-- Sums over a list, and what replacing an element does to them.
use Prim.Native.Nat.{ℕ, zero, suc, ◌+◌, ◌≤◌}
use mathlib.Core.Path.{◌≡◌, refl}
use mathlib.Core.List.{List, [], ◌∷◌, ◌++◌}
use mathlib.Core.Option.{some}
use native.Mathlib.Omega.{arith}
use proto_clojure.Base.Lists.{get_elem?, set, replicate}

module _ {ℓ} {A : Type ℓ} where
  abbrev pub total : (A → ℕ) → List A → ℕ
  total f [] = 0
  total f (x ∷ xs) = f x + total f xs

  pub total-set :
      (f : A → ℕ) (xs : List A) (i : ℕ) (x y : A)
      → get_elem? xs i ≡ some x
      → total f (set xs i y) + f x ≡ total f xs + f y
  total-set f [] i x y e = ground arith
  total-set f (z ∷ xs) zero x y e = ground arith
  total-set f (z ∷ xs) (suc i) x y e = omega (arith, total-set f xs i x y e)

  pub total-elem :
      (f : A → ℕ) (xs : List A) (i : ℕ) (x : A) → get_elem? xs i ≡ some x → f x ≤ total f xs
  total-elem f [] i x e = ground arith
  total-elem f (z ∷ xs) zero x e = ground arith
  total-elem f (z ∷ xs) (suc i) x e = omega (arith, total-elem f xs i x e)

  pub total_zero :
      (f : A → ℕ) (xs : List A)
      → ((i : ℕ) (x : A) → get_elem? xs i ≡ some x → f x ≡ 0)
      → total f xs ≡ 0
  total_zero f [] none_of = refl
  total_zero f (x ∷ xs) none_of =
      omega (arith, none_of 0 x refl, total_zero f xs (λ i y e. none_of (suc i) y e))

  pub total-append : (f : A → ℕ) (xs ys : List A) → total f (xs ++ ys) ≡ total f xs + total f ys
  total-append f [] ys = omega arith
  total-append f (x ∷ xs) ys = omega (arith, total-append f xs ys)

  pub total-replicate : (f : A → ℕ) (n : ℕ) (x : A) → f x ≡ 0 → total f (replicate n x) ≡ 0
  total-replicate f zero x h = refl
  total-replicate f (suc n) x h = omega (arith, h, total-replicate f n x h)
