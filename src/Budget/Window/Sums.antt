-- ===== src/Budget/Window/Sums.antt =====
-- Sums over the buckets of internal/budget/window.go.
use koshi_runtime.Base.{
  ℕ, zero, suc, ◌+◌, ◌<◌, ◌≡◌, refl, ap, List, [], ◌∷◌, map, length, get_or, set, arith,
}
use koshi_runtime.Base.Int.{ℤ, pos, pos_part, neg_part, magnitude, ◌+ℤ◌, int_laws}

unfoldable pub sum : List ℤ → ℤ
sum [] = pos 0
sum (x ∷ xs) = x +ℤ sum xs

-- The sum of the absolute values.
unfoldable pub mass : List ℤ → ℕ
mass [] = 0
mass (x ∷ xs) = magnitude x + mass xs

pub sum-set :
    (xs : List ℤ) (i : ℕ) (v : ℤ)
    → i < length xs
    → sum (set xs i v) +ℤ get_or xs i (pos 0) ≡ sum xs +ℤ v
unfolding sum
sum-set [] i v h = absurd (omega arith)
sum-set (x ∷ xs) zero v h = omega int_laws
sum-set (x ∷ xs) (suc i) v h = regroup _ _ _ _ _ (sum-set xs i v (omega arith))
  where
    regroup : (a b c d e : ℤ) → b +ℤ c ≡ d +ℤ e → (a +ℤ b) +ℤ c ≡ (a +ℤ d) +ℤ e
    regroup a b c d e p = omega (int_laws, ap pos_part p, ap neg_part p)

pub mass-set :
    (xs : List ℤ) (i : ℕ) (v : ℤ)
    → i < length xs
    → mass (set xs i v) + magnitude (get_or xs i (pos 0)) ≡ mass xs + magnitude v
unfolding mass
mass-set [] i v h = absurd (omega arith)
mass-set (x ∷ xs) zero v h = omega arith
mass-set (x ∷ xs) (suc i) v h = omega (arith, mass-set xs i v (omega arith))

pub sum-map_zero : (xs : List ℤ) → sum (map (λ _. pos 0) xs) ≡ pos 0
unfolding sum
sum-map_zero [] = refl
sum-map_zero (x ∷ xs) = rw (sum-map_zero xs) (omega int_laws)

pub mass-map_zero : (xs : List ℤ) → mass (map (λ _. pos 0) xs) ≡ 0
unfolding mass
mass-map_zero [] = refl
mass-map_zero (x ∷ xs) = omega (arith, mass-map_zero xs)
