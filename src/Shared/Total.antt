-- ===== src/Shared/Total.antt =====
-- The sum of a number over a list, and how it reads an append, a write and a `swap_remove`.
use Prim.Native.Nat.{ℕ, zero, suc, ◌+◌, ◌*◌, ◌≤◌}
use mathlib.Core.Path.{◌≡◌}
use mathlib.Core.List.{List, [], ◌∷◌, ◌++◌}
use mathlib.Core.Option.{some}
use native.Mathlib.Omega.{arith}
use bilbycast_libsrt_rs.Shared.Lists.{get_elem?, set, split_last, swap_remove, length}

module _ {ℓ} {A : Type ℓ} (f : A → ℕ) where
  abbrev pub total : List A → ℕ
  total [] = 0
  total (x ∷ xs) = f x + total xs

  pub total-append : (xs ys : List A) → total (xs ++ ys) ≡ total xs + total ys
  total-append [] ys = omega arith
  total-append (x ∷ xs) ys = omega (arith, total-append xs ys)

  pub total-set :
      (xs : List A) (i : ℕ) (v w : A)
      → get_elem? xs i ≡ some w
      → total (set xs i v) + f w ≡ total xs + f v
  total-set [] i v w at = cc
  total-set (x ∷ xs) zero v w at = let here : x ≡ w = ground (arith, at) in rw here (omega arith)
  total-set (x ∷ xs) (suc i) v w at = omega (arith, total-set xs i v w at)

  total-split_last :
      (x : A) (xs : List A) → total (split_last x xs).0 + f (split_last x xs).1 ≡ total (x ∷ xs)
  total-split_last x [] = omega arith
  total-split_last x (y ∷ ys) = omega (arith, total-split_last y ys)

  total-move :
      (x : A) (xs : List A) (i : ℕ) (w : A)
      → get_elem? (x ∷ xs) i ≡ some w
      → let (front, last) = split_last x xs in total (set front i last) + f w ≡ total (x ∷ xs)
  total-move x [] zero w at = let here : x ≡ w = ground (arith, at) in rw here (omega arith)
  total-move x [] (suc i) w at = cc
  total-move x (y ∷ ys) zero w at =
      let here : x ≡ w = ground (arith, at) in rw here (omega (arith, total-split_last y ys))
  total-move x (y ∷ ys) (suc i) w at = omega (arith, total-move y ys i w at)

  pub total-swap_remove :
      (xs : List A) (i : ℕ) (w : A)
      → get_elem? xs i ≡ some w
      → total (swap_remove xs i) + f w ≡ total xs
  total-swap_remove [] i w at = cc
  total-swap_remove (x ∷ xs) i w at = total-move x xs i w at

  pub total_bound : (n : ℕ) → ((x : A) → f x ≤ n) → (xs : List A) → total xs ≤ n * length xs
  total_bound n each [] = omega arith
  total_bound n each (x ∷ xs) = grind (arith, each x, total_bound n each xs)
