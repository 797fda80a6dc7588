-- ===== src/Shared/Every.antt =====
-- How `All` and `length` read a write, a lookup and a `swap_remove`.
use Prim.Native.Nat.{ℕ, zero, suc, ◌+◌, ◌≤◌}
use mathlib.Core.Path.{◌≡◌, refl, subst}
use mathlib.Core.List.{List, [], ◌∷◌}
use mathlib.Core.Option.{some, none, some-injective}
use native.Mathlib.Omega.{arith}
use bilbycast_libsrt_rs.Shared.Lists.{
  All, length, length-set, get_elem?, set, split_last, swap_remove,
}

module _ {ℓ κ} {A : Type ℓ} (P : A → Type κ) where
  pub All-set : (xs : List A) (i : ℕ) (v : A) → All P xs → P v → All P (set xs i v)
  All-set [] i v h p = tt
  All-set (x ∷ xs) zero v h p = (p, h.1)
  All-set (x ∷ xs) (suc i) v h p = (h.0, All-set xs i v h.1 p)

  pub All-get_elem? : (xs : List A) (i : ℕ) (v : A) → get_elem? xs i ≡ some v → All P xs → P v
  All-get_elem? [] i v e h = cc
  All-get_elem? (x ∷ xs) zero v e h = subst P (some-injective x v e) h.0
  All-get_elem? (x ∷ xs) (suc i) v e h = All-get_elem? xs i v e h.1

  All-split_last :
      (x : A) (xs : List A) → All P (x ∷ xs) → All P (split_last x xs).0 × P (split_last x xs).1
  All-split_last x [] h = (tt, h.0)
  All-split_last x (y ∷ ys) h = let (front, last) = All-split_last y ys h.1 in ((h.0, front), last)

  pub All-swap_remove : (xs : List A) (i : ℕ) → All P xs → All P (swap_remove xs i)
  All-swap_remove [] i h = tt
  All-swap_remove (x ∷ xs) i h =
      let (front, last) = All-split_last x xs h in All-set (split_last x xs).0 i _ front last

module _ {ℓ} {A : Type ℓ} where
  length-split_last : (x : A) (xs : List A) → length (split_last x xs).0 ≡ length xs
  length-split_last x [] = refl
  length-split_last x (y ∷ ys) = omega (arith, length-split_last y ys)

  -- A list with an element at the index is one shorter after the removal.
  pub length-swap_remove :
      (xs : List A) (i : ℕ) {w : A}
      → get_elem? xs i ≡ some w
      → length (swap_remove xs i) + 1 ≡ length xs
  length-swap_remove [] i e = cc
  length-swap_remove (x ∷ xs) i e =
      omega (arith, length-set (split_last x xs).0 i (split_last x xs).1, length-split_last x xs)

  -- Where no element stands at the index, the list has ended.
  pub length-le_of_none : (xs : List A) (i : ℕ) → get_elem? xs i ≡ none → length xs ≤ i
  length-le_of_none [] i e = omega arith
  length-le_of_none (x ∷ xs) zero e = cc
  length-le_of_none (x ∷ xs) (suc i) e = omega (arith, length-le_of_none xs i e)
