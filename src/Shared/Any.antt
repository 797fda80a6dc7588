-- ===== src/Shared/Any.antt =====
-- How `any` reads an append, a write and a `swap_remove`.
use Prim.Native.Nat.{ℕ, zero, suc}
use mathlib.Core.Path.{◌≡◌, refl}
use mathlib.Core.Logic.{◌⊎◌}
use mathlib.Core.Bool.{Bool, true, ◌||◌}
use mathlib.Core.List.{List, [], ◌∷◌, ◌++◌}
use mathlib.Core.Option.{some}
use native.Mathlib.Omega.{arith}
use bilbycast_libsrt_rs.Shared.Lists.{any, get_elem?, set, split_last, swap_remove}

module _ {ℓ} {A : Type ℓ} (p : A → Bool) where
  pub any-append : (xs ys : List A) → any p (xs ++ ys) ≡ (any p xs || any p ys)
  any-append [] ys = refl
  any-append (x ∷ xs) ys = ground (arith, any-append xs ys)

  -- A write at an index keeps what passes the test, but for the element overwritten.
  pub any-set :
      (xs : List A) (i : ℕ) (v w : A)
      → get_elem? xs i ≡ some w
      → any p xs ≡ true
      → (any p (set xs i v) ≡ true) ⊎ (p w ≡ true)
  any-set [] i v w at h = cc
  any-set (x ∷ xs) zero v w at h = ground arith
  any-set (x ∷ xs) (suc i) v w at h = ground (arith, any-set xs i v w at)

  pub any-set_self :
      (xs : List A) (i : ℕ) (v w : A)
      → get_elem? xs i ≡ some w
      → p v ≡ true
      → any p (set xs i v) ≡ true
  any-set_self [] i v w at h = cc
  any-set_self (x ∷ xs) zero v w at h = ground arith
  any-set_self (x ∷ xs) (suc i) v w at h = ground (arith, any-set_self xs i v w at h)

  any-split_last :
      (x : A) (xs : List A) → any p (x ∷ xs) ≡ (p (split_last x xs).1 || any p (split_last x xs).0)
  any-split_last x [] = refl
  any-split_last x (y ∷ ys) = ground (arith, any-split_last y ys)

  -- The last element stands at the index, in which case it is the one removed, or it moves there.
  any-move :
      (x : A) (xs : List A) (i : ℕ) (w : A)
      → get_elem? (x ∷ xs) i ≡ some w
      → any p (x ∷ xs) ≡ true
      → let (front, last) = split_last x xs in (any p (set front i last) ≡ true) ⊎ (p w ≡ true)
  any-move x [] zero w at h = ground arith
  any-move x [] (suc i) w at h = cc
  any-move x (y ∷ ys) zero w at h = ground (arith, any-split_last y ys)
  any-move x (y ∷ ys) (suc i) w at h = ground (arith, any-move y ys i w at)

  pub any-swap_remove :
      (xs : List A) (i : ℕ) (w : A)
      → get_elem? xs i ≡ some w
      → any p xs ≡ true
      → (any p (swap_remove xs i) ≡ true) ⊎ (p w ≡ true)
  any-swap_remove [] i w at h = cc
  any-swap_remove (x ∷ xs) i w at h = any-move x xs i w at h
