-- ===== src/Shared/Decimal.antt =====
-- Decimal numbers, as std prints and reads unsigned and signed integers.
use Prim.Native.Nat.{ℕ, zero, suc, ◌+◌, ◌-◌, ◌*◌, ◌/◌, ◌%◌, ◌^◌, ◌≤◌, ◌<◌}
use mathlib.Core.Path.{◌≡◌, refl, ◌∙◌, ap}
use mathlib.Core.Logic.{inl, inr}
use mathlib.Core.Bool.{Bool, true, false, ◌&&◌, ◌||◌}
use mathlib.Core.List.{[], ◌∷◌}
use mathlib.Core.Option.{Option, none, some}
use native.Mathlib.Omega.{arith}
use bilbycast_libsrt_rs.Shared.Tests.{ltb, leb, ◌==◌, if◌then◌else◌, Bool-cases}
use bilbycast_libsrt_rs.Shared.Int.{ℤ, pos, negsuc}
use bilbycast_libsrt_rs.Shared.Chars.{Text}

-- The digits of `n` in front of `out`; a number has fewer digits than one more than itself.
unfoldable pub digits : (fuel n : ℕ) → Text → Text
digits zero n out = out
digits (suc fuel) n out =
    let longer = digits fuel (n / 10) ((48 + n % 10) ∷ out) in if n == 0 then out else longer

-- `Display` of an unsigned integer.
unfoldable pub decimal : ℕ → Text
decimal n = if n == 0 then 48 ∷ [] else digits (suc n) n []

-- The loop of `str::parse`: each product and each sum is checked against the type's greatest value.
unfoldable pub scan : (greatest : ℕ) → Text → ℕ → Option ℕ
scan greatest [] n = some n
scan greatest (c ∷ s) n =
    let later = scan greatest s (n * 10 + (c - 48)) in
    if ltb c 48 || ltb 57 c then none else if ltb greatest (n * 10 + (c - 48)) then none else later

abbrev scan_some : (greatest : ℕ) → Text → Option ℕ
scan_some greatest [] = none
scan_some greatest (c ∷ s) = scan greatest (c ∷ s) 0

-- `str::parse` of a `usize` of 64 bits; one `+` may stand in front.
unfoldable pub parse_usize : Text → Option ℕ
parse_usize [] = none
parse_usize (c ∷ s) = if c == 43 then scan_some (2 ^ 64 - 1) s else scan (2 ^ 64 - 1) (c ∷ s) 0

abbrev pub positive : Option ℕ → Option ℤ
positive none = none
positive (some n) = some (pos n)

abbrev pub negative : Option ℕ → Option ℤ
negative none = none
negative (some zero) = some (pos 0)
negative (some (suc n)) = some (negsuc n)

-- `str::parse` of an `i64`; one sign may stand in front.
unfoldable pub parse_i64 : Text → Option ℤ
parse_i64 [] = none
parse_i64 (c ∷ s) =
    if c == 45
    then negative (scan_some (2 ^ 63) s)
    else if c == 43
    then positive (scan_some (2 ^ 63 - 1) s)
    else positive (scan (2 ^ 63 - 1) (c ∷ s) 0)

-- Every character is a digit.
unfoldable pub all_digits : Text → Bool
all_digits [] = true
all_digits (c ∷ s) = (leb 48 c && leb c 57) && all_digits s

abbrev pub starts : Text → Bool
starts [] = false
starts (c ∷ s) = leb 48 c

scan_last :
    (greatest n : ℕ) (out : Text)
    → n ≤ greatest
    → scan greatest ((48 + n % 10) ∷ out) (n / 10) ≡ scan greatest out n
unfolding scan
scan_last greatest n out fits = ground arith

scan-digits :
    (greatest fuel n : ℕ) (out : Text)
    → n < fuel
    → n ≤ greatest
    → scan greatest (digits fuel n out) 0 ≡ scan greatest out n
unfolding digits
scan-digits greatest zero n out enough fits = absurd (omega (arith, enough))
scan-digits greatest (suc fuel) n out enough fits = elim (Bool-cases (n == 0)) [
  | inl none_left ↦ ground arith
  | inr more ↦ ground (
    arith,
    scan-digits greatest fuel (n / 10) ((48 + n % 10) ∷ out),
    scan_last greatest n out fits,
  )
]

digits-facts :
    (fuel n : ℕ) (out : Text)
    → all_digits out ≡ true
    → (all_digits (digits fuel n out) ≡ true)
      × (starts out ≡ true → starts (digits fuel n out) ≡ true)
unfolding digits all_digits
digits-facts zero n out digit = (digit, λ s. s)
digits-facts (suc fuel) n out digit =
    let (later_digits, later_starts) =
      digits-facts fuel (n / 10) ((48 + n % 10) ∷ out) (ground (arith, digit)) in
    (ground (arith, digit, later_digits), λ s. ground (arith, s, later_starts))

pub decimal-all_digits : (n : ℕ) → all_digits (decimal n) ≡ true
unfolding decimal all_digits
decimal-all_digits n = elim (Bool-cases (n == 0)) [
  | inl zero_only ↦ rw zero_only refl
  | inr more ↦ rw more (digits-facts (suc n) n [] refl).0
]

decimal-starts : (n : ℕ) → (starts (decimal n) ≡ true)
unfolding decimal digits all_digits
decimal-starts n = elim (Bool-cases (n == 0)) [
  | inl zero_only ↦ rw zero_only refl
  | inr more ↦
      rw (more, digits)
        ((digits-facts n (n / 10) ((48 + n % 10) ∷ []) (ground arith)).1 (ground arith))
]

-- A text that starts with a digit has no sign.
parse_usize-unsigned : (s : Text) → starts s ≡ true → parse_usize s ≡ scan (2 ^ 64 - 1) s 0
unfolding parse_usize
parse_usize-unsigned [] st = cc
parse_usize-unsigned (c ∷ s) st = ground (arith, st)

parse_i64-unsigned : (s : Text) → starts s ≡ true → parse_i64 s ≡ positive (scan (2 ^ 63 - 1) s 0)
unfolding parse_i64
parse_i64-unsigned [] st = cc
parse_i64-unsigned (c ∷ s) st = ground (arith, st)

scan-decimal : (greatest n : ℕ) → n ≤ greatest → scan greatest (decimal n) 0 ≡ some n
unfolding decimal scan
scan-decimal greatest n fits = elim (Bool-cases (n == 0)) [
  | inl zero_only ↦ ground arith
  | inr more ↦ rw more (scan-digits greatest (suc n) n [] (omega arith) fits)
]

pub parse_usize-decimal : (n : ℕ) → n < 2 ^ 64 → parse_usize (decimal n) ≡ some n
parse_usize-decimal n fits =
    parse_usize-unsigned (decimal n) (decimal-starts n)
    ∙ scan-decimal (2 ^ 64 - 1) n (omega (arith, fits))

pub parse_i64-decimal : (n : ℕ) → n < 2 ^ 63 → parse_i64 (decimal n) ≡ some (pos n)
parse_i64-decimal n fits =
    parse_i64-unsigned (decimal n) (decimal-starts n)
    ∙ ap positive (scan-decimal (2 ^ 63 - 1) n (omega (arith, fits)))
