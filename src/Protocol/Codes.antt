-- ===== src/Protocol/Codes.antt =====
-- The error and rejection codes read back (`from_code` after `code`), and the key-length field.
use bilbycast_libsrt_rs.Shared.{
  ℕ, ◌/◌, pos_part, ◌%◌, ◌^◌, ◌≡◌, refl, sym, ◌∙◌, ap, ◌≢◌, ◌⊎◌, inl, inr, ◌↔◌, Bool, true, ◌&&◌,
  List, [], ◌∷◌, some, ℤ, eqb, eqb_iff, Bool-cases, arith,
}
use bilbycast_libsrt_rs.Protocol.Config.{KeySize, from_bytes, to_km_field, from_km_field}
use bilbycast_libsrt_rs.Protocol.Error.{
  ErrorKind, SrtError, kind, code, code_arms, match_code, from_code,
}
use bilbycast_libsrt_rs.Protocol.Reject.{RejectReason, reason_code, reason_arms, reason_from_code}

-- Each arm pairs a value with its own number.
abbrev all_own : {A : Type 0} → (A → ℤ) → List (ℤ × A) → Bool
all_own f [] = true
all_own f ((k, a) ∷ arms) = eqb (f a) k && all_own f arms

-- The first arm that fits has the code, where the arms pair each value with its own.
match_code_sound :
    {A : Type 0} (f : A → ℤ) (arms : List (ℤ × A)) (dflt : A) (c : ℤ)
    → all_own f arms ≡ true
    → (f (match_code arms dflt c) ≡ c) ⊎ (match_code arms dflt c ≡ dflt)
unfolding match_code
match_code_sound f [] dflt c own = inr refl
match_code_sound f ((k, a) ∷ arms) dflt c own =
    ground (arith, eqb_iff c k, eqb_iff (f a) k, match_code_sound f arms dflt c)

-- The value read from a number has that number, or it is the default and no value has the number.
abbrev pub IsFaithful : {A : Type 0} → (A → ℤ) → (ℤ → A) → A → ℤ → Type 0
IsFaithful {A} f g dflt c = (f (g c) ≡ c) ⊎ ((g c ≡ dflt) × ((a : A) → f a ≢ c))

faithful :
    {A : Type 0} (f : A → ℤ) (g : ℤ → A) (dflt : A)
    → ((a : A) → g (f a) ≡ a)
    → (c : ℤ) → (f (g c) ≡ c) ⊎ (g c ≡ dflt)
    → IsFaithful f g dflt c
faithful f g dflt back c (inl same) = inl same
faithful f g dflt back c (inr missed) = elim (Bool-cases (eqb (f (g c)) c)) [
  | inl same ↦ inl ((eqb_iff (f (g c)) c).0 same)
  | inr other ↦
      inr (missed, λ a e. cc (other, (eqb_iff (f (g c)) c).1 (ap f (sym (ap g e) ∙ back a) ∙ e)))
]

from_code-code : (e : SrtError) → from_code (code e) ≡ e
unfolding from_code code
from_code-code SrtError.success = refl
from_code-code _ = refl

-- An error code read as an `SrtError` keeps its number, or else it is read as `Unknown` and is the
-- number of no `SrtError`; and each `SrtError` is what its own number reads as.
pub from_code-IsFaithful :
    (c : ℤ)
    → IsFaithful code from_code SrtError.unknown c × ((e : SrtError) → from_code (code e) ≡ e)
unfolding from_code code_arms code
from_code-IsFaithful c =
    let arms = match_code_sound code code_arms SrtError.unknown c refl in
    (faithful code from_code SrtError.unknown from_code-code c arms, from_code-code)

reason_from_code-reason_code : (r : RejectReason) → reason_from_code (reason_code r) ≡ r
unfolding reason_from_code reason_code
reason_from_code-reason_code RejectReason.unknown = refl
reason_from_code-reason_code _ = refl

-- A rejection code read as a `RejectReason` keeps its number, or else it is read as `Unknown` and is the
-- number of no `RejectReason`; and each `RejectReason` is what its own number reads as.
reason_from_code-IsFaithful :
    (c : ℤ)
    → IsFaithful reason_code reason_from_code RejectReason.unknown c
      × ((r : RejectReason) → reason_from_code (reason_code r) ≡ r)
unfolding reason_from_code reason_arms reason_code
reason_from_code-IsFaithful c =
    let arms = match_code_sound reason_code reason_arms RejectReason.unknown c refl in
    (
      faithful reason_code reason_from_code RejectReason.unknown reason_from_code-reason_code c
          arms,
      reason_from_code-reason_code,
    )

-- The key-length field reads back, and reads as that key size only where it agrees with it modulo 2^30:
-- the product by four is taken in 32 bits.
pub from_km_field_iff :
    (field : ℕ) (k : KeySize) → (from_km_field field ≡ some k) ↔ (field % 2 ^ 30 ≡ to_km_field k)
unfolding from_km_field from_bytes to_km_field
from_km_field_iff field KeySize.aes128 = ground arith
from_km_field_iff field KeySize.aes192 = ground arith
from_km_field_iff field KeySize.aes256 = ground arith

-- An error is of the category Unknown exactly where it is Unknown, of Success exactly where it is Success,
-- and of Again, the ones to try again, exactly where its code is in the 6000s.
pub kind_partition :
    (e : SrtError)
    → ((kind e ≡ ErrorKind.unknown) ↔ (e ≡ SrtError.unknown))
      × ((kind e ≡ ErrorKind.success) ↔ (e ≡ SrtError.success))
      × ((kind e ≡ ErrorKind.again) ↔ (pos_part (code e) / 1000 ≡ 6))
unfolding kind code
kind_partition SrtError.unknown = (ground arith, ground arith, ground arith)
kind_partition _ = (ground arith, ground arith, ground arith)
