-- ===== src/Common/Outcome.antt =====
-- `expected<T>` of kernel/vds_core/expected.h: a value, or the error that stopped the computation.
-- Each constructor of `Error` is one message that the modelled code throws into an `expected`.
use mathlib.Core.Path.{◌≡◌, refl}
use mathlib.Core.Logic.{◌⊎◌, inl, inr}

pub data Error : Type 0 where
  invalid_data very_big_object buffer_too_small : Error
  invalid_utf8_string invalid_utf16_string : Error
  invalid_hex_string : Error
  non_valid_base64 invalid_base64_padding non_valid_base64_character : Error
  unexpected_char unexpected_state unexpected_end_of_data : Error
  in_failed_state write_failed send_timeout invalid_signature process_timeout : Error

pub data Expected {ℓ} (A : Type ℓ) : Type ℓ where
  value : A → Expected A
  unexpected : Error → Expected A

-- CHECK_EXPECTED and GET_EXPECTED: go on with the value, or return the error.
infixl 5 ◌>>=◌
abbrev pub ◌>>=◌ {ℓ κ} : {A : Type ℓ} {B : Type κ} → Expected A → (A → Expected B) → Expected B
value a >>= f = f a
unexpected e >>= f = unexpected e

pub Expected-cases {ℓ} :
    {A : Type ℓ} (r : Expected A) → ((a : A) × (r ≡ value a)) ⊎ ((e : Error) × (r ≡ unexpected e))
Expected-cases (value a) = inl (a, refl)
Expected-cases (unexpected e) = inr (e, refl)

pub value-injective {ℓ} : {A : Type ℓ} {a b : A} → value a ≡ value b → a ≡ b
value-injective h = cc

-- Inversion of a successful bind.
pub >>=-eq-value {ℓ κ} :
    {A : Type ℓ} {B : Type κ} (m : Expected A) (f : A → Expected B) {b : B}
    → (m >>= f) ≡ value b
    → (a : A) × (m ≡ value a) × (f a ≡ value b)
>>=-eq-value (value a) f h = (a, refl, h)
>>=-eq-value (unexpected e) f h = cc
