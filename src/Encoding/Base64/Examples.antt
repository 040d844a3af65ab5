-- ===== src/Encoding/Base64/Examples.antt =====
-- Concrete runs of base64, and its theorems at concrete inputs.
use vds.Common.{ℕ, zero, suc, ◌≡◌, refl, arith, List, [], ◌∷◌, length, value}
use vds.Common.Text.{bytes_of}
use vds.Encoding.Base64.{
  to_bytes, from_bytes, to_bytes_loop, sextet, padding_of, fill, on_sextet, on_pad,
}
use vds.Encoding.Base64.RoundTrip.{to_bytes-from_bytes_fresh}

abbrev zeroed : ℕ → List ℕ
zeroed zero = []
zeroed (suc n) = 0 ∷ zeroed n

length-zeroed : (n : ℕ) → length (zeroed n) ≡ n
length-zeroed zero = refl
length-zeroed (suc n) = omega (arith, length-zeroed n)

base64_text : from_bytes (1 ∷ 2 ∷ 3 ∷ 4 ∷ []) ≡ bytes_of "AQIDBA=="
unfolding from_bytes
base64_text = refl

base64_read : to_bytes zeroed (bytes_of "AQIDBA==") ≡ value (1 ∷ 2 ∷ 3 ∷ 4 ∷ [])
unfolding to_bytes to_bytes_loop sextet padding_of fill on_sextet on_pad
base64_read = refl

to_bytes-from_bytes_fresh_example :
    to_bytes zeroed (from_bytes (1 ∷ 2 ∷ 3 ∷ 4 ∷ [])) ≡ value (1 ∷ 2 ∷ 3 ∷ 4 ∷ [])
to_bytes-from_bytes_fresh_example =
    to_bytes-from_bytes_fresh zeroed (1 ∷ 2 ∷ 3 ∷ 4 ∷ []) length-zeroed (omega arith)

-- The pad inside the text leaves three bytes as they were, and they differ.
abbrev ones : ℕ → List ℕ
ones zero = []
ones (suc n) = 1 ∷ ones n

abbrev over_zeros : List ℕ
over_zeros = 1 ∷ 2 ∷ 0 ∷ 0 ∷ 0 ∷ []

abbrev over_ones : List ℕ
over_ones = 1 ∷ 2 ∷ 1 ∷ 1 ∷ 1 ∷ []
