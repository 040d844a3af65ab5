-- ===== src/Encoding/Hex/Examples.antt =====
-- Concrete runs of hexadecimal texts, and its theorems at concrete inputs.
use vds.Common.{◌*◌, ◌≡◌, refl, arith, [], ◌∷◌, map, value}
use vds.Common.Text.{bytes_of}
use vds.Encoding.{hex_digit}
use vds.Encoding.Hex.{to_bytes, from_bytes, to_bytes_loop, to_bytes-from_bytes, to_bytes_value}

hex_text : to_bytes (bytes_of "0Aff") ≡ value (10 ∷ 255 ∷ [])
unfolding to_bytes to_bytes_loop hex_digit
hex_text = refl

to_bytes-from_bytes_example : to_bytes (from_bytes (10 ∷ 255 ∷ [])) ≡ value (10 ∷ 255 ∷ [])
to_bytes-from_bytes_example = to_bytes-from_bytes (10 ∷ 255 ∷ []) (omega arith)

to_bytes_value_example :
    (map hex_digit (bytes_of "0Aff") ≡ map hex_digit (from_bytes (10 ∷ 255 ∷ []))) × (4 ≡ 2 * 2)
to_bytes_value_example = to_bytes_value (bytes_of "0Aff") (10 ∷ 255 ∷ []) hex_text
