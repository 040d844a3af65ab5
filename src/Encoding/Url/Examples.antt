-- ===== src/Encoding/Url/Examples.antt =====
-- Concrete runs of percent encoding, and its theorems at concrete inputs.
use vds.Common.{◌<◌, ◌≡◌, ◌↔◌, refl, arith, [], ◌∷◌, All}
use vds.Common.Text.{bytes_of}
use vds.Encoding.{hex_digit}
use vds.Encoding.Url.{encode, decode, decode_loop, decode_step, decode-encode_iff}

-- A digit that no second digit follows is lost.
url_lost_digit : decode (bytes_of "%4x1") ≡ bytes_of "%x1"
unfolding decode decode_loop decode_step hex_digit
url_lost_digit = refl

decode-encode_iff_example :
    (decode (encode (104 ∷ 200 ∷ [])) ≡ 104 ∷ 200 ∷ []) ↔ All (λ b. b < 128) (104 ∷ 200 ∷ [])
decode-encode_iff_example = decode-encode_iff (104 ∷ 200 ∷ []) (omega arith)
