-- ===== src/Encoding/Utf8/Examples.antt =====
-- Concrete runs of UTF-8, and its theorems at concrete inputs.
use vds.Common.{ℕ, ◌<◌, ◌≡◌, ◌↔◌, arith, List, [], ◌∷◌, ◌++◌, value}
use vds.Encoding.Utf8.{next_char, add}
use vds.Encoding.Utf8.Chars.{next_char-standard, next_char-add}

next_char-standard_example :
    next_char (0xF0 ∷ 0x9F ∷ 0x98 ∷ 0x80 ∷ 33 ∷ []) ≡ value (0x41F600, 33 ∷ [])
next_char-standard_example = next_char-standard 0x1F600 (33 ∷ []) (omega arith)

next_char-add_example :
    (bs : List ℕ) × (add (104 ∷ []) 0x20AC ≡ value ((104 ∷ []) ++ bs))
    × ((next_char (bs ++ []) ≡ value (0x20AC, [])) ↔ (0x20AC < 0x800))
next_char-add_example = next_char-add (104 ∷ []) 0x20AC [] (omega arith)
