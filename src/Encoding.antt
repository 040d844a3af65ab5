-- ===== src/Encoding.antt =====
-- kernel/vds_core/encoding.cpp: texts and bytes. A `std::string` is the list of its bytes; `char` is
-- signed, as with the compilers of the build files, so a byte from 128 on is a negative `char`.
pub mod Hex
pub mod Url
pub mod Base64
pub mod Utf8
use vds.Common.{
  ℕ, ◌+◌, ◌-◌, ◌≤◌, ◌<◌, ◌≡◌, arith, Bool, ◌&&◌, Option, none, some, leb, if◌then◌else◌, List, [],
  ◌∷◌,
}

-- The three range tests that `hex::to_bytes` and `url_encode::decode` make on a character.
unfoldable pub hex_digit : ℕ → Option ℕ
hex_digit ch =
    if leb b'0' ch && leb ch b'9'
    then some (ch - b'0')
    else (if leb b'a' ch && leb ch b'f'
        then some (ch - b'a' + 10)
        else (if leb b'A' ch && leb ch b'F' then some (ch - b'A' + 10) else none))
