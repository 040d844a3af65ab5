-- ===== src/Encoding/Base64/Groups.antt =====
-- The rounds of the loops of `base64` (kernel/vds_core/encoding.cpp), matched with one another.
use vds.Common.Bits.{or-shift}
use vds.Common.{
  ℕ, ◌+◌, ◌*◌, ◌/◌, ◌%◌, ◌^◌, ◌<◌, ◌≡◌, refl, ap, ◌∙◌, arith, some, List, [], ◌∷◌, ◌++◌, get_or,
  value, All, passes_below, passes_below→passes, is_some_of, is_some_of→eq,
}
use mathlib.Core.Path.{ap₂}
use mathlib.Core.List.{append-nil, append_assoc}
use vds.Encoding.Base64.{
  encode_lookup, pad_character, sextet_char, join_bytes, from_bytes, sextet, push_sextet, byte_at,
  fill, on_sextet, on_pad, to_bytes_loop,
}

-- The character of the alphabet at each place stands for that place.
pub sextet-lookup : (v : ℕ) → v < 64 → sextet (get_or encode_lookup v 0) ≡ some v
unfolding sextet passes_below
sextet-lookup v h =
    is_some_of→eq (sextet (get_or encode_lookup v 0)) v
      (passes_below→passes (λ v. is_some_of (sextet (get_or encode_lookup v 0)) v) 64 refl v h)

sextet-sextet_char :
    (temp shift : ℕ) → sextet (sextet_char temp shift) ≡ some (temp / 2 ^ shift % 2 ^ 6)
sextet-sextet_char temp shift = sextet-lookup (temp / 2 ^ shift % 2 ^ 6) (omega arith)

push_sextet-eq : (temp v : ℕ) → v < 64 → push_sextet temp v ≡ temp % 2 ^ 26 * 64 + v
unfolding push_sextet
push_sextet-eq temp v h =
    let shifted : temp * 2 ^ 6 % 2 ^ 32 ≡ temp % 2 ^ 26 * 2 ^ 6 = omega arith in
    rw shifted (or-shift 6 (temp % 2 ^ 26) v h)

-- The accumulator after two, three and four characters; older bits stay above bit 24.
push_two : ℕ → ℕ → ℕ → ℕ
push_two temp v w = push_sextet (push_sextet temp v) w

push_three : ℕ → ℕ → ℕ → ℕ → ℕ
push_three temp v w x = push_sextet (push_two temp v w) x

push_four : ℕ → ℕ → ℕ → ℕ → ℕ → ℕ
push_four temp v w x y = push_sextet (push_three temp v w x) y

push_two-mod : (temp v w : ℕ) → v < 64 → w < 64 → push_two temp v w % 2 ^ 12 ≡ v * 64 + w
unfolding push_two
push_two-mod temp v w hv hw =
    omega (arith, push_sextet-eq temp v hv, push_sextet-eq (push_sextet temp v) w hw)

push_three-mod :
    (temp v w x : ℕ)
    → v < 64
    → w < 64
    → x < 64
    → push_three temp v w x % 2 ^ 18 ≡ v * 2 ^ 12 + w * 2 ^ 6 + x
unfolding push_three
push_three-mod temp v w x hv hw hx =
    omega (arith, push_two-mod temp v w hv hw, push_sextet-eq (push_two temp v w) x hx)

push_four-mod :
    (temp v w x y : ℕ)
    → v < 64
    → w < 64
    → x < 64
    → y < 64
    → push_four temp v w x y % 2 ^ 24 ≡ v * 2 ^ 18 + w * 2 ^ 12 + x * 2 ^ 6 + y
unfolding push_four
push_four-mod temp v w x y hv hw hx hy =
    omega (arith, push_three-mod temp v w x hv hw hx, push_sextet-eq (push_three temp v w x) y hy)

-- One round of the loop on a character of the alphabet.
read_char :
    (padding : ℕ) (buffer : List ℕ) (temp quantum : ℕ) (out : List ℕ) (ch v : ℕ) (chs : List ℕ)
    → sextet ch ≡ some v
    → to_bytes_loop padding buffer temp quantum out (ch ∷ chs)
      ≡ to_bytes_loop padding buffer
          (push_sextet temp v)
          (on_sextet (push_sextet temp v) quantum out).0
          (on_sextet (push_sextet temp v) quantum out).1
          chs
unfolding to_bytes_loop
read_char padding buffer temp quantum out ch v chs e = rw (e, to_bytes_loop)

module _ (padding : ℕ) (buffer : List ℕ) (temp : ℕ) (out : List ℕ)
    (c1 c2 c3 c4 s1 s2 s3 s4 : ℕ) where
  read_four :
      (chs : List ℕ)
      → sextet c1 ≡ some s1
      → sextet c2 ≡ some s2
      → sextet c3 ≡ some s3
      → sextet c4 ≡ some s4
      → let t = push_four temp s1 s2 s3 s4 in
        to_bytes_loop padding buffer temp 0 out (c1 ∷ c2 ∷ c3 ∷ c4 ∷ chs)
        ≡ to_bytes_loop padding buffer t 0
            (out ++ (byte_at t 16 ∷ byte_at t 8 ∷ byte_at t 0 ∷ []))
            chs
  unfolding on_sextet push_four push_three push_two
  read_four chs e1 e2 e3 e4 =
      read_char padding buffer temp 0 out c1 s1 (c2 ∷ c3 ∷ c4 ∷ chs) e1
      ∙ read_char padding buffer (push_sextet temp s1) 1 out c2 s2 (c3 ∷ c4 ∷ chs) e2
      ∙ read_char padding buffer (push_two temp s1 s2) 2 out c3 s3 (c4 ∷ chs) e3
      ∙ read_char padding buffer (push_three temp s1 s2 s3) 3 out c4 s4 chs e4

-- Four characters of a round bring its three bytes back.
bytes_back :
    (temp a b c : ℕ)
    → a < 256
    → b < 256
    → c < 256
    → let s = λ (i : ℕ). join_bytes a b c / 2 ^ i % 2 ^ 6 in
      let t = push_four temp (s 18) (s 12) (s 6) (s 0) in
      (byte_at t 16 ≡ a) × (byte_at t 8 ≡ b) × (byte_at t 0 ≡ c)
bytes_back temp a b c ha hb hc =
    let s = λ (i : ℕ). join_bytes a b c / 2 ^ i % 2 ^ 6 in
    let low =
      push_four-mod temp (s 18) (s 12) (s 6) (s 0) (omega arith) (omega arith) (omega arith)
        (omega arith) in
    (omega (arith, low), omega (arith, low), omega (arith, low))

read_group :
    (padding : ℕ) (buffer : List ℕ) (temp : ℕ) (out : List ℕ) (a b c : ℕ) (rest : List ℕ)
    → a < 256
    → b < 256
    → c < 256
    → (t : ℕ) × (to_bytes_loop padding buffer temp 0 out (from_bytes (a ∷ b ∷ c ∷ rest))
        ≡ to_bytes_loop padding buffer t 0 (out ++ (a ∷ b ∷ c ∷ [])) (from_bytes rest))
unfolding from_bytes
read_group padding buffer temp out a b c rest ha hb hc =
    let T = join_bytes a b c in
    let s = λ (i : ℕ). T / 2 ^ i % 2 ^ 6 in
    let t = push_four temp (s 18) (s 12) (s 6) (s 0) in
    let (ea, eb, ec) = bytes_back temp a b c ha hb hc in
    (
      t,
      read_four padding buffer temp out (sextet_char T 18) (sextet_char T 12) (sextet_char T 6)
            (sextet_char T 0) (s 18) (s 12) (s 6) (s 0) (from_bytes rest) (sextet-sextet_char T 18)
            (sextet-sextet_char T 12) (sextet-sextet_char T 6) (sextet-sextet_char T 0)
          ∙ ap (λ (x : List ℕ). to_bytes_loop padding buffer t 0 (out ++ x) (from_bytes rest))
              (cc (ea, eb, ec)),
    )

read_pad :
    (padding : ℕ) (buffer : List ℕ) (temp quantum : ℕ) (out chs : List ℕ)
    → to_bytes_loop padding buffer temp quantum out (pad_character ∷ chs)
      ≡ on_pad padding (temp * 2 ^ 6 % 2 ^ 32) out buffer
unfolding to_bytes_loop sextet
read_pad padding buffer temp quantum out chs = refl

read_one_left :
    (buffer : List ℕ) (temp : ℕ) (out : List ℕ) (a : ℕ)
    → a < 256
    → to_bytes_loop 2 buffer temp 0 out (from_bytes (a ∷ []))
      ≡ value (fill (out ++ (a ∷ [])) buffer)
unfolding from_bytes on_sextet on_pad push_two
read_one_left buffer temp out a ha =
    let T = a * 2 ^ 16 in
    let s = λ (i : ℕ). T / 2 ^ i % 2 ^ 6 in
    let low = push_two-mod temp (s 18) (s 12) (omega arith) (omega arith) in
    read_char 2 buffer temp 0 out (sextet_char T 18) (s 18)
      (sextet_char T 12 ∷ pad_character ∷ pad_character ∷ []) (sextet-sextet_char T 18)
    ∙ read_char 2 buffer (push_sextet temp (s 18)) 1 out (sextet_char T 12) (s 12)
        (pad_character ∷ pad_character ∷ []) (sextet-sextet_char T 12)
    ∙ read_pad 2 buffer (push_two temp (s 18) (s 12)) 2 out (pad_character ∷ [])
    ∙ ap (λ (x : ℕ). value (fill (out ++ (x ∷ [])) buffer)) (omega (arith, low))

read_two_left :
    (buffer : List ℕ) (temp : ℕ) (out : List ℕ) (a b : ℕ)
    → a < 256
    → b < 256
    → to_bytes_loop 1 buffer temp 0 out (from_bytes (a ∷ b ∷ []))
      ≡ value (fill (out ++ (a ∷ b ∷ [])) buffer)
unfolding from_bytes on_sextet on_pad push_three push_two
read_two_left buffer temp out a b ha hb =
    let T = a * 2 ^ 16 + b * 2 ^ 8 in
    let s = λ (i : ℕ). T / 2 ^ i % 2 ^ 6 in
    let low = push_three-mod temp (s 18) (s 12) (s 6) (omega arith) (omega arith) (omega arith) in
    read_char 1 buffer temp 0 out (sextet_char T 18) (s 18)
      (sextet_char T 12 ∷ sextet_char T 6 ∷ pad_character ∷ []) (sextet-sextet_char T 18)
    ∙ read_char 1 buffer (push_sextet temp (s 18)) 1 out (sextet_char T 12) (s 12)
        (sextet_char T 6 ∷ pad_character ∷ []) (sextet-sextet_char T 12)
    ∙ read_char 1 buffer (push_two temp (s 18) (s 12)) 2 out (sextet_char T 6) (s 6)
        (pad_character ∷ []) (sextet-sextet_char T 6)
    ∙ read_pad 1 buffer (push_three temp (s 18) (s 12) (s 6)) 3 out []
    ∙ ap₂ (λ (x y : ℕ). value (fill (out ++ (x ∷ y ∷ [])) buffer)) (omega (arith, low))
        (omega (arith, low))

-- The pad characters that `from_bytes` writes.
unfoldable pub pad_count : List ℕ → ℕ
pad_count [] = 0
pad_count (a ∷ []) = 2
pad_count (a ∷ b ∷ []) = 1
pad_count (a ∷ b ∷ c ∷ rest) = pad_count rest

pub to_bytes_loop-from_bytes :
    (buffer : List ℕ) (temp : ℕ) (out bs : List ℕ)
    → All (λ b. b < 256) bs
    → to_bytes_loop (pad_count bs) buffer temp 0 out (from_bytes bs)
      ≡ value (fill (out ++ bs) buffer)
unfolding pad_count
to_bytes_loop-from_bytes buffer temp out [] h =
    rw (append-nil out) (unfold from_bytes to_bytes_loop in refl)
to_bytes_loop-from_bytes buffer temp out (a ∷ []) h = read_one_left buffer temp out a h.0
to_bytes_loop-from_bytes buffer temp out (a ∷ b ∷ []) h =
    read_two_left buffer temp out a b h.0 h.1.0
to_bytes_loop-from_bytes buffer temp out (a ∷ b ∷ c ∷ rest) h =
    let (t, e) = read_group (pad_count rest) buffer temp out a b c rest h.0 h.1.0 h.1.1.0 in
    e
    ∙ to_bytes_loop-from_bytes buffer t (out ++ (a ∷ b ∷ c ∷ [])) rest h.1.1.1
    ∙ ap (λ (x : List ℕ). value (fill x buffer)) (append_assoc out (a ∷ b ∷ c ∷ []) rest)
