-- ===== src/Dht/Protocol/Acknowledge/Missing.antt =====
-- What is missing at the receiver, and how the loops of `process_acknowledgment` of
-- libs_server/vds_dht_network/impl/dht_datagram_protocol.cpp find it.
use Prim.Native.Nat.{bit_and}
use vds.Common.{
  ℕ, zero, suc, ◌+◌, ◌*◌, ◌/◌, ◌%◌, ◌^◌, ◌≤◌, ◌≡◌, refl, sym, ap, ◌∙◌, arith, List, [], ◌∷◌, Option,
  none, some, Bool, true, false, ltb, leb, ◌==◌, if◌then◌else◌, ◌⊎◌, inl, inr,
}
use vds.Common.Bits.{and-one}
use vds.Dht.Protocol.Table.{find, Above, Sorted}
use vds.Dht.Protocol.Send.{write_found}
use vds.Dht.Protocol.Receive.{next_index}
use vds.Dht.Protocol.Acknowledge.{is_missing, erase_below, resend}
use vds.Dht.Protocol.Acknowledge.Mask.{bits}

-- The entries whose keys are not below the index, wherever they stand.
abbrev pub not_below : ℕ → List (ℕ × List ℕ) → List (ℕ × List ℕ)
not_below last [] = []
not_below last (e ∷ es) = let rest = not_below last es in if leb last e.0 then e ∷ rest else rest

-- Of the `n` indices behind `last + i`, those at which nothing has come.
abbrev pub unless_found : Option (List ℕ) → ℕ → List ℕ → List ℕ
unless_found (some d) index rest = rest
unless_found none index rest = index ∷ rest

abbrev pub missing_behind : List (ℕ × List ℕ) → ℕ → ℕ → ℕ → List ℕ
missing_behind input last i zero = []
missing_behind input last i (suc n) =
    let index = (last + (i + 1)) % 2 ^ 32 in
    unless_found (find index input) index (missing_behind input last (i + 1) n)

-- The entries at these indices, as far as there are any.
abbrev pub with_entry : ℕ → Option (List ℕ) → List (ℕ × List ℕ) → List (ℕ × List ℕ)
with_entry index none rest = rest
with_entry index (some d) rest = (index, d) ∷ rest

abbrev pub entries_at : List ℕ → List (ℕ × List ℕ) → List (ℕ × List ℕ)
entries_at [] output = []
entries_at (index ∷ indices) output =
    with_entry index (find index output) (entries_at indices output)

-- The datagrams in front of the first one whose write fails, and whether there is no such one.
abbrev pub written_until : (ℕ → Bool) → List (ℕ × List ℕ) → List (List ℕ) × Bool
written_until writes [] = ([], true)
written_until writes (e ∷ es) =
    let rest = written_until writes es in if writes e.0 then (e.1 ∷ rest.0, rest.1) else ([], false)

not_below-Above :
    (last k : ℕ) (es : List (ℕ × List ℕ)) → last ≤ k → Above k es → not_below last es ≡ es
not_below-Above last k [] le a = refl
not_below-Above last k (e ∷ es) le a =
    rw (above last e.0 (omega (arith, le, a.0)))
      (ap (◌∷◌ e) (not_below-Above last e.0 es (omega (arith, le, a.0)) a.1))
  where
    above : (m n : ℕ) → m ≤ n → leb m n ≡ true
    above m n le = ground arith

pub erase_below-not_below :
    (last : ℕ) (es : List (ℕ × List ℕ)) → Sorted es → erase_below last es ≡ not_below last es
unfolding erase_below
erase_below-not_below last [] s = refl
erase_below-not_below last (e ∷ es) s =
    either (ltb e.0 last) refl (erase_below-not_below last es (rest_Sorted e.0 es s))
  where
    rest_Sorted : (k : ℕ) (es : List (ℕ × List ℕ)) → Above k es → Sorted es
    rest_Sorted k [] a = tt
    rest_Sorted k (x ∷ es) a = a.1

    less : (m n : ℕ) → ltb n m ≡ true → leb m n ≡ false
    less m n e = ground arith

    not_less : (m n : ℕ) → ltb n m ≡ false → (leb m n ≡ true) × (m ≤ n)
    not_less m n e = (ground arith, ground arith)

    either :
        (b : Bool)
        → ltb e.0 last ≡ b
        → erase_below last es ≡ not_below last es
        → (if b then erase_below last es else e ∷ es)
          ≡ (if leb last e.0 then e ∷ not_below last es else not_below last es)
    either true f ih = rw (less last e.0 f) ih
    either false f ih =
        let (test, le) = not_less last e.0 f in
        rw (test) (ap (◌∷◌ e) (sym (not_below-Above last e.0 es le s)))

pub write_found-with_entry :
    (writes : ℕ → Bool) (index : ℕ) (o : Option (List ℕ)) (es : List (ℕ × List ℕ))
    → write_found writes index o (written_until writes es)
      ≡ written_until writes (with_entry index o es)
write_found-with_entry writes index none es = refl
write_found-with_entry writes index (some d) es = refl

resend-nothing :
    (writes : ℕ → Bool) (output : List (ℕ × List ℕ)) (last n i : ℕ)
    → resend writes output last n i 0 ≡ ([], true)
unfolding resend
resend-nothing writes output last zero i = refl
resend-nothing writes output last (suc n) i = refl

-- The bits that are read are the indices at which nothing has come.
pub resend-missing_behind :
    (writes : ℕ → Bool) (input output : List (ℕ × List ℕ)) (last n i : ℕ)
    → resend writes output last n i (bits input last (i + 1) n)
      ≡ written_until writes (entries_at (missing_behind input last i n) output)
unfolding resend is_missing
resend-missing_behind writes input output last zero i = refl
resend-missing_behind writes input output last (suc n) i =
    first (is_missing input (next_index last (i + 1))) (find (next_index last (i + 1)) input)
      (bits input last (i + 1 + 1) n) (is_bit (find (next_index last (i + 1)) input) refl)
      (resend-missing_behind writes input output last n (i + 1))
  where
    is_bit :
        (o : Option (List ℕ))
        → find (next_index last (i + 1)) input ≡ o
        → ((is_missing input (next_index last (i + 1)) ≡ 1) × (o ≡ none))
          ⊎ ((is_missing input (next_index last (i + 1)) ≡ 0) × ((d : List ℕ) × (o ≡ some d)))
    is_bit none e = inl (rw (e, is_missing) refl, refl)
    is_bit (some d) e = inr (rw (e, is_missing) refl, (d, refl))

    first :
        (b : ℕ) (o : Option (List ℕ)) (m : ℕ)
        → ((b ≡ 1) × (o ≡ none)) ⊎ ((b ≡ 0) × ((d : List ℕ) × (o ≡ some d)))
        → resend writes output last n (i + 1) m
          ≡ written_until writes (entries_at (missing_behind input last (i + 1) n) output)
        → (if b + 2 * m == 0
            then ([], true)
            else (if bit_and (b + 2 * m) 1 == 1
                then write_found writes
                    (next_index last (i + 1))
                    (find (next_index last (i + 1)) output)
                    (resend writes output last n (i + 1) ((b + 2 * m) / 2))
                else resend writes output last n (i + 1) ((b + 2 * m) / 2)))
          ≡ written_until writes (
              entries_at
                (unless_found o (next_index last (i + 1)) (missing_behind input last (i + 1) n))
                output)
    first b o m (inl (eb, eo)) ih =
        let some_bit : (b + 2 * m == 0) ≡ false = ground (arith, eb) in
        let low : (bit_and (b + 2 * m) 1 == 1) ≡ true = ground (arith, eb, and-one (b + 2 * m)) in
        let half : (b + 2 * m) / 2 ≡ m = omega (arith, eb) in
        rw (some_bit, low)
          (rw (half, eo)
            (rw ih (
              write_found-with_entry writes (next_index last (i + 1))
                (find (next_index last (i + 1)) output)
                (entries_at (missing_behind input last (i + 1) n) output))))
    first b o zero (inr (eb, (d, eo))) ih =
        rw (eb, eo) (sym (resend-nothing writes output last n (i + 1)) ∙ ih)
    first b o (suc m) (inr (eb, (d, eo))) ih =
        let some_bit : (b + 2 * suc m == 0) ≡ false = ground (arith, eb) in
        let low : (bit_and (b + 2 * suc m) 1 == 1) ≡ false =
          ground (arith, eb, and-one (b + 2 * suc m)) in
        let half : (b + 2 * suc m) / 2 ≡ suc m = omega (arith, eb) in
        rw (some_bit, low) (rw (half, eo) ih)
