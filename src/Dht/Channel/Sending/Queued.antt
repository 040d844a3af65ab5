-- ===== src/Dht/Channel/Sending/Queued.antt =====
-- The queue of `prepare_to_send` of libs_server/vds_dht_network/impl/dht_datagram_protocol.cpp.
use vds.Common.{
  ℕ, ◌+◌, ◌%◌, ◌^◌, ◌≤◌, ◌<◌, ◌≡◌, refl, sym, ap, ◌∙◌, subst, arith, List, [], ◌∷◌, Option, none,
  some, Bool, true, false, ◌==◌, if◌then◌else◌, length, get_elem?, ◌⊎◌, inl, inr,
}
use mathlib.Core.Option.{some-injective}
use vds.Dht.Protocol.Table.{find, emplace, Entries-emplace, find-emplace}
use vds.Dht.Protocol.Send.{queue, write_found, sent_from}
use vds.Dht.Channel.InStep.{Kept, Stands, Stands-head, Stands-tail}

-- No entry stands at the index or behind it.
abbrev pub Free : List (ℕ × List ℕ) → ℕ → Type 0
Free output index = (k : ℕ) → index ≤ k → find k output ≡ none

Free-emplace :
    (output : List (ℕ × List ℕ)) (index : ℕ) (x : List ℕ)
    → Free output index
    → Free (emplace index x output) (index + 1)
Free-emplace output index x free k le =
    let other : (k == index) ≡ false = differs k index le in
    find-emplace k index x output (free index (omega arith)) ∙ rw other (free k (omega arith))
  where
    differs : (k i : ℕ) → i + 1 ≤ k → (k == i) ≡ false
    differs k i le = ground arith

find-queue :
    (output : List (ℕ × List ℕ)) (j index : ℕ) (xs : List (List ℕ))
    → j < index
    → index + length xs < 2 ^ 32
    → Free output index
    → find j (queue index xs output) ≡ find j output
unfolding queue
find-queue output j index [] lt fits free = refl
find-queue output j index (x ∷ xs) lt fits free =
    let next : (index + 1) % 2 ^ 32 ≡ index + 1 = omega arith in
    let other : (j == index) ≡ false = differs j index lt in
    ap (λ (k : ℕ). find j (queue k xs (emplace index x output))) next
    ∙ find-queue (emplace index x output) j (index + 1) xs (omega arith) (omega arith)
        (Free-emplace output index x free)
    ∙ find-emplace j index x output (free index (omega arith))
    ∙ rw other refl
  where
    differs : (k i : ℕ) → k < i → (k == i) ≡ false
    differs k i le = ground arith

-- Either a write has failed, or all of these datagrams have been written.
abbrev pub Wrote : List (List ℕ) → List (List ℕ) × Bool → Type 0
Wrote xs r = (r.1 ≡ false) ⊎ (r.0 ≡ xs)

-- What has been queued is written, unless a write fails.
pub sent_from-queue :
    (writes : ℕ → Bool) (output : List (ℕ × List ℕ)) (index : ℕ) (xs : List (List ℕ))
    → index + length xs < 2 ^ 32
    → Free output index
    → Wrote xs (sent_from writes index (length xs) (queue index xs output))
unfolding queue sent_from
sent_from-queue writes output index [] fits free = inr refl
sent_from-queue writes output index (x ∷ xs) fits free =
    let next : (index + 1) % 2 ^ 32 ≡ index + 1 = omega arith in
    let out = emplace index x output in
    let here : find index (queue (index + 1) xs out) ≡ some x =
      find-queue out index (index + 1) xs (omega arith) (omega arith)
        (Free-emplace output index x free)
      ∙ find-emplace index index x output (free index (omega arith))
      ∙ itself index in
    subst
      (λ (k : ℕ). Wrote (x ∷ xs) (
        write_found writes index (find index (queue k xs out))
          (sent_from writes (index + 1) (length xs) (queue k xs out))))
      (sym next)
      (first (find index (queue (index + 1) xs out))
        (sent_from writes (index + 1) (length xs) (queue (index + 1) xs out)) here
        (sent_from-queue writes out (index + 1) xs (omega arith)
          (Free-emplace output index x free)))
  where
    itself : (k : ℕ) → (if k == k then some x else find k output) ≡ some x
    itself k = let e : (k == k) ≡ true = ground arith in rw e refl

    written :
        (rest : List (List ℕ) × Bool) (b : Bool)
        → Wrote xs rest
        → Wrote (x ∷ xs) (if b then (x ∷ rest.0, rest.1) else ([], false))
    written rest true (inl e) = inl e
    written rest true (inr e) = inr (ap (◌∷◌ x) e)
    written rest false e = inl refl

    first :
        (o : Option (List ℕ)) (rest : List (List ℕ) × Bool)
        → o ≡ some x
        → Wrote xs rest
        → Wrote (x ∷ xs) (write_found writes index o rest)
    first none rest e w = cc
    first (some d) rest e w =
        subst (λ (y : List ℕ). Wrote (x ∷ xs) (write_found writes index (some y) rest))
          (some-injective x d (sym e)) (written rest (writes index) w)

pub Kept-queue :
    (ds : List (List ℕ)) (output : List (ℕ × List ℕ)) (index : ℕ) (xs : List (List ℕ))
    → index + length xs < 2 ^ 32
    → Kept ds output
    → Stands ds index xs
    → Kept ds (queue index xs output)
unfolding queue
Kept-queue ds output index [] fits kept stands = kept
Kept-queue ds output index (x ∷ xs) fits kept stands =
    let next : (index + 1) % 2 ^ 32 ≡ index + 1 = omega arith in
    subst (λ (k : ℕ). Kept ds (queue k xs (emplace index x output))) (sym next)
      (Kept-queue ds (emplace index x output) (index + 1) xs (omega arith)
        (Entries-emplace (λ k d. get_elem? ds k ≡ some d) index x output
          (Stands-head ds index x xs stands) kept)
        (Stands-tail ds index x xs stands))
