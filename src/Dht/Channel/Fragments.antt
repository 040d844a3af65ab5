-- ===== src/Dht/Channel/Fragments.antt =====
-- The datagrams that go on with a message (libs_server/vds_dht_network/impl/dht_datagram_protocol.cpp): `gather` of
-- the receiver puts together what `continued` of the sender has cut.
use vds.Common.{
  dec_lt, ℕ, zero, suc, ◌+◌, ◌-◌, ◌%◌, ◌^◌, ◌≤◌, ◌<◌, ◌≡◌, refl, sym, ap, ◌∙◌, subst, arith, List,
  [], ◌∷◌, ◌++◌, none, some, ◌⊎◌, inl, inr, true, false, ◌||◌, ltb, leb, ◌==◌, if◌then◌else◌,
  length, length-take, length-drop, take, drop, get_or,
}
use mathlib.Core.Path.{ap₂}
use mathlib.Core.List.{append_assoc}
use vds.Dht.Protocol.{Hmac, be32, sign, continue_data}
use vds.Dht.Protocol.Table.{find}
use vds.Dht.Protocol.Receive.{Step, waits, gather, next_index, payload}
use vds.Dht.Protocol.Send.{continued}
use vds.Dht.Channel.Header.{length-sign, payload-sign}

-- The table has nothing else at the indices from `index` on than these datagrams.
abbrev pub Agrees : List (ℕ × List ℕ) → ℕ → List (List ℕ) → Type 0
Agrees input index [] = Unit {0}
Agrees input index (d ∷ ds) =
    ((find index input ≡ none) ⊎ (find index input ≡ some d)) × Agrees input (index + 1) ds

-- The table has all of these datagrams.
abbrev pub Holds : List (ℕ × List ℕ) → ℕ → List (List ℕ) → Type 0
Holds input index [] = Unit {0}
Holds input index (d ∷ ds) = (find index input ≡ some d) × Holds input (index + 1) ds

pub take-drop : (n : ℕ) (xs : List ℕ) → take n xs ++ drop n xs ≡ xs
take-drop zero xs = refl
take-drop (suc n) [] = refl
take-drop (suc n) (x ∷ xs) = ap (◌∷◌ x) (take-drop n xs)

take_all : (n : ℕ) (xs : List ℕ) → length xs ≤ n → take n xs ≡ xs
take_all zero [] h = refl
take_all zero (x ∷ xs) h = absurd (omega arith)
take_all (suc n) [] h = refl
take_all (suc n) (x ∷ xs) h = ap (◌∷◌ x) (take_all n xs (omega arith))

-- One datagram that goes on with a message.
abbrev piece : Hmac → ℕ → List ℕ → List ℕ
piece h index body = sign h (continue_data ∷ (be32 index ++ body))

length-piece :
    (h : Hmac) (index : ℕ) (body : List ℕ) → length (piece h index body) ≡ 37 + length body
length-piece h index body = omega (arith, length-sign h (continue_data ∷ (be32 index ++ body)))

code-piece :
    (h : Hmac) (index : ℕ) (body : List ℕ) → get_or (piece h index body) 0 0 ≡ continue_data
unfolding sign
code-piece h index body = refl

-- A round of `gather` that finds the datagram with `body`, of which there are at least so many bytes missing.
gather-piece :
    (finish : List ℕ → ℕ → Step) (input : List (ℕ × List ℕ)) (expected fuel k size : ℕ)
    (acc : List ℕ) (h : Hmac) (index : ℕ) (body : List ℕ)
    → find (next_index expected k) input ≡ some (piece h index body)
    → 0 < length body
    → length body ≤ size
    → gather finish input expected (suc fuel) k size acc ≡ (
        if size == length body
        then finish (acc ++ body) (k + 1)
        else gather finish input expected fuel (k + 1) (size - length body) (acc ++ body))
unfolding gather
gather-piece finish input expected fuel k size acc h index body found some_body fits =
    let d = piece h index body in
    let n : length d ≡ 37 + length body = length-piece h index body in
    let n' : length d - 37 ≡ length body = omega (arith, n) in
    let p : payload 5 d ≡ body = payload-sign h (continue_data ∷ be32 index) body in
    let long : (ltb (length d) 37 || ltb size (length d - 37)) ≡ false = ground (arith, n) in
    let more : (length d == 37) ≡ false = ground (arith, n) in
    rw (found, gather) (rw (code-piece h index body) (rw (long, more) (rw (n', p) refl)))

continued_last :
    (h : Hmac) (mtu fuel index : ℕ) (rest : List ℕ)
    → length rest ≤ mtu - 37
    → continued h mtu (suc fuel) index rest ≡ piece h index rest ∷ []
unfolding continued
continued_last h mtu fuel index rest le =
    let size : (if ltb (length rest) (mtu - (1 + 4 + 32)) then length rest else mtu - (1 + 4 + 32))
        ≡ length rest =
      ground arith in
    let all : leb (length rest) (length rest) ≡ true = ground arith in
    rw (size) (rw (all, take_all (length rest) rest (omega arith)) refl)

continued_more :
    (h : Hmac) (mtu fuel index : ℕ) (rest : List ℕ)
    → mtu - 37 < length rest
    → continued h mtu (suc fuel) index rest
      ≡ piece h index (take (mtu - 37) rest)
        ∷ continued h mtu fuel ((index + 1) % 2 ^ 32) (drop (mtu - 37) rest)
unfolding continued
continued_more h mtu fuel index rest lt =
    let size : (if ltb (length rest) (mtu - (1 + 4 + 32)) then length rest else mtu - (1 + 4 + 32))
        ≡ mtu - 37 =
      ground arith in
    let some_left : leb (length rest) (mtu - 37) ≡ false = ground arith in
    rw (size) (rw (some_left) refl)

-- `gather` waits for a datagram that is not there, or puts the rest of the message together.
abbrev pub Gathers :
    (List ℕ → ℕ → Step) → List (ℕ × List ℕ) → ℕ → List (List ℕ) → List ℕ → ℕ → Step → Type 0
Gathers finish input index ds message count step =
    ((step ≡ waits) × ¬ (Holds input index ds)) ⊎ (step ≡ finish message count)

missed :
    (finish : List ℕ → ℕ → Step) (input : List (ℕ × List ℕ)) (expected fuel k size : ℕ)
    (acc : List ℕ)
    → find (next_index expected k) input ≡ none
    → gather finish input expected (suc fuel) k size acc ≡ waits
unfolding gather
missed finish input expected fuel k size acc e = rw (e, gather) refl

next_plain : (i k : ℕ) → i + k < 2 ^ 32 → next_index i k ≡ i + k
next_plain i k h = omega arith

-- `gather` from the `k`-th datagram on comes to the rest of the message, if the datagrams are these.
abbrev pub Ready :
    (List ℕ → ℕ → Step) → List (ℕ × List ℕ) → ℕ → ℕ → ℕ → List ℕ → List ℕ → List (List ℕ) → Type 0
Ready finish input expected fuel k rest acc ds =
    expected + k + length ds < 2 ^ 32
    → Agrees input (expected + k) ds
    → Gathers finish input (expected + k) ds (acc ++ rest) (k + length ds)
        (gather finish input expected fuel k (length rest) acc)

last_round :
    (finish : List ℕ → ℕ → Step) (input : List (ℕ × List ℕ)) (expected fuel k : ℕ)
    (rest acc : List ℕ) (h : Hmac)
    → 0 < length rest
    → Ready finish input expected (suc fuel) k rest acc (piece h (expected + k) rest ∷ [])
last_round finish input expected fuel k rest acc h left fits (inl gone, t) = inl (
  missed finish input expected fuel k (length rest) acc
      (ap (λ (j : ℕ). find j input) (next_plain expected k (omega arith)) ∙ gone),
  λ holds. clash gone holds.0,
)
  where
    clash : {d : List ℕ} → find (expected + k) input ≡ none → find (expected + k) input ≡ some d → ⊥
    clash a b = cc
last_round finish input expected fuel k rest acc h left fits (inr found, t) =
    let e =
      gather-piece finish input expected fuel k (length rest) acc h (expected + k) rest
        (ap (λ (j : ℕ). find j input) (next_plain expected k (omega arith)) ∙ found) left
        (omega arith) in
    let same : (length rest == length rest) ≡ true = ground arith in inr (e ∙ rw same refl)

more_round :
    (finish : List ℕ → ℕ → Step) (input : List (ℕ × List ℕ)) (expected fuel k size : ℕ)
    (rest acc : List ℕ) (h : Hmac) (ds : List (List ℕ))
    → 0 < size
    → size < length rest
    → (expected + (k + 1) < 2 ^ 32
        → Ready finish input expected fuel (k + 1) (drop size rest) (acc ++ take size rest) ds)
    → Ready finish input expected
        (suc fuel)
        k
        rest
        acc
        (piece h (expected + k) (take size rest) ∷ ds)
more_round finish input expected fuel k size rest acc h ds some_size lt ready fits (inl gone, t) =
    inl (
      missed finish input expected fuel k (length rest) acc
          (ap (λ (j : ℕ). find j input) (next_plain expected k (omega arith)) ∙ gone),
      λ holds. clash gone holds.0,
    )
  where
    clash : {d : List ℕ} → find (expected + k) input ≡ none → find (expected + k) input ≡ some d → ⊥
    clash a b = cc
more_round finish input expected fuel k size rest acc h ds some_size lt ready fits (inr found, t) =
    let body = take size rest in
    let n : length body ≡ size = length-take size rest (omega arith) in
    let e =
      gather-piece finish input expected fuel k (length rest) acc h (expected + k) body
        (ap (λ (j : ℕ). find j input) (next_plain expected k (omega arith)) ∙ found)
        (omega (arith, n)) (omega (arith, n)) in
    let more : (length rest == length body) ≡ false = ground (arith, n) in
    let left : length rest - length body ≡ length (drop size rest) =
      omega (arith, n, length-drop size rest) in
    let step : gather finish input expected (suc fuel) k (length rest) acc
        ≡ gather finish input expected fuel (k + 1) (length (drop size rest)) (acc ++ body) =
      e
      ∙ rw more (ap (λ (m : ℕ). gather finish input expected fuel (k + 1) m (acc ++ body)) left) in
    let whole : (acc ++ body) ++ drop size rest ≡ acc ++ rest =
      append_assoc acc body (drop size rest) ∙ ap (◌++◌ acc) (take-drop size rest) in
    let agrees : Agrees input (expected + (k + 1)) ds =
      subst (λ (j : ℕ). Agrees input j ds) (omega arith) t in
    elim (ready (omega arith) (omega arith) agrees) [
      | inl stop ↦ inl (
        step ∙ stop.0,
        λ holds. stop.1 (subst (λ (j : ℕ). Holds input j ds) (omega arith) holds.1),
      )
      | inr fin ↦ inr (step ∙ fin ∙ ap₂ finish whole (omega arith))
    ]

pub gather-continued :
    (finish : List ℕ → ℕ → Step) (input : List (ℕ × List ℕ)) (expected : ℕ) (h : Hmac) (mtu : ℕ)
    (cuts fuel k : ℕ) (rest acc : List ℕ)
    → 37 < mtu
    → 0 < length rest
    → length rest ≤ cuts
    → length rest < fuel
    → Ready finish input expected fuel k rest acc (continued h mtu cuts (expected + k) rest)
gather-continued finish input expected h mtu zero fuel k rest acc big left cut enough =
    absurd (omega arith)
gather-continued finish input expected h mtu (suc cuts) zero k rest acc big left cut enough =
    absurd (omega arith)
gather-continued finish input expected h mtu (suc cuts) (suc fuel) k rest acc big left cut enough =
    elim (dec_lt (mtu - 37) (length rest)) [
      | no le ↦
          subst (Ready finish input expected (suc fuel) k rest acc)
            (sym (continued_last h mtu cuts (expected + k) rest (omega arith)))
            (last_round finish input expected fuel k rest acc h left)
      | yes lt ↦
          let n = length-drop (mtu - 37) rest in
          subst (Ready finish input expected (suc fuel) k rest acc)
            (sym (continued_more h mtu cuts (expected + k) rest lt))
            (more_round finish input expected fuel k (mtu - 37) rest acc h _ (omega arith) lt
              λ below.
                subst
                  (λ (j : ℕ).
                    Ready finish input expected fuel (k + 1) (drop (mtu - 37) rest)
                      (acc ++ take (mtu - 37) rest) (continued h mtu cuts j (drop (mtu - 37) rest)))
                  (omega arith)
                  (gather-continued finish input expected h mtu cuts fuel (k + 1)
                    (drop (mtu - 37) rest) (acc ++ take (mtu - 37) rest) big (omega (arith, n))
                    (omega (arith, n)) (omega (arith, n))))
    ]
