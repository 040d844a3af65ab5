-- ===== src/Dht/Channel/Frames.antt =====
-- Every datagram of the sender (libs_server/vds_dht_network/impl/dht_datagram_protocol.cpp) passes the tests of the
-- receiver and carries its index.
use Prim.Native.Nat.{bit_or}
use vds.Common.{
  ℕ, zero, suc, ◌+◌, ◌-◌, ◌%◌, ◌^◌, ◌≤◌, ◌<◌, ◌≡◌, refl, sym, ap, subst, arith, List, [], ◌∷◌, ◌++◌,
  Option, none, some, Bool, true, false, not, ◌&&◌, ltb, leb, ◌==◌, if◌then◌else◌, length,
  length-append, take, drop, take-append, drop-append, get_or, get_elem?, All, inl, inr,
  passes_below, passes_below→passes,
}
use mathlib.Core.Option.{some-injective}
use vds.Dht.Protocol.{
  Hmac, read32, be32, sign, continue_data, mtu_test, acknowledgment, single_data, many_data,
  route_single_data, route_data, proxy_single_data, proxy_data,
}
use vds.Dht.Protocol.Receive.{is_data}
use vds.Dht.Protocol.Send.{
  Way, direct, routed, proxied, way_of, way_size, single_code, many_code, continued,
}
use vds.Dht.Channel.{Outgoing, datagrams_of, IsSendable, all_datagrams}
use vds.Dht.Channel.Header.{read32-be32, length-sign}
use vds.Dht.Channel.Messages.{datagrams-Datagrams}

-- A code of a datagram that carries data.
abbrev carries : ℕ → Bool
carries code = is_data code && not (code == mtu_test) && not (code == acknowledgment)

pub record Framed (h : Hmac) (k : ℕ) (d : List ℕ) : Type 0 where
  pub long : 33 ≤ length d
  pub data_code : is_data (get_or d 0 0) ≡ true
  pub not_test : (get_or d 0 0 == mtu_test) ≡ false
  pub not_ack : (get_or d 0 0 == acknowledgment) ≡ false
  pub verified : h.verify (take (length d - 32) d) (drop (length d - 32) d) ≡ true
  pub index_read : read32 (get_or d 1 0) (get_or d 2 0) (get_or d 3 0) (get_or d 4 0) ≡ k

parts_of : (a b c : Bool) → (a && not b && not c) ≡ true → (a ≡ true) × ((b ≡ false) × (c ≡ false))
parts_of true false false h = (refl, (refl, refl))
parts_of true false true h = cc
parts_of true true false h = cc
parts_of true true true h = cc
parts_of false b c h = ground arith

sign-Framed :
    (h : Hmac) (code k : ℕ) (rest : List ℕ)
    → carries code ≡ true
    → k < 2 ^ 32
    → Framed h k (sign h (code ∷ (be32 k ++ rest)))
unfolding sign
sign-Framed h code k rest ok small =
    let bytes = code ∷ (be32 k ++ rest) in
    let c = parts_of (is_data code) (code == mtu_test) (code == acknowledgment) ok in
    let n = length-sign h bytes in
    let m : length (bytes ++ h.signature bytes) - 32 ≡ length bytes = omega (arith, n) in
    record {
      long = omega (arith, n);
      data_code = c.0;
      not_test = c.1.0;
      not_ack = c.1.1;
      verified =
          rw (m, take-append bytes (h.signature bytes), drop-append bytes (h.signature bytes))
            (h.verify-signature bytes);
      index_read = read32-be32 k small;
    }

carried :
    (kind : ℕ)
    → passes_below (λ t. carries (bit_or kind t)) 32 ≡ true
    → (t : ℕ) → t < 32
    → carries (bit_or kind t) ≡ true
carried kind all t h = passes_below→passes (λ t. carries (bit_or kind t)) 32 all t h

single_carries : (way : Way) (t : ℕ) → t < 32 → carries (bit_or (single_code way) t) ≡ true
unfolding passes_below
single_carries direct = carried single_data refl
single_carries routed = carried route_single_data refl
single_carries proxied = carried proxy_single_data refl

many_carries : (way : Way) (t : ℕ) → t < 32 → carries (bit_or (many_code way) t) ≡ true
unfolding passes_below
many_carries direct = carried many_data refl
many_carries routed = carried route_data refl
many_carries proxied = carried proxy_data refl

-- Each datagram carries its index, from this one on.
abbrev pub AllFramed : Hmac → ℕ → List (List ℕ) → Type 0
AllFramed h k [] = Unit {0}
AllFramed h k (d ∷ ds) = Framed h k d × AllFramed h (k + 1) ds

AllFramed-append :
    (h : Hmac) (k : ℕ) (xs ys : List (List ℕ))
    → AllFramed h k xs
    → AllFramed h (k + length xs) ys
    → AllFramed h k (xs ++ ys)
AllFramed-append h k [] ys hx hy = subst (λ (j : ℕ). AllFramed h j ys) (omega arith) hy
AllFramed-append h k (x ∷ xs) ys hx hy = (
  hx.0,
  AllFramed-append h (k + 1) xs ys hx.1 (subst (λ (j : ℕ). AllFramed h j ys) (omega arith) hy),
)

continued_frame :
    (h : Hmac) (k : ℕ) (body : List ℕ) (last : Bool) (more : List (List ℕ))
    → k + suc (length (if last then [] else more)) < 2 ^ 32
    → (k + 1 + length more < 2 ^ 32 → AllFramed h (k + 1) more)
    → AllFramed h k (sign h (continue_data ∷ (be32 k ++ body)) ∷ (if last then [] else more))
continued_frame h k body true more fits framed =
    (sign-Framed h continue_data k body refl (omega arith), tt)
continued_frame h k body false more fits framed =
    (sign-Framed h continue_data k body refl (omega arith), framed (omega arith))

continued-AllFramed :
    (h : Hmac) (mtu fuel k : ℕ) (rest : List ℕ)
    → k + length (continued h mtu fuel k rest) < 2 ^ 32
    → AllFramed h k (continued h mtu fuel k rest)
unfolding continued
continued-AllFramed h mtu zero k rest fits = tt
continued-AllFramed h mtu (suc fuel) k rest fits =
    let size : ℕ =
      if ltb (length rest) (mtu - (1 + 4 + 32)) then length rest else mtu - (1 + 4 + 32) in
    continued_frame h k (take size rest) (leb (length rest) size)
      (continued h mtu fuel ((k + 1) % 2 ^ 32) (drop size rest)) fits
      λ below.
        let next : (k + 1) % 2 ^ 32 ≡ k + 1 = omega (arith, below) in
        subst (λ (j : ℕ). AllFramed h j (continued h mtu fuel ((k + 1) % 2 ^ 32) (drop size rest)))
          next
          (continued-AllFramed h mtu fuel ((k + 1) % 2 ^ 32) (drop size rest)
            (omega (arith, below, next)))

pub datagrams_of-AllFramed :
    (h : Hmac) (partner : List ℕ) (mtu k : ℕ) (o : Outgoing) (ds : List (List ℕ))
    → datagrams_of h partner mtu k o ≡ some ds
    → IsSendable o
    → k + length ds < 2 ^ 32
    → AllFramed h k ds
datagrams_of-AllFramed h partner mtu k o ds e ok fits =
    let way = way_of partner o.target_node o.hops in
    elim (datagrams-Datagrams h mtu k o.message_type way o.target_node o.hops o.body ds e) [
      | inl whole ↦ subst (AllFramed h k) (sym whole.1) (
        sign-Framed h (bit_or (single_code way) o.message_type) k _
            (single_carries way o.message_type ok.small_type)
            (omega (arith, ap (λ (xs : List (List ℕ)). length xs) whole.1)),
        tt,
      )
      | inr pieces ↦
          let n = subst (λ (xs : List (List ℕ)). k + length xs < 2 ^ 32) pieces.2 fits in
          let next : (k + 1) % 2 ^ 32 ≡ k + 1 = omega (arith, n) in
          let room = mtu - (41 + way_size way o.hops) in
          let rest = continued h mtu (suc (length o.body)) ((k + 1) % 2 ^ 32) (drop room o.body) in
          subst (AllFramed h k) (sym pieces.2) (
            sign-Framed h (bit_or (many_code way) o.message_type) k _
                (many_carries way o.message_type ok.small_type) (omega (arith, n)),
            subst (λ (j : ℕ). AllFramed h j rest) next
                (continued-AllFramed h mtu (suc (length o.body)) ((k + 1) % 2 ^ 32)
                  (drop room o.body) (omega (arith, n, next))),
          )
    ]

-- What is found in a list of datagrams that carry their indices.
pub get_elem?-Framed :
    (h : Hmac) (k : ℕ) (ds : List (List ℕ)) (j : ℕ) (d : List ℕ)
    → AllFramed h k ds
    → get_elem? ds j ≡ some d
    → Framed h (k + j) d
get_elem?-Framed h k [] j d all e = cc
get_elem?-Framed h k (x ∷ ds) zero d all e =
    subst (λ (i : ℕ). Framed h i d) (omega arith) (subst (Framed h k) (some-injective x d e) all.0)
get_elem?-Framed h k (x ∷ ds) (suc j) d all e =
    subst (λ (i : ℕ). Framed h i d) (omega arith) (get_elem?-Framed h (k + 1) ds j d all.1 e)

calls_cases :
    (h : Hmac) (partner : List ℕ) (k : ℕ) (c : ℕ × Outgoing) (calls : List (ℕ × Outgoing))
    (ds : List (List ℕ)) (first : Option (List (List ℕ)))
    → elim first [
      | none ↦ none
      | some xs ↦ elim (all_datagrams h partner (k + length xs) calls) [
        | none ↦ none
        | some ys ↦ some (xs ++ ys)
      ]
    ]
      ≡ some ds
    → (xs : List (List ℕ)) × (ys : List (List ℕ)) × (first ≡ some xs)
      × (all_datagrams h partner (k + length xs) calls ≡ some ys)
      × (ds ≡ xs ++ ys)
calls_cases h partner k c calls ds none e = cc
calls_cases h partner k c calls ds (some xs) e =
    behind (all_datagrams h partner (k + length xs) calls) refl e
  where
    behind :
        (o : Option (List (List ℕ)))
        → all_datagrams h partner (k + length xs) calls ≡ o
        → elim o [ none ↦ none | some ys ↦ some (xs ++ ys) ] ≡ some ds
        → (xs' : List (List ℕ)) × (ys : List (List ℕ)) × (some xs ≡ some xs')
          × (all_datagrams h partner (k + length xs') calls ≡ some ys)
          × (ds ≡ xs' ++ ys)
    behind none a e = cc
    behind (some ys) a e = (xs, ys, refl, a, sym (some-injective (xs ++ ys) ds e))

-- The datagrams of the first call, and of the others.
pub all_datagrams-cons :
    (h : Hmac) (partner : List ℕ) (k : ℕ) (c : ℕ × Outgoing) (calls : List (ℕ × Outgoing))
    (ds : List (List ℕ))
    → all_datagrams h partner k (c ∷ calls) ≡ some ds
    → (xs : List (List ℕ)) × (ys : List (List ℕ)) × (datagrams_of h partner c.0 k c.1 ≡ some xs)
      × (all_datagrams h partner (k + length xs) calls ≡ some ys)
      × (ds ≡ xs ++ ys)
unfolding all_datagrams
all_datagrams-cons h partner k c calls ds e =
    calls_cases h partner k c calls ds (datagrams_of h partner c.0 k c.1) e

pub all_datagrams-AllFramed :
    (h : Hmac) (partner : List ℕ) (k : ℕ) (calls : List (ℕ × Outgoing)) (ds : List (List ℕ))
    → all_datagrams h partner k calls ≡ some ds
    → All (λ c. IsSendable c.1) calls
    → k + length ds < 2 ^ 32
    → AllFramed h k ds
unfolding all_datagrams
all_datagrams-AllFramed h partner k [] ds e ok fits =
    subst (AllFramed h k) (some-injective [] ds e) tt
all_datagrams-AllFramed h partner k (c ∷ calls) ds e ok fits =
    let (xs, ys, first, others, same) = all_datagrams-cons h partner k c calls ds e in
    let n = subst (λ (zs : List (List ℕ)). k + length zs < 2 ^ 32) same fits in
    let m = length-append xs ys in
    subst (AllFramed h k) (sym same) (
      AllFramed-append h k xs ys
        (datagrams_of-AllFramed h partner c.0 k c.1 xs first ok.0 (omega (arith, n, m)))
        (all_datagrams-AllFramed h partner (k + length xs) calls ys others ok.1
          (omega (arith, n, m))))
