-- ===== src/Dht/Channel/InStep.antt =====
-- What the receiver of libs_server/vds_dht_network/impl/dht_datagram_protocol.cpp has of what the sender has sent.
use vds.Common.{
  ℕ, zero, suc, ◌+◌, ◌≤◌, ◌<◌, ◌≡◌, refl, sym, ap, ◌∙◌, subst, arith, List, [], ◌∷◌, ◌++◌, Option,
  none, some, length, length-append, get_elem?, ◌⊎◌, inl, inr,
}
use mathlib.Core.List.{append-nil}
use mathlib.Core.Option.{some-injective}
use vds.Dht.Protocol.{Hmac, Message}
use vds.Dht.Protocol.Table.{find, Sorted, Entries, find-Entries}
use vds.Dht.Protocol.Send.{way_of}
use vds.Dht.Channel.{Outgoing, datagrams_of, inbound, IsSendable, IsReadable, all_datagrams}
use vds.Dht.Channel.Fragments.{Agrees, Holds}
use vds.Dht.Channel.Messages.{HasRoom, datagrams-Datagrams}
use vds.Dht.Channel.Frames.{all_datagrams-cons}

-- The messages of the calls, as they are handed on.
abbrev pub inbound_all : List ℕ → List (ℕ × Outgoing) → List Message
inbound_all sender [] = []
inbound_all sender (c ∷ calls) = inbound sender c.1 ∷ inbound_all sender calls

pub inbound_all-append :
    (sender : List ℕ) (xs ys : List (ℕ × Outgoing))
    → inbound_all sender (xs ++ ys) ≡ inbound_all sender xs ++ inbound_all sender ys
inbound_all-append sender [] ys = refl
inbound_all-append sender (x ∷ xs) ys =
    ap (◌∷◌ (inbound sender x.1)) (inbound_all-append sender xs ys)

pub get_elem?→lt :
    (ds : List (List ℕ)) (k : ℕ) (d : List ℕ) → get_elem? ds k ≡ some d → k < length ds
get_elem?→lt [] k d e = cc
get_elem?→lt (x ∷ ds) zero d e = omega arith
get_elem?→lt (x ∷ ds) (suc k) d e = omega (arith, get_elem?→lt ds k d e)

pub get_elem?-front :
    (xs ys : List (List ℕ)) (k : ℕ) (d : List ℕ)
    → get_elem? xs k ≡ some d
    → get_elem? (xs ++ ys) k ≡ some d
get_elem?-front [] ys k d e = cc
get_elem?-front (x ∷ xs) ys zero d e = e
get_elem?-front (x ∷ xs) ys (suc k) d e = get_elem?-front xs ys k d e

pub get_elem?-back :
    (xs ys : List (List ℕ)) (k : ℕ) → get_elem? (xs ++ ys) (length xs + k) ≡ get_elem? ys k
get_elem?-back [] ys k = ap (λ (j : ℕ). get_elem? ys j) (omega arith)
get_elem?-back (x ∷ xs) ys k =
    ap (λ (j : ℕ). get_elem? (x ∷ (xs ++ ys)) j) (shifted (length xs) k) ∙ get_elem?-back xs ys k
  where
    shifted : (n k : ℕ) → suc n + k ≡ suc (n + k)
    shifted n k = omega arith

-- The datagrams stand in `ds` from an index on.
abbrev pub Stands : List (List ℕ) → ℕ → List (List ℕ) → Type 0
Stands ds index xs =
    (i : ℕ) (d : List ℕ) → get_elem? xs i ≡ some d → get_elem? ds (index + i) ≡ some d

pub Stands-front :
    (ds : List (List ℕ)) (index : ℕ) (xs ys : List (List ℕ))
    → Stands ds index (xs ++ ys)
    → Stands ds index xs
Stands-front ds index xs ys h i d e = h i d (get_elem?-front xs ys i d e)

pub Stands-back :
    (ds : List (List ℕ)) (index : ℕ) (xs ys : List (List ℕ))
    → Stands ds index (xs ++ ys)
    → Stands ds (index + length xs) ys
Stands-back ds index xs ys h i d e =
    subst (λ (j : ℕ). get_elem? ds j ≡ some d) (omega arith)
      (h (length xs + i) d (get_elem?-back xs ys i ∙ e))

pub Stands-tail :
    (ds : List (List ℕ)) (index : ℕ) (x : List ℕ) (xs : List (List ℕ))
    → Stands ds index (x ∷ xs)
    → Stands ds (index + 1) xs
Stands-tail ds index x xs h i d e =
    subst (λ (j : ℕ). get_elem? ds j ≡ some d) (shifted index i) (h (suc i) d e)
  where
    shifted : (n i : ℕ) → n + suc i ≡ n + 1 + i
    shifted n i = omega arith

pub Stands-head :
    (ds : List (List ℕ)) (index : ℕ) (x : List ℕ) (xs : List (List ℕ))
    → Stands ds index (x ∷ xs)
    → get_elem? ds index ≡ some x
Stands-head ds index x xs h =
    subst (λ (j : ℕ). get_elem? ds j ≡ some x) (omega arith) (h zero x refl)

-- The entries of the receiver are datagrams of the sender.
abbrev pub Kept : List (List ℕ) → List (ℕ × List ℕ) → Type 0
Kept ds = Entries (λ k d. get_elem? ds k ≡ some d)

pub kept :
    (ds : List (List ℕ)) (input : List (ℕ × List ℕ)) (k : ℕ) (d : List ℕ)
    → Kept ds input
    → find k input ≡ some d
    → get_elem? ds k ≡ some d
kept ds input k d h e = find-Entries (λ k d. get_elem? ds k ≡ some d) k d input h e

same_elem : {o : Option (List ℕ)} {d d' : List ℕ} → o ≡ some d → o ≡ some d' → d ≡ d'
same_elem {o} {d} {d'} a b = some-injective d d' (sym a ∙ b)

pub Kept-Agrees :
    (ds : List (List ℕ)) (input : List (ℕ × List ℕ)) (index : ℕ) (xs : List (List ℕ))
    → Kept ds input
    → Stands ds index xs
    → Agrees input index xs
Kept-Agrees ds input index [] h s = tt
Kept-Agrees ds input index (x ∷ xs) h s = (
  looked (find index input) refl,
  Kept-Agrees ds input (index + 1) xs h (Stands-tail ds index x xs s),
)
  where
    looked :
        (o : Option (List ℕ))
        → find index input ≡ o
        → (find index input ≡ none) ⊎ (find index input ≡ some x)
    looked none e = inl e
    looked (some d) e =
        inr (e ∙ ap some (same_elem (kept ds input index d h e) (Stands-head ds index x xs s)))

-- All that the sender has sent, from an index on, is in the table.
abbrev pub Present : List (List ℕ) → List (ℕ × List ℕ) → ℕ → Type 0
Present ds input index =
    (k : ℕ) → index ≤ k → k < length ds → (d : List ℕ) × (find k input ≡ some d)

pub Present-Holds :
    (ds : List (List ℕ)) (input : List (ℕ × List ℕ)) (index : ℕ) (xs : List (List ℕ))
    → Kept ds input
    → Stands ds index xs
    → Present ds input index
    → Holds input index xs
Present-Holds ds input index [] h s all = tt
Present-Holds ds input index (x ∷ xs) h s all =
    let here = Stands-head ds index x xs s in
    let (d, e) = all index (omega arith) (get_elem?→lt ds index x here) in
    (
      e ∙ ap some (same_elem (kept ds input index d h e) here),
      Present-Holds ds input (index + 1) xs h (Stands-tail ds index x xs s)
          λ k le. all k (omega arith),
    )

-- The calls of the sender are those whose messages the receiver has handed on, and those whose datagrams
-- stand from the expected index on.
pub record InStep (h : Hmac) (sender me : List ℕ) (calls : List (ℕ × Outgoing)) (ds : List (List ℕ))
    (expected : ℕ) (input : List (ℕ × List ℕ)) (delivered : List Message) : Type 0 where
  pub before : List (ℕ × Outgoing)
  pub after : List (ℕ × Outgoing)
  pub post : List (List ℕ)
  pub split : calls ≡ before ++ after
  pub handed_on : delivered ≡ inbound_all sender before
  pub sent : all_datagrams h me expected after ≡ some post
  pub stands : Stands ds expected post
  pub behind : expected + length post ≡ length ds
  pub entries : Kept ds input
  pub sorted : Sorted input

-- What the sender must respect for its messages to arrive.
abbrev pub Proper : List ℕ → ℕ × Outgoing → Type 0
Proper me c = IsSendable c.1 × HasRoom me c.0 c.1 × IsReadable me c.0 c.1

-- A message has at least one datagram.
pub datagrams_of-some :
    (h : Hmac) (me : List ℕ) (mtu index : ℕ) (o : Outgoing) (xs : List (List ℕ))
    → datagrams_of h me mtu index o ≡ some xs
    → 0 < length xs
datagrams_of-some h me mtu index o xs e =
    elim (datagrams-Datagrams h mtu index o.message_type (way_of me o.target_node o.hops)
      o.target_node o.hops o.body xs e) [
        | inl whole ↦ omega (arith, ap length whole.1)
        | inr pieces ↦ omega (arith, ap length pieces.2)
      ]

-- Where the expected index is behind the last datagram, every message has been handed on.
pub all_handed_on :
    (h : Hmac) (sender me : List ℕ) (calls : List (ℕ × Outgoing)) (ds : List (List ℕ))
    (expected : ℕ) (delivered : List Message) (before after : List (ℕ × Outgoing))
    (post : List (List ℕ))
    → calls ≡ before ++ after
    → delivered ≡ inbound_all sender before
    → all_datagrams h me expected after ≡ some post
    → expected + length post ≡ length ds
    → ¬ (expected < length ds)
    → delivered ≡ inbound_all sender calls
all_handed_on h sender me calls ds expected delivered before [] post split handed sent behind stop =
    handed ∙ ap (inbound_all sender) (sym (append-nil before) ∙ sym split)
all_handed_on h sender me calls ds expected delivered before (c ∷ after) post split handed sent
      behind stop =
    let (xs, ys, first, others, same) = all_datagrams-cons h me expected c after post sent in
    let n = datagrams_of-some h me c.0 expected c.1 xs first in
    let m = ap length same in
    let l = length-append xs ys in absurd (stop (omega (arith, n, m, l, behind)))
