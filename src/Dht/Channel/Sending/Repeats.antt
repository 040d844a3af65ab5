-- ===== src/Dht/Channel/Sending/Repeats.antt =====
-- The calls of a sender and its queue (libs_server/vds_dht_network/impl/dht_datagram_protocol.cpp): a call more, a
-- datagram more, and what is written again.
use vds.Common.{
  ℕ, zero, suc, ◌+◌, ◌/◌, ◌≡◌, refl, sym, ap, ◌∙◌, subst, arith, List, [], ◌∷◌, ◌++◌, Option, none,
  some, Bool, true, false, ltb, ◌==◌, if◌then◌else◌, length, length-append, get_elem?, All,
}
use mathlib.Core.List.{append_assoc, append-nil}
use mathlib.Core.Option.{some-injective}
use vds.Dht.Protocol.{Hmac}
use vds.Dht.Protocol.Table.{find}
use vds.Dht.Protocol.Receive.{next_index}
use vds.Dht.Protocol.Acknowledge.{erase_below, resend}
use vds.Dht.Protocol.Send.{write_found, sent_from}
use vds.Dht.Channel.{Outgoing, datagrams_of, all_datagrams}
use vds.Dht.Channel.Frames.{all_datagrams-cons}
use vds.Dht.Channel.InStep.{Kept, kept, Stands, get_elem?→lt, get_elem?-front, get_elem?-back}
use vds.Dht.Channel.Sending.Queued.{Free}

pub all_datagrams-step :
    (h : Hmac) (partner : List ℕ) (k : ℕ) (c : ℕ × Outgoing) (calls : List (ℕ × Outgoing))
    (xs ys : List (List ℕ))
    → datagrams_of h partner c.0 k c.1 ≡ some xs
    → all_datagrams h partner (k + length xs) calls ≡ some ys
    → all_datagrams h partner k (c ∷ calls) ≡ some (xs ++ ys)
unfolding all_datagrams
all_datagrams-step h partner k c calls xs ys first others =
    rw (first, all_datagrams) (rw others refl)

-- One call more.
pub all_datagrams-snoc :
    (h : Hmac) (partner : List ℕ) (k : ℕ) (calls : List (ℕ × Outgoing)) (c : ℕ × Outgoing)
    (ds xs : List (List ℕ))
    → all_datagrams h partner k calls ≡ some ds
    → datagrams_of h partner c.0 (k + length ds) c.1 ≡ some xs
    → all_datagrams h partner k (calls ++ (c ∷ [])) ≡ some (ds ++ xs)
unfolding all_datagrams
all_datagrams-snoc h partner k [] c ds xs sent next =
    let none_yet : [] ≡ ds = some-injective [] ds sent in
    let next' : datagrams_of h partner c.0 k c.1 ≡ some xs =
      subst (λ (j : ℕ). datagrams_of h partner c.0 j c.1 ≡ some xs)
        (omega (arith, ap length none_yet)) next in
    all_datagrams-step h partner k c [] xs [] next' refl
    ∙ ap some (append-nil xs ∙ ap (λ (zs : List (List ℕ)). zs ++ xs) none_yet)
all_datagrams-snoc h partner k (b ∷ calls) c ds xs sent next =
    let (ys, zs, first, others, same) = all_datagrams-cons h partner k b calls ds sent in
    let n = length-append ys zs in
    let next' : datagrams_of h partner c.0 (k + length ys + length zs) c.1 ≡ some xs =
      subst (λ (j : ℕ). datagrams_of h partner c.0 j c.1 ≡ some xs)
        (omega (arith, ap length same, n)) next in
    all_datagrams-step h partner k b (calls ++ (c ∷ [])) ys (zs ++ xs) first
      (all_datagrams-snoc h partner (k + length ys) calls c zs xs others next')
    ∙ ap some (sym (append_assoc ys zs xs) ∙ ap (λ (ws : List (List ℕ)). ws ++ xs) (sym same))

pub Kept-append :
    (ds xs : List (List ℕ)) (output : List (ℕ × List ℕ)) → Kept ds output → Kept (ds ++ xs) output
Kept-append ds xs [] k = tt
Kept-append ds xs (e ∷ es) k = (get_elem?-front ds xs e.0 e.1 k.0, Kept-append ds xs es k.1)

pub Kept-Free :
    (ds : List (List ℕ)) (output : List (ℕ × List ℕ)) → Kept ds output → Free output (length ds)
Kept-Free ds output k i le = looked (find i output) refl
  where
    looked : (o : Option (List ℕ)) → find i output ≡ o → find i output ≡ none
    looked none e = e
    looked (some d) e = absurd (omega (arith, get_elem?→lt ds i d (kept ds output i d k e)))

pub Stands-append : (ds xs : List (List ℕ)) → Stands (ds ++ xs) (length ds) xs
Stands-append ds xs i d e = get_elem?-back ds xs i ∙ e

-- These datagrams are among those.
abbrev pub Repeats : List (List ℕ) → List (List ℕ) → Type 0
Repeats ds = All (λ d. (k : ℕ) × (get_elem? ds k ≡ some d))

pub Repeats-append : (ds xs again : List (List ℕ)) → Repeats ds again → Repeats (ds ++ xs) again
Repeats-append ds xs [] r = tt
Repeats-append ds xs (d ∷ again) r =
    ((r.0.0, get_elem?-front ds xs r.0.0 d r.0.1), Repeats-append ds xs again r.1)

pub Kept-erase_below :
    (ds : List (List ℕ)) (last : ℕ) (output : List (ℕ × List ℕ))
    → Kept ds output
    → Kept ds (erase_below last output)
unfolding erase_below
Kept-erase_below ds last [] k = tt
Kept-erase_below ds last (e ∷ es) k = either (ltb e.0 last) (Kept-erase_below ds last es k.1)
  where
    either :
        (b : Bool)
        → Kept ds (erase_below last es)
        → Kept ds (if b then erase_below last es else e ∷ es)
    either true rest = rest
    either false rest = k

-- Whatever is found in the queue is among these datagrams, however the writing ends.
pub Repeats-write_found :
    (ds : List (List ℕ)) (output : List (ℕ × List ℕ)) (writes : ℕ → Bool) (i : ℕ)
    (rest : List (List ℕ) × Bool)
    → Kept ds output
    → Repeats ds rest.0
    → Repeats ds (write_found writes i (find i output) rest).0
Repeats-write_found ds output writes i rest k r = looked (find i output) refl
  where
    written :
        (d : List ℕ) (b : Bool)
        → find i output ≡ some d
        → Repeats ds (if◌then◌else◌ {A = List (List ℕ) × Bool} b (d ∷ rest.0, rest.1) ([], false)).0
    written d true e = ((i, kept ds output i d k e), r)
    written d false e = tt

    looked : (o : Option (List ℕ)) → find i output ≡ o → Repeats ds (write_found writes i o rest).0
    looked none e = r
    looked (some d) e = written d (writes i) e

pub Repeats-sent_from :
    (ds : List (List ℕ)) (output : List (ℕ × List ℕ)) (writes : ℕ → Bool) (index count : ℕ)
    → Kept ds output
    → Repeats ds (sent_from writes index count output).0
unfolding sent_from
Repeats-sent_from ds output writes index zero k = tt
Repeats-sent_from ds output writes index (suc count) k =
    Repeats-write_found ds output writes index _ k
      (Repeats-sent_from ds output writes (index + 1) count k)

pub Repeats-resend :
    (ds : List (List ℕ)) (output : List (ℕ × List ℕ)) (writes : ℕ → Bool) (last fuel i mask : ℕ)
    → Kept ds output
    → Repeats ds (resend writes output last fuel i mask).0
unfolding resend
Repeats-resend ds output writes last zero i mask k = tt
Repeats-resend ds output writes last (suc fuel) i mask k =
    either (mask == 0) _ _ (Repeats-resend ds output writes last fuel (i + 1) (mask / 2) k)
  where
    either :
        (stop bit : Bool) (rest : List (List ℕ) × Bool)
        → Repeats ds rest.0
        → Repeats ds
            (if stop
              then ([], true)
              else (if bit
                  then write_found writes
                      (next_index last (i + 1))
                      (find (next_index last (i + 1)) output)
                      rest
                  else rest)).0
    either true bit rest r = tt
    either false true rest r =
        Repeats-write_found ds output writes (next_index last (i + 1)) rest k r
    either false false rest r = r
