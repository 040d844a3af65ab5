-- ===== src/Dht/Channel/Session.antt =====
-- Both ends of a session of libs_server/vds_dht_network/impl/dht_datagram_protocol.cpp, each in its own run.
pub mod Examples
use vds.Common.{
  ℕ, zero, suc, ◌+◌, ◌%◌, ◌^◌, ◌≤◌, ◌<◌, ◌≡◌, refl, sym, ◌∙◌, ap, subst, arith, List, [], ◌∷◌, ◌++◌,
  Option, some, length, get_or, get_elem?, All, ◌⊎◌, inl, inr, Bool, All-append,
}
use mathlib.Core.Option.{some-injective}
use vds.Dht.Protocol.{Hmac, Protocol, acknowledgment}
use vds.Dht.Protocol.Acknowledge.{opened, receive}
use vds.Dht.Channel.{Outgoing}
use vds.Dht.Channel.InStep.{Proper}
use vds.Dht.Channel.Arrivals.{Foreign}
use vds.Dht.Channel.Delivery.{Arrives, InOrder, receive-InOrder}
use vds.Dht.Channel.Sending.{Sends}
use vds.Dht.Channel.Sending.Repeats.{Repeats}
use vds.Dht.Channel.Sending.Account.{IsBounded}
use vds.Dht.Channel.Sending.Written.{Sends-all_datagrams}

-- Something that the sender has written, for a call or again; an acknowledgment; or what nobody has signed.
abbrev pub Comes : Hmac → List (List ℕ) → List (List ℕ) → ℕ × List ℕ → Type 0
Comes h first again a =
    ((k : ℕ) × (get_elem? (first ++ again) k ≡ some a.1))
    ⊎ ((get_or a.1 0 0 ≡ acknowledgment) × (11 ≤ length a.1))
    ⊎ Foreign h a.1

repeated :
    (ds again : List (List ℕ)) (k : ℕ) (d : List ℕ)
    → Repeats ds again
    → get_elem? again k ≡ some d
    → (j : ℕ) × (get_elem? ds j ≡ some d)
repeated ds [] k d r e = cc
repeated ds (x ∷ again) zero d r e = (r.0.0, r.0.1 ∙ e)
repeated ds (x ∷ again) (suc k) d r e = repeated ds again k d r.1 e

Comes-Arrives :
    (h : Hmac) (sender me : List ℕ) (calls : List (ℕ × Outgoing)) (ds first again : List (List ℕ))
    (arrivals : List (ℕ × List ℕ))
    → Repeats ds (first ++ again)
    → All (Comes h first again) arrivals
    → All (Arrives h sender me calls ds) arrivals
Comes-Arrives h sender me calls ds first again [] r all = tt
Comes-Arrives h sender me calls ds first again (a ∷ arrivals) r all =
    (one all.0, Comes-Arrives h sender me calls ds first again arrivals r all.1)
  where
    one : Comes h first again a → Arrives h sender me calls ds a
    one (inl (k, e)) = inl (repeated ds (first ++ again) k a.1 r e)
    one (inr other) = inr other

-- A node sends and another one receives, each from the start of a session. Whatever reaches the receiver of what
-- the sender has written so far, for its calls or again for acknowledgments, whichever of its writes have
-- failed, in any order and as often as the network likes, and whatever comes in between of acknowledgments of at least 11 bytes and of bytes that
-- the session key has not signed: the receiver does not fault, and has handed on the messages of the
-- sender's first calls, each once, unchanged and in order. The calls must meet the sender's assertions and
-- the receiver's test of the size of a split message (`IsReadable`), with less than 2 ^ 32 - 2 bytes in each body.
pub Sends-receive :
    {h : Hmac} {sender me : List ℕ} {p : Protocol} {calls : List (ℕ × Outgoing)}
    {first again : List (List ℕ)} {whole : Bool} (writes : ℕ → ℕ → Bool) (start : ℕ)
    (arrivals : List (ℕ × List ℕ))
    → Sends h sender me p calls first again whole
    → All IsBounded calls
    → All (Proper me) calls
    → All (Comes h first again) arrivals
    → InOrder h sender me calls first (receive h writes arrivals (opened me sender start))
Sends-receive {h} {sender} {me} {p} {calls} {first} {again} writes start arrivals s bounded proper
      comes =
    let (ds, cut, fits, wrote, repeats, complete) = Sends-all_datagrams s bounded in
    receive-InOrder h sender me calls ds proper fits cut writes start arrivals (
      Comes-Arrives h sender me calls ds first again arrivals
        (All-append (λ d. (k : ℕ) × (get_elem? ds k ≡ some d)) first again wrote repeats) comes)
