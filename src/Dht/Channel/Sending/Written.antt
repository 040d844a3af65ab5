-- ===== src/Dht/Channel/Sending/Written.antt =====
-- The datagrams that a sender of libs_server/vds_dht_network/impl/dht_datagram_protocol.cpp writes are those of its calls.
use vds.Common.{
  ℕ, ◌^◌, ◌<◌, ◌≡◌, refl, ap, subst, arith, List, [], ◌∷◌, ◌++◌, some, Bool, true, false, ltb,
  if◌then◌else◌, length, get_or, get_elem?, All, All-append, ◌⊎◌, inr, write_failed,
}
use vds.Dht.Protocol.{Hmac, Protocol, Outcome, done, failed, fault, read32}
use vds.Dht.Protocol.Table.{find}
use vds.Dht.Protocol.Send.{write_found, after_writes}
use vds.Dht.Protocol.Acknowledge.{erase_below, resend, process_acknowledgment, on_timer}
use vds.Dht.Channel.{Outgoing, all_datagrams}
use vds.Dht.Channel.InStep.{Kept}
use vds.Dht.Channel.Sending.{Sends, begins, sends, breaks, hears, loses, ticks}
use vds.Dht.Channel.Sending.Calls.{Leaves}
use vds.Dht.Channel.Sending.Repeats.{Repeats, Kept-erase_below, Repeats-write_found, Repeats-resend}
use vds.Dht.Channel.Sending.Account.{Account, IsBounded, Account-calls}

Account-hears :
    (h : Hmac) (partner : List ℕ) (writes : ℕ → Bool) (p q : Protocol) (calls : List (ℕ × Outgoing))
    (ds first again xs : List (List ℕ)) (whole all : Bool) (d : List ℕ)
    → Account h partner p calls ds first again whole
    → Leaves all (process_acknowledgment writes p d).0 q
    → (process_acknowledgment writes p d).1 ≡ xs
    → Account h partner q calls ds first (again ++ xs) whole
unfolding process_acknowledgment
Account-hears h partner writes p q calls ds first again xs whole all d a e f =
    heard (ltb (length d) 11) _ _ _ _
      (found (read32 (get_or d 1 0) (get_or d 2 0) (get_or d 3 0) (get_or d 4 0))
        (read32 (get_or d 5 0) (get_or d 6 0) (get_or d 7 0) (get_or d 8 0)))
      e f
  where
    found :
        (last mask : ℕ)
        → Kept ds (erase_below last p.output_messages)
          × Repeats ds
              (write_found writes last
                (find last (erase_below last p.output_messages))
                (resend writes (erase_below last p.output_messages) last 32 0 mask)).0
    found last mask =
        let k = Kept-erase_below ds last p.output_messages a.queued in
        (
          k,
          Repeats-write_found ds (erase_below last p.output_messages) writes last _ k
              (Repeats-resend ds (erase_below last p.output_messages) writes last 32 0 mask k),
        )

    account :
        (output : List (ℕ × List ℕ)) (ys : List (List ℕ)) (sent mtu : ℕ)
        → Kept ds output × Repeats ds ys
        → Account h partner
            (record p { output_messages = output; last_sent = sent; mtu = mtu })
            calls
            ds
            first
            (again ++ ys)
            whole
    account output ys sent mtu f = record {
      same_partner = a.same_partner;
      counted = a.counted;
      fits = a.fits;
      cut = a.cut;
      queued = f.0;
      wrote = a.wrote;
      complete = a.complete;
      repeats = All-append (λ d. (k : ℕ) × (get_elem? ds k ≡ some d)) again ys a.repeats f.1;
    }

    left :
        (written : Bool) (r s : Protocol) (ys : List (List ℕ))
        → Account h partner r calls ds first (again ++ ys) whole
        → Account h partner s calls ds first (again ++ ys) whole
        → (b : Bool) → Leaves b (after_writes written r s) q
        → ys ≡ xs
        → Account h partner q calls ds first (again ++ xs) whole
    left true r s ys x y true e f =
        subst (λ (zs : List (List ℕ)). Account h partner q calls ds first (again ++ zs) whole) f
          (subst (λ (t : Protocol). Account h partner t calls ds first (again ++ ys) whole)
            (same_done e) y)
      where
        same_done : done s ≡ done q → s ≡ q
        same_done e = cc
    left true r s ys x y false e f = cc
    left false r s ys x y true e f = cc
    left false r s ys x y false e f =
        subst (λ (zs : List (List ℕ)). Account h partner q calls ds first (again ++ zs) whole) f
          (subst (λ (t : Protocol). Account h partner t calls ds first (again ++ ys) whole)
            (same_failed e) x)
      where
        same_failed : failed write_failed r ≡ failed write_failed q → r ≡ q
        same_failed e = cc

    heard :
        (short : Bool) (output : List (ℕ × List ℕ)) (ys : List (List ℕ) × Bool) (sent mtu : ℕ)
        → Kept ds output × Repeats ds ys.0
        → Leaves all
            (if◌then◌else◌ {A = Outcome × List (List ℕ)} short
              (fault, [])
              (
                after_writes ys.1
                    (record p { output_messages = output; last_sent = sent })
                    (record p { output_messages = output; last_sent = sent; mtu = mtu }),
                ys.0,
              )).0
            q
        → (if◌then◌else◌ {A = Outcome × List (List ℕ)} short
            (fault, [])
            (
              after_writes ys.1
                  (record p { output_messages = output; last_sent = sent })
                  (record p { output_messages = output; last_sent = sent; mtu = mtu }),
              ys.0,
            )).1
          ≡ xs
        → Account h partner q calls ds first (again ++ xs) whole
    heard true output ys sent mtu k e f = absurd (clash all e)
      where
        clash : (b : Bool) → Leaves b fault q → ⊥
        clash true e = cc
        clash false e = cc
    heard false output ys sent mtu k e f =
        left ys.1 _ _ ys.0 (account output ys.0 sent p.mtu k) (account output ys.0 sent mtu k) all e
          f

Account-ticks :
    (h : Hmac) (partner : List ℕ) (p : Protocol) (calls : List (ℕ × Outgoing))
    (ds first again : List (List ℕ)) (whole : Bool) (padding : ℕ → List ℕ)
    → Account h partner p calls ds first again whole
    → Account h partner (on_timer padding p).0 calls ds first again whole
unfolding on_timer
Account-ticks h partner p calls ds first again whole padding a = record {
  same_partner = a.same_partner;
  counted = a.counted;
  fits = a.fits;
  cut = a.cut;
  queued = a.queued;
  wrote = a.wrote;
  complete = a.complete;
  repeats = a.repeats;
}

last_call :
    (c : ℕ × Outgoing) (cs : List (ℕ × Outgoing))
    → All IsBounded (cs ++ (c ∷ []))
    → All IsBounded cs × IsBounded c
last_call c [] a = (tt, a.0)
last_call c (b ∷ cs) a = let (bounded, ok) = last_call c cs a.1 in ((a.0, bounded), ok)

Sends-Account :
    {h : Hmac} {me partner : List ℕ} {p : Protocol} {calls : List (ℕ × Outgoing)}
    {first again : List (List ℕ)} {whole : Bool}
    → Sends h me partner p calls first again whole
    → All IsBounded calls
    → (ds : List (List ℕ)) × Account h partner p calls ds first again whole
unfolding all_datagrams
Sends-Account (begins now) all = (
  [],
  record {
    same_partner = refl;
    counted = refl;
    fits = omega arith;
    cut = refl;
    queued = tt;
    wrote = tt;
    complete = inr refl;
    repeats = tt;
  },
)
Sends-Account {h} {me} {partner} (sends p q calls first again xs whole o writes s e) all =
    let (bounded, ok) = last_call (p.mtu, o) calls all in
    let (ds, a) = Sends-Account s bounded in
    let (ys, b) =
      Account-calls h partner writes p q calls ds first again xs whole true o ok a _ e refl refl in
    (ds ++ ys, b)
Sends-Account {h} {me} {partner} (breaks p q calls first again xs whole o writes s e) all =
    let (bounded, ok) = last_call (p.mtu, o) calls all in
    let (ds, a) = Sends-Account s bounded in
    let (ys, b) =
      Account-calls h partner writes p q calls ds first again xs whole false o ok a _ e refl refl in
    (ds ++ ys, b)
Sends-Account {h} {me} {partner} (hears p q calls first again xs whole d writes s e) all =
    let (ds, a) = Sends-Account s all in
    (
      ds,
      Account-hears h partner writes p q calls ds first again xs whole true d a (ap (λ t. t.0) e)
          (ap (λ t. t.1) e),
    )
Sends-Account {h} {me} {partner} (loses p q calls first again xs whole d writes s e) all =
    let (ds, a) = Sends-Account s all in
    (
      ds,
      Account-hears h partner writes p q calls ds first again xs whole false d a (ap (λ t. t.0) e)
          (ap (λ t. t.1) e),
    )
Sends-Account {h} {me} {partner} (ticks p calls first again whole padding s) all =
    let (ds, a) = Sends-Account s all in
    (ds, Account-ticks h partner p calls ds first again whole padding a)

-- However a sender's calls, the acknowledgments that it hears and its timers follow one another, and
-- whichever of its writes fail: the datagrams of all calls, each cut with the MTU at its time, stand at
-- indices that go up from 0 and stay below 2 ^ 32; what has been written for the calls, and what has been
-- written again for acknowledgments, is unchanged datagrams of these; and where no write for a call has
-- failed, what has been written for the calls is all of them, each once and in order. The calls have types
-- below 32, ids of 32 bytes, fewer than 256 hops and bodies of less than 2 ^ 32 - 2 bytes; the acknowledgments
-- have at least 11 bytes, and none of the sender's assertions fails.
pub Sends-all_datagrams :
    {h : Hmac} {me partner : List ℕ} {p : Protocol} {calls : List (ℕ × Outgoing)}
    {first again : List (List ℕ)} {whole : Bool}
    → Sends h me partner p calls first again whole
    → All IsBounded calls
    → (ds : List (List ℕ)) × (all_datagrams h partner 0 calls ≡ some ds)
      × (length ds < 2 ^ 32)
      × Repeats ds first
      × Repeats ds again
      × ((whole ≡ false) ⊎ (first ≡ ds))
Sends-all_datagrams s all =
    let (ds, a) = Sends-Account s all in (ds, a.cut, a.fits, a.wrote, a.repeats, a.complete)
