-- ===== src/Transfer/Channel/Receives.antt =====
-- A pass of `recvfile.c`'s data loop, in a transfer.
use comp429_computer_network.Base.{
  ℕ, ◌≤◌, ◌<◌, ◌≡◌, ◌≢◌, refl, sym, subst, ◌∙◌, inl, inr, List, [], ◌∷◌, some, length, arith,
  dec_lt, All, some-inj,
}
use comp429_computer_network.Transfer.Packet.{chunk_packet}
use comp429_computer_network.Transfer.Receiver.{receive, Receiver, acknowledge}
use comp429_computer_network.Transfer.Receiver.Files.{
  IsFile, chunk_packet-Reads, length-chunk_packet,
}
use comp429_computer_network.Transfer.Receiver.Invariant.{Inv, Below}
use comp429_computer_network.Transfer.Receiver.Safety.{
  Arrives, nothing, damaged, stale, receive-Inv, receive-due, receive-ignored,
}
use comp429_computer_network.Transfer.Link.{acknowledge-start}
use comp429_computer_network.Transfer.Channel.{
  Channel, Note, Among, ToReceiver, silence, garbled, delivered, stamp_of,
}
use comp429_computer_network.Transfer.Channel.Invariant.{Joint, IsCarried, IsNoted, All-Among}

-- What a pass of the receiver gives: no fault, and nothing that was not read by the sender.
abbrev pub Receives : List (List ℕ) → ℕ → Receiver → List ℕ → Type 0
Receives chunks bound r dg =
    (s : Receiver) × (receive dg r ≡ some s)
    × Inv chunks s
    × (r.last_id ≤ s.last_id)
    × Below bound s

module _ (chunks : List (List ℕ)) (file : IsFile chunks) where
  -- A pass that changes the buffer alone.
  buffered :
      (bound : ℕ) (r : Receiver) (dg : List ℕ)
      → Inv chunks r
      → Below bound r
      → Arrives chunks r dg
      → (b : List ℕ) × (receive dg r ≡ some (record r { buf = b }))
      → Receives chunks bound r dg
  buffered bound r dg inv below arrives (b, same) =
      let (s, e, inv', on) = receive-Inv chunks file r dg inv arrives in
      let at : record r { buf = b } ≡ s = some-inj (sym same ∙ e) in
      (s, e, inv', on, subst (Below bound) at below)

  receive-carried :
      (bound acked : ℕ) (r : Receiver) (dg : List ℕ)
      → Inv chunks r
      → Below bound r
      → acked ≤ r.last_id
      → bound ≤ length chunks
      → IsCarried chunks acked bound dg
      → Receives chunks bound r dg
  receive-carried bound acked r dg inv below behind read (j, near, within, e) =
      elim (dec_lt j r.last_id) [
        | yes old ↦
            let reads = chunk_packet-Reads chunks file j r.buf (omega arith) in
            let long : 2 ≤ length (chunk_packet chunks j) =
              omega (arith, length-chunk_packet chunks file j) in
            rw e (
              buffered bound r (chunk_packet chunks j) inv below
                (stale long (omega (arith, reads.id_read)))
                (
                  _,
                  receive-ignored chunks file (chunk_packet chunks j) r long
                      (inr (omega (arith, reads.id_read))),
                ))
        | no new ↦
            let (s, e', inv', on, _, keeps) =
              receive-due chunks file j r inv (omega arith) (omega arith) (omega arith) in
            (s, rw e e', inv', on, keeps bound within below)
      ]

  -- Whatever the network of a transfer hands over, the receiver's pass makes no fault.
  pub receive-Joint :
      (acked : ℕ) (c : Channel) (dg : List ℕ)
      → Joint chunks acked c
      → ToReceiver c dg
      → Receives chunks c.sender.packet_id c.receiver dg
  receive-Joint acked c dg h (silence e) =
      buffered c.sender.packet_id c.receiver dg h.inv h.below (nothing e)
        (c.receiver.buf, unfold receive in rw e refl)
  receive-Joint acked c dg h (garbled long bad) =
      buffered c.sender.packet_id c.receiver dg h.inv h.below (damaged long bad)
        (_, receive-ignored chunks file dg c.receiver long (inl bad))
  receive-Joint acked c dg h (delivered m) =
      receive-carried c.sender.packet_id acked c.receiver dg h.inv h.below h.behind h.read
        (All-Among (IsCarried chunks acked c.sender.packet_id) c.packets dg h.carried m)

  -- The channel after a pass of the receiver.
  abbrev pub received : Channel → Receiver → ℕ → ℕ → Channel
  received c s sec usec = record c {
    receiver = s;
    notes =
        (record { bytes = acknowledge s sec usec; told = s.last_id; stamp = stamp_of sec usec })
        ∷ c.notes;
    clock = stamp_of sec usec;
    clocks = c.clock ∷ c.clocks;
  }

  IsNoted-later :
      (acked written written' last clock clock' : ℕ) (notes : List Note)
      → written ≤ written'
      → clock ≤ clock'
      → All (IsNoted acked written last clock) notes
      → All (IsNoted acked written' last clock') notes
  IsNoted-later acked written written' last clock clock' [] more on h = tt
  IsNoted-later acked written written' last clock clock' (n ∷ notes) more on h = (
    record {
      sec = h.0.sec;
      usec = h.0.usec;
      sec_fits = h.0.sec_fits;
      usec_fits = h.0.usec_fits;
      bytes_eq = h.0.bytes_eq;
      stamp_eq = h.0.stamp_eq;
      known = omega (arith, h.0.known);
      passed = omega (arith, h.0.passed);
      news = h.0.news;
    },
    IsNoted-later acked written written' last clock clock' notes more on h.1,
  )

  pub receives-Joint :
      (acked : ℕ) (c : Channel) (dg : List ℕ) (sec usec : ℕ) (s : Receiver)
      → Joint chunks acked c
      → ToReceiver c dg
      → c.receiver.ready_exit ≢ 2
      → sec < 4294967296
      → usec < 4294967296
      → c.clock ≤ stamp_of sec usec
      → receive dg c.receiver ≡ some s
      → Joint chunks acked (received c s sec usec)
  receives-Joint acked c dg sec usec s h arrives going sec_fits usec_fits ticks e =
      let (t, e', inv, on, below) = receive-Joint acked c dg h arrives in
      let same : t ≡ s = some-inj (sym e' ∙ e) in
      after (rw same at inv) (rw same at on) (rw same at below)
    where
      after :
          Inv chunks s
          → c.receiver.last_id ≤ s.last_id
          → Below c.sender.packet_id s
          → Joint chunks acked (received c s sec usec)
      after inv on below = record {
        inv = inv;
        below = below;
        behind = omega (arith, h.behind);
        read = h.read;
        sending = h.sending;
        whole = λ done. omega (arith, h.whole done, below.0, h.read);
        carried = h.carried;
        noted = (
          record {
            sec = sec;
            usec = usec;
            sec_fits = sec_fits;
            usec_fits = usec_fits;
            bytes_eq = acknowledge-start chunks s sec usec inv;
            stamp_eq = refl;
            known = omega arith;
            passed = omega arith;
            news = λ _. omega (arith, h.behind);
          },
          IsNoted-later acked c.receiver.last_id s.last_id c.sender.last_ack_time c.clock
              (stamp_of sec usec) c.notes on ticks h.noted,
        );
        ordered = ordered on;
      }
        where
          old :
              (n : Note)
              → Among n c.notes
              → IsNoted acked c.receiver.last_id c.sender.last_ack_time c.clock n
          old n m = All-Among _ c.notes n h.noted m

          ordered :
              c.receiver.last_id ≤ s.last_id
              → (a b : Note) → Among a (received c s sec usec).notes
              → Among b (received c s sec usec).notes
              → a.stamp < b.stamp
              → a.told ≤ b.told
          ordered on a b (inl ea) (inl eb) lt = absurd (omega (arith, rw (ea, eb) at lt))
          ordered on a b (inl ea) (inr mb) lt =
              absurd (omega (arith, rw ea at lt, (old b mb).passed))
          ordered on a b (inr ma) (inl eb) lt = rw eb (omega (arith, (old a ma).known))
          ordered on a b (inr ma) (inr mb) lt = h.ordered a b ma mb lt
