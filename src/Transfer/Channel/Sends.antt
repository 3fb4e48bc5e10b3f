-- ===== src/Transfer/Channel/Sends.antt =====
-- A pass of `sendfile.c`'s data loop, in a transfer.
use comp429_computer_network.Base.{
  ℕ, ◌+◌, ◌*◌, ◌%◌, ◌≤◌, ◌<◌, ◌≡◌, refl, sym, subst, ◌∙◌, ap, List, [], ◌∷◌, ◌++◌, some, length,
  arith, false, dec_lt, overwrite, All, some-inj, u32, inl, inr,
}
use comp429_computer_network.Transfer.Packet.{ack_packet, id_field, usec_field}
use comp429_computer_network.Transfer.Packet.Ack.{ack_packet-AckReads, length-ack_packet}
use comp429_computer_network.Transfer.Receiver.Files.{IsFile}
use comp429_computer_network.Transfer.Sender.{
  Outcome, finished, continue, proceed, PassInput, send_pass,
}
use comp429_computer_network.Transfer.Sender.Sent.{IsSent, All-append, All-map}
use comp429_computer_network.Transfer.Sender.Moves.{IsMoved}
use comp429_computer_network.Transfer.Sender.Moves.{IsAt}
use comp429_computer_network.Transfer.Sender.Heard.{AckArrives, nothing, damaged, stale, ack, heard}
use comp429_computer_network.Transfer.Sender.Passes.{send_pass-Proceeds, read_by}
use comp429_computer_network.Transfer.Channel.{
  Channel, Note, Among, ToSender, no_ack, bad_ack, old_ack, new_ack, is_end, sender_after,
}
use comp429_computer_network.Transfer.Channel.Invariant.{Joint, IsCarried, IsNoted, All-Among}

-- What arrives is the acknowledgement of m chunks, all of them written, and what comes later is of no
-- fewer.
record Arrival (acked : ℕ) (c : Channel) (dg : List ℕ) : Type 0 where
  m : ℕ
  arrives : AckArrives acked m c.sender dg
  forward : acked ≤ m
  written : m ≤ c.receiver.last_id
  later : (n : Note) → Among n c.notes → heard arrives < n.stamp → m ≤ n.told

module _ (chunks : List (List ℕ)) (acked : ℕ) (c : Channel) (h : Joint chunks acked c) where
  note :
      (n : Note)
      → Among n c.notes
      → IsNoted acked c.receiver.last_id c.sender.last_ack_time c.clock n
  note n m = All-Among _ c.notes n h.noted m

  arrival : (dg : List ℕ) → ToSender c dg → Arrival acked c dg
  unfolding heard
  arrival dg (no_ack e) = record {
    m = acked;
    arrives = nothing refl e;
    forward = omega arith;
    written = h.behind;
    later = λ n m lt. (note n m).news lt;
  }
  arrival dg (bad_ack long bad) = record {
    m = acked;
    arrives = damaged refl long bad;
    forward = omega arith;
    written = h.behind;
    later = λ n m lt. (note n m).news lt;
  }
  arrival dg (old_ack long old) = record {
    m = acked;
    arrives = stale refl long old;
    forward = omega arith;
    written = h.behind;
    later = λ n m lt. (note n m).news lt;
  }
  arrival dg (new_ack n among e) = elim (dec_lt c.sender.last_ack_time n.stamp) [
    | yes new ↦ record {
      m = n.told;
      arrives =
          ack known.sec known.usec (known.news new) (omega (arith, known.known, h.below.0))
            known.sec_fits known.usec_fits (rw known.stamp_eq at new) (e ∙ known.bytes_eq);
      forward = known.news new;
      written = known.known;
      later = λ n' m lt. h.ordered n n' among m (rw (← known.stamp_eq) at lt);
    }
    | no old ↦ record {
      m = acked;
      arrives =
          stale refl
            (omega (
              arith,
              ap (λ (d : List ℕ). length d) bytes,
              length-ack_packet ((n.told + 15) % 16) known.sec known.usec,
            ))
            (is_old (omega arith));
      forward = omega arith;
      written = h.behind;
      later = λ n m lt. (note n m).news lt;
    }
  ]
    where
      known : IsNoted acked c.receiver.last_id c.sender.last_ack_time c.clock n
      known = note n among

      bytes : dg ≡ ack_packet ((n.told + 15) % 16) known.sec known.usec
      bytes = e ∙ known.bytes_eq

      is_old :
          n.stamp ≤ c.sender.last_ack_time
          → u32 (
              usec_field (overwrite dg c.sender.buf)
              + 1000000 * id_field (overwrite dg c.sender.buf))
            ≤ c.sender.last_ack_time
      is_old before =
          let reads =
            ack_packet-AckReads ((n.told + 15) % 16) known.sec known.usec c.sender.buf (omega arith)
              known.sec_fits known.usec_fits in
          rw (bytes, reads.sec_read, reads.usec_read) (omega (arith, known.stamp_eq))

  -- Whatever the network of a transfer hands over, the sender's pass follows no NULL.
  pub send_pass-Joint :
      (input : PassInput)
      → IsFile chunks
      → ToSender c input.datagram
      → c.is_finished ≡ false
      → (o : Outcome) × (sent : List (List ℕ)) × (send_pass input c.sender ≡ some (o, sent))
  send_pass-Joint input file arrives going =
      let a = arrival input.datagram arrives in
      let (o, sent, e, _, _, _) =
        send_pass-Proceeds chunks acked a.m input c.sender file (h.sending going) a.arrives in
      (o, sent, e)

  abbrev pub passed : Outcome → List (List ℕ) → Channel
  passed o sent = record c {
    sender = sender_after o c.sender;
    is_finished = is_end o;
    packets = sent ++ c.packets;
  }

  IsCarried-on :
      (m read : ℕ) → acked ≤ m → c.sender.packet_id ≤ read → All (IsCarried chunks m read) c.packets
  IsCarried-on m read forward more =
      All-map (IsCarried chunks acked c.sender.packet_id) c.packets
        (λ dg d. (d.0, omega (arith, d.1), omega (arith, d.2), d.3)) h.carried

  IsNoted-on :
      (m time : ℕ) (notes : List Note)
      → ((n : Note) → Among n notes → Among n c.notes)
      → ((n : Note) → Among n c.notes → time < n.stamp → m ≤ n.told)
      → All (IsNoted m c.receiver.last_id time c.clock) notes
  IsNoted-on m time [] within later = tt
  IsNoted-on m time (n ∷ notes) within later =
      let known = note n (within n (inl refl)) in
      (
        record {
          sec = known.sec;
          usec = known.usec;
          sec_fits = known.sec_fits;
          usec_fits = known.usec_fits;
          bytes_eq = known.bytes_eq;
          stamp_eq = known.stamp_eq;
          known = known.known;
          passed = known.passed;
          news = λ lt. later n (within n (inl refl)) lt;
        },
        IsNoted-on m time notes (λ n' a. within n' (inr a)) later,
      )

  -- The channel after a pass of the sender with this outcome.
  passed-Joint :
      (dg : List ℕ) (a : Arrival acked c dg) (o : Outcome) (sent : List (List ℕ))
      → IsMoved chunks a.m o
      → IsAt c.sender.packet_id (heard a.arrives) o
      → All (IsSent chunks a.m (read_by o)) sent
      → (acked' : ℕ) × Joint chunks acked' (passed o sent)
  passed-Joint dg a finished sent all at due = (
    acked,
    record {
      inv = h.inv;
      below = h.below;
      behind = h.behind;
      read = h.read;
      sending = λ e. cc;
      whole = λ _. omega (arith, all, a.written, h.inv.holds.within);
      carried =
          All-append _ sent c.packets
            (All-map (IsSent chunks a.m 0) sent (λ dg d. absurd (omega (arith, d.3))) due)
            h.carried;
      noted = h.noted;
      ordered = h.ordered;
    },
  )
  passed-Joint dg a (continue t) sent never at due = absurd never
  passed-Joint dg a (proceed t) sent sending at due = (
    a.m,
    record {
      inv = h.inv;
      below = (
        omega (arith, h.below.0, at.0),
        λ k lk hk raised. omega (arith, h.below.1 k lk hk raised, at.0),
      );
      behind = a.written;
      read = sending.within;
      sending = λ _. sending;
      whole = λ e. cc;
      carried =
          All-append _ sent c.packets
            (All-map (IsSent chunks a.m t.packet_id) sent (λ dg d. (d.0, d.2, d.3, d.4)) due)
            (IsCarried-on a.m t.packet_id a.forward at.0);
      noted =
          IsNoted-on a.m t.last_ack_time c.notes (λ n m. m) (λ n m lt. a.later n m (rw at.1 at lt));
      ordered = h.ordered;
    },
  )

  -- A pass of the sender, however it ends, leaves both programs as they should be.
  pub sends-Joint :
      (input : PassInput) (o : Outcome) (sent : List (List ℕ))
      → IsFile chunks
      → ToSender c input.datagram
      → c.is_finished ≡ false
      → send_pass input c.sender ≡ some (o, sent)
      → (acked' : ℕ) × Joint chunks acked' (passed o sent)
  sends-Joint input o sent file arrives going e =
      let a = arrival input.datagram arrives in
      let (o', sent', e', moved, at, due) =
        send_pass-Proceeds chunks acked a.m input c.sender file (h.sending going) a.arrives in
      let same : (o', sent') ≡ (o, sent) = some-inj (sym e' ∙ e) in
      subst (λ (p : Outcome × List (List ℕ)). (acked' : ℕ) × Joint chunks acked' (passed p.0 p.1))
        same (passed-Joint input.datagram a o' sent' moved at due)
