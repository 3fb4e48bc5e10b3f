-- ===== src/Transfer/Receiver/Reach.antt =====
-- Whole runs of the data loop of `recvfile.c`, over a network that loses, damages, repeats and reorders.
use comp429_computer_network.Base.{
  ℕ, ◌+◌, ◌≤◌, ◌<◌, ◌≡◌, refl, ◌∙◌, ap, inl, inr, List, some, length, take, take-length, overwrite,
  arith, joined,
}
use comp429_computer_network.Base.Int.{pos}
use comp429_computer_network.Transfer.Packet.{chunk_packet}
use comp429_computer_network.Transfer.Receiver.{Receiver, advance, receive, init}
use comp429_computer_network.Transfer.Receiver.Invariant.{Inv, Exit}
use comp429_computer_network.Transfer.Receiver.Files.{
  IsFile, length-chunk_packet, chunk_packet-Reads,
}
use comp429_computer_network.Transfer.Receiver.Safety.{
  Arrives, nothing, damaged, stale, packet, receive-ignored, init-Inv, receive-Inv,
}

-- The states that the data loop reaches.
pub data Reach (chunks : List (List ℕ)) : Receiver → Type 0 where
  start : Reach chunks init
  pass :
      {r s : Receiver} {dg : List ℕ}
      → Reach chunks r
      → Arrives chunks r dg
      → receive dg r ≡ some s
      → Reach chunks s

pub Reach-Inv :
    (chunks : List (List ℕ)) (file : IsFile chunks) {r : Receiver} → Reach chunks r → Inv chunks r
Reach-Inv chunks file start = init-Inv chunks
Reach-Inv chunks file (pass {r} {s} {dg} before arrives e) =
    let done = receive-Inv chunks file r dg (Reach-Inv chunks file before) arrives in
    let same : done.0 ≡ s = cc done.1 in rw same at done.2

-- In every state that the data loop can reach, under loss, damage, duplication and reordering of the
-- packets, the bytes written are those of the first `last_id` chunks of the file, in order.
pub Reach-prefix :
    (chunks : List (List ℕ)) (r : Receiver)
    → IsFile chunks
    → Reach chunks r
    → (r.written ≡ joined (take r.last_id chunks)) × (r.last_id ≤ length chunks)
Reach-prefix chunks r file reach =
    let inv = Reach-Inv chunks file reach in (inv.holds.put_out, inv.holds.within)

-- The loop is left only when the whole file is written.
pub exit_complete :
    (chunks : List (List ℕ)) (r : Receiver)
    → IsFile chunks
    → Reach chunks r
    → r.ready_exit ≡ 2
    → r.written ≡ joined chunks
exit_complete chunks r file reach done = inv.holds.put_out ∙ all inv.exit
  where
    inv : Inv chunks r
    inv = Reach-Inv chunks file reach

    all : Exit (length chunks) r.last_id r → joined (take r.last_id chunks) ≡ joined chunks
    all (inl none_yet) = absurd (omega arith)
    all (inr (window, near, some_chunk, inl one)) = absurd (omega arith)
    all (inr (window, near, some_chunk, inr (two, whole))) =
        rw whole (ap joined (take-length chunks))

-- A file whose last run of chunks crosses the wrap of the sequence numbers does not end the loop: the
-- test compares the last packet's number with a sum that is not reduced modulo 16.
pub advance_past_wrap :
    (c w : ℕ) (r : Receiver)
    → r.ready_exit ≡ 1
    → r.last_window ≡ pos w
    → w < 16
    → 17 ≤ r.la_seq + c
    → (advance c r).ready_exit ≡ 1
unfolding advance
advance_past_wrap c w r waiting window small wraps = rw (waiting, window) (ground arith)

-- When all chunks are written, nothing that may arrive changes more than the buffer.
receive_nothing_new :
    (chunks : List (List ℕ)) (r : Receiver) (dg : List ℕ)
    → IsFile chunks
    → r.last_id ≡ length chunks
    → Arrives chunks r dg
    → (b : List ℕ) × (receive dg r ≡ some (record r { buf = b }))
receive_nothing_new chunks r dg file whole (nothing e) = (r.buf, unfold receive in rw e refl)
receive_nothing_new chunks r dg file whole (damaged long bad) =
    (_, receive-ignored chunks file dg r long (inl bad))
receive_nothing_new chunks r dg file whole (stale long old) =
    (_, receive-ignored chunks file dg r long (inr old))
receive_nothing_new chunks r dg file whole (packet j within near e) =
    let reads = chunk_packet-Reads chunks file j r.buf within in
    (
      overwrite dg r.buf,
      rw e (
          receive-ignored chunks file (chunk_packet chunks j) r
            (omega (arith, length-chunk_packet chunks file j))
            (inr (omega (arith, reads.id_read)))),
    )

-- A receiver that has written all chunks while its exit test has not passed stays in its loop: no
-- packet of the file, and nothing else that may arrive, passes the test or changes what is written.
pub receive_past_wrap :
    (chunks : List (List ℕ)) (r : Receiver) (dg : List ℕ)
    → IsFile chunks
    → Inv chunks r
    → r.last_id ≡ length chunks
    → r.ready_exit ≡ 1
    → Arrives chunks r dg
    → (s : Receiver) × (receive dg r ≡ some s)
      × (s.ready_exit ≡ 1)
      × (s.last_id ≡ length chunks)
      × (s.written ≡ joined chunks)
receive_past_wrap chunks r dg file inv whole waiting arrives =
    let (b, e) = receive_nothing_new chunks r dg file whole arrives in
    (
      record r { buf = b },
      e,
      waiting,
      whole,
      inv.holds.put_out ∙ rw whole (ap joined (take-length chunks)),
    )
