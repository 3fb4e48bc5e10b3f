-- ===== src/Transfer/Sender/Heard.antt =====
-- What may come in on the socket of `sendfile.c`, and how the sender takes it.
use comp429_computer_network.Base.{
  ℕ, ◌+◌, ◌%◌, ◌≤◌, ◌<◌, ◌≡◌, refl, List, [], some, length, arith, true, false, ltb, u32,
}
use comp429_computer_network.Transfer.Sender.{Sender, AlarmTime, Time}
use comp429_computer_network.Transfer.Sender.Window.{Sending}
use comp429_computer_network.Base.{◌*◌, overwrite}
use comp429_computer_network.Transfer.Packet.{ack_packet, id_field, usec_field, crc_matches}
use comp429_computer_network.Transfer.Packet.Ack.{ack_packet-AckReads, length-ack_packet}
use comp429_computer_network.Transfer.Sender.{receive_ack, Outcome, proceed}
use comp429_computer_network.Base.{ltb}
use comp429_computer_network.Transfer.Sender.Acks.{Sending-misc}
use comp429_computer_network.Transfer.Sender.Moves.{IsMoved, IsAt, take_ack-Taken}

-- What may come in on the sender's socket: nothing, a datagram that fails the CRC test, one that is
-- not later than the last, or the acknowledgement of m chunks that the receiver has.
pub data AckArrives (acked m : ℕ) (s : Sender) (dg : List ℕ) : Type 0 where
  nothing : m ≡ acked → dg ≡ [] → AckArrives acked m s dg
  damaged :
      m ≡ acked
      → 2 ≤ length dg
      → crc_matches (overwrite dg s.buf) (length dg) ≡ false
      → AckArrives acked m s dg
  stale :
      m ≡ acked
      → 2 ≤ length dg
      → u32 (usec_field (overwrite dg s.buf) + 1000000 * id_field (overwrite dg s.buf))
        ≤ s.last_ack_time
      → AckArrives acked m s dg
  ack :
      (sec usec : ℕ)
      → acked ≤ m
      → m ≤ s.packet_id
      → sec < 4294967296
      → usec < 4294967296
      → s.last_ack_time < u32 (usec + 1000000 * sec)
      → dg ≡ ack_packet ((m + 15) % 16) sec usec
      → AckArrives acked m s dg

-- The time that the sender has heard of when the datagram is dealt with.
unfoldable pub heard : {acked m : ℕ} {s : Sender} {dg : List ℕ} → AckArrives acked m s dg → ℕ
heard {s} (nothing same e) = s.last_ack_time
heard {s} (damaged same long bad) = s.last_ack_time
heard {s} (stale same long old) = s.last_ack_time
heard (ack sec usec new read sec_fits usec_fits later e) = u32 (usec + 1000000 * sec)

pub receive_ack-IsMoved :
    (chunks : List (List ℕ)) (acked m : ℕ) (now : Time) (s : Sender) (dg : List ℕ)
    → Sending chunks acked s
    → (arrives : AckArrives acked m s dg)
    → (o : Outcome) × (receive_ack now dg s ≡ some o)
      × IsMoved chunks m o
      × IsAt s.packet_id (heard arrives) o
unfolding receive_ack heard
receive_ack-IsMoved chunks acked m now s dg h (nothing same e) =
    (proceed s, rw e refl, rw same h, (omega arith, refl))
receive_ack-IsMoved chunks acked m now s dg h (damaged same long bad) = (
  proceed (record s { buf = overwrite dg s.buf }),
  ground arith,
  rw same (Sending-misc chunks acked s s.last_ack_time s.timeout (overwrite dg s.buf) h),
  (omega arith, refl),
)
receive_ack-IsMoved chunks acked m now s dg h (stale same long old) = (
  proceed (record s { buf = overwrite dg s.buf }),
  ground arith,
  rw same (Sending-misc chunks acked s s.last_ack_time s.timeout (overwrite dg s.buf) h),
  (omega arith, refl),
)
receive_ack-IsMoved chunks acked m now s dg h (ack sec usec new read sec_fits usec_fits later e) =
    let reads =
      ack_packet-AckReads ((m + 15) % 16) sec usec s.buf (omega arith) sec_fits usec_fits in
    let is_later : ltb s.last_ack_time (u32 (usec + 1000000 * sec)) ≡ true = ground arith in
    let (o, taken, moved, at) =
      take_ack-Taken chunks acked now m
        (record s {
          buf = overwrite (ack_packet ((m + 15) % 16) sec usec) s.buf;
          last_ack_time = u32 (usec + 1000000 * sec);
        })
        (Sending-misc chunks acked s _ s.timeout _ h) new read in
    (
      o,
      rw
          (
            e, length-ack_packet, reads.intact, reads.sec_read, reads.usec_read, is_later,
            reads.ack_read,
          )
          taken,
      moved,
      at,
    )

-- The alarms do not decide what arrives.
pub AckArrives-alarms :
    (acked m : ℕ) (s : Sender) (dg : List ℕ) (alarms : List AlarmTime)
    → AckArrives acked m s dg
    → AckArrives acked m (record s { alarm_list = alarms }) dg
AckArrives-alarms acked m s dg alarms (nothing same e) = nothing same e
AckArrives-alarms acked m s dg alarms (damaged same long bad) = damaged same long bad
AckArrives-alarms acked m s dg alarms (stale same long old) = stale same long old
AckArrives-alarms acked m s dg alarms (ack sec usec new read sec_fits usec_fits later e) =
    ack sec usec new read sec_fits usec_fits later e

pub heard-alarms :
    (acked m : ℕ) (s : Sender) (dg : List ℕ) (alarms : List AlarmTime)
    (arrives : AckArrives acked m s dg)
    → heard (AckArrives-alarms acked m s dg alarms arrives) ≡ heard arrives
unfolding heard AckArrives-alarms
heard-alarms acked m s dg alarms (nothing same e) = refl
heard-alarms acked m s dg alarms (damaged same long bad) = refl
heard-alarms acked m s dg alarms (stale same long old) = refl
heard-alarms acked m s dg alarms (ack sec usec new read sec_fits usec_fits later e) = refl
