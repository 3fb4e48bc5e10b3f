-- ===== src/Transfer/Sender/Passes.antt =====
-- Whole passes of the data loop of `sendfile.c`, over a network that loses and damages.
use comp429_computer_network.Base.{
  ℕ, ◌+◌, ◌%◌, ◌≡◌, refl, List, [], Option, some, arith, All, ◌>>=◌,
}
use comp429_computer_network.Transfer.Util.{window_len}
use comp429_computer_network.Transfer.Receiver.Files.{IsFile}
use comp429_computer_network.Transfer.Sender.{Sender, AlarmTime, send_window}
use comp429_computer_network.Transfer.Sender.Window.{Sending}
use comp429_computer_network.Base.{◌∙◌}
use comp429_computer_network.Transfer.Sender.{
  check_timeout, Outcome, finished, continue, proceed, PassInput, send_pass, receive_ack,
}
use comp429_computer_network.Transfer.Sender.Sends.{send_window-Sends}
use comp429_computer_network.Transfer.Sender.Sent.{IsDue, IsSent, IsSent-IsDue}
use comp429_computer_network.Transfer.Sender.Timeouts.{check_timeout-Sending}
use comp429_computer_network.Transfer.Sender.Moves.{IsMoved, IsAt}
use comp429_computer_network.Transfer.Sender.Heard.{
  AckArrives, heard, receive_ack-IsMoved, AckArrives-alarms, heard-alarms,
}

-- What the outcome's sender has read.
abbrev pub read_by : Outcome → ℕ
read_by finished = 0
read_by (continue t) = t.packet_id
read_by (proceed t) = t.packet_id

-- A pass that gives an outcome for m chunks, with at least `read` chunks read and `time` heard of, and
-- sends only what is due then and read.
abbrev pub Proceeds : List (List ℕ) → ℕ → ℕ → ℕ → Option (Outcome × List (List ℕ)) → Type 0
Proceeds chunks m read time result =
    (o : Outcome) × (sent : List (List ℕ)) × (result ≡ some (o, sent))
    × IsMoved chunks m o
    × IsAt read time o
    × All (IsSent chunks m (read_by o)) sent

pub send_pass-Proceeds :
    (chunks : List (List ℕ)) (acked m : ℕ) (input : PassInput) (s : Sender)
    → IsFile chunks
    → Sending chunks acked s
    → (arrives : AckArrives acked m s input.datagram)
    → Proceeds chunks m s.packet_id (heard arrives) (send_pass input s)
unfolding send_pass
send_pass-Proceeds chunks acked m input s file h arrives =
    let (alarms, checked, timed) =
      check_timeout-Sending chunks acked input.checked s.timeout 8 0 s refl h in
    let (o, e, moved, later) =
      receive_ack-IsMoved chunks acked m input.now (record s { alarm_list = alarms }) input.datagram
        timed (AckArrives-alarms acked m s input.datagram alarms arrives) in
    goes alarms o (rw (start, ← h.start) at checked) e
      (after o moved (rw (heard-alarms acked m s input.datagram alarms arrives) at later))
  where
    goes :
        (alarms : List AlarmTime) (o : Outcome)
        → check_timeout input.checked s.timeout window_len s.la_seq s.alarm_list ≡ some alarms
        → receive_ack input.now input.datagram (record s { alarm_list = alarms }) ≡ some o
        → Proceeds chunks m s.packet_id (heard arrives) (elim o [
          | finished ↦ some (finished, [])
          | continue t ↦ some (continue t, [])
          | proceed t ↦ do
            (t', sent) ← send_window input.sending t.la_seq window_len t.la_seq t
            some (proceed t', sent)
        ])
        → Proceeds chunks m s.packet_id (heard arrives) (send_pass input s)
    goes alarms o checked e h = rw (send_pass, checked, e) h

    start : acked % 16 + 0 ≡ acked % 16
    start = omega arith

    after :
        (o : Outcome)
        → IsMoved chunks m o
        → IsAt s.packet_id (heard arrives) o
        → Proceeds chunks m s.packet_id (heard arrives) (elim o [
          | finished ↦ some (finished, [])
          | continue t ↦ some (continue t, [])
          | proceed t ↦ do
            (t', sent) ← send_window input.sending t.la_seq window_len t.la_seq t
            some (proceed t', sent)
        ])
    after finished all at = (finished, [], refl, all, tt, tt)
    after (continue t) never at = absurd never
    after (proceed t) sending at =
        let from_start : t.la_seq + 0 ≡ t.la_seq = omega arith in
        let (t', sent, e, h', _, _, on, due) =
          send_window-Sends chunks file m input.sending t.la_seq 8 0 t sending refl refl
            (omega (arith, sending.count)) in
        (
          proceed t',
          sent,
          rw (rw from_start at e) refl,
          h',
          (omega (arith, at.0, on.0), on.1 ∙ at.1),
          due,
        )

-- A pass that gives an outcome for m chunks and sends only what is due then.
abbrev pub Passes : List (List ℕ) → ℕ → Option (Outcome × List (List ℕ)) → Type 0
Passes chunks m result =
    (o : Outcome) × (sent : List (List ℕ)) × (result ≡ some (o, sent))
    × IsMoved chunks m o
    × All (IsDue chunks m) sent

Proceeds-Passes :
    (chunks : List (List ℕ)) (m read time : ℕ) (result : Option (Outcome × List (List ℕ)))
    → Proceeds chunks m read time result
    → Passes chunks m result
Proceeds-Passes chunks m read time result (o, sent, e, moved, at, due) =
    (o, sent, e, moved, go o moved due)
  where
    go :
        (o : Outcome)
        → IsMoved chunks m o
        → All (IsSent chunks m (read_by o)) sent
        → All (IsDue chunks m) sent
    go finished moved due = IsSent-IsDue chunks m 0 sent (omega arith) due
    go (continue t) moved due = absurd moved
    go (proceed t) moved due = IsSent-IsDue chunks m t.packet_id sent moved.within due

-- A pass of the sender follows no NULL. It ends the loop only when the acknowledgement of all chunks
-- came; otherwise its window starts at the chunk that was acknowledged, and every datagram that it
-- sends is the packet of a chunk of the file less than 8 chunks from there.
pub send_pass-Passes :
    (chunks : List (List ℕ)) (acked m : ℕ) (input : PassInput) (s : Sender)
    → IsFile chunks
    → Sending chunks acked s
    → AckArrives acked m s input.datagram
    → Passes chunks m (send_pass input s)
send_pass-Passes chunks acked m input s file h arrives =
    Proceeds-Passes chunks m s.packet_id (heard arrives) (send_pass input s)
      (send_pass-Proceeds chunks acked m input s file h arrives)
