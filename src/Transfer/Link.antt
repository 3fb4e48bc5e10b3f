-- ===== src/Transfer/Link.antt =====
-- Where sendfile.c and recvfile.c meet: what one puts on the network, as the other reads it.
use comp429_computer_network.Base.{
  ℕ, ◌+◌, ◌-◌, ◌%◌, ◌<◌, ◌≡◌, refl, ◌∙◌, ap, inl, inr, List, [], some, length, arith, true,
}
use comp429_computer_network.Transfer.Util.{mod_int_pred, window_len}
use comp429_computer_network.Transfer.Packet.{ack_packet}
use comp429_computer_network.Transfer.Receiver.{Receiver, acknowledge}
use comp429_computer_network.Transfer.Receiver.Files.{IsFile}
use comp429_computer_network.Transfer.Receiver.Invariant.{Inv}
use comp429_computer_network.Transfer.Receiver.Reach.{Reach, Reach-Inv}
use comp429_computer_network.Transfer.Sender.{Sender, Time, send_window, is_past_last}
use comp429_computer_network.Transfer.Sender.Window.{Sending}

-- The acknowledgement of the invariant's states.
pub acknowledge-start :
    (chunks : List (List ℕ)) (r : Receiver) (sec usec : ℕ)
    → Inv chunks r
    → acknowledge r sec usec ≡ ack_packet ((r.last_id + 15) % 16) sec usec
unfolding acknowledge
acknowledge-start chunks r sec usec inv =
    ap (λ n. ack_packet n sec usec)
      (mod_int_pred r.la_seq (omega (arith, inv.start)) ∙ omega (arith, inv.start))

-- In every state that the receiver's loop can reach, its acknowledgement is the one that the sender
-- takes for as many chunks as are written.
pub acknowledge-written :
    (chunks : List (List ℕ)) (r : Receiver) (sec usec : ℕ)
    → IsFile chunks
    → Reach chunks r
    → acknowledge r sec usec ≡ ack_packet ((r.last_id + 15) % 16) sec usec
acknowledge-written chunks r sec usec file reach =
    acknowledge-start chunks r sec usec (Reach-Inv chunks file reach)

-- When the sender has read the whole file and the last packet's number is below the window's start, as
-- it is when the window crosses the wrap, the sending loop sends nothing, whatever has timed out.
pub send_window-past_wrap :
    (chunks : List (List ℕ)) (acked : ℕ) (clock : ℕ → Time) (s : Sender)
    → Sending chunks acked s
    → s.packet_id ≡ length chunks
    → (length chunks - 1) % 16 < acked % 16
    → send_window clock s.la_seq window_len s.la_seq s ≡ some (s, [])
unfolding send_window is_past_last
send_window-past_wrap chunks acked clock s h all wraps = elim h.last [
  | inl (_, more) ↦ absurd (omega arith)
  | inr (known, _) ↦
      let past : is_past_last s.last_window s.la_seq ≡ true =
        rw (is_past_last, known, h.start) (ground (arith, wraps)) in
      rw (send_window, past) refl
]
