-- ===== src/Transfer/Channel/Delivery.antt =====
-- Whole transfers of a file: what the network can and cannot do to it.
use comp429_computer_network.Base.{
  ℕ, ◌≤◌, ◌≡◌, ◌∙◌, ap, List, some, length, take, take-length, joined, true, false,
}
use comp429_computer_network.Transfer.Receiver.{Receiver, receive}
use comp429_computer_network.Transfer.Receiver.Files.{IsFile}
use comp429_computer_network.Transfer.Sender.{Outcome, PassInput, send_pass}
use comp429_computer_network.Transfer.Channel.{
  Channel, ToReceiver, ToSender, Step, receives, sends, Runs, open_channel, next, IsForward,
}
use comp429_computer_network.Transfer.Channel.Invariant.{Joint, opened-Joint}
use comp429_computer_network.Transfer.Channel.Receives.{receive-Joint, receives-Joint}
use comp429_computer_network.Transfer.Channel.Sends.{send_pass-Joint, sends-Joint}

module _ (chunks : List (List ℕ)) (file : IsFile chunks) (some_chunk : 1 ≤ length chunks) where
  Step-Joint :
      (acked : ℕ) {c d : Channel}
      → Step c d
      → IsForward d.clock d.clocks
      → Joint chunks acked c
      → (acked' : ℕ) × Joint chunks acked' d
  Step-Joint acked (receives c dg sec usec s arrives going sec_fits usec_fits e) forward h = (
    acked,
    receives-Joint chunks file acked c dg sec usec s h arrives going sec_fits usec_fits forward.0 e,
  )
  Step-Joint acked (sends c input o sent arrives going e) forward h =
      sends-Joint chunks acked c h input o sent file arrives going e

  -- The clock had not stepped back before the step either.
  Step-IsForward :
      {c d : Channel} → Step c d → IsForward d.clock d.clocks → IsForward c.clock c.clocks
  Step-IsForward (receives c dg sec usec s arrives going sec_fits usec_fits e) forward = forward.1
  Step-IsForward (sends c input o sent arrives going e) forward = forward

  Runs-Joint :
      {c : Channel}
      → Runs chunks c
      → IsForward c.clock c.clocks
      → (acked : ℕ) × Joint chunks acked c
  Runs-Joint (open_channel last_ack_time clock) forward =
      (0, opened-Joint chunks last_ack_time clock some_chunk)
  Runs-Joint (next before step) forward =
      let (acked, h) = Runs-Joint before (Step-IsForward step forward) in
      Step-Joint acked step forward h

-- While the receiver's clock has not stepped back, and its count of microseconds has not passed a multiple
-- of 2 ^ 32 since the transfer began, at every moment of a transfer of a file over a network that loses,
-- damages, repeats and reorders packets and acknowledgements, the receiver has written the first `last_id` chunks of the file, no
-- more than the sender has read; and when the sender has left its loop, the whole file is written.
pub Runs-delivers :
    (chunks : List (List ℕ)) (c : Channel)
    → IsFile chunks
    → 1 ≤ length chunks
    → Runs chunks c
    → IsForward c.clock c.clocks
    → (c.receiver.written ≡ joined (take c.receiver.last_id chunks))
      × (c.receiver.last_id ≤ c.sender.packet_id)
      × (c.is_finished ≡ true → c.receiver.written ≡ joined chunks)
Runs-delivers chunks c file some_chunk runs forward =
    let (acked, h) = Runs-Joint chunks file some_chunk runs forward in
    (
      h.inv.holds.put_out,
      h.below.0,
      λ done. h.inv.holds.put_out ∙ rw (h.whole done) (ap joined (take-length chunks)),
    )

-- While the receiver's clock has not stepped back, and its count of microseconds has not passed a multiple
-- of 2 ^ 32 since the transfer began, at every moment of such a transfer, neither program's pass leaves
-- its array of the window's numbers (the sender's alarms, the receiver's flag of the packet's number) or follows a NULL of its
-- packet queue, whatever the network hands over.
pub Runs-safe :
    (chunks : List (List ℕ)) (c : Channel)
    → IsFile chunks
    → 1 ≤ length chunks
    → Runs chunks c
    → IsForward c.clock c.clocks
    → ((dg : List ℕ) → ToReceiver c dg → (s : Receiver) × (receive dg c.receiver ≡ some s))
      × ((input : PassInput)
          → ToSender c input.datagram
          → c.is_finished ≡ false
          → (o : Outcome) × (sent : List (List ℕ)) × (send_pass input c.sender ≡ some (o, sent)))
Runs-safe chunks c file some_chunk runs forward =
    let (acked, h) = Runs-Joint chunks file some_chunk runs forward in
    (
      (λ dg arrives.
          let (s, e, _, _, _) = receive-Joint chunks file acked c dg h arrives in (s, e)),
      λ input arrives going. send_pass-Joint chunks acked c h input file arrives going,
    )
