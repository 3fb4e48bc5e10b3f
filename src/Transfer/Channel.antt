-- ===== src/Transfer/Channel.antt =====
-- sendfile.c and recvfile.c at work together: their data loops, and the network between them, which
-- loses, damages, repeats and reorders what it is given.
pub mod Invariant
pub mod Receives
pub mod Sends
pub mod Delivery
use comp429_computer_network.Base.{
  ℕ, ◌+◌, ◌*◌, ◌≤◌, ◌<◌, ◌≡◌, ◌≢◌, ◌⊎◌, List, [], ◌∷◌, ◌++◌, Bool, true, false, some, length, u32,
  overwrite, joined,
}
use comp429_computer_network.Transfer.Packet.{crc_matches, id_field, usec_field}
use comp429_computer_network.Transfer.Receiver.{Receiver, receive, acknowledge, init}
use comp429_computer_network.Transfer.Sender.{
  Sender, start_sender, Outcome, finished, continue, proceed, PassInput, send_pass,
}

-- An acknowledgement on the network: its bytes, how many chunks were written when it was sent, and its
-- time as the sender reckons it.
pub record Note : Type 0 where
  pub bytes : List ℕ
  pub told : ℕ
  pub stamp : ℕ

-- Both programs, everything that either has sent, the time of the last acknowledgement, and the times of
-- those before it.
pub record Channel : Type 0 where
  pub sender : Sender
  pub is_finished : Bool
  pub receiver : Receiver
  pub packets : List (List ℕ)
  pub notes : List Note
  pub clock : ℕ
  pub clocks : List ℕ

-- The channel when both data loops begin.
abbrev pub opened : ℕ → ℕ → List (List ℕ) → Channel
opened last_ack_time clock chunks = record {
  sender = start_sender last_ack_time (joined chunks);
  is_finished = false;
  receiver = init;
  packets = [];
  notes = [];
  clock = clock;
  clocks = [];
}

abbrev pub Among : {A : Type 0} → A → List A → Type 0
Among a [] = ⊥
Among a (x ∷ xs) = (a ≡ x) ⊎ Among a xs

-- What the network may hand to the receiver.
pub data ToReceiver (c : Channel) (dg : List ℕ) : Type 0 where
  silence : dg ≡ [] → ToReceiver c dg
  garbled :
      2 ≤ length dg
      → crc_matches (overwrite dg c.receiver.buf) (length dg) ≡ false
      → ToReceiver c dg
  delivered : Among dg c.packets → ToReceiver c dg

-- What the network may hand to the sender; `old_ack` is an answer of the handshake that comes late.
pub data ToSender (c : Channel) (dg : List ℕ) : Type 0 where
  no_ack : dg ≡ [] → ToSender c dg
  bad_ack :
      2 ≤ length dg → crc_matches (overwrite dg c.sender.buf) (length dg) ≡ false → ToSender c dg
  old_ack :
      2 ≤ length dg
      → u32
          (usec_field (overwrite dg c.sender.buf) + 1000000 * id_field (overwrite dg c.sender.buf))
        ≤ c.sender.last_ack_time
      → ToSender c dg
  new_ack : (n : Note) → Among n c.notes → dg ≡ n.bytes → ToSender c dg

-- The microseconds of an acknowledgement's time, modulo 2 ^ 32.
abbrev pub stamp_of : ℕ → ℕ → ℕ
stamp_of sec usec = u32 (usec + 1000000 * sec)

abbrev pub is_end : Outcome → Bool
is_end finished = true
is_end (continue t) = false
is_end (proceed t) = false

abbrev pub sender_after : Outcome → Sender → Sender
sender_after finished s = s
sender_after (continue t) s = t
sender_after (proceed t) s = t

-- One pass of either loop.
pub data Step : Channel → Channel → Type 0 where
  receives :
      (c : Channel) (dg : List ℕ) (sec usec : ℕ) (s : Receiver)
      → ToReceiver c dg
      → c.receiver.ready_exit ≢ 2
      → sec < 4294967296
      → usec < 4294967296
      → receive dg c.receiver ≡ some s
      → Step c (record c {
        receiver = s;
        notes =
            (record { bytes = acknowledge s sec usec; told = s.last_id; stamp = stamp_of sec usec })
            ∷ c.notes;
        clock = stamp_of sec usec;
        clocks = c.clock ∷ c.clocks;
      })
  sends :
      (c : Channel) (input : PassInput) (o : Outcome) (sent : List (List ℕ))
      → ToSender c input.datagram
      → c.is_finished ≡ false
      → send_pass input c.sender ≡ some (o, sent)
      → Step c (record c {
        sender = sender_after o c.sender;
        is_finished = is_end o;
        packets = sent ++ c.packets;
      })

-- A clock that has not stepped back, and whose count of microseconds has not passed a multiple of 2 ^ 32:
-- its times, the last one first.
abbrev pub IsForward : ℕ → List ℕ → Type 0
IsForward now [] = Unit {0}
IsForward now (before ∷ clocks) = (before ≤ now) × IsForward before clocks

-- The states that a transfer of the file with these chunks may come to.
pub data Runs (chunks : List (List ℕ)) : Channel → Type 0 where
  open_channel : (last_ack_time clock : ℕ) → Runs chunks (opened last_ack_time clock chunks)
  next : {c d : Channel} → Runs chunks c → Step c d → Runs chunks d
