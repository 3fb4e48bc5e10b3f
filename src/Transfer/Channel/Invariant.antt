-- ===== src/Transfer/Channel/Invariant.antt =====
-- What holds of both programs together, at every moment of a transfer.
use comp429_computer_network.Base.{
  ℕ, ◌+◌, ◌%◌, ◌≤◌, ◌<◌, ◌≡◌, inl, inr, List, [], ◌∷◌, length, All, arith, true, false, joined,
  get_or-replicate,
}
use comp429_computer_network.Transfer.Packet.{chunk_packet, ack_packet}
use comp429_computer_network.Transfer.Receiver.{init, flag}
use comp429_computer_network.Transfer.Receiver.Invariant.{Inv, Below}
use comp429_computer_network.Transfer.Receiver.Safety.{init-Inv}
use comp429_computer_network.Transfer.Sender.{start_sender}
use comp429_computer_network.Transfer.Sender.Window.{Sending}
use comp429_computer_network.Transfer.Sender.Timeouts.{start_sender-Sending}
use comp429_computer_network.Transfer.Channel.{Channel, Note, Among, opened, stamp_of}

-- A packet on the network carries one of the chunks that are read, none further than the window that
-- the sender has or had.
abbrev pub IsCarried : List (List ℕ) → ℕ → ℕ → List ℕ → Type 0
IsCarried chunks acked read dg =
    (j : ℕ) × (j < acked + 8) × (j < read) × (dg ≡ chunk_packet chunks j)

-- An acknowledgement on the network is of no more than is written, and if it is later than the last
-- one that the sender took, of no less than the sender knows of.
pub record IsNoted (acked written last_ack_time clock : ℕ) (n : Note) : Type 0 where
  pub sec : ℕ
  pub usec : ℕ
  pub sec_fits : sec < 4294967296
  pub usec_fits : usec < 4294967296
  pub bytes_eq : n.bytes ≡ ack_packet ((n.told + 15) % 16) sec usec
  pub stamp_eq : n.stamp ≡ stamp_of sec usec
  pub known : n.told ≤ written
  pub passed : n.stamp ≤ clock
  pub news : last_ack_time < n.stamp → acked ≤ n.told

pub record Joint (chunks : List (List ℕ)) (acked : ℕ) (c : Channel) : Type 0 where
  pub inv : Inv chunks c.receiver
  pub below : Below c.sender.packet_id c.receiver
  pub behind : acked ≤ c.receiver.last_id
  pub read : c.sender.packet_id ≤ length chunks
  pub sending : c.is_finished ≡ false → Sending chunks acked c.sender
  pub whole : c.is_finished ≡ true → c.receiver.last_id ≡ length chunks
  pub carried : All (IsCarried chunks acked c.sender.packet_id) c.packets
  pub noted : All (IsNoted acked c.receiver.last_id c.sender.last_ack_time c.clock) c.notes
  pub ordered :
      (a b : Note) → Among a c.notes → Among b c.notes → a.stamp < b.stamp → a.told ≤ b.told

pub All-Among : {A : Type 0} (P : A → Type 0) (xs : List A) (a : A) → All P xs → Among a xs → P a
All-Among P [] a h m = absurd m
All-Among P (x ∷ xs) a h (inl e) = rw e h.0
All-Among P (x ∷ xs) a h (inr m) = All-Among P xs a h.1 m

pub opened-Joint :
    (chunks : List (List ℕ)) (last_ack_time clock : ℕ)
    → 1 ≤ length chunks
    → Joint chunks 0 (opened last_ack_time clock chunks)
opened-Joint chunks last_ack_time clock some_chunk = record {
  inv = init-Inv chunks;
  below = unfold init start_sender in (omega arith, λ k lk hk raised. absurd (raised (down k)));
  behind = omega arith;
  read = sending.within;
  sending = λ _. sending;
  whole = λ e. cc;
  carried = tt;
  noted = tt;
  ordered = λ a b m n lt. absurd m;
}
  where
    sending : Sending chunks 0 (start_sender last_ack_time (joined chunks))
    sending = start_sender-Sending chunks last_ack_time some_chunk

    down : (k : ℕ) → flag init.received k ≡ 0
    down k = unfold init in get_or-replicate 16 (k % 16) 0
