-- ===== src/Transfer/Tests/Delivery.antt =====
-- A transfer of one packet by sendfile.c and recvfile.c together, from start to end.
use comp429_computer_network.Base.{
  ℕ, ◌≤◌, ◌≡◌, refl, inl, List, [], ◌∷◌, some, arith, take, joined, true, false, store16, store32,
  htons, load16, htonl, load32,
}
use comp429_computer_network.Transfer.Packet.{
  chunk_packet, ack_packet, crc_matches, crc_at, id_field, ack_field, usec_field,
}
use comp429_computer_network.Transfer.Crc.{
  calc_crc16, crc_bits, crc_bytes, crc_flush, reverse_bits, shift_in,
}
use comp429_computer_network.Transfer.Util.{between, mod_int}
use comp429_computer_network.Transfer.Receiver.{Receiver, receive, acknowledge, init}
use comp429_computer_network.Transfer.Sender.{
  Outcome, PassInput, finished, proceed, send_pass, check_timeout, receive_ack, take_ack,
  is_last_ack, lt_ℤ, elapsed, int_of,
}
use comp429_computer_network.Transfer.Channel.{
  Channel, ToReceiver, ToSender, delivered, no_ack, new_ack, receives, sends, Runs, open_channel,
  next, opened,
}
use comp429_computer_network.Transfer.Channel.Delivery.{Runs-delivers, Runs-safe}
use comp429_computer_network.Transfer.Tests.{
  small_file, small_file-IsFile, after_packet, packet_received, waiting, at_six, first_pass,
}

-- The sender's first pass puts the packet on the network.
abbrev packet_sent : Channel
packet_sent = record (opened 0 0 small_file) {
  sender = waiting;
  packets = chunk_packet small_file 0 ∷ [];
}

packet_sent-Runs : Runs small_file packet_sent
packet_sent-Runs = next (open_channel 0 0) (
    sends (opened 0 0 small_file)
      (record { checked = λ i. at_six; datagram = []; now = at_six; sending = λ i. at_six })
      (proceed waiting) (chunk_packet small_file 0 ∷ []) (no_ack refl) refl first_pass)

-- The receiver takes it and answers.
abbrev packet_taken : Channel
packet_taken = record packet_sent {
  receiver = after_packet;
  notes = record { bytes = acknowledge after_packet 5 8; told = 1; stamp = 5000008 } ∷ [];
  clock = 5000008;
  clocks = 0 ∷ [];
}

packet_taken-Runs : Runs small_file packet_taken
packet_taken-Runs = next packet_sent-Runs (
    receives packet_sent (chunk_packet small_file 0) 5 8 after_packet (delivered (inl refl))
      (unfold init in omega arith) (omega arith) (omega arith) packet_received)

-- The answer ends the sender's loop.
abbrev last_input : PassInput
last_input = record {
  checked = λ i. at_six;
  datagram = acknowledge after_packet 5 8;
  now = at_six;
  sending = λ i. at_six;
}

last_pass : send_pass last_input waiting ≡ some (finished, [])
unfolding send_pass check_timeout receive_ack take_ack is_last_ack lt_ℤ elapsed int_of acknowledge
    ack_packet mod_int store16 store32 crc_matches htons load16 crc_at calc_crc16 htonl id_field
    ack_field usec_field load32 between crc_bits crc_bytes crc_flush reverse_bits shift_in
last_pass = refl

abbrev packet_acked : Channel
packet_acked = record packet_taken { is_finished = true }

packet_acked-Runs : Runs small_file packet_acked
packet_acked-Runs =
    next packet_taken-Runs
      (sends packet_taken last_input finished [] (new_ack _ (inl refl) refl) refl last_pass)

Runs-delivers_example :
    (after_packet.written ≡ joined (take 1 small_file))
    × (1 ≤ 1)
    × (true ≡ true → after_packet.written ≡ joined small_file)
Runs-delivers_example =
    Runs-delivers small_file packet_acked small_file-IsFile (omega arith) packet_acked-Runs
      (omega arith, tt)

Runs-safe_example :
    ((dg : List ℕ)
      → ToReceiver packet_taken dg
      → (s : Receiver) × (receive dg after_packet ≡ some s))
    × ((input : PassInput)
        → ToSender packet_taken input.datagram
        → packet_taken.is_finished ≡ false
        → (o : Outcome) × (sent : List (List ℕ)) × (send_pass input waiting ≡ some (o, sent)))
Runs-safe_example =
    Runs-safe small_file packet_taken small_file-IsFile (omega arith) packet_taken-Runs
      (omega arith, tt)
