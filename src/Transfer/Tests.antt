-- ===== src/Transfer/Tests.antt =====
-- Concrete runs of project2's code.
mod Wrap
mod Delivery
use comp429_computer_network.Base.{
  ℕ, ◌+◌, ◌%◌, ◌-◌, All, get_elem?, ◌≤◌, ◌<◌, ◌≡◌, refl, List, [], ◌∷◌, ◌++◌, some, arith,
  replicate, take, joined, true, ◌↔◌, overwrite, store16, store32, htons, load16, htonl, load32,
}
use comp429_computer_network.Base.Int.{pos, sub_ℕ}
use comp429_computer_network.Transfer.Packet.{
  chunk_packet, ack_packet, data_packet, crc_matches, crc_at, type_field, id_field, seq_field,
}
use comp429_computer_network.Transfer.Crc.{
  calc_crc16, crc_bits, crc_bytes, crc_flush, reverse_bits, shift_in,
}
use comp429_computer_network.Transfer.Receiver.{
  Receiver, receive, init, run, Input, fresh_node, advance, take_data, accept, write_out, count_run,
  empty_window, eq_ℤ, store_data, acknowledge,
}
use comp429_computer_network.Transfer.Receiver.Files.{IsFile}
use comp429_computer_network.Transfer.Receiver.Safety.{
  Arrives, packet, init-Inv, receive-Inv, receive-next,
}
use comp429_computer_network.Transfer.Receiver.Invariant.{Inv}
use comp429_computer_network.Transfer.Packet.Data.{Reads, data_packet-Reads}
use comp429_computer_network.Transfer.Packet.Ack.{AckReads, ack_packet-AckReads}
use comp429_computer_network.Transfer.Util.{
  between, distance, between_window, between-distance, map_to_window, map_to_window-distance,
  mod_int, mod_int_pred, chksum,
}
use comp429_computer_network.Base.{ap, inr, suc, get_or-replicate}
use comp429_computer_network.Transfer.Sender.{
  Sender, Time, AlarmTime, PassInput, free_alarm, proceed, start_sender, send_pass, check_timeout,
  receive_ack, send_window, send_slot, load_packet, send_node, set_alarm, is_past_last, lt_ℤ,
  elapsed, int_of, take_ack, Outcome,
}
use comp429_computer_network.Transfer.Sender.Window.{Sending, alarm_of}
use comp429_computer_network.Transfer.Sender.Passes.{Passes, send_pass-Passes}
use comp429_computer_network.Transfer.Sender.Heard.{nothing}
use comp429_computer_network.Transfer.Sender.Timeouts.{start_sender-Sending}
use comp429_computer_network.Transfer.Sender.Moves.{IsMoved, take_ack-IsMoved}
use comp429_computer_network.Transfer.Handshake.{
  receive_reply, name_reply, acknowledged, receive_reply-name_reply,
}
use comp429_computer_network.Transfer.Link.{acknowledge-written}
use comp429_computer_network.Transfer.Checksum.{
  IsWord, ones_complement, chksum-ones_complement, chksum-verifies,
}
use comp429_computer_network.Transfer.Queue.{dequeue, enqueue, get_k, get_k-get_elem?}
use comp429_computer_network.Transfer.Receiver.Reach.{
  Reach, start, pass, Reach-prefix, exit_complete, advance_past_wrap,
}

-- A file of three bytes, in one packet.
abbrev small_file : List (List ℕ)
small_file = (7 ∷ 8 ∷ 9 ∷ []) ∷ []

small_file-IsFile : IsFile small_file
small_file-IsFile = record {
  countable = omega arith;
  full = λ j h. absurd (omega arith);
  short = λ j h. let e : j ≡ 0 = omega arith in rw e (omega arith);
}

-- The receiver after its packet.
abbrev after_packet : Receiver
after_packet = record {
  la_seq = 1;
  received = replicate 16 0;
  last_id = 1;
  ready_exit = 2;
  last_window = pos 0;
  root = replicate 8 fresh_node;
  written = 7 ∷ 8 ∷ 9 ∷ [];
  buf = 8 ∷ 118 ∷ 0 ∷ 0 ∷ 0 ∷ 0 ∷ 0 ∷ 4 ∷ 0 ∷ 0 ∷ 0 ∷ 1 ∷ 7 ∷ 8 ∷ 9 ∷ [];
}

packet_received : receive (chunk_packet small_file 0) init ≡ some after_packet
unfolding receive init chunk_packet data_packet store16 store32 crc_matches htons load16 crc_at
    calc_crc16 htonl type_field id_field load32 take_data between seq_field accept write_out
    crc_bits crc_bytes crc_flush reverse_bits shift_in dequeue enqueue get_k advance count_run
    empty_window eq_ℤ store_data map_to_window
packet_received = refl

-- A run over a damaged datagram, silence, and the packet: three acknowledgements, the last of packet 0.
abbrev inputs : List Input
inputs =
    record { datagram = 1 ∷ 2 ∷ 3 ∷ []; sec = 5; usec = 6 }
    ∷ record { datagram = []; sec = 5; usec = 7 }
    ∷ record { datagram = chunk_packet small_file 0; sec = 5; usec = 8 }
    ∷ []

run_small :
    run inputs init
    ≡ some (after_packet, ack_packet 15 5 6 ∷ ack_packet 15 5 7 ∷ ack_packet 0 5 8 ∷ [])
unfolding run ack_packet acknowledge mod_int receive init chunk_packet data_packet store16 store32
    crc_matches htons load16 crc_at calc_crc16 htonl type_field id_field load32 take_data between
    seq_field accept write_out crc_bits crc_bytes crc_flush reverse_bits shift_in dequeue enqueue
    get_k advance count_run empty_window eq_ℤ store_data map_to_window
run_small = refl

reached : Reach small_file after_packet
reached = pass start (packet 0 (omega arith) (unfold init in omega arith) refl) packet_received

Reach-prefix_example : (after_packet.written ≡ joined (take 1 small_file)) × (1 ≤ 1)
Reach-prefix_example = Reach-prefix small_file after_packet small_file-IsFile reached

exit_complete_example : after_packet.written ≡ joined small_file
exit_complete_example = exit_complete small_file after_packet small_file-IsFile reached refl

receive-Inv_example :
    (s : Receiver) × (receive (chunk_packet small_file 0) init ≡ some s)
    × Inv small_file s
    × (init.last_id ≤ s.last_id)
receive-Inv_example =
    receive-Inv small_file small_file-IsFile init (chunk_packet small_file 0) (init-Inv small_file)
      (packet 0 (omega arith) (unfold init in omega arith) refl)

receive-next_example :
    (s : Receiver) × (receive (chunk_packet small_file init.last_id) init ≡ some s)
    × Inv small_file s
    × (init.last_id < s.last_id)
receive-next_example =
    receive-next small_file small_file-IsFile init (init-Inv small_file)
      (unfold init in omega arith)

-- Chunks 15 and 16 of a file of 17 are both there when the window starts at 15.
abbrev near_wrap : Receiver
near_wrap = record {
  la_seq = 15;
  received = replicate 16 0;
  last_id = 17;
  ready_exit = 1;
  last_window = pos 0;
  root = replicate 8 fresh_node;
  written = [];
  buf = [];
}

data_packet-Reads_example :
    Reads (overwrite (data_packet 3 2 20 (7 ∷ 8 ∷ [])) (replicate 20 255)) 3 2 20 (7 ∷ 8 ∷ [])
data_packet-Reads_example =
    data_packet-Reads 3 2 20 (7 ∷ 8 ∷ []) (replicate 20 255) (omega arith) (omega arith)
      (omega arith) (omega arith)

ack_packet-AckReads_example :
    AckReads (overwrite (ack_packet 15 1700000000 999999) []) 15 1700000000 999999
ack_packet-AckReads_example =
    ack_packet-AckReads 15 1700000000 999999 [] (omega arith) (omega arith) (omega arith)

between_window_example : (between 12 ((12 + 8 - 1) % 16) 2 ≡ true) ↔ (distance 12 2 < 8)
between_window_example = between_window 12 2 (omega arith) (omega arith)

between-distance_example : (between 12 3 2 ≡ true) ↔ (distance 12 2 ≤ distance 12 3)
between-distance_example = between-distance 12 3 2 (omega arith) (omega arith) (omega arith)

map_to_window-distance_example : map_to_window 12 2 ≡ distance 12 2
map_to_window-distance_example = map_to_window-distance 12 2 (omega arith) (omega arith)

abbrev two_words : List ℕ
two_words = 0xffff ∷ 0x8001 ∷ []

two_words-AreWords : All IsWord two_words
two_words-AreWords = (omega arith, (omega arith, tt))

chksum-ones_complement_example : chksum two_words ≡ 65535 - ones_complement 98304
chksum-ones_complement_example = chksum-ones_complement two_words two_words-AreWords

chksum-verifies_example : chksum (two_words ++ chksum two_words ∷ []) ≡ 0
chksum-verifies_example = chksum-verifies two_words two_words-AreWords

-- The sender of the small file, before its first pass.
abbrev small_sender : Sender
small_sender = start_sender 0 (joined small_file)

small_sender-Sending : Sending small_file 0 small_sender
small_sender-Sending = start_sender-Sending small_file 0 (omega arith)

abbrev at_six : Time
at_six = record { sec = 5; usec = 6 }

abbrev no_ack : PassInput
no_ack = record { checked = λ i. at_six; datagram = []; now = at_six; sending = λ i. at_six }

-- The first pass reads the file and sends it, and the sender then waits.
abbrev waiting : Sender
waiting = record {
  alarm_list =
      record { is_set = 1; reload = 1; size = 3; tv_sec = 5; tv_usec = 6 }
      ∷ replicate 15 free_alarm;
  la_seq = 0;
  packet_id = 1;
  root = record { contents = chunk_packet small_file 0; size = 0 } ∷ [];
  last_window = pos 0;
  last_ack_time = 0;
  timeout = pos 5000;
  buf = [];
  unread = [];
}

first_pass : send_pass no_ack small_sender ≡ some (proceed waiting, chunk_packet small_file 0 ∷ [])
unfolding send_pass start_sender check_timeout receive_ack send_window send_slot load_packet
    send_node set_alarm is_past_last lt_ℤ elapsed int_of receive init chunk_packet data_packet
    store16 store32 crc_matches htons load16 crc_at calc_crc16 htonl type_field id_field load32
    take_data between seq_field accept write_out crc_bits crc_bytes crc_flush reverse_bits shift_in
    dequeue enqueue get_k advance count_run empty_window eq_ℤ store_data map_to_window
first_pass = refl

send_pass-Passes_example : Passes small_file 0 (send_pass no_ack small_sender)
send_pass-Passes_example =
    send_pass-Passes small_file 0 0 no_ack small_sender small_file-IsFile small_sender-Sending
      (nothing refl refl)

waiting-Sending : Sending small_file 0 waiting
waiting-Sending = record {
  unfinished = omega arith;
  start = refl;
  count = refl;
  within = omega arith;
  few = omega arith;
  rest = refl;
  alarms_len = refl;
  last = inr (refl, refl);
  loaded = λ j lj hj.
      let e : j ≡ 0 = omega arith in
      rw e (
        unfold receive init chunk_packet data_packet store16 store32 crc_matches htons load16 crc_at
          calc_crc16 htonl type_field id_field load32 take_data between seq_field accept write_out
          crc_bits crc_bytes crc_flush reverse_bits shift_in dequeue enqueue get_k advance count_run
          empty_window eq_ℤ store_data map_to_window in
        refl);
  busy = λ j lj hj. let e : j ≡ 0 = omega arith in rw e (λ z. absurd (omega arith));
  free = λ j lj hj. free_later j lj hj;
}
  where
    free_later : (j : ℕ) → 1 ≤ j → j < 16 → (alarm_of waiting j).is_set ≡ 0
    free_later j lj hj =
        let e : j % 16 ≡ suc (j - 1) = omega arith in
        rw e (ap (λ (a : AlarmTime). a.is_set) (get_or-replicate 15 (j - 1) free_alarm))

-- The acknowledgement of its only packet ends the loop.
take_ack-IsMoved_example :
    (o : Outcome) × (take_ack at_six 0 waiting ≡ some o) × IsMoved small_file 1 o
take_ack-IsMoved_example =
    take_ack-IsMoved small_file 0 at_six 1 waiting waiting-Sending (omega arith) (omega arith)

receive_reply-name_reply_example : receive_reply 0 (name_reply 5 6) [] ≡ some (acknowledged 5000006)
receive_reply-name_reply_example =
    receive_reply-name_reply 5 6 0 [] (omega arith) (omega arith) (omega arith)
